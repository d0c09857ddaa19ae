-- ===== src/Circuit/Tests.antt =====
-- A circuit with the default options, tripped at time 0, and the theorems at it.
use fantasy_xi.Prelude.{ℕ, ◌+◌, ◌-◌, ◌≤◌, ◌<◌, ◌≡◌, ◌⊎◌, refl, true, some, [], ◌∷◌, arith}
use fantasy_xi.Circuit.{
  closed, opened, half_open, default_options, new_breaker, max_cooldown_ms, transition_to, enter,
  arm_probe, get_state, trip, begin_call, admit, record_success, refused, admitted, System, trips,
  begins, Reachable, starts, steps,
}
use fantasy_xi.Circuit.Probes.{probes, probes-Reachable}
use fantasy_xi.Circuit.Cooldown.{Reachable-Recovers}
use fantasy_xi.Circuit.Threshold.{fail_all, fail_all-record_success}

abbrev least : ℕ → ℕ
least n = 0

abbrev fresh : System
fresh = record { breaker = new_breaker default_options; calls = [] }

fresh-closed : fresh.breaker.state ≡ closed
unfolding new_breaker
fresh-closed = refl

abbrev tripped : System
tripped = record fresh { breaker = trip default_options 0 least fresh.breaker }

tripped-Reachable : Reachable default_options tripped
tripped-Reachable = steps fresh tripped starts (trips fresh 0 least)

abbrev probing : System
probing = record {
  breaker = (begin_call default_options 30000 least tripped.breaker).0;
  calls = true ∷ [];
}

-- At the end of its cooldown the tripped circuit lets one probe through.
probed : (begin_call default_options 30000 least tripped.breaker).1 ≡ admitted true
unfolding begin_call get_state admit transition_to enter arm_probe trip new_breaker
probed = refl

tripped-opened : tripped.breaker.state ≡ opened
unfolding trip transition_to enter arm_probe new_breaker
tripped-opened = refl

probing-Reachable : Reachable default_options probing
unfolding begin_call get_state admit transition_to enter arm_probe trip new_breaker
probing-Reachable = steps tripped probing tripped-Reachable (begins tripped 30000 least)

probes-Reachable_example : probes (true ∷ []) ≤ 1
probes-Reachable_example = probes-Reachable default_options probing probing-Reachable

Reachable-Recovers_example :
    (t : ℕ) × (d : ℕ) × (tripped.breaker.last_state_change_at ≡ some t)
    × (default_options.cooldown_period_ms ≤ d)
    × (d ≤ max_cooldown_ms default_options)
    × ((20000 < t + d)
          × ((begin_call default_options 20000 least tripped.breaker).1 ≡ refused (t + d - 20000))
        ⊎ (t + d ≤ 20000)
          × ((get_state default_options 20000 least tripped.breaker).state ≡ half_open))
Reachable-Recovers_example =
    Reachable-Recovers default_options tripped 20000 least tripped-Reachable tripped-opened

fail_all-record_success_example :
    (fail_all default_options least
      (1 ∷ 2 ∷ 3 ∷ 4 ∷ 5 ∷ [])
      (record_success default_options 0 least fresh.breaker)).state
    ≡ opened
fail_all-record_success_example =
    fail_all-record_success default_options least 0 (1 ∷ 2 ∷ 3 ∷ 4 ∷ 5 ∷ []) fresh.breaker refl
      (omega arith) fresh-closed
