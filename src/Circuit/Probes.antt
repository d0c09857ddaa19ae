-- ===== src/Circuit/Probes.antt =====
-- At most one probe is under way, however the calls interleave.
use fantasy_xi.Prelude.{
  ℕ, ◌+◌, ◌≤◌, ◌≡◌, refl, Bool, none, some, List, [], ◌∷◌, ◌++◌, arith, if◌then◌else◌,
}
use fantasy_xi.Circuit.{
  CircuitState, closed, opened, half_open, Options, Breaker, new_breaker, arm_probe, enter,
  transition_to, get_state, react_success, record_success, react_failure, record_failure,
  record_outcome, prune_outcomes, trip, reset, admit, begin_call, end_call, rearm, scheduled,
  run_scheduled_probe, System, started, Step, begins, ends, rearms, fires, trips, resets, Reachable,
  starts, steps,
}

abbrev pub probes : List Bool → ℕ
probes [] = 0
probes (p ∷ calls) = (if p then 1 else 0) + probes calls

-- The flag says how many probes are under way.
abbrev pub AreGuarded : Breaker → List Bool → Type 0
AreGuarded b calls = probes calls ≡ (if b.probe_in_flight then 1 else 0)

probes-middle :
    (before : List Bool) (p : Bool) (after : List Bool)
    → probes (before ++ p ∷ after) ≡ (if p then 1 else 0) + probes (before ++ after)
probes-middle [] p after = refl
probes-middle (q ∷ before) p after = omega (arith, probes-middle before p after)

module _ (o : Options) (now : ℕ) (draw : ℕ → ℕ) where
  transition_to-flag :
      (new : CircuitState) (b : Breaker)
      → (transition_to o now draw new b).probe_in_flight ≡ b.probe_in_flight
  unfolding transition_to enter arm_probe
  transition_to-flag closed b = ground arith
  transition_to-flag opened b = ground arith
  transition_to-flag half_open b = ground arith

  get_state-flag : (b : Breaker) → (get_state o now draw b).probe_in_flight ≡ b.probe_in_flight
  unfolding get_state
  get_state-flag b = ground (arith, transition_to-flag half_open b)

  react_success-flag :
      (s : CircuitState) (b : Breaker)
      → (react_success o now draw s b).probe_in_flight ≡ b.probe_in_flight
  unfolding react_success
  react_success-flag closed b = refl
  react_success-flag opened b = refl
  react_success-flag half_open b = ground (
    arith,
    transition_to-flag closed (record b { half_open_successes = b.half_open_successes + 1 }),
  )

  react_failure-flag :
      (s : CircuitState) (b : Breaker)
      → (react_failure o now draw s b).probe_in_flight ≡ b.probe_in_flight
  unfolding react_failure
  react_failure-flag closed b = ground (arith, transition_to-flag opened b)
  react_failure-flag opened b = refl
  react_failure-flag half_open b = transition_to-flag opened b

  record_success-flag :
      (b : Breaker) → (record_success o now draw b).probe_in_flight ≡ b.probe_in_flight
  unfolding record_success record_outcome prune_outcomes
  record_success-flag b = react_success-flag b.state _

  record_failure-flag :
      (b : Breaker) → (record_failure o now draw b).probe_in_flight ≡ b.probe_in_flight
  unfolding record_failure record_outcome prune_outcomes
  record_failure-flag b = react_failure-flag b.state _

  admit-AreGuarded :
      (b : Breaker) (calls : List Bool)
      → AreGuarded b calls
      → AreGuarded (admit now b).0 (started (some (admit now b).1) calls)
  unfolding admit
  admit-AreGuarded b calls h = ground arith

  begin_call-AreGuarded :
      (b : Breaker) (calls : List Bool)
      → AreGuarded b calls
      → AreGuarded (begin_call o now draw b).0 (started (some (begin_call o now draw b).1) calls)
  unfolding begin_call
  begin_call-AreGuarded b calls h =
      admit-AreGuarded (get_state o now draw b) calls (rw (get_state-flag b) h)

  end_call-AreGuarded :
      (b : Breaker) (before after : List Bool) (is_probe failed : Bool)
      → AreGuarded b (before ++ is_probe ∷ after)
      → AreGuarded (end_call o now draw is_probe failed b) (before ++ after)
  unfolding end_call
  end_call-AreGuarded b before after is_probe failed h =
      ground
        (arith, probes-middle before is_probe after, record_success-flag b, record_failure-flag b)

  scheduled-AreGuarded :
      (s : CircuitState) (b : Breaker) (calls : List Bool)
      → AreGuarded b calls
      → AreGuarded (scheduled o now draw s b).0 (started (scheduled o now draw s b).1 calls)
  unfolding scheduled arm_probe
  scheduled-AreGuarded closed b calls h = h
  scheduled-AreGuarded opened b calls h = ground arith
  scheduled-AreGuarded half_open b calls h = ground (arith, begin_call-AreGuarded b calls h)

  fires-AreGuarded :
      (b : Breaker) (calls : List Bool)
      → AreGuarded b calls
      → AreGuarded
          (run_scheduled_probe o now draw b).0
          (started (run_scheduled_probe o now draw b).1 calls)
  unfolding run_scheduled_probe
  fires-AreGuarded b calls h =
      let looked = get_state o now draw (record b { probe_timer = none }) in
      scheduled-AreGuarded looked.state looked calls
        (rw (get_state-flag (record b { probe_timer = none })) h)

  rearm-AreGuarded :
      (b : Breaker) (calls : List Bool) → AreGuarded b calls → AreGuarded (rearm o now draw b) calls
  unfolding rearm arm_probe
  rearm-AreGuarded b calls h = ground arith

Step-AreGuarded :
    (o : Options) (s t : System)
    → Step o s t
    → AreGuarded s.breaker s.calls
    → AreGuarded t.breaker t.calls
unfolding trip reset
Step-AreGuarded o r t (begins s now draw) h = begin_call-AreGuarded o now draw s.breaker s.calls h
Step-AreGuarded o r t (ends b before after is_probe failed now draw) h =
    end_call-AreGuarded o now draw b before after is_probe failed h
Step-AreGuarded o r t (rearms s now) h = rearm-AreGuarded o now (λ n. 0) s.breaker s.calls h
Step-AreGuarded o r t (fires s now draw) h = fires-AreGuarded o now draw s.breaker s.calls h
Step-AreGuarded o r t (trips s now draw) h =
    rw
      (transition_to-flag o now draw opened
        (record s.breaker { consecutive_failures = o.failure_threshold }))
      h
Step-AreGuarded o r t (resets s now draw) h = rw (transition_to-flag o now draw closed s.breaker) h

Reachable-AreGuarded : (o : Options) (s : System) → Reachable o s → AreGuarded s.breaker s.calls
unfolding new_breaker
Reachable-AreGuarded o t starts = refl
Reachable-AreGuarded o t (steps r s reached step) =
    Step-AreGuarded o r s step (Reachable-AreGuarded o r reached)

-- In every system that a new breaker can come to, at most one probe is under way.
pub probes-Reachable : (o : Options) (s : System) → Reachable o s → probes s.calls ≤ 1
probes-Reachable o s reached = ground (arith, Reachable-AreGuarded o s reached)
