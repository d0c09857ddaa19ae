-- ===== src/Circuit/Cooldown.antt =====
-- The cooldown of an open circuit: its bounds, and what a call meets before and after its end.
use fantasy_xi.Prelude.{
  ℕ, ◌+◌, ◌-◌, ◌≤◌, ◌<◌, ◌≡◌, ◌⊎◌, refl, Bool, true, false, ◌&&◌, ◌||◌, Option, none, some, arith,
  Bool-cases, inl, inr, leb, if◌then◌else◌,
}
use fantasy_xi.Circuit.{
  CircuitState, closed, opened, half_open, same_state, Options, Breaker, new_breaker, arm_probe,
  enter, max_cooldown_ms, decorrelated_jitter, transition_to, get_state, should_open, react_success,
  record_success, react_failure, record_failure, record_outcome, prune_outcomes, trip, reset,
  remaining_cooldown_ms, Admission, refused, admit, begin_call, end_call, rearm, scheduled,
  run_scheduled_probe, System, Step, begins, ends, rearms, fires, trips, resets, Reachable, starts,
  steps,
}

-- The cooldown is within its bounds, and an open circuit waits for it from its last change on.
abbrev IsTimed : Options → Breaker → Type 0
IsTimed o b =
    (o.cooldown_period_ms ≤ b.current_cooldown_ms)
    × (b.current_cooldown_ms ≤ max_cooldown_ms o)
    × (b.state ≡ opened
        → (t : ℕ) × (b.last_state_change_at ≡ some t)
          × (b.next_attempt_time ≡ t + b.current_cooldown_ms))

module _ (o : Options) (now : ℕ) (draw : ℕ → ℕ) where
  -- What a change of state leaves: a cooldown within its bounds, awaited from now if it opens.
  abbrev IsEntered : CircuitState → Breaker → Type 0
  IsEntered new b =
      (o.cooldown_period_ms ≤ b.current_cooldown_ms)
      × (b.current_cooldown_ms ≤ max_cooldown_ms o)
      × (new ≡ opened → b.next_attempt_time ≡ now + b.current_cooldown_ms)

  enter-IsEntered :
      (new : CircuitState) (b : Breaker) → IsTimed o b → IsEntered new (enter o now draw new b)
  unfolding enter arm_probe max_cooldown_ms decorrelated_jitter
  enter-IsEntered closed b h = (omega arith, omega arith, λ e. cc)
  enter-IsEntered opened b h = (ground arith, ground arith, λ e. ground arith)
  enter-IsEntered half_open b h = (h.0, h.1, λ e. cc)

  transition_to-IsTimed :
      (new : CircuitState) (b : Breaker) → IsTimed o b → IsTimed o (transition_to o now draw new b)
  unfolding transition_to
  transition_to-IsTimed new b h = elim (Bool-cases (same_state b.state new)) [
    | inl t ↦ rw t h
    | inr f ↦
        let (low, high, next) = enter-IsEntered new b h in
        rw f (low, high, λ e. (now, refl, next e))
  ]

  get_state-IsTimed : (b : Breaker) → IsTimed o b → IsTimed o (get_state o now draw b)
  unfolding get_state
  get_state-IsTimed b h =
      elim (Bool-cases (same_state b.state opened && leb b.next_attempt_time now)) [
        | inl t ↦ rw t (transition_to-IsTimed half_open b h)
        | inr f ↦ rw f h
      ]

  react_success-IsTimed :
      (s : CircuitState) (b : Breaker)
      → b.state ≡ s
      → IsTimed o b
      → IsTimed o (react_success o now draw s b)
  unfolding react_success
  react_success-IsTimed closed b e h = h
  react_success-IsTimed opened b e h = h
  react_success-IsTimed half_open b e h =
      elim (Bool-cases (leb o.success_threshold (b.half_open_successes + 1))) [
        | inl t ↦ rw t (
            transition_to-IsTimed closed
              (record b { half_open_successes = b.half_open_successes + 1 }) h)
        | inr f ↦ rw f h
      ]

  react_failure-IsTimed :
      (s : CircuitState) (b : Breaker) → IsTimed o b → IsTimed o (react_failure o now draw s b)
  unfolding react_failure
  react_failure-IsTimed closed b h = elim (Bool-cases (should_open o now draw b)) [
    | inl t ↦ rw t (transition_to-IsTimed opened b h)
    | inr f ↦ rw f h
  ]
  react_failure-IsTimed opened b h = h
  react_failure-IsTimed half_open b h = transition_to-IsTimed opened b h

  admit-IsTimed : (b : Breaker) → IsTimed o b → IsTimed o (admit now b).0
  unfolding admit
  admit-IsTimed b h =
      elim (Bool-cases
        (same_state b.state opened || (same_state b.state half_open && b.probe_in_flight))) [
          | inl t ↦ rw t h
          | inr f ↦
              rw f (elim (Bool-cases (same_state b.state half_open)) [
                | inl p ↦ rw p h
                | inr n ↦ rw n h
              ])
        ]

  begin_call-IsTimed : (b : Breaker) → IsTimed o b → IsTimed o (begin_call o now draw b).0
  unfolding begin_call
  begin_call-IsTimed b h = admit-IsTimed (get_state o now draw b) (get_state-IsTimed b h)

  end_call-IsTimed :
      (is_probe failed : Bool) (b : Breaker)
      → IsTimed o b
      → IsTimed o (end_call o now draw is_probe failed b)
  unfolding end_call record_success record_failure record_outcome prune_outcomes
  end_call-IsTimed true true b h = react_failure-IsTimed b.state _ h
  end_call-IsTimed true false b h = react_success-IsTimed b.state _ refl h
  end_call-IsTimed false true b h = react_failure-IsTimed b.state _ h
  end_call-IsTimed false false b h = react_success-IsTimed b.state _ refl h

  arm_probe-IsTimed : (delay : ℕ) (b : Breaker) → IsTimed o b → IsTimed o (arm_probe o now delay b)
  unfolding arm_probe max_cooldown_ms
  arm_probe-IsTimed delay b h = elim (Bool-cases o.has_probe) [ inl t ↦ rw t h | inr f ↦ rw f h ]

  rearm-IsTimed : (b : Breaker) → IsTimed o b → IsTimed o (rearm o now draw b)
  unfolding rearm
  rearm-IsTimed b h = elim (Bool-cases (same_state b.state half_open)) [
    | inl t ↦ rw t (arm_probe-IsTimed o.base_backoff_ms b h)
    | inr f ↦ rw f h
  ]

  if-IsTimed :
      (c : Bool) (x y : Breaker × Option Admission)
      → IsTimed o x.0
      → IsTimed o y.0
      → IsTimed o (if c then x else y).0
  if-IsTimed true x y h k = h
  if-IsTimed false x y h k = k

  scheduled-IsTimed :
      (s : CircuitState) (b : Breaker) → IsTimed o b → IsTimed o (scheduled o now draw s b).0
  unfolding scheduled
  scheduled-IsTimed closed b h = h
  scheduled-IsTimed opened b h = arm_probe-IsTimed (remaining_cooldown_ms now b) b h
  scheduled-IsTimed half_open b h =
      if-IsTimed b.probe_in_flight (b, none)
        ((begin_call o now draw b).0, some (begin_call o now draw b).1) h (begin_call-IsTimed b h)

  early_or_late :
      (b : Breaker) (next : ℕ)
      → b.state ≡ opened
      → b.next_attempt_time ≡ next
      → (now < next) × ((begin_call o now draw b).1 ≡ refused (next - now))
        ⊎ (next ≤ now) × ((get_state o now draw b).state ≡ half_open)
  unfolding begin_call get_state admit transition_to
  early_or_late b next is_open at = elim (Bool-cases (leb b.next_attempt_time now)) [
    | inl t ↦ inr (ground arith, ground arith)
    | inr f ↦ inl (ground arith, ground arith)
  ]

Step-IsTimed : (o : Options) (s t : System) → Step o s t → IsTimed o s.breaker → IsTimed o t.breaker
unfolding trip reset run_scheduled_probe
Step-IsTimed o r t (begins s now draw) h = begin_call-IsTimed o now draw s.breaker h
Step-IsTimed o r t (ends b before after is_probe failed now draw) h =
    end_call-IsTimed o now draw is_probe failed b h
Step-IsTimed o r t (rearms s now) h = rearm-IsTimed o now (λ n. 0) s.breaker h
Step-IsTimed o r t (fires s now draw) h =
    scheduled-IsTimed o now draw _ _
      (get_state-IsTimed o now draw (record s.breaker { probe_timer = none }) h)
Step-IsTimed o r t (trips s now draw) h = transition_to-IsTimed o now draw opened _ h
Step-IsTimed o r t (resets s now draw) h = transition_to-IsTimed o now draw closed s.breaker h

Reachable-IsTimed : (o : Options) (s : System) → Reachable o s → IsTimed o s.breaker
unfolding new_breaker max_cooldown_ms
Reachable-IsTimed o t starts = (omega arith, omega arith, λ e. cc)
Reachable-IsTimed o t (steps r s reached step) =
    Step-IsTimed o r s step (Reachable-IsTimed o r reached)

-- In every system that a new breaker can come to, an open circuit has opened at some time `t`: it
-- waits from `t` on for a cooldown that is no shorter than the configured one and no longer than the
-- cap; a call before its end is refused with the time that is left, and from its end on a look at
-- the state finds the circuit half open.
pub Reachable-Recovers :
    (o : Options) (s : System) (now : ℕ) (draw : ℕ → ℕ)
    → Reachable o s
    → s.breaker.state ≡ opened
    → (t : ℕ) × (d : ℕ) × (s.breaker.last_state_change_at ≡ some t)
      × (o.cooldown_period_ms ≤ d)
      × (d ≤ max_cooldown_ms o)
      × ((now < t + d) × ((begin_call o now draw s.breaker).1 ≡ refused (t + d - now))
          ⊎ (t + d ≤ now) × ((get_state o now draw s.breaker).state ≡ half_open))
unfolding begin_call get_state
Reachable-Recovers o s now draw reached is_open =
    let (low, high, timed) = Reachable-IsTimed o s reached in
    let (t, at, next) = timed is_open in
    (
      t,
      s.breaker.current_cooldown_ms,
      at,
      low,
      high,
      early_or_late o now draw s.breaker (t + s.breaker.current_cooldown_ms) is_open next,
    )
