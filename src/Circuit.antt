-- ===== src/Circuit.antt =====
-- backend/src/services/fpl/circuitBreaker.ts: the circuit breaker before the upstream API. The clock
-- and the random draw are arguments: `draw n` is `Math.floor(Math.random() * n)`. The options are
-- whole numbers, the failure rate a fraction. `execute` is cut at its `await`, into the part before
-- the action and the part after it, so that calls interleave as sequences of steps.
mod State
pub mod Cooldown
pub mod Probes
pub mod Threshold
mod Tests
pub use State.{
  CircuitState, closed, opened, half_open, same_state, Fraction, Options, default_options, Sample,
  Breaker,
}
unfoldable pub use State.{max_cooldown_ms, new_breaker}
use fantasy_xi.Prelude.{
  ℕ, zero, suc, ◌+◌, ◌-◌, ◌*◌, min, max, Bool, true, false, not, ◌&&◌, ◌||◌, Option, none, some,
  List, [], ◌∷◌, ◌++◌, ltb, leb, if◌then◌else◌, length, filter,
}

-- The random delay lies between the base and three times the current delay, under the cap.
pub decorrelated_jitter : (ℕ → ℕ) → ℕ → ℕ → ℕ → ℕ
decorrelated_jitter draw current base cap =
    min cap (base + draw (max base (current * 3) - base + 1))

abbrev pub count_failed : List Sample → ℕ
count_failed [] = 0
count_failed (s ∷ samples) = (if s.failed then 1 else 0) + count_failed samples

-- The samples of the window: the loop stops at the first one that is recent.
pub recent : ℕ → ℕ → List Sample → List Sample
recent now window [] = []
recent now window (s ∷ samples) =
    let rest = recent now window samples in if leb (s.at + window) now then rest else s ∷ samples

module _ (o : Options) where
  pub prune_outcomes : ℕ → Breaker → Breaker
  prune_outcomes now b = record b { outcomes = recent now o.rolling_window_ms b.outcomes }

  pub record_outcome : ℕ → Bool → Breaker → Breaker
  record_outcome now failed b =
      prune_outcomes now
        (record b { outcomes = b.outcomes ++ record { at = now; failed = failed } ∷ [] })

  pub arm_probe : ℕ → ℕ → Breaker → Breaker
  arm_probe now delay b = if o.has_probe then record b { probe_timer = some (now + delay) } else b

  -- The fields that a change to the given state sets, the old state being in `b`.
  pub enter : ℕ → (ℕ → ℕ) → CircuitState → Breaker → Breaker
  enter now draw closed b = record b {
    consecutive_failures = 0;
    half_open_successes = 0;
    next_attempt_time = 0;
    outcomes = [];
    current_cooldown_ms = o.cooldown_period_ms;
    probe_timer = none;
  }
  enter now draw half_open b = record b { half_open_successes = 0 }
  enter now draw opened b =
      let cooldown =
        if same_state b.state half_open
        then decorrelated_jitter draw b.current_cooldown_ms o.cooldown_period_ms (max_cooldown_ms o)
        else o.cooldown_period_ms in
      arm_probe now cooldown
        (record b { current_cooldown_ms = cooldown; next_attempt_time = now + cooldown })

  pub transition_to : ℕ → (ℕ → ℕ) → CircuitState → Breaker → Breaker
  transition_to now draw new b =
      if same_state b.state new then b else record (enter now draw new b) {
        state = new;
        last_state_change_at = some now;
        changes = (b.state, new) ∷ b.changes;
      }

  -- `getState`: an open circuit whose cooldown has passed goes half open when it is looked at.
  pub get_state : ℕ → (ℕ → ℕ) → Breaker → Breaker
  get_state now draw b =
      if same_state b.state opened && leb b.next_attempt_time now
      then transition_to now draw half_open b
      else b

abbrev pub remaining_cooldown_ms : ℕ → Breaker → ℕ
remaining_cooldown_ms now b = if same_state b.state opened then b.next_attempt_time - now else 0

module _ (o : Options) (now : ℕ) (draw : ℕ → ℕ) where
  -- `failures / samples > threshold` without the division.
  abbrev pub rate_exceeds : Fraction → List Sample → Bool
  rate_exceeds t samples = ltb (t.numerator * length samples) (count_failed samples * t.denominator)

  -- Read after the outcome was recorded at the same time, so that the samples are pruned already.
  pub should_open : Breaker → Bool
  should_open b = elim o.failure_rate_threshold [
    | none ↦ leb o.failure_threshold b.consecutive_failures
    | some t ↦
        let samples = recent now o.rolling_window_ms b.outcomes in
        leb o.minimum_samples (length samples) && rate_exceeds t samples
  ]

  -- What a success does in each state, once it is counted.
  pub react_success : CircuitState → Breaker → Breaker
  react_success closed b = record b { consecutive_failures = 0 }
  react_success opened b = b
  react_success half_open b =
      let b' = record b { half_open_successes = b.half_open_successes + 1 } in
      if leb o.success_threshold b'.half_open_successes
      then transition_to o now draw closed b'
      else b'

  pub record_success : Breaker → Breaker
  record_success b =
      react_success b.state (record_outcome o now false (record b { successes = b.successes + 1 }))

  pub react_failure : CircuitState → Breaker → Breaker
  react_failure closed b = if should_open b then transition_to o now draw opened b else b
  react_failure opened b = b
  react_failure half_open b = transition_to o now draw opened b

  pub record_failure : Breaker → Breaker
  record_failure b = react_failure b.state (
      record_outcome o now true (record b {
        failures = b.failures + 1;
        last_failure_time = some now;
        consecutive_failures = b.consecutive_failures + 1;
      }))

  pub trip : Breaker → Breaker
  trip b = transition_to o now draw opened (record b { consecutive_failures = o.failure_threshold })

  pub reset : Breaker → Breaker
  reset b = transition_to o now draw closed b

-- What `execute` does with a call before its action: refuse it, with the remaining cooldown, or let
-- it through, as the probe of a half-open circuit or not.
pub data Admission : Type 0 where
  refused : ℕ → Admission
  admitted : (is_probe : Bool) → Admission

-- The part of `execute` before the action, `b` being the breaker after its `getState`.
pub admit : ℕ → Breaker → Breaker × Admission
admit now b =
    let is_probe = same_state b.state half_open in
    if same_state b.state opened || (is_probe && b.probe_in_flight)
    then (
      record b { short_circuited = b.short_circuited + 1 },
      refused (remaining_cooldown_ms now b),
    )
    else (if is_probe then record b { probe_in_flight = true } else b, admitted is_probe)

module _ (o : Options) (now : ℕ) (draw : ℕ → ℕ) where
  pub begin_call : Breaker → Breaker × Admission
  begin_call b = admit now (get_state o now draw b)

  -- The part of `execute` after the action, whether it failed or not, with its `finally`.
  pub end_call : (is_probe failed : Bool) → Breaker → Breaker
  end_call is_probe failed b =
      let b' = if failed then record_failure o now draw b else record_success o now draw b in
      if is_probe then record b' { probe_in_flight = false } else b'

  -- What follows the success of a scheduled probe.
  pub rearm : Breaker → Breaker
  rearm b = if same_state b.state half_open then arm_probe o now o.base_backoff_ms b else b

  -- The timer's callback, its breaker already looked at and in the given state: it arms itself again, does nothing, or
  -- starts a probe.
  pub scheduled : CircuitState → Breaker → Breaker × Option Admission
  scheduled closed b = (b, none)
  scheduled opened b = (arm_probe o now (remaining_cooldown_ms now b) b, none)
  scheduled half_open b =
      if b.probe_in_flight then (b, none) else let r = begin_call b in (r.0, some r.1)

  pub run_scheduled_probe : Breaker → Breaker × Option Admission
  run_scheduled_probe b =
      let b' = get_state o now draw (record b { probe_timer = none }) in scheduled b'.state b'

-- A breaker and the calls that are under way; of each, whether it is a probe.
pub record System : Type 0 where
  pub breaker : Breaker
  pub calls : List Bool

-- The calls with the one that was let through.
abbrev pub started : Option Admission → List Bool → List Bool
started none calls = calls
started (some (refused remaining)) calls = calls
started (some (admitted is_probe)) calls = is_probe ∷ calls

-- The steps of the event loop. Any call under way may end next, at any time.
pub data Step (o : Options) : System → System → Type 0 where
  begins :
      (s : System) (now : ℕ) (draw : ℕ → ℕ)
      → Step o s (record {
        breaker = (begin_call o now draw s.breaker).0;
        calls = started (some (begin_call o now draw s.breaker).1) s.calls;
      })
  ends :
      (b : Breaker) (before after : List Bool) (is_probe failed : Bool) (now : ℕ) (draw : ℕ → ℕ)
      → Step o
          (record { breaker = b; calls = before ++ is_probe ∷ after })
          (record { breaker = end_call o now draw is_probe failed b; calls = before ++ after })
  rearms : (s : System) (now : ℕ) → Step o s (record s { breaker = rearm o now (λ n. 0) s.breaker })
  fires :
      (s : System) (now : ℕ) (draw : ℕ → ℕ)
      → Step o s (record {
        breaker = (run_scheduled_probe o now draw s.breaker).0;
        calls = started (run_scheduled_probe o now draw s.breaker).1 s.calls;
      })
  trips :
      (s : System) (now : ℕ) (draw : ℕ → ℕ)
      → Step o s (record s { breaker = trip o now draw s.breaker })
  resets :
      (s : System) (now : ℕ) (draw : ℕ → ℕ)
      → Step o s (record s { breaker = reset o now draw s.breaker })

-- The systems that a new breaker can come to.
pub data Reachable (o : Options) : System → Type 0 where
  starts : Reachable o (record { breaker = new_breaker o; calls = [] })
  steps : (s t : System) → Reachable o s → Step o s t → Reachable o t
