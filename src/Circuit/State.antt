-- ===== src/Circuit/State.antt =====
-- The state and the options of the circuit breaker of backend/src/services/fpl/circuitBreaker.ts.
use fantasy_xi.Prelude.{ℕ, max, Bool, true, false, Option, none, List, []}

pub data CircuitState : Type 0 where
  closed opened half_open : CircuitState

abbrev pub same_state : CircuitState → CircuitState → Bool
same_state closed closed = true
same_state opened opened = true
same_state half_open half_open = true
same_state _ _ = false

pub record Fraction : Type 0 where
  pub numerator : ℕ
  pub denominator : ℕ

pub record Options : Type 0 where
  pub failure_threshold : ℕ
  pub cooldown_period_ms : ℕ
  pub success_threshold : ℕ
  pub base_backoff_ms : ℕ
  pub max_backoff_ms : ℕ
  pub failure_rate_threshold : Option Fraction
  pub rolling_window_ms : ℕ
  pub minimum_samples : ℕ
  pub option_max_cooldown_ms : ℕ
  pub has_probe : Bool

-- The defaults of the constructor, without a failure rate and without a probe.
abbrev pub default_options : Options
default_options = record {
  failure_threshold = 5;
  cooldown_period_ms = 30000;
  success_threshold = 1;
  base_backoff_ms = 1000;
  max_backoff_ms = 30000;
  failure_rate_threshold = none;
  rolling_window_ms = 30000;
  minimum_samples = 4;
  option_max_cooldown_ms = 300000;
  has_probe = false;
}

pub record Sample : Type 0 where
  pub at : ℕ
  pub failed : Bool

-- The mutable fields; `probe_timer` is when the timer fires, `changes` what `onStateChange` was told.
pub record Breaker : Type 0 where
  pub state : CircuitState
  pub consecutive_failures : ℕ
  pub half_open_successes : ℕ
  pub next_attempt_time : ℕ
  pub last_failure_time : Option ℕ
  pub outcomes : List Sample
  pub current_cooldown_ms : ℕ
  pub probe_in_flight : Bool
  pub probe_timer : Option ℕ
  pub last_state_change_at : Option ℕ
  pub successes : ℕ
  pub failures : ℕ
  pub short_circuited : ℕ
  pub changes : List (CircuitState × CircuitState)

unfoldable pub max_cooldown_ms : Options → ℕ
max_cooldown_ms o = max o.option_max_cooldown_ms o.cooldown_period_ms

unfoldable pub new_breaker : Options → Breaker
new_breaker o = record {
  state = closed;
  consecutive_failures = 0;
  half_open_successes = 0;
  next_attempt_time = 0;
  last_failure_time = none;
  outcomes = [];
  current_cooldown_ms = o.cooldown_period_ms;
  probe_in_flight = false;
  probe_timer = none;
  last_state_change_at = none;
  successes = 0;
  failures = 0;
  short_circuited = 0;
  changes = [];
}
