-- ===== src/Circuit/Threshold.antt =====
-- When consecutive failures open the circuit, and what a success forgets.
use fantasy_xi.Prelude.{
  ℕ, ◌+◌, ◌≤◌, ◌<◌, ◌≡◌, none, List, [], ◌∷◌, arith, leb, Bool-cases, inl, inr, if◌then◌else◌,
  length,
}
use fantasy_xi.Circuit.{
  closed, opened, Options, Breaker, arm_probe, enter, transition_to, should_open, record_success,
  react_success, record_failure, react_failure, record_outcome, prune_outcomes,
}

module _ (o : Options) (draw : ℕ → ℕ) where
  -- Failures in a row, at the given times.
  abbrev pub fail_all : List ℕ → Breaker → Breaker
  fail_all [] b = b
  fail_all (now ∷ times) b = fail_all times (record_failure o now draw b)

  record_failure-opened :
      (now : ℕ) (b : Breaker) → b.state ≡ opened → (record_failure o now draw b).state ≡ opened
  unfolding record_failure react_failure record_outcome prune_outcomes
  record_failure-opened now b is_open = ground arith

  fail_all-opened :
      (times : List ℕ) (b : Breaker) → b.state ≡ opened → (fail_all times b).state ≡ opened
  fail_all-opened [] b is_open = is_open
  fail_all-opened (now ∷ times) b is_open =
      fail_all-opened times (record_failure o now draw b) (record_failure-opened now b is_open)

  record_failure-opens :
      (now : ℕ) (b : Breaker)
      → o.failure_rate_threshold ≡ none
      → b.state ≡ closed
      → o.failure_threshold ≤ b.consecutive_failures + 1
      → (record_failure o now draw b).state ≡ opened
  unfolding record_failure react_failure record_outcome prune_outcomes should_open transition_to
      enter arm_probe
  record_failure-opens now b plain is_closed enough = ground arith

  record_failure-counts :
      (now : ℕ) (b : Breaker)
      → o.failure_rate_threshold ≡ none
      → b.state ≡ closed
      → b.consecutive_failures + 1 < o.failure_threshold
      → ((record_failure o now draw b).state ≡ closed)
        × ((record_failure o now draw b).consecutive_failures ≡ b.consecutive_failures + 1)
  unfolding record_failure react_failure record_outcome prune_outcomes should_open
  record_failure-counts now b plain is_closed few = ground arith

  fail_all-closed :
      (times : List ℕ) (b : Breaker)
      → o.failure_rate_threshold ≡ none
      → b.state ≡ closed
      → b.consecutive_failures < o.failure_threshold
      → (fail_all times b).state ≡ (
          if leb o.failure_threshold (b.consecutive_failures + length times)
          then opened
          else closed)
  fail_all-closed [] b plain is_closed few = ground arith
  fail_all-closed (now ∷ times) b plain is_closed few =
      elim (Bool-cases (leb o.failure_threshold (b.consecutive_failures + 1))) [
        | inl t ↦ ground (
          arith,
          fail_all-opened times (record_failure o now draw b)
              (record_failure-opens now b plain is_closed (ground arith)),
        )
        | inr f ↦
            let (stays, counts) = record_failure-counts now b plain is_closed (ground arith) in
            ground (
              arith,
              fail_all-closed times (record_failure o now draw b) plain stays (ground arith),
            )
      ]

  record_success-forgets :
      (now : ℕ) (b : Breaker)
      → b.state ≡ closed
      → ((record_success o now draw b).state ≡ closed)
        × ((record_success o now draw b).consecutive_failures ≡ 0)
  unfolding record_success react_success record_outcome prune_outcomes
  record_success-forgets now b is_closed = ground arith

  -- Without a failure rate and with a threshold of at least one: after a success in a closed circuit,
  -- failures in a row open the circuit when there are as many as the threshold, and otherwise leave
  -- it closed, whatever it had counted before.
  pub fail_all-record_success :
      (now : ℕ) (times : List ℕ) (b : Breaker)
      → o.failure_rate_threshold ≡ none
      → 1 ≤ o.failure_threshold
      → b.state ≡ closed
      → (fail_all times (record_success o now draw b)).state
        ≡ (if leb o.failure_threshold (length times) then opened else closed)
  fail_all-record_success now times b plain positive is_closed =
      let (stays, forgets) = record_success-forgets now b is_closed in
      ground (arith, fail_all-closed times (record_success o now draw b) plain stays (ground arith))
