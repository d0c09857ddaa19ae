-- ===== src/Webhooks/Attempts.antt =====
-- A row of failed attempts: when the delivery becomes a dead letter, and when the endpoint is
-- deactivated.
use fantasy_xi.Prelude.{
  All, ℕ, ◌+◌, ◌-◌, ◌≤◌, ◌<◌, min, ◌≡◌, refl, ◌∙◌, true, false, not, Bool-cases, inl, inr, List, [],
  ◌∷◌, arith, leb, if◌then◌else◌, length,
}
use fantasy_xi.Webhooks.{
  is_success, HttpResult, response, failed, dead_letter, network_error, Attempted, reschedule,
  settle_attempt, attempt, max_retry_attempts,
}

-- A request fails when no response comes, or one that is not in order.
abbrev pub IsFailure : HttpResult → Type 0
IsFailure (response status in_order) = in_order ≡ false
IsFailure network_error = Unit

-- Attempts at the given times, each with what comes of its request.
abbrev pub fail_all : List (ℕ × HttpResult) → Attempted → Attempted
fail_all [] a = a
fail_all ((now, result) ∷ rest) a = fail_all rest (attempt now result a)

abbrev pub AllFail : List (ℕ × HttpResult) → Type 0
AllFail = All (λ f. IsFailure f.1)

failure-is_success : (result : HttpResult) → IsFailure result → is_success result ≡ false
failure-is_success (response status in_order) h = h
failure-is_success network_error h = refl

-- Once the endpoint is inactive nothing is sent.
attempt-inactive :
    (now : ℕ) (result : HttpResult) (a : Attempted)
    → a.endpoint.is_active ≡ false
    → ((attempt now result a).endpoint.is_active ≡ false)
      × ((attempt now result a).failures ≡ a.failures)
      × ((attempt now result a).delivery.attempt_count ≡ a.delivery.attempt_count)
      × ((attempt now result a).delivery.status ≡ dead_letter)
unfolding attempt
attempt-inactive now result a off = ground arith

attempt-active :
    (now : ℕ) (result : HttpResult) (a : Attempted)
    → IsFailure result
    → a.endpoint.is_active ≡ true
    → ((attempt now result a).endpoint.is_active ≡ not (leb 10 (a.failures + 1)))
      × ((attempt now result a).failures ≡ a.failures + 1)
      × ((attempt now result a).delivery.attempt_count ≡ a.delivery.attempt_count + 1)
      × ((attempt now result a).delivery.max_attempts ≡ a.delivery.max_attempts)
      × ((attempt now result a).delivery.status ≡ (
          if leb a.delivery.max_attempts (a.delivery.attempt_count + 1)
          then dead_letter
          else failed))
unfolding attempt settle_attempt reschedule
attempt-active now result a failed_request on =
    ground (arith, failure-is_success result failed_request)

-- The endpoint, its failures and the requests sent, after failures in a row.
abbrev IsRun : Attempted → ℕ → Attempted → Type 0
IsRun a n b =
    (b.endpoint.is_active ≡ not (leb 10 (a.failures + n)))
    × (b.failures ≡ min 10 (a.failures + n))
    × (b.delivery.attempt_count ≡ a.delivery.attempt_count + min n (10 - a.failures))

fail_all-inactive :
    (rest : List (ℕ × HttpResult)) (a : Attempted)
    → a.endpoint.is_active ≡ false
    → ((fail_all rest a).endpoint.is_active ≡ false)
      × ((fail_all rest a).failures ≡ a.failures)
      × ((fail_all rest a).delivery.attempt_count ≡ a.delivery.attempt_count)
fail_all-inactive [] a off = (off, refl, refl)
fail_all-inactive ((now, result) ∷ rest) a off =
    let (still, same, count, dead) = attempt-inactive now result a off in
    let (off', same', count') = fail_all-inactive rest (attempt now result a) still in
    (off', same' ∙ same, count' ∙ count)

-- A row of attempts whose requests all fail, be it with an answer that is not in order or with none,
-- from an active endpoint with fewer than ten failures in a row: the endpoint is deactivated by the
-- tenth failure in a row and not before, and no request is sent after it.
pub fail_all-IsRun :
    (rest : List (ℕ × HttpResult)) (a : Attempted)
    → AllFail rest
    → a.endpoint.is_active ≡ true
    → a.failures < 10
    → IsRun a (length rest) (fail_all rest a)
fail_all-IsRun [] a fails on few = (ground arith, omega arith, omega arith)
fail_all-IsRun ((now, result) ∷ rest) a fails on few =
    let (active, more, count, limit, status) = attempt-active now result a fails.0 on in
    elim (Bool-cases (leb 10 (a.failures + 1))) [
      | inl last ↦
          let (off, same, sent) = fail_all-inactive rest (attempt now result a) (ground arith) in
          (ground arith, ground arith, ground arith)
      | inr going ↦
          let (off, same, sent) =
            fail_all-IsRun rest (attempt now result a) fails.1 (ground arith) (ground arith) in
          (ground arith, ground arith, ground arith)
    ]

-- Every attempt to an inactive endpoint leaves a dead letter.
fail_all-dead :
    (rest : List (ℕ × HttpResult)) (a : Attempted)
    → a.endpoint.is_active ≡ false
    → a.delivery.status ≡ dead_letter
    → (fail_all rest a).delivery.status ≡ dead_letter
fail_all-dead [] a off dead = dead
fail_all-dead ((now, result) ∷ rest) a off dead =
    let (still, same, count, dead') = attempt-inactive now result a off in
    fail_all-dead rest (attempt now result a) still dead'

-- A delivery of at most five attempts, to an active endpoint with fewer than ten failures in a row and
-- no more than the delivery's attempts: after a row of attempts, at least one, whose requests all
-- fail, be it with an answer that is not in order or with none, it is a dead letter if it has had five
-- attempts, and otherwise it is to be repeated.
pub fail_all-dead_letter :
    (now : ℕ) (result : HttpResult) (rest : List (ℕ × HttpResult)) (a : Attempted)
    → AllFail ((now, result) ∷ rest)
    → a.delivery.max_attempts ≡ max_retry_attempts
    → a.endpoint.is_active ≡ true
    → a.failures < 10
    → a.failures ≤ a.delivery.attempt_count
    → (fail_all ((now, result) ∷ rest) a).delivery.status ≡ (
        if leb 5 (a.delivery.attempt_count + length ((now, result) ∷ rest))
        then dead_letter
        else failed)
fail_all-dead_letter now result [] a fails five on few below =
    let (active, more, count, limit, status) = attempt-active now result a fails.0 on in
    ground arith
fail_all-dead_letter now result ((later_time, next) ∷ rest) a fails five on few below =
    let (active, more, count, limit, status) = attempt-active now result a fails.0 on in
    elim (Bool-cases (leb 10 (a.failures + 1))) [
      | inl last ↦
          let dead =
            fail_all-dead ((later_time, next) ∷ rest) (attempt now result a) (ground arith)
              (ground arith) in
          ground arith
      | inr going ↦
          let later =
            fail_all-dead_letter later_time next rest (attempt now result a) fails.1 (limit ∙ five)
              (ground arith) (ground arith) (omega arith) in
          ground arith
    ]
