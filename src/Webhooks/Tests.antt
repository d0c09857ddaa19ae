-- ===== src/Webhooks/Tests.antt =====
-- A fresh delivery, and the theorems at it.
use fantasy_xi.Prelude.{ℕ, List, ◌≡◌, refl, true, false, none, [], ◌∷◌, arith}
use fantasy_xi.Webhooks.{
  Delivery, pending, dead_letter, Attempted, HttpResult, response, network_error,
  max_retry_attempts, calculate_backoff_delay,
}
use fantasy_xi.Webhooks.Attempts.{AllFail, fail_all, fail_all-IsRun, fail_all-dead_letter}

abbrev fresh_delivery : Delivery
fresh_delivery = record {
  id = "del_1";
  endpoint_id = "hook";
  status = pending;
  attempt_count = 0;
  max_attempts = max_retry_attempts;
  attempts = [];
  next_retry_at = none;
  delivered_at = none;
}

abbrev fresh_attempt : Attempted
fresh_attempt = record {
  delivery = fresh_delivery;
  endpoint = record { id = "hook"; is_active = true };
  failures = 7;
}

abbrev first_attempt : Attempted
first_attempt = record fresh_attempt { failures = 0 }

-- A server that answers with errors or is out of reach.
abbrev failures : List (ℕ × HttpResult)
failures =
    (1, response 500 false)
    ∷ (2, network_error)
    ∷ (3, response 500 false)
    ∷ (4, response 404 false)
    ∷ []

failures-fail : AllFail failures
failures-fail = (refl, (tt, (refl, (refl, tt))))

last_delay : calculate_backoff_delay 9 ≡ 3600000
unfolding calculate_backoff_delay
last_delay = refl

fail_all-IsRun_example :
    ((fail_all failures fresh_attempt).endpoint.is_active ≡ false)
    × ((fail_all failures fresh_attempt).failures ≡ 10)
    × ((fail_all failures fresh_attempt).delivery.attempt_count ≡ 3)
fail_all-IsRun_example = fail_all-IsRun failures fresh_attempt failures-fail refl (omega arith)

fail_all-dead_letter_example :
    (fail_all ((0, response 500 false) ∷ failures) first_attempt).delivery.status ≡ dead_letter
fail_all-dead_letter_example =
    fail_all-dead_letter 0 (response 500 false) failures first_attempt (refl, failures-fail) refl
      refl (omega arith) (omega arith)
