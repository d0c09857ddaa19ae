-- ===== src/Webhooks.antt =====
-- backend/src/services/webhooks/webhookRetryEngine.ts: deliveries, their retries and the deactivation
-- of an endpoint. What the request gives is an argument, as is the clock; payloads, signatures,
-- latencies and texts are left out. An attempt is one step: two attempts do not overlap. The objects
-- that the maps share are written back into them.
pub mod Attempts
mod Tests
use Prim.Native.String.{String}
use fantasy_xi.Prelude.{
  ℕ, zero, suc, ◌+◌, ◌-◌, min, Bool, true, false, Option, none, some, List, [], ◌∷◌, ◌++◌, ltb, leb,
  if◌then◌else◌, length, get_elem?, filter,
}
use fantasy_xi.Prelude.Dict.{Dict, get, set, has, values, beq, string_eq}

abbrev pub retry_schedule_ms : List ℕ
retry_schedule_ms = 0 ∷ 60000 ∷ 300000 ∷ 900000 ∷ 3600000 ∷ []

abbrev pub max_retry_attempts : ℕ
max_retry_attempts = 5

abbrev pub max_failures_before_deactivation : ℕ
max_failures_before_deactivation = 10

abbrev pub or_zero : Option ℕ → ℕ
or_zero none = 0
or_zero (some n) = n

-- The index is within the schedule.
pub calculate_backoff_delay : ℕ → ℕ
calculate_backoff_delay attempt_number =
    if leb attempt_number 1
    then 0
    else or_zero
        (get_elem? retry_schedule_ms (min (attempt_number - 1) (length retry_schedule_ms - 1)))

pub data DeliveryStatus : Type 0 where
  pending delivered failed dead_letter : DeliveryStatus

abbrev pub is_dead_letter : DeliveryStatus → Bool
is_dead_letter pending = false
is_dead_letter delivered = false
is_dead_letter failed = false
is_dead_letter dead_letter = true

-- What `httpFetch` gives: a response with its status and whether it is in order, or an error.
pub data HttpResult : Type 0 where
  response : ℕ → Bool → HttpResult
  network_error : HttpResult

abbrev pub is_success : HttpResult → Bool
is_success (response status in_order) = in_order
is_success network_error = false

abbrev pub status_code : HttpResult → Option ℕ
status_code (response status in_order) = some status
status_code network_error = none

pub record DeliveryAttempt : Type 0 where
  pub attempt_number : ℕ
  pub succeeded : Bool
  pub status : Option ℕ
  pub timestamp : ℕ

pub record Delivery : Type 0 where
  pub id : String
  pub endpoint_id : String
  pub status : DeliveryStatus
  pub attempt_count : ℕ
  pub max_attempts : ℕ
  pub attempts : List DeliveryAttempt
  pub next_retry_at : Option ℕ
  pub delivered_at : Option ℕ

pub record Endpoint : Type 0 where
  pub id : String
  pub is_active : Bool

-- What one attempt reads and writes: the record, the endpoint, and the endpoint's failures in a row.
pub record Attempted : Type 0 where
  pub delivery : Delivery
  pub endpoint : Endpoint
  pub failures : ℕ

abbrev pub attempted : ℕ → HttpResult → Delivery → Delivery
attempted now result d = record d {
  attempt_count = d.attempt_count + 1;
  attempts =
      d.attempts
      ++ record {
        attempt_number = d.attempt_count + 1;
        succeeded = is_success result;
        status = status_code result;
        timestamp = now;
      }
        ∷ [];
}

-- The branch of a failed attempt: the last one makes a dead letter, any other is to be repeated.
pub reschedule : ℕ → Delivery → Delivery
reschedule now d =
    if leb d.max_attempts d.attempt_count
    then record d { status = dead_letter; next_retry_at = none }
    else record d {
      status = failed;
      next_retry_at = some (now + calculate_backoff_delay (d.attempt_count + 1));
    }

pub settle_attempt : ℕ → Bool → Attempted → Attempted
settle_attempt now true a = record {
  delivery = record a.delivery {
    status = delivered;
    delivered_at = some now;
    next_retry_at = none;
  };
  endpoint = a.endpoint;
  failures = 0;
}
settle_attempt now false a = record {
  delivery = reschedule now a.delivery;
  endpoint =
      if leb max_failures_before_deactivation (a.failures + 1)
      then record a.endpoint { is_active = false }
      else a.endpoint;
  failures = a.failures + 1;
}

-- The body of `executeAttempt`; an inactive endpoint is sent nothing.
pub attempt : ℕ → HttpResult → Attempted → Attempted
attempt now result a =
    if a.endpoint.is_active
    then settle_attempt now (is_success result)
        (record a { delivery = attempted now result a.delivery })
    else record a { delivery = record a.delivery { status = dead_letter; next_retry_at = none } }

pub record Engine : Type 0 where
  pub deliveries : Dict String Delivery
  pub endpoints : Dict String Endpoint
  pub consecutive_failures : Dict String ℕ

pub register_endpoint : Endpoint → Engine → Engine
register_endpoint e s = record s {
  endpoints = set s.endpoints e.id e;
  consecutive_failures =
      if has s.consecutive_failures e.id
      then s.consecutive_failures
      else set s.consecutive_failures e.id 0;
}

abbrev pub get_consecutive_failures : Engine → String → ℕ
get_consecutive_failures s id = or_zero (get s.consecutive_failures id)

pub reactivate_endpoint : String → Engine → Option (Engine × Endpoint)
reactivate_endpoint id s = elim (get s.endpoints id) [
  | none ↦ none
  | some e ↦
      let active = record e { is_active = true } in
      some (
        record s {
          endpoints = set s.endpoints id active;
          consecutive_failures = set s.consecutive_failures id 0;
        },
        active,
      )
]

pub execute_attempt : ℕ → HttpResult → Delivery → Endpoint → Engine → Engine × Delivery
execute_attempt now result d e s =
    let a =
      attempt now result
        (record { delivery = d; endpoint = e; failures = get_consecutive_failures s e.id }) in
    (
      record {
        deliveries = set s.deliveries d.id a.delivery;
        endpoints = set s.endpoints e.id a.endpoint;
        consecutive_failures =
            if e.is_active
            then set s.consecutive_failures e.id a.failures
            else s.consecutive_failures;
      },
      a.delivery,
    )

pub dispatch : ℕ → HttpResult → Endpoint → String → Engine → Engine × Delivery
dispatch now result e id s =
    execute_attempt now result
      (record {
        id = id;
        endpoint_id = e.id;
        status = pending;
        attempt_count = 0;
        max_attempts = max_retry_attempts;
        attempts = [];
        next_retry_at = none;
        delivered_at = none;
      })
      e (register_endpoint e s)

abbrev pub dead_letters : List Delivery → List Delivery
dead_letters = filter (λ d. is_dead_letter d.status)

-- `getDeadLetterQueue`, of all endpoints or of one; an empty identifier is no identifier.
pub get_dead_letter_queue : Option String → Engine → List Delivery
get_dead_letter_queue none s = dead_letters (values s.deliveries)
get_dead_letter_queue (some id) s =
    let dead = dead_letters (values s.deliveries) in
    if beq id "" then dead else filter (λ d. beq d.endpoint_id id) dead

-- A record or an endpoint that is missing throws.
pub retry_delivery : ℕ → HttpResult → String → Engine → Option (Engine × Delivery)
retry_delivery now result id s = elim (get s.deliveries id) [
  | none ↦ none
  | some d ↦ elim (get s.endpoints d.endpoint_id) [
    | none ↦ none
    | some e ↦ some (execute_attempt now result d e s)
  ]
]
