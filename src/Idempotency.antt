-- ===== src/Idempotency.antt =====
-- backend/src/services/idempotency/idempotencyStore.ts, the store in memory, and
-- backend/src/middleware/idempotency.ts, the middleware over it. Each call of the store is one step, as
-- it is in the code, where it never waits; a request's claim and its start are taken together. The clock
-- and the random token are arguments; the hash of a request, which is its fingerprint, the test of a
-- key's characters and the headers that are not stored are left to the caller.
pub mod Store
pub mod Replay
pub mod Answers
mod Tests
use Prim.Native.String.{String, ◌++◌ as append}
use fantasy_xi.Prelude.{
  ℕ, ◌+◌, ◌*◌, Bool, true, false, not, ◌&&◌, ◌||◌, Option, none, some, List, [], ◌∷◌, leb, ltb,
  ◌==◌, if◌then◌else◌,
}
use fantasy_xi.Prelude.Dict.{Dict, get, set, delete, beq, string_eq}

pub data RecordState : Type 0 where
  pending in_progress completed failed : RecordState

pub record StoredResponse : Type 0 where
  pub status_code : ℕ
  pub headers : List (String × String)
  pub body : String

-- An `IdempotencyRecord`.
pub record Claim : Type 0 where
  pub state : RecordState
  pub fingerprint : String
  pub token : String
  pub created_at : ℕ
  pub updated_at : ℕ
  pub response : Option StoredResponse

pub record Entry : Type 0 where
  pub claim : Claim
  pub expires_at : ℕ

abbrev pub Records : Type 0
Records = Dict String Entry

abbrev pub new_record : ℕ → String → String → Claim
new_record now fingerprint token = record {
  state = pending;
  fingerprint = fingerprint;
  token = token;
  created_at = now;
  updated_at = now;
  response = none;
}

abbrev pub read_entry : Records → ℕ → String → Option Entry → Records × Option Claim
read_entry s now key none = (s, none)
read_entry s now key (some entry) =
    if leb entry.expires_at now then (delete s key, none) else (s, some entry.claim)

unfoldable pub read : Records → ℕ → String → Records × Option Claim
read s now key = read_entry s now key (get s key)

pub data BeginResult : Type 0 where
  acquired : String → BeginResult
  existing : Claim → BeginResult

abbrev pub new_entry : ℕ → String → String → ℕ → Entry
new_entry now fingerprint token ttl_ms = record {
  claim = new_record now fingerprint token;
  expires_at = now + ttl_ms;
}

abbrev pub begin_read :
    ℕ → String → String → String → ℕ → Records × Option Claim → Records × BeginResult
begin_read now key fingerprint token ttl_ms (s, some claim) = (s, existing claim)
begin_read now key fingerprint token ttl_ms (s, none) =
    (set s key (new_entry now fingerprint token ttl_ms), acquired token)

unfoldable pub begin : Records → ℕ → String → String → String → ℕ → Records × BeginResult
begin s now key fingerprint token ttl_ms =
    begin_read now key fingerprint token ttl_ms (read s now key)

-- The change of a record that is read, if it has this token.
abbrev pub if_owned : String → (Records → Claim → Records) → Records × Option Claim → Records × Bool
if_owned token change (s, none) = (s, false)
if_owned token change (s, some claim) =
    if beq claim.token token then (change s claim, true) else (s, false)

abbrev pub marked_entry : ℕ → ℕ → Claim → Entry
marked_entry now ttl_ms claim = record {
  claim = record claim { state = in_progress; updated_at = now };
  expires_at = now + ttl_ms;
}

abbrev pub completed_entry : ℕ → RecordState → StoredResponse → ℕ → Claim → Entry
completed_entry now state response ttl_seconds claim = record {
  claim = record claim { state = state; response = some response; updated_at = now };
  expires_at = now + ttl_seconds * 1000;
}

abbrev pub write_marked : ℕ → String → ℕ → Records → Claim → Records
write_marked now key ttl_ms r claim = set r key (marked_entry now ttl_ms claim)

abbrev pub write_completed :
    ℕ → String → RecordState → StoredResponse → ℕ → Records → Claim → Records
write_completed now key state response ttl_seconds r claim =
    set r key (completed_entry now state response ttl_seconds claim)

unfoldable pub mark_in_progress : Records → ℕ → String → String → ℕ → Records × Bool
mark_in_progress s now key token ttl_ms =
    if_owned token (write_marked now key ttl_ms) (read s now key)

unfoldable pub complete :
    Records → ℕ → String → String → RecordState → StoredResponse → ℕ → Records × Bool
complete s now key token state response ttl_seconds =
    if_owned token (write_completed now key state response ttl_seconds) (read s now key)

unfoldable pub release : Records → ℕ → String → String → Records × Bool
release s now key token = if_owned token (λ r claim. delete r key) (read s now key)

abbrev pub is_transient_status : ℕ → Bool
is_transient_status status = leb 500 status || status == 408 || status == 425 || status == 429

-- What the middleware does with a request: it passes it on, answers it, or runs the handler with the
-- claim of this token.
pub data Answer : Type 0 where
  passed : Answer
  key_required : Answer
  key_invalid : Answer
  key_reused : Answer
  replayed : StoredResponse → Answer
  being_processed : Answer
  unavailable : Answer
  run_handler : String → Answer

abbrev pub is_settled : RecordState → Bool
is_settled completed = true
is_settled failed = true
is_settled pending = false
is_settled in_progress = false

abbrev pub answer_stored : Option StoredResponse → Answer
answer_stored none = being_processed
answer_stored (some response) = replayed response

abbrev pub answer_existing : String → Claim → Answer
answer_existing fingerprint claim =
    if not (beq claim.fingerprint fingerprint)
    then key_reused
    else if is_settled claim.state
    then answer_stored claim.response
    else being_processed

abbrev pub started : String → Records × Bool → Records × Answer
started token (s, true) = (s, run_handler token)
started token (s, false) = (s, unavailable)

abbrev pub answer_begun : ℕ → String → String → ℕ → Records × BeginResult → Records × Answer
answer_begun now key fingerprint ttl_ms (s, existing claim) = (s, answer_existing fingerprint claim)
answer_begun now key fingerprint ttl_ms (s, acquired token) =
    started token (mark_in_progress s now key token ttl_ms)

-- A request whose method is covered and which has a key of the right form.
unfoldable pub claim_key : Records → ℕ → String → String → String → ℕ → Records × Answer
claim_key s now key fingerprint token ttl_ms =
    answer_begun now key fingerprint ttl_ms (begin s now key fingerprint token ttl_ms)

abbrev pub storage_key : Option String → String → String
storage_key none raw = append "idempotency:anonymous:" raw
storage_key (some user) raw = append "idempotency:" (append user (append ":" raw))

abbrev pub with_key :
    (String → Bool)
    → Bool
    → Records
    → ℕ
    → Option String
    → Option String
    → String
    → String
    → ℕ
    → Records × Answer
with_key is_valid required s now user none fingerprint token ttl_ms =
    (s, if required then key_required else passed)
with_key is_valid required s now user (some raw) fingerprint token ttl_ms =
    if is_valid raw
    then claim_key s now (storage_key user raw) fingerprint token ttl_ms
    else (s, key_invalid)

pub idempotency :
    (String → Bool)
    → Bool
    → Bool
    → Records
    → ℕ
    → Option String
    → Option String
    → String
    → String
    → ℕ
    → Records × Answer
idempotency is_valid covered required s now user raw fingerprint token ttl_ms =
    if covered
    then with_key is_valid required s now user raw fingerprint token ttl_ms
    else (s, passed)

-- The end of a request that ran its handler: a transient failure releases the key.
unfoldable pub settle : Records → ℕ → String → String → Bool → StoredResponse → ℕ → Records × Bool
settle s now key token finished response ttl_seconds =
    if not finished || is_transient_status response.status_code
    then release s now key token
    else complete s now key token (if ltb response.status_code 400 then completed else failed)
        response ttl_seconds
