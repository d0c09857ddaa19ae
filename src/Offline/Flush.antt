-- ===== src/Offline/Flush.antt =====
-- The replay of the queue: classifySyncError, rejectionReason and flushQueue of
-- frontend/src/lib/offlineQueue.ts, and isOfflineError of frontend/src/lib/offlineStore.ts. The server is
-- a parameter: it sees the mutation, whose action says whether the request is a PUT or a POST, and the
-- requests before it. A flush is taken as a whole, without calls of other tabs in between.
pub mod Ends
pub mod Sent
pub mod Account
pub mod Listed
pub mod Success
use Prim.Native.String.{String}
use fantasy_xi.Prelude.{
  ℕ, ◌+◌, Bool, true, false, not, ◌&&◌, ◌||◌, Option, none, some, List, [], ◌∷◌, ◌++◌, leb, ltb,
  ◌==◌, if◌then◌else◌, filter, length, map,
}
use fantasy_xi.Prelude.Dict.{Dict, get, set, delete, values, beq, string_eq}
use fantasy_xi.Offline.{
  Mutation, Store, QueueStatus, pending, syncing, failed, conflict, put, get_all, is_pending,
  is_failed, increment_mutation_retry,
}

-- An `ApiError`, and what its body says: a deadline, that the client is offline, a revision.
pub record ApiError : Type 0 where
  pub status : ℕ
  pub message : String
  pub has_deadline : Bool
  pub is_offline : Bool
  pub revision : Option String

pub data Thrown : Type 0 where
  type_error : String → Thrown
  api_error : ApiError → Thrown
  other_error : String → Thrown

-- A request succeeds, or throws while the browser is online or not.
pub data Reply : Type 0 where
  accepted : Reply
  refused : Bool → Thrown → Reply

pub data FailureKind : Type 0 where
  offline unauthorized transient rejected : FailureKind

pub data RejectionReason : Type 0 where
  deadline_passed invalid_squad forbidden not_found retries_exhausted other : RejectionReason

abbrev pub is_offline_error : Bool → Thrown → Bool
is_offline_error online (type_error message) = true
is_offline_error online (api_error e) = not online || (e.status == 503 && e.is_offline)
is_offline_error online (other_error message) = not online

abbrev pub classify_status : ℕ → FailureKind
classify_status status =
    if status == 401
    then unauthorized
    else if status == 408 || status == 425 || status == 429 || leb 500 status
    then transient
    else if leb 400 status
    then rejected
    else transient

abbrev pub classify_thrown : Thrown → FailureKind
classify_thrown (api_error e) = classify_status e.status
classify_thrown (type_error message) = transient
classify_thrown (other_error message) = transient

abbrev pub classify_sync_error : Bool → Thrown → FailureKind
classify_sync_error online e = if is_offline_error online e then offline else classify_thrown e

abbrev pub rejection_reason : Thrown → RejectionReason
rejection_reason (type_error message) = other
rejection_reason (other_error message) = other
rejection_reason (api_error e) =
    if e.status == 403 && e.has_deadline
    then deadline_passed
    else if e.status == 400 || e.status == 422
    then invalid_squad
    else if e.status == 403
    then forbidden
    else if e.status == 404
    then not_found
    else other

abbrev pub error_message : Thrown → String
error_message (type_error message) = message
error_message (api_error e) = e.message
error_message (other_error message) = message

-- The revision of a 409 answer, and its message.
abbrev pub conflict_of : Thrown → Option (String × String)
conflict_of (type_error message) = none
conflict_of (other_error message) = none
conflict_of (api_error e) =
    if e.status == 409
    then (elim e.revision [ none ↦ none | some revision ↦ some (revision, e.message) ])
    else none

pub record SyncResult : Type 0 where
  pub succeeded : ℕ
  pub failed_count : ℕ
  pub synced_ids : List String
  pub rejections : List (Mutation × RejectionReason × String)
  pub halted : Option FailureKind
  pub conflicts : List (String × Option String × String)

-- The storage, the result so far, and the requests made, in order.
pub record Run : Type 0 where
  pub store : Store
  pub result : SyncResult
  pub sent : List Mutation

abbrev pub claimed : Mutation → Mutation
claimed m = record m { status = syncing }

abbrev pub claim_found : Store → Option Mutation → Store × Option Mutation
claim_found s none = (s, none)
claim_found s (some m) = if is_pending m then (put s (claimed m), some (claimed m)) else (s, none)

abbrev pub claim_mutation : Store → String → Store × Option Mutation
claim_mutation s id = claim_found s (get s id)

abbrev pub release_mutation : Store → Mutation → Store
release_mutation s m = put s (record m { status = pending })

-- Each way a request can end says whether the loop goes on.
abbrev pub halt : Run → Store → FailureKind → Run × Bool
halt r s kind = (record r { store = s; result = record r.result { halted = some kind } }, false)

abbrev pub on_accepted : Run → Mutation → Run × Bool
on_accepted r m = (
  record r {
    store = delete r.store m.id;
    result = record r.result {
      succeeded = r.result.succeeded + 1;
      synced_ids = r.result.synced_ids ++ m.id ∷ [];
    };
  },
  true,
)

abbrev pub on_conflict : Run → Mutation → String × String → Run × Bool
on_conflict r m (revision, message) = (
  record r {
    store = put r.store (record m {
      status = conflict;
      server_revision = some revision;
      last_error = some message;
    });
    result = record r.result {
      conflicts = r.result.conflicts ++ (m.id, m.squad_id, revision) ∷ [];
    };
  },
  true,
)

-- `result.failed` is counted and the mutation dropped.
abbrev pub reject : Run → Store → Mutation → RejectionReason → String → Run × Bool
reject r s m reason message = (
  record r {
    store = delete s m.id;
    result = record r.result {
      failed_count = r.result.failed_count + 1;
      rejections = r.result.rejections ++ (m, reason, message) ∷ [];
    };
  },
  true,
)

abbrev pub halt_failed : Run → Store → Run × Bool
halt_failed r s =
    halt (record r { result = record r.result { failed_count = r.result.failed_count + 1 } }) s
      transient

abbrev pub on_retried : Run → String → Store × Option Mutation → Run × Bool
on_retried r message (s, none) = halt_failed r s
on_retried r message (s, some m) =
    if is_failed m then reject r s m retries_exhausted message else halt_failed r s

abbrev pub on_failure : Run → Mutation → Thrown → FailureKind → Run × Bool
on_failure r m e rejected = reject r r.store m (rejection_reason e) (error_message e)
on_failure r m e offline = halt r (release_mutation r.store m) offline
on_failure r m e unauthorized = halt r (release_mutation r.store m) unauthorized
on_failure r m e transient =
    on_retried r (error_message e) (increment_mutation_retry r.store m.id (error_message e))

abbrev pub unless_conflict :
    Run → Mutation → Thrown → FailureKind → Option (String × String) → Run × Bool
unless_conflict r m e offline found = on_failure r m e offline
unless_conflict r m e unauthorized found = on_failure r m e unauthorized
unless_conflict r m e transient none = on_failure r m e transient
unless_conflict r m e rejected none = on_failure r m e rejected
unless_conflict r m e transient (some found) = on_conflict r m found
unless_conflict r m e rejected (some found) = on_conflict r m found

unfoldable pub settle : Run → Mutation → Reply → Run × Bool
settle r m accepted = on_accepted r m
settle r m (refused online e) = unless_conflict r m e (classify_sync_error online e) (conflict_of e)

module _ (server : List Mutation → Mutation → Reply) where
  -- The request for a claimed mutation; the server knows the requests before it.
  abbrev pub send : Run → Store × Option Mutation → Run × Bool
  send r (s, none) = (record r { store = s }, true)
  send r (s, some m) = settle (record r { store = s; sent = r.sent ++ m ∷ [] }) m (server r.sent m)

  unfoldable pub replay : Run → List String → Run
  replay r [] = r
  replay r (id ∷ ids) =
      let (next, go_on) = send r (claim_mutation r.store id) in
      let rest = replay next ids in if go_on then rest else next

-- Entries that a closed tab left "syncing" are pending again.
abbrev pub is_syncing : Mutation → Bool
is_syncing m = elim m.status [
  | syncing ↦ true
  | pending ↦ false
  | failed ↦ false
  | conflict ↦ false
]

abbrev pub put_all : Store → List Mutation → Store
put_all s [] = s
put_all s (m ∷ ms) = put_all (put s (record m { status = pending })) ms

unfoldable pub recover : Store → Store
recover s = put_all s (filter is_syncing (get_all s))

unfoldable pub pending_ids : Store → List String
pending_ids s = map (λ m. m.id) (filter is_pending (get_all s))

abbrev pub empty_result : SyncResult
empty_result = record {
  succeeded = 0;
  failed_count = 0;
  synced_ids = [];
  rejections = [];
  halted = none;
  conflicts = [];
}

unfoldable pub flush_queue : (List Mutation → Mutation → Reply) → Store → Run
flush_queue server s =
    replay server (record { store = recover s; result = empty_result; sent = [] })
      (pending_ids (recover s))
