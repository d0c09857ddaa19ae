-- ===== src/Offline.antt =====
-- frontend/src/lib/offlineQueue.ts: squad changes made without a network, kept in causal order until
-- the server accepts them. The storage is the one in memory; a squad's or manager's identifier that is
-- null, 0 or empty is `none`. The clock and the random part of an identifier are arguments; listeners,
-- the registration with the service worker, and IndexedDB are left out.
pub mod Causal
pub mod Order
pub mod Flush
mod Tests
use Prim.Native.String.{String}
use fantasy_xi.Prelude.{
  ℕ, ◌+◌, max, Bool, true, false, not, ◌&&◌, ◌||◌, Option, none, some, List, [], ◌∷◌, leb, ltb,
  ◌==◌, if◌then◌else◌, find, filter, length, any,
}
use fantasy_xi.Prelude.Dict.{Dict, get, set, delete, values, beq, string_eq}
use fantasy_xi.Prelude.Sort.{sort_with}

pub record PlayerMutation : Type 0 where
  pub player_id : ℕ
  pub is_starter : Bool
  pub is_captain : Bool
  pub is_vice_captain : Bool
  pub position_order : ℕ

pub record Payload : Type 0 where
  pub name : String
  pub players : List PlayerMutation
  pub user_id : Option String

pub data Action : Type 0 where
  update create : Action

pub data QueueStatus : Type 0 where
  pending syncing failed conflict : QueueStatus

pub record Mutation : Type 0 where
  pub id : String
  pub squad_id : Option String
  pub user_id : Option String
  pub action : Action
  pub payload : Payload
  pub timestamp : ℕ
  pub seq : Option ℕ
  pub retry_count : ℕ
  pub status : QueueStatus
  pub last_error : Option String
  pub base_revision : Option String
  pub server_revision : Option String

abbrev pub max_queue_retries : ℕ
max_queue_retries = 5

abbrev pub or_zero : Option ℕ → ℕ
or_zero none = 0
or_zero (some n) = n

-- Whether `compareCausalOrder(a, b)` is not positive.
abbrev pub causal_le : Mutation → Mutation → Bool
causal_le a b =
    if or_zero a.seq == or_zero b.seq
    then leb a.timestamp b.timestamp
    else ltb (or_zero a.seq) (or_zero b.seq)

abbrev pub Store : Type 0
Store = Dict String Mutation

unfoldable pub get_all : Store → List Mutation
get_all s = sort_with causal_le (values s)

abbrev pub put : Store → Mutation → Store
put s m = set s m.id m

abbrev pub both_same : Option String → Option String → Bool
both_same none b = false
both_same (some a) none = false
both_same (some a) (some b) = beq a b

abbrev pub both_none : Option String → Option String → Bool
both_none none none = true
both_none none (some b) = false
both_none (some a) b = false

-- What a caller of `enqueueSquadMutation` gives.
pub record Incoming : Type 0 where
  pub squad_id : Option String
  pub user_id : Option String
  pub action : Option Action
  pub payload : Payload
  pub base_revision : Option String

abbrev pub detect_mutation_conflict : Mutation → Incoming → Bool
detect_mutation_conflict existing incoming =
    both_same incoming.squad_id existing.squad_id
    || (both_none incoming.squad_id existing.squad_id
        && both_same incoming.user_id existing.user_id)

abbrev pub is_pending : Mutation → Bool
is_pending m = elim m.status [
  | pending ↦ true
  | syncing ↦ false
  | failed ↦ false
  | conflict ↦ false
]

abbrev pub max_seq : List Mutation → ℕ
max_seq [] = 0
max_seq (m ∷ ms) = max (or_zero m.seq) (max_seq ms)

abbrev pub id_or : String → Option Mutation → String
id_or fresh none = fresh
id_or fresh (some m) = m.id

abbrev pub first_of : Option String → Option String → Option String
first_of none b = b
first_of (some a) b = some a

-- `conflicting?.baseRevision ?? data.baseRevision`.
abbrev pub revision_or : Option String → Option Mutation → Option String
revision_or given none = given
revision_or given (some m) = first_of m.base_revision given

abbrev pub action_or : Option Action → Option String → Action
action_or (some action) squad = action
action_or none none = create
action_or none (some squad) = update

pub conflicting : Store → Incoming → Option Mutation
conflicting s data_in = find (λ m. is_pending m && detect_mutation_conflict m data_in) (get_all s)

pub queued_mutation : Store → ℕ → String → Incoming → Mutation
queued_mutation s now fresh data_in = record {
  id = id_or fresh (conflicting s data_in);
  squad_id = data_in.squad_id;
  user_id = data_in.user_id;
  action = action_or data_in.action data_in.squad_id;
  payload = data_in.payload;
  timestamp = now;
  seq = some (max_seq (get_all s) + 1);
  retry_count = 0;
  status = pending;
  last_error = none;
  base_revision = revision_or data_in.base_revision (conflicting s data_in);
  server_revision = none;
}

pub enqueue_squad_mutation : Store → ℕ → String → Incoming → Store
enqueue_squad_mutation s now fresh data_in = put s (queued_mutation s now fresh data_in)

abbrev pub is_failed : Mutation → Bool
is_failed m = elim m.status [ failed ↦ true | pending ↦ false | syncing ↦ false | conflict ↦ false ]

pub has_unsynced_mutations : Store → String → Bool
has_unsynced_mutations s user =
    any (λ (m : Mutation). both_same m.user_id (some user) && not (is_failed m)) (get_all s)

pub get_queued_mutation_count : Store → ℕ
get_queued_mutation_count s = length (filter (λ m. not (is_failed m)) (get_all s))

abbrev pub remove_queued_mutation : Store → String → Store
remove_queued_mutation s id = delete s id

-- `error || "Sync failed"`.
abbrev pub error_or : String → String
error_or error = if beq error "" then "Sync failed" else error

abbrev pub retried : Mutation → String → Mutation
retried m error = record m {
  retry_count = m.retry_count + 1;
  last_error = some (error_or error);
  status = if leb max_queue_retries (m.retry_count + 1) then failed else pending;
}

abbrev pub put_retried : Store → String → Option Mutation → Store × Option Mutation
put_retried s error none = (s, none)
put_retried s error (some m) = (put s (retried m error), some (retried m error))

unfoldable pub increment_mutation_retry : Store → String → String → Store × Option Mutation
increment_mutation_retry s id error = put_retried s error (get s id)

abbrev pub rebased : Mutation → String → Mutation
rebased m revision = record m {
  base_revision = some revision;
  server_revision = none;
  status = pending;
  retry_count = 0;
  last_error = none;
}

abbrev pub put_rebased : Store → String → Option Mutation → Store
put_rebased s revision none = s
put_rebased s revision (some m) = put s (rebased m revision)

pub update_queued_mutation_revision : Store → String → String → Store
update_queued_mutation_revision s id revision = put_rebased s revision (get s id)
