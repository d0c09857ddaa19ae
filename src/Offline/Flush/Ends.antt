-- ===== src/Offline/Flush/Ends.antt =====
-- How a request ends: flushQueue of frontend/src/lib/offlineQueue.ts.
use Prim.Native.String.{String}
use fantasy_xi.Prelude.{
  ℕ, ◌+◌, leb, ◌≡◌, refl, Bool, true, false, Option, none, some, List, [], ◌∷◌, inl, inr,
  Bool-cases, subst,
}
use fantasy_xi.Prelude.Dict.{get, string_eq, get-set_self}
use fantasy_xi.Prelude.Entries.{Entries-set, Entries-delete}
use fantasy_xi.Offline.Causal.{IsNamed, IsKeyed}
use fantasy_xi.Offline.{
  Mutation, Store, put, pending, failed, conflict, max_queue_retries, error_or, put_retried,
  is_pending, increment_mutation_retry,
}
use fantasy_xi.Offline.Flush.{
  Run, Reply, Thrown, FailureKind, accepted, refused, settle, on_accepted, on_conflict, reject,
  halt, on_retried, on_failure, rejection_reason, error_message, RejectionReason, retries_exhausted,
  classify_sync_error, conflict_of, unless_conflict, offline, unauthorized, transient, rejected,
}

-- The elements of one list, in their order, among those of another.
pub data IsSublist : List String → List String → Type 0 where
  nothing : (ys : List String) → IsSublist [] ys
  skip : {xs ys : List String} (y : String) → IsSublist xs ys → IsSublist xs (y ∷ ys)
  keep : {xs ys : List String} (y : String) → IsSublist xs ys → IsSublist (y ∷ xs) (y ∷ ys)

-- How a request for `m` can end, and whether the loop goes on: the server takes the mutation, has a
-- newer revision, refuses it, fails once too often, or the mutation is put back and the loop stops.
pub data Ends (r : Run) (m : Mutation) : Run × Bool → Type 0 where
  taken : Ends r m (on_accepted r m)
  stale : (found : String × String) → Ends r m (on_conflict r m found)
  dropped :
      (reason : RejectionReason) (message : String) → Ends r m (reject r r.store m reason message)
  exhausted :
      (q : Mutation) (message : String)
      → q.id ≡ m.id
      → Ends r m (reject r (put r.store q) q retries_exhausted message)
  put_back :
      (q : Mutation) (failures : ℕ) (kind : FailureKind)
      → q.id ≡ m.id
      → is_pending q ≡ true
      → Ends r m (
          halt
            (record r { result = record r.result { failed_count = failures } })
            (put r.store q)
            kind)

-- What a retry does with the mutation that is charged.
charged-Ends :
    (r : Run) (m : Mutation) (message : String)
    → Ends r m (on_retried r message (put_retried r.store message (some m)))
charged-Ends r m message = elim (Bool-cases (leb max_queue_retries (m.retry_count + 1))) [
  | inl last ↦ rw last (
      Ends.exhausted
        (record m {
          retry_count = m.retry_count + 1;
          last_error = some (error_or message);
          status = failed;
        })
        message refl)
  | inr more ↦ rw more (
      Ends.put_back
        (record m {
          retry_count = m.retry_count + 1;
          last_error = some (error_or message);
          status = pending;
        })
        (r.result.failed_count + 1) transient refl refl)
]

module _ (r : Run) (m : Mutation) (found : get r.store m.id ≡ some m) where
  on_failure-Ends : (e : Thrown) (kind : FailureKind) → Ends r m (on_failure r m e kind)
  unfolding increment_mutation_retry
  on_failure-Ends e rejected = Ends.dropped (rejection_reason e) (error_message e)
  on_failure-Ends e offline =
      Ends.put_back (record m { status = pending }) r.result.failed_count offline refl refl
  on_failure-Ends e unauthorized =
      Ends.put_back (record m { status = pending }) r.result.failed_count unauthorized refl refl
  on_failure-Ends e transient = rw found (charged-Ends r m (error_message e))

  unless_conflict-Ends :
      (e : Thrown) (kind : FailureKind) (revision : Option (String × String))
      → Ends r m (unless_conflict r m e kind revision)
  unless_conflict-Ends e offline revision = on_failure-Ends e offline
  unless_conflict-Ends e unauthorized revision = on_failure-Ends e unauthorized
  unless_conflict-Ends e transient none = on_failure-Ends e transient
  unless_conflict-Ends e rejected none = on_failure-Ends e rejected
  unless_conflict-Ends e transient (some revision) = Ends.stale revision
  unless_conflict-Ends e rejected (some revision) = Ends.stale revision

  pub settle-Ends : (reply : Reply) → Ends r m (settle r m reply)
  unfolding settle
  settle-Ends accepted = Ends.taken
  settle-Ends (refused online e) =
      unless_conflict-Ends e (classify_sync_error online e) (conflict_of e)

pub Ends-IsKeyed :
    (r : Run) (m : Mutation) (after : Run × Bool)
    → Ends r m after
    → IsKeyed r.store
    → IsKeyed after.0.store
Ends-IsKeyed r m _ Ends.taken keyed = Entries-delete IsNamed r.store m.id keyed
Ends-IsKeyed r m _ (Ends.stale found) keyed =
    Entries-set IsNamed r.store m.id
      (record m { status = conflict; server_revision = some found.0; last_error = some found.1 })
      refl keyed
Ends-IsKeyed r m _ (Ends.dropped reason message) keyed = Entries-delete IsNamed r.store m.id keyed
Ends-IsKeyed r m _ (Ends.exhausted q message e) keyed =
    Entries-delete IsNamed (put r.store q) q.id (Entries-set IsNamed r.store q.id q refl keyed)
Ends-IsKeyed r m _ (Ends.put_back q failures kind e h) keyed =
    Entries-set IsNamed r.store q.id q refl keyed

pub Ends-sent :
    (r : Run) (m : Mutation) (after : Run × Bool) → Ends r m after → after.0.sent ≡ r.sent
Ends-sent r m _ Ends.taken = refl
Ends-sent r m _ (Ends.stale found) = refl
Ends-sent r m _ (Ends.dropped reason message) = refl
Ends-sent r m _ (Ends.exhausted q message e) = refl
Ends-sent r m _ (Ends.put_back q failures kind e h) = refl

-- Whether the storage has a mutation of this identifier that is pending.
abbrev pub is_queued : Store → String → Bool
is_queued s id = elim (get s id) [ none ↦ false | some m ↦ is_pending m ]

-- A loop that goes on has no new reason to halt, and one that halts has put the mutation back.
abbrev pub IsSettled : Run → Mutation → Run × Bool → Type 0
IsSettled r m (next, true) = next.result.halted ≡ r.result.halted
IsSettled r m (next, false) = is_queued next.store m.id ≡ true

pub Ends-IsSettled :
    (r : Run) (m : Mutation) (after : Run × Bool) → Ends r m after → IsSettled r m after
Ends-IsSettled r m _ Ends.taken = refl
Ends-IsSettled r m _ (Ends.stale found) = refl
Ends-IsSettled r m _ (Ends.dropped reason message) = refl
Ends-IsSettled r m _ (Ends.exhausted q message e) = refl
Ends-IsSettled r m _ (Ends.put_back q failures kind e h) =
    subst (λ k. is_queued (put r.store q) k ≡ true) e
      (rw (get-set_self r.store q.id q, is_queued) h)
