-- ===== src/Offline/Flush/Account.antt =====
-- Where the mutations of a flush end up: flushQueue of frontend/src/lib/offlineQueue.ts.
use Prim.Native.String.{String}
use native.Mathlib.Omega.{arith}
use fantasy_xi.Prelude.{
  ℕ, ◌+◌, ◌≡◌, refl, ap, Bool, true, false, ◌||◌, Option, none, some, List, [], ◌∷◌, ◌++◌, inl, inr,
  Bool-cases, filter, length, length-append,
}
use fantasy_xi.Prelude.Dict.{delete, has, has-set, get-delete, beq, string_eq}
use fantasy_xi.Offline.{Mutation, Store, put, pending, conflict, get_all}
use fantasy_xi.Offline.Flush.{
  Run, SyncResult, Reply, FailureKind, RejectionReason, claimed, claim_mutation, send, replay,
  recover, put_all, is_syncing, pending_ids, flush_queue, empty_result, retries_exhausted,
}
use fantasy_xi.Offline.Flush.Ends.{Ends}
use fantasy_xi.Offline.Flush.Sent.{sending, Turn, turn}

abbrev pub includes : List String → String → Bool
includes [] id = false
includes (x ∷ xs) id = beq x id || includes xs id

abbrev pub rejected_ids : List (Mutation × RejectionReason × String) → List String
rejected_ids [] = []
rejected_ids (rejection ∷ rejections) = rejection.0.id ∷ rejected_ids rejections

-- A mutation is in the storage, or reported as synced or as rejected.
abbrev pub is_known : Run → String → Bool
is_known r id =
    has r.store id
    || includes r.result.synced_ids id
    || includes (rejected_ids r.result.rejections) id

includes-append :
    (xs ys : List String) (id : String)
    → includes (xs ++ ys) id ≡ (includes xs id || includes ys id)
includes-append [] ys id = refl
includes-append (x ∷ xs) ys id = ground (arith, includes-append xs ys id)

rejected_ids-append :
    (xs ys : List (Mutation × RejectionReason × String))
    → rejected_ids (xs ++ ys) ≡ rejected_ids xs ++ rejected_ids ys
rejected_ids-append [] ys = refl
rejected_ids-append (x ∷ xs) ys = ap (λ l. x.0.id ∷ l) (rejected_ids-append xs ys)

has-delete :
    (s : Store) (k id : String) → has s id ≡ true → (has (delete s k) id || beq k id) ≡ true
has-delete s k id h = ground (arith, get-delete s k id)

module _ (r : Run) (m : Mutation) (id : String) where
  Ends-is_known :
      (after : Run × Bool) → Ends r m after → is_known r id ≡ true → is_known after.0 id ≡ true
  Ends-is_known _ Ends.taken h =
      ground (arith, has-delete r.store m.id id, includes-append r.result.synced_ids (m.id ∷ []) id)
  Ends-is_known _ (Ends.stale found) h = ground (
    arith,
    has-set r.store m.id id
        (record m { status = conflict; server_revision = some found.0; last_error = some found.1 }),
  )
  Ends-is_known _ (Ends.dropped reason message) h = ground (
    arith,
    has-delete r.store m.id id,
    rejected_ids-append r.result.rejections ((m, reason, message) ∷ []),
    includes-append (rejected_ids r.result.rejections) (m.id ∷ []) id,
  )
  Ends-is_known _ (Ends.exhausted q message e) h = ground (
    arith,
    has-delete (put r.store q) q.id id,
    has-set r.store q.id id q,
    rejected_ids-append r.result.rejections ((q, retries_exhausted, message) ∷ []),
    includes-append (rejected_ids r.result.rejections) (q.id ∷ []) id,
  )
  Ends-is_known _ (Ends.put_back q failures kind e ready) h =
      ground (arith, has-set r.store q.id id q)

turn-is_known :
    (r : Run) (k id : String) (after : Run × Bool)
    → Turn r k after
    → is_known r id ≡ true
    → is_known after.0 id ≡ true
turn-is_known r k id _ (Turn.idle closed) h = h
turn-is_known r k id _ (Turn.request m {after} found ready ends) h =
    Ends-is_known (sending r m) (claimed m) id after ends
      (ground (arith, has-set r.store m.id id (claimed m)))

abbrev one_if : Option FailureKind → ℕ
one_if none = 0
one_if (some kind) = 1

-- Every request is accounted for once.
abbrev pub accounted : SyncResult → ℕ
accounted result =
    result.succeeded + length result.rejections + length result.conflicts + one_if result.halted

-- Whether a loop that has not halted goes on is decided by its result.
abbrev IsAccounted : Run × Bool → Type 0
IsAccounted (next, true) = (length next.sent ≡ accounted next.result) × (next.result.halted ≡ none)
IsAccounted (next, false) = length next.sent ≡ accounted next.result

Ends-IsAccounted :
    (r : Run) (m : Mutation) (after : Run × Bool)
    → Ends r m after
    → r.result.halted ≡ none
    → length r.sent ≡ accounted r.result + 1
    → IsAccounted after
Ends-IsAccounted r m _ Ends.taken fine h = (omega arith, fine)
Ends-IsAccounted r m _ (Ends.stale found) fine h =
    (omega (arith, length-append r.result.conflicts ((m.id, m.squad_id, found.0) ∷ [])), fine)
Ends-IsAccounted r m _ (Ends.dropped reason message) fine h =
    (omega (arith, length-append r.result.rejections ((m, reason, message) ∷ [])), fine)
Ends-IsAccounted r m _ (Ends.exhausted q message e) fine h =
    (omega (arith, length-append r.result.rejections ((q, retries_exhausted, message) ∷ [])), fine)
Ends-IsAccounted r m _ (Ends.put_back q failures kind e ready) fine h = ground arith

turn-IsAccounted :
    (r : Run) (id : String) (after : Run × Bool)
    → Turn r id after
    → r.result.halted ≡ none
    → length r.sent ≡ accounted r.result
    → IsAccounted after
turn-IsAccounted r id _ (Turn.idle closed) fine h = (h, fine)
turn-IsAccounted r id _ (Turn.request m {after} found ready ends) fine h =
    Ends-IsAccounted (sending r m) (claimed m) after ends fine
      (omega (arith, length-append r.sent (claimed m ∷ [])))

IsAccounted-on :
    (after : Run × Bool) → IsAccounted after → after.1 ≡ true → IsAccounted (after.0, true)
IsAccounted-on (next, true) h on = h
IsAccounted-on (next, false) h on = cc

IsAccounted-off :
    (after : Run × Bool) → IsAccounted after → length after.0.sent ≡ accounted after.0.result
IsAccounted-off (next, true) h = h.0
IsAccounted-off (next, false) h = h

module _ (server : List Mutation → Mutation → Reply) where
  replay-is_known :
      (todo : List String) (r : Run) (id : String)
      → is_known r id ≡ true
      → is_known (replay server r todo) id ≡ true
  unfolding replay
  replay-is_known [] r id h = h
  replay-is_known (k ∷ todo) r id h =
      let after = send server r (claim_mutation r.store k) in
      let now = turn-is_known r k id after (turn server r k) h in
      elim (Bool-cases after.1) [
        | inl on ↦ rw on (replay-is_known todo after.0 id now)
        | inr off ↦ rw off now
      ]

  replay-accounted :
      (todo : List String) (r : Run)
      → r.result.halted ≡ none
      → length r.sent ≡ accounted r.result
      → length (replay server r todo).sent ≡ accounted (replay server r todo).result
  unfolding replay
  replay-accounted [] r fine h = h
  replay-accounted (k ∷ todo) r fine h =
      let after = send server r (claim_mutation r.store k) in
      let now = turn-IsAccounted r k after (turn server r k) fine h in
      elim (Bool-cases after.1) [
        | inl on ↦
            let next = IsAccounted-on after now on in
            rw on (replay-accounted todo after.0 next.1 next.0)
        | inr off ↦ rw off (IsAccounted-off after now)
      ]

put_all-has :
    (s : Store) (ms : List Mutation) (id : String) → has s id ≡ true → has (put_all s ms) id ≡ true
put_all-has s [] id h = h
put_all-has s (m ∷ ms) id h =
    put_all-has (put s (record m { status = pending })) ms id
      (has-set s m.id id (record m { status = pending }) h)

-- A flush loses no mutation: one that was in the storage is there still, or is reported to the caller
-- as synced or as rejected. And every request is accounted for, by a mutation synced, one rejected, a
-- conflict, or the halt of the flush.
pub flush_queue-no_loss :
    (server : List Mutation → Mutation → Reply) (s : Store) (id : String)
    → has s id ≡ true
    → (is_known (flush_queue server s) id ≡ true)
      × (length (flush_queue server s).sent ≡ accounted (flush_queue server s).result)
unfolding flush_queue recover
flush_queue-no_loss server s id h =
    let begin : Run = record { store = recover s; result = empty_result; sent = [] } in
    let there = put_all-has s (filter is_syncing (get_all s)) id h in
    (
      replay-is_known server (pending_ids (recover s)) begin id (ground arith),
      replay-accounted server (pending_ids (recover s)) begin refl refl,
    )
