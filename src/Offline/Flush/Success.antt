-- ===== src/Offline/Flush/Success.antt =====
-- Flushes that the network lets through: flushQueue of frontend/src/lib/offlineQueue.ts.
use Prim.Native.String.{String}
use native.Mathlib.Omega.{arith}
use fantasy_xi.Prelude.{
  ◌≡◌, refl, sym, ◌∙◌, ap, Bool, true, false, Option, none, some, List, [], ◌∷◌, inl, inr,
  Bool-cases, Option-cases, subst, filter,
}
use fantasy_xi.Prelude.Dict.{
  get, delete, get-set, get-delete, get-delete_self, IsMap, IsMap-set, IsMap-delete, beq, string_eq,
}
use fantasy_xi.Prelude.Entries.{get-Entries}
use fantasy_xi.Offline.{Mutation, Store, put, pending, conflict, get_all, is_pending}
use fantasy_xi.Offline.Flush.{
  Run, Reply, Thrown, FailureKind, accepted, refused, rejected, transient, offline, unauthorized,
  claimed, claim_mutation, send, replay, recover, put_all, is_syncing, pending_ids, flush_queue,
  empty_result, settle, classify_sync_error, conflict_of, unless_conflict,
}
use fantasy_xi.Offline.Causal.{IsKeyed}
use fantasy_xi.Offline.Flush.Ends.{Ends, is_queued}
use fantasy_xi.Offline.Flush.Sent.{
  sending, Turn, turn, turn-IsKeyed, recover-IsKeyed, turn-IsContinued, goes_on,
}
use fantasy_xi.Offline.Flush.Account.{includes}
use fantasy_xi.Offline.Flush.Listed.{queued-listed}

abbrev pub is_refusal : FailureKind → Bool
is_refusal rejected = true
is_refusal transient = false
is_refusal offline = false
is_refusal unauthorized = false

-- An answer of the server to the mutation itself, with success or not.
abbrev pub is_definite : Reply → Bool
is_definite accepted = true
is_definite (refused online e) = is_refusal (classify_sync_error online e)

unless_conflict-goes_on :
    (r : Run) (m : Mutation) (e : Thrown) (kind : FailureKind) (revision : Option (String × String))
    → is_refusal kind ≡ true
    → (unless_conflict r m e kind revision).1 ≡ true
unless_conflict-goes_on r m e rejected none h = refl
unless_conflict-goes_on r m e rejected (some revision) h = refl
unless_conflict-goes_on r m e transient revision h = cc
unless_conflict-goes_on r m e offline revision h = cc
unless_conflict-goes_on r m e unauthorized revision h = cc

settle-goes_on :
    (r : Run) (m : Mutation) (reply : Reply)
    → is_definite reply ≡ true
    → (settle r m reply).1 ≡ true
unfolding settle
settle-goes_on r m accepted h = refl
settle-goes_on r m (refused online e) h =
    unless_conflict-goes_on r m e (classify_sync_error online e) (conflict_of e) h

-- Deleting leaves nothing pending under the identifier, and nothing new elsewhere.
delete-done :
    (s : Store) (k j : String)
    → IsMap s
    → is_queued (delete s k) j ≡ true
    → (is_queued s j ≡ true) × (beq k j ≡ false)
delete-done s k j maps h =
    ground (arith, get-delete_self s k, get-delete s k j, (string_eq.beq_iff k j).0)

-- The same of a change of a mutation to one that is not pending.
put-done :
    (s : Store) (q : Mutation) (j : String)
    → is_pending q ≡ false
    → is_queued (put s q) j ≡ true
    → (is_queued s j ≡ true) × (beq q.id j ≡ false)
put-done s q j closed h = ground (arith, get-set s q.id j q)

put-delete-done :
    (s : Store) (q : Mutation) (j : String)
    → IsMap s
    → is_queued (delete (put s q) q.id) j ≡ true
    → (is_queued s j ≡ true) × (beq q.id j ≡ false)
put-delete-done s q j maps h =
    let gone = delete-done (put s q) q.id j (IsMap-set s q.id q maps) h in
    ground (arith, get-set s q.id j q)

module _ (r : Run) (m : Mutation) (j : String) where
  Ends-IsDone :
      (after : Run × Bool)
      → Ends r m after
      → after.1 ≡ true
      → IsMap r.store
      → is_queued after.0.store j ≡ true
      → (is_queued r.store j ≡ true) × (beq m.id j ≡ false)
  Ends-IsDone _ Ends.taken on maps h = delete-done r.store m.id j maps h
  Ends-IsDone _ (Ends.stale found) on maps h =
      put-done r.store
        (record m { status = conflict; server_revision = some found.0; last_error = some found.1 })
        j refl h
  Ends-IsDone _ (Ends.dropped reason message) on maps h = delete-done r.store m.id j maps h
  Ends-IsDone _ (Ends.exhausted q message e) on maps h =
      subst (λ k. (is_queued r.store j ≡ true) × (beq k j ≡ false)) e
        (put-delete-done r.store q j maps h)
  Ends-IsDone _ (Ends.put_back q failures kind e ready) on maps h = cc

  Ends-IsMap : (after : Run × Bool) → Ends r m after → IsMap r.store → IsMap after.0.store
  Ends-IsMap _ Ends.taken maps = IsMap-delete r.store m.id maps
  Ends-IsMap _ (Ends.stale found) maps =
      IsMap-set r.store m.id
        (record m { status = conflict; server_revision = some found.0; last_error = some found.1 })
        maps
  Ends-IsMap _ (Ends.dropped reason message) maps = IsMap-delete r.store m.id maps
  Ends-IsMap _ (Ends.exhausted q message e) maps =
      IsMap-delete (put r.store q) q.id (IsMap-set r.store q.id q maps)
  Ends-IsMap _ (Ends.put_back q failures kind e ready) maps = IsMap-set r.store q.id q maps

turn-IsMap :
    (r : Run) (id : String) (after : Run × Bool)
    → Turn r id after
    → IsMap r.store
    → IsMap after.0.store
turn-IsMap r id _ (Turn.idle closed) maps = maps
turn-IsMap r id _ (Turn.request m {after} found ready ends) maps =
    Ends-IsMap (sending r m) (claimed m) m.id after ends (IsMap-set r.store m.id (claimed m) maps)

turn-done :
    (r : Run) (id j : String) (after : Run × Bool)
    → Turn r id after
    → after.1 ≡ true
    → IsMap r.store
    → IsKeyed r.store
    → is_queued after.0.store j ≡ true
    → (is_queued r.store j ≡ true) × (beq id j ≡ false)
turn-done r id j _ (Turn.idle closed) on maps keyed h = ground (arith, (string_eq.beq_iff id j).0)
turn-done r id j _ (Turn.request m {after} found ready ends) on maps keyed h =
    let named : m.id ≡ id =
      get-Entries (λ (k : String) (m : Mutation). m.id ≡ k) r.store id m found keyed in
    let rest =
      Ends-IsDone (sending r m) (claimed m) j after ends on
        (IsMap-set r.store m.id (claimed m) maps) h in
    (ground (arith, get-set r.store m.id j (claimed m)), subst (λ k. beq k j ≡ false) named rest.1)

replay-on :
    (server : List Mutation → Mutation → Reply) (todo : List String) (r : Run) (id : String)
    → (send server r (claim_mutation r.store id)).1 ≡ true
    → replay server r (id ∷ todo) ≡ replay server (send server r (claim_mutation r.store id)).0 todo
unfolding replay
replay-on server todo r id on = rw on refl

module _ (server : List Mutation → Mutation → Reply)
    (definite : (sent : List Mutation) (m : Mutation) → is_definite (server sent m) ≡ true) where
  turn-goes_on : (r : Run) (id : String) → (send server r (claim_mutation r.store id)).1 ≡ true
  turn-goes_on r id = elim (Option-cases (get r.store id)) [
    | inl missing ↦ rw missing refl
    | inr (m, found) ↦ elim (Bool-cases (is_pending m)) [
      | inl ready ↦
          rw (found, ready)
            (settle-goes_on (sending r m) (claimed m) (server r.sent (claimed m))
              (definite r.sent (claimed m)))
      | inr other ↦ rw (found, other) refl
    ]
  ]

  replay-done :
      (todo : List String) (r : Run) (j : String)
      → IsMap r.store
      → IsKeyed r.store
      → is_queued (replay server r todo).store j ≡ true
      → (is_queued r.store j ≡ true) × (includes todo j ≡ false)
  unfolding replay
  replay-done [] r j maps keyed h = (h, refl)
  replay-done (id ∷ todo) r j maps keyed h =
      let after = send server r (claim_mutation r.store id) in
      let now = turn server r id in
      let on : after.1 ≡ true = turn-goes_on r id in
      let later =
        replay-done todo after.0 j (turn-IsMap r id after now maps)
          (turn-IsKeyed r id after now keyed)
          (sym (ap (λ (n : Run). is_queued n.store j) (replay-on server todo r id on)) ∙ h) in
      let this = turn-done r id j after now on maps keyed later.0 in
      (this.0, rw (this.1, later.1) refl)

  replay-fine :
      (todo : List String) (r : Run)
      → r.result.halted ≡ none
      → (replay server r todo).result.halted ≡ none
  unfolding replay
  replay-fine [] r fine = fine
  replay-fine (id ∷ todo) r fine =
      let after = send server r (claim_mutation r.store id) in
      let on : after.1 ≡ true = turn-goes_on r id in
      ap (λ (n : Run). n.result.halted) (replay-on server todo r id on)
      ∙ replay-fine todo after.0
          (goes_on r after (turn-IsContinued r id after (turn server r id)) on ∙ fine)

put_all-IsMap : (s : Store) (ms : List Mutation) → IsMap s → IsMap (put_all s ms)
put_all-IsMap s [] maps = maps
put_all-IsMap s (m ∷ ms) maps =
    put_all-IsMap (put s (record m { status = pending })) ms
      (IsMap-set s m.id (record m { status = pending }) maps)

recover-IsMap : (s : Store) → IsMap s → IsMap (recover s)
unfolding recover
recover-IsMap s = put_all-IsMap s (filter is_syncing (get_all s))

-- With one entry for each identifier, each under its own, and a server that answers every request to
-- the mutation itself, with success, a conflict or a refusal: a flush runs to its end and leaves
-- nothing pending.
pub flush_queue-settles :
    (server : List Mutation → Mutation → Reply) (s : Store) (id : String)
    → ((sent : List Mutation) (m : Mutation) → is_definite (server sent m) ≡ true)
    → IsMap s
    → IsKeyed s
    → ((flush_queue server s).result.halted ≡ none)
      × (is_queued (flush_queue server s).store id ≡ false)
unfolding flush_queue
flush_queue-settles server s id definite maps keyed =
    let begin : Run = record { store = recover s; result = empty_result; sent = [] } in
    let all_done =
      replay-done server definite (pending_ids (recover s)) begin id (recover-IsMap s maps)
        (recover-IsKeyed s keyed) in
    let listed = queued-listed (recover s) id (recover-IsKeyed s keyed) in
    (
      replay-fine server definite (pending_ids (recover s)) begin refl,
      ground (arith, all_done, listed),
    )
