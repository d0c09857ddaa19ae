-- ===== src/Offline/Flush/Sent.antt =====
-- The order of the requests: flushQueue of frontend/src/lib/offlineQueue.ts.
use Prim.Native.String.{String}
use fantasy_xi.Prelude.{
  ◌≡◌, refl, Bool, true, false, Option, none, some, List, [], ◌∷◌, ◌++◌, inl, inr, Bool-cases,
  Option-cases, map, filter, append-nil, ap, ◌∙◌, ◌⊎◌, append_assoc, map-append, sym, subst,
}
use fantasy_xi.Prelude.Dict.{values, get, string_eq, get-set_self}
use fantasy_xi.Prelude.Entries.{Entries-set, get-Entries}
use fantasy_xi.Offline.{causal_le, Mutation, Store, get_all, put, pending, is_pending}
use mathlib.Core.List.{Perm}
use fantasy_xi.Prelude.Sort.{sort_with-perm}
use fantasy_xi.Prelude.Sort.Ordered.{IsOrderedBy}
use fantasy_xi.Offline.Causal.{IsKeyed, IsEarlier, filter-get_all, sort_causal-IsOrderedBy}
use fantasy_xi.Offline.Flush.{
  put_all, is_syncing, empty_result, Run, Reply, FailureKind, claim_mutation, claimed, send, replay,
  recover, pending_ids, flush_queue,
}
use fantasy_xi.Offline.Flush.Ends.{
  Ends, settle-Ends, Ends-IsKeyed, Ends-sent, is_queued, Ends-IsSettled,
}

-- The elements of one list among those of another, in its order.
pub data IsSublist : List String → List String → Type 0 where
  nothing : (ys : List String) → IsSublist [] ys
  skip : {xs ys : List String} (y : String) → IsSublist xs ys → IsSublist xs (y ∷ ys)
  keep : {xs ys : List String} (y : String) → IsSublist xs ys → IsSublist (y ∷ xs) (y ∷ ys)

abbrev pub ids : List Mutation → List String
ids = map (λ m. m.id)

-- What a run from `r` over the identifiers `todo` sends: some of them, in their order, after what was
-- sent before. A run that halts has put back the last mutation that it sent.
abbrev pub last_id : List Mutation → Option String
last_id [] = none
last_id (m ∷ []) = some m.id
last_id (m ∷ n ∷ ms) = last_id (n ∷ ms)

abbrev pub is_put_back : Option FailureKind → Store → Option String → Bool
is_put_back none s last = true
is_put_back (some kind) s none = false
is_put_back (some kind) s (some id) = is_queued s id

last_id-append : (ms : List Mutation) (m : Mutation) → last_id (ms ++ m ∷ []) ≡ some m.id
last_id-append [] m = refl
last_id-append (a ∷ []) m = refl
last_id-append (a ∷ b ∷ ms) m = last_id-append (b ∷ ms) m

-- The state of a run that has sent a request for `m`.
abbrev pub sending : Run → Mutation → Run
sending r m = record r { store = put r.store (claimed m); sent = r.sent ++ claimed m ∷ [] }

-- One turn of the loop: nothing is sent, or a request for a pending mutation ends in some way.
pub data Turn (r : Run) (id : String) : Run × Bool → Type 0 where
  idle : is_queued r.store id ≡ false → Turn r id (r, true)
  request :
      (m : Mutation) {after : Run × Bool}
      → get r.store id ≡ some m
      → is_pending m ≡ true
      → Ends (sending r m) (claimed m) after
      → Turn r id after

module _ (server : List Mutation → Mutation → Reply) where
  pub turn : (r : Run) (id : String) → Turn r id (send server r (claim_mutation r.store id))
  turn r id = elim (Option-cases (get r.store id)) [
    | inl missing ↦ rw missing (Turn.idle (rw (missing, is_queued) refl))
    | inr (m, found) ↦ elim (Bool-cases (is_pending m)) [
      | inl ready ↦
          rw (found, ready)
            (Turn.request m found ready (
              settle-Ends (sending r m) (claimed m) (get-set_self r.store m.id (claimed m))
                (server r.sent (claimed m))))
      | inr other ↦ rw (found, other) (Turn.idle (rw (found, is_queued, other) refl))
    ]
  ]

pub turn-IsKeyed :
    (r : Run) (id : String) (after : Run × Bool)
    → Turn r id after
    → IsKeyed r.store
    → IsKeyed after.0.store
turn-IsKeyed r id _ (Turn.idle closed) keyed = keyed
turn-IsKeyed r id _ (Turn.request m {after} found ready ends) keyed =
    Ends-IsKeyed (sending r m) (claimed m) after ends
      (Entries-set (λ (k : String) (m : Mutation). m.id ≡ k) r.store m.id (claimed m) refl keyed)

turn-sent :
    (r : Run) (id : String) (after : Run × Bool)
    → Turn r id after
    → IsKeyed r.store
    → (ids after.0.sent ≡ ids r.sent ++ id ∷ []) ⊎ (after.0.sent ≡ r.sent)
turn-sent r id _ (Turn.idle closed) keyed = inr refl
turn-sent r id _ (Turn.request m {after} found ready ends) keyed =
    let named : m.id ≡ id =
      get-Entries (λ (k : String) (m : Mutation). m.id ≡ k) r.store id m found keyed in
    inl (
      ap ids (Ends-sent (sending r m) (claimed m) after ends)
      ∙ map-append (λ (m : Mutation). m.id) r.sent (claimed m ∷ [])
      ∙ ap (λ k. ids r.sent ++ k ∷ []) named)

module _ (server : List Mutation → Mutation → Reply) where
  -- What is sent over `todo`, after what was sent before.
  abbrev IsInOrder : Run → List String → Run → Type 0
  IsInOrder r todo next =
      (new : List String) × (ids next.sent ≡ ids r.sent ++ new) × IsSublist new todo

  then_rest :
      (r next last : Run) (id : String) (todo : List String)
      → (ids next.sent ≡ ids r.sent ++ id ∷ []) ⊎ (next.sent ≡ r.sent)
      → IsInOrder next todo last
      → IsInOrder r (id ∷ todo) last
  then_rest r next last id todo (inl sent) (new, e, sub) = (
    id ∷ new,
    e ∙ ap (λ l. l ++ new) sent ∙ append_assoc (ids r.sent) (id ∷ []) new,
    IsSublist.keep id sub,
  )
  then_rest r next last id todo (inr idle_turn) (new, e, sub) =
      (new, e ∙ ap (λ l. ids l ++ new) idle_turn, IsSublist.skip id sub)

  replay-IsInOrder :
      (todo : List String) (r : Run) → IsKeyed r.store → IsInOrder r todo (replay server r todo)
  unfolding replay
  replay-IsInOrder [] r keyed = ([], sym (append-nil (ids r.sent)), IsSublist.nothing [])
  replay-IsInOrder (id ∷ todo) r keyed =
      let after = send server r (claim_mutation r.store id) in
      let now = turn server r id in
      let first = turn-sent r id after now keyed in
      elim (Bool-cases after.1) [
        | inl on ↦ rw on (
            then_rest r after.0 (replay server after.0 todo) id todo first
              (replay-IsInOrder todo after.0 (turn-IsKeyed r id after now keyed)))
        | inr off ↦ rw off (
            then_rest r after.0 after.0 id todo first
              ([], sym (append-nil (ids after.0.sent)), IsSublist.nothing todo))
      ]

-- A turn that goes on has no new reason to halt; one that stops has put back what it sent last.
abbrev IsContinued : Run → Run × Bool → Type 0
IsContinued r (next, true) = next.result.halted ≡ r.result.halted
IsContinued r (next, false) = is_put_back next.result.halted next.store (last_id next.sent) ≡ true

put_back-last :
    (halted : Option FailureKind) (s : Store) (id : String) (last : Option String)
    → last ≡ some id
    → is_queued s id ≡ true
    → is_put_back halted s last ≡ true
put_back-last none s id last e h = refl
put_back-last (some kind) s id last e h = rw e h

nothing_halts :
    (halted : Option FailureKind) (s : Store) (last : Option String)
    → halted ≡ none
    → is_put_back halted s last ≡ true
nothing_halts halted s last e = rw e refl

pub turn-IsContinued :
    (r : Run) (id : String) (after : Run × Bool) → Turn r id after → IsContinued r after
turn-IsContinued r id _ (Turn.idle closed) = refl
turn-IsContinued r id (next, true) (Turn.request m found ready ends) =
    Ends-IsSettled (sending r m) (claimed m) (next, true) ends
turn-IsContinued r id (next, false) (Turn.request m found ready ends) =
    put_back-last next.result.halted next.store m.id (last_id next.sent)
      (ap last_id (Ends-sent (sending r m) (claimed m) (next, false) ends)
        ∙ last_id-append r.sent (claimed m))
      (Ends-IsSettled (sending r m) (claimed m) (next, false) ends)

-- What `turn-IsContinued` says of each of the two.
pub goes_on :
    (r : Run) (after : Run × Bool)
    → IsContinued r after
    → after.1 ≡ true
    → after.0.result.halted ≡ r.result.halted
goes_on r (next, true) h on = h
goes_on r (next, false) h on = cc

stops :
    (r : Run) (after : Run × Bool)
    → IsContinued r after
    → after.1 ≡ false
    → is_put_back after.0.result.halted after.0.store (last_id after.0.sent) ≡ true
stops r (next, true) h off = cc
stops r (next, false) h off = h

module _ (server : List Mutation → Mutation → Reply) where
  replay-put_back :
      (todo : List String) (r : Run)
      → r.result.halted ≡ none
      → is_put_back
          (replay server r todo).result.halted
          (replay server r todo).store
          (last_id (replay server r todo).sent)
        ≡ true
  unfolding replay
  replay-put_back [] r fine = nothing_halts r.result.halted r.store (last_id r.sent) fine
  replay-put_back (id ∷ todo) r fine =
      let after = send server r (claim_mutation r.store id) in
      let now = turn-IsContinued r id after (turn server r id) in
      elim (Bool-cases after.1) [
        | inl on ↦ rw on (replay-put_back todo after.0 (goes_on r after now on ∙ fine))
        | inr off ↦ rw off (stops r after now off)
      ]

put_all-IsKeyed : (s : Store) (ms : List Mutation) → IsKeyed s → IsKeyed (put_all s ms)
put_all-IsKeyed s [] keyed = keyed
put_all-IsKeyed s (m ∷ ms) keyed = put_all-IsKeyed (put s (record m { status = pending })) ms (
    Entries-set (λ (k : String) (m : Mutation). m.id ≡ k) s m.id (record m { status = pending })
      refl keyed)

pub recover-IsKeyed : (s : Store) → IsKeyed s → IsKeyed (recover s)
unfolding recover
recover-IsKeyed s = put_all-IsKeyed s (filter is_syncing (get_all s))

-- The pending mutations of a storage, each once, in causal order.
abbrev pub AreDue : Store → List Mutation → Type 0
AreDue s due = Perm due (filter is_pending (values s)) × IsOrderedBy IsEarlier due

pending-AreDue : (s : Store) → AreDue s (filter is_pending (get_all s))
pending-AreDue s = rw (filter-get_all s is_pending) (
  sort_with-perm causal_le (filter is_pending (values s)),
  sort_causal-IsOrderedBy (filter is_pending (values s)),
)

-- With every mutation under its own identifier: the requests of a flush are, in their order, for some
-- of the pending mutations, once those that a closed tab left are pending again, put in order by
-- their sequence numbers and, where these are equal, by their times. If the flush halts, the last
-- mutation that it sent is in the storage again, pending, so none after it has overtaken it.
pub flush_queue-in_order :
    (server : List Mutation → Mutation → Reply) (s : Store)
    → IsKeyed s
    → ((due : List Mutation) × AreDue (recover s) due
        × IsSublist (ids (flush_queue server s).sent) (ids due))
      × (is_put_back
            (flush_queue server s).result.halted
            (flush_queue server s).store
            (last_id (flush_queue server s).sent)
          ≡ true)
unfolding flush_queue pending_ids
flush_queue-in_order server s keyed =
    let begin : Run = record { store = recover s; result = empty_result; sent = [] } in
    let (new, e, sub) =
      replay-IsInOrder server (pending_ids (recover s)) begin (recover-IsKeyed s keyed) in
    (
      (
        filter is_pending (get_all (recover s)),
        pending-AreDue (recover s),
        subst (λ l. IsSublist l (pending_ids (recover s))) (sym e) sub,
      ),
      replay-put_back server (pending_ids (recover s)) begin refl,
    )
