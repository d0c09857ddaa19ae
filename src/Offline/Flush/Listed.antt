-- ===== src/Offline/Flush/Listed.antt =====
-- The list of what a flush sends: pendingIds of frontend/src/lib/offlineQueue.ts.
use Prim.Native.String.{String}
use native.Mathlib.Omega.{arith}
use fantasy_xi.Prelude.{
  ◌≡◌, refl, ◌∙◌, Bool, true, ◌&&◌, List, [], ◌∷◌, inl, inr, Bool-cases, map, filter, any,
}
use fantasy_xi.Prelude.Dict.{get, values, beq, string_eq}
use fantasy_xi.Prelude.Sort.{sort_with, any-sort_with}
use fantasy_xi.Offline.{Mutation, Store, get_all, is_pending, causal_le}
use fantasy_xi.Offline.Flush.{pending_ids}
use fantasy_xi.Offline.Causal.{IsKeyed}
use fantasy_xi.Offline.Flush.Ends.{is_queued}
use fantasy_xi.Offline.Flush.Account.{includes}

abbrev is_listed : String → Mutation → Bool
is_listed id m = is_pending m && beq m.id id

includes-any :
    (ms : List Mutation) (id : String)
    → includes (map (λ m. m.id) (filter is_pending ms)) id ≡ any (is_listed id) ms
includes-any [] id = refl
includes-any (m ∷ ms) id = ground (arith, includes-any ms id)

values-listed :
    (s : Store) (id : String)
    → IsKeyed s
    → is_queued s id ≡ true
    → any (is_listed id) (values s) ≡ true
unfolding get
values-listed [] id keyed h = cc
values-listed ((k, m) ∷ s) id keyed h = elim (Bool-cases (beq k id)) [
  | inl same ↦
      let named : beq m.id id ≡ true =
        (string_eq.beq_iff m.id id).1 (keyed.0 ∙ (string_eq.beq_iff k id).0 same) in
      ground arith
  | inr other ↦
      let rest : is_queued s id ≡ true → any (is_listed id) (values s) ≡ true =
        values-listed s id keyed.1 in
      ground arith
]

pub queued-listed :
    (s : Store) (id : String)
    → IsKeyed s
    → is_queued s id ≡ true
    → includes (pending_ids s) id ≡ true
unfolding pending_ids get_all
queued-listed s id keyed h =
    includes-any (sort_with causal_le (values s)) id
    ∙ any-sort_with causal_le (is_listed id) (values s)
    ∙ values-listed s id keyed h
