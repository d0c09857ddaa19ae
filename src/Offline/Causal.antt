-- ===== src/Offline/Causal.antt =====
-- The causal order of mutations, written out, and that the list of frontend/src/lib/offlineQueue.ts's
-- getAll is in it.
use fantasy_xi.Prelude.{
  Bool, ◌≡◌, ◌∙◌, sym, ap, refl, true, false, not, ◌<◌, ◌≤◌, ◌⊎◌, Bool-cases, inl, inr, List, [],
  ◌∷◌, All, arith, filter,
}
use fantasy_xi.Prelude.Dict.{get, has, delete, values, beq, string_eq, IsMap}
use fantasy_xi.Prelude.Sort.{sort_with}
use fantasy_xi.Prelude.Sort.Ordered.{IsOrderedBy, sort_with-IsOrderedBy, filter-sort_with}
use fantasy_xi.Offline.{Mutation, Store, or_zero, causal_le, get_all}
use fantasy_xi.Prelude.Entries.{Entries}
use Prim.Native.String.{String}

-- Every mutation is kept under its own identifier.
abbrev pub IsNamed : String → Mutation → Type 0
IsNamed k m = m.id ≡ k

abbrev pub IsKeyed : Store → Type 0
IsKeyed = Entries IsNamed

-- A lower sequence number, or the same one and not a later time. A mutation without a sequence number
-- counts as the number 0.
abbrev pub IsEarlier : Mutation → Mutation → Type 0
IsEarlier a b =
    (or_zero a.seq < or_zero b.seq)
    ⊎ ((or_zero a.seq ≡ or_zero b.seq) × (a.timestamp ≤ b.timestamp))

causal_le-IsEarlier : (a b : Mutation) → causal_le a b ≡ true → IsEarlier a b
causal_le-IsEarlier a b h = ground arith

causal_le_total : (a b : Mutation) → causal_le a b ≡ false → causal_le b a ≡ true
causal_le_total a b h = ground arith

causal_le_trans :
    (a b c : Mutation) → causal_le a b ≡ true → causal_le b c ≡ true → causal_le a c ≡ true
causal_le_trans a b c h k = ground arith

All-IsEarlier :
    (m : Mutation) (ms : List Mutation) → All (λ n. causal_le m n ≡ true) ms → All (IsEarlier m) ms
All-IsEarlier m [] h = tt
All-IsEarlier m (n ∷ ns) h = (causal_le-IsEarlier m n h.0, All-IsEarlier m ns h.1)

ordered-IsEarlier :
    (ms : List Mutation) → IsOrderedBy (λ a b. causal_le a b ≡ true) ms → IsOrderedBy IsEarlier ms
ordered-IsEarlier [] h = tt
ordered-IsEarlier (m ∷ ms) h = (All-IsEarlier m ms h.0, ordered-IsEarlier ms h.1)

pub sort_causal-IsOrderedBy : (ms : List Mutation) → IsOrderedBy IsEarlier (sort_with causal_le ms)
sort_causal-IsOrderedBy ms =
    ordered-IsEarlier (sort_with causal_le ms)
      (sort_with-IsOrderedBy causal_le causal_le_total causal_le_trans ms)

-- Leaving entries out before the sort or after it is the same.
pub filter-get_all :
    (s : Store) (test : Mutation → Bool)
    → filter test (get_all s) ≡ sort_with causal_le (filter test (values s))
unfolding get_all
filter-get_all s test = filter-sort_with causal_le causal_le_total causal_le_trans test (values s)

abbrev pub without : String → List Mutation → List Mutation
without id = filter (λ m. not (beq m.id id))

pub values-without :
    (s : Store) (id : String) → IsKeyed s → has s id ≡ false → without id (values s) ≡ values s
unfolding get
values-without [] id keyed h = refl
values-without ((k, m) ∷ s) id keyed h = elim (Bool-cases (beq k id)) [
  | inl same ↦ ground arith
  | inr other ↦
      let named : beq m.id id ≡ false = rw keyed.0 other in
      ground (arith, values-without s id keyed.1 (rw (other, has) at h))
]

values-delete :
    (s : Store) (id : String) → IsKeyed s → IsMap s → values (delete s id) ≡ without id (values s)
unfolding delete
values-delete [] id keyed map_of = refl
values-delete ((k, m) ∷ s) id keyed map_of = elim (Bool-cases (beq k id)) [
  | inl same ↦
      let named : beq m.id id ≡ true = rw keyed.0 same in
      let here : k ≡ id = (string_eq.beq_iff k id).0 same in
      let absent : has s id ≡ false = ap (has s) (sym here) ∙ map_of.0 in
      ground (arith, values-without s id keyed.1 absent)
  | inr other ↦
      let named : beq m.id id ≡ false = rw keyed.0 other in
      ground (arith, values-delete s id keyed.1 map_of.1)
]

-- A removal takes the entry of the identifier out of the list and leaves the others in their order.
pub get_all-delete :
    (s : Store) (id : String) → IsKeyed s → IsMap s → get_all (delete s id) ≡ without id (get_all s)
unfolding get_all
get_all-delete s id keyed map_of =
    ap (sort_with causal_le) (values-delete s id keyed map_of)
    ∙ sym (filter-get_all s (λ m. not (beq m.id id)))

pub get_all-delete_absent :
    (s : Store) (id : String)
    → IsKeyed s
    → IsMap s
    → has s id ≡ false
    → get_all (delete s id) ≡ get_all s
unfolding get_all
get_all-delete_absent s id keyed map_of absent =
    ap (sort_with causal_le) (values-delete s id keyed map_of ∙ values-without s id keyed absent)
