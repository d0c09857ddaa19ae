-- ===== src/Prelude/Sort/Ordered.antt =====
-- What the sort by a comparator gives is in order, and leaving elements out commutes with it.
use fantasy_xi.Prelude.Tests.{Bool-cases, if◌then◌else◌}
use fantasy_xi.Prelude.Lists.{All, All-filter, filter}
use mathlib.Core.Path.{◌≡◌, refl}
use mathlib.Core.Bool.{Bool, true, false}
use mathlib.Core.Logic.{inl, inr}
use mathlib.Core.List.{List, [], ◌∷◌}
use native.Mathlib.Omega.{arith}
use fantasy_xi.Prelude.Sort.{insert_with, sort_with, All-insert_with}

-- Each element is related to all that come after it.
abbrev pub IsOrderedBy {ℓ κ} : {A : Type ℓ} → (A → A → Type κ) → List A → Type κ
IsOrderedBy R [] = Unit
IsOrderedBy R (x ∷ xs) = All (R x) xs × IsOrderedBy R xs

module _ {ℓ} {A : Type ℓ} (le : A → A → Bool) (total : (x y : A) → le x y ≡ false → le y x ≡ true)
    (trans : (x y z : A) → le x y ≡ true → le y z ≡ true → le x z ≡ true) where
  abbrev AreAfter : A → List A → Type 0
  AreAfter x = All (λ y. le x y ≡ true)

  AreAfter-trans : (x y : A) (ys : List A) → le x y ≡ true → AreAfter y ys → AreAfter x ys
  AreAfter-trans x y [] le_xy after = tt
  AreAfter-trans x y (z ∷ zs) le_xy after =
      (trans x y z le_xy after.0, AreAfter-trans x y zs le_xy after.1)

  insert_with-IsOrderedBy :
      (x : A) (ys : List A)
      → IsOrderedBy (λ a b. le a b ≡ true) ys
      → IsOrderedBy (λ a b. le a b ≡ true) (insert_with le x ys)
  unfolding insert_with
  insert_with-IsOrderedBy x [] h = (tt, tt)
  insert_with-IsOrderedBy x (y ∷ ys) h = elim (Bool-cases (le x y)) [
    | inl first ↦ rw first ((first, AreAfter-trans x y ys first h.0), h)
    | inr later ↦ rw later (
      All-insert_with le (λ z. le y z ≡ true) x ys (total x y later) h.0,
      insert_with-IsOrderedBy x ys h.1,
    )
  ]

  pub sort_with-IsOrderedBy : (xs : List A) → IsOrderedBy (λ a b. le a b ≡ true) (sort_with le xs)
  unfolding sort_with
  sort_with-IsOrderedBy [] = tt
  sort_with-IsOrderedBy (x ∷ xs) =
      insert_with-IsOrderedBy x (sort_with le xs) (sort_with-IsOrderedBy xs)

  insert_with-first : (x : A) (ys : List A) → AreAfter x ys → insert_with le x ys ≡ x ∷ ys
  unfolding insert_with
  insert_with-first x [] after = refl
  insert_with-first x (y ∷ ys) after = rw after.0 refl

  module _ (test : A → Bool) where
    filter-insert_with :
        (x : A) (ys : List A)
        → IsOrderedBy (λ a b. le a b ≡ true) ys
        → filter test (insert_with le x ys)
          ≡ (if test x then insert_with le x (filter test ys) else filter test ys)
    unfolding insert_with
    filter-insert_with x [] h = ground arith
    filter-insert_with x (y ∷ ys) h = elim (Bool-cases (le x y)) [
      | inl first ↦ rw first (
          ground (
            arith,
            insert_with-first x (filter test (y ∷ ys)) (
                All-filter (λ z. le x z ≡ true) test (y ∷ ys)
                  (first, AreAfter-trans x y ys first h.0)),
          ))
      | inr later ↦ rw later (ground (arith, later, filter-insert_with x ys h.1))
    ]

    pub filter-sort_with :
        (xs : List A) → filter test (sort_with le xs) ≡ sort_with le (filter test xs)
    unfolding sort_with
    filter-sort_with [] = refl
    filter-sort_with (x ∷ xs) = ground (
      arith,
      filter-insert_with x (sort_with le xs) (sort_with-IsOrderedBy xs),
      filter-sort_with xs,
    )
