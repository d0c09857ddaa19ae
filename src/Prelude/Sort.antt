-- ===== src/Prelude/Sort.antt =====
-- `Array.prototype.sort` by an ascending numeric key: it is stable, so an insertion sort that puts
-- an element before its equals from the right gives the same array.
pub mod Ordered
use mathlib.Core.List.{Perm}
use mathlib.Core.List.Perm
use Prim.Native.Nat.{ℕ, ◌≤◌}
use mathlib.Core.Path.{◌≡◌, refl, ap, ◌∙◌}
use mathlib.Core.Bool.{Bool, true, false, ◌||◌}
use mathlib.Core.Logic.{inl, inr}
use mathlib.Core.List.{List, [], ◌∷◌, ◌++◌}
use native.Mathlib.Omega.{arith}
use fantasy_xi.Prelude.Tests.{leb, if◌then◌else◌, Bool-cases}
use fantasy_xi.Prelude.Lists.{All, any}

module _ {ℓ} {A : Type ℓ} (key : A → ℕ) where
  pub insert_by : A → List A → List A
  insert_by x [] = x ∷ []
  insert_by x (y ∷ ys) = if leb (key x) (key y) then x ∷ y ∷ ys else y ∷ insert_by x ys

  unfoldable pub sort_by : List A → List A
  unfolding insert_by
  sort_by [] = []
  sort_by (x ∷ xs) = insert_by x (sort_by xs)

  insert_by-perm : (x : A) (xs : List A) → Perm (insert_by x xs) (x ∷ xs)
  unfolding insert_by
  insert_by-perm x [] = Perm.refl (x ∷ [])
  insert_by-perm x (y ∷ ys) = elim (Bool-cases (leb (key x) (key y))) [
    | inl first ↦ rw first (Perm.refl (x ∷ y ∷ ys))
    | inr later ↦ rw later (Perm.trans (Perm.cons y (insert_by-perm x ys)) (Perm.swap x y ys))
  ]

  pub sort_by-perm : (xs : List A) → Perm (sort_by xs) xs
  unfolding sort_by
  sort_by-perm [] = Perm.nil
  sort_by-perm (x ∷ xs) = Perm.trans (insert_by-perm x (sort_by xs)) (Perm.cons x (sort_by-perm xs))

  -- In ascending order.
  abbrev pub IsSorted : List A → Type 0
  IsSorted [] = Unit
  IsSorted (x ∷ xs) = All (λ y. key x ≤ key y) xs × IsSorted xs

  All-insert_by {κ} :
      (P : A → Type κ) (x : A) (xs : List A) → P x → All P xs → All P (insert_by x xs)
  unfolding insert_by
  All-insert_by P x [] p h = (p, tt)
  All-insert_by P x (y ∷ ys) p h = ground (arith, All-insert_by P x ys p h.1)

  pub All-sort_by {κ} : (P : A → Type κ) (xs : List A) → All P xs → All P (sort_by xs)
  unfolding sort_by
  All-sort_by P [] h = tt
  All-sort_by P (x ∷ xs) h = All-insert_by P x (sort_by xs) h.0 (All-sort_by P xs h.1)

  All-le : (a b : ℕ) (xs : List A) → a ≤ b → All (λ y. b ≤ key y) xs → All (λ y. a ≤ key y) xs
  All-le a b [] h k = tt
  All-le a b (x ∷ xs) h k = (omega arith, All-le a b xs h k.1)

  insert_by-IsSorted : (x : A) (xs : List A) → IsSorted xs → IsSorted (insert_by x xs)
  unfolding insert_by
  insert_by-IsSorted x [] h = (tt, tt)
  insert_by-IsSorted x (y ∷ ys) h = elim (Bool-cases (leb (key x) (key y))) [
    | inl first ↦
        let le : key x ≤ key y = ground arith in
        rw first ((le, All-le (key x) (key y) ys le h.0), h)
    | inr later ↦
        rw later
          (All-insert_by (λ z. key y ≤ key z) x ys (ground arith) h.0, insert_by-IsSorted x ys h.1)
  ]

  pub sort_by-IsSorted : (xs : List A) → IsSorted (sort_by xs)
  unfolding sort_by
  sort_by-IsSorted [] = tt
  sort_by-IsSorted (x ∷ xs) = insert_by-IsSorted x (sort_by xs) (sort_by-IsSorted xs)

-- The stable sort by a comparator, where `le x y` says that `x` may stand before `y`.
module _ {ℓ} {A : Type ℓ} (le : A → A → Bool) where
  pub insert_with : A → List A → List A
  insert_with x [] = x ∷ []
  insert_with x (y ∷ ys) = if le x y then x ∷ y ∷ ys else y ∷ insert_with x ys

  unfoldable pub sort_with : List A → List A
  unfolding insert_with
  sort_with [] = []
  sort_with (x ∷ xs) = insert_with x (sort_with xs)

  insert_with-perm : (x : A) (xs : List A) → Perm (insert_with x xs) (x ∷ xs)
  unfolding insert_with
  insert_with-perm x [] = Perm.refl (x ∷ [])
  insert_with-perm x (y ∷ ys) = elim (Bool-cases (le x y)) [
    | inl first ↦ rw first (Perm.refl (x ∷ y ∷ ys))
    | inr later ↦ rw later (Perm.trans (Perm.cons y (insert_with-perm x ys)) (Perm.swap x y ys))
  ]

  pub sort_with-perm : (xs : List A) → Perm (sort_with xs) xs
  unfolding sort_with
  sort_with-perm [] = Perm.nil
  sort_with-perm (x ∷ xs) =
      Perm.trans (insert_with-perm x (sort_with xs)) (Perm.cons x (sort_with-perm xs))

  All-insert_with {κ} :
      (P : A → Type κ) (x : A) (xs : List A) → P x → All P xs → All P (insert_with x xs)
  unfolding insert_with
  All-insert_with P x [] p h = (p, tt)
  All-insert_with P x (y ∷ ys) p h = ground (arith, All-insert_with P x ys p h.1)

  pub All-sort_with {κ} : (P : A → Type κ) (xs : List A) → All P xs → All P (sort_with xs)
  unfolding sort_with
  All-sort_with P [] h = tt
  All-sort_with P (x ∷ xs) h = All-insert_with P x (sort_with xs) h.0 (All-sort_with P xs h.1)

  insert_with-before :
      (x q : A) (xs : List A)
      → le x q ≡ true
      → insert_with x (xs ++ q ∷ []) ≡ insert_with x xs ++ q ∷ []
  unfolding insert_with
  insert_with-before x q [] h = rw h refl
  insert_with-before x q (y ∷ ys) h = ground (arith, insert_with-before x q ys h)

  insert_with-last :
      (q : A) (xs : List A) → All (λ x. le q x ≡ false) xs → insert_with q xs ≡ xs ++ q ∷ []
  unfolding insert_with
  insert_with-last q [] h = refl
  insert_with-last q (y ∷ ys) h = ground (arith, insert_with-last q ys h.1)

  -- An element that may not stand before any other comes last.
  pub sort_with-last :
      (q : A) (xs : List A)
      → All (λ x. le q x ≡ false) xs
      → sort_with (q ∷ xs) ≡ sort_with xs ++ q ∷ []
  unfolding sort_with
  sort_with-last q xs h =
      insert_with-last q (sort_with xs) (All-sort_with (λ x. le q x ≡ false) xs h)

  pub sort_with-before :
      (x q : A) (xs ys : List A)
      → le x q ≡ true
      → sort_with xs ≡ sort_with ys ++ q ∷ []
      → sort_with (x ∷ xs) ≡ sort_with (x ∷ ys) ++ q ∷ []
  unfolding sort_with
  sort_with-before x q xs ys h e = rw e (insert_with-before x q (sort_with ys) h)

  any-insert_with :
      (test : A → Bool) (x : A) (xs : List A)
      → any test (insert_with x xs) ≡ (test x || any test xs)
  unfolding insert_with
  any-insert_with test x [] = refl
  any-insert_with test x (y ∷ ys) = ground (arith, any-insert_with test x ys)

  pub any-sort_with : (test : A → Bool) (xs : List A) → any test (sort_with xs) ≡ any test xs
  unfolding sort_with
  any-sort_with test [] = refl
  any-sort_with test (x ∷ xs) =
      any-insert_with test x (sort_with xs) ∙ ap (λ b. test x || b) (any-sort_with test xs)
