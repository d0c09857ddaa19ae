-- ===== src/Prelude/Perms.antt =====
-- Permutations and the native length.
use mathlib.Core.HLevel.{×_prop}
use mathlib.Core.Logic.{∥∥₁_elim}
use mathlib.Core.List.{Perm}
use mathlib.Core.List.{Permᴰ}
use mathlib.Core.Path.{◌≡◌, refl, subst}
use mathlib.Core.List.{List, [], ◌∷◌}
use native.Mathlib.Nat.{ℕ_set}
use native.Mathlib.Omega.{arith}
use fantasy_xi.Prelude.Lists.{length, All}

module _ {ℓ} {A : Type ℓ} where
  length-permᴰ : {xs ys : List A} → Permᴰ xs ys → length xs ≡ length ys
  length-permᴰ Permᴰ.nil = refl
  length-permᴰ (Permᴰ.cons e p) = omega (arith, length-permᴰ p)
  length-permᴰ (Permᴰ.swap e d) = refl
  length-permᴰ (Permᴰ.trans p q) = omega (arith, length-permᴰ p, length-permᴰ q)

  -- Permuted lists have one length.
  pub length-perm : (xs ys : List A) → Perm xs ys → length xs ≡ length ys
  length-perm xs ys p = ∥∥₁_elim p (ℕ_set (length xs) (length ys)) length-permᴰ

module _ {ℓ κ} {A : Type ℓ} (P : A → Type κ) (prop : (x : A) → IsProp (P x)) where
  All-prop : (xs : List A) → IsProp (All P xs)
  All-prop [] = λ h k. refl
  All-prop (x ∷ xs) = ×_prop (prop x) (All-prop xs)

  All-permᴰ : {xs ys : List A} → Permᴰ xs ys → All P xs → All P ys
  All-permᴰ Permᴰ.nil h = h
  All-permᴰ (Permᴰ.cons e p) h = (subst P e h.0, All-permᴰ p h.1)
  All-permᴰ (Permᴰ.swap e d) h = (subst P d h.1.0, (subst P e h.0, h.1.1))
  All-permᴰ (Permᴰ.trans p q) h = All-permᴰ q (All-permᴰ p h)

  -- What holds of every element of a list holds of every element of a permuted one.
  pub All-perm : (xs ys : List A) → Perm xs ys → All P xs → All P ys
  All-perm xs ys p h = ∥∥₁_elim p (All-prop ys) (λ d. All-permᴰ d h)
