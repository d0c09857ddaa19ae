-- ===== src/Prize/Allot.antt =====
-- The allotment rule of prizeService.ts: floors to all but the last, who takes the remainder.
use native.Mathlib.Nat.{mul-div_left, mul-le-mul_left, div-le_of_le-mul, mul_comm, mul-add}
use fantasy_xi.Prelude.{ℕ, ◌+◌, ◌*◌, ◌/◌, ◌≤◌, ◌<◌, ◌≡◌, refl, List, [], ◌∷◌, arith, sum, length}
use fantasy_xi.Prelude.Division.{div-add-le, div-add-lt}
use fantasy_xi.Prize.{allot}

-- A share of part of the weight is at most the whole.
share-le : (total used weight : ℕ) → 0 < weight → used ≤ weight → total * used / weight ≤ total
share-le total used weight h le =
    div-le_of_le-mul weight (omega (arith, mul-le-mul_left total le, mul_comm total weight))

share-add-le :
    (total used v weight : ℕ)
    → 0 < weight
    → total * used / weight + total * v / weight ≤ total * (used + v) / weight
share-add-le total used v weight h =
    rw (mul-add total used v) (div-add-le (total * used) (total * v) weight h)

share-add-lt :
    (total used v weight : ℕ)
    → 0 < weight
    → total * (used + v) / weight ≤ total * used / weight + total * v / weight + 1
share-add-lt total used v weight h =
    rw (mul-add total used v) (div-add-lt (total * used) (total * v) weight h)

share_whole : (total weight : ℕ) → 0 < weight → total * weight / weight ≡ total
share_whole total weight h = mul-div_left total h

allot-sum_from :
    (total weight given used v : ℕ) (vs : List ℕ)
    → 0 < weight
    → used + sum (v ∷ vs) ≤ weight
    → given ≤ total * used / weight
    → given + sum (allot total weight given (v ∷ vs)) ≡ total
unfolding allot
allot-sum_from total weight given used v [] h le inv =
    omega (arith, share-le total used weight h (omega arith))
allot-sum_from total weight given used v (w ∷ vs) h le inv = omega (
  arith,
  share-add-le total used v weight h,
  allot-sum_from total weight (given + total * v / weight) (used + v) w vs h (omega arith)
      (omega (arith, share-add-le total used v weight h)),
)

-- Nothing is lost: the parts make up the whole.
pub sum-allot :
    (total weight : ℕ) (vs : List ℕ)
    → sum vs ≡ weight
    → 0 < weight
    → sum (allot total weight 0 vs) ≡ total
sum-allot total weight [] e h = absurd (omega arith)
sum-allot total weight (v ∷ vs) e h =
    omega (arith, allot-sum_from total weight 0 0 v vs h (omega arith) (omega arith))

-- Each part is its rounded share, and at most `n` more.
abbrev pub AreFair : ℕ → ℕ → ℕ → List ℕ → List ℕ → Type 0
AreFair n total weight [] [] = Unit
AreFair n total weight (v ∷ vs) (p ∷ ps) =
    (total * v / weight ≤ p) × (p ≤ total * v / weight + n) × AreFair n total weight vs ps
AreFair n total weight _ _ = ⊥

allot-AreFair_from :
    (n total weight given used v : ℕ) (vs : List ℕ)
    → 0 < weight
    → used + sum (v ∷ vs) ≡ weight
    → given ≤ total * used / weight
    → total * used / weight + length vs + 1 ≤ given + n
    → AreFair n total weight (v ∷ vs) (allot total weight given (v ∷ vs))
unfolding allot
allot-AreFair_from n total weight given used v [] h e inv near =
    let all : used + v ≡ weight = omega arith in
    let whole : total * (used + v) / weight ≡ total = rw all (share_whole total weight h) in
    (
      omega (arith, share-add-le total used v weight h),
      omega (arith, share-add-lt total used v weight h),
      tt,
    )
allot-AreFair_from n total weight given used v (w ∷ vs) h e inv near = (
  omega arith,
  omega arith,
  allot-AreFair_from n total weight (given + total * v / weight) (used + v) w vs h (omega arith)
      (omega (arith, share-add-le total used v weight h))
      (omega (arith, share-add-lt total used v weight h)),
)

pub allot-AreFair :
    (total weight : ℕ) (vs : List ℕ)
    → sum vs ≡ weight
    → 0 < weight
    → AreFair (length vs) total weight vs (allot total weight 0 vs)
allot-AreFair total weight [] e h = absurd (omega arith)
allot-AreFair total weight (v ∷ vs) e h =
    allot-AreFair_from (length (v ∷ vs)) total weight 0 0 v vs h (omega arith) (omega arith)
      (omega (arith, no_share))
  where
    no_share : total * 0 / weight ≤ 0
    no_share = div-le_of_le-mul weight (omega arith)

pub length-allot :
    (total weight given : ℕ) (vs : List ℕ) → length (allot total weight given vs) ≡ length vs
unfolding allot
length-allot total weight given [] = refl
length-allot total weight given (v ∷ []) = refl
length-allot total weight given (v ∷ w ∷ vs) =
    omega (arith, length-allot total weight (given + total * v / weight) (w ∷ vs))
