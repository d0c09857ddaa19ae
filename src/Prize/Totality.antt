-- ===== src/Prize/Totality.antt =====
-- When prizeService.ts computes a distribution, when it yields NaN, and what can be encoded.
use fantasy_xi.Prelude.{
  ℕ, zero, suc, ◌≤◌, ◌<◌, ◌≡◌, refl, List, [], ◌∷◌, arith, sum, map, any, ap, length, take, Option,
  some, false, ◌⊎◌, inl, inr, ◌∙◌, sym, ◌*◌,
}
use native.Mathlib.Decide.{dec_lt}
use fantasy_xi.Prelude.Int.{ℤ, pos, pos_part}
use fantasy_xi.Prize.{
  PrizePreset, custom, ok, nan, validate_splits, allot, rescale, preset_splits, fit_splits,
  Distribution, distribute, calculate_prize_distribution, out_of_range, is_neg, are_bad_amounts,
  encode_soroban_payout_amounts,
}
use fantasy_xi.Prize.Allot.{sum-allot}
use fantasy_xi.Prize.Conservation.{AreSplits, calculate-inverts}
use fantasy_xi.Prize.Soroban.{encode_amounts-allot, sum-encode_amounts, pos_part-pos, allot-cons}

rescale_total : (tiers : List ℕ) → 0 < sum tiers → (bps : List ℕ) × (rescale tiers ≡ ok bps)
unfolding rescale
rescale_total tiers h = (allot 10000 (sum tiers) 0 tiers, ground arith)

length-take_of_le : (n : ℕ) (xs : List ℕ) → n ≤ length xs → length (take n xs) ≡ n
length-take_of_le zero xs h = refl
length-take_of_le (suc n) [] h = absurd (omega arith)
length-take_of_le (suc n) (x ∷ xs) h = omega (arith, length-take_of_le n xs)

-- Enough players for all tiers, one player, or some weight on the tiers that have a player.
abbrev pub IsPayable : ℕ → List ℕ → Type 0
IsPayable count bps = (length bps ≤ count) ⊎ (count ≤ 1) ⊎ (0 < sum (take count bps))

rescale_one : (v : ℕ) → rescale (v ∷ []) ≡ ok (10000 ∷ [])
unfolding rescale allot
rescale_one v = refl

take_one : (xs : List ℕ) → 1 < length xs → (v : ℕ) × (take 1 xs ≡ v ∷ [])
take_one [] h = absurd (omega arith)
take_one (x ∷ xs) h = (x, refl)

fit_splits_wide : (count : ℕ) (bps : List ℕ) → length bps ≤ count → fit_splits count bps ≡ ok bps
unfolding fit_splits
fit_splits_wide count bps h = ground arith

fit_splits_few :
    (count : ℕ) (bps : List ℕ)
    → 0 < count
    → count < length bps
    → fit_splits count bps ≡ rescale (take count bps)
unfolding fit_splits
fit_splits_few count bps h k = ground arith

fit_splits_total :
    (count : ℕ) (splits : List ℕ)
    → IsPayable count splits
    → (bps : List ℕ) × (fit_splits count splits ≡ ok bps)
fit_splits_total zero splits h = (splits, unfold fit_splits in refl)
fit_splits_total (suc count) splits h = elim (dec_lt (suc count) (length splits)) [
  | no wide ↦ (splits, fit_splits_wide (suc count) splits (omega arith))
  | yes few ↦ elim h [
    | inl wide ↦ absurd (omega arith)
    | inr (inl one) ↦
        let single : count ≡ 0 = omega arith in
        let (v, first) = take_one splits (omega arith) in
        (
          10000 ∷ [],
          fit_splits_few (suc count) splits (omega arith) few ∙ rw (single, first) (rescale_one v),
        )
    | inr (inr weight) ↦
        let (bps, e) = rescale_total (take (suc count) splits) weight in
        (bps, fit_splits_few (suc count) splits (omega arith) few ∙ e)
  ]
]

rescale_nan : (tiers : List ℕ) → 1 < length tiers → sum tiers ≡ 0 → rescale tiers ≡ nan
unfolding rescale
rescale_nan tiers h k = ground arith

fit_splits_nan :
    (count : ℕ) (splits : List ℕ) → ¬ IsPayable count splits → fit_splits count splits ≡ nan
fit_splits_nan count splits h =
    let few : count < length splits = ground arith in
    let many : 1 < count = ground arith in
    let weightless : sum (take count splits) ≡ 0 = ground arith in
    fit_splits_few count splits (omega arith) few
    ∙ rescale_nan (take count splits) (omega (arith, length-take_of_le count splits)) weightless

IsPayable-cases : (count : ℕ) (bps : List ℕ) → IsPayable count bps ⊎ (¬ IsPayable count bps)
IsPayable-cases count bps = elim (dec_lt count (length bps)) [
  | no wide ↦ inl (inl (omega arith))
  | yes few ↦ elim (dec_lt 1 count) [
    | no one ↦ inl (inr (inl (omega arith)))
    | yes many ↦ elim (dec_lt 0 (sum (take count bps))) [
      | yes weight ↦ inl (inr (inr weight))
      | no weightless ↦ inr (λ h. omega arith)
    ]
  ]
]

-- A custom distribution with valid weights is computed if there are enough players for all tiers,
-- at most one player, or some weight on the tiers that have a player; in every other case, which is
-- two players or more on tiers of weight 0, all its numbers are NaN and nothing is thrown.
pub calculate_custom :
    (count fee : ℕ) (splits : List ℤ) (bps : List ℕ)
    → validate_splits splits ≡ ok bps
    → (IsPayable count bps
        × ((d : Distribution) × (calculate_prize_distribution
                (pos count)
                (pos fee)
                custom
                (some splits)
              ≡ ok d)))
      ⊎ ((¬ IsPayable count bps)
          × (calculate_prize_distribution (pos count) (pos fee) custom (some splits) ≡ nan))
unfolding calculate_prize_distribution preset_splits
calculate_custom count fee splits bps valid = elim (IsPayable-cases count bps) [
  | inl payable ↦
      let (fitted, e) = fit_splits_total count bps payable in
      inl (payable, (distribute count fee fitted, rw valid (rw e refl)))
  | inr unpayable ↦ inr (unpayable, rw valid (rw (fit_splits_nan count bps unpayable) refl))
]

any-out_of_range : (xs : List ℕ) → sum xs ≤ 10000 → any out_of_range (map pos xs) ≡ false
any-out_of_range [] h = refl
any-out_of_range (x ∷ xs) h = ground (arith, any-out_of_range xs)

any-is_neg-pos : (xs : List ℕ) → any is_neg (map pos xs) ≡ false
any-is_neg-pos [] = refl
any-is_neg-pos (x ∷ xs) = any-is_neg-pos xs

validate_splits_total : (xs : List ℕ) → sum xs ≡ 10000 → validate_splits (map pos xs) ≡ ok xs
unfolding validate_splits
validate_splits_total [] h = absurd (omega arith)
validate_splits_total (x ∷ xs) h = ground (arith, any-out_of_range (x ∷ xs), pos_part-pos (x ∷ xs))

good_amounts_of_allot :
    (pool v : ℕ) (vs : List ℕ)
    → sum (v ∷ vs) ≡ 10000
    → 0 < pool
    → are_bad_amounts (map pos (allot pool 10000 0 (v ∷ vs))) (pos pool) ≡ false
good_amounts_of_allot pool v vs h k =
    let (c, cs, same) = allot-cons pool 10000 0 v vs in
    let whole : sum (c ∷ cs) ≡ pool =
      ap sum (sym same) ∙ sum-allot pool 10000 (v ∷ vs) h (omega arith) in
    rw same (ground (arith, any-is_neg-pos (c ∷ cs), pos_part-pos (c ∷ cs)))

encode_soroban_total :
    (pool v : ℕ) (vs : List ℕ)
    → sum (v ∷ vs) ≡ 10000
    → 0 < pool
    → (bps : List ℕ) × (encode_soroban_payout_amounts
          (map pos (allot pool 10000 0 (v ∷ vs)))
          (pos pool)
        ≡ ok bps)
unfolding encode_soroban_payout_amounts
encode_soroban_total pool v vs h k =
    let (bs, e) = encode_amounts-allot pool 10000 0 v vs k (omega arith) in
    let (c, cs, same) = allot-cons pool 10000 0 v vs in
    let full : sum bs ≡ 10000 = sum-encode_amounts pool 10000 c cs bs (rw same at e) in
    (
      bs,
      rw (good_amounts_of_allot pool v vs h k, pos_part-pos (allot pool 10000 0 (v ∷ vs)), e)
          (validate_splits_total bs full),
    )

-- Whatever the preset, the payouts of a distribution with a positive prize pool can be handed to the
-- contract: encoding them never fails.
pub calculate-encodable :
    (participants fee : ℤ) (preset : PrizePreset) (customs : Option (List ℤ)) (d : Distribution)
    → calculate_prize_distribution participants fee preset customs ≡ ok d
    → 0 < d.prize_pool
    → (bps : List ℕ) × (encode_soroban_payout_amounts (map pos d.payouts) (pos d.prize_pool)
        ≡ ok bps)
unfolding distribute
calculate-encodable participants fee preset customs d e some_pool =
    let (splits, h, same) = calculate-inverts participants fee preset customs d e in
    rw same (go splits h (rw same at some_pool))
  where
    go :
        (splits : List ℕ)
        → AreSplits (pos_part participants) splits
        → 0 < (distribute (pos_part participants) (pos_part fee) splits).prize_pool
        → (bps : List ℕ) × (encode_soroban_payout_amounts
              (map pos (distribute (pos_part participants) (pos_part fee) splits).payouts)
              (pos (distribute (pos_part participants) (pos_part fee) splits).prize_pool)
            ≡ ok bps)
    go [] (inl whole) k = absurd (omega arith)
    go [] (inr (_, nobody)) k = absurd (omega (arith, ap (λ (n : ℕ). n * pos_part fee) nobody))
    go (v ∷ vs) (inr (absent, _)) k = cc
    go (v ∷ vs) (inl whole) k = encode_soroban_total _ v vs whole k
