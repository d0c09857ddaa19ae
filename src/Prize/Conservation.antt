-- ===== src/Prize/Conservation.antt =====
-- What a computed prize distribution guarantees: every cent of the entry fees is accounted for.
use fantasy_xi.Prelude.{
  ◌%◌, ◌↔◌, ℕ, zero, suc, ◌+◌, ◌-◌, ◌*◌, ◌≤◌, ◌<◌, ◌≡◌, refl, List, [], ◌∷◌, arith, sum, length,
  Option, none, some, take, min, ◌⊎◌, inl, inr,
}
use fantasy_xi.Prelude.Int.{ℤ, pos, negsuc, pos_part}
use fantasy_xi.Prize.{
  PrizePreset, standard, winner_takes_all, top_five, custom, Outcome, ok, throws, nan, ◌>>=◌,
  validate_splits, allot, rescale, preset_splits, fit_splits, Distribution, platform_fee_cents,
  distribute, calculate_prize_distribution,
}
use fantasy_xi.Prize.Allot.{sum-allot, AreFair, allot-AreFair}

pub >>=-eq-ok {ℓ κ} :
    {X : Type ℓ} {Y : Type κ} (first : Outcome X) (next : X → Outcome Y) {y : Y}
    → (first >>= next) ≡ ok y
    → (x : X) × (first ≡ ok x) × (next x ≡ ok y)
>>=-eq-ok nan next h = cc
>>=-eq-ok (throws err) next h = cc
>>=-eq-ok (ok x) next h = (x, refl, h)

-- The weights of the tiers, or no tier where nobody plays.
abbrev pub AreSplits : ℕ → List ℕ → Type 0
AreSplits count bps = (sum bps ≡ 10000) ⊎ ((bps ≡ []) × (count ≡ 0))

pub sum-validate_splits :
    (xs : List ℤ) (bps : List ℕ) → validate_splits xs ≡ ok bps → sum bps ≡ 10000
unfolding validate_splits
sum-validate_splits xs bps e = ground arith

sum-rescale : (vs bps : List ℕ) → 0 < sum vs → rescale vs ≡ ok bps → sum bps ≡ 10000
unfolding rescale
sum-rescale vs bps h e = ground (arith, sum-allot 10000 (sum vs) vs refl h)

sum-rescale_many : (v w : ℕ) (vs bps : List ℕ) → rescale (v ∷ w ∷ vs) ≡ ok bps → sum bps ≡ 10000
unfolding rescale
sum-rescale_many v w vs bps e = ground (arith, sum-allot 10000 (sum (v ∷ w ∷ vs)) (v ∷ w ∷ vs) refl)

-- With one tier the weight does not matter.
pub sum-rescale_cons : (v : ℕ) (vs bps : List ℕ) → rescale (v ∷ vs) ≡ ok bps → sum bps ≡ 10000
unfolding rescale allot
sum-rescale_cons v [] bps e = ground arith
sum-rescale_cons v (w ∷ vs) bps e = sum-rescale_many v w vs bps e

preset_splits-AreSplits :
    (count : ℕ) (p : PrizePreset) (xs : Option (List ℤ)) (bps : List ℕ)
    → preset_splits count p xs ≡ ok bps
    → AreSplits count bps
unfolding preset_splits
preset_splits-AreSplits count standard xs bps e = ground arith
preset_splits-AreSplits count winner_takes_all xs bps e = ground arith
preset_splits-AreSplits count custom none bps e = cc
preset_splits-AreSplits count custom (some xs) bps e = inl (sum-validate_splits xs bps e)
preset_splits-AreSplits zero top_five xs bps e = ground arith
preset_splits-AreSplits (suc count) top_five xs bps e =
    let some_tier : min (suc count) 5 ≡ suc (min count 4) = omega arith in
    inl (
      sum-rescale_cons 4500 (take (min count 4) (2500 ∷ 1500 ∷ 1000 ∷ 500 ∷ [])) bps
        (rw (some_tier, preset_splits) at e))

fit_splits-AreSplits :
    (count : ℕ) (bps fitted : List ℕ)
    → AreSplits count bps
    → fit_splits count bps ≡ ok fitted
    → AreSplits count fitted
unfolding fit_splits
fit_splits-AreSplits zero bps fitted h e = ground arith
fit_splits-AreSplits (suc count) [] fitted h e = ground arith
fit_splits-AreSplits (suc count) (b ∷ bps) fitted h e =
    ground (arith, sum-rescale_cons b (take count bps) fitted)

platform_fee_cents-le : (gross : ℕ) → platform_fee_cents gross ≤ gross
unfolding platform_fee_cents
platform_fee_cents-le gross = omega arith

distribute-payouts :
    (count fee : ℕ) (bps : List ℕ)
    → AreSplits count bps
    → (distribute count fee bps).platform_fee + sum (distribute count fee bps).payouts
      ≡ (distribute count fee bps).gross_total
unfolding distribute allot
distribute-payouts count fee bps (inl whole) = omega (
  arith,
  platform_fee_cents-le (count * fee),
  sum-allot (count * fee - platform_fee_cents (count * fee)) 10000 bps whole (omega arith),
)
distribute-payouts count fee bps (inr (empty, nobody)) =
    rw (empty, nobody) (omega (arith, platform_fee_cents-le (0 * fee)))

-- The splits that a computed distribution used.
pub calculate-inverts :
    (participants fee : ℤ) (preset : PrizePreset) (customs : Option (List ℤ)) (d : Distribution)
    → calculate_prize_distribution participants fee preset customs ≡ ok d
    → (bps : List ℕ) × AreSplits (pos_part participants) bps
      × (d ≡ distribute (pos_part participants) (pos_part fee) bps)
unfolding calculate_prize_distribution
calculate-inverts (negsuc n) fee preset customs d e = cc
calculate-inverts (pos count) (negsuc n) preset customs d e = cc
calculate-inverts (pos count) (pos fee) preset customs d e =
    let (splits, chosen, e') = >>=-eq-ok (preset_splits count preset customs) _ e in
    let (fitted, fits, same) = >>=-eq-ok (fit_splits count splits) _ e' in
    (
      fitted,
      fit_splits-AreSplits count splits fitted
          (preset_splits-AreSplits count preset customs splits chosen) fits,
      cc,
    )

-- Zero lost cents: whatever the preset, a distribution that is returned pays out the platform fee
-- and the payouts, and these add up to the entry fees of all participants.
pub calculate-conserves :
    (participants fee : ℤ) (preset : PrizePreset) (customs : Option (List ℤ)) (d : Distribution)
    → calculate_prize_distribution participants fee preset customs ≡ ok d
    → (d.platform_fee + sum d.payouts ≡ d.gross_total)
      × (d.gross_total ≡ pos_part participants * pos_part fee)
unfolding distribute
calculate-conserves participants fee preset customs d e =
    let (bps, whole, same) = calculate-inverts participants fee preset customs d e in
    rw same (distribute-payouts (pos_part participants) (pos_part fee) bps whole, refl)

-- Each payout is the rounded-down share of the prize pool that its basis points give, and above it
-- by as many cents as there are tiers at most; the basis points add up to 10000 if anyone plays.
pub calculate-AreFair :
    (participants fee : ℤ) (preset : PrizePreset) (customs : Option (List ℤ)) (d : Distribution)
    → 0 < pos_part participants
    → calculate_prize_distribution participants fee preset customs ≡ ok d
    → (sum d.splits_bps ≡ 10000)
      × AreFair (length d.splits_bps) d.prize_pool 10000 d.splits_bps d.payouts
unfolding distribute
calculate-AreFair participants fee preset customs d some_player e =
    let (bps, splits, same) = calculate-inverts participants fee preset customs d e in
    let whole : sum bps ≡ 10000 = omega arith in
    rw same (whole, allot-AreFair _ 10000 bps whole (omega arith))

-- The platform fee is 5% of the entry fees, to the nearest cent: it is rounded up, and so above 5%,
-- exactly if the exact fee is half a cent or more above a whole number of cents.
pub calculate-platform_fee :
    (participants fee : ℤ) (preset : PrizePreset) (customs : Option (List ℤ)) (d : Distribution)
    → calculate_prize_distribution participants fee preset customs ≡ ok d
    → (100 * d.platform_fee ≤ 5 * d.gross_total + 50)
      × (5 * d.gross_total ≤ 100 * d.platform_fee + 50)
      × ((5 * d.gross_total < 100 * d.platform_fee) ↔ (50 ≤ 5 * d.gross_total % 100))
unfolding distribute platform_fee_cents
calculate-platform_fee participants fee preset customs d e =
    let (bps, splits, same) = calculate-inverts participants fee preset customs d e in
    rw same (ground arith)
