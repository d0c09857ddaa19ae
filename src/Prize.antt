-- ===== src/Prize.antt =====
-- backend/src/services/league/prizeService.ts: prize presets, basis points, payouts in cents.
-- Money is in whole cents, as the code computes it after `Math.round(entryFee * 100)`; the division
-- by 100 of the returned record is left out. Inputs that a caller may make negative are integers;
-- fractional and infinite ones are not in the model. `reduce` over `slice(0, index)` is an
-- accumulator. Below 2^53 the code's floating-point quotients have the floors written here.
pub mod Allot
pub mod Conservation
pub mod Totality
pub mod Soroban
mod Tests
use Prim.Native.String.{String}
use text.Mathlib.Text.{◌==◌ as str_eq}
use fantasy_xi.Prelude.{
  ℕ, zero, suc, ◌+◌, ◌-◌, ◌*◌, ◌/◌, min, Bool, true, false, not, ◌&&◌, ◌||◌, Option, none, some,
  List, [], ◌∷◌, map, ltb, leb, ◌==◌, if◌then◌else◌, length, take, any, sum,
}
use fantasy_xi.Prelude.Int.{ℤ, pos, negsuc, pos_part}

pub data PrizePreset : Type 0 where
  standard winner_takes_all top_five custom : PrizePreset

pub data PrizeError : Type 0 where
  unknown_preset bad_splits custom_required negative_input bad_amounts not_representable :
      PrizeError

-- What a call gives: a value, a thrown error, or numbers that are NaN.
pub data Outcome {ℓ} (A : Type ℓ) : Type ℓ where
  ok : A → Outcome A
  throws : PrizeError → Outcome A
  nan : Outcome A

infixl 5 ◌>>=◌
abbrev pub ◌>>=◌ {ℓ κ} : {A : Type ℓ} {B : Type κ} → Outcome A → (A → Outcome B) → Outcome B
ok a >>= f = f a
throws e >>= f = throws e
nan >>= f = nan

abbrev pub platform_fee_percent : ℕ
platform_fee_percent = 5

abbrev pub standard_splits_bps : List ℕ
standard_splits_bps = 6000 ∷ 3000 ∷ 1000 ∷ []

abbrev pub two_player_splits_bps : List ℕ
two_player_splits_bps = 7000 ∷ 3000 ∷ []

abbrev pub top_five_splits_bps : List ℕ
top_five_splits_bps = 4500 ∷ 2500 ∷ 1500 ∷ 1000 ∷ 500 ∷ []

pub parse_preset : String → Outcome PrizePreset
parse_preset value =
    if str_eq value "standard"
    then ok standard
    else if str_eq value "winner-takes-all"
    then ok winner_takes_all
    else if str_eq value "top-five"
    then ok top_five
    else if str_eq value "custom"
    then ok custom
    else throws unknown_preset

abbrev is_nil {ℓ} : {A : Type ℓ} → List A → Bool
is_nil [] = true
is_nil (x ∷ xs) = false

abbrev is_neg : ℤ → Bool
is_neg (pos n) = false
is_neg (negsuc n) = true

-- `value < 0 || value > 10_000`
abbrev out_of_range : ℤ → Bool
out_of_range x = is_neg x || ltb 10000 (pos_part x)

-- The validated weights, as natural numbers.
pub validate_splits : List ℤ → Outcome (List ℕ)
validate_splits splits =
    if is_nil splits || any out_of_range splits || not (sum (map pos_part splits) == 10000)
    then throws bad_splits
    else ok (map pos_part splits)

pub encode_soroban_distribution : List ℤ → Outcome (List ℕ)
unfolding validate_splits
encode_soroban_distribution splits = validate_splits splits

-- `Math.floor(total * v / weight)` to each, and what is left to the last.
pub allot : ℕ → ℕ → ℕ → List ℕ → List ℕ
allot total weight given [] = []
allot total weight given (v ∷ []) = (total - given) ∷ []
allot total weight given (v ∷ w ∷ vs) =
    (total * v / weight) ∷ allot total weight (given + total * v / weight) (w ∷ vs)

-- With two tiers or more and no weight at all, every entry is 0 / 0.
pub rescale : List ℕ → Outcome (List ℕ)
unfolding allot
rescale tiers =
    if ltb 1 (length tiers) && (sum tiers == 0) then nan else ok (allot 10000 (sum tiers) 0 tiers)

pub preset_splits : ℕ → PrizePreset → Option (List ℤ) → Outcome (List ℕ)
unfolding validate_splits rescale
preset_splits count custom none = throws custom_required
preset_splits count custom (some splits) = validate_splits splits
preset_splits count winner_takes_all _ = ok (10000 ∷ [])
preset_splits count top_five _ = rescale (take (min count 5) top_five_splits_bps)
preset_splits count standard _ =
    if count == 1
    then ok (10000 ∷ [])
    else if count == 2
    then ok two_player_splits_bps
    else ok standard_splits_bps

-- Fewer players than tiers: the tiers that have a player share the whole.
pub fit_splits : ℕ → List ℕ → Outcome (List ℕ)
unfolding rescale
fit_splits count splits =
    if ltb 0 count && ltb count (length splits) then rescale (take count splits) else ok splits

pub record Distribution : Type 0 where
  pub participant_count : ℕ
  pub entry_fee : ℕ
  pub gross_total : ℕ
  pub platform_fee : ℕ
  pub prize_pool : ℕ
  pub payouts : List ℕ
  pub splits_bps : List ℕ

-- `Math.round(grossCents * 5 / 100)`
pub platform_fee_cents : ℕ → ℕ
platform_fee_cents gross = (gross * platform_fee_percent + 50) / 100

pub distribute : ℕ → ℕ → List ℕ → Distribution
unfolding allot platform_fee_cents
distribute count fee splits =
    let gross = count * fee in
    let pool = gross - platform_fee_cents gross in
    record {
      participant_count = count;
      entry_fee = fee;
      gross_total = gross;
      platform_fee = platform_fee_cents gross;
      prize_pool = pool;
      payouts = allot pool 10000 0 splits;
      splits_bps = splits;
    }

pub calculate_prize_distribution : ℤ → ℤ → PrizePreset → Option (List ℤ) → Outcome Distribution
unfolding preset_splits fit_splits distribute
calculate_prize_distribution participants fee preset custom_splits =
    if is_neg participants || is_neg fee then throws negative_input else do
      splits ← preset_splits (pos_part participants) preset custom_splits
      fitted ← fit_splits (pos_part participants) splits
      ok (distribute (pos_part participants) (pos_part fee) fitted)

-- `Math.ceil(amount * 10_000 / poolCents)`
abbrev pub basis_points : ℕ → ℕ → ℕ
basis_points pool amount = (amount * 10000 + (pool - 1)) / pool

-- The weights of all payouts but the last round up, and must give the amount back; the last takes
-- the basis points that remain.
pub encode_amounts : ℕ → ℕ → List ℕ → Outcome (List ℕ)
encode_amounts pool remaining [] = ok []
encode_amounts pool remaining (amount ∷ []) = ok (remaining ∷ [])
encode_amounts pool remaining (amount ∷ next ∷ amounts) =
    let bps = basis_points pool amount in
    let rest = encode_amounts pool (remaining - bps) (next ∷ amounts) in
    if not (pool * bps / 10000 == amount) || ltb remaining bps
    then throws not_representable
    else do encoded ← rest; ok (bps ∷ encoded)

abbrev pub are_bad_amounts : List ℤ → ℤ → Bool
are_bad_amounts payouts pool =
    leb (pos_part pool) 0
    || is_nil payouts
    || any is_neg payouts
    || not (sum (map pos_part payouts) == pos_part pool)

pub encode_soroban_payout_amounts : List ℤ → ℤ → Outcome (List ℕ)
unfolding encode_amounts validate_splits
encode_soroban_payout_amounts payouts pool =
    if are_bad_amounts payouts pool then throws bad_amounts else do
      encoded ← encode_amounts (pos_part pool) 10000 (map pos_part payouts)
      validate_splits (map pos encoded)
