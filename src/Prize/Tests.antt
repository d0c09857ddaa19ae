-- ===== src/Prize/Tests.antt =====
-- Runs of prizeService.ts on concrete leagues, and the theorems at such inputs.
use fantasy_xi.Prelude.{
  ◌<◌, ◌%◌, ◌↔◌, ◌⊎◌, ℕ, ◌+◌, ◌*◌, ◌≡◌, ◌≤◌, refl, List, [], ◌∷◌, none, some, arith, sum, map,
  length,
}
use fantasy_xi.Prelude.Int.{ℤ, pos, negsuc}
use fantasy_xi.Prize.{
  standard, top_five, custom, ok, throws, nan, bad_splits, bad_amounts, unknown_preset,
  parse_preset, validate_splits, allot, Distribution, calculate_prize_distribution,
  encode_soroban_payout_amounts, encode_soroban_distribution,
}
use fantasy_xi.Prize.Allot.{AreFair}
use fantasy_xi.Prize.Conservation.{calculate-conserves, calculate-AreFair, calculate-platform_fee}
use fantasy_xi.Prize.Totality.{IsPayable, calculate_custom, calculate-encodable}
use fantasy_xi.Prize.Soroban.{encode_soroban-round_trip}

-- Seven players at 10.01 pay in 70.07; the fee is 3.50 and the pool 66.57.
abbrev seven : Distribution
seven = record {
  participant_count = 7;
  entry_fee = 1001;
  gross_total = 7007;
  platform_fee = 350;
  prize_pool = 6657;
  payouts = 3994 ∷ 1997 ∷ 666 ∷ [];
  splits_bps = 6000 ∷ 3000 ∷ 1000 ∷ [];
}

seven_players : calculate_prize_distribution (pos 7) (pos 1001) standard none ≡ ok seven
unfolding calculate_prize_distribution
seven_players = refl

three_in_top_five :
    calculate_prize_distribution (pos 3) (pos 1000) top_five none
    ≡ ok (record {
      participant_count = 3;
      entry_fee = 1000;
      gross_total = 3000;
      platform_fee = 150;
      prize_pool = 2850;
      payouts = 1508 ∷ 838 ∷ 504 ∷ [];
      splits_bps = 5294 ∷ 2941 ∷ 1765 ∷ [];
    })
unfolding calculate_prize_distribution
three_in_top_five = refl

refused :
    (calculate_prize_distribution (pos 3) (pos 5) custom (some (pos 11000 ∷ negsuc 999 ∷ []))
      ≡ throws bad_splits)
    × (parse_preset "top-five" ≡ ok top_five)
    × (parse_preset "top five" ≡ throws unknown_preset)
    × (encode_soroban_payout_amounts (pos 1 ∷ pos 2 ∷ []) (pos 4) ≡ throws bad_amounts)
    × (encode_soroban_distribution (pos 10000 ∷ []) ≡ ok (10000 ∷ []))
unfolding calculate_prize_distribution parse_preset encode_soroban_payout_amounts
    encode_soroban_distribution
refused = (refl, refl, refl, refl, refl)

calculate-conserves_example :
    (seven.platform_fee + sum seven.payouts ≡ seven.gross_total) × (seven.gross_total ≡ 7 * 1001)
calculate-conserves_example =
    calculate-conserves (pos 7) (pos 1001) standard none seven seven_players

calculate-AreFair_example :
    (sum seven.splits_bps ≡ 10000)
    × AreFair (length seven.splits_bps) seven.prize_pool 10000 seven.splits_bps seven.payouts
calculate-AreFair_example =
    calculate-AreFair (pos 7) (pos 1001) standard none seven (omega arith) seven_players

calculate-platform_fee_example :
    (100 * seven.platform_fee ≤ 5 * seven.gross_total + 50)
    × (5 * seven.gross_total ≤ 100 * seven.platform_fee + 50)
    × ((5 * seven.gross_total < 100 * seven.platform_fee) ↔ (50 ≤ 5 * seven.gross_total % 100))
calculate-platform_fee_example =
    calculate-platform_fee (pos 7) (pos 1001) standard none seven seven_players

seven_encoded :
    encode_soroban_payout_amounts (pos 3994 ∷ pos 1997 ∷ pos 666 ∷ []) (pos 6657)
    ≡ ok (6000 ∷ 3000 ∷ 1000 ∷ [])
unfolding encode_soroban_payout_amounts
seven_encoded = refl

calculate-encodable_example :
    (bps : List ℕ) × (encode_soroban_payout_amounts (map pos seven.payouts) (pos seven.prize_pool)
      ≡ ok bps)
calculate-encodable_example =
    calculate-encodable (pos 7) (pos 1001) standard none seven seven_players (omega arith)

encode_soroban-round_trip_example :
    (map pos (allot 6657 10000 0 (6000 ∷ 3000 ∷ 1000 ∷ [])) ≡ pos 3994 ∷ pos 1997 ∷ pos 666 ∷ [])
    × (sum (6000 ∷ 3000 ∷ 1000 ∷ []) ≡ 10000)
encode_soroban-round_trip_example =
    encode_soroban-round_trip (pos 3994 ∷ pos 1997 ∷ pos 666 ∷ []) (pos 6657)
      (6000 ∷ 3000 ∷ 1000 ∷ []) seven_encoded

-- Two players, and all the weight on the third place.
abbrev third_only : List ℤ
third_only = pos 0 ∷ pos 0 ∷ pos 10000 ∷ []

third_only_valid : validate_splits third_only ≡ ok (0 ∷ 0 ∷ 10000 ∷ [])
unfolding validate_splits
third_only_valid = refl

calculate_custom_example :
    (IsPayable 2 (0 ∷ 0 ∷ 10000 ∷ [])
      × ((d : Distribution) × (calculate_prize_distribution
              (pos 2)
              (pos 500)
              custom
              (some third_only)
            ≡ ok d)))
    ⊎ ((¬ IsPayable 2 (0 ∷ 0 ∷ 10000 ∷ []))
        × (calculate_prize_distribution (pos 2) (pos 500) custom (some third_only) ≡ nan))
calculate_custom_example = calculate_custom 2 500 third_only (0 ∷ 0 ∷ 10000 ∷ []) third_only_valid

third_only_nan : calculate_prize_distribution (pos 2) (pos 500) custom (some third_only) ≡ nan
unfolding calculate_prize_distribution
third_only_nan = refl
