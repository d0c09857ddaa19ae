-- ===== src/Scoring/Lineup/Tests.antt =====
-- Scores of a small lineup under the chips, and the theorems at it.
use fantasy_xi.Prelude.{ℕ, ◌≡◌, refl, Bool, true, false, none, some, List, [], ◌∷◌}
use fantasy_xi.Prelude.Dict.{Dict, get}
use fantasy_xi.Prelude.Sort.{sort_by}
use fantasy_xi.Prelude.Int.{pos, negsuc, ◌+ℤ◌, ◌-ℤ◌, ◌*ℤ◌}
use fantasy_xi.Rules.{Position, gkp, mid, fwd, wildcard, bench_boost, triple_captain}
use fantasy_xi.Scoring.AutoSub.{
  resolve_auto_substitutions, resolve_from, resolve_one, is_eligible, count_formation,
}
use fantasy_xi.Scoring.Lineup.{
  LineupPlayer, GameweekStats, detail_of, starter_details, bench_details, settle, apply_captain,
  captain_bonus, score_of, calculate_lineup_score, resolve_head_to_head,
}
use fantasy_xi.Scoring.Lineup.Points.{IsSumOf, eleven, calculate_lineup_score-IsSumOf}
use fantasy_xi.Scoring.Lineup.Captain.{calculate_lineup_score-captain}

lineup_score : Unit {0}
unfolding calculate_lineup_score score_of captain_bonus apply_captain settle starter_details
    bench_details detail_of sort_by get resolve_auto_substitutions resolve_from resolve_one
    is_eligible count_formation ◌+ℤ◌ ◌-ℤ◌ ◌*ℤ◌
lineup_score = tt

abbrev player : ℕ → Position → Bool → Bool → Bool → LineupPlayer
player id position start captain vice = record {
  player_id = id;
  position = position;
  is_starter = start;
  is_captain = captain;
  is_vice_captain = vice;
  position_order = id;
}

-- The captain, player 2, did not play; the vice-captain, player 1, did.
abbrev lineup : List LineupPlayer
lineup =
    player 3 mid false false false
    ∷ player 1 gkp true false true
    ∷ player 2 fwd true true false
    ∷ []

abbrev stats : Dict ℕ GameweekStats
stats =
    (1, record { minutes = 90; total_points = pos 6 })
    ∷ (3, record { minutes = 30; total_points = pos 2 })
    ∷ []

-- No chip: the vice-captain counts twice.
vice_counts_twice :
    ((calculate_lineup_score lineup stats none 4).total_points ≡ pos 8)
    × ((calculate_lineup_score lineup stats (some triple_captain) 4).total_points ≡ pos 14)
    × ((calculate_lineup_score lineup stats (some bench_boost) 4).total_points ≡ pos 10)
    × ((calculate_lineup_score lineup stats (some wildcard) 4).total_points ≡ pos 12)
    × ((calculate_lineup_score lineup [] (some bench_boost) 4).total_points ≡ negsuc 3)
unfolding lineup_score
vice_counts_twice = (refl, refl, refl, refl, refl)

matches :
    (resolve_head_to_head (pos 3) (negsuc 0) ≡ (3, 0))
    × (resolve_head_to_head (pos 3) (pos 4) ≡ (0, 3))
    × (resolve_head_to_head (pos 3) (pos 3) ≡ (1, 1))
unfolding resolve_head_to_head
matches = (refl, refl, refl)

calculate_lineup_score-IsSumOf_example :
    IsSumOf
      (eleven lineup stats (some bench_boost))
      (bench_details stats lineup)
      (some bench_boost)
      4
      (calculate_lineup_score lineup stats (some bench_boost) 4)
calculate_lineup_score-IsSumOf_example =
    calculate_lineup_score-IsSumOf lineup stats (some bench_boost) 4

calculate_lineup_score-captain_example :
    (calculate_lineup_score lineup stats (some triple_captain) 4).captain_points ≡ pos 6 *ℤ pos 2
unfolding lineup_score
calculate_lineup_score-captain_example =
    calculate_lineup_score-captain lineup stats (some triple_captain) 4
      (detail_of stats (player 1 gkp true false true)) refl
