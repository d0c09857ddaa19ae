-- ===== src/Scoring/Formation/Tests.antt =====
-- Runs of backend/src/services/scoring/formationSolver.ts.
use Prim.Native.String.{String}
use fantasy_xi.Prelude.{ℕ, ◌≡◌, refl, true, some, List, [], ◌∷◌, length}
use fantasy_xi.Prelude.Int.{pos, ◌+ℤ◌}
use fantasy_xi.Prelude.Sort.{sort_by}
use fantasy_xi.Rules.{Position, gkp, def, mid, fwd}
use fantasy_xi.Scoring.Formation.{
  Player, is_valid_formation, count_positions, swap_in, try_bench, try_starters, try_formation,
  best_of, solve,
}
use fantasy_xi.Scoring.Formation.Best.{IsBest, IsSound, solve-IsBest}

abbrev player : String → Position → ℕ → ℕ → Player
player id position minutes points = record {
  id = id;
  position = position;
  minutes_played = minutes;
  gameweek_points = pos points;
  bench_position = some 0;
  is_starter = true;
}

abbrev keeper : Player
keeper = player "k" gkp 90 2

abbrev first_idle : Player
first_idle = player "m1" mid 0 0

abbrev second_idle : Player
second_idle = player "m2" mid 0 0

-- Three defenders, five midfielders of whom two did not play, and two forwards.
abbrev lineup : List Player
lineup =
    player "d1" def 90 2
    ∷ player "d2" def 90 2
    ∷ player "d3" def 90 2
    ∷ first_idle
    ∷ second_idle
    ∷ player "m3" mid 90 2
    ∷ player "m4" mid 90 2
    ∷ player "m5" mid 90 2
    ∷ player "f1" fwd 90 2
    ∷ player "f2" fwd 90 2
    ∷ []

abbrev two_defenders : List Player
two_defenders = player "b1" def 90 6 ∷ player "b2" def 90 5 ∷ []

abbrev idle_two : List Player
idle_two = first_idle ∷ second_idle ∷ []

solve-IsBest_example :
    IsBest
      (try_formation keeper lineup two_defenders idle_two)
      (solve keeper lineup two_defenders idle_two)
    × IsSound (solve keeper lineup two_defenders idle_two)
solve-IsBest_example = solve-IsBest keeper first_idle lineup two_defenders (second_idle ∷ [])

-- Both defenders would make a legal 5-3-2, but one alone comes on: the step on the way there is a
-- 4-4-2, which no attempt at 5-3-2 takes.
one_comes_on : length (solve keeper lineup two_defenders idle_two).substitutions ≡ 1
unfolding solve best_of try_formation try_starters try_bench sort_by ◌+ℤ◌
one_comes_on = refl

both_legal :
    is_valid_formation (
      count_positions (
        swap_in second_idle
          (player "b2" def 90 5)
          (swap_in first_idle (player "b1" def 90 6) lineup)))
    ≡ true
both_legal = refl
