-- ===== src/Squad/Tests.antt =====
-- Runs of the validator, and the theorem at a legal squad.
use fantasy_xi.Prelude.{ℕ, ◌≡◌, refl, Bool, true, false, List, [], ◌∷◌}
use fantasy_xi.Prelude.Dict.{get, set}
use fantasy_xi.Rules.{Position, gkp, def, mid, fwd, starting_budget}
use fantasy_xi.Squad.{
  SquadPlayerSelection, PlayerForValidation, valid, invalid, wrong_total, duplicate_players,
  not_found, over_budget, locked, still_open, player_map_from, roster_errors, resolve, squad_errors,
  summary, judge, validate_squad, validate_deadline,
}
use fantasy_xi.Squad.Correct.{IsDecided, validate_squad-IsDecided}

-- All that a run of the validator computes with.
validator : Unit {0}
unfolding validate_squad judge squad_errors summary resolve roster_errors player_map_from get set
validator = tt

abbrev pick : ℕ → Bool → SquadPlayerSelection
pick id start = record {
  player_id = id;
  is_starter = start;
  is_captain = false;
  is_vice_captain = false;
  position_order = id;
}

abbrev player : ℕ → ℕ → Position → ℕ → PlayerForValidation
player id team pos price = record { id = id; team_id = team; position = pos; price = price }

abbrev pool : List PlayerForValidation
pool =
    player 1 1 gkp 50
    ∷ player 2 2 gkp 40
    ∷ player 3 1 def 60
    ∷ player 4 2 def 55
    ∷ player 5 3 def 45
    ∷ player 6 4 def 45
    ∷ player 7 5 def 40
    ∷ player 8 1 mid 125
    ∷ player 9 3 mid 90
    ∷ player 10 4 mid 75
    ∷ player 11 5 mid 55
    ∷ player 12 6 mid 45
    ∷ player 13 6 fwd 110
    ∷ player 14 3 fwd 75
    ∷ player 15 6 fwd 45
    ∷ []

abbrev bench_four : List SquadPlayerSelection
bench_four = pick 2 false ∷ pick 7 false ∷ pick 12 false ∷ pick 15 false ∷ []

abbrev captain : SquadPlayerSelection
captain = record {
  player_id = 8;
  is_starter = true;
  is_captain = true;
  is_vice_captain = false;
  position_order = 8;
}

abbrev vice : SquadPlayerSelection
vice = record {
  player_id = 13;
  is_starter = true;
  is_captain = false;
  is_vice_captain = true;
  position_order = 10;
}

abbrev squad : List SquadPlayerSelection
squad =
    pick 1 true
    ∷ pick 3 true
    ∷ pick 4 true
    ∷ pick 5 true
    ∷ pick 6 true
    ∷ captain
    ∷ pick 9 true
    ∷ pick 10 true
    ∷ pick 11 true
    ∷ vice
    ∷ pick 14 true
    ∷ bench_four

accepted :
    validate_squad squad pool starting_budget
    ≡ valid (record {
      total_cost = 955;
      formation = (4, 4, 2);
      starter_ids = 1 ∷ 3 ∷ 4 ∷ 5 ∷ 6 ∷ 8 ∷ 9 ∷ 10 ∷ 11 ∷ 13 ∷ 14 ∷ [];
      bench_ids = 2 ∷ 7 ∷ 12 ∷ 15 ∷ [];
      captain_id = 8;
      vice_captain_id = 13;
    })
unfolding validator
accepted = refl

refused :
    (validate_squad squad pool 900 ≡ invalid (over_budget 955 900 ∷ []))
    × (validate_squad (pick 1 true ∷ pick 1 true ∷ pick 99 false ∷ []) pool 1000
        ≡ invalid (wrong_total 3 ∷ duplicate_players ∷ not_found 99 ∷ []))
    × (validate_squad squad (player 1 6 gkp 50 ∷ []) 1000
        ≡ invalid (
            not_found 3
            ∷ not_found 4
            ∷ not_found 5
            ∷ not_found 6
            ∷ not_found 8
            ∷ not_found 9
            ∷ not_found 10
            ∷ not_found 11
            ∷ not_found 13
            ∷ not_found 14
            ∷ not_found 2
            ∷ not_found 7
            ∷ not_found 12
            ∷ not_found 15
            ∷ []))
unfolding validator
refused = (refl, refl, refl)

deadline : (validate_deadline 100 100 ≡ locked 100) × (validate_deadline 100 99 ≡ still_open)
unfolding validate_deadline
deadline = (refl, refl)

validate_squad-IsDecided_example :
    IsDecided squad pool starting_budget (validate_squad squad pool starting_budget)
validate_squad-IsDecided_example = validate_squad-IsDecided squad pool starting_budget
