-- ===== src/Squad.antt =====
-- backend/src/services/squad/squadValidator.ts: the domain rules of a 15-player squad.
-- Prices and budgets are in tenths of a million, the unit in which FPL quotes them, so the code's
-- rounding of the total to one decimal changes nothing. Error texts are constructors that carry the
-- numbers of the message. A read of a missing map entry, `get(id)!`, is a type error.
pub mod Legal
mod Lookup
mod Teams
mod Checks
mod Correct
mod Tests
use fantasy_xi.Prelude.{
  ℕ, suc, ◌+◌, Bool, true, false, not, ◌&&◌, Option, none, some, List, [], ◌∷◌, ◌++◌, map, ltb, leb,
  ◌==◌, if◌then◌else◌, length, filter, sum, any,
}
use fantasy_xi.Prelude.Dict.{Dict, get, set, has, nat_eq}
use fantasy_xi.Rules.{
  Position, gkp, def, mid, fwd, same_position, total_players, starters, bench, position_counts,
  min_starters, max_per_team,
}

pub record SquadPlayerSelection : Type 0 where
  pub player_id : ℕ
  pub is_starter : Bool
  pub is_captain : Bool
  pub is_vice_captain : Bool
  pub position_order : ℕ

pub record PlayerForValidation : Type 0 where
  pub id : ℕ
  pub team_id : ℕ
  pub position : Position
  pub price : ℕ

pub data SquadError : Type 0 where
  wrong_total : ℕ → SquadError
  duplicate_players : SquadError
  not_found : ℕ → SquadError
  wrong_starters wrong_bench : ℕ → SquadError
  captain_count vice_captain_count same_captain captain_on_bench vice_captain_on_bench : SquadError
  wrong_position_count : Position → ℕ → SquadError
  over_budget : ℕ → ℕ → SquadError
  team_quota : ℕ → ℕ → SquadError
  wrong_formation : Position → ℕ → SquadError

pub record ValidatedSquad : Type 0 where
  pub total_cost : ℕ
  pub formation : ℕ × ℕ × ℕ
  pub starter_ids : List ℕ
  pub bench_ids : List ℕ
  pub captain_id : ℕ
  pub vice_captain_id : ℕ

pub data Validation : Type 0 where
  valid : ValidatedSquad → Validation
  invalid : List SquadError → Validation
  type_error : Validation

pub data DeadlineCheck : Type 0 where
  still_open : DeadlineCheck
  locked : ℕ → DeadlineCheck

pub validate_deadline : ℕ → ℕ → DeadlineCheck
validate_deadline deadline now = if leb deadline now then locked deadline else still_open

abbrev pub unless : Bool → SquadError → List SquadError
unless true e = []
unless false e = e ∷ []

abbrev pub ids : List SquadPlayerSelection → List ℕ
ids = map (λ s. s.player_id)

abbrev pub includes : List ℕ → ℕ → Bool
includes xs a = any (λ x. x == a) xs

-- `new Set(playerIds)`, its members in order of insertion.
pub set_from : List ℕ → List ℕ → List ℕ
set_from seen [] = seen
set_from seen (x ∷ xs) = set_from (if includes seen x then seen else seen ++ x ∷ []) xs

-- `playerMap.set(p.id, p)` for each player: the last of two with one id stays.
pub player_map_from :
    Dict ℕ PlayerForValidation → List PlayerForValidation → Dict ℕ PlayerForValidation
player_map_from m [] = m
player_map_from m (p ∷ ps) = player_map_from (set m p.id p) ps

pub missing : Dict ℕ PlayerForValidation → List ℕ → List SquadError
missing m [] = []
missing m (id ∷ rest) = unless (has m id) (not_found id) ++ missing m rest

-- The checks 1 and 2.
pub roster_errors : List SquadPlayerSelection → Dict ℕ PlayerForValidation → List SquadError
unfolding set_from missing
roster_errors selections m =
    unless (length selections == total_players) (wrong_total (length selections))
    ++ (unless (length (set_from [] (ids selections)) == length (ids selections)) duplicate_players
        ++ missing m (ids selections))

-- The check 3.
pub lineup_errors : List SquadPlayerSelection → List SquadPlayerSelection → List SquadError
lineup_errors starting benched =
    unless (length starting == starters) (wrong_starters (length starting))
    ++ unless (length benched == bench) (wrong_bench (length benched))

-- The check 4: only one captain and one vice-captain are compared.
pub captain_pair_errors : List SquadPlayerSelection → List SquadPlayerSelection → List SquadError
captain_pair_errors (c ∷ []) (v ∷ []) =
    unless (not (c.player_id == v.player_id)) same_captain
    ++ (unless c.is_starter captain_on_bench ++ unless v.is_starter vice_captain_on_bench)
captain_pair_errors _ _ = []

pub captain_errors : List SquadPlayerSelection → List SquadPlayerSelection → List SquadError
unfolding captain_pair_errors
captain_errors captains vices =
    unless (length captains == 1) captain_count
    ++ (unless (length vices == 1) vice_captain_count ++ captain_pair_errors captains vices)

-- `playerMap.get(sel.playerId)!` for each selection.
pub resolve :
    Dict ℕ PlayerForValidation → List SquadPlayerSelection → Option (List PlayerForValidation)
resolve m [] = some []
resolve m (s ∷ ss) = elim (get m s.player_id) [
  | none ↦ none
  | some p ↦ elim (resolve m ss) [ none ↦ none | some ps ↦ some (p ∷ ps) ]
]

-- The loop's counters: by position, in total, and by team.
abbrev pub count_position : Position → List PlayerForValidation → ℕ
count_position pos ps = length (filter (λ p. same_position p.position pos) ps)

abbrev pub total_cost : List PlayerForValidation → ℕ
total_cost ps = sum (map (λ p. p.price) ps)

abbrev pub or_zero : Option ℕ → ℕ
or_zero none = 0
or_zero (some n) = n

pub team_counts_from : Dict ℕ ℕ → List PlayerForValidation → Dict ℕ ℕ
team_counts_from m [] = m
team_counts_from m (p ∷ ps) = team_counts_from (set m p.team_id (or_zero (get m p.team_id) + 1)) ps

pub position_error : Position → List PlayerForValidation → List SquadError
position_error pos ps =
    unless (count_position pos ps == position_counts pos)
      (wrong_position_count pos (count_position pos ps))

-- The checks 5 and 6.
pub quota_errors : List PlayerForValidation → ℕ → List SquadError
unfolding position_error
quota_errors ps budget =
    position_error gkp ps
    ++ (position_error def ps
        ++ (position_error mid ps
            ++ (position_error fwd ps
                ++ unless (leb (total_cost ps) budget) (over_budget (total_cost ps) budget))))

-- The check 7, over the entries of the map.
pub team_errors : Dict ℕ ℕ → List SquadError
team_errors [] = []
team_errors ((team, count) ∷ m) =
    unless (leb count max_per_team) (team_quota team count) ++ team_errors m

pub starters_error : Position → List PlayerForValidation → List SquadError
starters_error pos ps =
    unless (leb (min_starters pos) (count_position pos ps))
      (wrong_formation pos (count_position pos ps))

-- The check 8.
pub formation_errors : List PlayerForValidation → List SquadError
unfolding starters_error
formation_errors ps =
    unless (count_position gkp ps == 1) (wrong_formation gkp (count_position gkp ps))
    ++ (starters_error def ps ++ (starters_error mid ps ++ starters_error fwd ps))

abbrev pub starting : List SquadPlayerSelection → List SquadPlayerSelection
starting = filter (λ s. s.is_starter)

abbrev pub benched : List SquadPlayerSelection → List SquadPlayerSelection
benched = filter (λ s. not s.is_starter)

abbrev pub captains : List SquadPlayerSelection → List SquadPlayerSelection
captains = filter (λ s. s.is_captain)

abbrev pub vice_captains : List SquadPlayerSelection → List SquadPlayerSelection
vice_captains = filter (λ s. s.is_vice_captain)

-- The errors of the checks 3 to 8, in the order in which they are pushed.
pub squad_errors :
    List SquadPlayerSelection
    → List PlayerForValidation
    → List PlayerForValidation
    → ℕ
    → List SquadError
unfolding lineup_errors captain_errors quota_errors team_counts_from team_errors formation_errors
squad_errors selections chosen eleven budget =
    lineup_errors (starting selections) (benched selections)
    ++ (captain_errors (captains selections) (vice_captains selections)
        ++ (quota_errors chosen budget
            ++ (team_errors (team_counts_from [] chosen) ++ formation_errors eleven)))

-- `captains[0].playerId`
abbrev pub first_id : List SquadPlayerSelection → Option ℕ
first_id [] = none
first_id (s ∷ ss) = some s.player_id

pub summary :
    List SquadPlayerSelection → List PlayerForValidation → List PlayerForValidation → Validation
summary selections chosen eleven = elim (first_id (captains selections)) [
  | none ↦ type_error
  | some captain ↦ elim (first_id (vice_captains selections)) [
    | none ↦ type_error
    | some vice ↦ valid (record {
      total_cost = total_cost chosen;
      formation = (count_position def eleven, count_position mid eleven, count_position fwd eleven);
      starter_ids = ids (starting selections);
      bench_ids = ids (benched selections);
      captain_id = captain;
      vice_captain_id = vice;
    })
  ]
]

-- What follows the first `throw`, for the players that were read from the map.
pub judge :
    List SquadPlayerSelection
    → ℕ
    → Option (List PlayerForValidation)
    → Option (List PlayerForValidation)
    → Validation
judge selections budget (some chosen) (some eleven) =
    elim (squad_errors selections chosen eleven budget) [
      | [] ↦ summary selections chosen eleven
      | e ∷ es ↦ invalid (e ∷ es)
    ]
judge selections budget _ _ = type_error

pub validate_squad : List SquadPlayerSelection → List PlayerForValidation → ℕ → Validation
validate_squad selections players budget =
    let m = player_map_from [] players in
    elim (roster_errors selections m) [
      | [] ↦ judge selections budget (resolve m selections) (resolve m (starting selections))
      | e ∷ es ↦ invalid (e ∷ es)
    ]
