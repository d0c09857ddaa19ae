-- ===== src/Squad/Legal.antt =====
-- A legal squad, stated without the validator: the platform's rules (README, "Fantasy Football
-- Engine", and SQUAD_RULES) as one predicate.
use fantasy_xi.Prelude.{
  ℕ, ◌≤◌, ◌≡◌, ◌≢◌, true, Option, none, some, List, [], ◌∷◌, length, filter, All, ◌==◌,
  if◌then◌else◌,
}
use fantasy_xi.Rules.{
  Position, gkp, starters, bench, total_players, position_counts, min_starters, max_per_team,
}
use fantasy_xi.Squad.{
  SquadPlayerSelection, PlayerForValidation, ids, starting, benched, captains, vice_captains,
  count_position, total_cost,
}

abbrev pub AreDistinct : List ℕ → Type 0
AreDistinct [] = Unit
AreDistinct (x ∷ xs) = All (λ y. x ≢ y) xs × AreDistinct xs

-- The player with an id; of two the later.
unfoldable pub last_match : List PlayerForValidation → ℕ → Option PlayerForValidation
last_match [] id = none
last_match (p ∷ ps) id = elim (last_match ps id) [
  | some q ↦ some q
  | none ↦ if p.id == id then some p else none
]

-- `chosen` are the players that the selections name, in order.
abbrev pub AreFound :
    List PlayerForValidation → List SquadPlayerSelection → List PlayerForValidation → Type 0
AreFound players [] [] = Unit
AreFound players (s ∷ ss) (p ∷ ps) =
    (last_match players s.player_id ≡ some p) × AreFound players ss ps
AreFound players _ _ = ⊥

abbrev pub count_team : ℕ → List PlayerForValidation → ℕ
count_team team ps = length (filter (λ p. p.team_id == team) ps)

-- One captain and one vice-captain, different players, both in the starting eleven.
abbrev pub HasCaptains : List SquadPlayerSelection → List SquadPlayerSelection → Type 0
HasCaptains (c ∷ []) (v ∷ []) =
    (c.player_id ≢ v.player_id) × (c.is_starter ≡ true) × (v.is_starter ≡ true)
HasCaptains _ _ = ⊥

pub record IsLegal (selections : List SquadPlayerSelection) (players : List PlayerForValidation)
    (budget : ℕ) : Type 0 where
  pub chosen : List PlayerForValidation
  pub eleven : List PlayerForValidation
  pub fifteen : length selections ≡ total_players
  pub distinct : AreDistinct (ids selections)
  pub chosen_found : AreFound players selections chosen
  pub eleven_found : AreFound players (starting selections) eleven
  pub eleven_start : length (starting selections) ≡ starters
  pub four_on_bench : length (benched selections) ≡ bench
  pub captaincy : HasCaptains (captains selections) (vice_captains selections)
  pub quotas : (pos : Position) → count_position pos chosen ≡ position_counts pos
  pub affordable : total_cost chosen ≤ budget
  pub clubs : (team : ℕ) → count_team team chosen ≤ max_per_team
  pub one_keeper : count_position gkp eleven ≡ 1
  pub formation : (pos : Position) → min_starters pos ≤ count_position pos eleven
