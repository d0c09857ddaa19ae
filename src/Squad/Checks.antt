-- ===== src/Squad/Checks.antt =====
-- Each group of checks pushes no error exactly if the rules that it stands for hold.
use fantasy_xi.Prelude.{ℕ, ◌≤◌, ◌≡◌, ◌↔◌, List, [], ◌∷◌, length, arith, All}
use fantasy_xi.Rules.{
  Position, gkp, def, mid, fwd, starters, bench, total_players, position_counts, min_starters,
}
use fantasy_xi.Squad.{
  SquadPlayerSelection, PlayerForValidation, ids, roster_errors, lineup_errors, captain_errors,
  quota_errors, formation_errors, count_position, total_cost, player_map_from,
}
use fantasy_xi.Squad.Legal.{AreDistinct, HasCaptains}
use fantasy_xi.Squad.Lookup.{AreDistinct-iff, IsKnown, missing_iff}

pub roster_errors_iff :
    (players : List PlayerForValidation) (ss : List SquadPlayerSelection)
    → (roster_errors ss (player_map_from [] players) ≡ [])
      ↔ ((length ss ≡ total_players) × AreDistinct (ids ss) × All (IsKnown players) ss)
unfolding roster_errors
roster_errors_iff players ss = ground (arith, AreDistinct-iff (ids ss), missing_iff players ss)

pub lineup_errors_iff :
    (xs ys : List SquadPlayerSelection)
    → (lineup_errors xs ys ≡ []) ↔ ((length xs ≡ starters) × (length ys ≡ bench))
unfolding lineup_errors
lineup_errors_iff xs ys = ground arith

pub captain_errors_iff :
    (cs vs : List SquadPlayerSelection) → (captain_errors cs vs ≡ []) ↔ HasCaptains cs vs
unfolding captain_errors
captain_errors_iff [] vs = ground arith
captain_errors_iff (c ∷ []) [] = ground arith
captain_errors_iff (c ∷ []) (v ∷ []) = ground arith
captain_errors_iff (c ∷ []) (v ∷ w ∷ vs) = ground arith
captain_errors_iff (c ∷ d ∷ cs) vs = ground arith

pub every_position_iff {ℓ} :
    (P : Position → Type ℓ) → ((pos : Position) → P pos) ↔ (P gkp × P def × P mid × P fwd)
every_position_iff P = (λ h. (h gkp, h def, h mid, h fwd), λ h. each h)
  where
    each : P gkp × P def × P mid × P fwd → (pos : Position) → P pos
    each h gkp = h.0
    each h def = h.1
    each h mid = h.2
    each h fwd = h.3

pub quota_errors_iff :
    (ps : List PlayerForValidation) (budget : ℕ)
    → (quota_errors ps budget ≡ []) ↔ (
        ((pos : Position) → count_position pos ps ≡ position_counts pos) × (total_cost ps ≤ budget))
unfolding quota_errors
quota_errors_iff ps budget = (
  λ e. (
    (every_position_iff (λ pos. count_position pos ps ≡ position_counts pos)).1 (ground arith),
    ground arith,
  ),
  λ h. ground (arith, h.0 gkp, h.0 def, h.0 mid, h.0 fwd),
)

pub formation_errors_iff :
    (ps : List PlayerForValidation)
    → (formation_errors ps ≡ []) ↔ (
        (count_position gkp ps ≡ 1) × ((pos : Position) → min_starters pos ≤ count_position pos ps))
unfolding formation_errors
formation_errors_iff ps = (
  λ e. (
    ground arith,
    (every_position_iff (λ pos. min_starters pos ≤ count_position pos ps)).1 (ground arith),
  ),
  λ h. ground (arith, h.1 def, h.1 mid, h.1 fwd),
)
