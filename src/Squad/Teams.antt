-- ===== src/Squad/Teams.antt =====
-- The map of team counts against the number of chosen players of a team.
use fantasy_xi.Prelude.{ℕ, ◌+◌, ◌≤◌, ◌≡◌, ◌↔◌, List, [], ◌∷◌, All, arith}
use fantasy_xi.Prelude.Dict.{Dict, get, set, get-set, nat_eq}
use fantasy_xi.Rules.{max_per_team}
use fantasy_xi.Squad.{PlayerForValidation, or_zero, team_counts_from, team_errors}
use fantasy_xi.Squad.Legal.{count_team}

-- The counter of a team is the number of its players.
get-team_counts_from :
    (m : Dict ℕ ℕ) (ps : List PlayerForValidation) (team : ℕ)
    → or_zero (get (team_counts_from m ps) team) ≡ or_zero (get m team) + count_team team ps
unfolding team_counts_from
get-team_counts_from m [] team = omega arith
get-team_counts_from m (p ∷ ps) team = ground (
  arith,
  get-team_counts_from (set m p.team_id (or_zero (get m p.team_id) + 1)) ps team,
  get-set m p.team_id team (or_zero (get m p.team_id) + 1),
)

-- No error: no entry of the map is above the quota.
team_errors_iff : (m : Dict ℕ ℕ) → (team_errors m ≡ []) ↔ All (λ e. e.1 ≤ max_per_team) m
unfolding team_errors
team_errors_iff [] = ground arith
team_errors_iff ((team, count) ∷ m) = ground (arith, team_errors_iff m)

get-le_of_All : (m : Dict ℕ ℕ) (n team : ℕ) → All (λ e. e.1 ≤ n) m → or_zero (get m team) ≤ n
unfolding get
get-le_of_All [] n team h = omega arith
get-le_of_All ((t, count) ∷ m) n team h = ground (arith, get-le_of_All m n team)

All-set :
    (m : Dict ℕ ℕ) (n team count : ℕ)
    → All (λ e. e.1 ≤ n) m
    → count ≤ n
    → All (λ e. e.1 ≤ n) (set m team count)
unfolding set
All-set [] n team count h k = (k, tt)
All-set ((t, c) ∷ m) n team count h k = ground (arith, All-set m n team count)

All-team_counts_from :
    (m : Dict ℕ ℕ) (n : ℕ) (ps : List PlayerForValidation)
    → All (λ e. e.1 ≤ n) m
    → ((team : ℕ) → or_zero (get m team) + count_team team ps ≤ n)
    → All (λ e. e.1 ≤ n) (team_counts_from m ps)
unfolding team_counts_from
All-team_counts_from m n [] h k = h
All-team_counts_from m n (p ∷ ps) h k =
    let count : ℕ = or_zero (get m p.team_id) + 1 in
    All-team_counts_from (set m p.team_id count) n ps
      (All-set m n p.team_id count h (ground (arith, k p.team_id)))
      (λ team. ground (arith, k team, get-set m p.team_id team count))

-- The check of the map passes exactly if no team has more than three of the chosen players.
pub team_errors-count_team :
    (ps : List PlayerForValidation)
    → (team_errors (team_counts_from [] ps) ≡ []) ↔ ((team : ℕ) → count_team team ps ≤ max_per_team)
unfolding get
team_errors-count_team ps = (
  λ e team. omega (
    arith,
    get-team_counts_from [] ps team,
    get-le_of_All (team_counts_from [] ps) max_per_team team ((team_errors_iff _).0 e),
  ),
  λ h.
      (team_errors_iff _).1
        (All-team_counts_from [] max_per_team ps tt (λ team. omega (arith, h team))),
)
