-- ===== src/Swiss/Standings/Keep.antt =====
-- What the standings keep of the participants: recomputeStandingsAndTieBreakers and getStandings of
-- backend/src/services/league/swissTournamentEngine.ts.

use Prim.Native.String.{String}
use fantasy_xi.Prelude.{ℕ, ◌+◌, ◌*◌, length, ◌≡◌, refl, Bool, some, List, [], ◌∷◌, map, All}
use fantasy_xi.Prelude.Dict.{Dict, get, set, values, string_eq}
use fantasy_xi.Prelude.Sort.{All-sort_by, All-sort_with}
use fantasy_xi.Prelude.Entries.{Entries, Entries-set, get-Entries}
use fantasy_xi.Swiss.{Participant}
use fantasy_xi.Swiss.Standings.{
  tie_breaks, ranks_before, sort_ranked, assign_ranks, recompute_standings, get_standings,
}

abbrev pub keys : Dict String Participant → List String
keys [] = []
keys ((k, p) ∷ m) = k ∷ keys m

abbrev pub IsEntry : (Participant → Type 0) → String → Participant → Type 0
IsEntry P k p = (p.id ≡ k) × P p

-- Participants under their own identifiers, with a property each.
abbrev pub Kept : (Participant → Type 0) → Dict String Participant → Type 0
Kept P m = Entries (IsEntry P) m

module _ (P : Participant → Type 0) where
  pub Kept-set :
      (m : Dict String Participant) (k : String) (p : Participant)
      → p.id ≡ k
      → P p
      → Kept P m
      → Kept P (set m k p)
  Kept-set m k p e h kept = Entries-set (IsEntry P) m k p (e, h) kept

  pub values-All : (m : Dict String Participant) → Kept P m → All P (values m)
  values-All [] kept = tt
  values-All ((k, p) ∷ m) kept = (kept.0.1, values-All m kept.1)

  pub get-Kept :
      (m : Dict String Participant) (k : String) (p : Participant)
      → get m k ≡ some p
      → Kept P m
      → (p.id ≡ k) × P p
  get-Kept m k p h kept = get-Entries (IsEntry P) m k p h kept

  pub sort_ranked-All :
      (le : String → String → Bool) (ps : List Participant) → All P ps → All P (sort_ranked le ps)
  sort_ranked-All le ps hs = All-sort_with (ranks_before le) P ps hs

  module _ (tied : (m : Dict String Participant) (p : Participant) → P p → P (tie_breaks m p))
      (ranked : (p : Participant) (rank : ℕ) → P p → P (record p { rank = rank })) where
    pub tie_breaks-All :
        (m : Dict String Participant) (ps : List Participant)
        → All P ps
        → All P (map (tie_breaks m) ps)
    tie_breaks-All m [] hs = tt
    tie_breaks-All m (p ∷ ps) hs = (tied m p hs.0, tie_breaks-All m ps hs.1)

    assign_ranks-Kept :
        (idx : ℕ) (ps : List Participant) (m : Dict String Participant)
        → All P ps
        → Kept P m
        → Kept P (assign_ranks idx ps m)
    unfolding assign_ranks
    assign_ranks-Kept idx [] m hs kept = kept
    assign_ranks-Kept idx (p ∷ ps) m hs kept =
        assign_ranks-Kept (idx + 1) ps (set m p.id (record p { rank = idx + 1 })) hs.1
          (Kept-set m p.id (record p { rank = idx + 1 }) refl (ranked p (idx + 1) hs.0) kept)

    pub recompute_standings-Kept :
        (le : String → String → Bool) (m : Dict String Participant)
        → Kept P m
        → Kept P (recompute_standings le m)
    unfolding recompute_standings
    recompute_standings-Kept le m kept =
        assign_ranks-Kept 0 (sort_ranked le (map (tie_breaks m) (values m))) m
          (sort_ranked-All le (map (tie_breaks m) (values m))
            (tie_breaks-All m (values m) (values-All m kept)))
          kept

    pub get_standings-All :
        (le : String → String → Bool) (m : Dict String Participant)
        → Kept P m
        → All P (get_standings le m)
    unfolding get_standings
    get_standings-All le m kept =
        All-sort_by (λ p. p.rank) P (values (recompute_standings le m))
          (values-All (recompute_standings le m) (recompute_standings-Kept le m kept))

-- The points of wins and draws, and a match or a bye for every result.
abbrev pub IsBalanced : Participant → Type 0
IsBalanced p =
    (p.match_points ≡ 3 * p.wins + p.draws)
    × (length p.match_history ≡ p.wins + p.draws + p.losses)
    × (length p.match_history ≡ length p.opponents_faced + p.byes)

tie_breaks-IsBalanced :
    (m : Dict String Participant) (p : Participant) → IsBalanced p → IsBalanced (tie_breaks m p)
unfolding tie_breaks
tie_breaks-IsBalanced m p h = h

pub recompute_standings-IsBalanced :
    (le : String → String → Bool) (m : Dict String Participant)
    → Kept IsBalanced m
    → Kept IsBalanced (recompute_standings le m)
recompute_standings-IsBalanced =
    recompute_standings-Kept IsBalanced tie_breaks-IsBalanced (λ p rank h. h)

pub get_standings-IsBalanced :
    (le : String → String → Bool) (m : Dict String Participant)
    → Kept IsBalanced m
    → All IsBalanced (get_standings le m)
get_standings-IsBalanced = get_standings-All IsBalanced tie_breaks-IsBalanced (λ p rank h. h)
