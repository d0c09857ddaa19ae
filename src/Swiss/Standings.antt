-- ===== src/Swiss/Standings.antt =====
-- Tie-breaks and ranks: recomputeStandingsAndTieBreakers and getStandings of
-- backend/src/services/league/swissTournamentEngine.ts.
pub mod Keep
pub mod Names
use Prim.Native.String.{String}
use fantasy_xi.Prelude.{
  ℕ, suc, ◌+◌, ◌*◌, Bool, true, false, Option, none, some, List, [], ◌∷◌, ltb, leb, map,
  if◌then◌else◌, find,
}
use fantasy_xi.Prelude.Dict.{Dict, get, set, values, beq, string_eq}
use fantasy_xi.Prelude.Sort.{sort_by, sort_with}
use fantasy_xi.Swiss.{MatchResult, win, draw, loss, bye, HistoryEntry, Participant, Tournament}

abbrev pub same_opponent : Option String → String → Bool
same_opponent none id = false
same_opponent (some opponent) id = beq opponent id

-- Twice what an opponent's points add to the Sonneborn-Berger score.
abbrev pub sonneborn_berger_share : Option HistoryEntry → ℕ → ℕ
sonneborn_berger_share none points = 0
sonneborn_berger_share (some m) points = elim m.result [
  | win ↦ 2 * points
  | draw ↦ points
  | loss ↦ 0
  | bye ↦ 0
]

abbrev pub points_of : Option Participant → ℕ
points_of none = 0
points_of (some opponent) = opponent.match_points

-- An opponent who is not among the participants is skipped, which adds nothing.
unfoldable pub buchholz_from : Dict String Participant → List String → ℕ
buchholz_from m [] = 0
buchholz_from m (id ∷ opponents) = points_of (get m id) + buchholz_from m opponents

unfoldable pub sonneborn_berger_from : Dict String Participant → List HistoryEntry → List String → ℕ
sonneborn_berger_from m history [] = 0
sonneborn_berger_from m history (id ∷ opponents) =
    sonneborn_berger_share (find (λ (e : HistoryEntry). same_opponent e.opponent_id id) history)
      (points_of (get m id))
    + sonneborn_berger_from m history opponents

unfoldable pub tie_breaks : Dict String Participant → Participant → Participant
tie_breaks m p = record p {
  buchholz = buchholz_from m p.opponents_faced;
  sonneborn_berger_twice = sonneborn_berger_from m p.match_history p.opponents_faced;
}

-- One level of the comparison: more is first, equals are left to the next level.
abbrev pub more_first : ℕ → ℕ → Bool → Bool
more_first a b rest = if ltb b a then true else if ltb a b then false else rest

module _ (locale_le : String → String → Bool) where
  -- Whether `a` may stand before `b`: the comparator is not positive.
  unfoldable pub ranks_before : Participant → Participant → Bool
  ranks_before a b = more_first a.match_points b.match_points (
      more_first a.buchholz b.buchholz (
        more_first a.sonneborn_berger_twice b.sonneborn_berger_twice (
          more_first (a.points_for + b.points_against) (b.points_for + a.points_against) (
            more_first a.points_for b.points_for
              (more_first b.seed a.seed (locale_le a.id b.id))))))

  abbrev pub sort_ranked : List Participant → List Participant
  sort_ranked ps = sort_with ranks_before ps

-- `p.rank = idx + 1`, written back under the identifier.
unfoldable pub assign_ranks :
    ℕ → List Participant → Dict String Participant → Dict String Participant
assign_ranks idx [] m = m
assign_ranks idx (p ∷ ps) m = assign_ranks (idx + 1) ps (set m p.id (record p { rank = idx + 1 }))

module _ (locale_le : String → String → Bool) where
  unfoldable pub recompute_standings : Dict String Participant → Dict String Participant
  recompute_standings m = assign_ranks 0 (sort_ranked locale_le (map (tie_breaks m) (values m))) m

  unfoldable pub get_standings : Dict String Participant → List Participant
  get_standings m = sort_by (λ p. p.rank) (values (recompute_standings m))
