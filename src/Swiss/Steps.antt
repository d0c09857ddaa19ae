-- ===== src/Swiss/Steps.antt =====
-- The life of a tournament, from its entrants through rounds and results in any order of calls, those
-- that end in an error among them: backend/src/services/league/swissTournamentEngine.ts.
use Prim.Native.String.{String}
use fantasy_xi.Prelude.{ℕ, ◌+◌, ◌≡◌, refl, subst, Bool, Option, List, [], ◌∷◌}
use native.Mathlib.Omega.{arith}
use fantasy_xi.Prelude.Dict.{Dict, set, string_eq}
use fantasy_xi.Swiss.{
  Participant, Tournament, Entrant, Outcome, ok, throws, new_tournament, new_participant,
  participants_map,
}
use fantasy_xi.Swiss.Standings.Keep.{Kept, Kept-set, IsBalanced}
use fantasy_xi.Swiss.Rounds.{generate_next_round}
use fantasy_xi.Swiss.Rounds.Cover.{generate_next_round-IsBalanced}
use fantasy_xi.Swiss.Results.{Submitted, submit_round_results}
use fantasy_xi.Swiss.Results.Balance.{submit_round_results-IsBalanced}

module _ (is_blank : String → Bool) (locale_le : String → String → Bool) where
  pub data IsReachable : Tournament → Type 0 where
    start :
        (entrants : List Entrant) (rounds : Option ℕ) {t : Tournament}
        → new_tournament is_blank entrants rounds ≡ ok t
        → IsReachable t
    next_round :
        (gameweek_id : ℕ) {t : Tournament}
        → IsReachable t
        → IsReachable (generate_next_round locale_le t gameweek_id).0
    results :
        (round_number : ℕ) (submitted : List Submitted) {t : Tournament}
        → IsReachable t
        → IsReachable (submit_round_results locale_le t round_number submitted).0

participants_map-IsBalanced :
    (idx : ℕ) (entrants : List Entrant) (m : Dict String Participant)
    → Kept IsBalanced m
    → Kept IsBalanced (participants_map idx entrants m)
unfolding participants_map new_participant
participants_map-IsBalanced idx [] m kept = kept
participants_map-IsBalanced idx (e ∷ entrants) m kept =
    participants_map-IsBalanced (idx + 1) entrants (set m e.id (new_participant idx e))
      (Kept-set IsBalanced m e.id (new_participant idx e) refl (refl, refl, refl) kept)

-- What a new tournament holds, where there is one.
abbrev IsFresh : Outcome Tournament → Type 0
IsFresh (throws error) = Unit
IsFresh (ok t) = Kept IsBalanced t.participants

new_tournament-IsFresh :
    (is_blank : String → Bool) (entrants : List Entrant) (rounds : Option ℕ)
    → IsFresh (new_tournament is_blank entrants rounds)
unfolding new_tournament
new_tournament-IsFresh is_blank entrants rounds =
    ground (arith, participants_map-IsBalanced 0 entrants [] tt)

-- In every tournament that calls can lead to, each participant has the points of its wins and draws,
-- one entry in its history for each win, draw and loss, and one for each opponent and bye.
pub IsReachable-IsBalanced :
    (is_blank : String → Bool) (locale_le : String → String → Bool) (t : Tournament)
    → IsReachable is_blank locale_le t
    → Kept IsBalanced t.participants
IsReachable-IsBalanced is_blank le t (IsReachable.start entrants rounds e) =
    subst IsFresh e (new_tournament-IsFresh is_blank entrants rounds)
IsReachable-IsBalanced is_blank le _ (IsReachable.next_round gameweek_id {t} h) =
    generate_next_round-IsBalanced le t gameweek_id (IsReachable-IsBalanced is_blank le t h)
IsReachable-IsBalanced is_blank le _ (IsReachable.results round_number submitted {t} h) =
    submit_round_results-IsBalanced le t round_number submitted
      (IsReachable-IsBalanced is_blank le t h)
