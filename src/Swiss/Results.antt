-- ===== src/Swiss/Results.antt =====
-- The results of a round: submitRoundResults of backend/src/services/league/swissTournamentEngine.ts.
-- The key of a matchup is the pair of its identifiers in either order, as the sorted and joined text
-- is for identifiers without the zero character. The date of the update is left out.
pub mod Balance
use Prim.Native.String.{String}
use fantasy_xi.Prelude.{
  ℕ, zero, suc, ◌+◌, ◌-◌, ◌==◌, Bool, true, false, not, ◌&&◌, ◌||◌, Option, none, some, List, [],
  ◌∷◌, ◌++◌, ltb, leb, if◌then◌else◌, length,
}
use fantasy_xi.Prelude.Int.{ℤ, pos, negsuc}
use fantasy_xi.Prelude.Dict.{Dict, get, set, beq, string_eq}
use fantasy_xi.Swiss.{
  MatchResult, win, draw, loss, bye, Participant, Matchup, HistoryEntry, Tournament, SwissRound,
  SwissStatus, created, round_active, round_completed, tournament_completed, SwissError, not_active,
  wrong_round, no_round, bye_submitted, bad_score, unknown_matchup, duplicate, incomplete, Outcome,
  ok, throws, get_current_round,
}
use fantasy_xi.Swiss.Standings.{recompute_standings, same_opponent}

-- A submitted score is a whole number, or NaN or an infinity.
pub data Score : Type 0 where
  finite : ℤ → Score
  not_finite : Score

pub record Submitted : Type 0 where
  pub home_id : String
  pub away_id : Option String
  pub home_score : Score
  pub away_score : Score

-- A submitted result that the checks let pass.
pub record Result : Type 0 where
  pub home_id : String
  pub away_id : String
  pub home_score : ℕ
  pub away_score : ℕ

unfoldable pub score_of : Score → Option ℕ
score_of (finite (pos n)) = some n
score_of (finite (negsuc n)) = none
score_of not_finite = none

abbrev pub Key : Type 0
Key = String × String

abbrev pub same_key : Key → Key → Bool
same_key j k = (beq j.0 k.0 && beq j.1 k.1) || (beq j.0 k.1 && beq j.1 k.0)

abbrev pub has_key : List Key → Key → Bool
has_key [] k = false
has_key (j ∷ keys) k = same_key j k || has_key keys k

-- `Set.add`.
abbrev pub add_key : List Key → Key → List Key
add_key keys k = if has_key keys k then keys else keys ++ k ∷ []

-- The keys of the matchups that are not byes, as a set.
unfoldable pub expected_keys : List Matchup → List Key → List Key
expected_keys [] keys = keys
expected_keys (m ∷ matchups) keys = elim m.away_id [
  | none ↦ expected_keys matchups keys
  | some away ↦ expected_keys matchups (add_key keys (m.home_id, away))
]

abbrev pub checked_scores : Option ℕ → Option ℕ → Option (ℕ × ℕ)
checked_scores none away = none
checked_scores (some home) none = none
checked_scores (some home) (some away) = some (home, away)

abbrev pub prepend : Result → Outcome (List Result) → Outcome (List Result)
prepend r (throws error) = throws error
prepend r (ok results) = ok (r ∷ results)

-- One turn of the loop that checks the results, and what follows it.
unfoldable pub check_keyed :
    List Key
    → List Key
    → (List Key → Outcome (List Result))
    → Key
    → Option (ℕ × ℕ)
    → Outcome (List Result)
check_keyed expected seen rest key none = throws bad_score
check_keyed expected seen rest key (some scores) =
    if not (has_key expected key)
    then throws unknown_matchup
    else if has_key seen key
    then throws duplicate
    else prepend
        (record { home_id = key.0; away_id = key.1; home_score = scores.0; away_score = scores.1 })
        (rest (seen ++ key ∷ []))

unfoldable pub check_results : List Key → List Key → List Submitted → Outcome (List Result)
check_results expected seen [] = if length seen == length expected then ok [] else throws incomplete
check_results expected seen (s ∷ submitted) = elim s.away_id [
  | none ↦ throws bye_submitted
  | some away ↦
      check_keyed expected seen (λ keys. check_results expected keys submitted) (s.home_id, away)
        (checked_scores (score_of s.home_score) (score_of s.away_score))
]

abbrev pub is_match : Key → Matchup → Bool
is_match key m = beq m.home_id key.0 && same_opponent m.away_id key.1

-- The first matchup of these two sides in this order, with the update `f` of it.
unfoldable pub update_matchup : Key → (Matchup → Matchup) → List Matchup → List Matchup
update_matchup key f [] = []
update_matchup key f (m ∷ matchups) =
    if is_match key m then f m ∷ matchups else m ∷ update_matchup key f matchups

unfoldable pub has_matchup : Key → List Matchup → Bool
has_matchup key [] = false
has_matchup key (m ∷ matchups) = is_match key m || has_matchup key matchups

-- The result of a side that scored `a` against `b`.
abbrev pub result_of : ℕ → ℕ → MatchResult
result_of a b = if ltb b a then win else if ltb a b then loss else draw

abbrev pub count_result : MatchResult → Participant → Participant
count_result win p = record p { wins = p.wins + 1; match_points = p.match_points + 3 }
count_result loss p = record p { losses = p.losses + 1 }
count_result draw p = record p { draws = p.draws + 1; match_points = p.match_points + 1 }
count_result bye p = p

-- What a match against `opponent` does to a side.
unfoldable pub after_match : ℕ → String → ℕ → ℕ → Participant → Participant
after_match round opponent a b p = count_result (result_of a b) (record p {
  points_for = p.points_for + a;
  points_against = p.points_against + b;
  opponents_faced = p.opponents_faced ++ opponent ∷ [];
  match_history =
      p.match_history
      ++ record {
        round = round;
        opponent_id = some opponent;
        result = result_of a b;
        score = a;
        opponent_score = b;
      }
        ∷ [];
})

abbrev pub winner : ℕ → ℕ → String → String → Option String
winner a b home away = if ltb b a then some home else if ltb a b then some away else none

abbrev pub scored : ℕ → ℕ → Matchup → Matchup
scored a b m = record m { home_score = some a; away_score = some b; is_finished = true }

abbrev pub won : ℕ → ℕ → String → String → Matchup → Matchup
won a b home away m = record m {
  home_score = some a;
  away_score = some b;
  is_finished = true;
  winner_id = winner a b home away;
}

abbrev pub Sheet : Type 0
Sheet = List Matchup × Dict String Participant

abbrev pub count_points : ℕ → ℕ → Participant → Participant
count_points a b p = record p {
  points_for = p.points_for + a;
  points_against = p.points_against + b;
}

-- Both sides, or the side at home alone where the other is not a participant.
unfoldable pub play_away : ℕ → Key → ℕ → ℕ → Participant → Sheet → Option Participant → Sheet
play_away round key a b home (matchups, m) none =
    (update_matchup key (scored a b) matchups, set m key.0 (count_points a b home))
play_away round key a b home (matchups, m) (some away) = (
  update_matchup key (won a b home.id away.id) matchups,
  set (set m key.0 (after_match round away.id a b home)) key.1 (after_match round home.id b a away),
)

unfoldable pub play_home : ℕ → Key → ℕ → ℕ → Sheet → Option Participant → Sheet
play_home round key a b (matchups, m) none = (update_matchup key (scored a b) matchups, m)
play_home round key a b (matchups, m) (some home) =
    play_away round key a b home (matchups, m) (get m key.1)

-- A result may name the two sides in the other order, with its scores.
unfoldable pub apply_result : ℕ → Sheet → Result → Sheet
apply_result round (matchups, m) r =
    if has_matchup (r.home_id, r.away_id) matchups
    then play_home round (r.home_id, r.away_id) r.home_score r.away_score (matchups, m)
        (get m r.home_id)
    else if has_matchup (r.away_id, r.home_id) matchups
    then play_home round (r.away_id, r.home_id) r.away_score r.home_score (matchups, m)
        (get m r.away_id)
    else (matchups, m)

unfoldable pub apply_results : ℕ → Sheet → List Result → Sheet
apply_results round sheet [] = sheet
apply_results round sheet (r ∷ results) = apply_results round (apply_result round sheet r) results

abbrev pub replace_at : SwissRound → List SwissRound → ℕ → List SwissRound
replace_at round [] i = []
replace_at round (r ∷ rounds) zero = round ∷ rounds
replace_at round (r ∷ rounds) (suc i) = r ∷ replace_at round rounds i

abbrev pub is_active : SwissStatus → Bool
is_active round_active = true
is_active created = false
is_active round_completed = false
is_active tournament_completed = false

module _ (locale_le : String → String → Bool) where
  unfoldable pub close_round : Tournament → SwissRound → Sheet → Tournament
  close_round t round (matchups, m) = record t {
    rounds =
        replace_at (record round { matchups = matchups; is_finished = true }) t.rounds
          (t.current_round - 1);
    participants = recompute_standings locale_le m;
    status = if leb t.total_rounds t.current_round then tournament_completed else round_completed;
  }

  unfoldable pub submit_checked :
      Tournament → SwissRound → Outcome (List Result) → Tournament × Outcome {0} Unit
  submit_checked t round (throws error) = (t, throws error)
  submit_checked t round (ok results) = (
    close_round t round (apply_results t.current_round (round.matchups, t.participants) results),
    ok tt,
  )

  unfoldable pub submit_to :
      Tournament → Option SwissRound → List Submitted → Tournament × Outcome {0} Unit
  submit_to t none results = (t, throws no_round)
  submit_to t (some round) results =
      submit_checked t round (check_results (expected_keys round.matchups []) [] results)

  unfoldable pub submit_round_results :
      Tournament → ℕ → List Submitted → Tournament × Outcome {0} Unit
  submit_round_results t round_number results =
      if is_active t.status
      then (if t.current_round == round_number
          then submit_to t (get_current_round t) results
          else (t, throws wrong_round))
      else (t, throws not_active)
