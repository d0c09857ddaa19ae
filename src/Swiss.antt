-- ===== src/Swiss.antt =====
-- backend/src/services/league/swissTournamentEngine.ts: the state of a Swiss tournament, its standings
-- and the rounds. Scores are whole numbers; a Sonneborn-Berger score is kept twice over, since a draw
-- counts half. Names, texts of identifiers and dates are left out. `participants` is an object in
-- insertion order, which JavaScript keeps for identifiers that do not look like array indices. What
-- `trim` and `localeCompare` say of the identifiers is a parameter.
pub mod Standings
pub mod Pairing
pub mod Rounds
pub mod Results
pub mod Steps
mod Tests
use Prim.Native.String.{String}
use fantasy_xi.Prelude.{
  ℕ, zero, suc, ◌+◌, ◌-◌, ◌*◌, ◌^◌, max, Bool, true, false, not, ◌&&◌, ◌||◌, Option, none, some,
  List, [], ◌∷◌, ◌++◌, map, ltb, leb, ◌==◌, if◌then◌else◌, length, get_elem?, any, find,
}
use fantasy_xi.Prelude.Dict.{Dict, get, set, has, values, beq, string_eq}
use fantasy_xi.Prelude.Sort.{sort_by}

pub data MatchResult : Type 0 where
  win draw loss bye : MatchResult

pub record HistoryEntry : Type 0 where
  pub round : ℕ
  pub opponent_id : Option String
  pub result : MatchResult
  pub score : ℕ
  pub opponent_score : ℕ

pub record Participant : Type 0 where
  pub id : String
  pub seed : ℕ
  pub match_points : ℕ
  pub wins : ℕ
  pub draws : ℕ
  pub losses : ℕ
  pub byes : ℕ
  pub points_for : ℕ
  pub points_against : ℕ
  pub opponents_faced : List String
  pub match_history : List HistoryEntry
  pub buchholz : ℕ
  pub sonneborn_berger_twice : ℕ
  pub rank : ℕ

-- `awayParticipantId` is null in a bye; `winnerId` is null or undefined where there is none.
pub record Matchup : Type 0 where
  pub round : ℕ
  pub home_id : String
  pub away_id : Option String
  pub home_score : Option ℕ
  pub away_score : Option ℕ
  pub is_finished : Bool
  pub winner_id : Option String

pub data SwissStatus : Type 0 where
  created round_active round_completed tournament_completed : SwissStatus

pub record SwissRound : Type 0 where
  pub round_number : ℕ
  pub gameweek_id : ℕ
  pub is_finished : Bool
  pub matchups : List Matchup

pub record Tournament : Type 0 where
  pub total_rounds : ℕ
  pub current_round : ℕ
  pub status : SwissStatus
  pub participants : Dict String Participant
  pub rounds : List SwissRound

pub data SwissError : Type 0 where
  too_few bad_ids bad_rounds completed unfinished max_rounds not_active wrong_round no_round :
      SwissError
  bye_submitted bad_score unknown_matchup duplicate incomplete : SwissError

pub data Outcome {ℓ} (A : Type ℓ) : Type ℓ where
  ok : A → Outcome A
  throws : SwissError → Outcome A

abbrev pub includes : List String → String → Bool
includes [] id = false
includes (x ∷ ids) id = beq x id || includes ids id

pub all_different : List String → Bool
all_different [] = true
all_different (id ∷ ids) = elim (includes ids id) [ true ↦ false | false ↦ all_different ids ]

-- An entry of the option `participants`.
pub record Entrant : Type 0 where
  pub id : String
  pub seed : Option ℕ

abbrev pub seed_or : Option ℕ → ℕ → ℕ
seed_or none idx = idx + 1
seed_or (some seed) idx = seed

pub new_participant : ℕ → Entrant → Participant
new_participant idx e = record {
  id = e.id;
  seed = seed_or e.seed idx;
  match_points = 0;
  wins = 0;
  draws = 0;
  losses = 0;
  byes = 0;
  points_for = 0;
  points_against = 0;
  opponents_faced = [];
  match_history = [];
  buchholz = 0;
  sonneborn_berger_twice = 0;
  rank = idx + 1;
}

pub participants_map : ℕ → List Entrant → Dict String Participant → Dict String Participant
participants_map idx [] m = m
participants_map idx (e ∷ es) m = participants_map (idx + 1) es (set m e.id (new_participant idx e))

-- `Math.ceil(Math.log2(n))`: the least exponent from `k` on whose power of two reaches `n`.
pub ceil_log2 : ℕ → ℕ → ℕ → ℕ
ceil_log2 zero n k = k
ceil_log2 (suc fuel) n k = let rest = ceil_log2 fuel n (k + 1) in if leb n (2 ^ k) then k else rest

abbrev pub rounds_or : Option ℕ → ℕ → ℕ
rounds_or none n = max 3 (ceil_log2 n n 0)
rounds_or (some rounds) n = rounds

pub new_tournament : (String → Bool) → List Entrant → Option ℕ → Outcome Tournament
new_tournament is_blank entrants rounds =
    if ltb (length entrants) 2
    then throws too_few
    else if all_different (map (λ e. e.id) entrants) && not (any (λ e. is_blank e.id) entrants)
    then (if leb 1 (rounds_or rounds (length entrants))
        then ok (record {
          total_rounds = rounds_or rounds (length entrants);
          current_round = 0;
          status = created;
          participants = participants_map 0 entrants [];
          rounds = [];
        })
        else throws bad_rounds)
    else throws bad_ids

-- `rounds[currentRound - 1]`, if a round has begun.
pub get_current_round : Tournament → Option SwissRound
get_current_round t = elim t.current_round [ zero ↦ none | suc n ↦ get_elem? t.rounds n ]
