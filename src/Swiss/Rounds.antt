-- ===== src/Swiss/Rounds.antt =====
-- The next round: generateNextRound of backend/src/services/league/swissTournamentEngine.ts, with the
-- pairings it computes. The date of the update is left out.
pub mod Cover
use Prim.Native.String.{String}
use fantasy_xi.Prelude.{
  ℕ, ◌+◌, Bool, true, false, not, Option, none, some, List, [], ◌∷◌, ◌++◌, ltb, if◌then◌else◌,
}
use fantasy_xi.Prelude.Dict.{Dict}
use fantasy_xi.Swiss.{
  Participant, Tournament, SwissRound, SwissStatus, created, round_active, round_completed,
  tournament_completed, SwissError, completed, unfinished, max_rounds, Outcome, ok, throws,
  get_current_round,
}
use fantasy_xi.Swiss.Standings.{recompute_standings, get_standings}
use fantasy_xi.Swiss.Pairing.{Paired, pair_players}

abbrev pub unfinished_round : Option SwissRound → Bool
unfinished_round none = false
unfinished_round (some round) = not round.is_finished

-- Whether a round has begun whose matches are not over.
unfoldable pub blocked_by : SwissStatus → Option SwissRound → Bool
blocked_by created round = false
blocked_by round_active round = unfinished_round round
blocked_by round_completed round = false
blocked_by tournament_completed round = false

abbrev pub is_over : SwissStatus → Bool
is_over tournament_completed = true
is_over created = false
is_over round_active = false
is_over round_completed = false

abbrev pub round_of : ℕ → ℕ → Paired → SwissRound
round_of number gameweek_id paired = record {
  round_number = number;
  gameweek_id = gameweek_id;
  is_finished = false;
  matchups = paired.0;
}

abbrev pub begin_round : Tournament → ℕ → ℕ → Paired → Tournament × Outcome SwissRound
begin_round t number gameweek_id paired = (
  record t {
    participants = paired.1;
    rounds = t.rounds ++ round_of number gameweek_id paired ∷ [];
    current_round = number;
    status = round_active;
  },
  ok (round_of number gameweek_id paired),
)

module _ (locale_le : String → String → Bool) where
  -- `getStandings` computes the standings again before the pairings are made.
  unfoldable pub compute_pairings : ℕ → Dict String Participant → Paired
  compute_pairings number m =
      pair_players number (get_standings locale_le m) (recompute_standings locale_le m)

  unfoldable pub generate_next_round : Tournament → ℕ → Tournament × Outcome SwissRound
  generate_next_round t gameweek_id =
      if is_over t.status
      then (t, throws completed)
      else if blocked_by t.status (get_current_round t)
      then (t, throws unfinished)
      else if ltb t.total_rounds (t.current_round + 1)
      then (record t { status = tournament_completed }, throws max_rounds)
      else begin_round t (t.current_round + 1) gameweek_id
          (compute_pairings (t.current_round + 1) (recompute_standings locale_le t.participants))
