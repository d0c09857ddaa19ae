-- ===== src/Swiss/Pairing.antt =====
-- Pairings: the search with backtracking, the greedy fallback, byes and the first round, of
-- backend/src/services/league/swissTournamentEngine.ts (computePairings and what it calls).
pub mod Sound
pub mod Complete
pub mod Round
pub mod Balance
use Prim.Native.String.{String}
use fantasy_xi.Prelude.{
  ℕ, zero, suc, ◌+◌, ◌-◌, ◌/◌, ◌%◌, Bool, true, false, not, Option, none, some, List, [], ◌∷◌, ◌++◌,
  map, ltb, ◌==◌, if◌then◌else◌, length, take,
}
use fantasy_xi.Prelude.Dict.{Dict, set, beq, string_eq}
use fantasy_xi.Swiss.{Participant, Matchup, Tournament, HistoryEntry, bye, includes}
use fantasy_xi.Swiss.Standings.{get_standings}

abbrev pub Pair : Type 0
Pair = Participant × Participant

abbrev pub faced : Participant → Participant → Bool
faced p q = includes p.opponents_faced q.id

-- The loop over the candidates of `first`: those before `i` are `skipped`, in their order.
unfoldable pub try_candidates :
    (List Participant → Option (List Pair))
    → Participant
    → List Participant
    → List Participant
    → Option (List Pair)
try_candidates solve first skipped [] = none
try_candidates solve first skipped (c ∷ candidates) =
    let next = try_candidates solve first (skipped ++ c ∷ []) candidates in
    if faced first c then next else (elim (solve (skipped ++ candidates)) [
      | none ↦ next
      | some pairs ↦ some ((first, c) ∷ pairs)
    ])

-- One round of fuel for each call; a call has two players less than the one that makes it.
unfoldable pub solve_backtrack : ℕ → List Participant → Option (List Pair)
solve_backtrack zero players = none
solve_backtrack (suc fuel) [] = some []
solve_backtrack (suc fuel) (first ∷ players) =
    if length (first ∷ players) % 2 == 1
    then none
    else try_candidates (solve_backtrack fuel) first [] players

unfoldable pub solve_backtrack_pairings : List Participant → Option (List Pair)
solve_backtrack_pairings players = solve_backtrack (suc (length players)) players

abbrev pub count_id : String → List String → ℕ
count_id id [] = 0
count_id id (x ∷ ids) = (if beq x id then 1 else 0) + count_id id ids

abbrev pub repeats : Participant → Participant → ℕ
repeats p q = count_id q.id p.opponents_faced

-- The loop for the best opponent: `best` is the one so far, the players before and after it; a
-- `break` at no repeats changes nothing, since no later count is below 0.
pub best_opponent :
    Participant
    → Participant
    → List Participant
    → List Participant
    → List Participant
    → Participant × List Participant
best_opponent p best before after [] = (best, before ++ after)
best_opponent p best before after (q ∷ rest) =
    if ltb (repeats p q) (repeats p best)
    then best_opponent p q (before ++ best ∷ after) [] rest
    else best_opponent p best before (after ++ q ∷ []) rest

-- The `while` loop of the fallback, on fuel.
pub greedy : ℕ → List Participant → List Pair
greedy zero players = []
greedy (suc fuel) [] = []
greedy (suc fuel) (p ∷ []) = []
greedy (suc fuel) (p ∷ q ∷ rest) =
    let (best, remaining) = best_opponent p q [] [] rest in (p, best) ∷ greedy fuel remaining

pub greedy_pairing : List Participant → List Pair
greedy_pairing players = greedy (length players) players

abbrev pub or_greedy : List Participant → Option (List Pair) → List Pair
or_greedy players none = greedy_pairing players
or_greedy players (some pairs) = pairs

pub pair_by_score_brackets : List Participant → List Pair
pair_by_score_brackets players = or_greedy players (solve_backtrack_pairings players)

-- The lowest-ranked player without a bye: the player, and the others in order. The last argument is
-- the one found after `p`.
unfoldable pub later_or_this :
    Participant
    → List Participant
    → Option (Participant × List Participant)
    → Option (Participant × List Participant)
later_or_this p players (some (found, rest)) = some (found, p ∷ rest)
later_or_this p players none = if p.byes == 0 then some (p, players) else none

unfoldable pub last_without_bye : List Participant → Option (Participant × List Participant)
last_without_bye [] = none
last_without_bye (p ∷ players) = later_or_this p players (last_without_bye players)

unfoldable pub last_player : Participant → List Participant → Participant × List Participant
last_player p [] = (p, [])
last_player p (q ∷ players) = let r = last_player q players in (r.0, p ∷ r.1)

abbrev pub or_last :
    Participant
    → List Participant
    → Option (Participant × List Participant)
    → Participant × List Participant
or_last p players none = last_player p players
or_last p players (some found) = found

-- `availablePlayers.splice(byePlayerIndex, 1)`, for a list that is not empty.
unfoldable pub bye_player : Participant → List Participant → Participant × List Participant
bye_player p players = or_last p players (last_without_bye (p ∷ players))

abbrev pub drop : ℕ → List Participant → List Participant
drop zero players = players
drop (suc n) [] = []
drop (suc n) (p ∷ players) = drop n players

abbrev pub zip : List Participant → List Participant → List Pair
zip [] ys = []
zip (x ∷ xs) [] = []
zip (x ∷ xs) (y ∷ ys) = (x, y) ∷ zip xs ys

-- The top half against the bottom half.
unfoldable pub seeded_pairs : List Participant → List Pair
seeded_pairs players = zip (take (length players / 2) players) (drop (length players / 2) players)

unfoldable pub pairs_of_round : ℕ → List Participant → List Pair
pairs_of_round round players =
    if round == 1 then seeded_pairs players else pair_by_score_brackets players

abbrev pub pair_matchup : ℕ → Pair → Matchup
pair_matchup round pair = record {
  round = round;
  home_id = pair.0.id;
  away_id = some pair.1.id;
  home_score = none;
  away_score = none;
  is_finished = false;
  winner_id = none;
}

abbrev pub bye_matchup : ℕ → Participant → Matchup
bye_matchup round p = record {
  round = round;
  home_id = p.id;
  away_id = none;
  home_score = some 0;
  away_score = some 0;
  is_finished = true;
  winner_id = some p.id;
}

abbrev pub after_bye : ℕ → Participant → Participant
after_bye round p = record p {
  byes = p.byes + 1;
  match_points = p.match_points + 3;
  wins = p.wins + 1;
  match_history =
      p.match_history
      ++ record { round = round; opponent_id = none; result = bye; score = 0; opponent_score = 0 }
        ∷ [];
}

abbrev pub Paired : Type 0
Paired = List Matchup × Dict String Participant

unfoldable pub pair_odd : ℕ → Participant → List Participant → Dict String Participant → Paired
pair_odd round p players m =
    let (out, rest) = bye_player p players in
    (
      bye_matchup round out ∷ map (pair_matchup round) (pairs_of_round round rest),
      set m out.id (after_bye round out),
    )

-- The matchups of a round, and the participants, of whom one may have got a bye.
unfoldable pub pair_players : ℕ → List Participant → Dict String Participant → Paired
pair_players round [] m = (map (pair_matchup round) (pairs_of_round round []), m)
pair_players round (p ∷ players) m =
    if length (p ∷ players) % 2 == 1
    then pair_odd round p players m
    else (map (pair_matchup round) (pairs_of_round round (p ∷ players)), m)
