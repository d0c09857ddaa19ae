-- ===== src/Swiss/Tests.antt =====
-- Runs of the engine of backend/src/services/league/swissTournamentEngine.ts.
use Prim.Native.String.{String}
use mathlib.Core.List.Perm
use native.Mathlib.Omega.{arith}
use fantasy_xi.Prelude.{◌≡◌, refl, Bool, true, false, none, some, List, [], ◌∷◌, All, map}
use fantasy_xi.Prelude.Int.{pos}
use fantasy_xi.Prelude.Sort.{sort_by, sort_with}
use fantasy_xi.Prelude.Dict.{values, get, set, string_eq}
use fantasy_xi.Swiss.{
  all_different, ceil_log2, participants_map, new_participant, get_current_round, Participant,
  Tournament, Entrant, Outcome, ok, throws, new_tournament, round_completed,
}
use fantasy_xi.Swiss.Pairing.{
  Pair, try_candidates, solve_backtrack, solve_backtrack_pairings, later_or_this, last_without_bye,
  last_player, bye_player, seeded_pairs, pairs_of_round, pair_odd, pair_players,
}
use fantasy_xi.Swiss.Standings.{
  buchholz_from, sonneborn_berger_from, tie_breaks, ranks_before, assign_ranks, recompute_standings,
  get_standings,
}
use fantasy_xi.Swiss.Pairing.Sound.{IsFreshPairing, solve_backtrack_pairings-IsFreshPairing}
use fantasy_xi.Swiss.Pairing.Complete.{
  HaveNotMet, solve_backtrack-fuel, solve_backtrack_pairings-none,
}
use fantasy_xi.Swiss.Standings.Keep.{Kept, IsBalanced}
use fantasy_xi.Swiss.Rounds.{blocked_by, compute_pairings, generate_next_round}
use fantasy_xi.Swiss.Rounds.Cover.{IsNewRound, generate_next_round-IsNewRound}
use fantasy_xi.Swiss.Results.{
  Submitted, finite, score_of, expected_keys, check_keyed, check_results, update_matchup,
  has_matchup, after_match, play_away, play_home, apply_result, apply_results, close_round,
  submit_checked, submit_to, submit_round_results,
}
use fantasy_xi.Swiss.Steps.{IsReachable, IsReachable-IsBalanced}

abbrev player : String → List String → Participant
player id opponents = record {
  id = id;
  seed = 1;
  match_points = 0;
  wins = 0;
  draws = 0;
  losses = 0;
  byes = 0;
  points_for = 0;
  points_against = 0;
  opponents_faced = opponents;
  match_history = [];
  buchholz = 0;
  sonneborn_berger_twice = 0;
  rank = 1;
}

abbrev ann : Participant
ann = player "ann" ("bob" ∷ [])

abbrev bob : Participant
bob = player "bob" ("ann" ∷ [])

abbrev cid : Participant
cid = player "cid" ("dan" ∷ [])

abbrev dan : Participant
dan = player "dan" ("cid" ∷ [])

abbrev four_players : List Participant
four_players = ann ∷ bob ∷ cid ∷ dan ∷ []

abbrev fresh_pairs : List Pair
fresh_pairs = (ann, cid) ∷ (bob, dan) ∷ []

fresh_pairs-found : solve_backtrack_pairings four_players ≡ some fresh_pairs
unfolding solve_backtrack_pairings solve_backtrack try_candidates
fresh_pairs-found = refl

solve_backtrack_pairings-IsFreshPairing_example : IsFreshPairing four_players fresh_pairs
solve_backtrack_pairings-IsFreshPairing_example =
    solve_backtrack_pairings-IsFreshPairing four_players fresh_pairs fresh_pairs-found

ann_and_bob-unpaired : solve_backtrack_pairings (ann ∷ bob ∷ []) ≡ none
unfolding solve_backtrack_pairings solve_backtrack try_candidates
ann_and_bob-unpaired = refl

solve_backtrack_pairings-none_example : ¬ All HaveNotMet ((ann, bob) ∷ [])
solve_backtrack_pairings-none_example =
    solve_backtrack_pairings-none (ann ∷ bob ∷ []) ((ann, bob) ∷ []) ann_and_bob-unpaired
      (Perm.refl (ann ∷ bob ∷ []))

solve_backtrack-fuel_example : solve_backtrack 5 four_players ≡ solve_backtrack 9 four_players
solve_backtrack-fuel_example = solve_backtrack-fuel 5 9 four_players (omega arith) (omega arith)

abbrev always : String → String → Bool
always a b = true

abbrev never_blank : String → Bool
never_blank id = false

abbrev entrants : List Entrant
entrants =
    record { id = "ann"; seed = some 1 }
    ∷ record { id = "bob"; seed = some 2 }
    ∷ record { id = "cid"; seed = none }
    ∷ []

abbrev beginning : Outcome Tournament → Tournament
beginning (ok t) = t
beginning (throws error) = record {
  total_rounds = 0;
  current_round = 0;
  status = round_completed;
  participants = [];
  rounds = [];
}

abbrev new_one : Tournament
new_one = beginning (new_tournament never_blank entrants none)

new_one-ok : new_tournament never_blank entrants none ≡ ok new_one
unfolding new_tournament all_different ceil_log2
new_one-ok = refl

new_one-Kept : Kept (λ p. Unit) new_one.participants
unfolding new_tournament all_different ceil_log2 participants_map new_participant get set
new_one-Kept = ((refl, tt), ((refl, tt), ((refl, tt), tt)))

generate_next_round-IsNewRound_example :
    IsNewRound always new_one (generate_next_round always new_one 7)
generate_next_round-IsNewRound_example =
    generate_next_round-IsNewRound always new_one 7 new_one-Kept

abbrev first_results : List Submitted
first_results =
    record {
      home_id = "bob";
      away_id = some "ann";
      home_score = finite (pos 2);
      away_score = finite (pos 3);
    }
    ∷ []

abbrev played : Tournament
played = (submit_round_results always (generate_next_round always new_one 7).0 1 first_results).0

-- Ann and Cid, who has the bye, have won.
played-points : map (λ p. p.match_points) (values played.participants) ≡ 3 ∷ 0 ∷ 3 ∷ []
unfolding new_tournament all_different ceil_log2 participants_map new_participant get set
    get_current_round after_match apply_result apply_results assign_ranks blocked_by buchholz_from
    bye_player check_keyed check_results close_round compute_pairings expected_keys
    generate_next_round get_standings has_matchup sort_with last_player last_without_bye
    later_or_this pair_odd pair_players pairs_of_round play_away play_home ranks_before
    recompute_standings score_of seeded_pairs sonneborn_berger_from submit_checked
    submit_round_results submit_to tie_breaks update_matchup sort_by
played-points = refl

IsReachable-IsBalanced_example : Kept IsBalanced played.participants
IsReachable-IsBalanced_example = IsReachable-IsBalanced never_blank always played (
    IsReachable.results 1 first_results
      (IsReachable.next_round 7 (IsReachable.start entrants none new_one-ok)))
