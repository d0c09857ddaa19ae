-- ===== src/Swiss/Results/Balance.antt =====
-- Results keep the participants' counts: submitRoundResults of
-- backend/src/services/league/swissTournamentEngine.ts.
use Prim.Native.String.{String}
use native.Mathlib.Omega.{arith}
use fantasy_xi.Prelude.{
  ℕ, ◌≡◌, refl, ◌∙◌, Bool, Option, none, some, List, [], ◌∷◌, inl, inr, Bool-cases, length-append,
}
use fantasy_xi.Prelude.Dict.{get, set, string_eq}
use fantasy_xi.Swiss.{Participant, Tournament, SwissRound, Outcome, ok, throws, get_current_round}
use fantasy_xi.Swiss.Standings.Keep.{
  Kept, Kept-set, get-Kept, IsBalanced, recompute_standings-IsBalanced,
}
use fantasy_xi.Swiss.Results.{
  Key, Sheet, Result, Submitted, result_of, count_points, after_match, play_away, play_home,
  apply_result, apply_results, has_matchup, close_round, submit_checked, submit_to,
  submit_round_results, check_results, expected_keys,
}

after_match-IsBalanced :
    (round : ℕ) (opponent : String) (a b : ℕ) (p : Participant)
    → IsBalanced p
    → IsBalanced (after_match round opponent a b p)
unfolding after_match
after_match-IsBalanced round opponent a b p h = ground (
  arith,
  length-append p.opponents_faced (opponent ∷ []),
  length-append p.match_history (
      record {
        round = round;
        opponent_id = some opponent;
        result = result_of a b;
        score = a;
        opponent_score = b;
      }
      ∷ []),
)

after_match-id :
    (round : ℕ) (opponent : String) (a b : ℕ) (p : Participant)
    → (after_match round opponent a b p).id ≡ p.id
unfolding after_match
after_match-id round opponent a b p = ground arith

module _ (round : ℕ) where
  play_away-IsBalanced :
      (key : Key) (a b : ℕ) (home : Participant) (sheet : Sheet) (away : Option Participant)
      → home.id ≡ key.0
      → IsBalanced home
      → get sheet.1 key.1 ≡ away
      → Kept IsBalanced sheet.1
      → Kept IsBalanced (play_away round key a b home sheet away).1
  unfolding play_away after_match
  play_away-IsBalanced key a b home (matchups, m) none e h found kept =
      Kept-set IsBalanced m key.0 (count_points a b home) e h kept
  play_away-IsBalanced key a b home (matchups, m) (some away) e h found kept =
      let there = get-Kept IsBalanced m key.1 away found kept in
      Kept-set IsBalanced (set m key.0 (after_match round away.id a b home)) key.1
        (after_match round home.id b a away) (after_match-id round home.id b a away ∙ there.0)
        (after_match-IsBalanced round home.id b a away there.1)
        (Kept-set IsBalanced m key.0 (after_match round away.id a b home)
          (after_match-id round away.id a b home ∙ e)
          (after_match-IsBalanced round away.id a b home h) kept)

  play_home-IsBalanced :
      (key : Key) (a b : ℕ) (sheet : Sheet) (home : Option Participant)
      → get sheet.1 key.0 ≡ home
      → Kept IsBalanced sheet.1
      → Kept IsBalanced (play_home round key a b sheet home).1
  unfolding play_home
  play_home-IsBalanced key a b (matchups, m) none found kept = kept
  play_home-IsBalanced key a b (matchups, m) (some home) found kept =
      let there = get-Kept IsBalanced m key.0 home found kept in
      play_away-IsBalanced key a b home (matchups, m) (get m key.1) there.0 there.1 refl kept

  apply_result-IsBalanced :
      (sheet : Sheet) (r : Result)
      → Kept IsBalanced sheet.1
      → Kept IsBalanced (apply_result round sheet r).1
  unfolding apply_result
  apply_result-IsBalanced (matchups, m) r kept =
      elim (Bool-cases (has_matchup (r.home_id, r.away_id) matchups)) [
        | inl straight ↦ rw straight (
            play_home-IsBalanced (r.home_id, r.away_id) r.home_score r.away_score (matchups, m)
              (get m r.home_id) refl kept)
        | inr other ↦ elim (Bool-cases (has_matchup (r.away_id, r.home_id) matchups)) [
          | inl reversed ↦
              rw (other, reversed)
                (play_home-IsBalanced (r.away_id, r.home_id) r.away_score r.home_score (matchups, m)
                  (get m r.away_id) refl kept)
          | inr missing ↦ rw (other, missing) kept
        ]
      ]

  apply_results-IsBalanced :
      (sheet : Sheet) (results : List Result)
      → Kept IsBalanced sheet.1
      → Kept IsBalanced (apply_results round sheet results).1
  unfolding apply_results
  apply_results-IsBalanced sheet [] kept = kept
  apply_results-IsBalanced sheet (r ∷ results) kept =
      apply_results-IsBalanced (apply_result round sheet r) results
        (apply_result-IsBalanced sheet r kept)

module _ (locale_le : String → String → Bool) where
  submit_checked-IsBalanced :
      (t : Tournament) (round : SwissRound) (results : Outcome (List Result))
      → Kept IsBalanced t.participants
      → Kept IsBalanced (submit_checked locale_le t round results).0.participants
  unfolding submit_checked close_round
  submit_checked-IsBalanced t round (throws error) kept = kept
  submit_checked-IsBalanced t round (ok results) kept =
      let sheet = apply_results t.current_round (round.matchups, t.participants) results in
      recompute_standings-IsBalanced locale_le sheet.1
        (apply_results-IsBalanced t.current_round (round.matchups, t.participants) results kept)

  submit_to-IsBalanced :
      (t : Tournament) (round : Option SwissRound) (results : List Submitted)
      → Kept IsBalanced t.participants
      → Kept IsBalanced (submit_to locale_le t round results).0.participants
  unfolding submit_to
  submit_to-IsBalanced t none results kept = kept
  submit_to-IsBalanced t (some round) results kept =
      submit_checked-IsBalanced t round (check_results (expected_keys round.matchups []) [] results)
        kept

  pub submit_round_results-IsBalanced :
      (t : Tournament) (round_number : ℕ) (results : List Submitted)
      → Kept IsBalanced t.participants
      → Kept IsBalanced (submit_round_results locale_le t round_number results).0.participants
  unfolding submit_round_results
  submit_round_results-IsBalanced t round_number results kept =
      ground (arith, submit_to-IsBalanced t (get_current_round t) results kept)
