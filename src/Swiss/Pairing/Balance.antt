-- ===== src/Swiss/Pairing/Balance.antt =====
-- Byes keep the participants' counts: computePairings of
-- backend/src/services/league/swissTournamentEngine.ts.
use Prim.Native.String.{String}
use fantasy_xi.Prelude.{
  ℕ, refl, ◌+◌, ◌*◌, ◌%◌, none, List, All, [], ◌∷◌, inl, inr, Bool-cases, length, length-append,
  ◌==◌,
}
use mathlib.Core.List.Perm
use native.Mathlib.Omega.{arith}
use native.Mathlib.Nat.{ℕ_set}
use fantasy_xi.Prelude.Perms.{All-perm}
use fantasy_xi.Swiss.Standings.Keep.{IsBalanced, Kept, Kept-set}
use fantasy_xi.Prelude.Dict.{Dict}
use fantasy_xi.Swiss.{bye, Participant}
use fantasy_xi.Swiss.Pairing.{bye_player, pair_odd, pair_players, after_bye}
use fantasy_xi.Swiss.Pairing.Round.{both, bye_player-perm}

IsBalanced-prop : (p : Participant) → IsProp (IsBalanced p)
IsBalanced-prop p h k = λ i. (
  ℕ_set p.match_points (3 * p.wins + p.draws) h.0 k.0 i,
  ℕ_set (length p.match_history) (p.wins + p.draws + p.losses) h.1 k.1 i,
  ℕ_set (length p.match_history) (length p.opponents_faced + p.byes) h.2 k.2 i,
)

after_bye-IsBalanced : (round : ℕ) (p : Participant) → IsBalanced p → IsBalanced (after_bye round p)
after_bye-IsBalanced round p h =
    let more = length-append p.match_history (
      record { round = round; opponent_id = none; result = bye; score = 0; opponent_score = 0 }
      ∷ []) in
    omega (arith, more)

pub pair_players-IsBalanced :
    (round : ℕ) (players : List Participant) (m : Dict String Participant)
    → All IsBalanced players
    → Kept IsBalanced m
    → Kept IsBalanced (pair_players round players m).1
unfolding pair_players pair_odd
pair_players-IsBalanced round [] m hs kept = kept
pair_players-IsBalanced round (p ∷ players) m hs kept =
    let found = bye_player p players in
    let split =
      All-perm IsBalanced IsBalanced-prop (p ∷ players) (both found)
        (Perm.symm (bye_player-perm p players)) hs in
    let out =
      Kept-set IsBalanced m found.0.id (after_bye round found.0) refl
        (after_bye-IsBalanced round found.0 split.0) kept in
    elim (Bool-cases (length (p ∷ players) % 2 == 1)) [
      | inl odd ↦ rw odd out
      | inr even ↦ rw even kept
    ]
