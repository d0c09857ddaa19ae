-- ===== src/Swiss/Pairing/Sound.antt =====
-- What the search with backtracking returns: solveBacktrackPairings of
-- backend/src/services/league/swissTournamentEngine.ts.
use fantasy_xi.Prelude.{
  ℕ, zero, suc, ◌≡◌, refl, ◌∙◌, ◌%◌, true, false, Option, none, some, List, [], ◌∷◌, ◌++◌, inl, inr,
  Bool-cases, Option-cases, All, length, ◌==◌, append_assoc, sym, subst,
}
use mathlib.Core.List.{Perm, perm_middle}
use mathlib.Core.List.Perm
use native.Mathlib.Omega.{arith}
use fantasy_xi.Swiss.{Participant}
use fantasy_xi.Swiss.Pairing.{
  Pair, faced, try_candidates, solve_backtrack, solve_backtrack_pairings,
}

-- The players of some pairs.
abbrev pub flatten : List Pair → List Participant
flatten [] = []
flatten ((p, q) ∷ pairs) = p ∷ q ∷ flatten pairs

-- Every player is in one pair, and no first player has met the second before.
abbrev pub IsFreshPairing : List Participant → List Pair → Type 0
IsFreshPairing players pairs =
    Perm (flatten pairs) players × All (λ pair. faced pair.0 pair.1 ≡ false) pairs

pair_up :
    (first c : Participant) (skipped candidates : List Participant) (pairs : List Pair)
    → faced first c ≡ false
    → IsFreshPairing (skipped ++ candidates) pairs
    → IsFreshPairing (first ∷ skipped ++ c ∷ candidates) ((first, c) ∷ pairs)
pair_up first c skipped candidates pairs fresh (perm, rest) = (
  Perm.cons first (Perm.trans (Perm.cons c perm) (Perm.symm (perm_middle skipped candidates))),
  (fresh, rest),
)

module _ (solve : List Participant → Option (List Pair)) (first c : Participant)
    (skipped candidates : List Participant) where
  pub try_candidates-met :
      faced first c ≡ true
      → try_candidates solve first skipped (c ∷ candidates)
        ≡ try_candidates solve first (skipped ++ c ∷ []) candidates
  unfolding try_candidates
  try_candidates-met met = rw met refl

  pub try_candidates-unsolved :
      solve (skipped ++ candidates) ≡ none
      → try_candidates solve first skipped (c ∷ candidates)
        ≡ try_candidates solve first (skipped ++ c ∷ []) candidates
  unfolding try_candidates
  try_candidates-unsolved unsolved = ground (arith, unsolved)

  pub try_candidates-solved :
      (pairs : List Pair)
      → faced first c ≡ false
      → solve (skipped ++ candidates) ≡ some pairs
      → try_candidates solve first skipped (c ∷ candidates) ≡ some ((first, c) ∷ pairs)
  unfolding try_candidates
  try_candidates-solved pairs fresh solved = rw (fresh, solved) refl

pub solve_backtrack-odd :
    (fuel : ℕ) (players : List Participant)
    → (length players % 2 == 1) ≡ true
    → solve_backtrack fuel players ≡ none
unfolding solve_backtrack
solve_backtrack-odd zero players odd = refl
solve_backtrack-odd (suc fuel) [] odd = cc
solve_backtrack-odd (suc fuel) (first ∷ players) odd = rw odd refl

pub solve_backtrack-even :
    (fuel : ℕ) (first : Participant) (players : List Participant)
    → (length (first ∷ players) % 2 == 1) ≡ false
    → solve_backtrack (suc fuel) (first ∷ players)
      ≡ try_candidates (solve_backtrack fuel) first [] players
unfolding solve_backtrack
solve_backtrack-even fuel first players even = rw even refl

module _ (solve : List Participant → Option (List Pair))
    (solved : (players : List Participant) (pairs : List Pair)
      → solve players ≡ some pairs
      → IsFreshPairing players pairs) where
  try_candidates-IsFreshPairing :
      (first : Participant) (skipped candidates : List Participant) (pairs : List Pair)
      → try_candidates solve first skipped candidates ≡ some pairs
      → IsFreshPairing (first ∷ skipped ++ candidates) pairs
  unfolding try_candidates
  try_candidates-IsFreshPairing first skipped [] pairs h = cc
  try_candidates-IsFreshPairing first skipped (c ∷ candidates) pairs h =
      let step : try_candidates solve first (skipped ++ c ∷ []) candidates ≡ some pairs
          → IsFreshPairing (first ∷ skipped ++ c ∷ candidates) pairs =
        λ k.
          subst (λ l. IsFreshPairing (first ∷ l) pairs) (append_assoc skipped (c ∷ []) candidates)
            (try_candidates-IsFreshPairing first (skipped ++ c ∷ []) candidates pairs k) in
      elim (Bool-cases (faced first c)) [
        | inl met ↦ step (sym (try_candidates-met solve first c skipped candidates met) ∙ h)
        | inr fresh ↦ elim (Option-cases (solve (skipped ++ candidates))) [
          | inl unsolved ↦
              step (sym (try_candidates-unsolved solve first c skipped candidates unsolved) ∙ h)
          | inr (found, eq) ↦
              let same : some ((first, c) ∷ found) ≡ some pairs =
                sym (try_candidates-solved solve first c skipped candidates found fresh eq) ∙ h in
              let pairs_eq : (first, c) ∷ found ≡ pairs = cc in
              subst (IsFreshPairing (first ∷ skipped ++ c ∷ candidates)) pairs_eq (
                pair_up first c skipped candidates found fresh
                  (solved (skipped ++ candidates) found eq))
        ]
      ]

pub solve_backtrack-IsFreshPairing :
    (fuel : ℕ) (players : List Participant) (pairs : List Pair)
    → solve_backtrack fuel players ≡ some pairs
    → IsFreshPairing players pairs
unfolding solve_backtrack
solve_backtrack-IsFreshPairing zero players pairs h = cc
solve_backtrack-IsFreshPairing (suc fuel) [] pairs h =
    let none_left : [] ≡ pairs = cc in subst (IsFreshPairing []) none_left (Perm.nil, tt)
solve_backtrack-IsFreshPairing (suc fuel) (first ∷ players) pairs h =
    elim (Bool-cases (length (first ∷ players) % 2 == 1)) [
      | inl odd ↦
          let unsolved : solve_backtrack (suc fuel) (first ∷ players) ≡ none =
            solve_backtrack-odd (suc fuel) (first ∷ players) odd in
          cc
      | inr even ↦
          try_candidates-IsFreshPairing (solve_backtrack fuel) (solve_backtrack-IsFreshPairing fuel)
            first [] players pairs (sym (solve_backtrack-even fuel first players even) ∙ h)
    ]

-- A pairing that the search returns has every player in one pair, and pairs nobody with an opponent
-- on the list of the first of the two.
pub solve_backtrack_pairings-IsFreshPairing :
    (players : List Participant) (pairs : List Pair)
    → solve_backtrack_pairings players ≡ some pairs
    → IsFreshPairing players pairs
unfolding solve_backtrack_pairings
solve_backtrack_pairings-IsFreshPairing players =
    solve_backtrack-IsFreshPairing (suc (length players)) players
