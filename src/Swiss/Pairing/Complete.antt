-- ===== src/Swiss/Pairing/Complete.antt =====
-- What it means that the search with backtracking finds nothing: solveBacktrackPairings of
-- backend/src/services/league/swissTournamentEngine.ts.
use fantasy_xi.Prelude.{
  ℕ, ◌*◌, zero, suc, ◌≡◌, refl, ◌∙◌, ap, ◌+◌, ◌<◌, ◌%◌, false, Option, none, some, List, [], ◌∷◌,
  ◌++◌, inl, inr, Bool-cases, Option-cases, All, length, length-append, ◌==◌, ==_iff, append_assoc,
  sym, subst,
}
use mathlib.Core.Logic.{∥∥₁_elim}
use mathlib.Core.List.{Perm, perm_middle, append_of_mem}
use mathlib.Core.List.Perm
use mathlib.Core.List.Memᴰ
use mathlib.Core.HLevel.{⊥_prop}
use mathlib.Core.List.{Memᴰ}
use native.Mathlib.Omega.{arith}
use fantasy_xi.Prelude.Perms.{length-perm}
use fantasy_xi.Swiss.{Participant}
use fantasy_xi.Swiss.Pairing.{
  Pair, faced, try_candidates, solve_backtrack, solve_backtrack_pairings,
}
use fantasy_xi.Swiss.Pairing.Sound.{
  flatten, try_candidates-met, try_candidates-unsolved, try_candidates-solved, solve_backtrack-even,
}

abbrev pub HaveNotMet : Pair → Type 0
HaveNotMet (p, q) = (faced p q ≡ false) × (faced q p ≡ false)

-- A partner of `first`, and the pairs of all the others.
abbrev Partner : Participant → List Pair → Type 0
Partner first pairs =
    (c : Participant) × (others : List Pair) × Perm (flatten pairs) (first ∷ c ∷ flatten others)
    × (faced first c ≡ false)
    × All HaveNotMet others

past_pair :
    (first p q : Participant) (pairs : List Pair)
    → HaveNotMet (p, q)
    → Partner first pairs
    → Partner first ((p, q) ∷ pairs)
past_pair first p q pairs h (c, others, perm, fresh, rest) = (
  c,
  (p, q) ∷ others,
  Perm.trans (Perm.cons p (Perm.cons q perm)) (
      Perm.symm (
        Perm.trans (perm_middle (first ∷ c ∷ []) (q ∷ flatten others))
          (Perm.cons p (perm_middle (first ∷ c ∷ []) (flatten others))))),
  fresh,
  (h, rest),
)

flatten-Partner :
    (first : Participant) (pairs : List Pair)
    → Memᴰ first (flatten pairs)
    → All HaveNotMet pairs
    → Partner first pairs
flatten-Partner first [] m h = elim (Memᴰ.not-nil m) [ ]
flatten-Partner first ((p, q) ∷ pairs) (Memᴰ.head e) h =
    subst (λ x. Partner x ((p, q) ∷ pairs)) (sym e)
      (q, pairs, Perm.refl (p ∷ q ∷ flatten pairs), h.0.0, h.1)
flatten-Partner first ((p, q) ∷ pairs) (Memᴰ.tail (Memᴰ.head e)) h =
    subst (λ x. Partner x ((p, q) ∷ pairs)) (sym e)
      (p, pairs, Perm.swap q p (flatten pairs), h.0.1, h.1)
flatten-Partner first ((p, q) ∷ pairs) (Memᴰ.tail (Memᴰ.tail m)) h =
    past_pair first p q pairs h.0 (flatten-Partner first pairs m h.1)

after_none :
    (solve : List Participant → Option (List Pair)) (first c : Participant)
    (skipped candidates : List Participant)
    → try_candidates solve first skipped (c ∷ candidates) ≡ none
    → try_candidates solve first (skipped ++ c ∷ []) candidates ≡ none
after_none solve first c skipped candidates h = elim (Bool-cases (faced first c)) [
  | inl met ↦ sym (try_candidates-met solve first c skipped candidates met) ∙ h
  | inr fresh ↦ elim (Option-cases (solve (skipped ++ candidates))) [
    | inl unsolved ↦ sym (try_candidates-unsolved solve first c skipped candidates unsolved) ∙ h
    | inr (pairs, solved) ↦
        let found : try_candidates solve first skipped (c ∷ candidates)
            ≡ some ((first, c) ∷ pairs) =
          try_candidates-solved solve first c skipped candidates pairs fresh solved in
        cc
  ]
]

-- Every candidate that `first` may meet leaves players who cannot be paired.
try_candidates-none :
    (solve : List Participant → Option (List Pair)) (first c : Participant)
    (skipped before after : List Participant)
    → try_candidates solve first skipped (before ++ c ∷ after) ≡ none
    → faced first c ≡ false
    → solve (skipped ++ (before ++ after)) ≡ none
try_candidates-none solve first c skipped [] after h fresh =
    elim (Option-cases (solve (skipped ++ after))) [
      | inl unsolved ↦ unsolved
      | inr (pairs, solved) ↦
          let found : try_candidates solve first skipped (c ∷ after) ≡ some ((first, c) ∷ pairs) =
            try_candidates-solved solve first c skipped after pairs fresh solved in
          cc
    ]
try_candidates-none solve first c skipped (b ∷ before) after h fresh =
    let next : try_candidates solve first (skipped ++ b ∷ []) (before ++ c ∷ after) ≡ none =
      after_none solve first b skipped (before ++ c ∷ after) h in
    subst (λ l. solve l ≡ none) (append_assoc skipped (b ∷ []) (before ++ after))
      (try_candidates-none solve first c (skipped ++ b ∷ []) before after next fresh)

length-flatten : (pairs : List Pair) → length (flatten pairs) ≡ 2 * length pairs
length-flatten [] = refl
length-flatten ((p, q) ∷ pairs) = omega (arith, length-flatten pairs)

-- A partner of `first`, found among the others, leaves players who can be paired.
split_off :
    (first c : Participant) (before after rest : List Participant) (others : List Pair)
    → rest ≡ before ++ c ∷ after
    → Perm (c ∷ flatten others) rest
    → Perm (flatten others) (before ++ after)
split_off first c before after rest others e perm =
    Perm.cons_inv (Perm.trans (subst (Perm (c ∷ flatten others)) e perm) (perm_middle before after))

nothing_left : (fuel : ℕ) → solve_backtrack (suc fuel) [] ≡ none → ⊥
unfolding solve_backtrack
nothing_left fuel h = cc

module _ (fuel : ℕ)
    (deeper : (players : List Participant) (pairs : List Pair)
      → length players < fuel
      → solve_backtrack fuel players ≡ none
      → Perm (flatten pairs) players
      → All HaveNotMet pairs
      → ⊥)
    (first : Participant) (players : List Participant) (pairs : List Pair)
    (enough : length players < suc fuel)
    (h : try_candidates (solve_backtrack fuel) first [] players ≡ none)
    (perm : Perm (flatten pairs) (first ∷ players)) where
  without_both :
      (c : Participant) (before after : List Participant) (others : List Pair)
      → players ≡ before ++ c ∷ after
      → Perm (c ∷ flatten others) players
      → faced first c ≡ false
      → All HaveNotMet others
      → ⊥
  without_both c before after others e rest fresh all_fresh =
      deeper (before ++ after) others
        (omega (arith, ap length e, length-append before (c ∷ after), length-append before after))
        (try_candidates-none (solve_backtrack fuel) first c [] before after
          (subst (λ l. try_candidates (solve_backtrack fuel) first [] l ≡ none) e h) fresh)
        (split_off first c before after players others e rest) all_fresh

  Partner-none : Partner first pairs → ⊥
  Partner-none (c, others, both, fresh, all_fresh) =
      let rest : Perm (c ∷ flatten others) players =
        Perm.cons_inv (Perm.trans (Perm.symm both) perm) in
      ∥∥₁_elim (append_of_mem ((Perm.mem_iff rest).0 ∣ Memᴰ.head refl ∣₁)) ⊥_prop
        (λ split. without_both c split.0 split.1 others split.2 rest fresh all_fresh)

  no_partner : All HaveNotMet pairs → ⊥
  no_partner all_fresh =
      ∥∥₁_elim ((Perm.mem_iff perm).1 ∣ Memᴰ.head refl ∣₁) ⊥_prop
        (λ mem. Partner-none (flatten-Partner first pairs mem all_fresh))

-- With enough fuel, a search that finds nothing leaves no pairing of these players in which nobody
-- meets an opponent again.
pub solve_backtrack-none :
    (fuel : ℕ) (players : List Participant) (pairs : List Pair)
    → length players < fuel
    → solve_backtrack fuel players ≡ none
    → Perm (flatten pairs) players
    → All HaveNotMet pairs
    → ⊥
solve_backtrack-none zero players pairs enough h perm fresh = omega arith
solve_backtrack-none (suc fuel) [] pairs enough h perm fresh = nothing_left fuel h
solve_backtrack-none (suc fuel) (first ∷ players) pairs enough h perm fresh =
    elim (Bool-cases (length (first ∷ players) % 2 == 1)) [
      | inl odd ↦ omega (
        arith,
        length-perm (flatten pairs) (first ∷ players) perm,
        length-flatten pairs,
        (==_iff (length (first ∷ players) % 2) 1).0 odd,
      )
      | inr even ↦
          no_partner fuel (solve_backtrack-none fuel) first players pairs (omega arith)
            (sym (solve_backtrack-even fuel first players even) ∙ h) perm fresh
    ]

-- Where the search of the program's call returns null, every way to put the players into pairs has two
-- who have met before, by the list of the one or of the other.
pub solve_backtrack_pairings-none :
    (players : List Participant) (pairs : List Pair)
    → solve_backtrack_pairings players ≡ none
    → Perm (flatten pairs) players
    → ¬ All HaveNotMet pairs
unfolding solve_backtrack_pairings
solve_backtrack_pairings-none players pairs h perm fresh =
    solve_backtrack-none (suc (length players)) players pairs (omega arith) h perm fresh

module _ (solve again : List Participant → Option (List Pair)) (n : ℕ)
    (agree : (players : List Participant) → length players < n → solve players ≡ again players)
    (first : Participant) where
  try_candidates-agree :
      (skipped candidates : List Participant)
      → length skipped + length candidates < n + 1
      → try_candidates solve first skipped candidates
        ≡ try_candidates again first skipped candidates
  unfolding try_candidates
  try_candidates-agree skipped [] small = refl
  try_candidates-agree skipped (c ∷ candidates) small = ground (
    arith,
    length-append skipped candidates,
    length-append skipped (c ∷ []),
    agree (skipped ++ candidates),
    try_candidates-agree (skipped ++ c ∷ []) candidates,
  )

-- The search never runs out of fuel: any amount above the number of players gives the same result.
pub solve_backtrack-fuel :
    (f g : ℕ) (players : List Participant)
    → length players < f
    → length players < g
    → solve_backtrack f players ≡ solve_backtrack g players
unfolding solve_backtrack
solve_backtrack-fuel zero g players small enough = ground arith
solve_backtrack-fuel (suc f) zero players small enough = ground arith
solve_backtrack-fuel (suc f) (suc g) [] small enough = refl
solve_backtrack-fuel (suc f) (suc g) (first ∷ players) small enough = ground (
  arith,
  try_candidates-agree (solve_backtrack f) (solve_backtrack g) (length players)
      (λ others fewer. solve_backtrack-fuel f g others (omega arith) (omega arith)) first []
      players,
)
