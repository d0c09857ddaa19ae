-- ===== src/Scoring/Formation/Best.antt =====
-- The best attempt: FormationSolver.solve of backend/src/services/scoring/formationSolver.ts.
use Prim.Native.String.{String}
use native.Mathlib.Omega.{arith}
use fantasy_xi.Prelude.{
  ◌≡◌, refl, Bool, true, false, not, ◌&&◌, ◌||◌, Option, none, some, List, [], ◌∷◌, ◌++◌, All,
  and-elim, inl, inr, Bool-cases,
}
use fantasy_xi.Prelude.Int.{ℤ, ◌-ℤ◌, ◌≤ℤ◌}
use fantasy_xi.Prelude.Dict.{beq, string_eq}
use fantasy_xi.Prelude.Sort.{sort_by}
use fantasy_xi.Scoring.Formation.{
  Player, Shape, Substitution, Solution, Attempt, valid_formations, can_substitute,
  is_valid_formation, calculate_total_points, is_used, is_open, same_shape, count_positions,
  swap_in, substitute, try_bench, try_starters, solution_of, try_formation, beats, better, best_of,
  or_unchanged, solve, bench_key,
}

-- Nobody comes on twice, and goalkeepers stand for goalkeepers alone.
abbrev pub are_fair : List Substitution → Bool
are_fair [] = true
are_fair (s ∷ substitutions) =
    can_substitute s.starter s.bench_player
    && not (is_used substitutions s.bench_player)
    && are_fair substitutions

is_used-append :
    (xs : List Substitution) (s : Substitution) (p : Player)
    → is_used (xs ++ s ∷ []) p ≡ (is_used xs p || beq s.bench_player.id p.id)
is_used-append [] s p = ground arith
is_used-append (x ∷ xs) s p = ground (arith, is_used-append xs s p)

beq_comm : (a b : String) → beq a b ≡ beq b a
beq_comm a b = ground (arith, string_eq.beq_iff a b, string_eq.beq_iff b a)

are_fair-append :
    (xs : List Substitution) (s : Substitution)
    → are_fair xs ≡ true
    → can_substitute s.starter s.bench_player ≡ true
    → is_used xs s.bench_player ≡ false
    → are_fair (xs ++ s ∷ []) ≡ true
are_fair-append [] s h can fresh = rw can refl
are_fair-append (x ∷ xs) s h can fresh = ground (
  arith,
  is_used-append xs s x.bench_player,
  are_fair-append xs s,
  beq_comm s.bench_player.id x.bench_player.id,
)

unused : (b : Bool) → not b ≡ true → b ≡ false
unused b h = ground arith

substitute-fair :
    (target : Shape) (starter b : Player) (attempt : Attempt)
    → is_open target starter b attempt ≡ true
    → are_fair attempt.1 ≡ true
    → are_fair (substitute starter b attempt).1 ≡ true
substitute-fair target starter b (lineup, subs) fits h =
    let parts =
      and-elim (not (is_used subs b) && can_substitute starter b)
        (same_shape (count_positions (swap_in starter b lineup)) target) fits in
    let both = and-elim (not (is_used subs b)) (can_substitute starter b) parts.0 in
    are_fair-append subs
      (record {
        starter = starter;
        bench_player = b;
        points_gained = b.gameweek_points -ℤ starter.gameweek_points;
      })
      h both.1 (unused (is_used subs b) both.0)

try_bench-fair :
    (target : Shape) (starter : Player) (bench : List Player) (attempt : Attempt)
    → are_fair attempt.1 ≡ true
    → are_fair (try_bench target starter bench attempt).1 ≡ true
unfolding try_bench
try_bench-fair target starter [] attempt h = h
try_bench-fair target starter (b ∷ bench) attempt h =
    elim (Bool-cases (is_open target starter b attempt)) [
      | inl fits ↦ rw fits (substitute-fair target starter b attempt fits h)
      | inr shut ↦ rw shut (try_bench-fair target starter bench attempt h)
    ]

try_starters-fair :
    (target : Shape) (bench idle : List Player) (attempt : Attempt)
    → are_fair attempt.1 ≡ true
    → are_fair (try_starters target bench idle attempt).1 ≡ true
unfolding try_starters
try_starters-fair target bench [] attempt h = h
try_starters-fair target bench (starter ∷ idle) attempt h =
    try_starters-fair target bench idle (try_bench target starter bench attempt)
      (try_bench-fair target starter bench attempt h)

-- A solution that is called valid has a legal formation; its points are those of its lineup.
abbrev pub IsSound : Solution → Type 0
IsSound s =
    (s.is_valid ≡ (s.is_valid && is_valid_formation s.formation))
    × (s.total_points ≡ calculate_total_points s.final_lineup)
    × (are_fair s.substitutions ≡ true)

same_twice : (b : Bool) → b ≡ (b && b)
same_twice b = ground arith

try_formation-IsSound :
    (goalkeeper : Player) (starters bench idle : List Player) (target : Shape)
    → IsSound (try_formation goalkeeper starters bench idle target)
unfolding try_formation
try_formation-IsSound goalkeeper starters bench idle target =
    let attempt = try_starters target (sort_by bench_key bench) idle (starters, []) in
    (
      same_twice (solution_of goalkeeper attempt).is_valid,
      refl,
      try_starters-fair target (sort_by bench_key bench) idle (starters, []) refl,
    )

-- At least as good as an attempt, if that one is valid.
abbrev pub Beats : Bool → ℤ → Solution → Type 0
Beats true points s = (s.is_valid ≡ true) × (points ≤ℤ s.total_points)
Beats false points s = Unit

abbrev Covers : Option Solution → Solution → Type 0
Covers none t = t.is_valid ≡ false
Covers (some best) t = Beats t.is_valid t.total_points best

abbrev IsSoundBest : Option Solution → Type 0
IsSoundBest none = Unit
IsSoundBest (some s) = IsSound s × (s.is_valid ≡ true)

better-IsSoundBest :
    (t : Solution) (best : Option Solution)
    → IsSound t
    → IsSoundBest best
    → IsSoundBest (better t best)
better-IsSoundBest t best h k = elim (Bool-cases (t.is_valid && beats t best)) [
  | inl wins ↦ rw wins (h, (and-elim t.is_valid (beats t best) wins).0)
  | inr loses ↦ rw loses k
]

better-Covers :
    (t : Solution) (best : Option Solution) → IsSoundBest best → Covers (better t best) t
better-Covers t none k = ground arith
better-Covers t (some b) k = ground arith

better-keeps : (t u : Solution) (best : Option Solution) → Covers best u → Covers (better t best) u
better-keeps t u none h = ground arith
better-keeps t u (some b) h = ground arith

module _ (attempt : Shape → Solution) (sound : (target : Shape) → IsSound (attempt target)) where
  best_of-IsSoundBest :
      (targets : List Shape) (best : Option Solution)
      → IsSoundBest best
      → IsSoundBest (best_of attempt targets best)
  unfolding best_of
  best_of-IsSoundBest [] best k = k
  best_of-IsSoundBest (target ∷ targets) best k =
      best_of-IsSoundBest targets (better (attempt target) best)
        (better-IsSoundBest (attempt target) best (sound target) k)

  best_of-keeps :
      (targets : List Shape) (best : Option Solution) (u : Solution)
      → Covers best u
      → Covers (best_of attempt targets best) u
  unfolding best_of
  best_of-keeps [] best u h = h
  best_of-keeps (target ∷ targets) best u h =
      best_of-keeps targets (better (attempt target) best) u
        (better-keeps (attempt target) u best h)

  best_of-Covers :
      (targets : List Shape) (best : Option Solution)
      → IsSoundBest best
      → All (λ target. Covers (best_of attempt targets best) (attempt target)) targets
  unfolding best_of
  best_of-Covers [] best k = tt
  best_of-Covers (target ∷ targets) best k = (
    best_of-keeps targets (better (attempt target) best) (attempt target)
        (better-Covers (attempt target) best k),
    best_of-Covers targets (better (attempt target) best)
        (better-IsSoundBest (attempt target) best (sound target) k),
  )

-- At least as good as the attempt at every formation that leads to a legal one.
abbrev pub IsBest : (Shape → Solution) → Solution → Type 0
IsBest attempt s =
    All (λ target. Beats (attempt target).is_valid (attempt target).total_points s) valid_formations

covered :
    (goalkeeper : Player) (starters : List Player) (attempt : Shape → Solution)
    (targets : List Shape) (best : Option Solution)
    → All (λ target. Covers best (attempt target)) targets
    → All
        (λ target.
          Beats
            (attempt target).is_valid
            (attempt target).total_points
            (or_unchanged goalkeeper starters best))
        targets
covered goalkeeper starters attempt [] best h = tt
covered goalkeeper starters attempt (target ∷ targets) none h =
    (rw h.0 tt, covered goalkeeper starters attempt targets none h.1)
covered goalkeeper starters attempt (target ∷ targets) (some best) h =
    (h.0, covered goalkeeper starters attempt targets (some best) h.1)

or_unchanged-IsSound :
    (goalkeeper : Player) (starters : List Player) (best : Option Solution)
    → IsSoundBest best
    → IsSound (or_unchanged goalkeeper starters best)
or_unchanged-IsSound goalkeeper starters none k = (refl, refl, refl)
or_unchanged-IsSound goalkeeper starters (some best) k = k.0

-- With an idle starter: the solution is at least as good as the attempt at each of the eight formations
-- that ends in a legal one; if it is called valid, its formation is legal; its total is that of its
-- lineup; nobody comes on twice, and goalkeepers stand for goalkeepers alone.
pub solve-IsBest :
    (goalkeeper idle : Player) (starters bench others : List Player)
    → IsBest
        (try_formation goalkeeper starters bench (idle ∷ others))
        (solve goalkeeper starters bench (idle ∷ others))
      × IsSound (solve goalkeeper starters bench (idle ∷ others))
unfolding solve
solve-IsBest goalkeeper idle starters bench others =
    let attempt = try_formation goalkeeper starters bench (idle ∷ others) in
    let sound = try_formation-IsSound goalkeeper starters bench (idle ∷ others) in
    let best = best_of attempt valid_formations none in
    (
      covered goalkeeper starters attempt valid_formations best
          (best_of-Covers attempt sound valid_formations none tt),
      or_unchanged-IsSound goalkeeper starters best
          (best_of-IsSoundBest attempt sound valid_formations none tt),
    )
