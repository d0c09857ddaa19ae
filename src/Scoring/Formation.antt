-- ===== src/Scoring/Formation.antt =====
-- backend/src/services/scoring/formationSolver.ts: the substitutions that reach a legal formation with
-- the most points. Points are whole numbers.
pub mod Best
mod Tests
use Prim.Native.String.{String}
use fantasy_xi.Prelude.{
  ℕ, suc, ◌+◌, Bool, true, false, not, ◌&&◌, ◌||◌, Option, none, some, List, [], ◌∷◌, ◌++◌, map,
  ◌==◌, if◌then◌else◌, length, filter, any,
}
use fantasy_xi.Prelude.Int.{ℤ, pos, ◌+ℤ◌, ◌-ℤ◌, ltb_ℤ}
use fantasy_xi.Prelude.Dict.{beq, string_eq}
use fantasy_xi.Prelude.Sort.{sort_by}
use fantasy_xi.Rules.{Position, gkp, def, mid, fwd, same_position}

pub record Player : Type 0 where
  pub id : String
  pub position : Position
  pub minutes_played : ℕ
  pub gameweek_points : ℤ
  pub bench_position : Option ℕ
  pub is_starter : Bool

pub record Shape : Type 0 where
  pub defs : ℕ
  pub mids : ℕ
  pub fwds : ℕ

abbrev pub shape : ℕ → ℕ → ℕ → Shape
shape d m f = record { defs = d; mids = m; fwds = f }

abbrev pub valid_formations : List Shape
valid_formations =
    shape 3 5 2
    ∷ shape 3 4 3
    ∷ shape 4 4 2
    ∷ shape 4 3 3
    ∷ shape 5 3 2
    ∷ shape 5 4 1
    ∷ shape 4 5 1
    ∷ shape 5 2 3
    ∷ []

pub record Substitution : Type 0 where
  pub starter : Player
  pub bench_player : Player
  pub points_gained : ℤ

pub record Solution : Type 0 where
  pub final_lineup : List Player
  pub substitutions : List Substitution
  pub formation : Shape
  pub total_points : ℤ
  pub is_valid : Bool

-- A goalkeeper is replaced by a goalkeeper alone, and replaces no other.
abbrev pub can_substitute : Player → Player → Bool
can_substitute starter bench_player =
    not (same_position starter.position gkp && not (same_position bench_player.position gkp))
    && not (not (same_position starter.position gkp) && same_position bench_player.position gkp)

abbrev pub count_position : Position → List Player → ℕ
count_position position lineup =
    length (filter (λ (p : Player). same_position p.position position) lineup)

abbrev pub count_positions : List Player → Shape
count_positions lineup =
    shape (count_position def lineup) (count_position mid lineup) (count_position fwd lineup)

abbrev pub same_shape : Shape → Shape → Bool
same_shape a b = a.defs == b.defs && a.mids == b.mids && a.fwds == b.fwds

abbrev pub is_valid_formation : Shape → Bool
is_valid_formation formation = any (λ valid. same_shape valid formation) valid_formations

abbrev pub calculate_total_points : List Player → ℤ
calculate_total_points [] = pos 0
calculate_total_points (p ∷ players) = p.gameweek_points +ℤ calculate_total_points players

abbrev pub is_used : List Substitution → Player → Bool
is_used [] p = false
is_used (s ∷ substitutions) p = beq s.bench_player.id p.id || is_used substitutions p

-- The lineup in which one player stands for another.
abbrev pub swap_in : Player → Player → List Player → List Player
swap_in starter bench_player lineup =
    map (λ (p : Player). if beq p.id starter.id then bench_player else p) lineup

abbrev pub Attempt : Type 0
Attempt = List Player × List Substitution

abbrev pub is_open : Shape → Player → Player → Attempt → Bool
is_open target starter bench_player (lineup, substitutions) =
    not (is_used substitutions bench_player)
    && can_substitute starter bench_player
    && same_shape (count_positions (swap_in starter bench_player lineup)) target

abbrev pub substitute : Player → Player → Attempt → Attempt
substitute starter bench_player (lineup, substitutions) = (
  swap_in starter bench_player lineup,
  substitutions
      ++ record {
        starter = starter;
        bench_player = bench_player;
        points_gained = bench_player.gameweek_points -ℤ starter.gameweek_points;
      }
        ∷ [],
)

-- The search of the bench for one starter: the first who fits comes on.
pub try_bench : Shape → Player → List Player → Attempt → Attempt
try_bench target starter [] attempt = attempt
try_bench target starter (b ∷ bench) attempt =
    let rest = try_bench target starter bench attempt in
    if is_open target starter b attempt then substitute starter b attempt else rest

pub try_starters : Shape → List Player → List Player → Attempt → Attempt
try_starters target bench [] attempt = attempt
try_starters target bench (starter ∷ idle) attempt =
    try_starters target bench idle (try_bench target starter bench attempt)

abbrev pub bench_key : Player → ℕ
bench_key p = elim p.bench_position [ none ↦ 99 | some i ↦ i ]

abbrev pub solution_of : Player → Attempt → Solution
solution_of goalkeeper (lineup, substitutions) = record {
  final_lineup = goalkeeper ∷ lineup;
  substitutions = substitutions;
  formation = count_positions lineup;
  total_points = calculate_total_points (goalkeeper ∷ lineup);
  is_valid = is_valid_formation (count_positions lineup);
}

pub try_formation : Player → List Player → List Player → List Player → Shape → Solution
try_formation goalkeeper starters bench idle target =
    solution_of goalkeeper (try_starters target (sort_by bench_key bench) idle (starters, []))

abbrev pub beats : Solution → Option Solution → Bool
beats s none = true
beats s (some best) = ltb_ℤ best.total_points s.total_points

abbrev pub better : Solution → Option Solution → Option Solution
better s best = if s.is_valid && beats s best then some s else best

pub best_of : (Shape → Solution) → List Shape → Option Solution → Option Solution
best_of attempt [] best = best
best_of attempt (target ∷ targets) best = best_of attempt targets (better (attempt target) best)

abbrev pub unchanged : Player → List Player → Bool → Solution
unchanged goalkeeper starters is_valid = record {
  final_lineup = goalkeeper ∷ starters;
  substitutions = [];
  formation = count_positions starters;
  total_points = calculate_total_points (goalkeeper ∷ starters);
  is_valid = is_valid;
}

abbrev pub or_unchanged : Player → List Player → Option Solution → Solution
or_unchanged goalkeeper starters none = unchanged goalkeeper starters false
or_unchanged goalkeeper starters (some best) = best

pub solve : Player → List Player → List Player → List Player → Solution
solve goalkeeper starters bench [] = unchanged goalkeeper starters true
solve goalkeeper starters bench (p ∷ idle) =
    or_unchanged goalkeeper starters
      (best_of (try_formation goalkeeper starters bench (p ∷ idle)) valid_formations none)
