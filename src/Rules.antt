-- ===== src/Rules.antt =====
-- backend/src/types/index.ts: positions, chips and the squad composition constants. The enums
-- themselves are generated from the Prisma schema, with the constructors below.
use Prim.Native.Nat.{ℕ}
use mathlib.Core.Path.{◌≡◌}
use mathlib.Core.Bool.{Bool, true}
use mathlib.Core.Logic.{◌↔◌}
use native.Mathlib.Omega.{arith}
use fantasy_xi.Prelude.{◌==◌}

pub data Position : Type 0 where
  gkp def mid fwd : Position

pub data ChipType : Type 0 where
  wildcard free_hit bench_boost triple_captain : ChipType

abbrev pub position_index : Position → ℕ
position_index gkp = 0
position_index def = 1
position_index mid = 2
position_index fwd = 3

-- `a === b` on positions.
abbrev pub same_position : Position → Position → Bool
same_position a b = position_index a == position_index b

pub same_position_iff : (a b : Position) → (same_position a b ≡ true) ↔ (a ≡ b)
same_position_iff a b = ground arith

abbrev pub total_players : ℕ
total_players = 15

abbrev pub starters : ℕ
starters = 11

abbrev pub bench : ℕ
bench = 4

abbrev pub position_counts : Position → ℕ
position_counts gkp = 2
position_counts def = 5
position_counts mid = 5
position_counts fwd = 3

abbrev pub min_starters : Position → ℕ
min_starters gkp = 1
min_starters def = 3
min_starters mid = 2
min_starters fwd = 1

abbrev pub max_per_team : ℕ
max_per_team = 3

-- £100.0m, in tenths of a million, the unit of all prices.
abbrev pub starting_budget : ℕ
starting_budget = 1000
