-- ===== src/Scoring/Lineup/Points.antt =====
-- The points of a lineup add up: raw points, the captain's extra points, the bench, the cost.
use fantasy_xi.Prelude.{
  ap, ℕ, ◌-◌, ◌≡◌, inl, inr, refl, ◌∙◌, Bool, Bool-cases, Option, none, some, List, [], ◌∷◌, map,
  arith, not, filter, All, if◌then◌else◌,
}
use fantasy_xi.Prelude.Int.{ℤ, pos, ◌+ℤ◌, ◌*ℤ◌, int_laws}
use fantasy_xi.Prelude.Sort.{All-sort_by}
use fantasy_xi.Prelude.Dict.{Dict}
use fantasy_xi.Rules.{ChipType, wildcard, free_hit, bench_boost, triple_captain}
use fantasy_xi.Scoring.AutoSub.{
  resolve_auto_substitutions, PlayerScoreDetail, Slot, kept, swapped, active, actives,
}
use fantasy_xi.Scoring.AutoSub.Laws.{resolve-All}
use fantasy_xi.Scoring.Lineup.Bench.{off_raws, on_raws, settled-off_raws}
use fantasy_xi.Scoring.Lineup.{
  LineupPlayer, GameweekStats, LineupScore, detail_of, starter_details, bench_details, captained,
  mark_captain, apply_captain, captain_multiplier, captain_bonus, effectives, raws, is_bench_boost,
  transfer_cost_after, settle, score_of, calculate_lineup_score, captain_flag, vice_flag,
}

-- z * m is z and z * (m - 1), at the multipliers that a captain can have.
*ℤ_captain :
    (chip : Option ChipType) (z : ℤ)
    → z *ℤ pos (captain_multiplier chip) ≡ z *ℤ pos (captain_multiplier chip - 1) +ℤ z
unfolding ◌*ℤ◌ ◌+ℤ◌
*ℤ_captain none z = ground arith
*ℤ_captain (some wildcard) z = ground arith
*ℤ_captain (some free_hit) z = ground arith
*ℤ_captain (some bench_boost) z = ground arith
*ℤ_captain (some triple_captain) z = ground arith

-- Before a captain is marked every player counts once.
abbrev pub IsPlain : PlayerScoreDetail → Type 0
IsPlain d = (d.multiplier ≡ 1) × (d.effective_points ≡ d.raw_points)

abbrev pub IsPlainSlot : Slot → Type 0
IsPlainSlot slot = IsPlain (active slot)

effectives_plain :
    (slots : List Slot) → All IsPlainSlot slots → effectives (actives slots) ≡ raws (actives slots)
effectives_plain [] h = refl
effectives_plain (slot ∷ slots) h = rw (h.0.1, effectives_plain slots h.1) refl

pub captain_bonus-cons_plain :
    (bonus : ℤ) (d : PlayerScoreDetail) (ds : List PlayerScoreDetail)
    → d.multiplier ≡ 1
    → captain_bonus bonus (d ∷ ds) ≡ captain_bonus bonus ds
unfolding captain_bonus
captain_bonus-cons_plain bonus d ds h = rw (h, captain_bonus) refl

pub captain_bonus-cons_captain :
    (chip : Option ChipType) (bonus : ℤ) (d : PlayerScoreDetail) (ds : List PlayerScoreDetail)
    → captain_bonus bonus (captained (captain_multiplier chip) d ∷ ds)
      ≡ captain_bonus (d.raw_points *ℤ pos (captain_multiplier chip - 1)) ds
unfolding captain_bonus
captain_bonus-cons_captain none bonus d ds = refl
captain_bonus-cons_captain (some wildcard) bonus d ds = refl
captain_bonus-cons_captain (some free_hit) bonus d ds = refl
captain_bonus-cons_captain (some bench_boost) bonus d ds = refl
captain_bonus-cons_captain (some triple_captain) bonus d ds = refl

pub captain_bonus_plain :
    (bonus : ℤ) (slots : List Slot)
    → All IsPlainSlot slots
    → captain_bonus bonus (actives slots) ≡ bonus
unfolding captain_bonus
captain_bonus_plain bonus [] h = refl
captain_bonus_plain bonus (slot ∷ slots) h =
    captain_bonus-cons_plain bonus (active slot) (actives slots) h.0.0
    ∙ captain_bonus_plain bonus slots h.1

regroup : (x e b r : ℤ) → e ≡ b +ℤ r → x +ℤ e ≡ b +ℤ (x +ℤ r)
regroup x e b r h = rw h (omega int_laws)

regroup_captain : (e b x r : ℤ) → e ≡ b +ℤ x → e +ℤ r ≡ b +ℤ (x +ℤ r)
regroup_captain e b x r h = rw h (omega int_laws)

module _ (test : PlayerScoreDetail → Bool) (chip : Option ChipType) where
  abbrev marked : List Slot → List Slot
  marked = mark_captain test (captain_multiplier chip)

  raws-mark_captain : (slots : List Slot) → raws (actives (marked slots)) ≡ raws (actives slots)
  unfolding mark_captain
  raws-mark_captain [] = refl
  raws-mark_captain (kept d ∷ slots) = ground (arith, raws-mark_captain slots)
  raws-mark_captain (swapped d b ∷ slots) = ground (arith, raws-mark_captain slots)

  abbrev AddsUp : List Slot → Type 0
  AddsUp slots =
      effectives (actives slots) ≡ captain_bonus (pos 0) (actives slots) +ℤ raws (actives slots)

  AddsUp-plain : (slots : List Slot) → All IsPlainSlot slots → AddsUp slots
  AddsUp-plain slots h =
      rw (effectives_plain slots h, captain_bonus_plain (pos 0) slots h) (omega int_laws)

  AddsUp-cons :
      (slot : Slot) (slots : List Slot) → IsPlainSlot slot → AddsUp slots → AddsUp (slot ∷ slots)
  AddsUp-cons slot slots h k =
      rw (captain_bonus-cons_plain (pos 0) (active slot) (actives slots) h.0, h.1)
        (regroup (active slot).raw_points _ _ _ k)

  AddsUp-captain :
      (d : PlayerScoreDetail) (slots : List Slot)
      → All IsPlainSlot slots
      → AddsUp (kept (captained (captain_multiplier chip) d) ∷ slots)
  AddsUp-captain d slots h =
      rw
        (
          captain_bonus-cons_captain chip (pos 0) d (actives slots),
          captain_bonus_plain (d.raw_points *ℤ pos (captain_multiplier chip - 1)) slots h,
          effectives_plain slots h,
        )
        (regroup_captain _ _ d.raw_points (raws (actives slots)) (*ℤ_captain chip d.raw_points))

  -- Marking one captain: the eleven scores its raw points and the captain's extra points.
  AddsUp-mark_captain : (slots : List Slot) → All IsPlainSlot slots → AddsUp (marked slots)
  unfolding mark_captain
  AddsUp-mark_captain [] h = AddsUp-plain [] h
  AddsUp-mark_captain (kept d ∷ slots) h = elim (Bool-cases (test d)) [
    | inl here ↦ rw here (AddsUp-captain d slots h.1)
    | inr later ↦ rw later (AddsUp-cons (kept d) (marked slots) h.0 (AddsUp-mark_captain slots h.1))
  ]
  AddsUp-mark_captain (swapped d b ∷ slots) h = elim (Bool-cases (test d)) [
    | inl here ↦ rw here (
        AddsUp-cons (swapped (captained (captain_multiplier chip) d) b) slots h.0
          (AddsUp-plain slots h.1))
    | inr later ↦
        rw later (AddsUp-cons (swapped d b) (marked slots) h.0 (AddsUp-mark_captain slots h.1))
  ]

apply_captain-AddsUp :
    (chip : Option ChipType) (slots : List Slot)
    → All IsPlainSlot slots
    → AddsUp captain_flag chip (apply_captain chip slots)
      × (raws (actives (apply_captain chip slots)) ≡ raws (actives slots))
unfolding apply_captain
apply_captain-AddsUp chip slots h = ground (
  arith,
  AddsUp-mark_captain captain_flag chip slots h,
  raws-mark_captain captain_flag chip slots,
  AddsUp-mark_captain vice_flag chip slots h,
  raws-mark_captain vice_flag chip slots,
)

detail_of-IsPlain :
    (stats : Dict ℕ GameweekStats) (ps : List LineupPlayer) → All IsPlain (map (detail_of stats) ps)
unfolding detail_of
detail_of-IsPlain stats [] = tt
detail_of-IsPlain stats (p ∷ ps) = ((refl, refl), detail_of-IsPlain stats ps)

pub starters-IsPlain :
    (stats : Dict ℕ GameweekStats) (players : List LineupPlayer)
    → All IsPlain (starter_details stats players)
unfolding starter_details
starters-IsPlain stats players =
    All-sort_by (λ d. d.position_order) IsPlain _ (detail_of-IsPlain stats _)

pub bench-IsPlain :
    (stats : Dict ℕ GameweekStats) (players : List LineupPlayer)
    → All IsPlain (bench_details stats players)
unfolding bench_details
bench-IsPlain stats players =
    All-sort_by (λ d. d.position_order) IsPlain _ (detail_of-IsPlain stats _)

kept-All : (ds : List PlayerScoreDetail) → All IsPlain ds → All IsPlainSlot (map kept ds)
kept-All [] h = tt
kept-All (d ∷ ds) h = (h.0, kept-All ds h.1)

pub settle-IsPlain :
    (chip : Option ChipType) (starters bench : List PlayerScoreDetail)
    → All IsPlain starters
    → All IsPlain bench
    → All IsPlainSlot (settle chip starters bench).0
unfolding settle
settle-IsPlain chip starters bench h k = elim (Bool-cases (is_bench_boost chip)) [
  | inl boosted ↦ rw boosted (kept-All starters h)
  | inr plain ↦ rw plain (resolve-All IsPlain (λ b p. p) starters bench h k)
]

-- The eleven that score: with a bench boost the starters, else after the substitutions.
abbrev pub eleven :
    List LineupPlayer → Dict ℕ GameweekStats → Option ChipType → List PlayerScoreDetail
eleven players stats chip =
    if is_bench_boost chip
    then starter_details stats players
    else actives
        (resolve_auto_substitutions (starter_details stats players) (bench_details stats players)).0

actives-kept : (ds : List PlayerScoreDetail) → actives (map kept ds) ≡ ds
actives-kept [] = refl
actives-kept (d ∷ ds) = ap (λ l. d ∷ l) (actives-kept ds)

settle-eleven :
    (players : List LineupPlayer) (stats : Dict ℕ GameweekStats) (chip : Option ChipType)
    → actives (settle chip (starter_details stats players) (bench_details stats players)).0
      ≡ eleven players stats chip
unfolding settle
settle-eleven players stats chip = elim (Bool-cases (is_bench_boost chip)) [
  | inl boosted ↦ rw (boosted, eleven) (actives-kept (starter_details stats players))
  | inr plain ↦ rw (plain, eleven) refl
]

-- What a score is, for the eleven and the bench that were picked: the bench points are those of the
-- bench less those of its players who came on, and count with a bench boost alone.
abbrev pub IsSumOf :
    List PlayerScoreDetail → List PlayerScoreDetail → Option ChipType → ℕ → LineupScore → Type 0
IsSumOf ds bench chip cost r =
    (r.starting_points ≡ r.captain_points +ℤ raws ds)
    × (r.bench_points +ℤ raws (filter (λ d. not d.is_starter) ds) ≡ raws bench)
    × (r.transfer_cost ≡ transfer_cost_after chip cost)
    × (r.total_points +ℤ pos r.transfer_cost
        ≡ r.captain_points +ℤ raws ds +ℤ (if is_bench_boost chip then r.bench_points else pos 0))

score_of-IsSumOf :
    (ds picked : List PlayerScoreDetail) (chip : Option ChipType) (cost : ℕ) (slots : List Slot)
    (bench : List PlayerScoreDetail)
    → AddsUp captain_flag chip slots
    → raws (actives slots) ≡ raws ds
    → off_raws bench +ℤ on_raws ds ≡ raws picked
    → IsSumOf ds picked chip cost (score_of chip cost slots bench)
unfolding score_of
score_of-IsSumOf ds picked chip cost slots bench h k off =
    (rw (h, k) refl, off, refl, rw (h, k) (omega int_laws))

-- The score adds up: the starting points are the raw points of the eleven and the captain's extra
-- points; the bench points and those of the bench players in the eleven are together those of the
-- bench as it was picked; and the total is the starting points, with the bench points if the bench is
-- boosted, less the transfer cost, which a wildcard or a free hit waives.
pub calculate_lineup_score-IsSumOf :
    (players : List LineupPlayer) (stats : Dict ℕ GameweekStats) (chip : Option ChipType) (cost : ℕ)
    → IsSumOf
        (eleven players stats chip)
        (bench_details stats players)
        chip
        cost
        (calculate_lineup_score players stats chip cost)
unfolding calculate_lineup_score
calculate_lineup_score-IsSumOf players stats chip cost =
    let starters = starter_details stats players in
    let bench = bench_details stats players in
    let (sums, same) = apply_captain-AddsUp chip (settle chip starters bench).0 (
      settle-IsPlain chip starters bench (starters-IsPlain stats players)
        (bench-IsPlain stats players)) in
    let eleven_is = settle-eleven players stats chip in
    score_of-IsSumOf (eleven players stats chip) bench chip cost
      (apply_captain chip (settle chip starters bench).0) (settle chip starters bench).1 sums
      (same ∙ ap raws eleven_is) (rw (← eleven_is) (settled-off_raws players stats chip))
