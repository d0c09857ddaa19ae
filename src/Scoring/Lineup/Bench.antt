-- ===== src/Scoring/Lineup/Bench.antt =====
-- The points of the bench: calculateLineupScore of
-- backend/src/services/scoring/scoringService.ts counts the bench players who did not come on.
use fantasy_xi.Prelude.{
  ℕ, ◌≡◌, ◌∙◌, refl, ap, Bool, true, false, not, Bool-cases, inl, inr, Option, List, [], ◌∷◌, ◌++◌,
  map, map-append, filter, All,
}
use fantasy_xi.Prelude.Int.{ℤ, pos, ◌+ℤ◌, int_laws}
use fantasy_xi.Prelude.Dict.{Dict}
use fantasy_xi.Prelude.Sort.{All-sort_by}
use fantasy_xi.Rules.{ChipType}
use fantasy_xi.Scoring.AutoSub.{
  PlayerScoreDetail, FormationCounts, Slot, kept, active, actives, mark_in, resolve_one,
  resolve_from, resolve_auto_substitutions, count_formation,
}
use fantasy_xi.Scoring.AutoSub.Laws.{IsRound, resolve_one-IsRound, eligible_facts, All-middle}
use fantasy_xi.Scoring.Lineup.{
  LineupPlayer, GameweekStats, detail_of, starter_details, bench_details, raws, is_bench_boost,
  settle,
}

-- The raw points of the bench players who did not come on, and of the players who are no starters.
abbrev pub off_raws : List PlayerScoreDetail → ℤ
off_raws bench = raws (filter (λ b. not b.subbed_in) bench)

abbrev pub on_raws : List PlayerScoreDetail → ℤ
on_raws ds = raws (filter (λ d. not d.is_starter) ds)

module _ (test : PlayerScoreDetail → Bool) where
  raws-filter-cons :
      (x : PlayerScoreDetail) (xs : List PlayerScoreDetail)
      → test x ≡ true
      → raws (filter test (x ∷ xs)) ≡ x.raw_points +ℤ raws (filter test xs)
  raws-filter-cons x xs here = rw (here, filter) refl

  raws-filter-skip :
      (x : PlayerScoreDetail) (xs : List PlayerScoreDetail)
      → test x ≡ false
      → raws (filter test (x ∷ xs)) ≡ raws (filter test xs)
  raws-filter-skip x xs out = rw (out, filter) refl

  raws-filter-append :
      (xs ys : List PlayerScoreDetail)
      → raws (filter test (xs ++ ys)) ≡ raws (filter test xs) +ℤ raws (filter test ys)
  raws-filter-append [] ys = omega int_laws
  raws-filter-append (x ∷ xs) ys = elim (Bool-cases (test x)) [
    | inl here ↦
        rw
          (raws-filter-cons x (xs ++ ys) here, raws-filter-cons x xs here, raws-filter-append xs ys)
          (omega int_laws)
    | inr out ↦
        rw (raws-filter-skip x (xs ++ ys) out, raws-filter-skip x xs out) (raws-filter-append xs ys)
  ]

abbrev AreBenched : List PlayerScoreDetail → Type 0
AreBenched = All (λ b. b.is_starter ≡ false)

-- What a round takes from the bench it gives to the eleven.
round-off_raws :
    (s : PlayerScoreDetail) (counts : FormationCounts) (bench : List PlayerScoreDetail)
    (r : Slot × List PlayerScoreDetail)
    → IsRound s counts bench r
    → s.is_starter ≡ true
    → AreBenched bench
    → (off_raws r.1 +ℤ on_raws (active r.0 ∷ []) ≡ off_raws bench) × AreBenched r.1
round-off_raws s counts bench r (inl same) start benched =
    rw (same, start) (omega int_laws, benched)
round-off_raws s counts bench r (inr (p, slot, idle, f)) start benched =
    let (played, fresh, keeper) = eligible_facts s counts f.chosen f.passes in
    let (own, rest) =
      All-middle (λ b. b.is_starter ≡ false) (λ b h. h) f.before f.after f.chosen (mark_in f.chosen)
        (λ h. h) (rw f.split at benched) in
    (
      rw
          (
            slot,
            f.marked,
            f.split,
            f.split',
            raws-filter-append (λ b. not b.subbed_in) f.before (f.chosen ∷ f.after),
            raws-filter-append (λ b. not b.subbed_in) f.before (mark_in f.chosen ∷ f.after),
            fresh,
            own,
          )
          (omega int_laws),
      rw f.split' rest,
    )

resolve_from-off_raws :
    (settled : List Slot) (ss bench : List PlayerScoreDetail)
    → All (λ s. s.is_starter ≡ true) ss
    → AreBenched bench
    → off_raws (resolve_from settled ss bench).1
        +ℤ on_raws (actives (resolve_from settled ss bench).0)
      ≡ off_raws bench +ℤ on_raws (actives settled)
unfolding resolve_from
resolve_from-off_raws settled [] bench start benched = refl
resolve_from-off_raws settled (s ∷ ss) bench start benched =
    let counts = count_formation (actives settled ++ s ∷ ss) in
    let r = resolve_one s counts bench in
    let (moved, still) =
      round-off_raws s counts bench r (resolve_one-IsRound s counts bench) start.0 benched in
    resolve_from-off_raws (settled ++ r.0 ∷ []) ss r.1 start.1 still
    ∙ ap (λ ds. off_raws r.1 +ℤ on_raws ds) (map-append active settled (r.0 ∷ []))
    ∙ ap (λ z. off_raws r.1 +ℤ z)
        (raws-filter-append (λ d. not d.is_starter) (actives settled) (active r.0 ∷ []))
    ∙ swap_last (off_raws r.1) (on_raws (actives settled)) (on_raws (active r.0 ∷ []))
    ∙ ap (λ z. z +ℤ on_raws (actives settled)) moved
  where
    swap_last : (x y z : ℤ) → x +ℤ (y +ℤ z) ≡ x +ℤ z +ℤ y
    swap_last x y z = omega int_laws

on_raws-starters :
    (ds : List PlayerScoreDetail)
    → All (λ d. d.is_starter ≡ true) ds
    → on_raws (actives (map kept ds)) ≡ pos 0
on_raws-starters [] h = refl
on_raws-starters (d ∷ ds) h = rw h.0 (on_raws-starters ds h.1)

off_raws-fresh :
    (bench : List PlayerScoreDetail)
    → All (λ b. b.subbed_in ≡ false) bench
    → off_raws bench ≡ raws bench
off_raws-fresh [] h = refl
off_raws-fresh (b ∷ bench) h = rw (h.0, off_raws-fresh bench h.1) refl

settle-off_raws :
    (chip : Option ChipType) (ss bench : List PlayerScoreDetail)
    → All (λ s. s.is_starter ≡ true) ss
    → AreBenched bench
    → All (λ b. b.subbed_in ≡ false) bench
    → off_raws (settle chip ss bench).1 +ℤ on_raws (actives (settle chip ss bench).0) ≡ raws bench
unfolding settle resolve_auto_substitutions
settle-off_raws chip ss bench start benched fresh = elim (Bool-cases (is_bench_boost chip)) [
  | inl boosted ↦
      rw (boosted, on_raws-starters ss start, off_raws-fresh bench fresh) (omega int_laws)
  | inr plain ↦
      rw (plain, resolve_from-off_raws [] ss bench start benched, off_raws-fresh bench fresh)
        (omega int_laws)
]

details-start :
    (stats : Dict ℕ GameweekStats) (ps : List LineupPlayer)
    → All (λ d. d.is_starter ≡ true) (map (detail_of stats) (filter (λ p. p.is_starter) ps))
unfolding detail_of
details-start stats [] = tt
details-start stats (p ∷ ps) = elim (Bool-cases p.is_starter) [
  | inl start ↦ rw start (start, details-start stats ps)
  | inr benched ↦ rw benched (details-start stats ps)
]

details-benched :
    (stats : Dict ℕ GameweekStats) (ps : List LineupPlayer)
    → AreBenched (map (detail_of stats) (filter (λ p. not p.is_starter) ps))
unfolding detail_of
details-benched stats [] = tt
details-benched stats (p ∷ ps) = elim (Bool-cases p.is_starter) [
  | inl start ↦ rw start (details-benched stats ps)
  | inr benched ↦ rw benched (refl, details-benched stats ps)
]

details-fresh :
    (stats : Dict ℕ GameweekStats) (ps : List LineupPlayer)
    → All (λ d. d.subbed_in ≡ false) (map (detail_of stats) ps)
unfolding detail_of
details-fresh stats [] = tt
details-fresh stats (p ∷ ps) = (refl, details-fresh stats ps)

-- The bench points and those of the players who came on are those of the bench.
pub settled-off_raws :
    (players : List LineupPlayer) (stats : Dict ℕ GameweekStats) (chip : Option ChipType)
    → off_raws (settle chip (starter_details stats players) (bench_details stats players)).1
        +ℤ on_raws
            (actives (settle chip (starter_details stats players) (bench_details stats players)).0)
      ≡ raws (bench_details stats players)
unfolding starter_details bench_details
settled-off_raws players stats chip =
    settle-off_raws chip (starter_details stats players) (bench_details stats players)
      (All-sort_by (λ d. d.position_order) (λ d. d.is_starter ≡ true) _
        (details-start stats players))
      (All-sort_by (λ d. d.position_order) (λ d. d.is_starter ≡ false) _
        (details-benched stats players))
      (All-sort_by (λ d. d.position_order) (λ d. d.subbed_in ≡ false) _
        (details-fresh stats (filter (λ p. not p.is_starter) players)))
