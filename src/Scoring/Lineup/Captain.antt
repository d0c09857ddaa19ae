-- ===== src/Scoring/Lineup/Captain.antt =====
-- Whose points are multiplied: the captain's, or the vice-captain's if the captain did not play.
use fantasy_xi.Prelude.{
  ℕ, ◌-◌, ◌<◌, ◌≡◌, ◌⊎◌, inl, inr, refl, ap, ◌∙◌, Bool, true, false, Bool-cases, Option, none, some,
  List, [], ◌∷◌, map, arith, All, find, if◌then◌else◌,
}
use fantasy_xi.Prelude.Int.{pos, ◌*ℤ◌}
use fantasy_xi.Prelude.Dict.{Dict}
use fantasy_xi.Rules.{ChipType}
use fantasy_xi.Scoring.AutoSub.{
  PlayerScoreDetail, Slot, kept, swapped, originals, actives, mark_out,
}
use fantasy_xi.Scoring.AutoSub.Laws.{AreSlotsFor, IsSlotFor, resolve-AreSlotsFor}
use fantasy_xi.Scoring.Lineup.{
  LineupPlayer, GameweekStats, starter_details, bench_details, mark_captain, apply_captain,
  captain_multiplier, captain_bonus, played, captain_flag, vice_flag, settle, is_bench_boost,
  score_of, calculate_lineup_score,
}
use fantasy_xi.Scoring.Lineup.Points.{
  IsPlainSlot, captain_bonus_plain, captain_bonus-cons_plain, captain_bonus-cons_captain,
  settle-IsPlain, starters-IsPlain, bench-IsPlain,
}

-- A test that does not read the flag of a starter who was taken off.
abbrev IgnoresFlag : (PlayerScoreDetail → Bool) → Type 0
IgnoresFlag test = (s : PlayerScoreDetail) → test (mark_out s) ≡ test s

kept-inverts : (s d : PlayerScoreDetail) → IsSlotFor s (kept d) → d ≡ s
kept-inverts s d (inl same) = cc
kept-inverts s d (inr (b, same, _, _, _, _)) = cc

swapped-inverts :
    (s d b : PlayerScoreDetail)
    → IsSlotFor s (swapped d b)
    → (d ≡ mark_out s) × (s.minutes_played ≡ 0)
swapped-inverts s d b (inl same) = (cc, cc)
swapped-inverts s d b (inr (q, same, idle, _, _, _)) = (cc, idle)

played-find :
    (test : PlayerScoreDetail → Bool) (ss : List PlayerScoreDetail) (slots : List Slot)
    → IgnoresFlag test
    → AreSlotsFor ss slots
    → played (find test (originals slots)) ≡ played (find test ss)
played-find test [] [] ok h = refl
played-find test [] (slot ∷ slots) ok h = absurd h
played-find test (s ∷ ss) [] ok h = absurd h
played-find test (s ∷ ss) (kept d ∷ slots) ok h =
    rw (kept-inverts s d h.0) (ground (arith, played-find test ss slots ok h.1))
played-find test (s ∷ ss) (swapped d b ∷ slots) ok h =
    let (out, idle) = swapped-inverts s d b h.0 in
    rw out (ground (arith, played-find test ss slots ok h.1, ok s))

find-cons :
    (test : PlayerScoreDetail → Bool) (s : PlayerScoreDetail) (ss : List PlayerScoreDetail)
    (c : PlayerScoreDetail)
    → find test (s ∷ ss) ≡ some c
    → ((test s ≡ true) × (c ≡ s)) ⊎ ((test s ≡ false) × (find test ss ≡ some c))
find-cons test s ss c e = ground arith

-- The player who is marked counts with his extra points, if he played.
captain_bonus-mark_captain :
    (test : PlayerScoreDetail → Bool) (chip : Option ChipType) (ss : List PlayerScoreDetail)
    (slots : List Slot) (c : PlayerScoreDetail)
    → IgnoresFlag test
    → AreSlotsFor ss slots
    → All IsPlainSlot slots
    → find test ss ≡ some c
    → 0 < c.minutes_played
    → captain_bonus (pos 0) (actives (mark_captain test (captain_multiplier chip) slots))
      ≡ c.raw_points *ℤ pos (captain_multiplier chip - 1)
unfolding mark_captain
captain_bonus-mark_captain test chip [] slots c ok h plain e on = cc
captain_bonus-mark_captain test chip (s ∷ ss) [] c ok h plain e on = absurd h
captain_bonus-mark_captain test chip (s ∷ ss) (kept d ∷ slots) c ok h plain e on =
    let same = kept-inverts s d h.0 in
    elim (find-cons test s ss c e) [
      | inl (hit, this) ↦
          let hit' : test d ≡ true = rw same hit in
          rw (hit', this)
            (captain_bonus-cons_captain chip (pos 0) d (actives slots)
              ∙ captain_bonus_plain _ slots plain.1
              ∙ ap (λ (q : PlayerScoreDetail). q.raw_points *ℤ pos (captain_multiplier chip - 1))
                  same)
      | inr (miss, found) ↦
          let miss' : test d ≡ false = rw same miss in
          rw miss' (
            captain_bonus-cons_plain (pos 0) d _ plain.0.0
            ∙ captain_bonus-mark_captain test chip ss slots c ok h.1 plain.1 found on)
    ]
captain_bonus-mark_captain test chip (s ∷ ss) (swapped d b ∷ slots) c ok h plain e on =
    let (out, idle) = swapped-inverts s d b h.0 in
    elim (find-cons test s ss c e) [
      | inl (hit, this) ↦
          let idle' : c.minutes_played ≡ 0 =
            ap (λ (q : PlayerScoreDetail). q.minutes_played) this ∙ idle in
          absurd (omega arith)
      | inr (miss, found) ↦
          let miss' : test d ≡ false = ap test out ∙ ok s ∙ miss in
          rw miss' (
            captain_bonus-cons_plain (pos 0) b _ plain.0.0
            ∙ captain_bonus-mark_captain test chip ss slots c ok h.1 plain.1 found on)
    ]

-- The captain if he played, else the vice-captain if he did.
abbrev pub effective_captain : List PlayerScoreDetail → Option PlayerScoreDetail
effective_captain starters =
    if played (find captain_flag starters)
    then find captain_flag starters
    else if played (find vice_flag starters)
    then find vice_flag starters
    else none

kept-AreSlotsFor : (ss : List PlayerScoreDetail) → AreSlotsFor ss (map kept ss)
kept-AreSlotsFor [] = tt
kept-AreSlotsFor (s ∷ ss) = (inl refl, kept-AreSlotsFor ss)

settle-AreSlotsFor :
    (chip : Option ChipType) (starters bench : List PlayerScoreDetail)
    → AreSlotsFor starters (settle chip starters bench).0
unfolding settle
settle-AreSlotsFor chip starters bench = elim (Bool-cases (is_bench_boost chip)) [
  | inl boosted ↦ rw boosted (kept-AreSlotsFor starters)
  | inr plain ↦ rw plain (resolve-AreSlotsFor starters bench).0
]

played-some :
    (o : Option PlayerScoreDetail) (c : PlayerScoreDetail)
    → played o ≡ true
    → o ≡ some c
    → 0 < c.minutes_played
played-some o c p e = ground arith

captain_bonus-apply_captain :
    (chip : Option ChipType) (ss : List PlayerScoreDetail) (slots : List Slot)
    (c : PlayerScoreDetail)
    → AreSlotsFor ss slots
    → All IsPlainSlot slots
    → effective_captain ss ≡ some c
    → captain_bonus (pos 0) (actives (apply_captain chip slots))
      ≡ c.raw_points *ℤ pos (captain_multiplier chip - 1)
unfolding apply_captain
captain_bonus-apply_captain chip ss slots c h plain e =
    let by_captain = played-find captain_flag ss slots (λ s. refl) h in
    let by_vice = played-find vice_flag ss slots (λ s. refl) h in
    elim (Bool-cases (played (find captain_flag ss))) [
      | inl on ↦
          let found : find captain_flag ss ≡ some c = ground arith in
          rw (by_captain ∙ on) (
            captain_bonus-mark_captain captain_flag chip ss slots c (λ s. refl) h plain found
              (played-some _ c on found))
      | inr off ↦ elim (Bool-cases (played (find vice_flag ss))) [
        | inl on ↦
            let found : find vice_flag ss ≡ some c = ground arith in
            rw (by_captain ∙ off, by_vice ∙ on)
              (captain_bonus-mark_captain vice_flag chip ss slots c (λ s. refl) h plain found
                (played-some _ c on found))
        | inr idle ↦ let nobody = rw (off, idle) at e in cc
      ]
    ]

-- The captain's extra points: if the captain of the starting eleven played, or else the
-- vice-captain did, that player's points count once more, and twice more with the triple-captain
-- chip.
pub calculate_lineup_score-captain :
    (players : List LineupPlayer) (stats : Dict ℕ GameweekStats) (chip : Option ChipType) (cost : ℕ)
    (c : PlayerScoreDetail)
    → effective_captain (starter_details stats players) ≡ some c
    → (calculate_lineup_score players stats chip cost).captain_points
      ≡ c.raw_points *ℤ pos (captain_multiplier chip - 1)
unfolding calculate_lineup_score score_of
calculate_lineup_score-captain players stats chip cost c e =
    let starters = starter_details stats players in
    let bench = bench_details stats players in
    captain_bonus-apply_captain chip starters (settle chip starters bench).0 c
      (settle-AreSlotsFor chip starters bench)
      (settle-IsPlain chip starters bench (starters-IsPlain stats players)
        (bench-IsPlain stats players))
      e
