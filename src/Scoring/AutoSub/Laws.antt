-- ===== src/Scoring/AutoSub/Laws.antt =====
-- What one substitution, and the whole loop, does to the slots and to the bench.
use fantasy_xi.Prelude.{
  subst, append-nil, if◌then◌else◌, ℕ, suc, ◌+◌, ◌<◌, ◌≡◌, ◌↔◌, ◌⊎◌, inl, inr, refl, ap, ◌∙◌, Bool,
  true, false, Bool-cases, Option-cases, some, List, [], ◌∷◌, ◌++◌, append_assoc, arith, All,
  All-append, ltb,
}
use fantasy_xi.Rules.{gkp, same_position, same_position_iff}
use fantasy_xi.Scoring.AutoSub.{
  PlayerScoreDetail, FormationCounts, Slot, kept, swapped, active, actives, mark_in, mark_out,
  bring_on, is_eligible, resolve_one, resolve_from, resolve_auto_substitutions, count_formation,
}

-- The first bench player who passes the test, in bench order, with his flag set.
pub record IsFirst (test : PlayerScoreDetail → Bool) (bench : List PlayerScoreDetail)
    (p : PlayerScoreDetail) (bench' : List PlayerScoreDetail) : Type 0 where
  pub before : List PlayerScoreDetail
  pub chosen : PlayerScoreDetail
  pub after : List PlayerScoreDetail
  pub split : bench ≡ before ++ chosen ∷ after
  pub split' : bench' ≡ before ++ mark_in chosen ∷ after
  pub passed_over : All (λ b. test b ≡ false) before
  pub passes : test chosen ≡ true
  pub marked : p ≡ mark_in chosen

bring_on-IsFirst :
    (test : PlayerScoreDetail → Bool) (bench : List PlayerScoreDetail) (p : PlayerScoreDetail)
    (bench' : List PlayerScoreDetail)
    → bring_on test bench ≡ some (p, bench')
    → IsFirst test bench p bench'
unfolding bring_on
bring_on-IsFirst test [] p bench' e = absurd (ground arith)
bring_on-IsFirst test (b ∷ bench) p bench' e = elim (Bool-cases (test b)) [
  | inl here ↦ record {
    before = [];
    chosen = b;
    after = bench;
    split = refl;
    split' = ground arith;
    passed_over = tt;
    passes = here;
    marked = ground arith;
  }
  | inr later ↦ elim (Option-cases (bring_on test bench)) [
    | inl nobody ↦ absurd (ground arith)
    | inr ((q, rest), found) ↦
        let f = bring_on-IsFirst test bench q rest found in
        record {
          before = b ∷ f.before;
          chosen = f.chosen;
          after = f.after;
          split = ap (◌∷◌ b) f.split;
          split' = ground (arith, f.split');
          passed_over = (later, f.passed_over);
          passes = f.passes;
          marked = ground (arith, f.marked);
        }
  ]
]

-- What a slot may hold for a starter: the starter, or a substitute for one who did not play. The
-- substitute played, was not on yet, and keeps goal exactly if the starter did.
abbrev pub IsSlotFor : PlayerScoreDetail → Slot → Type 0
IsSlotFor s slot =
    (slot ≡ kept s)
    ⊎ ((b : PlayerScoreDetail) × (slot ≡ swapped (mark_out s) (mark_in b))
        × (s.minutes_played ≡ 0)
        × (0 < b.minutes_played)
        × (b.subbed_in ≡ false)
        × ((s.position ≡ gkp) ↔ (b.position ≡ gkp)))

pub eligible_facts :
    (s : PlayerScoreDetail) (counts : FormationCounts) (b : PlayerScoreDetail)
    → is_eligible s counts b ≡ true
    → (0 < b.minutes_played)
      × (b.subbed_in ≡ false)
      × (same_position s.position gkp ≡ same_position b.position gkp)
unfolding is_eligible
eligible_facts s counts b e = ground arith

-- A round keeps the starter and the bench, or puts on the first eligible player of the bench.
abbrev pub IsRound :
    PlayerScoreDetail
    → FormationCounts
    → List PlayerScoreDetail
    → Slot × List PlayerScoreDetail
    → Type 0
IsRound s counts bench r =
    (r ≡ (kept s, bench))
    ⊎ ((p : PlayerScoreDetail) × (r.0 ≡ swapped (mark_out s) p)
        × (s.minutes_played ≡ 0)
        × IsFirst (is_eligible s counts) bench p r.1)

pub resolve_one-IsRound :
    (s : PlayerScoreDetail) (counts : FormationCounts) (bench : List PlayerScoreDetail)
    → IsRound s counts bench (resolve_one s counts bench)
unfolding resolve_one
resolve_one-IsRound s counts bench = elim (Bool-cases (ltb 0 s.minutes_played)) [
  | inl played ↦ inl (rw (played, resolve_one) refl)
  | inr idle ↦ elim (Option-cases (bring_on (is_eligible s counts) bench)) [
    | inl nobody ↦ inl (ground (arith, idle, nobody))
    | inr ((p, bench'), found) ↦ inr (
      p,
      ground (arith, idle, found),
      ground arith,
      subst (λ (b : List PlayerScoreDetail). IsFirst (is_eligible s counts) bench p b)
          (ground (arith, idle, found))
          (bring_on-IsFirst (is_eligible s counts) bench p bench' found),
    )
  ]
]

pub IsRound-IsSlotFor :
    (s : PlayerScoreDetail) (counts : FormationCounts) (bench : List PlayerScoreDetail)
    (r : Slot × List PlayerScoreDetail)
    → IsRound s counts bench r
    → IsSlotFor s r.0
IsRound-IsSlotFor s counts bench r (inl same) =
    inl (ap (λ (q : Slot × List PlayerScoreDetail). q.0) same)
IsRound-IsSlotFor s counts bench r (inr (p, slot, idle, f)) =
    let (played, fresh, keeper) = eligible_facts s counts f.chosen f.passes in
    inr (
      f.chosen,
      slot ∙ ap (swapped (mark_out s)) f.marked,
      idle,
      played,
      fresh,
      ground (arith, same_position_iff s.position gkp, same_position_iff f.chosen.position gkp),
    )

-- One slot for each starter, in order.
abbrev pub AreSlotsFor : List PlayerScoreDetail → List Slot → Type 0
AreSlotsFor [] [] = Unit
AreSlotsFor (s ∷ ss) (slot ∷ slots) = IsSlotFor s slot × AreSlotsFor ss slots
AreSlotsFor _ _ = ⊥

AreSlotsFor-append :
    (ss ts : List PlayerScoreDetail) (xs ys : List Slot)
    → AreSlotsFor ss xs
    → AreSlotsFor ts ys
    → AreSlotsFor (ss ++ ts) (xs ++ ys)
AreSlotsFor-append [] ts [] ys h k = k
AreSlotsFor-append [] ts (x ∷ xs) ys h k = absurd h
AreSlotsFor-append (s ∷ ss) ts [] ys h k = absurd h
AreSlotsFor-append (s ∷ ss) ts (x ∷ xs) ys h k = (h.0, AreSlotsFor-append ss ts xs ys h.1 k)

resolve_from-AreSlotsFor :
    (earlier : List PlayerScoreDetail) (settled : List Slot) (ss bench : List PlayerScoreDetail)
    → AreSlotsFor earlier settled
    → AreSlotsFor (earlier ++ ss) (resolve_from settled ss bench).0
unfolding resolve_from
resolve_from-AreSlotsFor earlier settled [] bench h = rw (append-nil earlier) h
resolve_from-AreSlotsFor earlier settled (s ∷ ss) bench h =
    let counts = count_formation (actives settled ++ s ∷ ss) in
    let slot =
      IsRound-IsSlotFor s counts bench (resolve_one s counts bench)
        (resolve_one-IsRound s counts bench) in
    let r = resolve_one s counts bench in
    subst
      (λ (all : List PlayerScoreDetail).
        AreSlotsFor all (resolve_from (settled ++ r.0 ∷ []) ss r.1).0)
      (append_assoc earlier (s ∷ []) ss)
      (resolve_from-AreSlotsFor (earlier ++ s ∷ []) (settled ++ r.0 ∷ []) ss r.1
        (AreSlotsFor-append earlier (s ∷ []) settled (r.0 ∷ []) h (slot, tt)))

-- Bench players who are on, and slots with a substitute.
abbrev pub subs_on : List PlayerScoreDetail → ℕ
subs_on [] = 0
subs_on (b ∷ bs) = (if b.subbed_in then 1 else 0) + subs_on bs

abbrev pub swaps : List Slot → ℕ
swaps [] = 0
swaps (kept p ∷ slots) = swaps slots
swaps (swapped out p ∷ slots) = suc (swaps slots)

subs_on-append : (bs cs : List PlayerScoreDetail) → subs_on (bs ++ cs) ≡ subs_on bs + subs_on cs
subs_on-append [] cs = omega arith
subs_on-append (b ∷ bs) cs = omega (arith, subs_on-append bs cs)

swaps-append : (xs ys : List Slot) → swaps (xs ++ ys) ≡ swaps xs + swaps ys
swaps-append [] ys = omega arith
swaps-append (kept p ∷ xs) ys = swaps-append xs ys
swaps-append (swapped out p ∷ xs) ys = omega (arith, swaps-append xs ys)

resolve_one-subs_on :
    (s : PlayerScoreDetail) (counts : FormationCounts) (bench : List PlayerScoreDetail)
    (r : Slot × List PlayerScoreDetail)
    → IsRound s counts bench r
    → subs_on r.1 ≡ subs_on bench + swaps (r.0 ∷ [])
resolve_one-subs_on s counts bench r (inl same) = rw same (omega arith)
resolve_one-subs_on s counts bench r (inr (p, slot, idle, f)) =
    let (_, fresh, _) = eligible_facts s counts f.chosen f.passes in
    rw (slot, f.split, f.split')
      (ground (
        arith,
        fresh,
        subs_on-append f.before (f.chosen ∷ f.after),
        subs_on-append f.before (mark_in f.chosen ∷ f.after),
      ))

resolve_from-subs_on :
    (settled : List Slot) (ss bench : List PlayerScoreDetail)
    → subs_on (resolve_from settled ss bench).1 + swaps settled
      ≡ subs_on bench + swaps (resolve_from settled ss bench).0
unfolding resolve_from
resolve_from-subs_on settled [] bench = refl
resolve_from-subs_on settled (s ∷ ss) bench =
    let counts = count_formation (actives settled ++ s ∷ ss) in
    let r = resolve_one s counts bench in
    omega (
      arith,
      resolve_from-subs_on (settled ++ r.0 ∷ []) ss r.1,
      resolve_one-subs_on s counts bench r (resolve_one-IsRound s counts bench),
      swaps-append settled (r.0 ∷ []),
    )

pub resolve-AreSlotsFor :
    (ss bench : List PlayerScoreDetail)
    → AreSlotsFor ss (resolve_auto_substitutions ss bench).0
      × (subs_on (resolve_auto_substitutions ss bench).1
          ≡ subs_on bench + swaps (resolve_auto_substitutions ss bench).0)
unfolding resolve_auto_substitutions
resolve-AreSlotsFor ss bench =
    (resolve_from-AreSlotsFor [] [] ss bench tt, omega (arith, resolve_from-subs_on [] ss bench))

-- What holds of all starters and of the bench, whatever their flags, holds of all slots.
module _ {ℓ} (P : PlayerScoreDetail → Type ℓ)
    (flagged : (b : PlayerScoreDetail) → P b → P (mark_in b)) where
  pub All-middle :
      (xs ys : List PlayerScoreDetail) (b c : PlayerScoreDetail)
      → (P b → P c)
      → All P (xs ++ b ∷ ys)
      → P b × All P (xs ++ c ∷ ys)
  All-middle [] ys b c f h = (h.0, (f h.0, h.1))
  All-middle (x ∷ xs) ys b c f h =
      let (chosen, rest) = All-middle xs ys b c f h.1 in (chosen, (h.0, rest))

  round-All :
      (s : PlayerScoreDetail) (counts : FormationCounts) (bench : List PlayerScoreDetail)
      (r : Slot × List PlayerScoreDetail)
      → IsRound s counts bench r
      → P s
      → All P bench
      → P (active r.0) × All P r.1
  round-All s counts bench r (inl same) h k = rw same (h, k)
  round-All s counts bench r (inr (p, slot, idle, f)) h k =
      let (chosen, rest) =
        All-middle f.before f.after f.chosen (mark_in f.chosen) (flagged f.chosen)
          (rw f.split at k) in
      rw (slot, f.marked, f.split') (flagged f.chosen chosen, rest)

  resolve_from-All :
      (settled : List Slot) (ss bench : List PlayerScoreDetail)
      → All (λ slot. P (active slot)) settled
      → All P ss
      → All P bench
      → All (λ slot. P (active slot)) (resolve_from settled ss bench).0
  unfolding resolve_from
  resolve_from-All settled [] bench done h k = done
  resolve_from-All settled (s ∷ ss) bench done h k =
      let counts = count_formation (actives settled ++ s ∷ ss) in
      let r = resolve_one s counts bench in
      let (here, bench') = round-All s counts bench r (resolve_one-IsRound s counts bench) h.0 k in
      resolve_from-All (settled ++ r.0 ∷ []) ss r.1
        (All-append (λ slot. P (active slot)) settled (r.0 ∷ []) done (here, tt)) h.1 bench'

  pub resolve-All :
      (ss bench : List PlayerScoreDetail)
      → All P ss
      → All P bench
      → All (λ slot. P (active slot)) (resolve_auto_substitutions ss bench).0
  unfolding resolve_auto_substitutions
  resolve-All ss bench h k = resolve_from-All [] ss bench tt h k
