-- ===== src/Scoring/AutoSub/Formation.antt =====
-- Every eleven that the loop passes through has a valid formation, if the first has.
use fantasy_xi.Prelude.{
  ◌+◌, ◌≤◌, ◌≡◌, inl, inr, true, List, [], ◌∷◌, ◌++◌, append_assoc, append-nil, map-append, arith,
}
use fantasy_xi.Rules.{Position, gkp, def, mid, fwd, min_starters}
use fantasy_xi.Scoring.AutoSub.{
  PlayerScoreDetail, Slot, active, actives, mark_in, count, count_formation, next_count,
  is_eligible, resolve_one, resolve_from, resolve_auto_substitutions,
}
use fantasy_xi.Scoring.AutoSub.Laws.{IsRound, resolve_one-IsRound}

-- At least 1 goalkeeper, 3 defenders, 2 midfielders and 1 forward.
abbrev pub HasValidFormation : List PlayerScoreDetail → Type 0
HasValidFormation ps =
    (min_starters gkp ≤ count gkp ps)
    × (min_starters def ≤ count def ps)
    × (min_starters mid ≤ count mid ps)
    × (min_starters fwd ≤ count fwd ps)

count-append :
    (pos : Position) (xs ys : List PlayerScoreDetail)
    → count pos (xs ++ ys) ≡ count pos xs + count pos ys
count-append pos [] ys = omega arith
count-append pos (x ∷ xs) ys = omega (arith, count-append pos xs ys)

-- Putting a player in a starter's place changes the counts as `next_count` says.
count-swap :
    (pos : Position) (xs ys : List PlayerScoreDetail) (s b : PlayerScoreDetail)
    → count pos (xs ++ mark_in b ∷ ys) ≡ next_count pos s b (count pos (xs ++ s ∷ ys))
count-swap pos xs ys s b =
    ground (arith, count-append pos xs (mark_in b ∷ ys), count-append pos xs (s ∷ ys))

eligible-HasValidFormation :
    (xs ys : List PlayerScoreDetail) (s b : PlayerScoreDetail)
    → is_eligible s (count_formation (xs ++ s ∷ ys)) b ≡ true
    → HasValidFormation (xs ++ s ∷ ys)
    → HasValidFormation (xs ++ mark_in b ∷ ys)
unfolding is_eligible count_formation
eligible-HasValidFormation xs ys s b e h = ground (
  arith,
  count-swap gkp xs ys s b,
  count-swap def xs ys s b,
  count-swap mid xs ys s b,
  count-swap fwd xs ys s b,
)

round-HasValidFormation :
    (settled : List Slot) (s : PlayerScoreDetail) (ss bench : List PlayerScoreDetail)
    (r : Slot × List PlayerScoreDetail)
    → IsRound s (count_formation (actives settled ++ s ∷ ss)) bench r
    → HasValidFormation (actives settled ++ s ∷ ss)
    → HasValidFormation (actives (settled ++ r.0 ∷ []) ++ ss)
round-HasValidFormation settled s ss bench r round h =
    rw (map-append active settled (r.0 ∷ []), append_assoc (actives settled) (active r.0 ∷ []) ss)
      (eleven round)
  where
    eleven :
        IsRound s (count_formation (actives settled ++ s ∷ ss)) bench r
        → HasValidFormation (actives settled ++ active r.0 ∷ ss)
    eleven (inl same) = rw same h
    eleven (inr (p, slot, idle, f)) =
        rw (slot, f.marked) (eligible-HasValidFormation (actives settled) ss s f.chosen f.passes h)

resolve_from-HasValidFormation :
    (settled : List Slot) (ss bench : List PlayerScoreDetail)
    → HasValidFormation (actives settled ++ ss)
    → HasValidFormation (actives (resolve_from settled ss bench).0)
unfolding resolve_from
resolve_from-HasValidFormation settled [] bench h = rw (← append-nil (actives settled)) h
resolve_from-HasValidFormation settled (s ∷ ss) bench h =
    let counts = count_formation (actives settled ++ s ∷ ss) in
    let r = resolve_one s counts bench in
    resolve_from-HasValidFormation (settled ++ r.0 ∷ []) ss r.1
      (round-HasValidFormation settled s ss bench r (resolve_one-IsRound s counts bench) h)

-- Automatic substitutions never break the formation: if the starting eleven has at least 1
-- goalkeeper, 3 defenders, 2 midfielders and 1 forward, so has the eleven after them.
pub resolve-HasValidFormation :
    (ss bench : List PlayerScoreDetail)
    → HasValidFormation ss
    → HasValidFormation (actives (resolve_auto_substitutions ss bench).0)
unfolding resolve_auto_substitutions
resolve-HasValidFormation ss bench h = resolve_from-HasValidFormation [] ss bench h
