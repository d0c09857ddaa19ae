-- ===== src/Scoring/AutoSub.antt =====
-- AutoSubstitutionEngine of backend/src/services/scoring/scoringService.ts.
-- The engine mutates the flags of objects that the starters' array and the resulting eleven share.
-- A slot holds each starter once: `kept` stands for the same object in both arrays, `swapped` for a
-- starter and the bench player in his place; the two arrays are the views `originals` and `actives`.
pub mod Laws
pub mod Formation
mod Tests
use fantasy_xi.Prelude.{
  ℕ, ◌+◌, ◌-◌, Bool, true, false, not, ◌&&◌, ◌||◌, Option, none, some, List, [], ◌∷◌, ◌++◌, map,
  ltb, leb, ◌==◌, if◌then◌else◌, length, filter,
}
use fantasy_xi.Prelude.Int.{ℤ}
use fantasy_xi.Rules.{Position, gkp, def, mid, fwd, same_position, min_starters}

pub record PlayerScoreDetail : Type 0 where
  pub player_id : ℕ
  pub position : Position
  pub is_starter : Bool
  pub is_captain : Bool
  pub is_vice_captain : Bool
  pub position_order : ℕ
  pub minutes_played : ℕ
  pub raw_points : ℤ
  pub multiplier : ℕ
  pub effective_points : ℤ
  pub subbed_in : Bool
  pub subbed_out : Bool

pub record FormationCounts : Type 0 where
  pub gkp_count : ℕ
  pub def_count : ℕ
  pub mid_count : ℕ
  pub fwd_count : ℕ

abbrev pub count : Position → List PlayerScoreDetail → ℕ
count pos [] = 0
count pos (p ∷ ps) = (if same_position p.position pos then 1 else 0) + count pos ps

unfoldable pub count_formation : List PlayerScoreDetail → FormationCounts
count_formation players = record {
  gkp_count = count gkp players;
  def_count = count def players;
  mid_count = count mid players;
  fwd_count = count fwd players;
}

-- `count - (leaves ? 1 : 0) + (enters ? 1 : 0)`; a result below 0 fails the minimum as 0 does.
abbrev pub next_count : Position → PlayerScoreDetail → PlayerScoreDetail → ℕ → ℕ
next_count pos starter candidate n =
    n
    + (if same_position candidate.position pos then 1 else 0)
    - (if same_position starter.position pos then 1 else 0)

pub swap_keeps_formation_valid : PlayerScoreDetail → PlayerScoreDetail → FormationCounts → Bool
swap_keeps_formation_valid starter candidate counts =
    leb (min_starters gkp) (next_count gkp starter candidate counts.gkp_count)
    && leb (min_starters def) (next_count def starter candidate counts.def_count)
    && leb (min_starters mid) (next_count mid starter candidate counts.mid_count)
    && leb (min_starters fwd) (next_count fwd starter candidate counts.fwd_count)

pub data Slot : Type 0 where
  kept : PlayerScoreDetail → Slot
  swapped : (out substitute : PlayerScoreDetail) → Slot

abbrev pub original : Slot → PlayerScoreDetail
original (kept p) = p
original (swapped out substitute) = out

abbrev pub active : Slot → PlayerScoreDetail
active (kept p) = p
active (swapped out substitute) = substitute

abbrev pub originals : List Slot → List PlayerScoreDetail
originals = map original

abbrev pub actives : List Slot → List PlayerScoreDetail
actives = map active

abbrev pub mark_in : PlayerScoreDetail → PlayerScoreDetail
mark_in p = record p { subbed_in = true }

abbrev pub mark_out : PlayerScoreDetail → PlayerScoreDetail
mark_out p = record p { subbed_out = true }

-- The first bench player that passes the test comes on: he, and the bench with his flag set.
pub bring_on :
    (PlayerScoreDetail → Bool)
    → List PlayerScoreDetail
    → Option (PlayerScoreDetail × List PlayerScoreDetail)
bring_on test [] = none
bring_on test (b ∷ bench) =
    if test b
    then some (mark_in b, mark_in b ∷ bench)
    else elim (bring_on test bench) [ none ↦ none | some (p, rest) ↦ some (p, b ∷ rest) ]

-- The bench goalkeeper for a goalkeeper, and for others the first outfield player who played and
-- keeps the formation valid.
unfoldable pub is_eligible : PlayerScoreDetail → FormationCounts → PlayerScoreDetail → Bool
unfolding swap_keeps_formation_valid
is_eligible starter counts candidate =
    if same_position starter.position gkp
    then same_position candidate.position gkp
      && not candidate.subbed_in
      && ltb 0 candidate.minutes_played
    else not (
        same_position candidate.position gkp
        || candidate.subbed_in
        || candidate.minutes_played == 0)
      && swap_keeps_formation_valid starter candidate counts

-- One round of the loop: the slot of a starter, and the bench after it.
unfoldable pub resolve_one :
    PlayerScoreDetail → FormationCounts → List PlayerScoreDetail → Slot × List PlayerScoreDetail
unfolding bring_on
resolve_one starter counts bench =
    if ltb 0 starter.minutes_played
    then (kept starter, bench)
    else elim (bring_on (is_eligible starter counts) bench) [
      | none ↦ (kept starter, bench)
      | some (substitute, bench') ↦ (swapped (mark_out starter) substitute, bench')
    ]

-- The loop, with the slots that are settled; the counts are those of the eleven of this round.
unfoldable pub resolve_from :
    List Slot → List PlayerScoreDetail → List PlayerScoreDetail → List Slot × List PlayerScoreDetail
resolve_from settled [] bench = (settled, bench)
resolve_from settled (s ∷ starters) bench =
    let round = resolve_one s (count_formation (actives settled ++ s ∷ starters)) bench in
    resolve_from (settled ++ round.0 ∷ []) starters round.1

unfoldable pub resolve_auto_substitutions :
    List PlayerScoreDetail → List PlayerScoreDetail → List Slot × List PlayerScoreDetail
resolve_auto_substitutions starters bench = resolve_from [] starters bench
