-- ===== src/Scoring/Lineup.antt =====
-- `calculateLineupScore` and `resolveHeadToHead` of
-- backend/src/services/scoring/scoringService.ts, without a league's own scoring config (see
-- Scoring/Scorer). Points are integers; the statistics of a player are looked up in a map.
mod Bench
mod Points
mod Captain
mod Tests
use fantasy_xi.Prelude.{
  ℕ, ◌+◌, ◌-◌, Bool, true, false, not, ◌&&◌, ◌||◌, Option, none, some, List, [], ◌∷◌, ◌++◌, map,
  ltb, ◌==◌, if◌then◌else◌, filter, find,
}
use fantasy_xi.Prelude.Int.{ℤ, pos, ◌+ℤ◌, ◌-ℤ◌, ◌*ℤ◌, ltb_ℤ}
use fantasy_xi.Prelude.Dict.{Dict, get, nat_eq}
use fantasy_xi.Prelude.Sort.{sort_by}
use fantasy_xi.Rules.{Position, ChipType, wildcard, free_hit, bench_boost, triple_captain}
use fantasy_xi.Scoring.AutoSub.{
  PlayerScoreDetail, Slot, kept, swapped, original, originals, actives, resolve_auto_substitutions,
}

pub record LineupPlayer : Type 0 where
  pub player_id : ℕ
  pub position : Position
  pub is_starter : Bool
  pub is_captain : Bool
  pub is_vice_captain : Bool
  pub position_order : ℕ

-- The two statistics that the score is computed from.
pub record GameweekStats : Type 0 where
  pub minutes : ℕ
  pub total_points : ℤ

pub record LineupScore : Type 0 where
  pub starting_points : ℤ
  pub bench_points : ℤ
  pub captain_points : ℤ
  pub transfer_cost : ℕ
  pub total_points : ℤ
  pub details : List PlayerScoreDetail

abbrev pub stats_or_zero : Option GameweekStats → GameweekStats
stats_or_zero none = record { minutes = 0; total_points = pos 0 }
stats_or_zero (some s) = s

pub detail_of : Dict ℕ GameweekStats → LineupPlayer → PlayerScoreDetail
detail_of stats p =
    let s = stats_or_zero (get stats p.player_id) in
    record {
      player_id = p.player_id;
      position = p.position;
      is_starter = p.is_starter;
      is_captain = p.is_captain;
      is_vice_captain = p.is_vice_captain;
      position_order = p.position_order;
      minutes_played = s.minutes;
      raw_points = s.total_points;
      multiplier = 1;
      effective_points = s.total_points;
      subbed_in = false;
      subbed_out = false;
    }

abbrev pub by_order : List PlayerScoreDetail → List PlayerScoreDetail
by_order = sort_by (λ d. d.position_order)

pub starter_details : Dict ℕ GameweekStats → List LineupPlayer → List PlayerScoreDetail
unfolding detail_of
starter_details stats players =
    by_order (map (detail_of stats) (filter (λ p. p.is_starter) players))

pub bench_details : Dict ℕ GameweekStats → List LineupPlayer → List PlayerScoreDetail
unfolding detail_of
bench_details stats players =
    by_order (map (detail_of stats) (filter (λ p. not p.is_starter) players))

abbrev pub is_bench_boost : Option ChipType → Bool
is_bench_boost (some bench_boost) = true
is_bench_boost _ = false

abbrev pub captain_multiplier : Option ChipType → ℕ
captain_multiplier (some triple_captain) = 3
captain_multiplier _ = 2

abbrev pub transfer_cost_after : Option ChipType → ℕ → ℕ
transfer_cost_after (some wildcard) cost = 0
transfer_cost_after (some free_hit) cost = 0
transfer_cost_after _ cost = cost

abbrev pub captained : ℕ → PlayerScoreDetail → PlayerScoreDetail
captained m d = record d { multiplier = m; effective_points = d.raw_points *ℤ pos m }

abbrev pub captained_slot : ℕ → Slot → Slot
captained_slot m (kept d) = kept (captained m d)
captained_slot m (swapped out substitute) = swapped (captained m out) substitute

-- The mutation of the first starter who passes the test, an object that a slot may share.
pub mark_captain : (PlayerScoreDetail → Bool) → ℕ → List Slot → List Slot
mark_captain test m [] = []
mark_captain test m (slot ∷ slots) =
    if test (original slot) then captained_slot m slot ∷ slots else slot ∷ mark_captain test m slots

abbrev pub played : Option PlayerScoreDetail → Bool
played none = false
played (some d) = ltb 0 d.minutes_played

abbrev pub captain_flag : PlayerScoreDetail → Bool
captain_flag d = d.is_captain

abbrev pub vice_flag : PlayerScoreDetail → Bool
vice_flag d = d.is_vice_captain

-- The captain if he played, else the vice-captain if he did, else the captain; with no captain and
-- no vice-captain who played, `mark_captain` finds nobody.
pub apply_captain : Option ChipType → List Slot → List Slot
unfolding mark_captain
apply_captain chip slots =
    if played (find captain_flag (originals slots))
    then mark_captain captain_flag (captain_multiplier chip) slots
    else if played (find vice_flag (originals slots))
    then mark_captain vice_flag (captain_multiplier chip) slots
    else mark_captain captain_flag (captain_multiplier chip) slots

abbrev pub sum_ℤ : List ℤ → ℤ
sum_ℤ [] = pos 0
sum_ℤ (x ∷ xs) = x +ℤ sum_ℤ xs

-- The loop's assignment: the last player with a multiplier above 1 decides.
pub captain_bonus : ℤ → List PlayerScoreDetail → ℤ
captain_bonus bonus [] = bonus
captain_bonus bonus (d ∷ ds) =
    captain_bonus (if ltb 1 d.multiplier then d.raw_points *ℤ pos (d.multiplier - 1) else bonus) ds

abbrev pub effectives : List PlayerScoreDetail → ℤ
effectives ds = sum_ℤ (map (λ d. d.effective_points) ds)

abbrev pub raws : List PlayerScoreDetail → ℤ
raws ds = sum_ℤ (map (λ d. d.raw_points) ds)

pub settle :
    Option ChipType
    → List PlayerScoreDetail
    → List PlayerScoreDetail
    → List Slot × List PlayerScoreDetail
settle chip starters bench =
    if is_bench_boost chip
    then (map kept starters, bench)
    else resolve_auto_substitutions starters bench

pub score_of : Option ChipType → ℕ → List Slot → List PlayerScoreDetail → LineupScore
score_of chip cost slots bench =
    let starting = effectives (actives slots) in
    let benched = raws (filter (λ b. not b.subbed_in) bench) in
    let paid = transfer_cost_after chip cost in
    record {
      starting_points = starting;
      bench_points = benched;
      captain_points = captain_bonus (pos 0) (actives slots);
      transfer_cost = paid;
      total_points = starting +ℤ (if is_bench_boost chip then benched else pos 0) -ℤ pos paid;
      details = by_order (originals slots ++ bench);
    }

pub calculate_lineup_score :
    List LineupPlayer → Dict ℕ GameweekStats → Option ChipType → ℕ → LineupScore
calculate_lineup_score players stats chip cost =
    let settled = settle chip (starter_details stats players) (bench_details stats players) in
    score_of chip cost (apply_captain chip settled.0) settled.1

-- Win 3, draw 1 each, loss 0: the home and the away points.
pub resolve_head_to_head : ℤ → ℤ → ℕ × ℕ
resolve_head_to_head home away =
    if ltb_ℤ away home then (3, 0) else if ltb_ℤ home away then (0, 3) else (1, 1)
