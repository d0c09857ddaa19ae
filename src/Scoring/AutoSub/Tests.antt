-- ===== src/Scoring/AutoSub/Tests.antt =====
-- Substitutions in a concrete squad, and the theorems at it.
use fantasy_xi.Prelude.{ℕ, ◌≡◌, refl, true, false, List, [], ◌∷◌, map, arith}
use fantasy_xi.Prelude.Int.{pos}
use fantasy_xi.Rules.{Position, gkp, def, mid, fwd}
use fantasy_xi.Scoring.AutoSub.{
  PlayerScoreDetail, actives, is_eligible, resolve_one, count_formation, resolve_from,
  resolve_auto_substitutions,
}
use fantasy_xi.Scoring.AutoSub.Formation.{HasValidFormation, resolve-HasValidFormation}

abbrev pub detail : ℕ → Position → ℕ → PlayerScoreDetail
detail id position minutes = record {
  player_id = id;
  position = position;
  is_starter = true;
  is_captain = false;
  is_vice_captain = false;
  position_order = id;
  minutes_played = minutes;
  raw_points = pos minutes;
  multiplier = 1;
  effective_points = pos minutes;
  subbed_in = false;
  subbed_out = false;
}

-- Three defenders, one of them idle: only a defender may replace him; the idle keeper is replaced
-- by the keeper of the bench.
abbrev pub eleven : List PlayerScoreDetail
eleven =
    detail 1 gkp 0
    ∷ detail 2 def 90
    ∷ detail 3 def 0
    ∷ detail 4 def 90
    ∷ detail 5 mid 90
    ∷ detail 6 mid 90
    ∷ detail 7 mid 90
    ∷ detail 8 mid 0
    ∷ detail 9 fwd 90
    ∷ detail 10 fwd 90
    ∷ detail 11 fwd 90
    ∷ []

abbrev pub bench : List PlayerScoreDetail
bench = detail 12 gkp 90 ∷ detail 13 mid 0 ∷ detail 14 fwd 20 ∷ detail 15 def 90 ∷ []

substituted :
    map (λ d. d.player_id) (actives (resolve_auto_substitutions eleven bench).0)
    ≡ 12 ∷ 2 ∷ 15 ∷ 4 ∷ 5 ∷ 6 ∷ 7 ∷ 14 ∷ 9 ∷ 10 ∷ 11 ∷ []
unfolding resolve_auto_substitutions resolve_from resolve_one is_eligible count_formation
substituted = refl

resolve-HasValidFormation_example :
    HasValidFormation (actives (resolve_auto_substitutions eleven bench).0)
resolve-HasValidFormation_example = resolve-HasValidFormation eleven bench (omega arith)
