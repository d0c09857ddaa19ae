-- ===== src/Squad/Correct.antt =====
-- The validator against the predicate of a legal squad.
use fantasy_xi.Prelude.{
  ℕ, ◌≡◌, ◌↔◌, ◌⊎◌, inl, inr, refl, some, List, [], ◌∷◌, ◌++◌, arith, All-filter,
}
use fantasy_xi.Rules.{def, mid, fwd}
use fantasy_xi.Squad.{
  SquadError, SquadPlayerSelection, PlayerForValidation, ValidatedSquad, Validation, valid, invalid,
  ids, starting, benched, captains, vice_captains, first_id, count_position, total_cost,
  roster_errors, lineup_errors, captain_errors, quota_errors, team_errors, team_counts_from,
  formation_errors, squad_errors, summary, judge, validate_squad, resolve,
}
use fantasy_xi.Squad.Legal.{IsLegal, HasCaptains}
use fantasy_xi.Squad.Lookup.{player_map, IsKnown, resolve_total, resolve-AreFound, resolve-IsKnown}
use fantasy_xi.Squad.Teams.{team_errors-count_team}
use fantasy_xi.Squad.Checks.{
  roster_errors_iff, lineup_errors_iff, captain_errors_iff, quota_errors_iff, formation_errors_iff,
}

append-eq-nil_iff {ℓ} : {A : Type ℓ} (xs ys : List A) → ((xs ++ ys) ≡ []) ↔ ((xs ≡ []) × (ys ≡ []))
append-eq-nil_iff [] ys = ground arith
append-eq-nil_iff (x ∷ xs) ys = ground arith

List-cases {ℓ} : {A : Type ℓ} (xs : List A) → (xs ≡ []) ⊎ ((y : A) × (ys : List A) × (xs ≡ y ∷ ys))
List-cases [] = inl refl
List-cases (x ∷ xs) = inr (x, xs, refl)

-- The result names the captains that the selections mark.
abbrev pub IsSummary :
    List SquadPlayerSelection
    → List PlayerForValidation
    → List PlayerForValidation
    → ValidatedSquad
    → Type 0
IsSummary ss chosen eleven r =
    (first_id (captains ss) ≡ some r.captain_id)
    × (first_id (vice_captains ss) ≡ some r.vice_captain_id)
    × (r.total_cost ≡ total_cost chosen)
    × (r.formation
        ≡ (count_position def eleven, count_position mid eleven, count_position fwd eleven))
    × (r.starter_ids ≡ ids (starting ss))
    × (r.bench_ids ≡ ids (benched ss))

summary_total :
    (ss : List SquadPlayerSelection) (chosen eleven : List PlayerForValidation)
    (cs vs : List SquadPlayerSelection)
    → captains ss ≡ cs
    → vice_captains ss ≡ vs
    → HasCaptains cs vs
    → (r : ValidatedSquad) × (summary ss chosen eleven ≡ valid r) × IsSummary ss chosen eleven r
unfolding summary
summary_total ss chosen eleven (c ∷ []) (v ∷ []) p q h = (
  record {
    total_cost = total_cost chosen;
    formation = (count_position def eleven, count_position mid eleven, count_position fwd eleven);
    starter_ids = ids (starting ss);
    bench_ids = ids (benched ss);
    captain_id = c.player_id;
    vice_captain_id = v.player_id;
  },
  ground arith,
  (ground arith, ground arith, refl, refl, refl, refl),
)
summary_total ss chosen eleven [] vs p q h = absurd h
summary_total ss chosen eleven (c ∷ []) [] p q h = absurd h
summary_total ss chosen eleven (c ∷ []) (v ∷ w ∷ vs) p q h = absurd h
summary_total ss chosen eleven (c ∷ d ∷ cs) vs p q h = absurd h

module _ (ss : List SquadPlayerSelection) (players : List PlayerForValidation) (budget : ℕ) where
  -- The rules that the second group of checks stands for.
  abbrev LaterRules : List PlayerForValidation → List PlayerForValidation → Type 0
  LaterRules chosen eleven =
      (lineup_errors (starting ss) (benched ss) ≡ [])
      × (captain_errors (captains ss) (vice_captains ss) ≡ [])
      × (quota_errors chosen budget ≡ [])
      × (team_errors (team_counts_from [] chosen) ≡ [])
      × (formation_errors eleven ≡ [])

  squad_errors_iff :
      (chosen eleven : List PlayerForValidation)
      → (squad_errors ss chosen eleven budget ≡ []) ↔ LaterRules chosen eleven
  unfolding squad_errors
  squad_errors_iff chosen eleven = ground (
    arith,
    append-eq-nil_iff (lineup_errors (starting ss) (benched ss)) _,
    append-eq-nil_iff (captain_errors (captains ss) (vice_captains ss)) _,
    append-eq-nil_iff (quota_errors chosen budget) _,
    append-eq-nil_iff (team_errors (team_counts_from [] chosen)) (formation_errors eleven),
  )

  HasCaptains_total :
      (cs vs : List SquadPlayerSelection) (chosen eleven : List PlayerForValidation)
      → captains ss ≡ cs
      → vice_captains ss ≡ vs
      → captain_errors (captains ss) (vice_captains ss) ≡ []
      → (r : ValidatedSquad) × (summary ss chosen eleven ≡ valid r) × IsSummary ss chosen eleven r
  HasCaptains_total cs vs chosen eleven p q h =
      summary_total ss chosen eleven cs vs p q
        (rw (p, q) at ((captain_errors_iff (captains ss) (vice_captains ss)).0 h))

  IsLegal-of_checks :
      (chosen eleven : List PlayerForValidation)
      → roster_errors ss (player_map players) ≡ []
      → resolve (player_map players) ss ≡ some chosen
      → resolve (player_map players) (starting ss) ≡ some eleven
      → squad_errors ss chosen eleven budget ≡ []
      → (l : IsLegal ss players budget) × (l.chosen ≡ chosen) × (l.eleven ≡ eleven)
  IsLegal-of_checks chosen eleven roster all some_eleven errors =
      let (fifteen, distinct, known) = (roster_errors_iff players ss).0 roster in
      let (lineup, captaincy, quota, clubs, formation) =
        (squad_errors_iff chosen eleven).0 errors in
      let (eleven_start, four) = (lineup_errors_iff (starting ss) (benched ss)).0 lineup in
      let (quotas, affordable) = (quota_errors_iff chosen budget).0 quota in
      let (keeper, enough) = (formation_errors_iff eleven).0 formation in
      (
        record {
          chosen = chosen;
          eleven = eleven;
          fifteen = fifteen;
          distinct = distinct;
          chosen_found = (resolve-AreFound players ss chosen).0 all;
          eleven_found = (resolve-AreFound players (starting ss) eleven).0 some_eleven;
          eleven_start = eleven_start;
          four_on_bench = four;
          captaincy = (captain_errors_iff (captains ss) (vice_captains ss)).0 captaincy;
          quotas = quotas;
          affordable = affordable;
          clubs = (team_errors-count_team chosen).0 clubs;
          one_keeper = keeper;
          formation = enough;
        },
        refl,
        refl,
      )

  checks_of_legal :
      (l : IsLegal ss players budget)
      → (roster_errors ss (player_map players) ≡ [])
        × (squad_errors ss l.chosen l.eleven budget ≡ [])
        × (resolve (player_map players) ss ≡ some l.chosen)
        × (resolve (player_map players) (starting ss) ≡ some l.eleven)
  checks_of_legal l =
      let found = (resolve-AreFound players ss l.chosen).1 l.chosen_found in
      (
        (roster_errors_iff players ss).1
            (l.fifteen, l.distinct, resolve-IsKnown players ss l.chosen found),
        (squad_errors_iff l.chosen l.eleven).1 (
          (lineup_errors_iff (starting ss) (benched ss)).1 (l.eleven_start, l.four_on_bench),
          (captain_errors_iff (captains ss) (vice_captains ss)).1 l.captaincy,
          (quota_errors_iff l.chosen budget).1 (l.quotas, l.affordable),
          (team_errors-count_team l.chosen).1 l.clubs,
          (formation_errors_iff l.eleven).1 (l.one_keeper, l.formation),
        ),
        found,
        (resolve-AreFound players (starting ss) l.eleven).1 l.eleven_found,
      )

  -- What the validator answers.
  abbrev pub IsDecided : Validation → Type 0
  IsDecided v =
      ((l : IsLegal ss players budget) × (r : ValidatedSquad) × (v ≡ valid r)
        × IsSummary ss l.chosen l.eleven r)
      ⊎ ((¬ IsLegal ss players budget)
          × (e : SquadError) × (es : List SquadError) × (v ≡ invalid (e ∷ es)))

  judge-IsDecided :
      (chosen eleven : List PlayerForValidation)
      → roster_errors ss (player_map players) ≡ []
      → resolve (player_map players) ss ≡ some chosen
      → resolve (player_map players) (starting ss) ≡ some eleven
      → IsDecided (judge ss budget (some chosen) (some eleven))
  unfolding judge
  judge-IsDecided chosen eleven roster all some_eleven =
      elim (List-cases (squad_errors ss chosen eleven budget)) [
        | inl fine ↦
            let (l, p, q) = IsLegal-of_checks chosen eleven roster all some_eleven fine in
            let (_, captaincy, _, _, _) = (squad_errors_iff chosen eleven).0 fine in
            let (r, made, names) =
              HasCaptains_total (captains ss) (vice_captains ss) chosen eleven refl refl
                captaincy in
            inl (l, r, rw (fine, judge) made, rw (p, q) names)
        | inr (e, es, errors) ↦ inr (
          λ l. let (_, fine, all', some_eleven') = checks_of_legal l in cc,
          e,
          es,
          rw (errors, judge) refl,
        )
      ]

-- The validator decides legality: it answers with the summary of the squad if the squad is legal
-- (15 known and different players, 11 of them starting, a captain and a vice-captain among these,
-- the position quotas, the budget, at most three of a club, a valid formation), and with a
-- list of one error at least if it is not. It never reads a missing player.
pub validate_squad-IsDecided :
    (ss : List SquadPlayerSelection) (players : List PlayerForValidation) (budget : ℕ)
    → IsDecided ss players budget (validate_squad ss players budget)
unfolding validate_squad
validate_squad-IsDecided ss players budget =
    elim (List-cases (roster_errors ss (player_map players))) [
      | inl fine ↦
          let (_, _, known) = (roster_errors_iff players ss).0 fine in
          let (chosen, all) = resolve_total players ss known in
          let (eleven, some_eleven) =
            resolve_total players (starting ss)
              (All-filter (IsKnown players) (λ s. s.is_starter) ss known) in
          rw (fine, all, some_eleven, validate_squad)
            (judge-IsDecided ss players budget chosen eleven fine all some_eleven)
      | inr (e, es, errors) ↦ inr (
        λ l. let (fine, _, _, _) = checks_of_legal ss players budget l in cc,
        e,
        es,
        rw (errors, validate_squad) refl,
      )
    ]
