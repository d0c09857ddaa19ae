-- ===== src/Swiss/Standings/Names.antt =====
-- Whom the standings name: getStandings of backend/src/services/league/swissTournamentEngine.ts.
use mathlib.Core.List.{Perm}
use mathlib.Core.List.Perm
use Prim.Native.String.{String}
use native.Mathlib.Omega.{arith}
use fantasy_xi.Prelude.{
  ℕ, ◌+◌, ◌≡◌, refl, sym, ◌∙◌, ap₂, subst, Bool, true, List, [], ◌∷◌, map, All,
}
use fantasy_xi.Prelude.Dict.{has-set, Dict, get, set, has, values, string_eq}
use fantasy_xi.Prelude.Sort.{sort_by-perm}
use fantasy_xi.Swiss.{Participant}
use fantasy_xi.Swiss.Standings.{
  tie_breaks, sort_ranked, assign_ranks, recompute_standings, get_standings,
}
use fantasy_xi.Swiss.Standings.Keep.{
  keys, Kept, sort_ranked-All, tie_breaks-All, recompute_standings-Kept,
}

-- The identifiers of the participants, in the order of the dictionary.
keys-set :
    (m : Dict String Participant) (k : String) (p : Participant)
    → has m k ≡ true
    → keys (set m k p) ≡ keys m
unfolding get set
keys-set [] k p h = cc
keys-set ((j, q) ∷ m) k p h = ground (arith, keys-set m k p)

abbrev IsKnown : Dict String Participant → Participant → Type 0
IsKnown m p = has m p.id ≡ true

IsKnown-set :
    (m : Dict String Participant) (k : String) (p : Participant) (ps : List Participant)
    → All (IsKnown m) ps
    → All (IsKnown (set m k p)) ps
IsKnown-set m k p [] hs = tt
IsKnown-set m k p (q ∷ ps) hs = (has-set m k q.id p hs.0, IsKnown-set m k p ps hs.1)

assign_ranks-keys :
    (idx : ℕ) (ps : List Participant) (m : Dict String Participant)
    → All (IsKnown m) ps
    → keys (assign_ranks idx ps m) ≡ keys m
unfolding assign_ranks
assign_ranks-keys idx [] m hs = refl
assign_ranks-keys idx (p ∷ ps) m hs =
    let ranked : Participant = record p { rank = idx + 1 } in
    assign_ranks-keys (idx + 1) ps (set m p.id ranked) (IsKnown-set m p.id ranked ps hs.1)
    ∙ keys-set m p.id ranked hs.0

IsKnown-cons :
    (m : Dict String Participant) (k : String) (p : Participant) (ps : List Participant)
    → All (IsKnown m) ps
    → All (IsKnown ((k, p) ∷ m)) ps
unfolding get
IsKnown-cons m k p [] hs = tt
IsKnown-cons m k p (q ∷ ps) hs = (ground arith, IsKnown-cons m k p ps hs.1)

IsKnown-values :
    (P : Participant → Type 0) (m : Dict String Participant) → Kept P m → All (IsKnown m) (values m)
unfolding get
IsKnown-values P [] kept = tt
IsKnown-values P ((k, p) ∷ m) kept = (
  ground (arith, (string_eq.beq_iff k p.id).1 (sym kept.0.0)),
  IsKnown-cons m k p (values m) (IsKnown-values P m kept.1),
)

values-ids :
    (P : Participant → Type 0) (m : Dict String Participant)
    → Kept P m
    → map (λ p. p.id) (values m) ≡ keys m
values-ids P [] kept = refl
values-ids P ((k, p) ∷ m) kept = ap₂ (λ j js. j ∷ js) kept.0.0 (values-ids P m kept.1)

pub recompute_standings-keys :
    (le : String → String → Bool) (P : Participant → Type 0) (m : Dict String Participant)
    → Kept P m
    → keys (recompute_standings le m) ≡ keys m
unfolding recompute_standings tie_breaks
recompute_standings-keys le P m kept =
    assign_ranks-keys 0 (sort_ranked le (map (tie_breaks m) (values m))) m (
      sort_ranked-All (IsKnown m) le (map (tie_breaks m) (values m)) (
        tie_breaks-All (IsKnown m) (λ n p h. h) (λ p r h. h) m (values m)
          (IsKnown-values P m kept)))

pub recompute_standings-any :
    (le : String → String → Bool) (m : Dict String Participant)
    → Kept (λ p. Unit) m
    → Kept (λ p. Unit) (recompute_standings le m)
recompute_standings-any = recompute_standings-Kept (λ p. Unit) (λ n p h. tt) (λ p r h. tt)

-- The standings name every participant, once.
pub get_standings-perm :
    (le : String → String → Bool) (m : Dict String Participant)
    → Kept (λ p. Unit) m
    → Perm (map (λ p. p.id) (get_standings le m)) (keys m)
unfolding get_standings
get_standings-perm le m kept =
    let again = recompute_standings le m in
    subst (Perm (map (λ p. p.id) (get_standings le m)))
      (values-ids (λ p. Unit) again (recompute_standings-any le m kept)
        ∙ recompute_standings-keys le (λ p. Unit) m kept)
      (Perm.map (λ p. p.id) (sort_by-perm (λ p. p.rank) (values again)))
