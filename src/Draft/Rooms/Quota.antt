-- ===== src/Draft/Rooms/Quota.antt =====
-- The quota of a squad in each position, across the await of `makePick`.
use Prim.Native.String.{String}
use fantasy_xi.Prelude.{
  Option, none, ℕ, ◌+◌, ◌≤◌, ◌<◌, ◌≡◌, refl, sym, ap, subst, ◌⊎◌, ◌∙◌, true, Bool-cases, inl, inr,
  some, Option-cases, List, [], ◌∷◌, ◌++◌, arith, ◌==◌, if◌then◌else◌, find,
}
use fantasy_xi.Prelude.Dict.{Dict, get, get-set, beq, string_eq}
use fantasy_xi.Rules.{Position, same_position, same_position_iff}
use fantasy_xi.Draft.{
  PlayerOwnership, PlayerCandidate, Service, Drafted, done, fails, execute_draft_pick,
}
use fantasy_xi.Draft.Rooms.{
  Manager, squad_position_limits, owned_from, get_squad_picks, in_position,
  is_player_eligible_for_squad, push_player, confirm, confirmed, if_eligible, begin_pick,
  finish_pick,
}

-- Every squad is within its quota, in every position.
abbrev pub AreWithinQuota : Manager → Type 0
AreWithinQuota m =
    (squad : String) (pos : Position)
    → in_position pos (get_squad_picks m squad) ≤ squad_position_limits pos

in_position-push :
    (pos : Position) (owned : List PlayerCandidate) (p : PlayerCandidate)
    → in_position pos (owned ++ p ∷ [])
      ≡ in_position pos owned + (if same_position p.position pos then 1 else 0)
in_position-push pos [] p = ground arith
in_position-push pos (q ∷ owned) p = ground (arith, in_position-push pos owned p)

in_position-grows :
    (pos : Position) (owned : List PlayerCandidate) (p : PlayerCandidate)
    → in_position p.position owned < squad_position_limits p.position
    → in_position pos owned ≤ squad_position_limits pos
    → in_position pos (owned ++ p ∷ []) ≤ squad_position_limits pos
in_position-grows pos owned p room h = elim (Bool-cases (same_position p.position pos)) [
  | inl same ↦
      let at : p.position ≡ pos = (same_position_iff p.position pos).0 same in
      let here : in_position pos owned < squad_position_limits pos =
        subst (λ q. in_position q owned < squad_position_limits q) at room in
      rw (in_position-push pos owned p, same) (omega arith)
  | inr other ↦ rw (in_position-push pos owned p, other) (omega arith)
]

get-push_player :
    (drafted : Dict String (List PlayerCandidate)) (squad other : String) (p : PlayerCandidate)
    (owned : List PlayerCandidate)
    → get drafted squad ≡ some owned
    → ((squad ≡ other)
        × (get (push_player (get drafted squad) drafted squad p) other ≡ some (owned ++ p ∷ [])))
      ⊎ (get (push_player (get drafted squad) drafted squad p) other ≡ get drafted other)
get-push_player drafted squad other p owned present = elim (Bool-cases (beq squad other)) [
  | inl same ↦ inl (
    (string_eq.beq_iff squad other).0 same,
    rw present (get-set drafted squad other (owned ++ p ∷ []) ∙ rw same refl),
  )
  | inr differ ↦ inr (rw present (get-set drafted squad other (owned ++ p ∷ []) ∙ rw differ refl))
]

push-AreWithinQuota :
    (drafted : Dict String (List PlayerCandidate)) (squad other : String) (p : PlayerCandidate)
    (pos : Position)
    → in_position p.position (owned_from (get drafted squad)) < squad_position_limits p.position
    → in_position pos (owned_from (get drafted other)) ≤ squad_position_limits pos
    → in_position pos (owned_from (get (push_player (get drafted squad) drafted squad p) other))
      ≤ squad_position_limits pos
push-AreWithinQuota drafted squad other p pos room h = elim (Option-cases (get drafted squad)) [
  | inl absent ↦ rw absent h
  | inr (owned, present) ↦ elim (get-push_player drafted squad other p owned present) [
    | inl (same, e) ↦
        let mine : get drafted other ≡ some owned = ap (get drafted) (sym same) ∙ present in
        rw e (in_position-grows pos owned p (rw present at room) (rw mine at h))
    | inr e ↦ rw e h
  ]
]

confirm-AreWithinQuota :
    (m : Manager) (squad : String) (p : PlayerCandidate)
    → is_player_eligible_for_squad m squad p ≡ true
    → AreWithinQuota m
    → AreWithinQuota (confirm squad p m)
unfolding confirm is_player_eligible_for_squad
confirm-AreWithinQuota m squad p eligible h other pos =
    push-AreWithinQuota m.squad_drafted squad other p pos (ground arith) (h other pos)

-- What a pick gives, if it is taken, is within the quota.
abbrev pub IsWithinQuota : Drafted (Manager × Service × PlayerOwnership) → Type 0
IsWithinQuota (done (m, s, pick)) = AreWithinQuota m
IsWithinQuota (fails e) = Unit

confirmed-IsWithinQuota :
    (m : Manager) (squad : String) (p : PlayerCandidate) (r : Drafted (Service × PlayerOwnership))
    → is_player_eligible_for_squad m squad p ≡ true
    → AreWithinQuota m
    → IsWithinQuota (confirmed squad p m r)
confirmed-IsWithinQuota m squad p (fails e) eligible h = tt
confirmed-IsWithinQuota m squad p (done (s, pick)) eligible h =
    confirm-AreWithinQuota m squad p eligible h

if_eligible-eligible :
    (m : Manager) (squad : String) (found : Option PlayerCandidate) (p : PlayerCandidate)
    → if_eligible m squad found ≡ done p
    → is_player_eligible_for_squad m squad p ≡ true
if_eligible-eligible m squad none p h = cc
if_eligible-eligible m squad (some q) p h = ground arith

begin_pick-eligible :
    (squad : String) (id : ℕ) (m : Manager) (p : PlayerCandidate)
    → begin_pick squad id m ≡ done p
    → is_player_eligible_for_squad m squad p ≡ true
unfolding begin_pick
begin_pick-eligible squad id m p h =
    ground (arith, if_eligible-eligible m squad (find (λ p. p.id == id) m.available_players) p)

-- Eligibility depends on the squad's own players alone.
eligible-unchanged :
    (m after : Manager) (squad : String) (p : PlayerCandidate)
    → get_squad_picks after squad ≡ get_squad_picks m squad
    → is_player_eligible_for_squad m squad p ≡ true
    → is_player_eligible_for_squad after squad p ≡ true
unfolding is_player_eligible_for_squad
eligible-unchanged m after squad p same h = rw same h

finish_pick-IsWithinQuota :
    (now : ℕ) (squad : String) (id : ℕ) (m after : Manager) (s : Service)
    (begun : Drafted PlayerCandidate)
    → begin_pick squad id m ≡ begun
    → get_squad_picks after squad ≡ get_squad_picks m squad
    → AreWithinQuota after
    → IsWithinQuota (finish_pick now squad id begun after s)
unfolding finish_pick
finish_pick-IsWithinQuota now squad id m after s (fails e) begun same h = tt
finish_pick-IsWithinQuota now squad id m after s (done p) begun same h =
    confirmed-IsWithinQuota after squad p (execute_draft_pick now after.league_id squad id s)
      (eligible-unchanged m after squad p same (begin_pick-eligible squad id m p begun)) h

-- A pick does not take a squad over its quota in any position if no other pick of the same squad is
-- confirmed while it waits for the league's lock: let its checks be made in one state of the manager
-- and let it be confirmed in another, where the squad has the same players and all squads are within
-- their quotas, and with any state of the service. Then all squads are so after a pick that is taken.
pub make_pick-IsWithinQuota :
    (now : ℕ) (squad : String) (id : ℕ) (m after : Manager) (s : Service)
    → get_squad_picks after squad ≡ get_squad_picks m squad
    → AreWithinQuota after
    → IsWithinQuota (finish_pick now squad id (begin_pick squad id m) after s)
make_pick-IsWithinQuota now squad id m after s same h =
    finish_pick-IsWithinQuota now squad id m after s (begin_pick squad id m) refl same h
