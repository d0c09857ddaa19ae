-- ===== src/Draft/Ownership.antt =====
-- A player has one owner in a league.
use Prim.Native.String.{String}
use fantasy_xi.Prelude.{
  arith, ◌↔◌, true, if◌then◌else◌, ℕ, ◌≡◌, refl, inl, inr, Option, none, some, Option-cases, ◌⊎◌,
}
use fantasy_xi.Prelude.Dict.{beq, get, get-set, get-set_self, string_eq}
use fantasy_xi.Draft.{
  DraftStatus, not_started, in_progress, completed, is_in_progress, same_turn, or_empty,
  not_your_turn, key_eq, PlayerOwnership, Room, Service, Drafted, done, fails, turn_error,
  ownership, take_player, execute_draft_pick, already_drafted,
}

-- A pick, as seen from outside: who owned the player, who owns it now, and that nothing else changed.
abbrev pub IsPick : String → String → ℕ → Service → Service → PlayerOwnership → Type 0
IsPick league squad player s t pick =
    (get s.ownership_map (league, player) ≡ none)
    × (get t.ownership_map (league, player) ≡ some pick)
    × (pick.squad_id ≡ squad)
    × (pick.player_id ≡ player)
    × ((key : String × ℕ)
        → get t.ownership_map key
          ≡ (if beq (league, player) key then some pick else get s.ownership_map key))

ownership-names :
    (room : Option Room) (league squad : String) (player : ℕ)
    → ((ownership room league squad player).squad_id ≡ squad)
      × ((ownership room league squad player).player_id ≡ player)
unfolding ownership
ownership-names none league squad player = (refl, refl)
ownership-names (some room) league squad player = (refl, refl)

-- In a draft in progress it is the turn of one squad.
abbrev pub IsOutOfTurn : Option Room → String → Type 0
IsOutOfTurn none squad = ⊥
IsOutOfTurn (some room) squad = (room.status ≡ in_progress) × ¬ (room.current_turn ≡ some squad)

-- How a pick is decided: by the turn of a room whose draft is in progress, then by the entry of the
-- player.
abbrev pub IsDecidedPick :
    String → String → ℕ → Service → Drafted (Service × PlayerOwnership) → Type 0
IsDecidedPick league squad player s r =
    ((room : Room) × (get s.draft_rooms league ≡ some room)
      × IsOutOfTurn (some room) squad
      × (r ≡ fails (not_your_turn (or_empty room.current_turn))))
    ⊎ ((o : PlayerOwnership) × (¬ IsOutOfTurn (get s.draft_rooms league) squad)
        × (get s.ownership_map (league, player) ≡ some o)
        × (r ≡ fails (already_drafted o.squad_id)))
    ⊎ ((t : Service) × (pick : PlayerOwnership) × (¬ IsOutOfTurn (get s.draft_rooms league) squad)
        × (r ≡ done (t, pick))
        × IsPick league squad player s t pick)

is_in_progress_iff :
    (status : DraftStatus) → (is_in_progress status ≡ true) ↔ (status ≡ in_progress)
is_in_progress_iff not_started = (λ h. cc, λ h. cc)
is_in_progress_iff in_progress = (λ h. refl, λ h. refl)
is_in_progress_iff completed = (λ h. cc, λ h. cc)

same_turn_iff :
    (turn : Option String) (squad : String) → (same_turn turn squad ≡ true) ↔ (turn ≡ some squad)
same_turn_iff none squad = (λ h. cc, λ h. cc)
same_turn_iff (some turn) squad = ground (arith, string_eq.beq_iff turn squad)

turn_error-IsOutOfTurn :
    (room : Room) (squad : String)
    → (IsOutOfTurn (some room) squad
        × (turn_error (some room) squad ≡ some (not_your_turn (or_empty room.current_turn))))
      ⊎ ((¬ IsOutOfTurn (some room) squad) × (turn_error (some room) squad ≡ none))
unfolding turn_error
turn_error-IsOutOfTurn room squad =
    ground (arith, is_in_progress_iff room.status, same_turn_iff room.current_turn squad)

take_player-taken :
    (now : ℕ) (league squad : String) (player : ℕ) (o : PlayerOwnership) (s : Service)
    → take_player now league squad player (some o) s ≡ fails (already_drafted o.squad_id)
unfolding take_player
take_player-taken now league squad player o s = refl

take_player-IsPick :
    (now : ℕ) (league squad : String) (player : ℕ) (s : Service)
    → get s.ownership_map (league, player) ≡ none
    → (t : Service) × (pick : PlayerOwnership) × (take_player now league squad player none s
        ≡ done (t, pick))
      × IsPick league squad player s t pick
unfolding take_player
take_player-IsPick now league squad player s free =
    let pick = ownership (get s.draft_rooms league) league squad player in
    let (by, of) = ownership-names (get s.draft_rooms league) league squad player in
    (
      _,
      pick,
      refl,
      (
        free,
        get-set_self s.ownership_map (league, player) pick,
        by,
        of,
        λ key. get-set s.ownership_map (league, player) key pick,
      ),
    )

-- The pick once it is not out of turn: the entry of the player decides.
decided_by_owner :
    (now : ℕ) (league squad : String) (player : ℕ) (s : Service)
    → turn_error (get s.draft_rooms league) squad ≡ none
    → ¬ IsOutOfTurn (get s.draft_rooms league) squad
    → IsDecidedPick league squad player s (execute_draft_pick now league squad player s)
unfolding execute_draft_pick
decided_by_owner now league squad player s turn on =
    elim (Option-cases (get s.ownership_map (league, player))) [
      | inr (o, taken) ↦
          let refused : execute_draft_pick now league squad player s
              ≡ fails (already_drafted o.squad_id) =
            rw (turn, taken, execute_draft_pick) (take_player-taken now league squad player o s) in
          inr (inl (o, on, taken, refused))
      | inl free ↦
          let (t, pick, e, is_pick) = take_player-IsPick now league squad player s free in
          let decided : execute_draft_pick now league squad player s ≡ done (t, pick) =
            rw (turn, free, execute_draft_pick) e in
          inr (inr (t, pick, on, decided, is_pick))
    ]

-- Every pick is decided in one of three ways. It is refused, with the squad whose turn it is, exactly
-- if the league's room is in progress and its turn is not the squad's; any other pick is refused with
-- the owner of a player who is taken, or it makes the squad the owner of a player who had none and
-- changes no other entry of the ownership map.
pub execute_draft_pick-IsDecidedPick :
    (now : ℕ) (league squad : String) (player : ℕ) (s : Service)
    → IsDecidedPick league squad player s (execute_draft_pick now league squad player s)
unfolding execute_draft_pick turn_error
execute_draft_pick-IsDecidedPick now league squad player s =
    elim (Option-cases (get s.draft_rooms league)) [
      | inl absent ↦
          decided_by_owner now league squad player s (rw (absent, turn_error) refl)
            (rw absent (λ out. out))
      | inr (room, present) ↦ elim (turn_error-IsOutOfTurn room squad) [
        | inl (out, wrong) ↦ inl (room, present, out, rw (present, wrong, execute_draft_pick) refl)
        | inr (on, fine) ↦
            decided_by_owner now league squad player s (rw (present, fine) refl) (rw present on)
      ]
    ]
