-- ===== src/Draft.antt =====
-- backend/src/services/draft/draftService.ts: the ownership of players in a league and the draft room
-- that hands them out in snake order. The league's lock makes a pick atomic: a pick is one function on
-- the state. Identifiers and dates of records, the listeners and the events are left out, as is the
-- list of a league's ownerships. A key of the ownership map is the pair that its text joins.
pub mod Rooms
pub mod Ownership
mod Tests
use Prim.Native.String.{String}
use fantasy_xi.Prelude.{
  ℕ, zero, suc, ◌+◌, ◌-◌, ◌*◌, ◌/◌, ◌%◌, ◌≡◌, refl, ◌↔◌, Bool, true, false, not, ◌&&◌, ◌||◌, Option,
  none, some, List, [], ◌∷◌, ◌++◌, map, ltb, leb, ◌==◌, if◌then◌else◌, length, get_elem?, filter,
  find, arith,
}
use fantasy_xi.Prelude.Dict.{Dict, Eq, get, set, has, beq, string_eq, nat_eq}
use fantasy_xi.Prelude.Sort.{sort_by, sort_with}
use fantasy_xi.Rules.{Position, gkp, def, mid, fwd, same_position}

abbrev pub same_key : String × ℕ → String × ℕ → Bool
same_key a b = beq a.0 b.0 && beq a.1 b.1

pub same_key_iff : (a b : String × ℕ) → (same_key a b ≡ true) ↔ (a ≡ b)
same_key_iff a b = ground (arith, string_eq.beq_iff a.0 b.0, nat_eq.beq_iff a.1 b.1)

instance abbrev pub key_eq : Eq (String × ℕ)
key_eq = record { beq = same_key; beq_iff = same_key_iff }

pub record PlayerOwnership : Type 0 where
  pub league_id : String
  pub player_id : ℕ
  pub squad_id : String
  pub round_drafted : ℕ
  pub pick_number : ℕ

pub record PlayerCandidate : Type 0 where
  pub id : ℕ
  pub position : Position
  pub price : ℕ
  pub total_points : ℕ

pub data DraftStatus : Type 0 where
  not_started in_progress completed : DraftStatus

abbrev pub is_in_progress : DraftStatus → Bool
is_in_progress not_started = false
is_in_progress in_progress = true
is_in_progress completed = false

-- `currentTurnSquadId` is undefined for an empty order.
pub record Room : Type 0 where
  pub status : DraftStatus
  pub squad_order : List String
  pub current_pick_index : ℕ
  pub current_round : ℕ
  pub current_turn : Option String
  pub turn_deadline : ℕ
  pub time_per_pick_sec : ℕ
  pub picks : List PlayerOwnership

pub record Service : Type 0 where
  pub ownership_map : Dict (String × ℕ) PlayerOwnership
  pub draft_rooms : Dict String Room

pub data DraftError : Type 0 where
  not_your_turn already_drafted : String → DraftError
  draft_completed not_in_pool quota_exceeded none_available no_turn : DraftError

pub data Drafted {ℓ} (A : Type ℓ) : Type ℓ where
  done : A → Drafted A
  fails : DraftError → Drafted A

abbrev pub new_room : ℕ → List String → ℕ → Room
new_room now squad_order time_per_pick_sec = record {
  status = in_progress;
  squad_order = squad_order;
  current_pick_index = 0;
  current_round = 1;
  current_turn = get_elem? squad_order 0;
  turn_deadline = now + time_per_pick_sec * 1000;
  time_per_pick_sec = time_per_pick_sec;
  picks = [];
}

pub create_draft_room : ℕ → String → List String → ℕ → Service → Service
create_draft_room now league squad_order time_per_pick_sec s = record s {
  draft_rooms = set s.draft_rooms league (new_room now squad_order time_per_pick_sec);
}

-- The round of a pick and the squad whose turn it is: even rounds go backwards.
abbrev pub round_of : ℕ → ℕ → ℕ
round_of squads index = index / squads + 1

pub snake_turn : List String → ℕ → Option String
snake_turn order index =
    let n = length order in
    if round_of n index % 2 == 1
    then get_elem? order (index % n)
    else get_elem? order (n - 1 - index % n)

-- Whose turn the room says it is; no answer when the pick may go ahead.
abbrev pub same_turn : Option String → String → Bool
same_turn none squad = false
same_turn (some turn) squad = beq turn squad

abbrev pub or_empty : Option String → String
or_empty none = ""
or_empty (some turn) = turn

pub turn_error : Option Room → String → Option DraftError
turn_error none squad = none
turn_error (some room) squad =
    if is_in_progress room.status && not (same_turn room.current_turn squad)
    then some (not_your_turn (or_empty room.current_turn))
    else none

-- The record of a pick, numbered by the room's picks if there is a room.
pub ownership : Option Room → String → String → ℕ → PlayerOwnership
ownership none league squad player = record {
  league_id = league;
  player_id = player;
  squad_id = squad;
  round_drafted = 1;
  pick_number = 1;
}
ownership (some room) league squad player = record {
  league_id = league;
  player_id = player;
  squad_id = squad;
  round_drafted = round_of (length room.squad_order) (length room.picks);
  pick_number = length room.picks + 1;
}

pub advance : ℕ → PlayerOwnership → Room → Room
advance now pick room =
    let index = room.current_pick_index + 1 in
    record room {
      picks = room.picks ++ pick ∷ [];
      current_pick_index = index;
      current_round = round_of (length room.squad_order) index;
      current_turn = snake_turn room.squad_order index;
      turn_deadline = now + room.time_per_pick_sec * 1000;
    }

pub advance_room : ℕ → PlayerOwnership → String → Option Room → Dict String Room → Dict String Room
advance_room now pick league none rooms = rooms
advance_room now pick league (some room) rooms = set rooms league (advance now pick room)

-- The pick once it is the squad's turn: `existing` is the entry of the player.
pub take_player :
    ℕ → String → String → ℕ → Option PlayerOwnership → Service → Drafted (Service × PlayerOwnership)
take_player now league squad player (some existing) s = fails (already_drafted existing.squad_id)
take_player now league squad player none s =
    let room = get s.draft_rooms league in
    let pick = ownership room league squad player in
    done (
      record {
        ownership_map = set s.ownership_map (league, player) pick;
        draft_rooms = advance_room now pick league room s.draft_rooms;
      },
      pick,
    )

pub execute_draft_pick : ℕ → String → String → ℕ → Service → Drafted (Service × PlayerOwnership)
execute_draft_pick now league squad player s = elim (turn_error (get s.draft_rooms league) squad) [
  | some e ↦ fails e
  | none ↦ take_player now league squad player (get s.ownership_map (league, player)) s
]

-- An empty squad identifier counts as no owner.
pub get_player_owner : Service → String → ℕ → Option String
get_player_owner s league player = elim (get s.ownership_map (league, player)) [
  | none ↦ none
  | some o ↦ if beq o.squad_id "" then none else some o.squad_id
]

-- More points are first, then the higher price.
abbrev pub worth_more : PlayerCandidate → PlayerCandidate → Bool
worth_more a b =
    ltb b.total_points a.total_points || (b.total_points == a.total_points && leb b.price a.price)

abbrev pub unpicked : Service → String → List PlayerCandidate → List PlayerCandidate
unpicked s league players =
    sort_with worth_more (filter (λ p. not (has s.ownership_map (league, p.id))) players)

abbrev pub pick_first :
    ℕ → String → String → List PlayerCandidate → Service → Drafted (Service × PlayerOwnership)
pick_first now league squad [] s = fails none_available
pick_first now league squad (best ∷ rest) s = execute_draft_pick now league squad best.id s

pub execute_auto_pick :
    ℕ → String → String → List PlayerCandidate → Service → Drafted (Service × PlayerOwnership)
execute_auto_pick now league squad players s =
    pick_first now league squad (unpicked s league players) s

abbrev pub clear : Service → Service
clear s = record { ownership_map = []; draft_rooms = [] }
