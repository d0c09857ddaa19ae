-- ===== src/Draft/Rooms.antt =====
-- DraftRoomManager of backend/src/services/draft/draftService.ts: the draft room over the service,
-- which every operation takes and gives back. `makePick` is two steps, before and after its await;
-- the timer and the automatic pick run both at once.
pub mod Quota
pub mod Snake
pub mod Clock
mod Tests
use Prim.Native.String.{String}
use fantasy_xi.Prelude.{
  ℕ, zero, suc, ◌+◌, ◌-◌, ◌*◌, ◌%◌, ◌≡◌, Bool, true, false, ◌||◌, ◌&&◌, Option, none, some, List,
  [], ◌∷◌, ◌++◌, ltb, leb, ◌==◌, if◌then◌else◌, length, get_elem?, filter, find,
}
use fantasy_xi.Prelude.Dict.{Dict, get, set, beq, string_eq}
use fantasy_xi.Prelude.Sort.{sort_with}
use fantasy_xi.Rules.{Position, gkp, def, mid, fwd, same_position}
use fantasy_xi.Draft.{
  PlayerOwnership, PlayerCandidate, DraftStatus, not_started, in_progress, completed,
  is_in_progress, Service, Drafted, done, fails, not_your_turn, draft_completed, not_in_pool,
  DraftError, quota_exceeded, none_available, no_turn, create_draft_room, execute_draft_pick,
  get_player_owner,
}

abbrev pub squad_position_limits : Position → ℕ
squad_position_limits gkp = 2
squad_position_limits def = 5
squad_position_limits mid = 5
squad_position_limits fwd = 3

pub record Turn : Type 0 where
  pub squad_id : String
  pub round : ℕ
  pub pick_number : ℕ

-- The turns of one round, their picks numbered from `pick_number`.
pub turns : ℕ → ℕ → List String → List Turn
turns round pick_number [] = []
turns round pick_number (squad ∷ squads) =
    record { squad_id = squad; round = round; pick_number = pick_number }
    ∷ turns round (pick_number + 1) squads

abbrev pub reverse : List String → List String
reverse [] = []
reverse (squad ∷ squads) = reverse squads ++ squad ∷ []

-- `rounds` rounds from `round` on: odd rounds forwards, even rounds backwards.
pub snake_rounds : List String → ℕ → ℕ → ℕ → List Turn
snake_rounds squads zero round pick_number = []
snake_rounds squads (suc rounds) round pick_number =
    turns round pick_number (if round % 2 == 1 then squads else reverse squads)
    ++ snake_rounds squads rounds (round + 1) (pick_number + length squads)

pub build_snake_pick_order : List String → ℕ → List Turn
build_snake_pick_order squads rounds = snake_rounds squads rounds 1 1

pub record Manager : Type 0 where
  pub league_id : String
  pub time_per_pick_sec : ℕ
  pub available_players : List PlayerCandidate
  pub draft_sequence : List Turn
  pub current_pick_index : ℕ
  pub remaining_seconds : ℕ
  pub status : DraftStatus
  pub squad_drafted : Dict String (List PlayerCandidate)
  pub timer : Bool

-- The constructor: the manager, and the service with the league's room.
pub new_manager :
    ℕ → String → List String → ℕ → ℕ → List PlayerCandidate → Service → Manager × Service
new_manager now league squads rounds time_per_pick_sec players s = (
  record {
    league_id = league;
    time_per_pick_sec = time_per_pick_sec;
    available_players = players;
    draft_sequence = build_snake_pick_order squads rounds;
    current_pick_index = 0;
    remaining_seconds = time_per_pick_sec;
    status = not_started;
    squad_drafted = no_players squads [];
    timer = false;
  },
  create_draft_room now league squads time_per_pick_sec s,
)
  where
    no_players :
        List String → Dict String (List PlayerCandidate) → Dict String (List PlayerCandidate)
    no_players [] drafted = drafted
    no_players (squad ∷ squads) drafted = no_players squads (set drafted squad [])

abbrev pub get_current_turn : Manager → Option Turn
get_current_turn m = get_elem? m.draft_sequence m.current_pick_index

abbrev pub owned_from : Option (List PlayerCandidate) → List PlayerCandidate
owned_from none = []
owned_from (some owned) = owned

abbrev pub get_squad_picks : Manager → String → List PlayerCandidate
get_squad_picks m squad = owned_from (get m.squad_drafted squad)

abbrev pub in_position : Position → List PlayerCandidate → ℕ
in_position pos owned = length (filter (λ p. same_position p.position pos) owned)

pub is_player_eligible_for_squad : Manager → String → PlayerCandidate → Bool
is_player_eligible_for_squad m squad player =
    ltb (in_position player.position (get_squad_picks m squad))
      (squad_position_limits player.position)

pub start : Manager → Manager
start m = elim m.status [
  | completed ↦ m
  | _ ↦ record m { status = in_progress; remaining_seconds = m.time_per_pick_sec; timer = true }
]

-- `squadDraftedPlayers.get(squadId)?.push(player)`: a squad without a list keeps none.
abbrev pub push_player :
    Option (List PlayerCandidate)
    → Dict String (List PlayerCandidate)
    → String
    → PlayerCandidate
    → Dict String (List PlayerCandidate)
push_player none drafted squad player = drafted
push_player (some owned) drafted squad player = set drafted squad (owned ++ player ∷ [])

-- What follows a pick that the service took.
pub confirm : String → PlayerCandidate → Manager → Manager
confirm squad player m =
    let index = m.current_pick_index + 1 in
    let over = leb (length m.draft_sequence) index in
    record m {
      squad_drafted = push_player (get m.squad_drafted squad) m.squad_drafted squad player;
      current_pick_index = index;
      remaining_seconds = m.time_per_pick_sec;
      status = if over then completed else m.status;
      timer = if over then false else m.timer;
    }

abbrev pub confirmed :
    String
    → PlayerCandidate
    → Manager
    → Drafted (Service × PlayerOwnership)
    → Drafted (Manager × Service × PlayerOwnership)
confirmed squad player m (fails e) = fails e
confirmed squad player m (done (s, pick)) = done (confirm squad player m, s, pick)

abbrev pub if_eligible : Manager → String → Option PlayerCandidate → Drafted PlayerCandidate
if_eligible m squad none = fails not_in_pool
if_eligible m squad (some player) =
    if is_player_eligible_for_squad m squad player then done player else fails quota_exceeded

-- `makePick` up to its await: the checks, and the player that it asks the service for.
pub begin_pick : String → ℕ → Manager → Drafted PlayerCandidate
begin_pick squad player_id m = elim (get_current_turn m) [
  | none ↦ fails draft_completed
  | some turn ↦
      if beq turn.squad_id squad
      then if_eligible m squad (find (λ p. p.id == player_id) m.available_players)
      else fails (not_your_turn turn.squad_id)
]

-- `makePick` from its await on: the service's pick under the league's lock, and the manager as it is
-- by then.
pub finish_pick :
    ℕ
    → String
    → ℕ
    → Drafted PlayerCandidate
    → Manager
    → Service
    → Drafted (Manager × Service × PlayerOwnership)
finish_pick now squad player_id (fails e) m s = fails e
finish_pick now squad player_id (done player) m s =
    confirmed squad player m (execute_draft_pick now m.league_id squad player_id s)

-- A call of `makePick` during whose await nothing else runs.
pub make_pick : ℕ → String → ℕ → Manager → Service → Drafted (Manager × Service × PlayerOwnership)
make_pick now squad player_id m s =
    finish_pick now squad player_id (begin_pick squad player_id m) m s

-- `b.totalPoints - a.totalPoints || b.price - a.price`: whether `a` may stand before `b`.
pub ranks_before : PlayerCandidate → PlayerCandidate → Bool
ranks_before a b =
    ltb b.total_points a.total_points || (b.total_points == a.total_points && leb b.price a.price)

abbrev pub sort_ranked : List PlayerCandidate → List PlayerCandidate
sort_ranked players = sort_with ranks_before players

abbrev pub is_unowned : Service → String → PlayerCandidate → Bool
is_unowned s league p = elim (get_player_owner s league p.id) [ none ↦ true | some owner ↦ false ]

-- The players that the squad may still draft, the best first.
pub eligible_players : String → Manager → Service → List PlayerCandidate
eligible_players squad m s = sort_ranked (
    filter (is_player_eligible_for_squad m squad)
      (filter (is_unowned s m.league_id) m.available_players))

pub pick_best :
    ℕ
    → String
    → List PlayerCandidate
    → Manager
    → Service
    → Drafted (Manager × Service × PlayerOwnership)
pick_best now squad [] m s = fails none_available
pick_best now squad (best ∷ rest) m s = make_pick now squad best.id m s

pub auto_pick_turn :
    ℕ → Option Turn → Manager → Service → Drafted (Manager × Service × PlayerOwnership)
auto_pick_turn now none m s = fails no_turn
auto_pick_turn now (some turn) m s =
    pick_best now turn.squad_id (eligible_players turn.squad_id m s) m s

pub auto_pick_current_turn : ℕ → Manager → Service → Drafted (Manager × Service × PlayerOwnership)
auto_pick_current_turn now m s = elim m.status [
  | completed ↦ fails no_turn
  | _ ↦ auto_pick_turn now (get_current_turn m) m s
]

pub stop : Manager → Manager
stop m = record m { timer = false }

abbrev pub ticked :
    Manager
    → Service
    → Drafted (Manager × Service × PlayerOwnership)
    → Manager × Service × Option DraftError
ticked m s (fails e) = (m, s, some e)
ticked m s (done (next, after, pick)) = (next, after, none)

abbrev pub after_second : ℕ → Manager → Service → Manager × Service × Option DraftError
after_second now m s =
    if leb m.remaining_seconds 0 then ticked m s (auto_pick_current_turn now m s) else (m, s, none)

-- A second of the timer, and the error of an automatic pick that fails. Seconds below 0, which such a
-- pick leaves, count as 0.
pub tick : ℕ → Manager → Service → Manager × Service × Option DraftError
tick now m s =
    if is_in_progress m.status
    then after_second now (record m { remaining_seconds = m.remaining_seconds - 1 }) s
    else (m, s, none)
