-- ===== src/Draft/Rooms/Tests.antt =====
-- A draft room of two squads, and the theorem at it.
use fantasy_xi.Prelude.{◌≡◌, refl, true, some, [], ◌∷◌, map, arith, get_elem?}
use fantasy_xi.Prelude.Dict.{get, string_eq}
use fantasy_xi.Rules.{gkp}
use fantasy_xi.Draft.{PlayerCandidate, Service, in_progress, snake_turn}
use fantasy_xi.Draft.Rooms.{ticked, auto_pick_current_turn}
use fantasy_xi.Draft.Rooms.Clock.{with_seconds, run_ticks, run_ticks-auto_pick}
use fantasy_xi.Draft.Rooms.{
  Manager, turns, snake_rounds, build_snake_pick_order, begin_pick, finish_pick,
}
use fantasy_xi.Draft.Rooms.Snake.{build_snake_pick_order-snake_turn}
use fantasy_xi.Draft.Rooms.Quota.{AreWithinQuota, IsWithinQuota, make_pick-IsWithinQuota}

snake :
    map (λ t. t.squad_id) (build_snake_pick_order ("A" ∷ "B" ∷ "C" ∷ []) 3)
    ≡ "A" ∷ "B" ∷ "C" ∷ "C" ∷ "B" ∷ "A" ∷ "A" ∷ "B" ∷ "C" ∷ []
unfolding build_snake_pick_order snake_rounds turns
snake = refl

abbrev keeper : PlayerCandidate
keeper = record { id = 7; position = gkp; price = 50; total_points = 100 }

abbrev hall : Manager
hall = record {
  league_id = "L";
  time_per_pick_sec = 60;
  available_players = keeper ∷ [];
  draft_sequence = build_snake_pick_order ("A" ∷ "B" ∷ []) 2;
  current_pick_index = 0;
  remaining_seconds = 60;
  status = in_progress;
  squad_drafted = ("A", []) ∷ ("B", []) ∷ [];
  timer = true;
}

hall-AreWithinQuota : AreWithinQuota hall
unfolding get
hall-AreWithinQuota squad pos = ground arith

abbrev no_service : Service
no_service = record { ownership_map = []; draft_rooms = [] }

-- While squad A waits for the lock, the timer goes on.
make_pick-IsWithinQuota_example : IsWithinQuota (
    finish_pick 1 "A" 7 (begin_pick "A" 7 hall) (record hall { remaining_seconds = 58 }) no_service)
make_pick-IsWithinQuota_example =
    make_pick-IsWithinQuota 1 "A" 7 hall (record hall { remaining_seconds = 58 }) no_service refl
      hall-AreWithinQuota

third_turn : snake_turn ("A" ∷ "B" ∷ "C" ∷ []) 3 ≡ some "C"
unfolding snake_turn
third_turn = refl

build_snake_pick_order-snake_turn_example :
    get_elem? (build_snake_pick_order ("A" ∷ "B" ∷ "C" ∷ []) 3) 3
    ≡ some (record { squad_id = "C"; round = 2; pick_number = 4 })
build_snake_pick_order-snake_turn_example =
    build_snake_pick_order-snake_turn ("A" ∷ "B" ∷ "C" ∷ []) 3 3 "C" (omega arith) third_turn

run_ticks-auto_pick_example :
    run_ticks 1 59 (with_seconds 60 hall) no_service
    ≡ ticked
        (with_seconds 0 hall)
        no_service
        (auto_pick_current_turn 1 (with_seconds 0 hall) no_service)
run_ticks-auto_pick_example = run_ticks-auto_pick 1 59 hall no_service refl
