-- ===== src/Draft/Tests.antt =====
-- Picks in a league of two squads.
use fantasy_xi.Prelude.{◌≡◌, refl, [], ◌∷◌}
use fantasy_xi.Prelude.Dict.{get, set}
use fantasy_xi.Draft.{
  Service, Drafted, done, fails, already_drafted, not_your_turn, create_draft_room,
  execute_draft_pick, turn_error, take_player, ownership, advance, advance_room, snake_turn,
}
use fantasy_xi.Draft.Ownership.{IsDecidedPick, execute_draft_pick-IsDecidedPick}

abbrev opened_draft : Service
opened_draft =
    create_draft_room 0 "L" ("A" ∷ "B" ∷ []) 60 (record { ownership_map = []; draft_rooms = [] })

abbrev service_of : {X : Type 0} → Drafted (Service × X) → Service
service_of (done (s, x)) = s
service_of (fails e) = opened_draft

abbrev first_pick : Service
first_pick = service_of (execute_draft_pick 1 "L" "A" 7 opened_draft)

wrong_turn : execute_draft_pick 1 "L" "B" 7 opened_draft ≡ fails (not_your_turn "A")
unfolding create_draft_room execute_draft_pick turn_error get set
wrong_turn = refl

taken : execute_draft_pick 2 "L" "B" 7 first_pick ≡ fails (already_drafted "A")
unfolding create_draft_room execute_draft_pick turn_error get set take_player ownership advance
    advance_room snake_turn
taken = refl

execute_draft_pick-IsDecidedPick_example :
    IsDecidedPick "L" "B" 7 first_pick (execute_draft_pick 2 "L" "B" 7 first_pick)
execute_draft_pick-IsDecidedPick_example = execute_draft_pick-IsDecidedPick 2 "L" "B" 7 first_pick
