-- ===== src/Idempotency/Tests.antt =====
-- Runs of the middleware of backend/src/middleware/idempotency.ts.
use Prim.Native.String.{String}
use native.Mathlib.Omega.{arith}
use fantasy_xi.Prelude.{◌≡◌, refl, true, some, List, [], ◌∷◌, if◌then◌else◌}
use fantasy_xi.Prelude.Dict.{get, beq, string_eq, IsMap}
use fantasy_xi.Idempotency.{
  Records, Entry, StoredResponse, claim_key, settle, run_handler, marked_entry, new_record,
}
use fantasy_xi.Idempotency.Store.{alive, marks, run_op, cell_op, run_op-cell}
use fantasy_xi.Idempotency.Replay.{Call}
use fantasy_xi.Idempotency.Answers.{settle-released}

abbrev running : Entry
running = marked_entry 1000 60000 (new_record 1000 "print" "first")

abbrev one_running : Records
one_running = ("key", running) ∷ []

one_running-IsMap : IsMap one_running
unfolding get
one_running-IsMap = (refl, tt)

running-alive : alive 1500 (get one_running "key") ≡ some running
unfolding get
running-alive = refl

abbrev paid : StoredResponse
paid = record { status_code = 201; headers = []; body = "paid" }

abbrev down : StoredResponse
down = record { status_code = 503; headers = []; body = "down" }

run_op-cell_example :
    alive 2000 (get (run_op one_running 1500 "key" (marks "first" 60000)) "key") ≡ (
      if beq {Key = String} "key" "key"
      then alive 2000 (cell_op 1500 (marks "first" 60000) (alive 1500 (get one_running "key")))
      else alive 2000 (get one_running "key"))
run_op-cell_example =
    run_op-cell one_running 1500 2000 "key" (marks "first" 60000) "key" (omega arith)
      one_running-IsMap

-- A heartbeat of a request that has lost its claim.
abbrev stale_calls : List Call
stale_calls = record { now = 1600; key = "key"; op = marks "other" 60000 } ∷ []

settle-released_example :
    (claim_key
      (settle one_running 1500 "key" "first" true down 86400).0
      9000
      "key"
      "print"
      "second"
      60000).1
    ≡ run_handler "second"
settle-released_example =
    settle-released one_running 1500 9000 "key" running true down 86400 "print" "second" 60000
      one_running-IsMap running-alive refl (omega arith) (omega arith)
