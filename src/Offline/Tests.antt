-- ===== src/Offline/Tests.antt =====
-- Runs of the queue of frontend/src/lib/offlineQueue.ts.
use Prim.Native.String.{String}
use fantasy_xi.Prelude.{ℕ, ◌≡◌, refl, true, false, none, some, List, [], ◌∷◌, length}
use fantasy_xi.Prelude.Dict.{get, set, delete, has, IsMap, string_eq}
use fantasy_xi.Prelude.Sort.{sort_with}
use fantasy_xi.Offline.{
  Mutation, Payload, Incoming, Store, update, pending, syncing, get_all, queued_mutation,
  conflicting, enqueue_squad_mutation, increment_mutation_retry,
}
use fantasy_xi.Offline.Flush.{
  Reply, accepted, refused, api_error, flush_queue, pending_ids, recover, settle, replay,
}
use fantasy_xi.Offline.Causal.{IsKeyed}
use fantasy_xi.Offline.Flush.Ends.{is_queued}
use fantasy_xi.Offline.Flush.Sent.{
  AreDue, IsSublist, ids, is_put_back, last_id, flush_queue-in_order,
}
use fantasy_xi.Offline.Flush.Account.{is_known, accounted, flush_queue-no_loss}
use fantasy_xi.Offline.Flush.Success.{flush_queue-settles}

abbrev lineup : Payload
lineup = record { name = "Reds"; players = []; user_id = some "ann" }

abbrev change_of : String → Incoming
change_of squad = record {
  squad_id = some squad;
  user_id = some "ann";
  action = none;
  payload = lineup;
  base_revision = none;
}

-- The second squad's mutation was left by a closed tab.
abbrev queued_as : String → String → ℕ → Mutation
queued_as id squad seq = record {
  id = id;
  squad_id = some squad;
  user_id = some "ann";
  action = update;
  payload = lineup;
  timestamp = 100;
  seq = some seq;
  retry_count = 0;
  status = pending;
  last_error = none;
  base_revision = none;
  server_revision = none;
}

abbrev two_queued : Store
two_queued =
    ("a", queued_as "a" "1" 2) ∷ ("b", record (queued_as "b" "2" 1) { status = syncing }) ∷ []

abbrev kept_two : IsKeyed two_queued
kept_two = (refl, (refl, tt))

two_queued-IsMap : IsMap two_queued
unfolding get
two_queued-IsMap = (refl, (refl, tt))

-- The change of the first squad takes the place of the one that waits.
coalesced_ids :
    ids (get_all (enqueue_squad_mutation two_queued 200 "c" (change_of "1"))) ≡ "b" ∷ "a" ∷ []
unfolding enqueue_squad_mutation queued_mutation conflicting get_all sort_with get set
coalesced_ids = refl

abbrev all_accepted : List Mutation → Mutation → Reply
all_accepted sent m = accepted

-- The second request meets a server that is down.
abbrev first_accepted : List Mutation → Mutation → Reply
first_accepted [] m = accepted
first_accepted (n ∷ ms) m = refused true (
    api_error (record {
      status = 500;
      message = "down";
      has_deadline = false;
      is_offline = false;
      revision = none;
    }))

first_accepted-sent : ids (flush_queue first_accepted two_queued).sent ≡ "b" ∷ "a" ∷ []
unfolding flush_queue replay pending_ids get_all sort_with recover set get settle delete
    increment_mutation_retry
first_accepted-sent = refl

flush_queue-in_order_example :
    ((due : List Mutation) × AreDue (recover two_queued) due
      × IsSublist (ids (flush_queue first_accepted two_queued).sent) (ids due))
    × (is_put_back
          (flush_queue first_accepted two_queued).result.halted
          (flush_queue first_accepted two_queued).store
          (last_id (flush_queue first_accepted two_queued).sent)
        ≡ true)
flush_queue-in_order_example = flush_queue-in_order first_accepted two_queued kept_two

has_a : has two_queued "a" ≡ true
unfolding get
has_a = refl

flush_queue-no_loss_example :
    (is_known (flush_queue first_accepted two_queued) "a" ≡ true)
    × (length (flush_queue first_accepted two_queued).sent
        ≡ accounted (flush_queue first_accepted two_queued).result)
flush_queue-no_loss_example = flush_queue-no_loss first_accepted two_queued "a" has_a

flush_queue-settles_example :
    ((flush_queue all_accepted two_queued).result.halted ≡ none)
    × (is_queued (flush_queue all_accepted two_queued).store "b" ≡ false)
flush_queue-settles_example =
    flush_queue-settles all_accepted two_queued "b" (λ sent m. refl) two_queued-IsMap kept_two
