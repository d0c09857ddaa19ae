-- ===== src/Lib.antt =====
-- The core rules of the fantasy league, as definitions that run and theorems about them.
--
-- The backend holds squads of 15 players, scores them each gameweek, pays the prizes of a league and
-- lets winners claim them on chain. The parts modelled here are pure or keep their state in memory;
-- they meet in the gameweek: a squad that passed validation is scored, scores rank a league, a
-- distribution splits its pool, and a Merkle tree commits to the claims. The circuit breaker stands
-- before the upstream API that supplies players and statistics.
--
--   Prelude: lists, integers, division, maps and sorting, shared by all.
--   Rules: the constants of backend/src/types/index.ts (SQUAD_RULES) and the positions and chips.
--   Squad: backend/src/services/squad/squadValidator.ts. `validate_squad` is validateSquad, its checks
--     the functions that end in _errors, in the code's order; Squad/Legal says what a legal squad is.
--   Scoring/AutoSub: AutoSubstitutionEngine of backend/src/services/scoring/scoringService.ts;
--     a `Slot` is an entry of activeStarters with the starter that it replaced. Scoring/Lineup:
--     calculateLineupScore and resolveHeadToHead of the same file, the flags of the shared details
--     written as updates of the slots. Scoring/Formation: the FormationSolver of
--     backend/src/services/scoring/formationSolver.ts.
--   Prize: backend/src/services/league/prizeService.ts, in whole cents.
--   Merkle: backend/src/services/financial/merkleTree.ts. The loop of buildTree runs on fuel, the
--     number of leaves: a level of n nodes has (n + 1) / 2 above it, and the theorems on trees prove
--     that the last layer is reached.
--   Circuit: backend/src/services/fpl/circuitBreaker.ts. `execute` is cut at its await into
--     `begin_call` and `end_call`; `Step` interleaves calls, timers, trips and resets.
--   Draft: DraftService of backend/src/services/draft/draftService.ts, a pick under the league's lock
--     as one function of the service's state. Draft/Rooms: DraftRoomManager, which takes the service
--     and gives it back; makePick is cut at its await into `begin_pick` and `finish_pick`.
--   Webhooks: backend/src/services/webhooks/webhookRetryEngine.ts. `attempt` is the body of
--     executeAttempt on the record, the endpoint and its failures; `execute_attempt` writes them
--     back into the engine's maps.
--   Swiss: backend/src/services/league/swissTournamentEngine.ts. Swiss/Standings has the tie-breaks,
--     Swiss/Pairing computePairings and what it calls, Swiss/Rounds generateNextRound and Swiss/Results
--     submitRoundResults; Swiss/Steps is the life of a tournament as a relation. The search for a
--     pairing takes fuel, one more than the number of players, and a call has two players less than
--     the one that makes it; the fallback takes the number of players.
--   Offline: frontend/src/lib/offlineQueue.ts over its storage in memory. Offline/Flush is flushQueue,
--     with `claim_mutation`, `settle` for a request's end and `replay` for the loop; the record of
--     requests in a `Run` is the model's own. A flush is one step, without another tab in between.
--   Idempotency: the store in memory of backend/src/services/idempotency/idempotencyStore.ts and the
--     middleware backend/src/middleware/idempotency.ts. `claim_key` is the middleware up to the handler
--     and `settle` what follows it; any calls of the store may lie between the two.
--
-- Numbers are natural numbers or integers: money is in cents (or tenths of a million), times are in
-- milliseconds, and all values are taken to be below 2^53, where the code's numbers are exact. SHA-256,
-- the XDR encodings (which may refuse a value), the clock and the random draw are arguments.
--
-- Not modelled: the HTTP layer, the database, sockets, authentication, the Stellar and Soroban
-- clients and the contracts (calls of outside services or another language), squad names (classes of
-- a regular expression engine), statistics in floating point, and the
-- pages and components of the frontend.
pub mod Prelude
pub mod Prize
pub mod Rules
pub mod Squad
pub mod Scoring
pub mod Merkle
pub mod Circuit
pub mod Draft
pub mod Webhooks
pub mod Swiss
pub mod Offline
pub mod Idempotency
