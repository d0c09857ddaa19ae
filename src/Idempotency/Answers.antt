-- ===== src/Idempotency/Answers.antt =====
-- Exactly once: the answer to a request whose key another request has used before:
-- backend/src/middleware/idempotency.ts over the store in memory.
use Prim.Native.String.{String}
use native.Mathlib.Omega.{arith}
use fantasy_xi.Prelude.{
  ℕ, ◌≤◌, ◌<◌, ◌≡◌, refl, ◌∙◌, ap, Bool, true, not, ◌||◌, Option, none, some, ltb, if◌then◌else◌,
}
use fantasy_xi.Prelude.Dict.{get, set, get-set_self, beq_refl, string_eq, IsMap}
use fantasy_xi.Idempotency.{
  Records, Entry, Claim, RecordState, completed, failed, StoredResponse, read_entry, read, begin,
  begin_read, write_marked, new_entry, if_owned, mark_in_progress, claim_key, settle, run_handler,
  is_transient_status, started, answer_begun,
}
use fantasy_xi.Idempotency.Store.{alive, Op, releases, run_op, cell_op, run_op-cell}

read_entry-alive :
    (s : Records) (now : ℕ) (key : String) (found : Option Entry) (entry : Entry)
    → alive now found ≡ some entry
    → read_entry s now key found ≡ (s, some entry.claim)
read_entry-alive s now key none entry h = cc
read_entry-alive s now key (some e) entry h = ground arith

abbrev pub final_state : ℕ → RecordState
final_state status = if ltb status 400 then completed else failed

settle-transient :
    (s : Records) (now : ℕ) (key token : String) (finished : Bool) (response : StoredResponse)
    (ttl_seconds : ℕ)
    → (not finished || is_transient_status response.status_code) ≡ true
    → (settle s now key token finished response ttl_seconds).0 ≡ run_op s now key (releases token)
unfolding settle
settle-transient s now key token finished response ttl_seconds transient = rw transient refl

-- What a call by the owner of a claim that is alive leaves at its key.
run_op-own :
    (s : Records) (now later : ℕ) (key : String) (op : Op) (entry : Entry)
    → now ≤ later
    → IsMap s
    → alive now (get s key) ≡ some entry
    → alive later (get (run_op s now key op) key) ≡ alive later (cell_op now op (some entry))
run_op-own s now later key op entry le maps h =
    run_op-cell s now later key op key le maps
    ∙ rw (beq_refl key) (ap (λ c. alive later (cell_op now op c)) h)

released-none :
    (now later : ℕ) (entry : Entry)
    → alive later (cell_op now (releases entry.claim.token) (some entry)) ≡ none
released-none now later entry = rw (beq_refl entry.claim.token) refl

read_entry-none :
    (s : Records) (now : ℕ) (key : String) (found : Option Entry)
    → alive now found ≡ none
    → (read_entry s now key found).1 ≡ none
read_entry-none s now key none h = refl
read_entry-none s now key (some e) h = ground arith

new_entry-alive :
    (r : Records) (now : ℕ) (key fingerprint token : String) (ttl_ms : ℕ)
    → 0 < ttl_ms
    → alive now (get (set r key (new_entry now fingerprint token ttl_ms)) key)
      ≡ some (new_entry now fingerprint token ttl_ms)
new_entry-alive r now key fingerprint token ttl_ms positive =
    rw (get-set_self r key (new_entry now fingerprint token ttl_ms)) (ground arith)

-- The claim that a request makes is its own, and is alive when it is marked.
begun-run_handler :
    (now : ℕ) (key fingerprint token : String) (ttl_ms : ℕ) (r : Records) (claim : Option Claim)
    → claim ≡ none
    → 0 < ttl_ms
    → (answer_begun now key fingerprint ttl_ms
        (begin_read now key fingerprint token ttl_ms (r, claim))).1
      ≡ run_handler token
unfolding mark_in_progress read
begun-run_handler now key fingerprint token ttl_ms r (some c) e positive = cc
begun-run_handler now key fingerprint token ttl_ms r none e positive =
    let claimed = set r key (new_entry now fingerprint token ttl_ms) in
    ap (λ read_first. (started token (if_owned token (write_marked now key ttl_ms) read_first)).1)
      (read_entry-alive claimed now key (get claimed key) (new_entry now fingerprint token ttl_ms)
        (new_entry-alive r now key fingerprint token ttl_ms positive))
    ∙ rw (beq_refl token) refl

claim_key-free :
    (s : Records) (now : ℕ) (key fingerprint token : String) (ttl_ms : ℕ)
    → alive now (get s key) ≡ none
    → 0 < ttl_ms
    → (claim_key s now key fingerprint token ttl_ms).1 ≡ run_handler token
unfolding claim_key begin read
claim_key-free s now key fingerprint token ttl_ms h positive =
    let r = read_entry s now key (get s key) in
    begun-run_handler now key fingerprint token ttl_ms r.0 r.1
      (read_entry-none s now key (get s key) h) positive

-- A request that was cut off or that ended with a transient status, while its claim was alive, gives
-- the key free: the next request of the key runs the handler, whatever its fingerprint.
pub settle-released :
    (s : Records) (now later : ℕ) (key : String) (entry : Entry) (finished : Bool)
    (response : StoredResponse) (ttl_seconds : ℕ) (fingerprint token : String) (ttl_ms : ℕ)
    → IsMap s
    → alive now (get s key) ≡ some entry
    → (not finished || is_transient_status response.status_code) ≡ true
    → now ≤ later
    → 0 < ttl_ms
    → (claim_key
        (settle s now key entry.claim.token finished response ttl_seconds).0
        later
        key
        fingerprint
        token
        ttl_ms).1
      ≡ run_handler token
settle-released s now later key entry finished response ttl_seconds fingerprint token ttl_ms maps h
      transient le positive =
    let op = releases entry.claim.token in
    ap (λ r. (claim_key r later key fingerprint token ttl_ms).1)
      (settle-transient s now key entry.claim.token finished response ttl_seconds transient)
    ∙ claim_key-free (run_op s now key op) later key fingerprint token ttl_ms
        (run_op-own s now later key op entry le maps h ∙ released-none now later entry) positive
