-- ===== src/Idempotency/Replay.antt =====
-- Exactly once: what a request gets after another one of its key has ended, whatever calls lie between
-- the two. backend/src/middleware/idempotency.ts over the store in memory.
use Prim.Native.String.{String}
use native.Mathlib.Omega.{arith}
use fantasy_xi.Prelude.{
  ℕ, ◌≤◌, ◌≡◌, refl, ◌∙◌, ap, Bool, true, false, not, ◌&&◌, Option, none, some, List, [], ◌∷◌, leb,
  inl, inr, Bool-cases, all, and-elim, if◌then◌else◌,
}
use fantasy_xi.Prelude.Dict.{get, delete, beq, string_eq, IsMap, IsMap-set, IsMap-delete}
use fantasy_xi.Idempotency.{
  Records, Entry, Claim, read_entry, read, begin, begin_read, write_marked, write_completed,
  marked_entry, completed_entry, new_entry, if_owned, mark_in_progress, complete, release,
}
use fantasy_xi.Idempotency.Store.{
  alive, Op, begins, marks, completes, releases, run_op, cell_op, run_op-cell,
}

-- A call of the store by anyone, at a time.
pub record Call : Type 0 where
  pub now : ℕ
  pub key : String
  pub op : Op

abbrev pub run_all : Records → List Call → Records
run_all s [] = s
run_all s (c ∷ calls) = run_all (run_op s c.now c.key c.op) calls

abbrev pub has_token : String → Op → Bool
has_token token (begins fingerprint t ttl_ms) = false
has_token token (marks t ttl_ms) = beq token t
has_token token (completes t state response ttl_seconds) = beq token t
has_token token (releases t) = beq token t

-- A call up to a time that does not have this token.
abbrev pub is_foreign : String → ℕ → Call → Bool
is_foreign token later c = leb c.now later && not (has_token token c.op)

read-IsMap :
    (s : Records) (now : ℕ) (key : String) (found : Option Entry)
    → IsMap s
    → IsMap (read_entry s now key found).0
read-IsMap s now key none maps = maps
read-IsMap s now key (some entry) maps = elim (Bool-cases (leb entry.expires_at now)) [
  | inl over ↦ rw over (IsMap-delete s key maps)
  | inr on ↦ rw on maps
]

if_owned-IsMap :
    (token : String) (change : Records → Claim → Records) (r : Records) (claim : Option Claim)
    → IsMap r
    → ((c : Claim) → IsMap (change r c))
    → IsMap (if_owned token change (r, claim)).0
if_owned-IsMap token change r none maps step = maps
if_owned-IsMap token change r (some c) maps step = elim (Bool-cases (beq c.token token)) [
  | inl owner ↦ rw owner (step c)
  | inr other ↦ rw other maps
]

begin-IsMap :
    (now : ℕ) (key fingerprint token : String) (ttl_ms : ℕ) (r : Records) (claim : Option Claim)
    → IsMap r
    → IsMap (begin_read now key fingerprint token ttl_ms (r, claim)).0
begin-IsMap now key fingerprint token ttl_ms r none maps =
    IsMap-set r key (new_entry now fingerprint token ttl_ms) maps
begin-IsMap now key fingerprint token ttl_ms r (some c) maps = maps

pub run_op-IsMap :
    (s : Records) (now : ℕ) (key : String) (op : Op) → IsMap s → IsMap (run_op s now key op)
unfolding read begin mark_in_progress complete release
run_op-IsMap s now key (begins fingerprint token ttl_ms) maps =
    let r = read_entry s now key (get s key) in
    begin-IsMap now key fingerprint token ttl_ms r.0 r.1 (read-IsMap s now key (get s key) maps)
run_op-IsMap s now key (marks token ttl_ms) maps =
    let r = read_entry s now key (get s key) in
    let m = read-IsMap s now key (get s key) maps in
    if_owned-IsMap token (write_marked now key ttl_ms) r.0 r.1 m
      (λ c. IsMap-set r.0 key (marked_entry now ttl_ms c) m)
run_op-IsMap s now key (completes token state response ttl_seconds) maps =
    let r = read_entry s now key (get s key) in
    let m = read-IsMap s now key (get s key) maps in
    if_owned-IsMap token (write_completed now key state response ttl_seconds) r.0 r.1 m
      (λ c. IsMap-set r.0 key (completed_entry now state response ttl_seconds c) m)
run_op-IsMap s now key (releases token) maps =
    let r = read_entry s now key (get s key) in
    let m = read-IsMap s now key (get s key) maps in
    if_owned-IsMap token (λ r c. delete r key) r.0 r.1 m (λ c. IsMap-delete r.0 key m)

alive-before :
    (now later : ℕ) (found : Option Entry) (entry : Entry)
    → now ≤ later
    → alive later found ≡ some entry
    → alive now found ≡ some entry
alive-before now later none entry le h = cc
alive-before now later (some e) entry le h = ground arith

foreign_cell :
    (now : ℕ) (op : Op) (entry : Entry)
    → has_token entry.claim.token op ≡ false
    → cell_op now op (some entry) ≡ some entry
foreign_cell now (begins fingerprint token ttl_ms) entry h = refl
foreign_cell now (marks token ttl_ms) entry h = rw h refl
foreign_cell now (completes token state response ttl_seconds) entry h = rw h refl
foreign_cell now (releases token) entry h = rw h refl

alive-again :
    (later : ℕ) (found : Option Entry) (entry : Entry)
    → alive later found ≡ some entry
    → alive later (some entry) ≡ some entry
alive-again later none entry h = cc
alive-again later (some e) entry h = ground arith

-- What a foreign call does to a cell whose claim is alive later on.
kept_cell :
    (now later : ℕ) (op : Op) (found : Option Entry) (entry : Entry)
    → now ≤ later
    → has_token entry.claim.token op ≡ false
    → alive later found ≡ some entry
    → alive later (cell_op now op (alive now found)) ≡ some entry
kept_cell now later op found entry le strange h =
    ap (λ c. alive later (cell_op now op c)) (alive-before now later found entry le h)
    ∙ ap (alive later) (foreign_cell now op entry strange)
    ∙ alive-again later found entry h

kept_either :
    (s : Records) (c : Call) (later : ℕ) (key : String) (entry : Entry)
    → (alive later (get s c.key) ≡ some entry
        → alive later (cell_op c.now c.op (alive c.now (get s c.key))) ≡ some entry)
    → alive later (get s key) ≡ some entry
    → (if beq c.key key
        then alive later (cell_op c.now c.op (alive c.now (get s c.key)))
        else alive later (get s key))
      ≡ some entry
kept_either s c later key entry here h = elim (Bool-cases (beq c.key key)) [
  | inl same ↦
      let at_key : get s c.key ≡ get s key = ap (get s) ((string_eq.beq_iff c.key key).0 same) in
      rw same (here (ap (alive later) at_key ∙ h))
  | inr other ↦ rw other h
]

-- Calls that do not have its token leave a claim as it is, for as long as it is alive.
pub run_all-kept :
    (calls : List Call) (s : Records) (later : ℕ) (key : String) (entry : Entry)
    → IsMap s
    → alive later (get s key) ≡ some entry
    → all (is_foreign entry.claim.token later) calls ≡ true
    → alive later (get (run_all s calls) key) ≡ some entry
run_all-kept [] s later key entry maps h foreign = h
run_all-kept (c ∷ calls) s later key entry maps h foreign =
    let split =
      and-elim (is_foreign entry.claim.token later c)
        (all (is_foreign entry.claim.token later) calls) foreign in
    let parts = and-elim (leb c.now later) (not (has_token entry.claim.token c.op)) split.0 in
    let le : c.now ≤ later = ground arith in
    let strange : has_token entry.claim.token c.op ≡ false = ground arith in
    run_all-kept calls (run_op s c.now c.key c.op) later key entry
      (run_op-IsMap s c.now c.key c.op maps)
      (run_op-cell s c.now later c.key c.op key le maps
        ∙ kept_either s c later key entry
            (kept_cell c.now later c.op (get s c.key) entry le strange) h)
      split.1
