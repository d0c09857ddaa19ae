-- ===== src/Idempotency/Store.antt =====
-- The store as a map from keys to claims that end by themselves:
-- backend/src/services/idempotency/idempotencyStore.ts.
use Prim.Native.String.{String}
use native.Mathlib.Omega.{arith}
use fantasy_xi.Prelude.{
  ℕ, ◌≤◌, ◌≡◌, refl, ap, Option, none, some, leb, inl, inr, Bool-cases, if◌then◌else◌,
}
use fantasy_xi.Prelude.Dict.{
  get, set, delete, get-set, get-delete, get-delete_self, beq, string_eq, IsMap, IsMap-delete,
}
use fantasy_xi.Idempotency.{
  Records, Entry, Claim, RecordState, StoredResponse, read_entry, read, write_marked,
  write_completed, marked_entry, completed_entry, new_entry, begin_read, begin, if_owned,
  mark_in_progress, complete, release,
}

-- What the store holds at a time: an entry that has expired is none.
abbrev pub alive : ℕ → Option Entry → Option Entry
alive now none = none
alive now (some entry) = if leb entry.expires_at now then none else some entry

-- A call of the store, with its arguments after the key.
pub data Op : Type 0 where
  begins : String → String → ℕ → Op
  marks : String → ℕ → Op
  completes : String → RecordState → StoredResponse → ℕ → Op
  releases : String → Op

abbrev pub run_op : Records → ℕ → String → Op → Records
run_op s now key (begins fingerprint token ttl_ms) = (begin s now key fingerprint token ttl_ms).0
run_op s now key (marks token ttl_ms) = (mark_in_progress s now key token ttl_ms).0
run_op s now key (completes token state response ttl_seconds) =
    (complete s now key token state response ttl_seconds).0
run_op s now key (releases token) = (release s now key token).0

-- The same call on a cell by itself, which holds a claim that is alive or nothing.
abbrev pub owned_cell : String → (Entry → Option Entry) → Option Entry → Option Entry
owned_cell token changed none = none
owned_cell token changed (some entry) =
    if beq entry.claim.token token then changed entry else some entry

abbrev pub cell_op : ℕ → Op → Option Entry → Option Entry
cell_op now (begins fingerprint token ttl_ms) none = some (new_entry now fingerprint token ttl_ms)
cell_op now (begins fingerprint token ttl_ms) (some entry) = some entry
cell_op now (marks token ttl_ms) cell =
    owned_cell token (λ (entry : Entry). some (marked_entry now ttl_ms entry.claim)) cell
cell_op now (completes token state response ttl_seconds) cell =
    owned_cell token
      (λ (entry : Entry). some (completed_entry now state response ttl_seconds entry.claim)) cell
cell_op now (releases token) cell = owned_cell token (λ entry. none) cell

abbrev pub claims : Option Entry → Option Claim
claims none = none
claims (some entry) = some entry.claim

-- What a read gives of a cell, and that nobody sees the deletion of an expired entry.
abbrev IsRead : Records → ℕ → String → Option Entry → Records × Option Claim → Type 0
IsRead s later key cell (r, claim) =
    (claim ≡ claims cell)
    × IsMap r
    × ((j : String)
        → alive later (get r j) ≡ (if beq key j then alive later cell else alive later (get s j)))

same_cell :
    (s : Records) (later : ℕ) (key j : String) (cell : Option Entry)
    → alive later (get s key) ≡ alive later cell
    → alive later (get s j) ≡ (if beq key j then alive later cell else alive later (get s j))
same_cell s later key j cell h = ground (arith, (string_eq.beq_iff key j).0)

expired_cell :
    (s : Records) (now later : ℕ) (key j : String)
    → IsMap s
    → alive later (get (delete s key) j) ≡ (if beq key j then none else alive later (get s j))
expired_cell s now later key j maps =
    ground (arith, (string_eq.beq_iff key j).0, get-delete_self s key, get-delete s key j)

read_entry-IsRead :
    (s : Records) (now later : ℕ) (key : String) (found : Option Entry)
    → now ≤ later
    → IsMap s
    → get s key ≡ found
    → IsRead s later key (alive now found) (read_entry s now key found)
read_entry-IsRead s now later key none le maps e =
    (refl, maps, λ j. same_cell s later key j none (ap (alive later) e))
read_entry-IsRead s now later key (some entry) le maps e =
    elim (Bool-cases (leb entry.expires_at now)) [
      | inl over ↦ rw over (refl, IsMap-delete s key maps, λ j. expired_cell s now later key j maps)
      | inr on ↦ rw on (refl, maps, λ j. same_cell s later key j (some entry) (ap (alive later) e))
    ]

module _ (s : Records) (now later : ℕ) (key : String) where
  -- What becomes of the other cells and of this one.
  abbrev IsCell : Option Entry → Records → Type 0
  IsCell cell r =
      (j : String)
      → alive later (get r j) ≡ (if beq key j then alive later cell else alive later (get s j))

  begin-IsCell :
      (fingerprint token : String) (ttl_ms : ℕ) (cell : Option Entry) (r : Records)
      (claim : Option Claim)
      → IsRead s later key cell (r, claim)
      → IsCell
          (cell_op now (begins fingerprint token ttl_ms) cell)
          (begin_read now key fingerprint token ttl_ms (r, claim)).0
  begin-IsCell fingerprint token ttl_ms none r none (e, maps, h) j =
      ground (arith, h j, get-set r key j (new_entry now fingerprint token ttl_ms))
  begin-IsCell fingerprint token ttl_ms (some entry) r none (e, maps, h) j = cc
  begin-IsCell fingerprint token ttl_ms none r (some claim) (e, maps, h) j = cc
  begin-IsCell fingerprint token ttl_ms (some entry) r (some claim) (e, maps, h) j = h j

  -- A change by the owner, where the changed store has the changed cell.
  owned-IsCell :
      (token : String) (change : Records → Claim → Records) (changed : Entry → Option Entry)
      (cell : Option Entry) (r : Records) (claim : Option Claim)
      → IsRead s later key cell (r, claim)
      → ((entry : Entry) → IsCell (changed entry) (change r entry.claim))
      → IsCell (owned_cell token changed cell) (if_owned token change (r, claim)).0
  owned-IsCell token change changed none r none (e, maps, h) step j = h j
  owned-IsCell token change changed (some entry) r none (e, maps, h) step j = cc
  owned-IsCell token change changed none r (some claim) (e, maps, h) step j = cc
  owned-IsCell token change changed (some entry) r (some claim) (e, maps, h) step j =
      let same : claim ≡ entry.claim = cc in
      rw same (elim (Bool-cases (beq entry.claim.token token)) [
        | inl owner ↦ rw owner (step entry j)
        | inr other ↦ rw other (h j)
      ])

  set-IsCell :
      (r : Records) (cell : Option Entry) (claim : Option Claim) (entry : Entry)
      → IsRead s later key cell (r, claim)
      → IsCell (some entry) (set r key entry)
  set-IsCell r cell claim entry (e, maps, h) j = ground (arith, h j, get-set r key j entry)

  delete-IsCell :
      (r : Records) (cell : Option Entry) (claim : Option Claim)
      → IsRead s later key cell (r, claim)
      → IsCell none (delete r key)
  delete-IsCell r cell claim (e, maps, h) j =
      ground (arith, h j, (string_eq.beq_iff key j).0, get-delete_self r key, get-delete r key j)

-- The store is the map that it stands for. Seen at any later time, a call changes the cell of its key
-- as it would change that cell alone, begun, compared and set by token, or deleted, where an expired
-- entry counts as none; every other cell is as before.
pub run_op-cell :
    (s : Records) (now later : ℕ) (key : String) (op : Op) (j : String)
    → now ≤ later
    → IsMap s
    → alive later (get (run_op s now key op) j) ≡ (
        if beq key j
        then alive later (cell_op now op (alive now (get s key)))
        else alive later (get s j))
unfolding read begin mark_in_progress complete release
run_op-cell s now later key (begins fingerprint token ttl_ms) j le maps =
    let r = read_entry s now key (get s key) in
    begin-IsCell s now later key fingerprint token ttl_ms (alive now (get s key)) r.0 r.1
      (read_entry-IsRead s now later key (get s key) le maps refl) j
run_op-cell s now later key (marks token ttl_ms) j le maps =
    let r = read_entry s now key (get s key) in
    let h = read_entry-IsRead s now later key (get s key) le maps refl in
    owned-IsCell s now later key token (write_marked now key ttl_ms)
      (λ (entry : Entry). some (marked_entry now ttl_ms entry.claim)) (alive now (get s key)) r.0
      r.1 h
      (λ entry.
        set-IsCell s now later key r.0 (alive now (get s key)) r.1
          (marked_entry now ttl_ms entry.claim) h)
      j
run_op-cell s now later key (completes token state response ttl_seconds) j le maps =
    let r = read_entry s now key (get s key) in
    let h = read_entry-IsRead s now later key (get s key) le maps refl in
    owned-IsCell s now later key token (write_completed now key state response ttl_seconds)
      (λ (entry : Entry). some (completed_entry now state response ttl_seconds entry.claim))
      (alive now (get s key)) r.0 r.1 h
      (λ entry.
        set-IsCell s now later key r.0 (alive now (get s key)) r.1
          (completed_entry now state response ttl_seconds entry.claim) h)
      j
run_op-cell s now later key (releases token) j le maps =
    let r = read_entry s now key (get s key) in
    let h = read_entry-IsRead s now later key (get s key) le maps refl in
    owned-IsCell s now later key token (λ r claim. delete r key) (λ entry. none)
      (alive now (get s key)) r.0 r.1 h
      (λ entry. delete-IsCell s now later key r.0 (alive now (get s key)) r.1 h) j
