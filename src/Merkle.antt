-- ===== src/Merkle.antt =====
-- backend/src/services/financial/merkleTree.ts: prize claims as leaves of a Merkle tree, proofs and
-- their verification. A buffer is its list of bytes, a hex text the buffer that it encodes. SHA-256
-- (node:crypto) and the XDR encodings of the Stellar SDK are parameters.
pub mod Tree
pub mod Proof
pub mod Claims
pub mod Padding
mod Tests
use Prim.Native.String.{String}
use fantasy_xi.Prelude.{
  ℕ, zero, suc, ◌+◌, ◌-◌, ◌/◌, ◌%◌, Bool, true, false, ◌&&◌, ◌||◌, Option, none, some, List, [],
  ◌∷◌, ◌++◌, map, ltb, leb, ◌==◌, if◌then◌else◌, length, get_elem?,
}
use fantasy_xi.Prelude.Int.{ℤ}
use fantasy_xi.Prelude.Dict.{Dict, set, string_eq}

abbrev pub Buffer : Type 0
Buffer = List ℕ

infixl 5 ◌>>=◌
abbrev pub ◌>>=◌ {ℓ κ} : {X : Type ℓ} {Y : Type κ} → Option X → (X → Option Y) → Option Y
some x >>= next = next x
none >>= next = none

-- `Buffer.compare(left, right) <= 0`: by bytes, a prefix before its extensions.
pub buffer_le : Buffer → Buffer → Bool
buffer_le [] ys = true
buffer_le (x ∷ xs) [] = false
buffer_le (x ∷ xs) (y ∷ ys) = ltb x y || (x == y && buffer_le xs ys)

pub same_buffer : Buffer → Buffer → Bool
same_buffer [] [] = true
same_buffer (x ∷ xs) (y ∷ ys) = x == y && same_buffer xs ys
same_buffer _ _ = false

-- The `else` of an odd level pairs a node with itself.
module _ (sha256 : Buffer → Buffer) where
  pub hash_pair : Buffer → Buffer → Buffer
  hash_pair left right = sha256 (if buffer_le left right then left ++ right else right ++ left)

  pub next_level : List Buffer → List Buffer
  next_level [] = []
  next_level (a ∷ []) = hash_pair a a ∷ []
  next_level (a ∷ b ∷ nodes) = hash_pair a b ∷ next_level nodes

  -- `buildTree`: the layers from `current` up, with one round of fuel for each pass of the loop.
  pub build_tree : ℕ → List Buffer → List (List Buffer)
  build_tree zero current = current ∷ []
  build_tree (suc fuel) current =
      let rest = build_tree fuel (next_level current) in
      if ltb 1 (length current) then current ∷ rest else current ∷ []

  -- The constructor refuses an empty list of leaves.
  pub merkle_tree : List Buffer → Option (List (List Buffer))
  merkle_tree [] = none
  merkle_tree (leaf ∷ leaves) = some (build_tree (length (leaf ∷ leaves)) (leaf ∷ leaves))

-- `layers[layers.length - 1][0]`
pub get_root : List (List Buffer) → Option Buffer
get_root [] = none
get_root (layer ∷ []) = get_elem? layer 0
get_root (layer ∷ next ∷ layers) = get_root (next ∷ layers)

pub sibling_index : ℕ → ℕ
sibling_index idx = if idx % 2 == 1 then idx - 1 else idx + 1

pub sibling : List Buffer → ℕ → Option Buffer
sibling layer idx =
    if ltb (sibling_index idx) (length layer)
    then get_elem? layer (sibling_index idx)
    else get_elem? layer idx

-- The loop of `getProof`, over all layers but the last.
pub proof_from : List (List Buffer) → ℕ → Option (List Buffer)
proof_from [] idx = some []
proof_from (layer ∷ []) idx = some []
proof_from (layer ∷ next ∷ layers) idx = do
  node ← sibling layer idx
  rest ← proof_from (next ∷ layers) (idx / 2)
  some (node ∷ rest)

-- An index out of bounds throws.
pub get_proof : List (List Buffer) → ℕ → Option (List Buffer)
unfolding proof_from
get_proof [] idx = none
get_proof (leaves ∷ layers) idx =
    if ltb idx (length leaves) then proof_from (leaves ∷ layers) idx else none

module _ (sha256 : Buffer → Buffer) where
  -- The loop of `verifyMerkleProof`.
  pub climb : Buffer → List Buffer → Buffer
  climb current [] = current
  climb current (node ∷ proof) = climb (hash_pair sha256 current node) proof

  pub verify_merkle_proof : Buffer → List Buffer → Buffer → Bool
  verify_merkle_proof leaf proof expected_root = same_buffer (climb leaf proof) expected_root

-- What `BigInt` reads from an identifier or an amount; none where it throws.
abbrev pub Numeral : Type 0
Numeral = Option ℤ

pub record WinnerClaimItem : Type 0 where
  pub winner_address : String
  pub amount : Numeral

pub record MerkleClaimProof : Type 0 where
  pub league_id : Numeral
  pub winner_address : String
  pub amount : ℤ
  pub proof : List Buffer
  pub root : Buffer

-- The XDR encodings of a claim's three values: an integer out of range, or a text that is no address,
-- throws.
pub record Encoder : Type 0 where
  pub u64 : ℤ → Option Buffer
  pub address : String → Option Buffer
  pub i128 : ℤ → Option Buffer

module _ (sha256 : Buffer → Buffer) (xdr : Encoder) where
  pub hash_claim_leaf : Numeral → String → Numeral → Option Buffer
  hash_claim_leaf league_id winner amount = do
    league_int ← league_id
    amount_int ← amount
    league ← xdr.u64 league_int
    address ← xdr.address winner
    value ← xdr.i128 amount_int
    some (sha256 (league ++ (address ++ value)))

  pub claim_leaves : Numeral → List WinnerClaimItem → Option (List Buffer)
  unfolding hash_claim_leaf
  claim_leaves league_id [] = some []
  claim_leaves league_id (w ∷ winners) = do
    leaf ← hash_claim_leaf league_id w.winner_address w.amount
    leaves ← claim_leaves league_id winners
    some (leaf ∷ leaves)

-- `winners.forEach`: a proof for each winner under the address, from index `idx`.
pub claim_proofs_from :
    List (List Buffer)
    → Numeral
    → Buffer
    → ℕ
    → List WinnerClaimItem
    → Dict String MerkleClaimProof
    → Option (Dict String MerkleClaimProof)
claim_proofs_from tree league_id root idx [] proofs = some proofs
claim_proofs_from tree league_id root idx (w ∷ winners) proofs = do
  amount ← w.amount
  proof ← get_proof tree idx
  claim_proofs_from tree league_id root (idx + 1) winners (
      set proofs w.winner_address (record {
        league_id = league_id;
        winner_address = w.winner_address;
        amount = amount;
        proof = proof;
        root = root;
      }))

module _ (sha256 : Buffer → Buffer) (xdr : Encoder) where
  -- The root and the proofs; an empty list of winners throws, and a winner who cannot be encoded.
  pub generate_league_merkle_tree :
      Numeral → List WinnerClaimItem → Option (Buffer × Dict String MerkleClaimProof)
  generate_league_merkle_tree league_id winners = do
    leaves ← claim_leaves sha256 xdr league_id winners
    tree ← merkle_tree sha256 leaves
    root ← get_root tree
    proofs ← claim_proofs_from tree league_id root 0 winners []
    some (root, proofs)
