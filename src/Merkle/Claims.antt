-- ===== src/Merkle/Claims.antt =====
-- The claims of a league's winners, and what the tree's root does and does not commit to.
use Prim.Native.String.{String}
use fantasy_xi.Prelude.{
  ℕ, zero, suc, ◌+◌, ◌≤◌, ◌<◌, ◌≡◌, ◌≢◌, refl, ap, ◌∙◌, true, some, List, [], ◌∷◌, ◌++◌, arith,
  length, length-append, get_elem?, All,
}
use fantasy_xi.Prelude.Int.{ℤ}
use fantasy_xi.Prelude.Dict.{Dict, get, set, get-set, get-set_self, string_eq}
use fantasy_xi.Merkle.{
  Numeral, Buffer, build_tree, merkle_tree, get_proof, verify_merkle_proof, WinnerClaimItem,
  MerkleClaimProof, Encoder, hash_claim_leaf, claim_leaves, claim_proofs_from,
  generate_league_merkle_tree,
}
use fantasy_xi.Merkle.Proof.{get_proof-Verifies}

module _ (league_id : Numeral) (root : Buffer) where
  abbrev claim : WinnerClaimItem → ℤ → List Buffer → MerkleClaimProof
  claim w amount proof = record {
    league_id = league_id;
    winner_address = w.winner_address;
    amount = amount;
    proof = proof;
    root = root;
  }

skip_one : (idx n : ℕ) → idx + suc n ≡ (idx + 1) + n
skip_one idx n = omega arith

skip_none : (idx : ℕ) → idx + 0 ≡ idx
skip_none idx = omega arith

get-set_other :
    {V : Type 0} (m : Dict String V) (k j : String) (v : V) → k ≢ j → get (set m k v) j ≡ get m j
get-set_other m k j v differ = ground (arith, get-set m k j v, string_eq.beq_iff k j)

-- The amount is a whole number.
abbrev HasAmount : WinnerClaimItem → Type 0
HasAmount w = (amount : ℤ) × (w.amount ≡ some amount)

abbrev HasProofs : List (List Buffer) → ℕ → Type 0
HasProofs tree n = (i : ℕ) → i < n → (proof : List Buffer) × (get_proof tree i ≡ some proof)

module _ (tree : List (List Buffer)) (league_id : Numeral) (root : Buffer) (n : ℕ)
    (proved : HasProofs tree n) where
  -- Other winners leave the entry of an address alone.
  claim_proofs-get_other :
      (winners : List WinnerClaimItem) (idx : ℕ) (proofs : Dict String MerkleClaimProof)
      (address : String)
      → idx + length winners ≤ n
      → All HasAmount winners
      → All (λ v. v.winner_address ≢ address) winners
      → (result : Dict String MerkleClaimProof) × (claim_proofs_from tree league_id root idx winners
            proofs
          ≡ some result)
        × (get result address ≡ get proofs address)
  unfolding claim_proofs_from
  claim_proofs-get_other [] idx proofs address bound numbers others = (proofs, refl, refl)
  claim_proofs-get_other (w ∷ winners) idx proofs address bound numbers others =
      let (amount, number) = numbers.0 in
      let (proof, e) = proved idx (omega arith) in
      let (result, f, g) =
        claim_proofs-get_other winners (idx + 1)
          (set proofs w.winner_address (claim league_id root w amount proof)) address (omega arith)
          numbers.1 others.1 in
      (
        result,
        rw (number, e) f,
        g
            ∙ get-set_other proofs w.winner_address address (claim league_id root w amount proof)
                others.0,
      )

  claim_proofs-get :
      (before : List WinnerClaimItem) (w : WinnerClaimItem) (after : List WinnerClaimItem) (idx : ℕ)
      (proofs : Dict String MerkleClaimProof)
      → idx + length (before ++ w ∷ after) ≤ n
      → All HasAmount (before ++ w ∷ after)
      → All (λ v. v.winner_address ≢ w.winner_address) after
      → (result : Dict String MerkleClaimProof) × (proof : List Buffer) × (amount : ℤ) × (w.amount
          ≡ some amount)
        × (claim_proofs_from tree league_id root idx (before ++ w ∷ after) proofs ≡ some result)
        × (get_proof tree (idx + length before) ≡ some proof)
        × (get result w.winner_address ≡ some (claim league_id root w amount proof))
  unfolding claim_proofs_from
  claim_proofs-get [] w after idx proofs bound numbers others =
      let (amount, number) = numbers.0 in
      let (proof, e) = proved idx (omega arith) in
      let (result, f, g) =
        claim_proofs-get_other after (idx + 1)
          (set proofs w.winner_address (claim league_id root w amount proof)) w.winner_address
          (omega arith) numbers.1 others in
      (
        result,
        proof,
        amount,
        number,
        rw (number, e) f,
        ap (get_proof tree) (skip_none idx) ∙ e,
        g ∙ get-set_self proofs w.winner_address (claim league_id root w amount proof),
      )
  claim_proofs-get (v ∷ before) w after idx proofs bound numbers others =
      let (amount, number) = numbers.0 in
      let (proof, e) = proved idx (omega arith) in
      let (result, taken, own, own_number, f, at, g) =
        claim_proofs-get before w after (idx + 1)
          (set proofs v.winner_address (claim league_id root v amount proof)) (omega arith)
          numbers.1 others in
      (
        result,
        taken,
        own,
        own_number,
        rw (number, e) f,
        ap (get_proof tree) (skip_one idx (length before)) ∙ at,
        g,
      )

same_proof :
    (tree : List (List Buffer)) (i : ℕ) (p q : List Buffer)
    → get_proof tree i ≡ some p
    → get_proof tree (0 + i) ≡ some q
    → p ≡ q
same_proof tree i p q e f =
    let eq : get_proof tree (0 + i) ≡ get_proof tree i = ap (get_proof tree) (omega arith) in cc

get_elem?-found :
    (xs : List Buffer) (i : ℕ) → i < length xs → (x : Buffer) × (get_elem? xs i ≡ some x)
get_elem?-found [] i h = ground arith
get_elem?-found (x ∷ xs) zero h = (x, refl)
get_elem?-found (x ∷ xs) (suc i) h = get_elem?-found xs i (omega arith)

module _ (sha256 : Buffer → Buffer) where
  merkle_tree-made :
      (leaves : List Buffer)
      → 0 < length leaves
      → (tree : List (List Buffer)) × (merkle_tree sha256 leaves ≡ some tree)
  unfolding merkle_tree
  merkle_tree-made [] h = ground arith
  merkle_tree-made (leaf ∷ leaves) h =
      (build_tree sha256 (length (leaf ∷ leaves)) (leaf ∷ leaves), refl)

  merkle_tree-HasProofs :
      (leaves : List Buffer) (tree : List (List Buffer))
      → merkle_tree sha256 leaves ≡ some tree
      → HasProofs tree (length leaves)
  merkle_tree-HasProofs leaves tree made i h =
      let (leaf, at) = get_elem?-found leaves i h in
      let (proof, root, proved, rooted, verified) =
        get_proof-Verifies sha256 leaves tree i leaf made at in
      (proof, proved)

-- The winner's amount is a whole number, and the encodings take it and the winner's address.
abbrev pub IsEncodable : Encoder → WinnerClaimItem → Type 0
IsEncodable xdr w =
    ((address : Buffer) × (xdr.address w.winner_address ≡ some address))
    × ((amount : ℤ) × (w.amount ≡ some amount)
        × ((value : Buffer) × (xdr.i128 amount ≡ some value)))

-- So is the league's identifier.
abbrev pub IsLeague : Encoder → Numeral → Type 0
IsLeague xdr league_id =
    (id : ℤ) × (league_id ≡ some id) × ((league : Buffer) × (xdr.u64 id ≡ some league))

encodable-HasAmount :
    (xdr : Encoder) (winners : List WinnerClaimItem)
    → All (IsEncodable xdr) winners
    → All HasAmount winners
encodable-HasAmount xdr [] h = tt
encodable-HasAmount xdr (w ∷ winners) h =
    let ((address, a), (amount, number, v)) = h.0 in
    ((amount, number), encodable-HasAmount xdr winners h.1)

module _ (sha256 : Buffer → Buffer) (xdr : Encoder) (league_id : Numeral) where
  hash_claim_leaf-made :
      (w : WinnerClaimItem)
      → IsLeague xdr league_id
      → IsEncodable xdr w
      → (leaf : Buffer) × (hash_claim_leaf sha256 xdr league_id w.winner_address w.amount
          ≡ some leaf)
  unfolding hash_claim_leaf
  hash_claim_leaf-made w (id, named, (league, known)) ((address, a), (amount, number, (value, v))) =
      (sha256 (league ++ (address ++ value)), rw (named, number, known, a, v) refl)

  claim_leaves-made :
      (winners : List WinnerClaimItem)
      → IsLeague xdr league_id
      → All (IsEncodable xdr) winners
      → (leaves : List Buffer) × (claim_leaves sha256 xdr league_id winners ≡ some leaves)
        × (length leaves ≡ length winners)
  unfolding claim_leaves
  claim_leaves-made [] known encodable = ([], refl, refl)
  claim_leaves-made (w ∷ winners) known encodable =
      let (leaf, e) = hash_claim_leaf-made w known encodable.0 in
      let (leaves, f, n) = claim_leaves-made winners known encodable.1 in
      (leaf ∷ leaves, rw (e, f) refl, ap suc n)

  claim_leaves-get :
      (before : List WinnerClaimItem) (w : WinnerClaimItem) (after : List WinnerClaimItem)
      → IsLeague xdr league_id
      → All (IsEncodable xdr) (before ++ w ∷ after)
      → (leaves : List Buffer) × (leaf : Buffer) × (claim_leaves sha256 xdr league_id
            (before ++ w ∷ after)
          ≡ some leaves)
        × (length leaves ≡ length (before ++ w ∷ after))
        × (hash_claim_leaf sha256 xdr league_id w.winner_address w.amount ≡ some leaf)
        × (get_elem? leaves (length before) ≡ some leaf)
  unfolding claim_leaves
  claim_leaves-get [] w after known encodable =
      let (leaf, e) = hash_claim_leaf-made w known encodable.0 in
      let (leaves, f, n) = claim_leaves-made after known encodable.1 in
      (leaf ∷ leaves, leaf, rw (e, f) refl, ap suc n, e, refl)
  claim_leaves-get (v ∷ before) w after known encodable =
      let (other, e) = hash_claim_leaf-made v known encodable.0 in
      let (leaves, leaf, f, n, g, at) = claim_leaves-get before w after known encodable.1 in
      (other ∷ leaves, leaf, rw (e, f) refl, ap suc n, g, at)

  -- What a winner finds in the result: a claim under the address, for the amount, whose proof
  -- verifies for the winner's leaf against the root.
  abbrev pub CanClaim : Buffer → Dict String MerkleClaimProof → WinnerClaimItem → Type 0
  CanClaim root proofs w =
      (c : MerkleClaimProof) × (leaf : Buffer) × (get proofs w.winner_address ≡ some c)
      × (w.amount ≡ some c.amount)
      × (c.root ≡ root)
      × (hash_claim_leaf sha256 xdr league_id w.winner_address w.amount ≡ some leaf)
      × (verify_merkle_proof sha256 leaf c.proof root ≡ true)

  -- For any hash function, where the league's identifier and the amounts are whole numbers and the
  -- encodings take them and the address of every winner, the generation of a league's tree from a list of winners succeeds, and a
  -- winner whose address no later winner shares can claim with the result.
  pub generate_league_merkle_tree-CanClaim :
      (before : List WinnerClaimItem) (w : WinnerClaimItem) (after : List WinnerClaimItem)
      → IsLeague xdr league_id
      → All (IsEncodable xdr) (before ++ w ∷ after)
      → All (λ v. v.winner_address ≢ w.winner_address) after
      → (root : Buffer) × (proofs : Dict String MerkleClaimProof) × (generate_league_merkle_tree
            sha256 xdr league_id
            (before ++ w ∷ after)
          ≡ some (root, proofs))
        × CanClaim root proofs w
  unfolding generate_league_merkle_tree
  generate_league_merkle_tree-CanClaim before w after known encodable others =
      let (leaves, leaf, hashed, n, own, at_leaf) =
        claim_leaves-get before w after known encodable in
      let (tree, made) =
        merkle_tree-made sha256 leaves (ground (arith, length-append before (w ∷ after))) in
      let (proof, root, proved, rooted, verified) =
        get_proof-Verifies sha256 leaves tree (length before) leaf made at_leaf in
      let (proofs, taken, amount, number, done, at, found) =
        claim_proofs-get tree league_id root (length leaves)
          (merkle_tree-HasProofs sha256 leaves tree made) before w after 0 [] (omega arith)
          (encodable-HasAmount xdr (before ++ w ∷ after) encodable) others in
      let same : proof ≡ taken = same_proof tree (length before) proof taken proved at in
      (
        root,
        proofs,
        rw (hashed, made, rooted, done),
        (claim league_id root w amount taken, leaf, found, number, refl, own, rw (← same) verified),
      )
