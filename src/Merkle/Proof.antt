-- ===== src/Merkle/Proof.antt =====
-- Proofs taken from a tree, climbed back to its root.
use fantasy_xi.Prelude.{
  ℕ, zero, suc, ◌+◌, ◌/◌, ◌≤◌, ◌<◌, ◌≡◌, refl, sym, ap, subst, ◌∙◌, true, Bool-cases, inl, inr,
  some, List, [], ◌∷◌, arith, ltb, length, get_elem?,
}
use fantasy_xi.Merkle.{
  Buffer, hash_pair, next_level, build_tree, merkle_tree, get_root, sibling, proof_from, get_proof,
  climb, verify_merkle_proof,
}
use fantasy_xi.Merkle.Tree.{same_buffer_refl, length-next_level, next_level-IsAbove}

get_elem?-< :
    (layer : List Buffer) (idx : ℕ) (node : Buffer)
    → get_elem? layer idx ≡ some node
    → idx < length layer
get_elem?-< [] idx node e = cc
get_elem?-< (x ∷ layer) zero node e = omega arith
get_elem?-< (x ∷ layer) (suc idx) node e = omega (arith, get_elem?-< layer idx node e)

ltb-true : (m n : ℕ) → m < n → ltb m n ≡ true
ltb-true m n h = ground arith

module _ (sha256 : Buffer → Buffer) where
  build_tree_head :
      (fuel : ℕ) (layer : List Buffer)
      → (rest : List (List Buffer)) × (build_tree sha256 fuel layer ≡ layer ∷ rest)
  unfolding build_tree
  build_tree_head zero layer = ([], refl)
  build_tree_head (suc fuel) layer = elim (Bool-cases (ltb 1 (length layer))) [
    | inl t ↦ (build_tree sha256 fuel (next_level sha256 layer), rw t)
    | inr f ↦ ([], rw f)
  ]

  pub get_root_above :
      (layer : List Buffer) (fuel : ℕ) (next : List Buffer)
      → get_root (layer ∷ build_tree sha256 fuel next) ≡ get_root (build_tree sha256 fuel next)
  unfolding get_root
  get_root_above layer fuel next = let (rest, e) = build_tree_head fuel next in rw e

  proof_from_above :
      (layer : List Buffer) (fuel : ℕ) (next : List Buffer) (idx : ℕ) (s : Buffer)
      (proof : List Buffer)
      → sibling layer idx ≡ some s
      → proof_from (build_tree sha256 fuel next) (idx / 2) ≡ some proof
      → proof_from (layer ∷ build_tree sha256 fuel next) idx ≡ some (s ∷ proof)
  unfolding proof_from
  proof_from_above layer fuel next idx s proof found above =
      let (rest, e) = build_tree_head fuel next in
      rw (e, found, sym (ap (λ tree. proof_from tree (idx / 2)) e) ∙ above)

  -- A node of the lowest layer has a proof, and the proof climbs to the root.
  abbrev pub Climbs : List (List Buffer) → ℕ → Buffer → Type 0
  Climbs tree idx node =
      (proof : List Buffer) × (proof_from tree idx ≡ some proof)
      × (get_root tree ≡ some (climb sha256 node proof))

  singleton-Climbs :
      (layer : List Buffer) (idx : ℕ) (node : Buffer)
      → length layer ≤ 1
      → get_elem? layer idx ≡ some node
      → Climbs (layer ∷ []) idx node
  unfolding proof_from get_root climb
  singleton-Climbs [] idx node few e = cc
  singleton-Climbs (x ∷ []) zero node few e = ([], refl, e)
  singleton-Climbs (x ∷ []) (suc idx) node few e = cc
  singleton-Climbs (x ∷ y ∷ layer) idx node few e = ground arith

  layer_above :
      (layer : List Buffer) (fuel : ℕ) (idx : ℕ) (node s : Buffer) (proof : List Buffer)
      → sibling layer idx ≡ some s
      → proof_from (build_tree sha256 fuel (next_level sha256 layer)) (idx / 2) ≡ some proof
      → get_root (build_tree sha256 fuel (next_level sha256 layer))
        ≡ some (climb sha256 (hash_pair sha256 node s) proof)
      → Climbs (layer ∷ build_tree sha256 fuel (next_level sha256 layer)) idx node
  unfolding climb
  layer_above layer fuel idx node s proof found climbs root = (
    s ∷ proof,
    proof_from_above layer fuel (next_level sha256 layer) idx s proof found climbs,
    get_root_above layer fuel (next_level sha256 layer) ∙ root,
  )

  build_tree-Climbs :
      (fuel : ℕ) (layer : List Buffer) (idx : ℕ) (node : Buffer)
      → length layer ≤ fuel + 1
      → get_elem? layer idx ≡ some node
      → Climbs (build_tree sha256 fuel layer) idx node
  unfolding build_tree
  build_tree-Climbs zero layer idx node few e = singleton-Climbs layer idx node few e
  build_tree-Climbs (suc fuel) layer idx node few e = elim (Bool-cases (ltb 1 (length layer))) [
    | inl t ↦
        let (s, found, at) = next_level-IsAbove sha256 layer idx node e in
        let (proof, climbs, root) =
          build_tree-Climbs fuel (next_level sha256 layer) (idx / 2) (hash_pair sha256 node s)
            (ground (arith, length-next_level sha256 layer)) at in
        rw t (layer_above layer fuel idx node s proof found climbs root)
    | inr f ↦ rw f (singleton-Climbs layer idx node (ground arith) e)
  ]

  get_proof-build_tree :
      (fuel : ℕ) (leaves : List Buffer) (idx : ℕ) (leaf : Buffer)
      → get_elem? leaves idx ≡ some leaf
      → get_proof (build_tree sha256 fuel leaves) idx
        ≡ proof_from (build_tree sha256 fuel leaves) idx
  unfolding get_proof
  get_proof-build_tree fuel leaves idx leaf at =
      let (rest, e) = build_tree_head fuel leaves in
      rw (e, ltb-true idx (length leaves) (get_elem?-< leaves idx leaf at))

  -- A leaf has a proof, and the proof verifies against the root of the tree.
  abbrev pub Verifies : List (List Buffer) → ℕ → Buffer → Type 0
  Verifies tree idx leaf =
      (proof : List Buffer) × (root : Buffer) × (get_proof tree idx ≡ some proof)
      × (get_root tree ≡ some root)
      × (verify_merkle_proof sha256 leaf proof root ≡ true)

  build_tree-Verifies :
      (leaves : List Buffer) (idx : ℕ) (leaf : Buffer)
      → get_elem? leaves idx ≡ some leaf
      → Verifies (build_tree sha256 (length leaves) leaves) idx leaf
  unfolding verify_merkle_proof
  build_tree-Verifies leaves idx leaf at =
      let (proof, climbs, root) =
        build_tree-Climbs (length leaves) leaves idx leaf (omega arith) at in
      (
        proof,
        climb sha256 leaf proof,
        get_proof-build_tree (length leaves) leaves idx leaf at ∙ climbs,
        root,
        same_buffer_refl (climb sha256 leaf proof),
      )

  -- Whatever the hash function, a tree made of some leaves gives each of them a proof, and
  -- verification accepts the leaf with that proof against the tree's root.
  pub get_proof-Verifies :
      (leaves : List Buffer) (tree : List (List Buffer)) (idx : ℕ) (leaf : Buffer)
      → merkle_tree sha256 leaves ≡ some tree
      → get_elem? leaves idx ≡ some leaf
      → Verifies tree idx leaf
  unfolding merkle_tree
  get_proof-Verifies [] tree idx leaf made at = cc
  get_proof-Verifies (x ∷ leaves) tree idx leaf made at =
      let same : build_tree sha256 (length (x ∷ leaves)) (x ∷ leaves) ≡ tree = cc in
      subst (λ t. Verifies t idx leaf) same (build_tree-Verifies (x ∷ leaves) idx leaf at)
