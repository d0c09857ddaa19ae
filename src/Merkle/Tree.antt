-- ===== src/Merkle/Tree.antt =====
-- The layers of a Merkle tree, and how a node is hashed into the next one.
use fantasy_xi.Prelude.{
  ℕ, zero, suc, ◌+◌, ◌/◌, ◌≡◌, refl, ap, ◌∙◌, true, false, some, List, [], ◌∷◌, arith, ltb, length,
  get_elem?,
}
use fantasy_xi.Merkle.{
  Buffer, buffer_le, same_buffer, hash_pair, next_level, sibling, sibling_index,
}

buffer_le_antisym : (xs ys : Buffer) → buffer_le xs ys ≡ true → buffer_le ys xs ≡ true → xs ≡ ys
unfolding buffer_le
buffer_le_antisym [] [] h k = refl
buffer_le_antisym [] (y ∷ ys) h k = cc
buffer_le_antisym (x ∷ xs) [] h k = cc
buffer_le_antisym (x ∷ xs) (y ∷ ys) h k = ground (arith, buffer_le_antisym xs ys)

buffer_le_total : (xs ys : Buffer) → buffer_le xs ys ≡ false → buffer_le ys xs ≡ true
unfolding buffer_le
buffer_le_total [] ys h = cc
buffer_le_total (x ∷ xs) [] h = refl
buffer_le_total (x ∷ xs) (y ∷ ys) h = ground (arith, buffer_le_total xs ys)

pub same_buffer_refl : (xs : Buffer) → same_buffer xs xs ≡ true
unfolding same_buffer
same_buffer_refl [] = refl
same_buffer_refl (x ∷ xs) = ground (arith, same_buffer_refl xs)

ltb_skip : (i n : ℕ) → ltb (suc (suc i)) (suc (suc n)) ≡ ltb i n
ltb_skip i n = ground arith

half_skip : (idx : ℕ) → suc (suc idx) / 2 ≡ suc (idx / 2)
half_skip idx = omega arith

sibling_index_skip : (idx : ℕ) → sibling_index (suc (suc idx)) ≡ suc (suc (sibling_index idx))
unfolding sibling_index
sibling_index_skip idx = ground arith

sibling_skip :
    (a b : Buffer) (nodes : List Buffer) (idx : ℕ)
    → sibling (a ∷ b ∷ nodes) (suc (suc idx)) ≡ sibling nodes idx
unfolding sibling
sibling_skip a b nodes idx =
    rw (sibling_index_skip idx, ltb_skip (sibling_index idx) (length nodes))

sibling_alone : (a : Buffer) → sibling (a ∷ []) 0 ≡ some a
unfolding sibling sibling_index
sibling_alone a = refl

sibling_left : (a b : Buffer) (nodes : List Buffer) → sibling (a ∷ b ∷ nodes) 0 ≡ some b
unfolding sibling sibling_index
sibling_left a b nodes = ground arith

sibling_right : (a b : Buffer) (nodes : List Buffer) → sibling (a ∷ b ∷ nodes) 1 ≡ some a
unfolding sibling sibling_index
sibling_right a b nodes = ground arith

module _ (sha256 : Buffer → Buffer) where
  -- Siblings are hashed in sorted order, so their order does not matter.
  pub hash_pair_comm : (a b : Buffer) → hash_pair sha256 a b ≡ hash_pair sha256 b a
  unfolding hash_pair
  hash_pair_comm a b =
      ground (arith, buffer_le_antisym a b, buffer_le_total a b, buffer_le_total b a)

  pub length-next_level :
      (layer : List Buffer) → length (next_level sha256 layer) ≡ (length layer + 1) / 2
  unfolding next_level
  length-next_level [] = omega arith
  length-next_level (a ∷ []) = omega arith
  length-next_level (a ∷ b ∷ nodes) = omega (arith, length-next_level nodes)

  -- What stands above a node: its hash with the sibling that the proof takes.
  abbrev IsAbove : List Buffer → ℕ → Buffer → Type 0
  IsAbove layer idx node =
      (s : Buffer) × (sibling layer idx ≡ some s)
      × (get_elem? (next_level sha256 layer) (idx / 2) ≡ some (hash_pair sha256 node s))

  pub next_level-IsAbove :
      (layer : List Buffer) (idx : ℕ) (node : Buffer)
      → get_elem? layer idx ≡ some node
      → IsAbove layer idx node
  unfolding next_level sibling
  next_level-IsAbove [] idx node e = cc
  next_level-IsAbove (a ∷ []) zero node e = (a, sibling_alone a, ground arith)
  next_level-IsAbove (a ∷ []) (suc idx) node e = cc
  next_level-IsAbove (a ∷ b ∷ nodes) zero node e = (b, sibling_left a b nodes, ground arith)
  next_level-IsAbove (a ∷ b ∷ nodes) (suc zero) node e =
      (a, sibling_right a b nodes, ground (arith, hash_pair_comm a b))
  next_level-IsAbove (a ∷ b ∷ nodes) (suc (suc idx)) node e =
      let (s, found, above) = next_level-IsAbove nodes idx node e in
      (
        s,
        sibling_skip a b nodes idx ∙ found,
        ap (get_elem? (next_level sha256 (a ∷ b ∷ nodes))) (half_skip idx) ∙ above,
      )
