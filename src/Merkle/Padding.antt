-- ===== src/Merkle/Padding.antt =====
-- An odd level is hashed as if its last node stood there twice: what the root does not commit to.
use fantasy_xi.Prelude.{
  ℕ, zero, suc, ◌+◌, ◌%◌, ◌≤◌, ◌<◌, ◌≡◌, refl, sym, ap, ◌∙◌, true, Bool-cases, inl, inr, Option,
  none, some, List, [], ◌∷◌, ◌++◌, arith, ltb, length, length-append,
}
use fantasy_xi.Merkle.{Buffer, hash_pair, next_level, build_tree, merkle_tree, get_root}
use fantasy_xi.Merkle.Tree.{length-next_level}
use fantasy_xi.Merkle.Proof.{get_root_above}

-- The root of the tree over some leaves, if there are any.
abbrev pub root_of : (Buffer → Buffer) → List Buffer → Option Buffer
root_of sha256 leaves = elim (merkle_tree sha256 leaves) [ none ↦ none | some tree ↦ get_root tree ]

module _ (sha256 : Buffer → Buffer) where
  next_level-padded :
      (xs : List Buffer) (x : Buffer)
      → length xs % 2 ≡ 0
      → next_level sha256 (xs ++ x ∷ []) ≡ next_level sha256 (xs ++ x ∷ x ∷ [])
  unfolding next_level
  next_level-padded [] x even = refl
  next_level-padded (a ∷ []) x even = ground arith
  next_level-padded (a ∷ b ∷ xs) x even =
      ap (λ nodes. hash_pair sha256 a b ∷ nodes) (next_level-padded xs x (omega arith))

  build_tree-more_fuel :
      (fuel : ℕ) (layer : List Buffer)
      → length layer ≤ fuel + 1
      → build_tree sha256 (suc fuel) layer ≡ build_tree sha256 fuel layer
  unfolding build_tree
  build_tree-more_fuel zero layer few = ground arith
  build_tree-more_fuel (suc fuel) layer few = elim (Bool-cases (ltb 1 (length layer))) [
    | inl t ↦ rw t (
        ap (λ rest. layer ∷ rest)
          (build_tree-more_fuel fuel (next_level sha256 layer)
            (ground (arith, length-next_level sha256 layer))))
    | inr f ↦ rw f refl
  ]

  build_tree-step :
      (fuel : ℕ) (layer : List Buffer)
      → 1 < length layer
      → build_tree sha256 (suc fuel) layer
        ≡ layer ∷ build_tree sha256 fuel (next_level sha256 layer)
  unfolding build_tree
  build_tree-step fuel layer many = let t : ltb 1 (length layer) ≡ true = ground arith in rw t refl

  root_of-step :
      (leaves : List Buffer) (fuel : ℕ)
      → length leaves ≡ suc fuel
      → 1 < length leaves
      → root_of sha256 leaves ≡ get_root (build_tree sha256 fuel (next_level sha256 leaves))
  unfolding merkle_tree
  root_of-step [] fuel e many = ground arith
  root_of-step (x ∷ leaves) fuel e many =
      ap (λ n. get_root (build_tree sha256 n (x ∷ leaves))) e
      ∙ ap get_root (build_tree-step fuel (x ∷ leaves) many)
      ∙ get_root_above sha256 (x ∷ leaves) fuel (next_level sha256 (x ∷ leaves))

  -- The root does not commit to the number of leaves: when their number is odd and at least three,
  -- adding the last leaf once more leaves the root as it is.
  pub root_of-padded :
      (xs : List Buffer) (x : Buffer)
      → length xs % 2 ≡ 0
      → 0 < length xs
      → root_of sha256 (xs ++ x ∷ x ∷ []) ≡ root_of sha256 (xs ++ x ∷ [])
  root_of-padded xs x even some_leaf =
      let n = length xs in
      let odd = xs ++ x ∷ [] in
      let padded = xs ++ x ∷ x ∷ [] in
      let few : length (next_level sha256 odd) ≤ n + 1 =
        ground (arith, length-next_level sha256 odd, length-append xs (x ∷ [])) in
      root_of-step padded (suc n) (omega (arith, length-append xs (x ∷ x ∷ [])))
        (omega (arith, length-append xs (x ∷ x ∷ [])))
      ∙ ap (λ layer. get_root (build_tree sha256 (suc n) layer)) (sym (next_level-padded xs x even))
      ∙ ap get_root (build_tree-more_fuel n (next_level sha256 odd) few)
      ∙ sym (
          root_of-step odd n (omega (arith, length-append xs (x ∷ [])))
            (omega (arith, length-append xs (x ∷ []))))
