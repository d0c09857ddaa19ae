-- ===== src/Merkle/Tests.antt =====
-- A tree of three prizes, hashed by reversal, and the theorems at it.
use Prim.Native.String.{String}
use fantasy_xi.Prelude.{
  ℕ, Option, ltb, none, false, ◌≢◌, ◌≡◌, refl, some, List, [], ◌∷◌, ◌++◌, if◌then◌else◌,
}
use fantasy_xi.Prelude.Int.{ℤ, pos, negsuc}
use fantasy_xi.Prelude.Dict.{Dict, beq, string_eq}
use fantasy_xi.Merkle.{
  Buffer, hash_pair, buffer_le, next_level, build_tree, merkle_tree, sibling, sibling_index,
  proof_from, get_proof, WinnerClaimItem, MerkleClaimProof, Encoder, generate_league_merkle_tree,
}
use fantasy_xi.Merkle.Padding.{root_of, root_of-padded}
use fantasy_xi.Prelude.{arith}
use fantasy_xi.Merkle.Proof.{Verifies, get_proof-Verifies}
use fantasy_xi.Merkle.Claims.{IsEncodable, CanClaim, generate_league_merkle_tree-CanClaim}

abbrev reversal : Buffer → Buffer
reversal [] = []
reversal (x ∷ xs) = reversal xs ++ x ∷ []

abbrev three_leaves : List Buffer
three_leaves = (1 ∷ []) ∷ (2 ∷ []) ∷ (3 ∷ []) ∷ []

abbrev three_tree : List (List Buffer)
three_tree = three_leaves ∷ ((2 ∷ 1 ∷ []) ∷ (3 ∷ 3 ∷ []) ∷ []) ∷ ((3 ∷ 3 ∷ 1 ∷ 2 ∷ []) ∷ []) ∷ []

merkle_tree_made : merkle_tree reversal three_leaves ≡ some three_tree
unfolding merkle_tree build_tree next_level hash_pair buffer_le
merkle_tree_made = refl

second_proof : get_proof three_tree 2 ≡ some ((3 ∷ []) ∷ (2 ∷ 1 ∷ []) ∷ [])
unfolding get_proof proof_from sibling sibling_index
second_proof = refl

get_proof-Verifies_example : Verifies reversal three_tree 2 (3 ∷ [])
get_proof-Verifies_example =
    get_proof-Verifies reversal three_leaves three_tree 2 (3 ∷ []) merkle_tree_made refl

abbrev alice_address : String
alice_address = "GA7QYNF7SOWQ3GLR2BGMZEHXAVIRZA4KVWLTJJFC7MGXUA74P7UJVSGZ"

abbrev bob_address : String
bob_address = "GBRPYHIL2CI3FNQ4BXLFMNDLFJUNPU2HY3ZMFSHONUCEOASW7QC7OX2H"

-- One byte for a number below the bound.
abbrev below : ℕ → ℤ → Option Buffer
below bound (pos n) = if ltb n bound then some (n ∷ []) else none
below bound (negsuc n) = none

-- An encoder that takes these two addresses and numbers within the widths, and nothing else.
abbrev bytes : Encoder
bytes = record {
  u64 = below 18446744073709551616;
  address = λ a.
      if beq a alice_address
      then some (1 ∷ [])
      else if beq a bob_address
      then some (2 ∷ [])
      else none;
  i128 = below 170141183460469231731687303715884105728;
}

abbrev alice : WinnerClaimItem
alice = record { winner_address = alice_address; amount = some (pos 70) }

abbrev bob : WinnerClaimItem
bob = record { winner_address = bob_address; amount = some (pos 30) }

alice-IsEncodable : IsEncodable bytes alice
alice-IsEncodable = ((1 ∷ [], refl), (pos 70, refl, (70 ∷ [], refl)))

bob-IsEncodable : IsEncodable bytes bob
bob-IsEncodable = ((2 ∷ [], refl), (pos 30, refl, (30 ∷ [], refl)))

differ : (a b : String) → beq a b ≡ false → a ≢ b
differ a b h = ground (arith, string_eq.beq_iff a b)

generate_league_merkle_tree-CanClaim_example :
    (root : Buffer) × (proofs : Dict String MerkleClaimProof) × (generate_league_merkle_tree
        reversal bytes
        (some (pos 5))
        (bob ∷ alice ∷ bob ∷ [])
      ≡ some (root, proofs))
    × CanClaim reversal bytes (some (pos 5)) root proofs alice
generate_league_merkle_tree-CanClaim_example =
    generate_league_merkle_tree-CanClaim reversal bytes (some (pos 5)) (bob ∷ []) alice (bob ∷ [])
      (pos 5, refl, (5 ∷ [], refl)) (bob-IsEncodable, (alice-IsEncodable, (bob-IsEncodable, tt)))
      (differ bob_address alice_address refl, tt)

root_of-padded_example :
    root_of reversal ((1 ∷ []) ∷ (2 ∷ []) ∷ (3 ∷ []) ∷ (3 ∷ []) ∷ [])
    ≡ root_of reversal three_leaves
root_of-padded_example =
    root_of-padded reversal ((1 ∷ []) ∷ (2 ∷ []) ∷ []) (3 ∷ []) refl (omega arith)
