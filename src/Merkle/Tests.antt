-- ===== src/Merkle/Tests.antt =====
-- Runs of the Merkle functions over small hashes, and the theorems at concrete inputs.
use qorechain_rdk.Prelude.{◌≡◌, refl, ◌⊎◌, true, false, List, [], ◌∷◌, ◌++◌, arith, get_or, ok}
use qorechain_rdk.QoreHash.Toy.{toy_digest, toy_hash}
use qorechain_rdk.Merkle.Promotion.{promoted_leaf_refused}
use qorechain_rdk.Merkle.Verify.{verify-binary_merkle_proof}
use qorechain_rdk.Merkle.Binding.{verify_only_committed}
use qorechain_rdk.Merkle.{
  sibling_of, root_loop, next_level, proof_loop, climb, leaf_node, verify_binary_merkle_proof,
  binary_merkle_proof, binary_merkle_root, MerkleProof, Required,
}
use qorechain_rdk.Bytes.{Bytes}
use qorechain_rdk.QoreHash.{Collision}

abbrev chain_options : Required
chain_options = record { hash = toy_hash; hash_leaves = false; duplicate_odd = true }

abbrev promoting : Required
promoting = record { hash = λ _. 9 ∷ []; hash_leaves = true; duplicate_odd = false }

abbrev five_leaves : List Bytes
five_leaves = (1 ∷ []) ∷ (2 ∷ []) ∷ (3 ∷ []) ∷ (4 ∷ []) ∷ (5 ∷ []) ∷ []

abbrev last_path : List Bytes
last_path =
    (5 ∷ [])
    ∷ toy_hash (5 ∷ 5 ∷ [])
    ∷ toy_hash (toy_hash (1 ∷ 2 ∷ []) ++ toy_hash (3 ∷ 4 ∷ []))
    ∷ []

abbrev last_proof : MerkleProof
last_proof = record {
  siblings = last_path;
  root = binary_merkle_root chain_options five_leaves;
  index = 4;
}

last_built : binary_merkle_proof chain_options five_leaves 4 ≡ ok last_proof
unfolding binary_merkle_proof proof_loop next_level sibling_of binary_merkle_root root_loop
last_built = refl

last_verifies :
    verify_binary_merkle_proof chain_options
      (5 ∷ [])
      4
      last_path
      (binary_merkle_root chain_options five_leaves)
    ≡ true
unfolding verify_binary_merkle_proof climb binary_merkle_root root_loop next_level
last_verifies = refl

other_index_refused :
    verify_binary_merkle_proof chain_options
      (5 ∷ [])
      3
      last_path
      (binary_merkle_root chain_options five_leaves)
    ≡ false
unfolding verify_binary_merkle_proof climb binary_merkle_root root_loop next_level
other_index_refused = refl

-- A hash that keeps order apart: the promoted leaf's own proof is refused.
promoted_leaf_refused_run :
    verify_binary_merkle_proof
      (record { hash = toy_hash; hash_leaves = true; duplicate_odd = false })
      (3 ∷ [])
      2
      (toy_hash (toy_hash (1 ∷ []) ++ toy_hash (2 ∷ [])) ∷ [])
      (binary_merkle_root
        (record { hash = toy_hash; hash_leaves = true; duplicate_odd = false })
        ((1 ∷ []) ∷ (2 ∷ []) ∷ (3 ∷ []) ∷ []))
    ≡ false
unfolding verify_binary_merkle_proof climb binary_merkle_root root_loop next_level
promoted_leaf_refused_run = refl

verify-binary_merkle_proof_example :
    (p : MerkleProof) × (binary_merkle_proof chain_options five_leaves 4 ≡ ok p)
    × (p.index ≡ 4)
    × (p.root ≡ binary_merkle_root chain_options five_leaves)
    × (verify_binary_merkle_proof chain_options (get_or five_leaves 4 []) 4 p.siblings p.root
        ≡ true)
verify-binary_merkle_proof_example =
    verify-binary_merkle_proof chain_options five_leaves 4 refl (omega arith)

verify_only_committed_example :
    (((5 ∷ []) ≡ get_or five_leaves 4 []) × (last_path ≡ last_path)) ⊎ Collision toy_hash
verify_only_committed_example =
    verify_only_committed chain_options 1 five_leaves 4 (5 ∷ []) last_path last_proof toy_digest
      refl (omega arith) last_built refl refl last_verifies

abbrev promoted_proof : MerkleProof
promoted_proof = record { siblings = (9 ∷ []) ∷ []; root = 9 ∷ []; index = 2 }

promoted_built : binary_merkle_proof promoting ([] ∷ [] ∷ [] ∷ []) 2 ≡ ok promoted_proof
unfolding binary_merkle_proof proof_loop next_level sibling_of
promoted_built = refl

promoted_verifies :
    verify_binary_merkle_proof promoting [] 2 promoted_proof.siblings
      (binary_merkle_root promoting ([] ∷ [] ∷ [] ∷ []))
    ≡ true
unfolding verify_binary_merkle_proof climb binary_merkle_root root_loop next_level
promoted_verifies = refl

-- The verifier accepts here only since the hash maps everything to one value.
promoted_leaf_refused_example :
    (leaf_node promoting [] ≡ promoting.hash (leaf_node promoting [] ++ leaf_node promoting []))
    ⊎ Collision promoting.hash
promoted_leaf_refused_example =
    promoted_leaf_refused promoting 1 [] [] [] promoted_proof (λ x. refl) refl refl promoted_built
      promoted_verifies
