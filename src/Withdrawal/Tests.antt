-- ===== src/Withdrawal/Tests.antt =====
-- Runs of the withdrawal functions, and the theorems at concrete inputs.
use qorechain_rdk.Prelude.{
  ◌+◌, ℕ, ◌≡◌, refl, ◌⊎◌, true, none, some, List, [], ◌∷◌, ◌++◌, arith, ok, err,
}
use qorechain_rdk.Withdrawal.{
  chain_id_missing, Withdrawal, leaf_of, leaves_from, leaf_input, v2_leaf_parts,
  WithdrawalLeafInput, chain_tree, withdrawals_tree, or_empty, WithdrawalProof, withdrawal_leaf_v2,
  TreeOptions, WithdrawalsTree, assemble_withdrawal_proof,
}
use qorechain_rdk.Text.{js}
use qorechain_rdk.Text.Encoder.{utf8}
use qorechain_rdk.Bytes.{Bytes, u64be, u32be, big_endian}
use qorechain_rdk.QoreHash.{qorehash, Collision}
use qorechain_rdk.QoreHash.Toy.{toy_hash, toy_digest}
use qorechain_rdk.Merkle.{
  resolved, binary_merkle_root, root_loop, next_level, binary_merkle_proof, proof_loop, sibling_of,
  verify_binary_merkle_proof, climb,
}
use qorechain_rdk.Transition.{v2}
use qorechain_rdk.Withdrawal.Leaf.{FitsLeafV2, SameWithdrawal, FitsLeafV1, withdrawal_leaf_v2_binds}
use qorechain_rdk.Withdrawal.Tree.{withdrawals_tree_proofs, withdrawals_tree_commits}

abbrev payout : ℕ → Withdrawal
payout n = record { recipient = js "qor1abc"; denom = js "uqor"; amount = n }

abbrev payouts : List Withdrawal
payouts = payout 5 ∷ payout 6 ∷ payout 7 ∷ []

abbrev options : TreeOptions
options = record {
  rollup_id = js "my-rollup";
  version = v2;
  chain_id = some (js "qorechain-diana");
}

abbrev leaf_at_index : ℕ → Bytes
leaf_at_index i =
    qorehash toy_hash (v2_leaf_parts (js "qorechain-diana") (leaf_input options i (payout (5 + i))))

abbrev tree : WithdrawalsTree
tree = record {
  root =
      binary_merkle_root (resolved toy_hash chain_tree)
        (leaf_at_index 0 ∷ leaf_at_index 1 ∷ leaf_at_index 2 ∷ []);
  leaves = leaf_at_index 0 ∷ leaf_at_index 1 ∷ leaf_at_index 2 ∷ [];
}

tree_built : withdrawals_tree toy_hash payouts options ≡ ok tree
unfolding withdrawals_tree leaves_from leaf_of withdrawal_leaf_v2
tree_built = refl

no_chain_refused :
    withdrawals_tree toy_hash payouts (record options { chain_id = none }) ≡ err chain_id_missing
unfolding withdrawals_tree leaves_from leaf_of withdrawal_leaf_v2
no_chain_refused = refl

abbrev middle_path : List Bytes
middle_path = leaf_at_index 0 ∷ qorehash toy_hash ((leaf_at_index 2 ++ leaf_at_index 2) ∷ []) ∷ []

abbrev middle_proof : WithdrawalProof
middle_proof = record { proof = middle_path; withdrawals_root = tree.root; withdrawal_index = 1 }

middle_made : assemble_withdrawal_proof toy_hash tree.leaves 1 chain_tree ≡ ok middle_proof
unfolding assemble_withdrawal_proof binary_merkle_proof proof_loop next_level sibling_of
    binary_merkle_root root_loop
middle_made = refl

middle_verifies :
    verify_binary_merkle_proof
      (resolved toy_hash chain_tree)
      (leaf_at_index 1)
      1
      middle_path
      tree.root
    ≡ true
unfolding verify_binary_merkle_proof climb binary_merkle_root root_loop next_level qorehash utf8
    u64be u32be big_endian
middle_verifies = refl

withdrawals_tree_proofs_example :
    (leaf : Bytes) × (q : WithdrawalProof) × (leaf_of toy_hash options
        (leaf_input options 1 (payout 6))
      ≡ ok leaf)
    × (assemble_withdrawal_proof toy_hash tree.leaves 1 chain_tree ≡ ok q)
    × (q.withdrawals_root ≡ tree.root)
    × (q.withdrawal_index ≡ 1)
    × (verify_binary_merkle_proof (resolved toy_hash chain_tree) leaf 1 q.proof tree.root ≡ true)
withdrawals_tree_proofs_example =
    withdrawals_tree_proofs toy_hash options payouts tree 1 (payout 6) tree_built refl

abbrev middle_input : WithdrawalLeafInput
middle_input = leaf_input options 1 (payout 6)

middle_fits : FitsLeafV2 (js "qorechain-diana") middle_input
unfolding utf8
middle_fits = omega arith

middle_leaf : withdrawal_leaf_v2 toy_hash (js "qorechain-diana") middle_input ≡ ok (leaf_at_index 1)
unfolding withdrawal_leaf_v2
middle_leaf = refl

withdrawals_tree_commits_example :
    ((utf8 (js "qorechain-diana") ≡ utf8 (or_empty options.chain_id))
      × SameWithdrawal middle_input (leaf_input options 1 (payout 6))
      × (middle_path ≡ middle_proof.proof))
    ⊎ Collision toy_hash
withdrawals_tree_commits_example =
    withdrawals_tree_commits toy_hash 1 options payouts tree 1 (payout 6) middle_proof
      (js "qorechain-diana") middle_input (leaf_at_index 1) middle_path toy_digest refl tree_built
      refl middle_made middle_fits middle_fits middle_leaf refl middle_verifies

middle_fits_v1 : FitsLeafV1 middle_input
unfolding utf8
middle_fits_v1 = omega arith

withdrawal_leaf_v2_binds_example :
    ((utf8 (js "qorechain-diana") ≡ utf8 (js "qorechain-diana"))
      × SameWithdrawal middle_input middle_input)
    ⊎ Collision toy_hash
withdrawal_leaf_v2_binds_example =
    withdrawal_leaf_v2_binds toy_hash (js "qorechain-diana") (js "qorechain-diana") middle_input
      middle_input (leaf_at_index 1) middle_fits middle_fits middle_leaf middle_leaf
