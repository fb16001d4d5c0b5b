-- ===== src/Withdrawal.antt =====
-- packages/ts/src/bridge/withdrawal.ts: withdrawal leaves, the tree over a batch's withdrawals and the
-- proof that a withdrawal message carries. `amount` is the integer that `BigInt(amount)` gives.
pub mod Leaf
pub mod Tree
mod Tests
use qorechain_rdk.Prelude.{
  ◌>>=◌, ℕ, suc, true, false, Option, none, some, List, [], ◌∷◌, ◌++◌, ◌==◌, if◌then◌else◌, length,
  Result, ok, err,
}
use qorechain_rdk.Text.{JsString, js, is_empty}
use qorechain_rdk.Text.Encoder.{utf8}
use qorechain_rdk.Bytes.{Bytes, u64be}
use qorechain_rdk.QoreHash.{qorehash}
use qorechain_rdk.Merkle.{
  MerkleOptions, MerkleError, resolved, binary_merkle_root, binary_merkle_proof,
}
use qorechain_rdk.Transition.{TransitionRootVersion, v1, v2, field}

pub record WithdrawalLeafInput : Type 0 where
  pub rollup_id : JsString
  pub withdrawal_index : ℕ
  pub recipient : JsString
  pub denom : JsString
  pub amount : ℕ

-- The withdrawal of a batch, before its index and rollup are added.
pub record Withdrawal : Type 0 where
  pub recipient : JsString
  pub denom : JsString
  pub amount : ℕ

pub data WithdrawalError : Type 0 where
  chain_id_missing : WithdrawalError
  no_withdrawals : WithdrawalError
  merkle_error : MerkleError → WithdrawalError

abbrev pub v1_leaf_parts : WithdrawalLeafInput → List Bytes
v1_leaf_parts w =
    utf8 w.rollup_id
    ∷ (0 ∷ [])
    ∷ u64be w.withdrawal_index
    ∷ utf8 w.recipient
    ∷ (0 ∷ [])
    ∷ utf8 w.denom
    ∷ (0 ∷ [])
    ∷ u64be w.amount
    ∷ []

abbrev pub v2_leaf_parts : JsString → WithdrawalLeafInput → List Bytes
v2_leaf_parts chain_id w =
    field (utf8 (js "qorechain-rdk-withdrawal/v2"))
    ++ (field (utf8 chain_id)
        ++ (field (utf8 w.rollup_id)
            ++ (u64be w.withdrawal_index
                ∷ (field (utf8 w.recipient) ++ (field (utf8 w.denom) ++ (u64be w.amount ∷ []))))))

module _ (shake : Bytes → Bytes) where
  unfoldable pub withdrawal_leaf_v1 : WithdrawalLeafInput → Bytes
  withdrawal_leaf_v1 w = qorehash shake (v1_leaf_parts w)

  unfoldable pub withdrawal_leaf_v2 : JsString → WithdrawalLeafInput → Result WithdrawalError Bytes
  withdrawal_leaf_v2 chain_id w =
      if is_empty chain_id
      then err chain_id_missing
      else ok (qorehash shake (v2_leaf_parts chain_id w))

pub record TreeOptions : Type 0 where
  pub rollup_id : JsString
  pub version : TransitionRootVersion
  pub chain_id : Option JsString

-- `{ ...w, rollupId: opts.rollupId, withdrawalIndex: i }`.
abbrev pub leaf_input : TreeOptions → ℕ → Withdrawal → WithdrawalLeafInput
leaf_input opts i w = record {
  rollup_id = opts.rollup_id;
  withdrawal_index = i;
  recipient = w.recipient;
  denom = w.denom;
  amount = w.amount;
}

abbrev pub or_empty : Option JsString → JsString
or_empty none = []
or_empty (some s) = s

abbrev pub chain_tree : MerkleOptions
chain_tree = record { hash = none; hash_leaves = some false; duplicate_odd = some true }

pub record WithdrawalProof : Type 0 where
  pub proof : List Bytes
  pub withdrawals_root : Bytes
  pub withdrawal_index : ℕ

-- The tree's `proof` method is `assemble_withdrawal_proof` of its leaves.
pub record WithdrawalsTree : Type 0 where
  pub root : Bytes
  pub leaves : List Bytes

module _ (shake : Bytes → Bytes) where
  unfoldable pub leaf_of : TreeOptions → WithdrawalLeafInput → Result WithdrawalError Bytes
  leaf_of opts input = elim opts.version [
    | v2 ↦ withdrawal_leaf_v2 shake (or_empty opts.chain_id) input
    | v1 ↦ ok (withdrawal_leaf_v1 shake input)
  ]

  -- `withdrawals.map((w, i) => …)`, from index `i` on.
  unfoldable pub leaves_from :
      TreeOptions → ℕ → List Withdrawal → Result WithdrawalError (List Bytes)
  leaves_from opts i [] = ok []
  leaves_from opts i (w ∷ ws) = do
    leaf ← leaf_of opts (leaf_input opts i w)
    leaves ← leaves_from opts (suc i) ws
    ok (leaf ∷ leaves)

  unfoldable pub withdrawals_tree :
      List Withdrawal → TreeOptions → Result WithdrawalError WithdrawalsTree
  withdrawals_tree withdrawals opts = if length withdrawals == 0 then err no_withdrawals else do
    leaves ← leaves_from opts 0 withdrawals
    ok (record { root = binary_merkle_root (resolved shake chain_tree) leaves; leaves = leaves })

  unfoldable pub assemble_withdrawal_proof :
      List Bytes → ℕ → MerkleOptions → Result MerkleError WithdrawalProof
  assemble_withdrawal_proof leaves withdrawal_index options = do
    p ← binary_merkle_proof (resolved shake options) leaves withdrawal_index
    ok (record {
      proof = p.siblings;
      withdrawals_root = p.root;
      withdrawal_index = withdrawal_index;
    })

pub record ExecuteWithdrawalInput : Type 0 where
  pub submitter : JsString
  pub rollup_id : JsString
  pub batch_index : ℕ
  pub withdrawal_index : ℕ
  pub recipient : JsString
  pub denom : JsString
  pub amount : ℕ
  pub proof : List Bytes

unfoldable pub build_execute_withdrawal_input :
    JsString → JsString → ℕ → JsString → JsString → ℕ → WithdrawalProof → ExecuteWithdrawalInput
build_execute_withdrawal_input submitter rollup_id batch_index recipient denom amount withdrawal =
    record {
      submitter = submitter;
      rollup_id = rollup_id;
      batch_index = batch_index;
      withdrawal_index = withdrawal.withdrawal_index;
      recipient = recipient;
      denom = denom;
      amount = amount;
      proof = withdrawal.proof;
    }
