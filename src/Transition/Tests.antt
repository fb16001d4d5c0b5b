-- ===== src/Transition/Tests.antt =====
-- Runs of the transition functions, and the theorems at concrete inputs.
use qorechain_rdk.Prelude.{
  ℕ, ◌≡◌, refl, ◌≢◌, ◌⊎◌, true, false, none, some, [], ◌∷◌, ◌++◌, arith, length, replicate, ok, err,
}
use qorechain_rdk.Transition.Binding.{Covered, batch_transition_root_v2_binds, FitsInput, SameBatch}
use qorechain_rdk.Views.{Rest}
use qorechain_rdk.Transition.{
  TransitionError, truthy, missing_ids, v2, withdrawals_root_length, v1, v2_parts, bytes_of,
  fraud_proof, transition_root_version_for_batch, batch_transition_root_v2, TransitionInput,
}
use qorechain_rdk.Text.{js}
use qorechain_rdk.Text.Encoder.{utf8}
use qorechain_rdk.Bytes.{Bytes}
use qorechain_rdk.Bytes.Hex.{raw, hex_text}
use qorechain_rdk.QoreHash.{qorehash, Collision}
use qorechain_rdk.QoreHash.Toy.{toy_hash}

abbrev input : TransitionInput
input = record {
  prev_state_root = hex_text (js "0xAB01");
  data_hash = none;
  tx_count = 12;
  chain_id = some (js "qorechain-diana");
  rollup_id = some (js "my-rollup");
  withdrawals_root = none;
}

abbrev input_root : Bytes
input_root =
    qorehash toy_hash (v2_parts (js "qorechain-diana") (js "my-rollup") (0xab ∷ 1 ∷ []) [] 12 [])

root_run : batch_transition_root_v2 toy_hash input ≡ ok input_root
unfolding batch_transition_root_v2 bytes_of
root_run = refl

short_withdrawals_root_refused :
    batch_transition_root_v2 toy_hash (record input { withdrawals_root = some (raw (1 ∷ [])) })
    ≡ err (withdrawals_root_length 1)
unfolding batch_transition_root_v2 bytes_of
short_withdrawals_root_refused = refl

input_fits : FitsInput input
unfolding bytes_of utf8
input_fits = omega arith

batch_transition_root_v2_binds_example : SameBatch input input ⊎ Collision toy_hash
batch_transition_root_v2_binds_example =
    batch_transition_root_v2_binds toy_hash input input input_root input_fits input_fits root_run
      root_run

abbrev CasesOf : TransitionInput → Type 0
CasesOf i =
    ((root : Bytes) × (batch_transition_root_v2 toy_hash i ≡ ok root) × Covered toy_hash i root)
    ⊎ ((batch_transition_root_v2 toy_hash i ≡ err missing_ids)
        × ((truthy i.chain_id ≡ false) ⊎ (truthy i.rollup_id ≡ false)))
    ⊎ ((w : Bytes) × (batch_transition_root_v2 toy_hash i
          ≡ err (withdrawals_root_length (length w)))
        × (bytes_of i.withdrawals_root ≡ ok w)
        × (length w ≢ 0)
        × (length w ≢ 32))
    ⊎ ((e : TransitionError) × (batch_transition_root_v2 toy_hash i ≡ err e)
        × ((bytes_of i.withdrawals_root ≡ err e)
            ⊎ (bytes_of (some i.prev_state_root) ≡ err e)
            ⊎ (bytes_of i.data_hash ≡ err e)))

-- A node at which the upgrade was applied at height 100.
abbrev upgraded : Rest
upgraded = record {
  get_rollup = λ _. err [];
  get_batch = λ _ _. err [];
  get_latest_batch = λ _. err [];
  get_anchors = λ _. err [];
  get_latest_anchor = λ _. err [];
  get_pqc_account = λ _. err [];
  is_protocol_feature_enabled = λ _. ok true;
  get_applied_plan_height = λ _. ok 100;
}

judged_at_the_upgrade : transition_root_version_for_batch upgraded 100 none ≡ ok v2
unfolding transition_root_version_for_batch
judged_at_the_upgrade = refl

judged_before_the_upgrade : transition_root_version_for_batch upgraded 99 none ≡ ok v1
unfolding transition_root_version_for_batch
judged_before_the_upgrade = refl

abbrev a_root : ℕ → Bytes
a_root b = replicate 32 b

fraud_proof_run : fraud_proof (raw (a_root 1)) (raw (a_root 2)) ≡ ok (a_root 1 ++ a_root 2)
unfolding fraud_proof
fraud_proof_run = refl
