-- ===== src/Views/Mappers.antt =====
-- The mappers of packages/ts/src/client/views.ts.
use qorechain_rdk.Prelude.{ℕ, Option, none, some, [], ◌∷◌, Result, ok, ◌>>=◌}
use qorechain_rdk.Views.Json.{Json}
use Prim.Native.String.{String}
use qorechain_rdk.Text.{JsString, js, JsNumber}
use qorechain_rdk.Bytes.{Bytes}
use qorechain_rdk.Views.{RollupView, BatchView, AnchorView, PqcAccountView, ParamsView}
use qorechain_rdk.Views.Fields.{
  filled, only_true, text_given, hex_bytes, ViewError, RawRecord, pick, str_or, num, natural,
}

-- `pick(raw, snake, camel)`, and `pick(raw, key)`.
abbrev pub field2 : RawRecord → String → String → Option Json
field2 raw snake camel = pick raw (js snake ∷ js camel ∷ [])

abbrev pub field1 : RawRecord → String → Option Json
field1 raw key = pick raw (js key ∷ [])

abbrev pub natural_given : (JsString → Option JsNumber) → Option Json → Result ViewError (Option ℕ)
natural_given other value = elim (filled value) [
  | none ↦ ok none
  | some v ↦ (do n ← natural (num other (some v)); ok (some n))
]

module _ (base64_to_bytes : JsString → Bytes) (other : JsString → Option JsNumber) where
  unfoldable pub map_batch_view : RawRecord → Result ViewError BatchView
  unfolding num
  map_batch_view raw = do
    batch_index_ ← natural (num other (field2 raw "batch_index" "batchIndex"))
    tx_count_ ← natural (num other (field2 raw "tx_count" "txCount"))
    submitted_at_ ← natural (num other (field2 raw "submitted_at" "submittedAt"))
    finalized_at_ ← natural (num other (field2 raw "finalized_at" "finalizedAt"))
    submitted_time_ ← natural (num other (field2 raw "submitted_time" "submittedTime"))
    ok (record {
      rollup_id = str_or [] (field2 raw "rollup_id" "rollupId");
      batch_index = batch_index_;
      state_root = str_or [] (field2 raw "state_root" "stateRoot");
      prev_state_root = str_or [] (field2 raw "prev_state_root" "prevStateRoot");
      tx_count = tx_count_;
      data_hash = str_or [] (field2 raw "data_hash" "dataHash");
      proof_type = str_or [] (field2 raw "proof_type" "proofType");
      status = str_or [] (field1 raw "status");
      submitted_at = submitted_at_;
      finalized_at = finalized_at_;
      withdrawals_root = str_or [] (field2 raw "withdrawals_root" "withdrawalsRoot");
      withdrawals_bound = only_true (field2 raw "withdrawals_bound" "withdrawalsBound");
      submitted_time = submitted_time_;
    })

  unfoldable pub map_rollup_view : RawRecord → Result ViewError RollupView
  unfolding num
  map_rollup_view raw = do
    block_time_ms_ ← natural (num other (field2 raw "block_time_ms" "blockTimeMs"))
    max_tx_per_block_ ← natural (num other (field2 raw "max_tx_per_block" "maxTxPerBlock"))
    created_height_ ← natural (num other (field2 raw "created_height" "createdHeight"))
    challenge_window_sec_ ←
        natural_given other (field2 raw "challenge_window_sec" "challengeWindowSec")
    ok (record {
      rollup_id = str_or [] (field2 raw "rollup_id" "rollupId");
      creator = str_or [] (field1 raw "creator");
      profile = str_or [] (field1 raw "profile");
      settlement_mode = str_or [] (field2 raw "settlement_mode" "settlementMode");
      da_backend = str_or [] (field2 raw "da_backend" "daBackend");
      block_time_ms = block_time_ms_;
      max_tx_per_block = max_tx_per_block_;
      vm_type = str_or [] (field2 raw "vm_type" "vmType");
      status = str_or [] (field1 raw "status");
      stake_amount = str_or (js "0") (field2 raw "stake_amount" "stakeAmount");
      layer_id = str_or [] (field2 raw "layer_id" "layerId");
      created_height = created_height_;
      escrow_balance = str_or (js "0") (field2 raw "escrow_balance" "escrowBalance");
      challenge_window_sec = challenge_window_sec_;
      challenge_bond = text_given (field2 raw "challenge_bond" "challengeBond");
      proof_system = text_given (field2 raw "proof_system" "proofSystem");
      has_verification_key = only_true (field2 raw "has_verification_key" "hasVerificationKey");
    })

  unfoldable pub map_anchor_view : RawRecord → Result ViewError AnchorView
  unfolding hex_bytes num
  map_anchor_view raw = do
    layer_height_ ← natural (num other (field2 raw "layer_height" "layerHeight"))
    state_root_ ← hex_bytes base64_to_bytes (field2 raw "state_root" "stateRoot")
    validator_set_hash_ ←
        hex_bytes base64_to_bytes (field2 raw "validator_set_hash" "validatorSetHash")
    main_chain_height_ ← natural (num other (field2 raw "main_chain_height" "mainChainHeight"))
    anchored_at_ ← natural (num other (field2 raw "anchored_at" "anchoredAt"))
    pqc_signature_ ←
        hex_bytes base64_to_bytes (field2 raw "pqc_aggregate_signature" "pqcAggregateSignature")
    transaction_count_ ← natural (num other (field2 raw "transaction_count" "transactionCount"))
    compressed_state_proof_ ←
        hex_bytes base64_to_bytes (field2 raw "compressed_state_proof" "compressedStateProof")
    ok (record {
      layer_id = str_or [] (field2 raw "layer_id" "layerId");
      layer_height = layer_height_;
      state_root = state_root_;
      validator_set_hash = validator_set_hash_;
      main_chain_height = main_chain_height_;
      anchored_at = anchored_at_;
      pqc_signature = pqc_signature_;
      transaction_count = transaction_count_;
      compressed_state_proof = compressed_state_proof_;
    })

  unfoldable pub map_pqc_account_view : RawRecord → Result ViewError PqcAccountView
  unfolding hex_bytes num
  map_pqc_account_view raw = do
    public_key_ ← hex_bytes base64_to_bytes (field2 raw "public_key" "publicKey")
    algorithm_id_ ← natural (num other (field2 raw "algorithm_id" "algorithmId"))
    ecdsa_pubkey_ ← hex_bytes base64_to_bytes (field2 raw "ecdsa_pubkey" "ecdsaPubkey")
    ok (record {
      address = str_or [] (field1 raw "address");
      public_key = public_key_;
      algorithm_id = algorithm_id_;
      algorithm_name = str_or [] (field2 raw "algorithm_name" "algorithmName");
      ecdsa_pubkey = ecdsa_pubkey_;
    })

  unfoldable pub map_params_view : RawRecord → Result ViewError ParamsView
  unfolding num
  map_params_view raw = do
    max_rollups_ ← natural (num other (field2 raw "max_rollups" "maxRollups"))
    default_challenge_window_ ←
        natural (num other (field2 raw "default_challenge_window" "defaultChallengeWindow"))
    max_da_blob_size_ ← natural (num other (field2 raw "max_da_blob_size" "maxDaBlobSize"))
    blob_retention_blocks_ ←
        natural (num other (field2 raw "blob_retention_blocks" "blobRetentionBlocks"))
    max_batches_per_block_ ←
        natural (num other (field2 raw "max_batches_per_block" "maxBatchesPerBlock"))
    ok (record {
      max_rollups = max_rollups_;
      min_stake_for_rollup =
          str_or (js "0") (field2 raw "min_stake_for_rollup" "minStakeForRollup");
      rollup_creation_burn_rate =
          str_or (js "0") (field2 raw "rollup_creation_burn_rate" "rollupCreationBurnRate");
      default_challenge_window = default_challenge_window_;
      max_da_blob_size = max_da_blob_size_;
      blob_retention_blocks = blob_retention_blocks_;
      max_batches_per_block = max_batches_per_block_;
    })
