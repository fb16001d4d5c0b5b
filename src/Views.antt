-- ===== src/Views.antt =====
-- packages/ts/src/client/views.ts: the typed views of the chain's answers, and the read client as an
-- interface. Counters, heights and times of the chain are unsigned, so they are natural numbers.
pub mod Doubles
pub mod Json
pub mod Fields
pub mod Mappers
pub mod RoundTrip
mod Tests
use qorechain_rdk.Prelude.{ℕ, Bool, Option, List, Result}
use qorechain_rdk.Text.{JsString}

pub record RollupView : Type 0 where
  pub rollup_id : JsString
  pub creator : JsString
  pub profile : JsString
  pub settlement_mode : JsString
  pub da_backend : JsString
  pub block_time_ms : ℕ
  pub max_tx_per_block : ℕ
  pub vm_type : JsString
  pub status : JsString
  pub stake_amount : JsString
  pub layer_id : JsString
  pub created_height : ℕ
  pub escrow_balance : JsString
  pub challenge_window_sec : Option ℕ
  pub challenge_bond : Option JsString
  pub proof_system : Option JsString
  pub has_verification_key : Option Bool

pub record BatchView : Type 0 where
  pub rollup_id : JsString
  pub batch_index : ℕ
  pub state_root : JsString
  pub prev_state_root : JsString
  pub tx_count : ℕ
  pub data_hash : JsString
  pub proof_type : JsString
  pub status : JsString
  pub submitted_at : ℕ
  pub finalized_at : ℕ
  pub withdrawals_root : JsString
  pub withdrawals_bound : Option Bool
  pub submitted_time : ℕ

pub record AnchorView : Type 0 where
  pub layer_id : JsString
  pub layer_height : ℕ
  pub state_root : JsString
  pub validator_set_hash : JsString
  pub main_chain_height : ℕ
  pub anchored_at : ℕ
  pub pqc_signature : JsString
  pub transaction_count : ℕ
  pub compressed_state_proof : JsString

pub record PqcAccountView : Type 0 where
  pub address : JsString
  pub public_key : JsString
  pub algorithm_id : ℕ
  pub algorithm_name : JsString
  pub ecdsa_pubkey : JsString

pub record ParamsView : Type 0 where
  pub max_rollups : ℕ
  pub min_stake_for_rollup : JsString
  pub rollup_creation_burn_rate : JsString
  pub default_challenge_window : ℕ
  pub max_da_blob_size : ℕ
  pub blob_retention_blocks : ℕ
  pub max_batches_per_block : ℕ

-- The reads that the kit makes: each answers or throws an error with a message. What the node says
-- during one call of the kit is one such record.
pub record Rest : Type 0 where
  pub get_rollup : JsString → Result JsString RollupView
  pub get_batch : JsString → ℕ → Result JsString BatchView
  pub get_latest_batch : JsString → Result JsString BatchView
  pub get_anchors : JsString → Result JsString (List AnchorView)
  pub get_latest_anchor : JsString → Result JsString AnchorView
  pub get_pqc_account : JsString → Result JsString PqcAccountView
  pub is_protocol_feature_enabled : JsString → Result JsString Bool
  pub get_applied_plan_height : JsString → Result JsString ℕ

-- The client: the reads, the network's chain id and the height from which anchors are signed as v2.
pub record RdkClient : Type 0 where
  pub rest : Rest
  pub chain_id : JsString
  pub anchor_sign_v2_height : ℕ
