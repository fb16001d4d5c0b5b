-- ===== src/Receipts/Tests.antt =====
-- Settlement receipts on a small chain: one rollup, one batch, one anchor, and a signature check that
-- accepts the byte that is the length of key and message together.
use qorechain_rdk.Prelude.{
  ◌+◌, ◌%◌, ℕ, ◌≡◌, refl, ◌↔◌, Bool, true, not, ◌&&◌, none, some, [], ◌∷◌, arith, length, Result,
  ok, err,
}
use qorechain_rdk.Receipts.Build.Verifies.{build_settlement_receipt_verifies}
use qorechain_rdk.Receipts.Verify.Complete.{verify_settlement_receipt_iff}
use qorechain_rdk.Receipts.Verify.Reproduced.{Reproduced}
use qorechain_rdk.Receipts.SignBytes.Laws.{FitsMessage, anchor_sign_bytes_v2_binds, SameAnchor}
use qorechain_rdk.Receipts.Verify.Offline.{
  verify_settlement_receipt_offline, signed_by, NothingOfChain,
}
use qorechain_rdk.Receipts.Verify.Agrees.{verified_receipt-Agrees, Agrees}
use qorechain_rdk.Bytes.Hex.{parse_pairs, strip_0x, bytes_to_hex, hex_to_bytes, decode_wire_bytes}
use qorechain_rdk.QoreHash.{concat_parts}
use qorechain_rdk.Text.Encoder.{utf8}
use qorechain_rdk.Receipts.SignBytes.{v2_message_parts, AnchorMessage, anchor_sign_bytes_v2}
use qorechain_rdk.Receipts.Signature.{
  message_of, anchor_sign_bytes_version_for, anchor_message, signature_over,
}
use qorechain_rdk.Receipts.Build.{BuiltFrom, covered_by, build_settlement_receipt}
use qorechain_rdk.Text.{JsString, js, str_eq, whole}
use qorechain_rdk.Bytes.{big_endian, u64be, Bytes}
use qorechain_rdk.Views.{RollupView, BatchView, AnchorView, PqcAccountView, Rest, RdkClient}
use qorechain_rdk.Receipts.{
  truthy, is_some, anchor_field_mismatch, receipt_schema_error, receipt_from_parts,
  SettlementReceipt,
}
use qorechain_rdk.Receipts.Report.{VerifyReceiptOptions}
use qorechain_rdk.Receipts.Verify.{
  signature_step, chain_step, creator_step, batch_root_hex, field_step, matched_step, anchors_step,
  root_step, batch_step, rollup_step, verify_with, verify_settlement_receipt,
}

abbrev toy_verify : Bytes → Bytes → Bytes → Result JsString Bool
toy_verify key message signature = ok (str_eq signature ((length key + length message) % 256 ∷ []))

abbrev no_base64 : JsString → Bytes
no_base64 s = []

abbrev toy_rollup : RollupView
toy_rollup = record {
  rollup_id = js "r";
  creator = js "me";
  profile = js "defi";
  settlement_mode = js "optimistic";
  da_backend = js "native";
  block_time_ms = 1000;
  max_tx_per_block = 10;
  vm_type = js "evm";
  status = js "active";
  stake_amount = js "1";
  layer_id = js "l";
  created_height = 1;
  escrow_balance = js "0";
  challenge_window_sec = none;
  challenge_bond = none;
  proof_system = none;
  has_verification_key = none;
}

abbrev toy_batch : BatchView
toy_batch = record {
  rollup_id = js "r";
  batch_index = 3;
  state_root = js "ab";
  prev_state_root = [];
  tx_count = 2;
  data_hash = [];
  proof_type = js "fraud";
  status = js "finalized";
  submitted_at = 90;
  finalized_at = 99;
  withdrawals_root = [];
  withdrawals_bound = none;
  submitted_time = 0;
}

abbrev toy_anchor : AnchorView
toy_anchor = record {
  layer_id = js "l";
  layer_height = 3;
  state_root = js "ab";
  validator_set_hash = js "cd";
  main_chain_height = 100;
  anchored_at = 5;
  pqc_signature = js "5b";
  transaction_count = 2;
  compressed_state_proof = [];
}

abbrev toy_account : PqcAccountView
toy_account = record {
  address = js "me";
  public_key = js "01";
  algorithm_id = 1;
  algorithm_name = js "dilithium5";
  ecdsa_pubkey = [];
}

abbrev toy_rest : Rest
toy_rest = record {
  get_rollup = λ id. ok toy_rollup;
  get_batch = λ id i. ok toy_batch;
  get_latest_batch = λ _. err [];
  get_anchors = λ id. ok (toy_anchor ∷ []);
  get_latest_anchor = λ id. ok toy_anchor;
  get_pqc_account = λ a. ok toy_account;
  is_protocol_feature_enabled = λ f. ok true;
  get_applied_plan_height = λ p. ok 50;
}

abbrev toy_client : RdkClient
toy_client = record { rest = toy_rest; chain_id = js "q"; anchor_sign_v2_height = 50 }

abbrev toy_receipt : SettlementReceipt
toy_receipt = record {
  version = whole 2;
  chain_id = some (js "q");
  rollup_id = js "r";
  layer_id = js "l";
  batch_index = 3;
  creator = js "me";
  algorithm = js "ML-DSA-87";
  state_root = js "ab";
  layer_height = 3;
  validator_set_hash = js "cd";
  main_chain_height = 100;
  anchored_at = 5;
  pqc_signature = js "5b";
  batch_state_root = js "ab";
  transaction_count = some 2;
  compressed_state_proof = some [];
}

abbrev with_client : VerifyReceiptOptions
with_client = record { client = some toy_client; creator_public_key = none }

toy_valid : (verify_settlement_receipt toy_verify no_base64 toy_receipt with_client).valid ≡ true
unfolding verify_settlement_receipt verify_with rollup_step batch_step root_step anchors_step
    matched_step field_step creator_step chain_step signature_step signature_over anchor_message
    anchor_sign_bytes_v2 anchor_sign_bytes_version_for hex_to_bytes strip_0x parse_pairs
    decode_wire_bytes bytes_to_hex batch_root_hex utf8 u64be big_endian receipt_schema_error
    anchor_field_mismatch receipt_from_parts
toy_valid = refl

toy_built : build_settlement_receipt no_base64 toy_client (js "r") 3 ≡ ok toy_receipt
unfolding build_settlement_receipt covered_by decode_wire_bytes hex_to_bytes strip_0x parse_pairs
    bytes_to_hex batch_root_hex receipt_from_parts
toy_built = refl

verify_settlement_receipt_iff_example :
    ((verify_settlement_receipt toy_verify no_base64 toy_receipt with_client).valid ≡ true) ↔ (
      (client : RdkClient) × (with_client.client ≡ some client)
      × Reproduced toy_verify no_base64 client toy_receipt)
verify_settlement_receipt_iff_example =
    verify_settlement_receipt_iff toy_verify no_base64 toy_receipt with_client

verified_receipt-Agrees_example :
    (found : SettlementReceipt) × ((verify_settlement_receipt toy_verify no_base64 toy_receipt
        with_client).verified_receipt
      ≡ some found)
    × Agrees toy_receipt found
verified_receipt-Agrees_example =
    verified_receipt-Agrees toy_verify no_base64 toy_receipt with_client toy_valid

abbrev key_only : VerifyReceiptOptions
key_only = record { client = none; creator_public_key = some (js "01") }

verify_settlement_receipt_offline_example :
    NothingOfChain (verify_settlement_receipt toy_verify no_base64 toy_receipt key_only)
    × ((verify_settlement_receipt toy_verify no_base64 toy_receipt key_only).checks.pqc_signature
        ≡ (not (is_some (receipt_schema_error toy_receipt))
            && (truthy (some (js "01")) && signed_by toy_verify toy_receipt (js "01"))))
verify_settlement_receipt_offline_example =
    verify_settlement_receipt_offline toy_verify no_base64 toy_receipt key_only refl

build_settlement_receipt_verifies_example :
    (b : BuiltFrom no_base64 toy_client (js "r") 3 toy_receipt) × ((verify_settlement_receipt
        toy_verify no_base64 toy_receipt with_client).valid
      ≡ signature_over toy_verify b.anchor
          (js "01")
          (js "q")
          (anchor_sign_bytes_version_for b.anchor.main_chain_height 50))
build_settlement_receipt_verifies_example =
    build_settlement_receipt_verifies toy_verify no_base64 toy_client (js "r") 3 toy_receipt
      toy_account toy_built refl refl refl

abbrev toy_message : AnchorMessage
toy_message = message_of (js "q") toy_anchor

toy_fits : FitsMessage toy_message (js "q") 2
unfolding hex_to_bytes strip_0x parse_pairs utf8
toy_fits = (
  ground arith,
  ground arith,
  ground arith,
  ground arith,
  ground arith,
  ground arith,
  ground arith,
)

abbrev toy_bytes : Bytes
toy_bytes = concat_parts (v2_message_parts (js "q") (js "l") 3 (171 ∷ []) (205 ∷ []) 2 [])

toy_signs : anchor_sign_bytes_v2 toy_message (js "q") 2 ≡ ok toy_bytes
unfolding anchor_sign_bytes_v2 hex_to_bytes strip_0x parse_pairs
toy_signs = refl

anchor_sign_bytes_v2_binds_example :
    (utf8 (js "q") ≡ utf8 (js "q")) × (◌≡◌ {A = ℕ} 2 2) × SameAnchor toy_message toy_message
anchor_sign_bytes_v2_binds_example =
    anchor_sign_bytes_v2_binds toy_message toy_message (js "q") (js "q") 2 2 toy_bytes toy_fits
      toy_fits toy_signs toy_signs
