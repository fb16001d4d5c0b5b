-- ===== src/Receipts.antt =====
-- packages/ts/src/receipts/index.ts: settlement receipts, how they are built and how they are verified.
-- `pqc_verify` is the SDK's ML-DSA-87 check (it may throw), `base64_to_bytes` the runtime's decoder.
pub mod SignBytes
pub mod Build
pub mod Signature
pub mod Report
pub mod Verify
mod Tests
use qorechain_rdk.Prelude.{
  ◌+◌, ℕ, Bool, true, false, not, ◌&&◌, ◌||◌, Option, none, some, map, leb, ◌==◌, if◌then◌else◌,
}
use qorechain_rdk.Text.{JsString, js, str_eq, is_empty, JsNumber, whole, other_number}
use qorechain_rdk.Views.{AnchorView}

abbrev pub receipt_algorithm : JsString
receipt_algorithm = js "ML-DSA-87"

pub record SettlementReceipt : Type 0 where
  pub version : JsNumber
  pub chain_id : Option JsString
  pub rollup_id : JsString
  pub layer_id : JsString
  pub batch_index : ℕ
  pub creator : JsString
  pub algorithm : JsString
  pub state_root : JsString
  pub layer_height : ℕ
  pub validator_set_hash : JsString
  pub main_chain_height : ℕ
  pub anchored_at : ℕ
  pub pqc_signature : JsString
  pub batch_state_root : JsString
  pub transaction_count : Option ℕ
  pub compressed_state_proof : Option JsString

unfoldable pub receipt_from_parts :
    JsString → JsString → ℕ → JsString → AnchorView → JsString → JsString → SettlementReceipt
receipt_from_parts rollup_id layer_id batch_index creator anchor batch_state_root_hex chain_id =
    record {
      version = whole 2;
      chain_id = some chain_id;
      rollup_id = rollup_id;
      layer_id = layer_id;
      batch_index = batch_index;
      creator = creator;
      algorithm = receipt_algorithm;
      state_root = anchor.state_root;
      layer_height = anchor.layer_height;
      validator_set_hash = anchor.validator_set_hash;
      main_chain_height = anchor.main_chain_height;
      anchored_at = anchor.anchored_at;
      pqc_signature = anchor.pqc_signature;
      batch_state_root = batch_state_root_hex;
      transaction_count = some anchor.transaction_count;
      compressed_state_proof = some anchor.compressed_state_proof;
    }

-- Why a receipt cannot be verified at all.
pub data SchemaError : Type 0 where
  unsupported_version : JsNumber → SchemaError
  unsupported_algorithm : JsString → SchemaError
  chain_id_absent transaction_count_absent compressed_state_proof_absent : SchemaError

abbrev pub is_version : ℕ → JsNumber → Bool
is_version n (whole m) = m == n
is_version n other_number = false

abbrev pub truthy : Option JsString → Bool
truthy none = false
truthy (some s) = not (is_empty s)

abbrev pub is_some {ℓ} : {A : Type ℓ} → Option A → Bool
is_some none = false
is_some (some a) = true

unfoldable pub receipt_schema_error : SettlementReceipt → Option SchemaError
receipt_schema_error receipt =
    if not (is_version 1 receipt.version || is_version 2 receipt.version)
    then some (unsupported_version receipt.version)
    else if not (str_eq receipt.algorithm receipt_algorithm)
    then some (unsupported_algorithm receipt.algorithm)
    else if is_version 2 receipt.version
    then (if not (truthy receipt.chain_id)
        then some chain_id_absent
        else if not (is_some receipt.transaction_count)
        then some transaction_count_absent
        else if not (is_some receipt.compressed_state_proof)
        then some compressed_state_proof_absent
        else none)
    else none

-- The anchor fields compared after an anchor was matched, by the name in the message.
pub data AnchorField : Type 0 where
  validator_set_hash_field main_chain_height_field anchored_at_field : AnchorField
  transaction_count_field compressed_state_proof_field : AnchorField

-- `toLowerCase` on ASCII letters.
abbrev pub lower_unit : ℕ → ℕ
lower_unit u = if leb b'A' u && leb u b'Z' then u + 32 else u

abbrev pub count_differs : Option ℕ → ℕ → Bool
count_differs none n = false
count_differs (some m) n = not (m == n)

abbrev pub proof_differs : Option JsString → JsString → Bool
proof_differs none s = false
proof_differs (some t) s = not (str_eq (map lower_unit t) (map lower_unit s))

-- The first field that differs, in the order of the code's list.
unfoldable pub anchor_field_mismatch : SettlementReceipt → AnchorView → Option AnchorField
anchor_field_mismatch receipt anchor =
    if not (str_eq receipt.validator_set_hash anchor.validator_set_hash)
    then some validator_set_hash_field
    else if not (receipt.main_chain_height == anchor.main_chain_height)
    then some main_chain_height_field
    else if not (receipt.anchored_at == anchor.anchored_at)
    then some anchored_at_field
    else if count_differs receipt.transaction_count anchor.transaction_count
    then some transaction_count_field
    else if proof_differs receipt.compressed_state_proof anchor.compressed_state_proof
    then some compressed_state_proof_field
    else none
