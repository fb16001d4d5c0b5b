-- ===== src/Receipts/Verify/Reproduced.antt =====
-- What a valid verification says of the chain that the client reads.
use qorechain_rdk.Prelude.{find, ◌≡◌, Bool, true, false, not, ◌&&◌, none, some, List, Result, ok}
use qorechain_rdk.Text.{JsString, str_eq, is_empty}
use qorechain_rdk.Bytes.{Bytes}
use qorechain_rdk.Views.{RollupView, BatchView, AnchorView, PqcAccountView, RdkClient}
use qorechain_rdk.Receipts.{SettlementReceipt, receipt_schema_error, anchor_field_mismatch}
use qorechain_rdk.Receipts.Verify.{matches, names_other_chain, batch_root_hex}
use qorechain_rdk.Receipts.Signature.{signature_over, anchor_sign_bytes_version_for}

abbrev pub root_agrees : SettlementReceipt → JsString → Bool
root_agrees receipt root =
    not (is_empty root) && str_eq root receipt.state_root && str_eq root receipt.batch_state_root

abbrev pub layer_agrees : SettlementReceipt → RollupView → Bool
layer_agrees receipt rollup =
    not (is_empty rollup.layer_id) && str_eq rollup.layer_id receipt.layer_id

-- The chain as `client` reads it holds all that the receipt claims.
pub record Reproduced (pqc_verify : Bytes → Bytes → Bytes → Result JsString Bool)
    (base64_to_bytes : JsString → Bytes) (client : RdkClient) (receipt : SettlementReceipt)
    : Type 0 where
  pub rollup : RollupView
  pub batch : BatchView
  pub root : JsString
  pub anchors : List AnchorView
  pub matched : AnchorView
  pub account : PqcAccountView
  pub schema_holds : receipt_schema_error receipt ≡ none
  pub rollup_read : client.rest.get_rollup receipt.rollup_id ≡ ok rollup
  pub layer : layer_agrees receipt rollup ≡ true
  pub batch_read : client.rest.get_batch receipt.rollup_id receipt.batch_index ≡ ok batch
  pub root_read : batch_root_hex base64_to_bytes batch ≡ ok root
  pub root_same : root_agrees receipt root ≡ true
  pub anchors_read : client.rest.get_anchors receipt.layer_id ≡ ok anchors
  pub anchor_found : find (matches receipt) anchors ≡ some matched
  pub fields_same : anchor_field_mismatch receipt matched ≡ none
  pub account_read : client.rest.get_pqc_account rollup.creator ≡ ok account
  pub creator_same : str_eq receipt.creator rollup.creator ≡ true
  pub key_registered : is_empty account.public_key ≡ false
  pub chain_same : names_other_chain receipt.chain_id client.chain_id ≡ false
  pub signed :
      signature_over pqc_verify matched account.public_key client.chain_id
        (anchor_sign_bytes_version_for matched.main_chain_height client.anchor_sign_v2_height)
      ≡ true
