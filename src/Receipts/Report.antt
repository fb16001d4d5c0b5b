-- ===== src/Receipts/Report.antt =====
-- The options and the report of `verifySettlementReceipt`, in
-- packages/ts/src/receipts/index.ts.
use qorechain_rdk.Bytes.Hex.{HexError}
use qorechain_rdk.Text.{JsString}
use qorechain_rdk.Receipts.SignBytes.{AnchorSignBytesVersion}
use qorechain_rdk.Receipts.{AnchorField, SettlementReceipt, SchemaError}
use qorechain_rdk.Views.{AnchorView, RdkClient}
use qorechain_rdk.Prelude.{Bool, true, false, Option, none, some}

pub data Mode : Type 0 where
  chain signature_only : Mode

pub record Checks : Type 0 where
  pub rollup_layer_binding : Bool
  pub batch_state_root : Bool
  pub anchor_on_chain : Bool
  pub creator_authority : Bool
  pub pqc_signature : Bool
  pub chain_binding : Bool

-- Why a receipt did not verify, one constructor per message.
pub data Reason : Type 0 where
  schema : SchemaError → Reason
  no_client signature_good_only signature_bad : Reason
  rollup_not_found : JsString → Reason
  other_layer : JsString → Reason
  batch_not_found : JsString → Reason
  batch_not_decoded : HexError → Reason
  batch_root_differs : Reason
  anchors_not_read : JsString → Reason
  no_anchor_matches : Reason
  field_differs : AnchorField → Reason
  key_not_resolved : JsString → Reason
  other_creator no_key_registered other_chain anchor_signature_bad : Reason

pub record ReceiptVerification : Type 0 where
  pub valid : Bool
  pub mode : Mode
  pub checks : Checks
  pub sign_bytes_version : Option AnchorSignBytesVersion
  pub anchor : Option AnchorView
  pub verified_receipt : Option SettlementReceipt
  pub reason : Option Reason

abbrev pub no_checks : Checks
no_checks = record {
  rollup_layer_binding = false;
  batch_state_root = false;
  anchor_on_chain = false;
  creator_authority = false;
  pqc_signature = false;
  chain_binding = false;
}

-- Every check passed.
abbrev pub all_checks : Checks
all_checks = record {
  rollup_layer_binding = true;
  batch_state_root = true;
  anchor_on_chain = true;
  creator_authority = true;
  pqc_signature = true;
  chain_binding = true;
}

-- `fail` and `failAt`: not valid, with the checks so far and the anchor once there is one.
abbrev pub fail : Mode → Checks → Option AnchorView → Reason → ReceiptVerification
fail mode checks anchor reason = record {
  valid = false;
  mode = mode;
  checks = checks;
  sign_bytes_version = none;
  anchor = anchor;
  verified_receipt = none;
  reason = some reason;
}

pub record VerifyReceiptOptions : Type 0 where
  pub client : Option RdkClient
  pub creator_public_key : Option JsString
