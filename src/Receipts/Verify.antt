-- ===== src/Receipts/Verify.antt =====
-- `verifySettlementReceipt` of packages/ts/src/receipts/index.ts, one definition per step. What a step
-- reads of the node is a field of `Rest`; a read that throws is an `err`.
pub mod Reproduced
pub mod Sound
pub mod Complete
pub mod Agrees
pub mod Offline
use qorechain_rdk.Prelude.{
  ◌>>=◌, find, Bool, true, false, not, ◌&&◌, Option, none, some, List, [], ◌==◌, if◌then◌else◌,
  Result, ok, err,
}
use qorechain_rdk.Receipts.Report.{
  no_key_registered, signature_good_only, other_layer, schema, batch_root_differs, no_client,
  rollup_not_found, other_creator, field_differs, signature_bad, key_not_resolved, no_checks,
  batch_not_decoded, no_anchor_matches, batch_not_found, anchors_not_read, other_chain,
  anchor_signature_bad, signature_only, chain, fail, Checks, VerifyReceiptOptions,
  ReceiptVerification,
}
use qorechain_rdk.Text.{JsString, str_eq, is_empty}
use qorechain_rdk.Bytes.{Bytes}
use qorechain_rdk.Bytes.Hex.{HexError, decode_wire_bytes, bytes_to_hex}
use qorechain_rdk.Views.{RollupView, BatchView, AnchorView, PqcAccountView, RdkClient}
use qorechain_rdk.Receipts.{
  SettlementReceipt, SchemaError, AnchorField, receipt_schema_error, anchor_field_mismatch,
  receipt_from_parts, truthy,
}
use qorechain_rdk.Receipts.SignBytes.{AnchorSignBytesVersion, v1, v2, or_empty}
use qorechain_rdk.Receipts.Signature.{signature_over, anchor_sign_bytes_version_for}

-- The receipt's own copies of the signed fields.
abbrev pub as_anchor : SettlementReceipt → AnchorView
as_anchor receipt = record {
  layer_id = receipt.layer_id;
  layer_height = receipt.layer_height;
  state_root = receipt.state_root;
  validator_set_hash = receipt.validator_set_hash;
  main_chain_height = receipt.main_chain_height;
  anchored_at = receipt.anchored_at;
  pqc_signature = receipt.pqc_signature;
  transaction_count = elim receipt.transaction_count [ some n ↦ n | none ↦ 0 ];
  compressed_state_proof = or_empty receipt.compressed_state_proof;
}

abbrev pub matches : SettlementReceipt → AnchorView → Bool
matches receipt a =
    str_eq a.state_root receipt.state_root
    && (a.layer_height == receipt.layer_height)
    && str_eq a.pqc_signature receipt.pqc_signature

-- `receipt.chainId && receipt.chainId !== chainId`.
abbrev pub names_other_chain : Option JsString → JsString → Bool
names_other_chain none chain_id = false
names_other_chain (some s) chain_id = not (is_empty s) && not (str_eq s chain_id)

-- `batch.stateRoot ? bytesToHex(decodeWireBytes(batch.stateRoot)) : ""`.
unfoldable pub batch_root_hex : (JsString → Bytes) → BatchView → Result HexError JsString
batch_root_hex base64_to_bytes batch =
    if is_empty batch.state_root
    then ok []
    else do bytes ← decode_wire_bytes base64_to_bytes batch.state_root; ok (bytes_to_hex bytes)

module _ (pqc_verify : Bytes → Bytes → Bytes → Result JsString Bool) where
  -- What signature-only mode reports for a version that verified, or for none.
  abbrev pub signature_only_result : Option AnchorSignBytesVersion → ReceiptVerification
  signature_only_result none = fail signature_only no_checks none signature_bad
  signature_only_result (some version) =
      record (fail signature_only (record no_checks { pqc_signature = true }) none
        signature_good_only) { sign_bytes_version = some version }

  unfoldable pub verify_signature_only : SettlementReceipt → Option JsString → ReceiptVerification
  verify_signature_only receipt creator_public_key =
      if not (truthy creator_public_key)
      then fail signature_only no_checks none no_client
      else let key = or_empty creator_public_key in
        let chain_id = or_empty receipt.chain_id in
        if truthy receipt.chain_id && signature_over pqc_verify (as_anchor receipt) key chain_id v2
        then signature_only_result (some v2)
        else if signature_over pqc_verify (as_anchor receipt) key [] v1
        then signature_only_result (some v1)
        else signature_only_result none

  -- Step 6: the signature, over the form in force at the anchor's height.
  unfoldable pub signature_step :
      RdkClient
      → SettlementReceipt
      → RollupView
      → AnchorView
      → JsString
      → Checks
      → ReceiptVerification
  signature_step client receipt rollup matched public_key_hex checks =
      let version =
        anchor_sign_bytes_version_for matched.main_chain_height client.anchor_sign_v2_height in
      let signed = signature_over pqc_verify matched public_key_hex client.chain_id version in
      record {
        valid = signed;
        mode = chain;
        checks = record checks { pqc_signature = signed };
        sign_bytes_version = some version;
        anchor = some matched;
        verified_receipt =
            if signed
            then some (
                receipt_from_parts receipt.rollup_id rollup.layer_id receipt.batch_index
                  rollup.creator matched receipt.batch_state_root client.chain_id)
            else none;
        reason = if signed then none else some anchor_signature_bad;
      }

  -- Step 5: the receipt names the chain that was queried.
  unfoldable pub chain_step :
      RdkClient
      → SettlementReceipt
      → RollupView
      → AnchorView
      → JsString
      → Checks
      → ReceiptVerification
  chain_step client receipt rollup matched public_key_hex checks =
      if names_other_chain receipt.chain_id client.chain_id
      then fail chain checks (some matched) other_chain
      else signature_step client receipt rollup matched public_key_hex
          (record checks { chain_binding = true })

  -- Step 4: the key of the rollup's creator.
  unfoldable pub creator_step :
      RdkClient
      → SettlementReceipt
      → RollupView
      → AnchorView
      → Checks
      → Result JsString PqcAccountView
      → ReceiptVerification
  creator_step client receipt rollup matched checks (err message) =
      fail chain checks (some matched) (key_not_resolved message)
  creator_step client receipt rollup matched checks (ok account) =
      if not (str_eq receipt.creator rollup.creator)
      then fail chain checks (some matched) other_creator
      else if is_empty account.public_key
      then fail chain checks (some matched) no_key_registered
      else chain_step client receipt rollup matched account.public_key
          (record checks { creator_authority = true })

  -- The rest of step 3: the matched anchor agrees with the receipt.
  unfoldable pub field_step :
      RdkClient
      → SettlementReceipt
      → RollupView
      → AnchorView
      → Checks
      → Option AnchorField
      → ReceiptVerification
  field_step client receipt rollup matched checks (some field) =
      fail chain checks (some matched) (field_differs field)
  field_step client receipt rollup matched checks none =
      creator_step client receipt rollup matched (record checks { anchor_on_chain = true })
        (client.rest.get_pqc_account rollup.creator)

  unfoldable pub matched_step :
      RdkClient → SettlementReceipt → RollupView → Checks → Option AnchorView → ReceiptVerification
  matched_step client receipt rollup checks none = fail chain checks none no_anchor_matches
  matched_step client receipt rollup checks (some matched) =
      field_step client receipt rollup matched checks (anchor_field_mismatch receipt matched)

  -- Step 3: the anchors of the layer.
  unfoldable pub anchors_step :
      RdkClient
      → SettlementReceipt
      → RollupView
      → Checks
      → Result JsString (List AnchorView)
      → ReceiptVerification
  anchors_step client receipt rollup checks (err message) =
      fail chain checks none (anchors_not_read message)
  anchors_step client receipt rollup checks (ok anchors) =
      matched_step client receipt rollup checks (find (matches receipt) anchors)

  -- The rest of step 2: the batch's root, decoded, is the receipt's, twice.
  unfoldable pub root_step :
      RdkClient
      → SettlementReceipt
      → RollupView
      → Checks
      → Result HexError JsString
      → ReceiptVerification
  root_step client receipt rollup checks (err e) = fail chain checks none (batch_not_decoded e)
  root_step client receipt rollup checks (ok root) =
      if not (is_empty root)
        && str_eq root receipt.state_root
        && str_eq root receipt.batch_state_root
      then anchors_step client receipt rollup (record checks { batch_state_root = true })
          (client.rest.get_anchors receipt.layer_id)
      else fail chain checks none batch_root_differs

  module _ (base64_to_bytes : JsString → Bytes) where
    -- Step 2: the batch.
    unfoldable pub batch_step :
        RdkClient
        → SettlementReceipt
        → RollupView
        → Checks
        → Result JsString BatchView
        → ReceiptVerification
    batch_step client receipt rollup checks (err message) =
        fail chain checks none (batch_not_found message)
    batch_step client receipt rollup checks (ok batch) =
        root_step client receipt rollup checks (batch_root_hex base64_to_bytes batch)

    -- Step 1: the rollup and its layer.
    unfoldable pub rollup_step :
        RdkClient → SettlementReceipt → Result JsString RollupView → ReceiptVerification
    rollup_step client receipt (err message) = fail chain no_checks none (rollup_not_found message)
    rollup_step client receipt (ok rollup) =
        if not (is_empty rollup.layer_id) && str_eq rollup.layer_id receipt.layer_id
        then batch_step client receipt rollup (record no_checks { rollup_layer_binding = true })
            (client.rest.get_batch receipt.rollup_id receipt.batch_index)
        else fail chain no_checks none (other_layer rollup.layer_id)

    unfoldable pub verify_with :
        SettlementReceipt
        → Option JsString
        → Option RdkClient
        → Option SchemaError
        → ReceiptVerification
    verify_with receipt key none (some e) = fail signature_only no_checks none (schema e)
    verify_with receipt key (some client) (some e) = fail chain no_checks none (schema e)
    verify_with receipt key none none = verify_signature_only receipt key
    verify_with receipt key (some client) none =
        rollup_step client receipt (client.rest.get_rollup receipt.rollup_id)

    unfoldable pub verify_settlement_receipt :
        SettlementReceipt → VerifyReceiptOptions → ReceiptVerification
    unfolding verify_with
    verify_settlement_receipt receipt options =
        verify_with receipt options.creator_public_key options.client (receipt_schema_error receipt)
