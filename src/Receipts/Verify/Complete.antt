-- ===== src/Receipts/Verify/Complete.antt =====
-- From what the chain holds to a valid verification, and the two directions together.
use qorechain_rdk.Views.{RdkClient}
use qorechain_rdk.Prelude.{
  ◌≡◌, refl, ◌↔◌, inl, inr, Bool, true, false, Option, none, some, arith, Option-cases, Result,
}
use qorechain_rdk.Text.{JsString}
use qorechain_rdk.Bytes.{Bytes}
use qorechain_rdk.Receipts.{AnchorView, SettlementReceipt, receipt_schema_error, receipt_from_parts}
use qorechain_rdk.Receipts.Report.{all_checks, chain, ReceiptVerification, VerifyReceiptOptions}
use qorechain_rdk.Receipts.Verify.{
  verify_signature_only, field_step, signature_step, chain_step, creator_step, matched_step,
  anchors_step, root_step, batch_step, rollup_step, verify_settlement_receipt, verify_with,
}
use qorechain_rdk.Receipts.Verify.Reproduced.{Reproduced}
use qorechain_rdk.Receipts.Verify.Sound.{reproduced}

-- The receipt that a reproduction rebuilds from the chain's own values.
abbrev pub rebuilt :
    (pqc_verify : Bytes → Bytes → Bytes → Result JsString Bool) (base64_to_bytes : JsString → Bytes)
    (client : RdkClient) (receipt : SettlementReceipt)
    → Reproduced pqc_verify base64_to_bytes client receipt
    → SettlementReceipt
rebuilt pqc_verify base64_to_bytes client receipt r =
    receipt_from_parts receipt.rollup_id r.rollup.layer_id receipt.batch_index r.rollup.creator
      r.matched receipt.batch_state_root client.chain_id

-- What the report of a verification that succeeds carries.
pub record Confirms (report : ReceiptVerification) (matched : AnchorView)
    (rebuilt : SettlementReceipt) : Type 0 where
  pub valid : report.valid ≡ true
  pub mode : report.mode ≡ chain
  pub anchor : report.anchor ≡ some matched
  pub receipt : report.verified_receipt ≡ some rebuilt
  pub checks : report.checks ≡ all_checks
  pub reason : report.reason ≡ none

module _ (pqc_verify : Bytes → Bytes → Bytes → Result JsString Bool)
    (base64_to_bytes : JsString → Bytes) (client : RdkClient) (receipt : SettlementReceipt) where
  confirmed :
      (r : Reproduced pqc_verify base64_to_bytes client receipt)
      → Confirms
          (rollup_step pqc_verify base64_to_bytes client receipt
            (client.rest.get_rollup receipt.rollup_id))
          r.matched
          (rebuilt pqc_verify base64_to_bytes client receipt r)
  unfolding rollup_step batch_step root_step anchors_step matched_step field_step creator_step
      chain_step signature_step
  confirmed r =
      rw
        (
          r.rollup_read, r.layer, r.batch_read, r.root_read, r.root_same, r.anchors_read,
          r.anchor_found, r.fields_same, r.account_read, r.creator_same, r.key_registered,
          r.chain_same, r.signed,
        )
        (record {
          valid = refl;
          mode = refl;
          anchor = refl;
          receipt = refl;
          checks = refl;
          reason = refl;
        })

never_without :
    (pqc_verify : Bytes → Bytes → Bytes → Result JsString Bool) (receipt : SettlementReceipt)
    (key : Option JsString)
    → (verify_signature_only pqc_verify receipt key).valid ≡ false
unfolding verify_signature_only
never_without pqc_verify receipt key = ground arith

found_client :
    (pqc_verify : Bytes → Bytes → Bytes → Result JsString Bool) (base64_to_bytes : JsString → Bytes)
    (receipt : SettlementReceipt) (key : Option JsString) (o : Option RdkClient)
    → (verify_with pqc_verify base64_to_bytes receipt key o (receipt_schema_error receipt)).valid
      ≡ true
    → (client : RdkClient) × (o ≡ some client)
      × Reproduced pqc_verify base64_to_bytes client receipt
unfolding verify_with
found_client pqc_verify b64 receipt key none h =
    elim (Option-cases (receipt_schema_error receipt)) [
      | inl e ↦ absurd (ground (arith, never_without pqc_verify receipt key, (rw e at h)))
      | inr (x, e) ↦ absurd (ground (arith, (rw e at h)))
    ]
found_client pqc_verify b64 receipt key (some client) h =
    elim (Option-cases (receipt_schema_error receipt)) [
      | inl e ↦ (client, refl, reproduced pqc_verify client receipt b64 e (rw e at h))
      | inr (x, e) ↦ absurd (ground (arith, (rw e at h)))
    ]

confirmed_with :
    (pqc_verify : Bytes → Bytes → Bytes → Result JsString Bool) (base64_to_bytes : JsString → Bytes)
    (receipt : SettlementReceipt) (options : VerifyReceiptOptions) (client : RdkClient)
    → options.client ≡ some client
    → (r : Reproduced pqc_verify base64_to_bytes client receipt)
    → Confirms
        (verify_settlement_receipt pqc_verify base64_to_bytes receipt options)
        r.matched
        (rebuilt pqc_verify base64_to_bytes client receipt r)
unfolding verify_settlement_receipt verify_with
confirmed_with pqc_verify b64 receipt options client e r =
    rw (e, r.schema_holds) (confirmed pqc_verify b64 client receipt r)

-- A receipt verifies as valid exactly when a client is given and the chain as that client reads it
-- reproduces the receipt: the rollup has the receipt's layer, the batch its state root, an anchor of
-- the layer all its anchor fields, the rollup's creator is its creator with a registered key, no other
-- chain is named, and the signature over the chain's anchor counts under the form in force at the
-- anchor's height.
pub verify_settlement_receipt_iff :
    (pqc_verify : Bytes → Bytes → Bytes → Result JsString Bool) (base64_to_bytes : JsString → Bytes)
    (receipt : SettlementReceipt) (options : VerifyReceiptOptions)
    → ((verify_settlement_receipt pqc_verify base64_to_bytes receipt options).valid ≡ true) ↔ (
        (client : RdkClient) × (options.client ≡ some client)
        × Reproduced pqc_verify base64_to_bytes client receipt)
unfolding verify_settlement_receipt
verify_settlement_receipt_iff pqc_verify b64 receipt options = (
  λ h. found_client pqc_verify b64 receipt options.creator_public_key options.client h,
  λ x. (confirmed_with pqc_verify b64 receipt options x.0 x.1 x.2).valid,
)

-- A verification that is valid passed all six checks against the chain, gives no reason, and returns
-- the chain's anchor with a receipt rebuilt from what the chain holds.
pub verify_settlement_receipt-Confirms :
    (pqc_verify : Bytes → Bytes → Bytes → Result JsString Bool) (base64_to_bytes : JsString → Bytes)
    (receipt : SettlementReceipt) (options : VerifyReceiptOptions)
    → (verify_settlement_receipt pqc_verify base64_to_bytes receipt options).valid ≡ true
    → (client : RdkClient) × (r : Reproduced pqc_verify base64_to_bytes client receipt) × Confirms
        (verify_settlement_receipt pqc_verify base64_to_bytes receipt options)
        r.matched
        (rebuilt pqc_verify base64_to_bytes client receipt r)
unfolding verify_settlement_receipt
verify_settlement_receipt-Confirms pqc_verify b64 receipt options h =
    let (client, e, r) =
      found_client pqc_verify b64 receipt options.creator_public_key options.client h in
    (client, r, confirmed_with pqc_verify b64 receipt options client e r)
