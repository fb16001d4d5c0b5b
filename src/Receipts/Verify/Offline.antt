-- ===== src/Receipts/Verify/Offline.antt =====
-- Verification without a client: the signature alone.
use qorechain_rdk.Prelude.{
  ◌≡◌, refl, inl, inr, Bool, false, not, ◌&&◌, ◌||◌, Option, none, some, [], ◌∷◌, Bool-cases,
  Result,
}
use qorechain_rdk.Text.{JsString}
use qorechain_rdk.Bytes.{Bytes}
use qorechain_rdk.Receipts.{SchemaError, is_some, SettlementReceipt, receipt_schema_error, truthy}
use qorechain_rdk.Receipts.Report.{
  no_checks, schema, fail, Reason, no_client, VerifyReceiptOptions, signature_only,
  ReceiptVerification,
}
use qorechain_rdk.Receipts.SignBytes.{AnchorSignBytesVersion, v1, v2, or_empty}
use qorechain_rdk.Receipts.Signature.{signature_over}
use qorechain_rdk.Receipts.Verify.{
  signature_only_result, verify_signature_only, verify_with, verify_settlement_receipt, as_anchor,
}

-- No check of the chain is passed.
pub record NothingOfChain (report : ReceiptVerification) : Type 0 where
  pub valid : report.valid ≡ false
  pub mode : report.mode ≡ signature_only
  pub rollup_layer_binding : report.checks.rollup_layer_binding ≡ false
  pub batch_state_root : report.checks.batch_state_root ≡ false
  pub anchor_on_chain : report.checks.anchor_on_chain ≡ false
  pub creator_authority : report.checks.creator_authority ≡ false
  pub chain_binding : report.checks.chain_binding ≡ false
  pub anchor : report.anchor ≡ none
  pub verified_receipt : report.verified_receipt ≡ none

-- One of the two forms verifies against the key that was handed in.
abbrev pub signed_by :
    (Bytes → Bytes → Bytes → Result JsString Bool) → SettlementReceipt → JsString → Bool
signed_by pqc_verify receipt key =
    (truthy receipt.chain_id
      && signature_over pqc_verify (as_anchor receipt) key (or_empty receipt.chain_id) v2)
    || signature_over pqc_verify (as_anchor receipt) key [] v1

module _ (pqc_verify : Bytes → Bytes → Bytes → Result JsString Bool) where
  nothing :
      (version : Option AnchorSignBytesVersion)
      → NothingOfChain (signature_only_result pqc_verify version)
        × ((signature_only_result pqc_verify version).checks.pqc_signature ≡ is_some version)
  nothing none = (
    record {
      valid = refl;
      mode = refl;
      rollup_layer_binding = refl;
      batch_state_root = refl;
      anchor_on_chain = refl;
      creator_authority = refl;
      chain_binding = refl;
      anchor = refl;
      verified_receipt = refl;
    },
    refl,
  )
  nothing (some v) = (
    record {
      valid = refl;
      mode = refl;
      rollup_layer_binding = refl;
      batch_state_root = refl;
      anchor_on_chain = refl;
      creator_authority = refl;
      chain_binding = refl;
      anchor = refl;
      verified_receipt = refl;
    },
    refl,
  )

  refused : (reason : Reason) → NothingOfChain (fail signature_only no_checks none reason)
  refused reason = record {
    valid = refl;
    mode = refl;
    rollup_layer_binding = refl;
    batch_state_root = refl;
    anchor_on_chain = refl;
    creator_authority = refl;
    chain_binding = refl;
    anchor = refl;
    verified_receipt = refl;
  }

  signed_only :
      (receipt : SettlementReceipt) (key : Option JsString)
      → NothingOfChain (verify_signature_only pqc_verify receipt key)
        × ((verify_signature_only pqc_verify receipt key).checks.pqc_signature
            ≡ (truthy key && signed_by pqc_verify receipt (or_empty key)))
  unfolding verify_signature_only
  signed_only receipt none = (refused no_client, refl)
  signed_only receipt (some []) = (refused no_client, refl)
  signed_only receipt (some (c ∷ key)) =
      let a =
        truthy receipt.chain_id
        && signature_over pqc_verify (as_anchor receipt) (c ∷ key) (or_empty receipt.chain_id) v2 in
      let b = signature_over pqc_verify (as_anchor receipt) (c ∷ key) [] v1 in
      elim (Bool-cases a) [
        | inl p ↦ rw p (nothing (some v2))
        | inr p ↦ elim (Bool-cases b) [
          | inl q ↦ rw (p, q) (nothing (some v1))
          | inr q ↦ rw (p, q) (nothing none)
        ]
      ]

  offline :
      (base64_to_bytes : JsString → Bytes) (receipt : SettlementReceipt) (key : Option JsString)
      (o : Option SchemaError)
      → NothingOfChain (verify_with pqc_verify base64_to_bytes receipt key none o)
        × ((verify_with pqc_verify base64_to_bytes receipt key none o).checks.pqc_signature
            ≡ (not (is_some o) && (truthy key && signed_by pqc_verify receipt (or_empty key))))
  unfolding verify_with
  offline b64 receipt key none = signed_only receipt key
  offline b64 receipt key (some e) = (refused (schema e), refl)

-- Without a client no receipt is valid and no check of the chain is passed, whatever the key and the
-- signature. The signature check passes exactly when the receipt's schema is accepted, a key is given
-- and that key signed the receipt's own fields in the v2 form for the chain that the receipt names, or
-- in the v1 form.
pub verify_settlement_receipt_offline :
    (pqc_verify : Bytes → Bytes → Bytes → Result JsString Bool) (base64_to_bytes : JsString → Bytes)
    (receipt : SettlementReceipt) (options : VerifyReceiptOptions)
    → options.client ≡ none
    → NothingOfChain (verify_settlement_receipt pqc_verify base64_to_bytes receipt options)
      × ((verify_settlement_receipt pqc_verify base64_to_bytes receipt options).checks.pqc_signature
          ≡ (not (is_some (receipt_schema_error receipt))
              && (truthy options.creator_public_key
                  && signed_by pqc_verify receipt (or_empty options.creator_public_key))))
unfolding verify_settlement_receipt
verify_settlement_receipt_offline pqc_verify b64 receipt options e =
    rw e (offline pqc_verify b64 receipt options.creator_public_key (receipt_schema_error receipt))
