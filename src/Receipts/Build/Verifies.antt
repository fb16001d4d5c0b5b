-- ===== src/Receipts/Build/Verifies.antt =====
-- That what `buildSettlementReceipt` builds verifies against the same chain.
use qorechain_rdk.Prelude.{
  find-find, find-passes, ℕ, ◌≡◌, refl, sym, ap, ◌∙◌, subst, Bool, true, false, none, some, map,
  arith, Result, ok,
}
use qorechain_rdk.Receipts.Verify.Reproduced.{layer_agrees, root_agrees}
use qorechain_rdk.Text.{JsString, is_empty, str_eq_refl, str_eq→eq}
use qorechain_rdk.Bytes.{Bytes}
use qorechain_rdk.Views.{AnchorView, PqcAccountView, RdkClient}
use qorechain_rdk.Receipts.{
  lower_unit, SettlementReceipt, receipt_from_parts, anchor_field_mismatch, receipt_schema_error,
}
use qorechain_rdk.Receipts.Verify.{
  signature_step, chain_step, creator_step, field_step, matched_step, anchors_step, root_step,
  batch_step, rollup_step, verify_with, names_other_chain, verify_settlement_receipt, matches,
}
use qorechain_rdk.Receipts.Signature.{signature_over, anchor_sign_bytes_version_for}
use qorechain_rdk.Receipts.Build.{
  RollupView, build_settlement_receipt, BuiltFrom, built_from, covers,
}

mismatch_self :
    (rollup_id layer_id : JsString) (i : ℕ) (creator root chain_id : JsString) (a : AnchorView)
    → anchor_field_mismatch (receipt_from_parts rollup_id layer_id i creator a root chain_id) a
      ≡ none
unfolding anchor_field_mismatch receipt_from_parts
mismatch_self rollup_id layer_id i creator root chain_id a =
    ground (
      arith,
      str_eq_refl a.validator_set_hash,
      str_eq_refl (map lower_unit a.compressed_state_proof),
    )

schema_of_built :
    (rollup_id layer_id : JsString) (i : ℕ) (creator root chain_id : JsString) (a : AnchorView)
    → is_empty chain_id ≡ false
    → receipt_schema_error (receipt_from_parts rollup_id layer_id i creator a root chain_id) ≡ none
unfolding receipt_schema_error receipt_from_parts
schema_of_built rollup_id layer_id i creator root chain_id a h = rw h refl

same_chain : (s : JsString) → names_other_chain (some s) s ≡ false
same_chain s = ground (arith, str_eq_refl s)

covers_root :
    (root : JsString) (a : AnchorView)
    → covers root a ≡ true
    → (is_empty root ≡ false) × (a.state_root ≡ root)
covers_root root a h = let e = str_eq→eq a.state_root root (ground arith) in (ground arith, e)

module _ (rollup_id layer_id : JsString) (i : ℕ) (creator root chain_id : JsString)
    (a : AnchorView) where
  matches_built :
      covers root a ≡ true
      → (y : AnchorView)
      → matches (receipt_from_parts rollup_id layer_id i creator a root chain_id) y ≡ true
      → covers root y ≡ true
  unfolding receipt_from_parts
  matches_built h y m =
      let (given, same) = covers_root root a h in
      let e = str_eq→eq y.state_root a.state_root (ground arith) ∙ same in
      rw e (ground (arith, given, str_eq_refl root))

  matches_itself :
      matches (receipt_from_parts rollup_id layer_id i creator a root chain_id) a ≡ true
  unfolding receipt_from_parts
  matches_itself = ground (arith, str_eq_refl a.state_root, str_eq_refl a.pqc_signature)

  root_agrees_built :
      covers root a ≡ true
      → root_agrees (receipt_from_parts rollup_id layer_id i creator a root chain_id) root ≡ true
  unfolding receipt_from_parts
  root_agrees_built h =
      let (given, same) = covers_root root a h in rw same (ground (arith, given, str_eq_refl root))

layer_agrees_built :
    (rollup_id : JsString) (rollup : RollupView) (i : ℕ) (root chain_id : JsString) (a : AnchorView)
    → is_empty rollup.layer_id ≡ false
    → layer_agrees
        (receipt_from_parts rollup_id rollup.layer_id i rollup.creator a root chain_id)
        rollup
      ≡ true
unfolding receipt_from_parts
layer_agrees_built rollup_id rollup i root chain_id a h =
    ground (arith, str_eq_refl rollup.layer_id)

verifies :
    (pqc_verify : Bytes → Bytes → Bytes → Result JsString Bool) (base64_to_bytes : JsString → Bytes)
    (client : RdkClient) (rollup_id : JsString) (batch_index : ℕ) (receipt : SettlementReceipt)
    (account : PqcAccountView) (b : BuiltFrom base64_to_bytes client rollup_id batch_index receipt)
    → is_empty client.chain_id ≡ false
    → client.rest.get_pqc_account b.rollup.creator ≡ ok account
    → is_empty account.public_key ≡ false
    → (verify_settlement_receipt pqc_verify base64_to_bytes
        (receipt_from_parts rollup_id b.rollup.layer_id batch_index b.rollup.creator b.anchor b.root
          client.chain_id)
        (record { client = some client; creator_public_key = none })).valid
      ≡ signature_over pqc_verify b.anchor account.public_key client.chain_id
          (anchor_sign_bytes_version_for b.anchor.main_chain_height client.anchor_sign_v2_height)
unfolding verify_settlement_receipt verify_with rollup_step batch_step root_step anchors_step
    matched_step field_step creator_step chain_step signature_step receipt_from_parts
verifies pqc_verify b64 client rollup_id batch_index receipt account b c k g =
    let h = find-passes (covers b.root) b.anchors b.anchor b.anchor_found in
    let found =
      find-find (covers b.root)
        (matches (
          receipt_from_parts rollup_id b.rollup.layer_id batch_index b.rollup.creator b.anchor
            b.root client.chain_id))
        b.anchors b.anchor
        (matches_built rollup_id b.rollup.layer_id batch_index b.rollup.creator b.root
          client.chain_id b.anchor h)
        b.anchor_found
        (matches_itself rollup_id b.rollup.layer_id batch_index b.rollup.creator b.root
          client.chain_id b.anchor) in
    rw
      (
        schema_of_built rollup_id b.rollup.layer_id batch_index b.rollup.creator b.root
            client.chain_id b.anchor c,
        b.rollup_read,
        layer_agrees_built rollup_id b.rollup batch_index b.root client.chain_id b.anchor
            b.layer_given,
        b.batch_read,
        b.root_read,
        root_agrees_built rollup_id b.rollup.layer_id batch_index b.rollup.creator b.root
            client.chain_id b.anchor h,
        b.anchors_read,
        found,
        mismatch_self rollup_id b.rollup.layer_id batch_index b.rollup.creator b.root
            client.chain_id b.anchor,
        k,
        str_eq_refl b.rollup.creator,
        g,
        same_chain client.chain_id,
      )
      refl

creator_of :
    (base64_to_bytes : JsString → Bytes) (client : RdkClient) (rollup_id : JsString)
    (batch_index : ℕ) (receipt : SettlementReceipt)
    (b : BuiltFrom base64_to_bytes client rollup_id batch_index receipt)
    → receipt.creator ≡ b.rollup.creator
unfolding receipt_from_parts
creator_of b64 client rollup_id batch_index receipt b = ap (λ r. r.creator) b.built

-- A receipt just built verifies against the same chain exactly when the signature over its anchor
-- counts, given that the network has a chain id and the rollup's creator a registered key.
pub build_settlement_receipt_verifies :
    (pqc_verify : Bytes → Bytes → Bytes → Result JsString Bool) (base64_to_bytes : JsString → Bytes)
    (client : RdkClient) (rollup_id : JsString) (batch_index : ℕ) (receipt : SettlementReceipt)
    (account : PqcAccountView)
    → build_settlement_receipt base64_to_bytes client rollup_id batch_index ≡ ok receipt
    → is_empty client.chain_id ≡ false
    → client.rest.get_pqc_account receipt.creator ≡ ok account
    → is_empty account.public_key ≡ false
    → (b : BuiltFrom base64_to_bytes client rollup_id batch_index receipt)
      × ((verify_settlement_receipt pqc_verify base64_to_bytes receipt
            (record { client = some client; creator_public_key = none })).valid
          ≡ signature_over pqc_verify b.anchor account.public_key client.chain_id (
              anchor_sign_bytes_version_for b.anchor.main_chain_height
                client.anchor_sign_v2_height))
build_settlement_receipt_verifies pqc_verify b64 client rollup_id batch_index receipt account e c k
      g =
    let b = built_from b64 client rollup_id batch_index receipt e in
    let k' = rw (creator_of b64 client rollup_id batch_index receipt b) at k in
    (
      b,
      subst
          (λ r.
            (verify_settlement_receipt pqc_verify b64 r
              (record { client = some client; creator_public_key = none })).valid
            ≡ signature_over pqc_verify b.anchor account.public_key client.chain_id (
                anchor_sign_bytes_version_for b.anchor.main_chain_height
                  client.anchor_sign_v2_height))
          (sym b.built)
          (verifies pqc_verify b64 client rollup_id batch_index receipt account b c k' g),
    )
