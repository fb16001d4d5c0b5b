-- ===== src/Receipts/Verify/Sound.antt =====
-- From a valid verification to what the chain holds, one lemma per step.
use qorechain_rdk.Prelude.{
  find, ◌≡◌, refl, inl, inr, Bool, true, false, Option, none, some, List, arith, Bool-cases,
  Option-cases, Result, ok, err,
}
use qorechain_rdk.Receipts.Verify.Reproduced.{root_agrees, Reproduced, layer_agrees}
use qorechain_rdk.Text.{JsString, str_eq, is_empty}
use qorechain_rdk.Bytes.{Bytes}
use qorechain_rdk.Views.{RollupView, BatchView, AnchorView, PqcAccountView, RdkClient}
use qorechain_rdk.Receipts.{SettlementReceipt, receipt_schema_error, anchor_field_mismatch}
use qorechain_rdk.Receipts.Report.{no_checks, Checks}
use qorechain_rdk.Receipts.Verify.{
  field_step, HexError, root_step, anchors_step, rollup_step, batch_step, matched_step, matches,
  names_other_chain, batch_root_hex, chain_step, signature_step, creator_step,
}
use qorechain_rdk.Receipts.Signature.{signature_over, anchor_sign_bytes_version_for}

module _ (pqc_verify : Bytes → Bytes → Bytes → Result JsString Bool) (client : RdkClient)
    (receipt : SettlementReceipt) where
  from_chain_step :
      (rollup : RollupView) (matched : AnchorView) (key : JsString) (checks : Checks)
      → (chain_step pqc_verify client receipt rollup matched key checks).valid ≡ true
      → (names_other_chain receipt.chain_id client.chain_id ≡ false)
        × (signature_over pqc_verify matched key client.chain_id
              (anchor_sign_bytes_version_for matched.main_chain_height client.anchor_sign_v2_height)
            ≡ true)
  unfolding chain_step signature_step
  from_chain_step rollup matched key checks h =
      elim (Bool-cases (names_other_chain receipt.chain_id client.chain_id)) [
        | inl o ↦ absurd (ground arith)
        | inr o ↦ (o, ground arith)
      ]

  from_creator_step :
      (rollup : RollupView) (matched : AnchorView) (checks : Checks)
      (answer : Result JsString PqcAccountView)
      → (creator_step pqc_verify client receipt rollup matched checks answer).valid ≡ true
      → (account : PqcAccountView) × (answer ≡ ok account)
        × (str_eq receipt.creator rollup.creator ≡ true)
        × (is_empty account.public_key ≡ false)
        × ((chain_step pqc_verify client receipt rollup matched account.public_key
              (record checks { creator_authority = true })).valid
            ≡ true)
  unfolding creator_step
  from_creator_step rollup matched checks (err message) h = cc
  from_creator_step rollup matched checks (ok account) h =
      elim (Bool-cases (str_eq receipt.creator rollup.creator)) [
        | inl s ↦ elim (Bool-cases (is_empty account.public_key)) [
          | inl k ↦ absurd (ground arith)
          | inr k ↦ (account, refl, s, k, ground arith)
        ]
        | inr s ↦ absurd (ground arith)
      ]

  from_matched_step :
      (rollup : RollupView) (checks : Checks) (found : Option AnchorView)
      → (matched_step pqc_verify client receipt rollup checks found).valid ≡ true
      → (matched : AnchorView) × (found ≡ some matched)
        × (anchor_field_mismatch receipt matched ≡ none)
        × ((creator_step pqc_verify client receipt rollup matched
              (record checks { anchor_on_chain = true })
              (client.rest.get_pqc_account rollup.creator)).valid
            ≡ true)
  unfolding matched_step field_step
  from_matched_step rollup checks none h = cc
  from_matched_step rollup checks (some matched) h =
      elim (Option-cases (anchor_field_mismatch receipt matched)) [
        | inl n ↦ (matched, refl, n, rw n at h)
        | inr (field, n) ↦ absurd (ground (arith, (rw n at h)))
      ]

  from_anchors_step :
      (rollup : RollupView) (checks : Checks) (answer : Result JsString (List AnchorView))
      → (anchors_step pqc_verify client receipt rollup checks answer).valid ≡ true
      → (anchors : List AnchorView) × (answer ≡ ok anchors)
        × ((matched_step pqc_verify client receipt rollup checks
              (find (matches receipt) anchors)).valid
            ≡ true)
  unfolding anchors_step
  from_anchors_step rollup checks (err message) h = cc
  from_anchors_step rollup checks (ok anchors) h = (anchors, refl, h)

  from_root_step :
      (rollup : RollupView) (checks : Checks) (answer : Result HexError JsString)
      → (root_step pqc_verify client receipt rollup checks answer).valid ≡ true
      → (root : JsString) × (answer ≡ ok root)
        × (root_agrees receipt root ≡ true)
        × ((anchors_step pqc_verify client receipt rollup
              (record checks { batch_state_root = true })
              (client.rest.get_anchors receipt.layer_id)).valid
            ≡ true)
  unfolding root_step
  from_root_step rollup checks (err e) h = cc
  from_root_step rollup checks (ok root) h = elim (Bool-cases (root_agrees receipt root)) [
    | inl a ↦ (root, refl, a, rw a at h)
    | inr a ↦ absurd (ground (arith, (rw a at h)))
  ]

  module _ (base64_to_bytes : JsString → Bytes) where
    from_batch_step :
        (rollup : RollupView) (checks : Checks) (answer : Result JsString BatchView)
        → (batch_step pqc_verify base64_to_bytes client receipt rollup checks answer).valid ≡ true
        → (batch : BatchView) × (answer ≡ ok batch)
          × ((root_step pqc_verify client receipt rollup checks
                (batch_root_hex base64_to_bytes batch)).valid
              ≡ true)
    unfolding batch_step
    from_batch_step rollup checks (err message) h = cc
    from_batch_step rollup checks (ok batch) h = (batch, refl, h)

    from_rollup_step :
        (answer : Result JsString RollupView)
        → (rollup_step pqc_verify base64_to_bytes client receipt answer).valid ≡ true
        → (rollup : RollupView) × (answer ≡ ok rollup)
          × (layer_agrees receipt rollup ≡ true)
          × ((batch_step pqc_verify base64_to_bytes client receipt rollup
                (record no_checks { rollup_layer_binding = true })
                (client.rest.get_batch receipt.rollup_id receipt.batch_index)).valid
              ≡ true)
    unfolding rollup_step
    from_rollup_step (err message) h = cc
    from_rollup_step (ok rollup) h = elim (Bool-cases (layer_agrees receipt rollup)) [
      | inl a ↦ (rollup, refl, a, rw a at h)
      | inr a ↦ absurd (ground (arith, (rw a at h)))
    ]

    pub reproduced :
        receipt_schema_error receipt ≡ none
        → (rollup_step pqc_verify base64_to_bytes client receipt
            (client.rest.get_rollup receipt.rollup_id)).valid
          ≡ true
        → Reproduced pqc_verify base64_to_bytes client receipt
    reproduced schema h =
        let (rollup, e1, layer, h1) = from_rollup_step _ h in
        let (batch, e2, h2) = from_batch_step rollup _ _ h1 in
        let (root, e3, same, h3) = from_root_step rollup _ _ h2 in
        let (anchors, e4, h4) = from_anchors_step rollup _ _ h3 in
        let (matched, e5, fields, h5) = from_matched_step rollup _ _ h4 in
        let (account, e6, creator, key, h6) = from_creator_step rollup matched _ _ h5 in
        let (other, signed) = from_chain_step rollup matched account.public_key _ h6 in
        record {
          rollup = rollup;
          batch = batch;
          root = root;
          anchors = anchors;
          matched = matched;
          account = account;
          schema_holds = schema;
          rollup_read = e1;
          layer = layer;
          batch_read = e2;
          root_read = e3;
          root_same = same;
          anchors_read = e4;
          anchor_found = e5;
          fields_same = fields;
          account_read = e6;
          creator_same = creator;
          key_registered = key;
          chain_same = other;
          signed = signed;
        }
