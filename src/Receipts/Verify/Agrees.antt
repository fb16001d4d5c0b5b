-- ===== src/Receipts/Verify/Agrees.antt =====
-- The receipt that a valid verification returns, against the receipt that was handed in.
use qorechain_rdk.Prelude.{
  find-passes, ℕ, ◌≡◌, refl, sym, ◌∙◌, ◌⊎◌, inl, inr, Bool, true, false, ◌&&◌, Option, none, some,
  [], ◌∷◌, map, arith, Result,
}
use qorechain_rdk.Text.{JsString, str_eq, str_eq→eq}
use qorechain_rdk.Bytes.{Bytes}
use qorechain_rdk.Views.{AnchorView, RdkClient}
use qorechain_rdk.Receipts.{
  receipt_from_parts, SettlementReceipt, anchor_field_mismatch, count_differs, proof_differs,
  lower_unit,
}
use qorechain_rdk.Receipts.Report.{VerifyReceiptOptions}
use qorechain_rdk.Receipts.Verify.{verify_settlement_receipt, matches, names_other_chain}
use qorechain_rdk.Receipts.Verify.Reproduced.{Reproduced}
use qorechain_rdk.Receipts.Verify.Complete.{rebuilt, verify_settlement_receipt-Confirms}

-- A receipt says `claim` of what it states, and the other one says the same. What it leaves out (a chain
-- id that is absent or empty, an absent count or proof) is not compared; a proof is compared without
-- its letters' case.
pub record Agrees (claim found : SettlementReceipt) : Type 0 where
  pub rollup_id : claim.rollup_id ≡ found.rollup_id
  pub layer_id : claim.layer_id ≡ found.layer_id
  pub batch_index : claim.batch_index ≡ found.batch_index
  pub creator : claim.creator ≡ found.creator
  pub state_root : claim.state_root ≡ found.state_root
  pub batch_state_root : claim.batch_state_root ≡ found.state_root
  pub layer_height : claim.layer_height ≡ found.layer_height
  pub validator_set_hash : claim.validator_set_hash ≡ found.validator_set_hash
  pub main_chain_height : claim.main_chain_height ≡ found.main_chain_height
  pub anchored_at : claim.anchored_at ≡ found.anchored_at
  pub pqc_signature : claim.pqc_signature ≡ found.pqc_signature
  pub chain_id : (s : JsString) → claim.chain_id ≡ some s → (s ≡ []) ⊎ (found.chain_id ≡ some s)
  pub transaction_count :
      (n : ℕ) → claim.transaction_count ≡ some n → found.transaction_count ≡ some n
  pub compressed_state_proof :
      (s : JsString)
      → claim.compressed_state_proof ≡ some s
      → (t : JsString) × (found.compressed_state_proof ≡ some t)
        × (map lower_unit s ≡ map lower_unit t)

chain_named :
    (claim : Option JsString) (chain_id : JsString)
    → names_other_chain claim chain_id ≡ false
    → (s : JsString) → claim ≡ some s
    → (s ≡ []) ⊎ (◌≡◌ {A = Option JsString} (some chain_id) (some s))
chain_named none chain_id h s e = cc
chain_named (some []) chain_id h s e = inl (cc e)
chain_named (some (c ∷ cs)) chain_id h s e =
    inr (cc (e, str_eq→eq (c ∷ cs) chain_id (ground arith)))

count_same :
    (claim : Option ℕ) (m : ℕ)
    → count_differs claim m ≡ false
    → (n : ℕ) → claim ≡ some n
    → ◌≡◌ {A = Option ℕ} (some m) (some n)
count_same none m h n e = cc
count_same (some k) m h n e = ground arith

proof_same :
    (claim : Option JsString) (t : JsString)
    → proof_differs claim t ≡ false
    → (s : JsString) → claim ≡ some s
    → map lower_unit s ≡ map lower_unit t
proof_same none t h s e = cc
proof_same (some k) t h s e = cc (e, str_eq→eq (map lower_unit k) (map lower_unit t) (ground arith))

fields_agree :
    (receipt : SettlementReceipt) (a : AnchorView)
    → anchor_field_mismatch receipt a ≡ none
    → (str_eq receipt.validator_set_hash a.validator_set_hash ≡ true)
      × (receipt.main_chain_height ≡ a.main_chain_height)
      × (receipt.anchored_at ≡ a.anchored_at)
      × (count_differs receipt.transaction_count a.transaction_count ≡ false)
      × (proof_differs receipt.compressed_state_proof a.compressed_state_proof ≡ false)
unfolding anchor_field_mismatch
fields_agree receipt a h = (ground arith, ground arith, ground arith, ground arith, ground arith)

both : (a b : Bool) → (a && b) ≡ true → (a ≡ true) × (b ≡ true)
both a b h = ground arith

agrees :
    (pqc_verify : Bytes → Bytes → Bytes → Result JsString Bool) (base64_to_bytes : JsString → Bytes)
    (client : RdkClient) (receipt : SettlementReceipt)
    (r : Reproduced pqc_verify base64_to_bytes client receipt)
    → Agrees receipt (rebuilt pqc_verify base64_to_bytes client receipt r)
unfolding receipt_from_parts
agrees pqc_verify b64 client receipt r =
    let (hash, height, anchored, count, proof) = fields_agree receipt r.matched r.fields_same in
    let found = find-passes (matches receipt) r.anchors r.matched r.anchor_found in
    let (rest, signature_ok) = both _ _ found in
    let (root_ok, height_ok) = both _ _ rest in
    let (_, layer_ok) = both _ _ r.layer in
    let (roots_ok, root2) = both _ _ r.root_same in
    let (_, root1) = both _ _ roots_ok in
    let state = sym (str_eq→eq r.matched.state_root receipt.state_root root_ok) in
    record {
      rollup_id = refl;
      layer_id = sym (str_eq→eq r.rollup.layer_id receipt.layer_id layer_ok);
      batch_index = refl;
      creator = str_eq→eq receipt.creator r.rollup.creator r.creator_same;
      state_root = state;
      batch_state_root =
          sym (str_eq→eq r.root receipt.batch_state_root root2)
          ∙ str_eq→eq r.root receipt.state_root root1
          ∙ state;
      layer_height = ground arith;
      validator_set_hash = str_eq→eq receipt.validator_set_hash r.matched.validator_set_hash hash;
      main_chain_height = height;
      anchored_at = anchored;
      pqc_signature = sym (str_eq→eq r.matched.pqc_signature receipt.pqc_signature signature_ok);
      chain_id = chain_named receipt.chain_id client.chain_id r.chain_same;
      transaction_count = count_same receipt.transaction_count r.matched.transaction_count count;
      compressed_state_proof = λ s e. (
        r.matched.compressed_state_proof,
        refl,
        proof_same receipt.compressed_state_proof r.matched.compressed_state_proof proof s e,
      );
    }

-- Where a verification is valid, it returns a receipt, and the receipt handed in agrees with it on
-- every field that it states but two: the format version and the algorithm's name, which say how to
-- read the receipt and not what was anchored. The compressed proof agrees up to the case of letters, and an
-- empty chain id states none.
pub verified_receipt-Agrees :
    (pqc_verify : Bytes → Bytes → Bytes → Result JsString Bool) (base64_to_bytes : JsString → Bytes)
    (receipt : SettlementReceipt) (options : VerifyReceiptOptions)
    → (verify_settlement_receipt pqc_verify base64_to_bytes receipt options).valid ≡ true
    → (found : SettlementReceipt) × ((verify_settlement_receipt pqc_verify base64_to_bytes receipt
          options).verified_receipt
        ≡ some found)
      × Agrees receipt found
verified_receipt-Agrees pqc_verify b64 receipt options h =
    let (client, r, c) = verify_settlement_receipt-Confirms pqc_verify b64 receipt options h in
    (rebuilt pqc_verify b64 client receipt r, c.receipt, agrees pqc_verify b64 client receipt r)
