-- ===== src/Tx/Client/Verified.antt =====
-- The anchor signature of packages/ts/src/tx/client.ts under the check of receipts/index.ts: what the
-- client signs for a batch is what a verifier of the recorded anchor rebuilds.
use qorechain_rdk.Prelude.{
  ◌≡◌, refl, ap, ◌∙◌, ◌≢◌, Bool, true, false, some, [], ◌∷◌, arith, Result, ok, err,
}
use qorechain_rdk.Bytes.Hex.RoundTrip.{hex_not_empty, hex_to_bytes-bytes_to_hex}
use qorechain_rdk.Tx.Client.Creator.{SignedByCreator}
use qorechain_rdk.Bytes.{AreBytes}
use qorechain_rdk.Receipts.Signature.{
  signature_over_iff, signature_over, anchor_message, message_of,
}
use qorechain_rdk.Bytes.Hex.{hex_to_bytes, HexError, bytes_to_hex}
use qorechain_rdk.Prelude.Int.{ℤ}
use qorechain_rdk.Tx.Client.Anchor.{
  hex_or_empty, batch_anchor_message, low_64, anchor_sign_bytes_for_batch,
}
use qorechain_rdk.Text.{is_empty, JsString}
use qorechain_rdk.Views.{AnchorView}
use qorechain_rdk.Tx.Messages.{bytes_of, hex_checked, SubmitBatchInput}
use qorechain_rdk.Tx.Client.{TxClient, Sdk, Bytes}
use qorechain_rdk.Receipts.SignBytes.{v2, anchor_sign_bytes_v2}

-- The anchor that the chain records for the batch: the layer is the rollup's, its height the batch
-- index, and the compressed state proof is empty.
pub record RecordsBatch (anchor : AnchorView) (layer_id : JsString) (input : SubmitBatchInput)
    (signature : Bytes) : Type 0 where
  pub height : ℤ
  pub root : Bytes
  pub count : ℤ
  pub index_given : input.batch_index ≡ some height
  pub root_given : bytes_of input.state_root ≡ ok root
  pub count_given : input.tx_count ≡ some count
  pub layer : anchor.layer_id ≡ layer_id
  pub layer_height : anchor.layer_height ≡ low_64 height
  pub state_root : anchor.state_root ≡ bytes_to_hex root
  pub validator_set : hex_or_empty input.validator_set_hash ≡ ok anchor.validator_set_hash
  pub transaction_count : anchor.transaction_count ≡ low_64 count
  pub state_proof : anchor.compressed_state_proof ≡ []
  pub pqc_signature : anchor.pqc_signature ≡ bytes_to_hex signature

-- The bytes signed are the v2 message of the recorded anchor.
same_message :
    (anchor : AnchorView) (chain_id layer_id : JsString) (input : SubmitBatchInput)
    (signature message : Bytes) (r : RecordsBatch anchor layer_id input signature)
    → anchor_sign_bytes_for_batch chain_id layer_id input.batch_index input.state_root
        input.tx_count input.validator_set_hash
      ≡ ok message
    → hex_checked (
        anchor_sign_bytes_v2
          (batch_anchor_message chain_id layer_id
            (low_64 r.height)
            (bytes_to_hex r.root)
            anchor.validator_set_hash
            (low_64 r.count))
          chain_id
          (low_64 r.count))
      ≡ ok message
unfolding anchor_sign_bytes_for_batch
same_message anchor chain_id layer_id input signature message r h =
    ground (arith, r.index_given, r.root_given, r.count_given, r.validator_set)

recorded_message :
    (anchor : AnchorView) (chain_id layer_id : JsString) (input : SubmitBatchInput)
    (signature : Bytes) (r : RecordsBatch anchor layer_id input signature)
    → message_of chain_id anchor
      ≡ batch_anchor_message chain_id layer_id
          (low_64 r.height)
          (bytes_to_hex r.root)
          anchor.validator_set_hash
          (low_64 r.count)
recorded_message anchor chain_id layer_id input signature r =
    ground (arith, r.layer, r.layer_height, r.state_root, r.transaction_count, r.state_proof)

hex_checked-ok : (x : Result HexError Bytes) (b : Bytes) → hex_checked x ≡ ok b → x ≡ ok b
hex_checked-ok (err e) b h = absurd (cc)
hex_checked-ok (ok a) b h = cc

rebuilt_message :
    (anchor : AnchorView) (chain_id layer_id : JsString) (input : SubmitBatchInput)
    (signature message : Bytes) (r : RecordsBatch anchor layer_id input signature)
    → anchor_sign_bytes_for_batch chain_id layer_id input.batch_index input.state_root
        input.tx_count input.validator_set_hash
      ≡ ok message
    → anchor_message v2 chain_id anchor ≡ ok message
unfolding anchor_message
rebuilt_message anchor chain_id layer_id input signature message r h =
    ap (λ m. anchor_sign_bytes_v2 m chain_id anchor.transaction_count)
      (recorded_message anchor chain_id layer_id input signature r)
    ∙ (ap
          (anchor_sign_bytes_v2
            (batch_anchor_message chain_id layer_id (low_64 r.height) (bytes_to_hex r.root)
              anchor.validator_set_hash (low_64 r.count))
            chain_id)
          r.transaction_count
        ∙ hex_checked-ok _ message
            (same_message anchor chain_id layer_id input signature message r h))

is_empty-false : (s : JsString) → s ≢ [] → is_empty s ≡ false
is_empty-false [] h = absurd (h refl)
is_empty-false (x ∷ s) h = refl

hex_given : (b : Bytes) → AreBytes b → is_empty b ≡ false → is_empty (bytes_to_hex b) ≡ false
hex_given [] h given_ = cc
hex_given (x ∷ b) h given_ = is_empty-false (bytes_to_hex (x ∷ b)) (hex_not_empty x b h.0)

-- A signature that the client made for the rollup's creator, recorded by the chain with the batch,
-- passes the receipt's post-quantum check against the key that the pair's public half names, where both
-- are bytes and not empty and the check accepts what signing with the pair's secret half makes.
pub creator_signature_verifies :
    (sdk : Sdk) (client : TxClient) (input : SubmitBatchInput) (signature : Bytes)
    (pqc_verify : Bytes → Bytes → Bytes → Result JsString Bool) (anchor : AnchorView)
    (s : SignedByCreator sdk client input signature)
    → RecordsBatch anchor s.rollup.layer_id input signature
    → AreBytes signature
    → is_empty signature ≡ false
    → AreBytes s.hybrid.pqc_keypair.public_key
    → is_empty s.hybrid.pqc_keypair.public_key ≡ false
    → ((message made : Bytes)
        → sdk.pqc_sign s.hybrid.pqc_keypair.secret_key message ≡ ok made
        → pqc_verify s.hybrid.pqc_keypair.public_key message made ≡ ok true)
    → signature_over pqc_verify anchor (bytes_to_hex s.hybrid.pqc_keypair.public_key) s.chain_id v2
      ≡ true
creator_signature_verifies sdk client input signature pqc_verify anchor s r sb sg kb kg law =
    let key = s.hybrid.pqc_keypair.public_key in
    (signature_over_iff pqc_verify anchor (bytes_to_hex key) s.chain_id v2).1 (record {
      key = key;
      message = s.message;
      signature = signature;
      key_given = hex_given key kb kg;
      signature_given = ap is_empty r.pqc_signature ∙ hex_given signature sb sg;
      key_read = hex_to_bytes-bytes_to_hex key kb;
      message_built =
          rebuilt_message anchor s.chain_id s.rollup.layer_id input signature s.message r
            s.message_built;
      signature_read = ap hex_to_bytes r.pqc_signature ∙ hex_to_bytes-bytes_to_hex signature sb;
      verified = law s.message signature s.signature_made;
    })
