-- ===== src/Receipts/Signature.antt =====
-- `anchorSignBytesVersionFor` and `signatureOver` of packages/ts/src/receipts/index.ts.
use qorechain_rdk.Prelude.{
  ◌>>=◌, ℕ, ◌≡◌, ap, ◌↔◌, inl, inr, Bool, true, false, ◌||◌, some, arith, leb, if◌then◌else◌,
  Result, ok, err, Result-cases,
}
use qorechain_rdk.Text.{JsString, is_empty}
use qorechain_rdk.Bytes.{Bytes}
use qorechain_rdk.Bytes.Hex.{HexError, hex_to_bytes}
use qorechain_rdk.Views.{AnchorView}
use qorechain_rdk.Receipts.SignBytes.{
  AnchorSignBytesVersion, v1, v2, AnchorMessage, anchor_sign_bytes_v1, anchor_sign_bytes_v2,
}

unfoldable pub anchor_sign_bytes_version_for : ℕ → ℕ → AnchorSignBytesVersion
anchor_sign_bytes_version_for anchor_main_chain_height v2_height =
    if leb v2_height anchor_main_chain_height then v2 else v1

abbrev pub message_of : JsString → AnchorView → AnchorMessage
message_of chain_id anchor = record {
  layer_id = anchor.layer_id;
  layer_height = anchor.layer_height;
  state_root = anchor.state_root;
  validator_set_hash = anchor.validator_set_hash;
  chain_id = some chain_id;
  transaction_count = some anchor.transaction_count;
  compressed_state_proof = some anchor.compressed_state_proof;
}

unfoldable pub anchor_message :
    AnchorSignBytesVersion → JsString → AnchorView → Result HexError Bytes
anchor_message v2 chain_id anchor =
    anchor_sign_bytes_v2 (message_of chain_id anchor) chain_id anchor.transaction_count
anchor_message v1 chain_id anchor = anchor_sign_bytes_v1 (message_of chain_id anchor)

-- `try { return … } catch { return false; }`.
abbrev pub caught {ℓ} : {E : Type ℓ} → Result E Bool → Bool
caught (ok b) = b
caught (err e) = false

module _ (pqc_verify : Bytes → Bytes → Bytes → Result JsString Bool) where
  unfoldable pub signature_over : AnchorView → JsString → JsString → AnchorSignBytesVersion → Bool
  signature_over anchor public_key_hex chain_id version =
      if is_empty public_key_hex || is_empty anchor.pqc_signature
      then false
      else caught (do
        message ← anchor_message version chain_id anchor
        key ← hex_to_bytes public_key_hex
        signature ← hex_to_bytes anchor.pqc_signature
        ok (caught (pqc_verify key message signature)))

  -- What it takes for a signature to count.
  pub record Signed (anchor : AnchorView) (public_key_hex chain_id : JsString)
      (version : AnchorSignBytesVersion) : Type 0 where
    pub key : Bytes
    pub message : Bytes
    pub signature : Bytes
    pub key_given : is_empty public_key_hex ≡ false
    pub signature_given : is_empty anchor.pqc_signature ≡ false
    pub key_read : hex_to_bytes public_key_hex ≡ ok key
    pub message_built : anchor_message version chain_id anchor ≡ ok message
    pub signature_read : hex_to_bytes anchor.pqc_signature ≡ ok signature
    pub verified : pqc_verify key message signature ≡ ok true

  caught-true : (r : Result JsString Bool) → caught r ≡ true → r ≡ ok true
  caught-true (ok b) h = ap ok h
  caught-true (err e) h = cc

  signature_over-Signed :
      (anchor : AnchorView) (public_key_hex chain_id : JsString) (version : AnchorSignBytesVersion)
      → signature_over anchor public_key_hex chain_id version ≡ true
      → Signed anchor public_key_hex chain_id version
  unfolding signature_over
  signature_over-Signed anchor public_key_hex chain_id version h =
      elim (Result-cases (anchor_message version chain_id anchor)) [
        | inl (m, hm) ↦ elim (Result-cases (hex_to_bytes public_key_hex)) [
          | inl (k, hk) ↦ elim (Result-cases (hex_to_bytes anchor.pqc_signature)) [
            | inl (s, hs) ↦ record {
              key = k;
              message = m;
              signature = s;
              key_given = ground arith;
              signature_given = ground arith;
              key_read = hk;
              message_built = hm;
              signature_read = hs;
              verified = caught-true (pqc_verify k m s) (ground arith);
            }
            | inr (x, hs) ↦ absurd (ground arith)
          ]
          | inr (x, hk) ↦ absurd (ground arith)
        ]
        | inr (x, hm) ↦ absurd (ground arith)
      ]

  counted :
      (anchor : AnchorView) (public_key_hex chain_id : JsString) (version : AnchorSignBytesVersion)
      → Signed anchor public_key_hex chain_id version
      → signature_over anchor public_key_hex chain_id version ≡ true
  unfolding signature_over
  counted anchor public_key_hex chain_id version s = ground (
    arith, s.key_given, s.signature_given, s.key_read, s.message_built, s.signature_read,
    s.verified,
  )

-- A signature counts exactly when key and signature are given and hexadecimal, the anchor's message
-- can be built under the version asked for, and the post-quantum check accepts those bytes. Whatever
-- throws on the way makes it not count.
pub signature_over_iff :
    (pqc_verify : Bytes → Bytes → Bytes → Result JsString Bool) (anchor : AnchorView)
    (public_key_hex chain_id : JsString) (version : AnchorSignBytesVersion)
    → (signature_over pqc_verify anchor public_key_hex chain_id version ≡ true)
      ↔ Signed pqc_verify anchor public_key_hex chain_id version
signature_over_iff pqc_verify anchor public_key_hex chain_id version = (
  signature_over-Signed pqc_verify anchor public_key_hex chain_id version,
  counted pqc_verify anchor public_key_hex chain_id version,
)
