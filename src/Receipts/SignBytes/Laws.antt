-- ===== src/Receipts/SignBytes/Laws.antt =====
-- What an anchor signature covers, under both forms.
use qorechain_rdk.Bytes.Hex.RoundTrip.{hex_to_bytes-bytes_to_hex}
use qorechain_rdk.Prelude.{
  ◌^◌, ◌<◌, ℕ, ◌≡◌, refl, sym, ap, ◌∙◌, [], ◌∷◌, ◌++◌, length, Result, ok, err, ok-injective,
  >>=-eq-ok,
}
use mathlib.Core.List.{append_assoc}
use qorechain_rdk.Text.{JsString}
use qorechain_rdk.Text.Encoder.{utf8}
use qorechain_rdk.Bytes.{AreBytes, Bytes, u64be, lp64}
use qorechain_rdk.Bytes.Hex.{bytes_to_hex, HexError, hex_to_bytes}
use qorechain_rdk.Bytes.Layout.{append_cancel, u64be_cancel, lp64_cancel}
use qorechain_rdk.QoreHash.{concat_parts}
use qorechain_rdk.Receipts.SignBytes.{
  AnchorMessage, anchor_sign_bytes_v1, anchor_sign_bytes_v2, v2_message_parts, or_empty,
  anchor_sign_domain_v2,
}

abbrev bytes_or : Result HexError Bytes → Bytes
bytes_or (ok b) = b
bytes_or (err e) = []

-- Height and count fit 8 bytes, and the lengths of the other fields too.
abbrev pub FitsMessage : AnchorMessage → JsString → ℕ → Type 0
FitsMessage m chain count =
    (length (utf8 chain) < 2 ^ 64)
    × (length (utf8 m.layer_id) < 2 ^ 64)
    × (m.layer_height < 2 ^ 64)
    × (length (bytes_or (hex_to_bytes m.state_root)) < 2 ^ 64)
    × (length (bytes_or (hex_to_bytes m.validator_set_hash)) < 2 ^ 64)
    × (count < 2 ^ 64)
    × (length (bytes_or (hex_to_bytes (or_empty m.compressed_state_proof))) < 2 ^ 64)

-- Two messages agree on all that a v2 signature covers; texts are compared by their UTF-8 bytes and
-- hexadecimal fields by the bytes they stand for.
pub record SameAnchor (a b : AnchorMessage) : Type 0 where
  pub layer_id : utf8 a.layer_id ≡ utf8 b.layer_id
  pub layer_height : a.layer_height ≡ b.layer_height
  pub state_root : hex_to_bytes a.state_root ≡ hex_to_bytes b.state_root
  pub validator_set_hash : hex_to_bytes a.validator_set_hash ≡ hex_to_bytes b.validator_set_hash
  pub compressed_state_proof :
      hex_to_bytes (or_empty a.compressed_state_proof)
      ≡ hex_to_bytes (or_empty b.compressed_state_proof)

message_layout :
    (chain layer : JsString) (height : ℕ) (root vsh : Bytes) (count : ℕ) (proof : Bytes)
    → concat_parts (v2_message_parts chain layer height root vsh count proof)
      ≡ utf8 anchor_sign_domain_v2
        ++ (lp64 (utf8 chain)
            ++ (lp64 (utf8 layer)
                ++ (u64be height
                    ++ (lp64 root ++ (lp64 vsh ++ (u64be count ++ (lp64 proof ++ [])))))))
unfolding lp64
message_layout chain layer height root vsh count proof = simp append_assoc

-- How a v2 message comes of its input.
pub record Laid (m : AnchorMessage) (chain : JsString) (count : ℕ) (bytes : Bytes) : Type 0 where
  pub root : Bytes
  pub vsh : Bytes
  pub proof : Bytes
  pub root_read : hex_to_bytes m.state_root ≡ ok root
  pub vsh_read : hex_to_bytes m.validator_set_hash ≡ ok vsh
  pub proof_read : hex_to_bytes (or_empty m.compressed_state_proof) ≡ ok proof
  pub laid :
      bytes ≡ concat_parts (v2_message_parts chain m.layer_id m.layer_height root vsh count proof)

anchor_sign_bytes_v2-Laid :
    (m : AnchorMessage) (chain : JsString) (count : ℕ) (bytes : Bytes)
    → anchor_sign_bytes_v2 m chain count ≡ ok bytes
    → Laid m chain count bytes
unfolding anchor_sign_bytes_v2
anchor_sign_bytes_v2-Laid m chain count bytes e =
    let (root, e1, h1) = >>=-eq-ok (hex_to_bytes m.state_root) _ e in
    let (vsh, e2, h2) = >>=-eq-ok (hex_to_bytes m.validator_set_hash) _ h1 in
    let (proof, e3, h3) = >>=-eq-ok (hex_to_bytes (or_empty m.compressed_state_proof)) _ h2 in
    record {
      root = root;
      vsh = vsh;
      proof = proof;
      root_read = e1;
      vsh_read = e2;
      proof_read = e3;
      laid = sym (ok-injective h3);
    }

-- Two v2 anchor messages with the same bytes name the same chain, the same layer and height, the same
-- roots, the same count and the same proof: a signature over one is a signature over nothing else.
pub anchor_sign_bytes_v2_binds :
    (a b : AnchorMessage) (chain chain' : JsString) (count count' : ℕ) (bytes : Bytes)
    → FitsMessage a chain count
    → FitsMessage b chain' count'
    → anchor_sign_bytes_v2 a chain count ≡ ok bytes
    → anchor_sign_bytes_v2 b chain' count' ≡ ok bytes
    → (utf8 chain ≡ utf8 chain') × (count ≡ count') × SameAnchor a b
anchor_sign_bytes_v2_binds a b chain chain' count count' bytes f g ea eb =
    let l = anchor_sign_bytes_v2-Laid a chain count bytes ea in
    let k = anchor_sign_bytes_v2-Laid b chain' count' bytes eb in
    let f' = rw (l.root_read, l.vsh_read, l.proof_read) at f in
    let g' = rw (k.root_read, k.vsh_read, k.proof_read) at g in
    let e0 =
      sym (message_layout chain a.layer_id a.layer_height l.root l.vsh count l.proof)
      ∙ sym l.laid
      ∙ k.laid
      ∙ message_layout chain' b.layer_id b.layer_height k.root k.vsh count' k.proof in
    let e1 =
      (append_cancel (utf8 anchor_sign_domain_v2) (utf8 anchor_sign_domain_v2) _ _ refl e0).1 in
    let (p1, e2) = lp64_cancel (utf8 chain) (utf8 chain') _ _ f'.0 g'.0 e1 in
    let (p2, e3) = lp64_cancel (utf8 a.layer_id) (utf8 b.layer_id) _ _ f'.1 g'.1 e2 in
    let (p3, e4) = u64be_cancel a.layer_height b.layer_height _ _ f'.2 g'.2 e3 in
    let (p4, e5) = lp64_cancel l.root k.root _ _ f'.3 g'.3 e4 in
    let (p5, e6) = lp64_cancel l.vsh k.vsh _ _ f'.4 g'.4 e5 in
    let (p6, e7) = u64be_cancel count count' _ _ f'.5 g'.5 e6 in
    let (p7, _) = lp64_cancel l.proof k.proof _ _ f'.6 g'.6 e7 in
    (
      p1,
      p6,
      record {
        layer_id = p2;
        layer_height = p3;
        state_root = l.root_read ∙ ap ok p4 ∙ sym k.root_read;
        validator_set_hash = l.vsh_read ∙ ap ok p5 ∙ sym k.vsh_read;
        compressed_state_proof = l.proof_read ∙ ap ok p7 ∙ sym k.proof_read;
      },
    )

AreBytes-append : (a b : Bytes) → AreBytes a → AreBytes b → AreBytes (a ++ b)
AreBytes-append [] b h k = k
AreBytes-append (x ∷ a) b h k = (h.0, AreBytes-append a b h.1 k)

-- In the v1 form nothing stands between the state root and the validator-set hash: bytes moved from the
-- end of the one to the front of the other leave the signed message as it was.
pub anchor_sign_bytes_v1_shift :
    (m : AnchorMessage) (root moved hash : Bytes)
    → AreBytes root
    → AreBytes moved
    → AreBytes hash
    → anchor_sign_bytes_v1 (record m {
      state_root = bytes_to_hex (root ++ moved);
      validator_set_hash = bytes_to_hex hash;
    })
      ≡ anchor_sign_bytes_v1 (record m {
        state_root = bytes_to_hex root;
        validator_set_hash = bytes_to_hex (moved ++ hash);
      })
unfolding anchor_sign_bytes_v1
anchor_sign_bytes_v1_shift m root moved hash r v h =
    rw
      (
        hex_to_bytes-bytes_to_hex (root ++ moved) (AreBytes-append root moved r v),
        hex_to_bytes-bytes_to_hex hash h,
        hex_to_bytes-bytes_to_hex root r,
        hex_to_bytes-bytes_to_hex (moved ++ hash) (AreBytes-append moved hash v h),
        append_assoc root moved hash,
      )
      refl
