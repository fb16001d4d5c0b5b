-- ===== src/Bytes/Hex/Wire.antt =====
-- `decodeWireBytes` of packages/ts/src/utils/bytes.ts: which wire texts are read as hex.
use qorechain_rdk.Prelude.{
  ◌≡◌, refl, ◌∙◌, subst, ◌≢◌, ◌⊎◌, inl, inr, true, [], ◌∷◌, map, arith, Bool-cases, length-map, ok,
}
use qorechain_rdk.Text.{JsString}
use qorechain_rdk.Bytes.{Bytes, AreBytes}
use qorechain_rdk.Bytes.Hex.{
  all, is_hex_digit, bytes_to_hex, is_even_hex, decode_wire_bytes, strip_0x, parse_pairs,
}
use qorechain_rdk.Bytes.Hex.RoundTrip.{
  wire_hex, wire_base64, hex_to_bytes_lem, parse_pairs_back, bytes_to_hex_even, lower_hex,
}

strip_even : (s : JsString) → is_even_hex s ≡ true → strip_0x s ≡ s
unfolding strip_0x
strip_even [] h = refl
strip_even (c ∷ []) h = ground arith
strip_even (c ∷ d ∷ s) h = ground arith

all_lowered : (s : JsString) → all is_hex_digit (map lower_hex s) ≡ true → all is_hex_digit s ≡ true
all_lowered [] h = refl
all_lowered (c ∷ s) h = ground (arith, all_lowered s)

even_lowered : (s : JsString) → is_even_hex (map lower_hex s) ≡ true → is_even_hex s ≡ true
even_lowered s h = ground (arith, all_lowered s, length-map s lower_hex)

-- Whatever base64 decoder the runtime has, a non-empty wire text is read as the bytes whose hex it is,
-- in either case of the letters, wherever it is the hex of any bytes, even where a base64 encoder wrote
-- it; only a text that is the hex of no bytes is read as base64.
pub decode_wire_bytes_reads :
    (base64_to_bytes : JsString → Bytes) (s : JsString)
    → s ≢ []
    → ((bs : Bytes) × AreBytes bs
        × (bytes_to_hex bs ≡ map lower_hex s)
        × (decode_wire_bytes base64_to_bytes s ≡ ok bs))
      ⊎ (((bs : Bytes) → AreBytes bs → bytes_to_hex bs ≢ map lower_hex s)
          × (decode_wire_bytes base64_to_bytes s ≡ ok (base64_to_bytes s)))
decode_wire_bytes_reads b64 s ne = elim (Bool-cases (is_even_hex s)) [
  | inl h ↦
      let same = strip_even s h in
      let (bytes, text, long) = parse_pairs_back s h in
      inl (parse_pairs s, bytes, text, wire_hex b64 s ne h ∙ hex_to_bytes_lem s ∙ rw (same, h) refl)
  | inr h ↦ inr (
    λ bs bytes e.
        absurd (
          cc
            (h, even_lowered s (subst (λ t. is_even_hex t ≡ true) e (bytes_to_hex_even bs bytes)))),
    wire_base64 b64 s ne h,
  )
]
