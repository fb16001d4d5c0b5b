-- ===== src/Bytes/Tests.antt =====
-- Runs of the encoders and of the hex functions, and the theorems at concrete inputs.
use qorechain_rdk.Prelude.{◌+◌, ◌^◌, ◌≡◌, refl, ◌≢◌, ◌⊎◌, [], ◌∷◌, map, ok}
use qorechain_rdk.Bytes.Hex.RoundTrip.{lower_hex}
use qorechain_rdk.Text.{JsString, js}
use qorechain_rdk.Bytes.Hex.Wire.{decode_wire_bytes_reads}
use qorechain_rdk.Bytes.{AreBytes, big_endian, Bytes, u64be, u32be}
use qorechain_rdk.Bytes.Hex.{bytes_to_hex, hex_to_bytes, decode_wire_bytes}

u64be_wraps : u64be (2 ^ 64 + 258) ≡ 0 ∷ 0 ∷ 0 ∷ 0 ∷ 0 ∷ 0 ∷ 1 ∷ 2 ∷ []
unfolding u64be big_endian
u64be_wraps = refl

u32be_bytes : u32be 0x0102_0304 ≡ 1 ∷ 2 ∷ 3 ∷ 4 ∷ []
unfolding u32be
u32be_bytes = refl

upper_case_and_prefix : hex_to_bytes (js "0XaB0f") ≡ ok (0xab ∷ 0x0f ∷ [])
unfolding hex_to_bytes
upper_case_and_prefix = refl

-- The base64 text of the bytes 69 b7 1d is read as hex.
base64_taken_for_hex :
    decode_wire_bytes (λ _. 0x69 ∷ 0xb7 ∷ 0x1d ∷ []) (js "abcd") ≡ ok (0xab ∷ 0xcd ∷ [])
unfolding decode_wire_bytes
base64_taken_for_hex = refl

abbrev no_base64 : JsString → Bytes
no_base64 s = []

decode_wire_bytes_reads_example :
    ((bs : Bytes) × AreBytes bs
      × (bytes_to_hex bs ≡ map lower_hex (js "abCD"))
      × (decode_wire_bytes no_base64 (js "abCD") ≡ ok bs))
    ⊎ (((bs : Bytes) → AreBytes bs → bytes_to_hex bs ≢ map lower_hex (js "abCD"))
        × (decode_wire_bytes no_base64 (js "abCD") ≡ ok (no_base64 (js "abCD"))))
decode_wire_bytes_reads_example = decode_wire_bytes_reads no_base64 (js "abCD") (λ e. cc)
