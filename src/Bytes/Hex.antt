-- ===== src/Bytes/Hex.antt =====
-- packages/ts/src/utils/bytes.ts: hex strings and wire bytes. Base64 is the runtime's (`Buffer`, `atob`) and
-- a parameter.
pub mod RoundTrip
pub mod Wire
use qorechain_rdk.Prelude.{
  ◌+◌, ◌-◌, ◌*◌, ◌/◌, ◌%◌, ℕ, Bool, true, false, not, ◌&&◌, ◌||◌, List, [], ◌∷◌, ◌++◌, ltb, leb,
  ◌==◌, if◌then◌else◌, length, drop, replicate, Result, ok, err,
}
use qorechain_rdk.Text.{JsString, js, starts_with, is_empty}
use qorechain_rdk.Bytes.{Bytes}

abbrev pub is_decimal : ℕ → Bool
is_decimal c = leb b'0' c && leb c b'9'

abbrev pub is_upper_af : ℕ → Bool
is_upper_af c = leb b'A' c && leb c b'F'

abbrev pub is_lower_af : ℕ → Bool
is_lower_af c = leb b'a' c && leb c b'f'

-- The class `[0-9a-fA-F]`.
abbrev pub is_hex_digit : ℕ → Bool
is_hex_digit c = is_decimal c || is_lower_af c || is_upper_af c

abbrev pub all {ℓ} : {A : Type ℓ} → (A → Bool) → List A → Bool
all p [] = true
all p (x ∷ xs) = p x && all p xs

abbrev pub any {ℓ} : {A : Type ℓ} → (A → Bool) → List A → Bool
any p [] = false
any p (x ∷ xs) = p x || any p xs

-- A digit of `toString(16)`.
abbrev pub hex_digit : ℕ → ℕ
hex_digit n = if ltb n 10 then 48 + n else 87 + n

-- `b.toString(16)` for a byte.
abbrev pub to_string_16 : ℕ → JsString
to_string_16 b = if ltb b 16 then hex_digit b ∷ [] else hex_digit (b / 16) ∷ hex_digit (b % 16) ∷ []

-- `s.padStart(n, c)`.
abbrev pub pad_start : ℕ → ℕ → JsString → JsString
pad_start n c s = replicate (n - length s) c ++ s

unfoldable pub bytes_to_hex : Bytes → JsString
bytes_to_hex [] = []
bytes_to_hex (b ∷ bs) = pad_start 2 b'0' (to_string_16 b) ++ bytes_to_hex bs

-- The value of a hex digit under `parseInt(_, 16)`.
abbrev pub hex_value : ℕ → ℕ
hex_value c = if is_decimal c then c - 48 else if is_lower_af c then c - 87 else c - 55

-- `parseInt(h.slice(i * 2, i * 2 + 2), 16)` for each i below `h.length / 2`.
unfoldable pub parse_pairs : JsString → Bytes
parse_pairs (c ∷ d ∷ s) = (16 * hex_value c + hex_value d) ∷ parse_pairs s
parse_pairs _ = []

-- Without a leading "0x" or "0X".
unfoldable pub strip_0x : JsString → JsString
strip_0x hex = if starts_with hex (js "0x") || starts_with hex (js "0X") then drop 2 hex else hex

pub data HexError : Type 0 where
  invalid_hex_string : JsString → HexError

abbrev pub is_even_hex : JsString → Bool
is_even_hex h = (length h % 2 == 0) && all is_hex_digit h

unfoldable pub hex_to_bytes : JsString → Result HexError Bytes
unfolding strip_0x parse_pairs
hex_to_bytes hex =
    let h = strip_0x hex in
    if not (length h % 2 == 0) || not (all is_hex_digit h)
    then err (invalid_hex_string hex)
    else ok (parse_pairs h)

-- The union `string | Uint8Array`.
pub data BytesInput : Type 0 where
  hex_text : JsString → BytesInput
  raw : Bytes → BytesInput

unfoldable pub to_bytes : BytesInput → Result HexError Bytes
unfolding hex_to_bytes
to_bytes (hex_text s) = hex_to_bytes s
to_bytes (raw b) = ok b

-- The class `[+/=]` or `[g-zG-Z]`.
abbrev pub beyond_hex : ℕ → Bool
beyond_hex c =
    c == b'+' || c == b'/' || c == b'=' || leb b'g' c && leb c b'z' || leb b'G' c && leb c b'Z'

module _ (base64_to_bytes : JsString → Bytes) where
  unfoldable pub decode_wire_bytes : JsString → Result HexError Bytes
  unfolding hex_to_bytes
  decode_wire_bytes value =
      if is_empty value
      then ok []
      else let is_hex = is_even_hex value in
        let looks_base64 = any beyond_hex value in
        if is_hex && not looks_base64 then hex_to_bytes value else ok (base64_to_bytes value)
