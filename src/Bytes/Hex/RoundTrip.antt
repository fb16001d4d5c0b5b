-- ===== src/Bytes/Hex/RoundTrip.antt =====
-- Hex strings and bytes are inverse to one another, and which wire strings are read as hex.
use qorechain_rdk.Prelude.{
  ◌+◌, ◌*◌, ◌/◌, ◌%◌, ◌<◌, ℕ, ◌≡◌, refl, ◌∙◌, ◌≢◌, ◌⊎◌, inl, inr, Bool, true, false, not, ◌&&◌,
  ◌||◌, [], ◌∷◌, map, arith, ◌==◌, if◌then◌else◌, Bool-cases, length, ok, err,
}
use qorechain_rdk.Text.{JsString}
use qorechain_rdk.Bytes.{Bytes, IsByte, AreBytes}
use qorechain_rdk.Bytes.Hex.{
  is_upper_af, is_hex_digit, all, any, hex_digit, to_string_16, pad_start, bytes_to_hex, hex_value,
  parse_pairs, strip_0x, invalid_hex_string, is_even_hex, hex_to_bytes, beyond_hex,
  decode_wire_bytes,
}

-- The two digits of a byte.
byte_hex :
    (b : ℕ)
    → IsByte b
    → pad_start 2 b'0' (to_string_16 b) ≡ hex_digit (b / 16) ∷ hex_digit (b % 16) ∷ []
byte_hex b h = ground arith

digit_ok : (n : ℕ) → n < 16 → (is_hex_digit (hex_digit n) ≡ true) × (hex_value (hex_digit n) ≡ n)
digit_ok n h = ground arith

bytes_to_hex-cons :
    (b : ℕ) (bs : Bytes)
    → IsByte b
    → bytes_to_hex (b ∷ bs) ≡ hex_digit (b / 16) ∷ hex_digit (b % 16) ∷ bytes_to_hex bs
unfolding bytes_to_hex
bytes_to_hex-cons b bs h = rw (byte_hex b h) refl

pub bytes_to_hex_even : (bs : Bytes) → AreBytes bs → is_even_hex (bytes_to_hex bs) ≡ true
bytes_to_hex_even [] h = unfold bytes_to_hex in refl
bytes_to_hex_even (b ∷ bs) (h, hs) =
    rw (bytes_to_hex-cons b bs h)
      (ground (arith, bytes_to_hex_even bs hs, digit_ok (b / 16), digit_ok (b % 16)))

parse_pairs-cons :
    (c d : ℕ) (s : JsString)
    → parse_pairs (c ∷ d ∷ s) ≡ (16 * hex_value c + hex_value d) ∷ parse_pairs s
unfolding parse_pairs
parse_pairs-cons c d s = refl

parse_pairs-bytes_to_hex : (bs : Bytes) → AreBytes bs → parse_pairs (bytes_to_hex bs) ≡ bs
parse_pairs-bytes_to_hex [] h = unfold bytes_to_hex parse_pairs in refl
parse_pairs-bytes_to_hex (b ∷ bs) (h, hs) =
    rw (bytes_to_hex-cons b bs h, parse_pairs-cons, parse_pairs-bytes_to_hex bs hs)
      (ground (arith, digit_ok (b / 16), digit_ok (b % 16)))

strip_0x-bytes_to_hex : (bs : Bytes) → AreBytes bs → strip_0x (bytes_to_hex bs) ≡ bytes_to_hex bs
strip_0x-bytes_to_hex [] h = unfold bytes_to_hex strip_0x in refl
strip_0x-bytes_to_hex (b ∷ bs) (h, hs) =
    rw (bytes_to_hex-cons b bs h) (unfold strip_0x in ground (arith))

-- Printing bytes as hex and parsing them back gives the bytes.
pub hex_to_bytes-bytes_to_hex : (bs : Bytes) → AreBytes bs → hex_to_bytes (bytes_to_hex bs) ≡ ok bs
unfolding hex_to_bytes
hex_to_bytes-bytes_to_hex bs h =
    rw (strip_0x-bytes_to_hex bs h)
      (ground (arith, bytes_to_hex_even bs h, parse_pairs-bytes_to_hex bs h))

-- A hex digit in lower case.
abbrev pub lower_hex : ℕ → ℕ
lower_hex c = if is_upper_af c then c + 32 else c

digit_of_value :
    (c : ℕ) → is_hex_digit c ≡ true → (hex_value c < 16) × (hex_digit (hex_value c) ≡ lower_hex c)
digit_of_value c h = ground arith

split-IsByte :
    (x y : ℕ)
    → x < 16
    → y < 16
    → IsByte (16 * x + y) × ((16 * x + y) / 16 ≡ x) × ((16 * x + y) % 16 ≡ y)
split-IsByte x y h k = omega arith

-- What the pairs of an even hex text parse to.
abbrev pub ParsesBack : JsString → Bytes → Type 0
ParsesBack s bs = AreBytes bs × (bytes_to_hex bs ≡ map lower_hex s) × (2 * length bs ≡ length s)

parse_pairs_step :
    (c d : ℕ) (s : JsString) (bs : Bytes)
    → is_hex_digit c ≡ true
    → is_hex_digit d ≡ true
    → ParsesBack s bs
    → ParsesBack (c ∷ d ∷ s) ((16 * hex_value c + hex_value d) ∷ bs)
parse_pairs_step c d s bs h k (bytes, text, long) =
    let (small, digit) = digit_of_value c h in
    let (small', digit') = digit_of_value d k in
    let (byte, hi, lo) = split-IsByte (hex_value c) (hex_value d) small small' in
    (
      (byte, bytes),
      rw (bytes_to_hex-cons (16 * hex_value c + hex_value d) bs byte, hi, lo, digit, digit', text)
          refl,
      omega arith,
    )

pub parse_pairs_back : (s : JsString) → is_even_hex s ≡ true → ParsesBack s (parse_pairs s)
parse_pairs_back [] h = unfold parse_pairs bytes_to_hex in (tt, refl, omega arith)
parse_pairs_back (c ∷ []) h = absurd (ground arith)
parse_pairs_back (c ∷ d ∷ s) h = rw (parse_pairs-cons c d s) (
    parse_pairs_step c d s (parse_pairs s) (ground arith) (ground arith)
      (parse_pairs_back s (ground arith)))

if_not {ℓ} :
    {A : Type ℓ} (a b : Bool) (x y : A)
    → (if not a || not b then x else y) ≡ (if a && b then y else x)
if_not true true x y = refl
if_not true false x y = refl
if_not false b x y = refl

pub hex_to_bytes_lem :
    (s : JsString)
    → hex_to_bytes s ≡ (
        if is_even_hex (strip_0x s)
        then ok (parse_pairs (strip_0x s))
        else err (invalid_hex_string s))
unfolding hex_to_bytes
hex_to_bytes_lem s =
    if_not (length (strip_0x s) % 2 == 0) (all is_hex_digit (strip_0x s))
      (err (invalid_hex_string s)) (ok (parse_pairs (strip_0x s)))

-- `hex_to_bytes` accepts exactly the texts that, after an optional "0x" or "0X", hold an even number of
-- hex digits. Then it returns one byte for two digits, each byte below 256, and printing the bytes gives
-- the digits in lower case. Any other text is refused with an error that names it.
pub hex_to_bytes_iff :
    (s : JsString)
    → ((is_even_hex (strip_0x s) ≡ true)
        × (bs : Bytes) × (hex_to_bytes s ≡ ok bs)
        × ParsesBack (strip_0x s) bs)
      ⊎ ((is_even_hex (strip_0x s) ≡ false) × (hex_to_bytes s ≡ err (invalid_hex_string s)))
hex_to_bytes_iff s = elim (Bool-cases (is_even_hex (strip_0x s))) [
  | inl e ↦
      inl (
        e,
        parse_pairs (strip_0x s),
        hex_to_bytes_lem s ∙ rw e refl,
        parse_pairs_back (strip_0x s) e,
      )
  | inr e ↦ inr (e, hex_to_bytes_lem s ∙ rw e refl)
]

all_hex-not_beyond : (s : JsString) → all is_hex_digit s ≡ true → any beyond_hex s ≡ false
all_hex-not_beyond [] h = refl
all_hex-not_beyond (c ∷ s) h = ground (arith, all_hex-not_beyond s)

pub hex_not_empty : (b : ℕ) (bs : Bytes) → IsByte b → bytes_to_hex (b ∷ bs) ≢ []
hex_not_empty b bs h = rw (bytes_to_hex-cons b bs h) (λ e. cc)

module _ (b64 : JsString → Bytes) where
  pub wire_hex :
      (s : JsString) → s ≢ [] → is_even_hex s ≡ true → decode_wire_bytes b64 s ≡ hex_to_bytes s
  unfolding decode_wire_bytes
  wire_hex [] ne h = absurd (ne refl)
  wire_hex (c ∷ s) ne h = ground (arith, all_hex-not_beyond (c ∷ s))

  pub wire_base64 :
      (s : JsString) → s ≢ [] → is_even_hex s ≡ false → decode_wire_bytes b64 s ≡ ok (b64 s)
  unfolding decode_wire_bytes
  wire_base64 [] ne h = absurd (ne refl)
  wire_base64 (c ∷ s) ne h = rw h refl

  wire_hex_back : (bs : Bytes) → AreBytes bs → decode_wire_bytes b64 (bytes_to_hex bs) ≡ ok bs
  wire_hex_back [] h = unfold decode_wire_bytes bytes_to_hex in refl
  wire_hex_back (b ∷ bs) h =
      wire_hex (bytes_to_hex (b ∷ bs)) (hex_not_empty b bs h.0) (bytes_to_hex_even (b ∷ bs) h)
      ∙ hex_to_bytes-bytes_to_hex (b ∷ bs) h

-- Whatever base64 decoder the runtime has, bytes sent as hex are read back as they were.
pub decode_wire_bytes-bytes_to_hex :
    (base64_to_bytes : JsString → Bytes) (bs : Bytes)
    → AreBytes bs
    → decode_wire_bytes base64_to_bytes (bytes_to_hex bs) ≡ ok bs
decode_wire_bytes-bytes_to_hex b64 bs h = wire_hex_back b64 bs h
