-- ===== src/Text/Encoder.antt =====
-- `new TextEncoder().encode(s)`: UTF-8 over UTF-16 code units; an unpaired surrogate becomes U+FFFD.
use qorechain_rdk.Prelude.{
  ◌+◌, ◌-◌, ◌*◌, ◌/◌, ◌%◌, ◌<◌, ℕ, ◌≡◌, refl, Bool, ◌&&◌, ◌||◌, List, [], ◌∷◌, ◌++◌, arith, ltb,
  leb, if◌then◌else◌,
}
use qorechain_rdk.Text.{JsString}

abbrev pub is_high : ℕ → Bool
is_high u = leb 0xd800 u && leb u 0xdbff

abbrev pub is_low : ℕ → Bool
is_low u = leb 0xdc00 u && leb u 0xdfff

-- One code unit outside a surrogate pair.
abbrev encode_unit : ℕ → List ℕ
encode_unit u =
    if ltb u 0x80
    then u ∷ []
    else if ltb u 0x800
    then (0xc0 + u / 64) ∷ (0x80 + u % 64) ∷ []
    else if is_high u || is_low u
    then 0xef ∷ 0xbf ∷ 0xbd ∷ []
    else (0xe0 + u / 4096) ∷ (0x80 + u / 64 % 64) ∷ (0x80 + u % 64) ∷ []

-- A surrogate pair, by the code point that it stands for.
abbrev encode_pair : ℕ → ℕ → List ℕ
encode_pair hi lo =
    let cp = 0x10000 + (hi - 0xd800) * 0x400 + (lo - 0xdc00) in
    (0xf0 + cp / 262144) ∷ (0x80 + cp / 4096 % 64) ∷ (0x80 + cp / 64 % 64) ∷ (0x80 + cp % 64) ∷ []

unfoldable pub utf8 : JsString → List ℕ
utf8 [] = []
utf8 (u ∷ []) = encode_unit u
utf8 (u ∷ v ∷ s) =
    let pair = utf8 s in
    let single = utf8 (v ∷ s) in
    if is_high u && is_low v then encode_pair u v ++ pair else encode_unit u ++ single

abbrev pub IsAscii : JsString → Type 0
IsAscii [] = Unit
IsAscii (u ∷ s) = (u < 0x80) × IsAscii s

-- ASCII text is its own encoding, so two ASCII texts with the same bytes are the same text.
pub utf8_ascii : (s : JsString) → IsAscii s → utf8 s ≡ s
unfolding utf8
utf8_ascii [] h = refl
utf8_ascii (u ∷ []) h = ground arith
utf8_ascii (u ∷ v ∷ s) h = ground (arith, utf8_ascii (v ∷ s))

utf8_mixed :
    utf8 (0x61 ∷ 0xe9 ∷ 0x20ac ∷ 0xd83d ∷ 0xde00 ∷ 0xd83d ∷ [])
    ≡ 0x61 ∷ 0xc3 ∷ 0xa9 ∷ 0xe2 ∷ 0x82 ∷ 0xac ∷ 0xf0 ∷ 0x9f ∷ 0x98 ∷ 0x80 ∷ 0xef ∷ 0xbf ∷ 0xbd ∷ []
unfolding utf8
utf8_mixed = refl
