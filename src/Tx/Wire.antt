-- ===== src/Tx/Wire.antt =====
-- The protobuf reader and writer that packages/ts/src/tx/codecs.ts takes from cosmjs-types, as an
-- interface, and the loop that every decoder of that file runs. A writer is the bytes written so far.
pub mod Parses
pub mod Toy
pub mod Fields
use qorechain_rdk.Prelude.{
  ◌+◌, ◌-◌, ◌^◌, ◌≤◌, ◌<◌, ℕ, zero, suc, ◌≡◌, Bool, true, false, not, ◌&&◌, Option, none, some,
  List, [], ◌∷◌, ◌++◌, ltb, ◌==◌, if◌then◌else◌, length, Result, ok, err, ◌>>=◌,
}
use qorechain_rdk.Bytes.{AreBytes}
use qorechain_rdk.Text.Encoder.{is_low, is_high}
use qorechain_rdk.Prelude.Int.{◌≤ℤ◌, pos, negsuc, ℤ}
use qorechain_rdk.Text.{is_empty, JsString}

-- What a call appends to the writer, and what a read gives of the bytes that remain: the value with
-- the bytes after it, or `none` where the package throws. 64-bit integers are bigints.
pub record Wire : Type 0 where
  pub put_uint32 : ℕ → List ℕ
  pub put_string : JsString → List ℕ
  pub put_bytes : List ℕ → List ℕ
  pub put_uint64 : ℤ → List ℕ
  pub put_int64 : ℤ → List ℕ
  pub put_bool : Bool → List ℕ
  pub get_uint32 : List ℕ → Option (ℕ × List ℕ)
  pub get_string : List ℕ → Option (JsString × List ℕ)
  pub get_bytes : List ℕ → Option (List ℕ × List ℕ)
  pub get_uint64 : List ℕ → Option (ℤ × List ℕ)
  pub get_int64 : List ℕ → Option (ℤ × List ℕ)
  pub get_bool : List ℕ → Option (Bool × List ℕ)
  pub skip_type : ℕ → List ℕ → Option (List ℕ)

-- `s.isWellFormed()`: no surrogate stands alone, so that UTF-8 loses nothing.
abbrev pub well_formed : JsString → Bool
well_formed [] = true
well_formed (u ∷ []) = not (is_high u) && not (is_low u)
well_formed (u ∷ v ∷ s) =
    let pair = well_formed s in
    let single = well_formed (v ∷ s) in
    if is_high u then is_low v && pair else not (is_low u) && single

abbrev pub IsUint64 : ℤ → Type 0
IsUint64 v = (pos 0 ≤ℤ v) × (v ≤ℤ pos (2 ^ 64 - 1))

abbrev pub IsInt64 : ℤ → Type 0
IsInt64 v = (negsuc (2 ^ 63 - 1) ≤ℤ v) × (v ≤ℤ pos (2 ^ 63 - 1))

-- A read consumes a prefix at most.
abbrev pub Shrinks {ℓ} : {A : Type ℓ} → (List ℕ → Option (A × List ℕ)) → Type ℓ
Shrinks {A = A} get =
    (bytes rest : List ℕ) (value : A) → get bytes ≡ some (value, rest) → length rest ≤ length bytes

-- What the codecs rely on: a value in range is read back, with what follows it left; a tag takes a
-- byte at least; and no read gives bytes back.
pub record WireLaws (wire : Wire) : Type 0 where
  pub uint32_back :
      (n : ℕ) (rest : List ℕ)
      → n < 2 ^ 32
      → wire.get_uint32 (wire.put_uint32 n ++ rest) ≡ some (n, rest)
  pub string_back :
      (s : JsString) (rest : List ℕ)
      → well_formed s ≡ true
      → wire.get_string (wire.put_string s ++ rest) ≡ some (s, rest)
  pub bytes_back :
      (b rest : List ℕ) → AreBytes b → wire.get_bytes (wire.put_bytes b ++ rest) ≡ some (b, rest)
  pub uint64_back :
      (v : ℤ) (rest : List ℕ)
      → IsUint64 v
      → wire.get_uint64 (wire.put_uint64 v ++ rest) ≡ some (v, rest)
  pub int64_back :
      (v : ℤ) (rest : List ℕ)
      → IsInt64 v
      → wire.get_int64 (wire.put_int64 v ++ rest) ≡ some (v, rest)
  pub bool_back :
      (b : Bool) (rest : List ℕ) → wire.get_bool (wire.put_bool b ++ rest) ≡ some (b, rest)
  pub tag_shrinks :
      (bytes rest : List ℕ) (tag : ℕ)
      → wire.get_uint32 bytes ≡ some (tag, rest)
      → length rest < length bytes
  pub string_shrinks : Shrinks wire.get_string
  pub bytes_shrinks : Shrinks wire.get_bytes
  pub uint64_shrinks : Shrinks wire.get_uint64
  pub int64_shrinks : Shrinks wire.get_int64
  pub bool_shrinks : Shrinks wire.get_bool
  pub skip_shrinks :
      (kind : ℕ) (bytes rest : List ℕ)
      → wire.skip_type kind bytes ≡ some rest
      → length rest ≤ length bytes

-- A decoder throws where a read does. `out_of_fuel` is no outcome of the program: the loop of the
-- model was given too few rounds.
pub data DecodeFailure : Type 0 where
  unreadable out_of_fuel : DecodeFailure

abbrev pub Decoded : Type 0 → Type 0
Decoded M = Result DecodeFailure (M × List ℕ)

-- `message.f = reader.get()`, and `reader.skipType(kind)`.
abbrev pub read_into : {M A : Type 0} → Option (A × List ℕ) → (A → M) → Decoded M
read_into none assign = err unreadable
read_into (some (value, rest)) assign = ok (assign value, rest)

abbrev pub skipping : {M : Type 0} → Option (List ℕ) → M → Decoded M
skipping none message = err unreadable
skipping (some rest) message = ok (message, rest)

-- One round: the tag, and the `switch` on it, which the decoder gives.
abbrev pub Switch : Type 0 → Type 0
Switch M = M → ℕ → List ℕ → Decoded M

abbrev pub after_tag : {M : Type 0} → Option (ℕ × List ℕ) → Switch M → M → Decoded M
after_tag none switch message = err unreadable
after_tag (some (tag, rest)) switch message = switch message tag rest

-- `while (reader.pos < end)`. The position is the length of the buffer less what remains of it.
unfoldable pub decode_loop :
    {M : Type 0} → Wire → Switch M → ℕ → ℕ → ℕ → M → List ℕ → Result DecodeFailure M
decode_loop wire switch zero len end message rest = err out_of_fuel
decode_loop wire switch (suc fuel) len end message rest = elim (ltb (len - length rest) end) [
  | true ↦ after_tag (wire.get_uint32 rest) switch message >>= λ s.
      decode_loop wire switch fuel len end s.0 s.1
  | false ↦ ok message
]

-- The input is a reader, the length of its buffer and the bytes that remain, or bytes.
pub record BinaryReader : Type 0 where
  pub len : ℕ
  pub rest : List ℕ

unfoldable pub new_reader : List ℕ → BinaryReader
new_reader bytes = record { len = length bytes; rest = bytes }

-- `length === undefined ? reader.len : reader.pos + length`.
abbrev pub decode_end : BinaryReader → Option ℕ → ℕ
decode_end reader none = reader.len
decode_end reader (some n) = reader.len - length reader.rest + n

-- Each round reads a byte at least, or throws: one round more than there are bytes is enough.
unfoldable pub decode_with :
    {M : Type 0} → Wire → Switch M → M → BinaryReader → Option ℕ → Result DecodeFailure M
unfolding decode_loop
decode_with wire switch empty reader len =
    decode_loop wire switch (length reader.rest + 1) reader.len (decode_end reader len) empty
      reader.rest

-- `if (!is_default) writer.uint32(tag).put(value)`.
unfoldable pub put_field : Wire → Bool → ℕ → List ℕ → List ℕ → List ℕ
put_field wire true tag payload writer = writer
put_field wire false tag payload writer = (writer ++ wire.put_uint32 tag) ++ payload

abbrev pub string_field : Wire → ℕ → JsString → List ℕ → List ℕ
string_field wire tag s writer = put_field wire (is_empty s) tag (wire.put_string s) writer

abbrev pub bytes_field : Wire → ℕ → List ℕ → List ℕ → List ℕ
bytes_field wire tag b writer = put_field wire (is_empty b) tag (wire.put_bytes b) writer

abbrev pub is_zero : ℤ → Bool
is_zero (pos n) = n == 0
is_zero (negsuc n) = false

abbrev pub uint64_field : Wire → ℕ → ℤ → List ℕ → List ℕ
uint64_field wire tag v writer = put_field wire (is_zero v) tag (wire.put_uint64 v) writer

abbrev pub int64_field : Wire → ℕ → ℤ → List ℕ → List ℕ
int64_field wire tag v writer = put_field wire (is_zero v) tag (wire.put_int64 v) writer

-- A flag is written where it is true.
abbrev pub bool_field : Wire → ℕ → Bool → List ℕ → List ℕ
bool_field wire tag b writer = put_field wire (not b) tag (wire.put_bool b) writer
