-- ===== src/Views/Fields.antt =====
-- The helpers of packages/ts/src/client/views.ts that read one field of a record.
use qorechain_rdk.Prelude.{
  ℕ, Bool, true, false, Option, none, some, List, [], ◌∷◌, if◌then◌else◌, Result, ok, err,
}
use qorechain_rdk.Text.{is_empty, JsString, JsNumber, whole, other_number}
use qorechain_rdk.Bytes.{Bytes}
use qorechain_rdk.Bytes.Hex.{HexError, bytes_to_hex, decode_wire_bytes}
use qorechain_rdk.Views.Json.{
  json_string, json_bool, Json, Fields, json_null, string_of, lookup, number_of,
}

abbrev pub RawRecord : Type 0
RawRecord = Fields

abbrev pub pick : RawRecord → List JsString → Option Json
pick obj [] = none
pick obj (key ∷ keys) =
    let rest = pick obj keys in elim (lookup key obj) [ some v ↦ some v | none ↦ rest ]

-- Null and undefined are treated alike.
abbrev pub present : Option Json → Option Json
present none = none
present (some json_null) = none
present (some v) = some v

abbrev pub str_or : JsString → Option Json → JsString
str_or fallback value = elim (present value) [ none ↦ fallback | some v ↦ string_of v ]

abbrev pub is_blank_text : Json → Bool
is_blank_text (json_string s) = is_empty s
is_blank_text v = false

abbrev pub finite_or_zero : Option JsNumber → JsNumber
finite_or_zero none = whole 0
finite_or_zero (some n) = n

-- A field that is left out, null or the empty text is undefined.
abbrev pub filled : Option Json → Option Json
filled value = elim (present value) [
  | none ↦ none
  | some v ↦ if is_blank_text v then none else some v
]

-- The views hold natural numbers, as the chain's fields are unsigned: a number that is none has no view here.
pub data ViewError : Type 0 where
  hex_refused : HexError → ViewError
  no_natural : ViewError

abbrev pub natural : JsNumber → Result ViewError ℕ
natural (whole n) = ok n
natural other_number = err no_natural

abbrev pub hexed : Result HexError Bytes → Result ViewError JsString
hexed (err e) = err (hex_refused e)
hexed (ok b) = ok (bytes_to_hex b)

module _ (base64_to_bytes : JsString → Bytes) where
  unfoldable pub hex_bytes : Option Json → Result ViewError JsString
  hex_bytes value =
      let s = str_or [] value in
      if is_empty s then ok [] else hexed (decode_wire_bytes base64_to_bytes s)

module _ (other : JsString → Option JsNumber) where
  unfoldable pub num : Option Json → JsNumber
  num value = elim (filled value) [ none ↦ whole 0 | some v ↦ finite_or_zero (number_of other v) ]

-- `pick(…) === true ? true : undefined`.
abbrev pub only_true : Option Json → Option Bool
only_true (some (json_bool true)) = some true
only_true value = none

abbrev pub text_given : Option Json → Option JsString
text_given value = elim (filled value) [ none ↦ none | some v ↦ some (string_of v) ]
