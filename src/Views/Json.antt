-- ===== src/Views/Json.antt =====
-- JSON values as `response.json()` gives them, and what `String` and `Number` make of one. A number that is
-- no natural number is kept by its text. What `Number` makes of a text that is not only digits is a
-- parameter. A number in a text of digits is rounded to a double (Views.Doubles). `String` writes a number
-- from 10^21 on by its digits here, where the code writes an exponent.
use qorechain_rdk.Prelude.{
  ℕ, Bool, true, false, not, ◌&&◌, Option, none, some, [], ◌∷◌, ◌++◌, if◌then◌else◌,
}
use qorechain_rdk.Views.Doubles.{to_double}
use mathlib.Core.Option
use qorechain_rdk.Text.{str_eq, is_empty, JsString, js, JsNumber, whole, other_number}
use qorechain_rdk.Amounts.{all_digits, big_int, to_string}

mutual
  pub data Json : Type 0 where
    json_null : Json
    json_bool : Bool → Json
    json_number : ℕ → Json
    json_real : (text : JsString) → Json
    json_string : JsString → Json
    json_array : Items → Json
    json_object : Fields → Json

  pub data Items : Type 0 where
    no_items : Items
    item : Json → Items → Items

  pub data Fields : Type 0 where
    no_fields : Fields
    entry : JsString → Json → Fields → Fields

-- `obj[key]`, `none` for undefined. A parsed object has each key once.
abbrev pub lookup : JsString → Fields → Option Json
lookup key no_fields = none
lookup key (entry k v more) = let rest = lookup key more in if str_eq k key then some v else rest

-- `String(value)`; an array is joined with commas, where null is the empty text.
unfoldable mutual
  pub string_of : Json → JsString
  string_of json_null = js "null"
  string_of (json_bool true) = js "true"
  string_of (json_bool false) = js "false"
  string_of (json_number n) = to_string n
  string_of (json_real text) = text
  string_of (json_string s) = s
  string_of (json_array items) = join items
  string_of (json_object _) = js "[object Object]"

  pub join : Items → JsString
  join no_items = []
  join (item x more) = joined x ++ join_rest more

  pub join_rest : Items → JsString
  join_rest no_items = []
  join_rest (item x more) = b',' ∷ (joined x ++ join_rest more)

  pub joined : Json → JsString
  joined json_null = []
  joined (json_bool true) = js "true"
  joined (json_bool false) = js "false"
  joined (json_number n) = to_string n
  joined (json_real text) = text
  joined (json_string s) = s
  joined (json_array items) = join items
  joined (json_object _) = js "[object Object]"

-- `Number(value)`, `none` where it is not finite. `other` is for texts that are not only digits.
abbrev pub number_of_text : (JsString → Option JsNumber) → JsString → Option JsNumber
number_of_text other s =
    if not (is_empty s) && all_digits s then Option.map whole (to_double (big_int s)) else other s

unfoldable pub number_of : (JsString → Option JsNumber) → Json → Option JsNumber
unfolding string_of
number_of other json_null = some (whole 0)
number_of other (json_bool true) = some (whole 1)
number_of other (json_bool false) = some (whole 0)
number_of other (json_number n) = some (whole n)
number_of other (json_real text) = some other_number
number_of other (json_string s) = number_of_text other s
number_of other (json_array items) = number_of_text other (join items)
number_of other (json_object _) = none
