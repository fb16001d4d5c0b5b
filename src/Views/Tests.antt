-- ===== src/Views/Tests.antt =====
-- Fields of JSON on concrete inputs.
use qorechain_rdk.Prelude.{◌≡◌, refl, true, Option, none, some, [], ok}
use qorechain_rdk.Views.Doubles.{to_double}
use qorechain_rdk.Views.Mappers.{natural_given}
use qorechain_rdk.Amounts.{print_digits, read_digits}
use qorechain_rdk.Text.{JsNumber, JsString, js, whole}
use qorechain_rdk.Views.Json.{
  no_items, json_bool, json_null, json_number, item, json_array, json_string, number_of, string_of,
}
use qorechain_rdk.Views.Fields.{num}

abbrev nothing_else : JsString → Option JsNumber
nothing_else s = none

array_as_text :
    string_of (json_array (item (json_number 1) (item json_null (item (json_bool true) no_items))))
    ≡ js "1,,true"
unfolding string_of print_digits
array_as_text = refl

empty_text_is_zero : num nothing_else (some (json_string [])) ≡ whole 0
unfolding num
empty_text_is_zero = refl

no_number_is_zero : num nothing_else (some (json_string (js "x"))) ≡ whole 0
unfolding num number_of
no_number_is_zero = refl

digits_are_a_number : num nothing_else (some (json_string (js "42"))) ≡ whole 42
unfolding num number_of read_digits to_double
digits_are_a_number = refl

-- The first whole number that is no double.
digits_round :
    num nothing_else (some (json_string (js "9007199254740993"))) ≡ whole 9007199254740992
unfolding num number_of read_digits to_double
digits_round = refl

missing_window : natural_given nothing_else (some (json_string [])) ≡ ok none
missing_window = refl
