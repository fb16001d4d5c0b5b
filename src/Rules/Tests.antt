-- ===== src/Rules/Tests.antt =====
-- The rules at small inputs.
use qorechain_rdk.Prelude.{◌≡◌, refl, ◌↔◌, Bool, true, not, none, some, [], ◌∷◌, replicate, ok}
use qorechain_rdk.Rules.Id.{rollup_id_error_iff, matches_grammar}
use qorechain_rdk.Bytes.Hex.{to_bytes, hex_to_bytes, strip_0x, parse_pairs}
use qorechain_rdk.Rules.{
  pos, WithdrawalForValidation, bad_level, is_empty, level_errors, byte_length,
}
use qorechain_rdk.Text.{JsString, js}
use qorechain_rdk.Bytes.{Bytes}
use qorechain_rdk.Bytes.Hex.{raw, hex_text}
use qorechain_rdk.Rules.{rollup_id_error, withdrawal_errors}

rollup_id_error_iff_example :
    (rollup_id_error (js "my-rollup.1") ≡ none) ↔ (matches_grammar (js "my-rollup.1") ≡ true)
rollup_id_error_iff_example = rollup_id_error_iff (js "my-rollup.1")

abbrev any_address : JsString → Bool
any_address s = not (is_empty s)

abbrev small_withdrawal : WithdrawalForValidation
small_withdrawal = record {
  submitter = js "me";
  rollup_id = js "r";
  recipient = js "you";
  denom = js "uqor";
  amount = some (pos 5);
  proof = some (raw (replicate 32 1) ∷ hex_text (js "ab") ∷ []);
}

-- One level has one byte.
small_withdrawal_errors : withdrawal_errors any_address small_withdrawal ≡ bad_level 1 (some 1) ∷ []
unfolding withdrawal_errors level_errors byte_length strip_0x
small_withdrawal_errors = refl

abbrev one_byte : Bytes
one_byte = 171 ∷ []

one_byte_read : to_bytes (hex_text (js "0xab")) ≡ ok one_byte
unfolding to_bytes hex_to_bytes strip_0x parse_pairs
one_byte_read = refl
