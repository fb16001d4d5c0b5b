-- ===== src/Rules.antt =====
-- packages/ts/src/rules/index.ts: what the chain would refuse, found before a fee is paid. `is_bech32`
-- is the bech32 package's decoder, as the test whether it decodes without throwing.
pub mod Id
pub mod Withdrawals
mod Tests
use qorechain_rdk.Prelude.{
  unless, ◌*◌, ◌/◌, ℕ, suc, Bool, true, false, not, ◌&&◌, ◌||◌, Option, none, some, List, [], ◌∷◌,
  ◌++◌, ltb, leb, ◌==◌, if◌then◌else◌, length,
}
use qorechain_rdk.Text.{JsString, js, str_eq, is_empty}
use qorechain_rdk.Text.Encoder.{utf8}
use qorechain_rdk.Bytes.Hex.{BytesInput, hex_text, raw, strip_0x, is_even_hex}
use qorechain_rdk.Prelude.Int.{ℤ, pos}

abbrev pub id_min_length : ℕ
id_min_length = 3

abbrev pub id_max_length : ℕ
id_max_length = 64

pub data IdError : Type 0 where
  bad_length bad_start bad_character : IdError

abbrev pub is_lower_or_digit : ℕ → Bool
is_lower_or_digit c = (leb b'a' c && leb c b'z') || (leb b'0' c && leb c b'9')

abbrev pub is_mark : ℕ → Bool
is_mark c = c == b'.' || c == b'_' || c == b'-'

-- The loop over the characters, from position `i` on.
unfoldable pub scan_id : ℕ → JsString → Option IdError
scan_id i [] = none
scan_id i (c ∷ id) =
    let rest = scan_id (suc i) id in
    if is_lower_or_digit c
    then rest
    else if is_mark c && ltb 0 i
    then rest
    else some (if i == 0 then bad_start else bad_character)

unfoldable pub rollup_id_error : JsString → Option IdError
rollup_id_error id =
    let len = length (utf8 id) in
    if ltb len id_min_length || ltb id_max_length len then some bad_length else scan_id 0 id

abbrev pub rollup_escrow_denom : JsString
rollup_escrow_denom = js "uqor"

abbrev pub max_withdrawal_proof_depth : ℕ
max_withdrawal_proof_depth = 64

-- `amount` is what `BigInt` makes of it, `none` where it throws.
pub record WithdrawalForValidation : Type 0 where
  pub submitter : JsString
  pub rollup_id : JsString
  pub recipient : JsString
  pub denom : JsString
  pub amount : Option ℤ
  pub proof : Option (List BytesInput)

-- `byteLength`, `none` for -1.
unfoldable pub byte_length : BytesInput → Option ℕ
unfolding strip_0x
byte_length (raw b) = some (length b)
byte_length (hex_text x) =
    let hex = strip_0x x in if is_even_hex hex then some (length hex / 2) else none

pub data WithdrawalRuleError : Type 0 where
  bad_submitter empty_rollup_id bad_recipient other_denom not_positive : WithdrawalRuleError
  too_deep : ℕ → WithdrawalRuleError
  bad_level : ℕ → Option ℕ → WithdrawalRuleError

abbrev pub is_positive : Option ℤ → Bool
is_positive (some (pos n)) = ltb 0 n
is_positive _ = false

abbrev pub is_32 : Option ℕ → Bool
is_32 none = false
is_32 (some n) = n == 32

-- `proof.forEach`, from level `i` on.
unfoldable pub level_errors : ℕ → List BytesInput → List WithdrawalRuleError
level_errors i [] = []
level_errors i (s ∷ proof) =
    let n = byte_length s in unless (is_32 n) (bad_level i n) ++ level_errors (suc i) proof

abbrev pub proof_of : Option (List BytesInput) → List BytesInput
proof_of none = []
proof_of (some p) = p

unfoldable pub withdrawal_errors :
    (JsString → Bool) → WithdrawalForValidation → List WithdrawalRuleError
withdrawal_errors is_bech32 w =
    let proof = proof_of w.proof in
    unless (is_bech32 w.submitter) bad_submitter
    ++ (unless (not (is_empty w.rollup_id)) empty_rollup_id
        ++ (unless (is_bech32 w.recipient) bad_recipient
            ++ (unless (str_eq w.denom rollup_escrow_denom) other_denom
                ++ (unless (is_positive w.amount) not_positive
                    ++ (unless (leb (length proof) max_withdrawal_proof_depth)
                          (too_deep (length proof))
                        ++ level_errors 0 proof)))))

-- `replace(/^0x/i, "")` is `strip_0x`.
abbrev pub is_data_empty : Option BytesInput → Bool
is_data_empty none = true
is_data_empty (some (hex_text s)) = is_empty (strip_0x s)
is_data_empty (some (raw b)) = is_empty b

pub data DataHashError : Type 0 where
  must_be_empty : JsString → DataHashError

unfoldable pub data_hash_error : JsString → Option BytesInput → Option DataHashError
data_hash_error da_backend data_hash =
    if is_data_empty data_hash
      || (not (str_eq da_backend (js "native")) && not (str_eq da_backend (js "both")))
    then none
    else some (must_be_empty da_backend)

-- Twice the number of bytes: a text of an odd number of digits counts as a half more.
unfoldable pub double_length : BytesInput → ℕ
double_length (hex_text s) = length (strip_0x s)
double_length (raw b) = 2 * length b

pub data WithdrawalsRootError : Type 0 where
  twice_length : ℕ → WithdrawalsRootError

unfoldable pub withdrawals_root_error : Option BytesInput → Option WithdrawalsRootError
withdrawals_root_error none = none
withdrawals_root_error (some root) =
    let n = double_length root in if n == 0 || n == 64 then none else some (twice_length n)

pub data StopError : Type 0 where
  latest_is : JsString → StopError

unfoldable pub stop_rollup_error : Option JsString → Option StopError
stop_rollup_error none = none
stop_rollup_error (some status) =
    if str_eq status (js "submitted") || str_eq status (js "challenged")
    then some (latest_is status)
    else none
