-- ===== src/Amounts.antt =====
-- packages/ts/src/utils/denom.ts and utils/economics.ts: amounts in QOR and uqor as decimal texts, and the
-- cost of creating a rollup. A text is what `trim` leaves of the input.
pub mod Decimal
pub mod RoundTrip
pub mod Cost
mod Tests
use qorechain_rdk.Prelude.{
  ◌+◌, ◌-◌, ◌*◌, ◌/◌, ◌%◌, ◌^◌, ℕ, zero, suc, Bool, true, false, not, ◌&&◌, Option, none, some, [],
  ◌∷◌, ◌++◌, ltb, leb, ◌==◌, if◌then◌else◌, length, get_or, replicate, Result, ok, err, ◌>>=◌,
}
use qorechain_rdk.Prelude.Int.{negsuc, ◌-ℤ◌, ℤ, pos}
use mathlib.Core.Option
use qorechain_rdk.Text.{is_empty, JsString, js}

abbrev pub is_digit : ℕ → Bool
is_digit c = leb b'0' c && leb c b'9'

abbrev pub all_digits : JsString → Bool
all_digits [] = true
all_digits (c ∷ s) = is_digit c && all_digits s

-- `BigInt` of a text of digits.
unfoldable pub read_digits : ℕ → JsString → ℕ
read_digits v [] = v
read_digits v (c ∷ s) = read_digits (v * 10 + (c - b'0')) s

abbrev pub big_int : JsString → ℕ
big_int s = read_digits 0 s

-- `toString` of a bigint that is not negative, with the number of digits that it may take as fuel.
unfoldable pub print_digits : ℕ → ℕ → JsString
print_digits zero n = []
print_digits (suc fuel) n = elim (ltb n 10) [
  | true ↦ (b'0' + n) ∷ []
  | false ↦ print_digits fuel (n / 10) ++ (b'0' + n % 10) ∷ []
]

abbrev pub to_string : ℕ → JsString
to_string n = print_digits (suc n) n

-- `s.split(".")`, its first part and what stands behind the first point.
unfoldable pub split_point : JsString → JsString × Option JsString
split_point [] = ([], none)
split_point (c ∷ s) =
    let rest = split_point s in if c == b'.' then ([], some s) else (c ∷ rest.0, rest.1)

-- `/^\d+(\.\d+)?$/`.
abbrev pub is_decimal_parts : JsString × Option JsString → Bool
is_decimal_parts (w, none) = not (is_empty w) && all_digits w
is_decimal_parts (w, some frac) =
    (not (is_empty w) && all_digits w) && (not (is_empty frac) && all_digits frac)

abbrev pub fraction_of : Option JsString → JsString
fraction_of none = []
fraction_of (some frac) = frac

-- `padEnd(n, "0")` and `padStart(n, "0")`.
abbrev pub pad_end : ℕ → JsString → JsString
pad_end n s = s ++ replicate (n - length s) b'0'

abbrev pub pad_zeros : ℕ → JsString → JsString
pad_zeros n s = replicate (n - length s) b'0' ++ s

-- `replace(/^0+(?=\d)/, "")` on digits.
unfoldable pub strip_leading : JsString → JsString
strip_leading [] = []
strip_leading (c ∷ []) = c ∷ []
strip_leading (c ∷ d ∷ s) =
    let rest = strip_leading (d ∷ s) in if c == b'0' then rest else c ∷ d ∷ s

abbrev pub drop_zero : ℕ → JsString → JsString
drop_zero c [] = if c == b'0' then [] else c ∷ []
drop_zero c (d ∷ s) = c ∷ d ∷ s

-- `replace(/0+$/, "")`.
unfoldable pub strip_trailing : JsString → JsString
strip_trailing [] = []
strip_trailing (c ∷ s) = drop_zero c (strip_trailing s)

pub data AmountError : Type 0 where
  invalid_amount too_many_digits negative_amount : AmountError

-- A `string | bigint` of uqor.
pub data UqorAmount : Type 0 where
  amount_text : JsString → UqorAmount
  amount_bigint : ℤ → UqorAmount

abbrev pub zero_if_empty : JsString → JsString
zero_if_empty [] = js "0"
zero_if_empty (c ∷ s) = c ∷ s

unfoldable pub qor_to_uqor : JsString → ℕ → Result AmountError JsString
unfolding split_point strip_leading
qor_to_uqor s exponent =
    let parts = split_point s in
    let frac = fraction_of parts.1 in
    if not (is_decimal_parts parts)
    then err invalid_amount
    else if ltb exponent (length frac)
    then err too_many_digits
    else ok (zero_if_empty (strip_leading (parts.0 ++ pad_end exponent frac)))

-- `toBigInt` of economics.ts, and how uqorToQor reads its argument.
abbrev pub to_big_int : UqorAmount → Result AmountError ℤ
to_big_int (amount_bigint v) = ok v
to_big_int (amount_text t) =
    if not (is_empty t) && all_digits t then ok (pos (big_int t)) else err invalid_amount

abbrev pub not_negative : ℤ → Result AmountError ℕ
not_negative (pos n) = ok n
not_negative (negsuc n) = err negative_amount

abbrev pub uqor_value : UqorAmount → Result AmountError ℕ
uqor_value amount = to_big_int amount >>= not_negative

unfoldable pub format_qor : ℕ → ℕ → JsString
unfolding strip_trailing
format_qor value exponent =
    let base = 10 ^ exponent in
    let frac = value % base in
    if frac == 0
    then to_string (value / base)
    else to_string (value / base) ++ b'.' ∷ strip_trailing (pad_zeros exponent (to_string frac))

unfoldable pub uqor_to_qor : UqorAmount → ℕ → Result AmountError JsString
unfolding format_qor
uqor_to_qor amount exponent = do v ← uqor_value amount; ok (format_qor v exponent)

-- `/` of bigints, which rounds towards 0, by a positive number.
abbrev pub quotient : ℤ → ℕ → ℤ
quotient (pos n) k = pos (n / k)
quotient (negsuc n) k = pos 0 -ℤ pos (suc n / k)

abbrev pub times : ℤ → ℕ → ℤ
times (pos n) k = pos (n * k)
times (negsuc n) k = pos 0 -ℤ pos (suc n * k)

unfoldable pub mul_decimal_floor : ℤ → JsString → Result AmountError ℤ
unfolding split_point
mul_decimal_floor amount decimal =
    let parts = split_point decimal in
    let frac = fraction_of parts.1 in
    if not (is_decimal_parts parts)
    then err invalid_amount
    else ok (quotient (times amount (big_int (parts.0 ++ frac))) (10 ^ length frac))

-- The amounts are kept as the numbers whose texts the code returns.
pub record CreationCost : Type 0 where
  pub stake_uqor : ℤ
  pub burn_uqor : ℤ
  pub net_stake_uqor : ℤ
  pub total_required_uqor : ℤ
  pub burn_rate : JsString

abbrev pub default_burn_rate : JsString
default_burn_rate = js "0.01"

unfoldable pub estimate_creation_cost :
    UqorAmount → Option JsString → Result AmountError CreationCost
unfolding mul_decimal_floor
estimate_creation_cost amount burn_rate = do
  stake ← to_big_int amount
  let rate = Option.get_or burn_rate default_burn_rate
  burn ← mul_decimal_floor stake rate
  ok (record {
    stake_uqor = stake;
    burn_uqor = burn;
    net_stake_uqor = stake -ℤ burn;
    total_required_uqor = stake;
    burn_rate = rate;
  })
