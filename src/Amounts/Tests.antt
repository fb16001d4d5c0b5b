-- ===== src/Amounts/Tests.antt =====
-- Amounts printed and read on concrete inputs.
use qorechain_rdk.Prelude.{◌+◌, ◌*◌, ◌^◌, ◌≤◌, ◌<◌, ℕ, ◌≡◌, refl, none, some, ok, err, ◌>>=◌}
use qorechain_rdk.Prelude.Int.{negsuc, ◌-ℤ◌, pos}
use qorechain_rdk.Text.{JsString, js}
use qorechain_rdk.Amounts.{
  CreationCost, amount_text, amount_bigint, negative_amount, strip_trailing, read_digits,
  strip_leading, print_digits, big_int, invalid_amount, too_many_digits, estimate_creation_cost,
  qor_to_uqor, mul_decimal_floor, uqor_to_qor,
}
use qorechain_rdk.Amounts.Cost.{places, scaled, estimate_creation_cost_bounds}
use qorechain_rdk.Amounts.RoundTrip.{uqor_to_qor_back}

one_and_a_half : uqor_to_qor (amount_bigint (pos 1500000)) 6 ≡ ok (js "1.5")
unfolding uqor_to_qor read_digits print_digits strip_trailing
one_and_a_half = refl

whole_amount : uqor_to_qor (amount_text (js "100000000")) 6 ≡ ok (js "100")
unfolding uqor_to_qor read_digits print_digits strip_trailing
whole_amount = refl

small_amount : uqor_to_qor (amount_bigint (pos 7)) 6 ≡ ok (js "0.000007")
unfolding uqor_to_qor read_digits print_digits strip_trailing
small_amount = refl

read_small_amount : qor_to_uqor (js "0.000007") 6 ≡ ok (js "7")
unfolding qor_to_uqor strip_leading
read_small_amount = refl

read_too_many_digits : qor_to_uqor (js "0.0000007") 6 ≡ err too_many_digits
unfolding qor_to_uqor
read_too_many_digits = refl

read_no_decimal : qor_to_uqor (js "1.") 6 ≡ err invalid_amount
unfolding qor_to_uqor
read_no_decimal = refl

one_percent : mul_decimal_floor (pos 12345) (js "0.01") ≡ ok (pos 123)
unfolding mul_decimal_floor read_digits
one_percent = refl

cost_of_a_rollup :
    estimate_creation_cost (amount_bigint (pos 10000000000)) none
    ≡ ok (record {
      stake_uqor = pos 10000000000;
      burn_uqor = pos 100000000;
      net_stake_uqor = pos 9900000000;
      total_required_uqor = pos 10000000000;
      burn_rate = js "0.01";
    })
unfolding estimate_creation_cost read_digits ◌-ℤ◌
cost_of_a_rollup = refl

negative_refused : uqor_to_qor (amount_bigint (negsuc 0)) 6 ≡ err negative_amount
unfolding uqor_to_qor
negative_refused = refl

uqor_to_qor_back_example :
    (t : JsString) × ((uqor_to_qor (amount_bigint (pos 1500000)) 6 >>= (λ s. qor_to_uqor s 6))
      ≡ ok t)
    × (big_int t ≡ 1500000)
uqor_to_qor_back_example = uqor_to_qor_back (amount_bigint (pos 1500000)) 1500000 6 refl

abbrev small_stake : CreationCost
small_stake = record {
  stake_uqor = pos 12345;
  burn_uqor = pos 123;
  net_stake_uqor = pos 12222;
  total_required_uqor = pos 12345;
  burn_rate = js "0.01";
}

small_cost : estimate_creation_cost (amount_bigint (pos 12345)) (some (js "0.01")) ≡ ok small_stake
unfolding estimate_creation_cost mul_decimal_floor read_digits ◌-ℤ◌
small_cost = refl

estimate_creation_cost_bounds_example :
    (burn : ℕ) × (small_stake.burn_uqor ≡ pos burn)
    × (burn * 10 ^ places (js "0.01") ≤ 12345 * scaled (js "0.01"))
    × (12345 * scaled (js "0.01") < (burn + 1) * 10 ^ places (js "0.01"))
    × (scaled (js "0.01") ≤ 10 ^ places (js "0.01")
        → (net : ℕ) × (small_stake.net_stake_uqor ≡ pos net) × (burn + net ≡ 12345))
estimate_creation_cost_bounds_example =
    estimate_creation_cost_bounds (amount_bigint (pos 12345)) 12345 (js "0.01") small_stake refl
      small_cost
