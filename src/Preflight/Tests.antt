-- ===== src/Preflight/Tests.antt =====
-- The preflight of a small client.
use qorechain_rdk.Prelude.{◌≡◌, refl, ◌↔◌, true, false, Option, none, some, if◌then◌else◌, ok}
use qorechain_rdk.Prelude.Int.{◌+ℤ◌, pos, ℤ}
use qorechain_rdk.Text.{js, JsString}
use qorechain_rdk.Amounts.{print_digits, uqor_to_qor, all_digits, big_int, read_digits}
use qorechain_rdk.Preflight.{PreflightOptions, PreflightClient}
use qorechain_rdk.Preflight.Run.{balance_check, read_funds, check_preflight}
use qorechain_rdk.Preflight.Ready.{IsCovered, IsAccepted, IsReadable, check_preflight_passes_iff}

abbrev digits_only : JsString → Option ℤ
digits_only t = if all_digits t then some (pos (big_int t)) else none

abbrev client_with : JsString → PreflightClient
client_with balance = record {
  network_name = js "testnet";
  chain_id = js "qorechain-diana";
  rest_endpoint = js "http://rest";
  params =
      ok
        (record { min_stake_for_rollup = js "10000000000"; rollup_creation_burn_rate = js "0.01" });
  get_balance = λ address. ok balance;
}

abbrev operator : PreflightOptions
operator = record {
  config = none;
  signer_address = some (js "qor1operator");
  expected_network = some (js "mainnet");
  fee_buffer_uqor = none;
}

enough : (check_preflight digits_only (client_with (js "10001000000")) operator).passed ≡ true
unfolding check_preflight read_funds uqor_to_qor balance_check ◌+ℤ◌ read_digits print_digits
enough = refl

too_little : (check_preflight digits_only (client_with (js "10000999999")) operator).passed ≡ false
unfolding check_preflight read_funds uqor_to_qor balance_check ◌+ℤ◌ read_digits print_digits
too_little = refl

check_preflight_passes_iff_example :
    ((check_preflight digits_only (client_with (js "10001000000")) operator).passed ≡ true) ↔ (
      IsReadable (client_with (js "10001000000")).params
      × IsAccepted none
      × IsCovered digits_only
          (client_with (js "10001000000"))
          (client_with (js "10001000000")).params
          none
          (some (js "qor1operator")))
check_preflight_passes_iff_example =
    check_preflight_passes_iff digits_only (client_with (js "10001000000")) operator
