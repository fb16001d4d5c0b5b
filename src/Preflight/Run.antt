-- ===== src/Preflight/Run.antt =====
-- packages/ts/src/preflight/index.ts: the checks of the signer and its balance, and all checks together.
use qorechain_rdk.Prelude.{
  suc, Bool, true, false, ◌&&◌, Option, none, some, List, [], ◌∷◌, ◌++◌, if◌then◌else◌, Result, ok,
  err, ◌>>=◌,
}
use qorechain_rdk.Prelude.Int.{◌+ℤ◌, leb_ℤ, pos, negsuc, ℤ}
use qorechain_rdk.Text.{is_empty, JsString, js}
use qorechain_rdk.Amounts.{to_string}
use qorechain_rdk.Preflight.{
  config_checks, network_checks, have_and_need, node_failed, plain_hint, rest_checks, status_fail,
  failure, PreflightResult, plainly, plain_text, status_ok, not_integer, status_warn,
  PreflightOptions, StakeParams, PreflightCheck, ReadFailure, PreflightClient, in_qor,
}

-- What the balance check compares, with the texts of both amounts.
pub record Funds : Type 0 where
  pub balance : ℤ
  pub required : ℤ
  pub have_qor : JsString
  pub need_qor : JsString

abbrev pub print_big : ℤ → JsString
print_big (pos n) = to_string n
print_big (negsuc n) = b'-' ∷ to_string (suc n)

abbrev pub integer : (JsString → Option ℤ) → JsString → Result ReadFailure ℤ
integer big t = elim (big t) [ none ↦ err (not_integer t) | some v ↦ ok v ]

abbrev pub fee_buffer : Option JsString → JsString
fee_buffer none = js "1000000"
fee_buffer (some buffer) = buffer

unfoldable pub read_funds :
    (JsString → Option ℤ)
    → PreflightClient
    → StakeParams
    → Option JsString
    → JsString
    → Result ReadFailure Funds
read_funds big client params buffer address = do
  bal ← plainly node_failed (client.get_balance address)
  stake ← integer big params.min_stake_for_rollup
  fees ← integer big (fee_buffer buffer)
  have ← integer big bal
  have_text ← in_qor bal
  need_text ← in_qor (print_big (stake +ℤ fees))
  ok (record {
    balance = have;
    required = stake +ℤ fees;
    have_qor = have_text;
    need_qor = need_text;
  })

unfoldable pub balance_check : Result ReadFailure Funds → PreflightCheck
balance_check (err e) = record {
  id = js "balance";
  label = js "Balance readable";
  status = status_warn;
  detail = failure e;
  hint = none;
}
balance_check (ok funds) =
    let covered = leb_ℤ funds.required funds.balance in
    record {
      id = js "balance";
      label = js "Balance covers stake + fees";
      status = if covered then status_ok else status_fail;
      detail = have_and_need funds.have_qor funds.need_qor;
      hint =
          if covered
          then none
          else some (plain_hint (js "Fund the operator account (see the keys & funding guide)."));
    }

abbrev pub signer_missing : PreflightCheck
signer_missing = record {
  id = js "signer";
  label = js "Signer configured";
  status = status_warn;
  detail = plain_text (js "no signer");
  hint =
      some
        (plain_hint (js "Set QORE_OPERATOR_PRIVATE_KEY_HEX or QORE_MNEMONIC to create/operate."));
}

abbrev pub signer_present : JsString → PreflightCheck
signer_present address = record {
  id = js "signer";
  label = js "Signer configured";
  status = status_ok;
  detail = plain_text address;
  hint = none;
}

abbrev pub balance_checks :
    (JsString → Option ℤ)
    → PreflightClient
    → Option JsString
    → JsString
    → Option StakeParams
    → List PreflightCheck
balance_checks big client buffer address none = []
balance_checks big client buffer address (some params) =
    balance_check (read_funds big client params buffer address) ∷ []

abbrev pub signer_checks :
    (JsString → Option ℤ)
    → PreflightClient
    → Option JsString
    → Option StakeParams
    → Option JsString
    → List PreflightCheck
signer_checks big client buffer params none = signer_missing ∷ []
signer_checks big client buffer params (some address) =
    if is_empty address
    then signer_missing ∷ []
    else signer_present address ∷ balance_checks big client buffer address params

abbrev pub not_failed : PreflightCheck → Bool
not_failed check = elim check.status [ status_ok ↦ true | status_warn ↦ true | status_fail ↦ false ]

abbrev pub none_failed : List PreflightCheck → Bool
none_failed [] = true
none_failed (check ∷ checks) = not_failed check && none_failed checks

unfoldable pub check_preflight :
    (JsString → Option ℤ) → PreflightClient → PreflightOptions → PreflightResult
check_preflight big client options =
    let rest = rest_checks client client.params in
    let checks =
      rest.0
      ++ network_checks client options.expected_network
      ++ config_checks options.config
      ++ signer_checks big client options.fee_buffer_uqor rest.1 options.signer_address in
    record { passed = none_failed checks; checks = checks }
