-- ===== src/Preflight.antt =====
-- packages/ts/src/preflight/index.ts: the checks before a rollup is created or operated. Texts of amounts
-- are as `trim` leaves them; `big` is what `BigInt` makes of a text, nothing where it throws.
pub mod Run
pub mod Funds
pub mod Ready
mod Tests
use qorechain_rdk.Prelude.{Bool, Option, none, some, List, [], ◌∷◌, if◌then◌else◌, Result, ok, err}
use qorechain_rdk.Text.{str_eq, is_empty, JsString, js}
use qorechain_rdk.Config.{ConfigError, ConfigWarning, RollupConfig, validate_rollup_config}
use qorechain_rdk.Amounts.{AmountError, amount_text, uqor_to_qor}

pub data CheckStatus : Type 0 where
  status_ok status_warn status_fail : CheckStatus

pub data ReadFailure : Type 0 where
  node_failed : JsString → ReadFailure
  bad_amount : AmountError → ReadFailure
  not_integer : JsString → ReadFailure

-- The texts that the code puts together, by what goes into them.
pub data Detail : Type 0 where
  plain_text : JsString → Detail
  failure : ReadFailure → Detail
  stake_and_burn : (min_stake_qor burn_rate : JsString) → Detail
  client_network : (name chain_id : JsString) → Detail
  first_warning : ConfigWarning → Detail
  first_error : Option ConfigError → Detail
  have_and_need : (have_qor need_qor : JsString) → Detail

pub data Hint : Type 0 where
  plain_hint : JsString → Hint
  expected_network : JsString → Hint

pub record PreflightCheck : Type 0 where
  pub id : JsString
  pub label : JsString
  pub status : CheckStatus
  pub detail : Detail
  pub hint : Option Hint

pub record PreflightResult : Type 0 where
  pub passed : Bool
  pub checks : List PreflightCheck

pub record PreflightOptions : Type 0 where
  pub config : Option RollupConfig
  pub signer_address : Option JsString
  pub expected_network : Option JsString
  pub fee_buffer_uqor : Option JsString

-- What the checks use of `client.params()`.
pub record StakeParams : Type 0 where
  pub min_stake_for_rollup : JsString
  pub rollup_creation_burn_rate : JsString

pub record PreflightClient : Type 0 where
  pub network_name : JsString
  pub chain_id : JsString
  pub rest_endpoint : JsString
  pub params : Result JsString StakeParams
  pub get_balance : JsString → Result JsString JsString

abbrev pub plainly :
    {E : Type 0} {A : Type 0} → (E → ReadFailure) → Result E A → Result ReadFailure A
plainly f (ok a) = ok a
plainly f (err e) = err (f e)

abbrev pub in_qor : JsString → Result ReadFailure JsString
in_qor t = plainly bad_amount (uqor_to_qor (amount_text t) 6)

abbrev pub rest_failed : ReadFailure → PreflightCheck
rest_failed e = record {
  id = js "rest";
  label = js "REST endpoint reachable";
  status = status_fail;
  detail = failure e;
  hint = some (plain_hint (js "Set QORE_REST_URL to a reachable node REST (LCD) endpoint."));
}

abbrev pub rest_reached : PreflightClient → PreflightCheck
rest_reached client = record {
  id = js "rest";
  label = js "REST endpoint reachable";
  status = status_ok;
  detail = plain_text client.rest_endpoint;
  hint = none;
}

abbrev pub params_read : StakeParams → JsString → PreflightCheck
params_read params min_stake = record {
  id = js "params";
  label = js "Module parameters readable";
  status = status_ok;
  detail = stake_and_burn min_stake params.rollup_creation_burn_rate;
  hint = none;
}

-- The parameters stay set when only their text cannot be made.
abbrev pub params_checks : StakeParams → Result ReadFailure JsString → List PreflightCheck
params_checks params (ok min_stake) = params_read params min_stake ∷ []
params_checks params (err e) = rest_failed e ∷ []

abbrev pub rest_checks :
    PreflightClient → Result JsString StakeParams → List PreflightCheck × Option StakeParams
rest_checks client (err e) = (rest_failed (node_failed e) ∷ [], none)
rest_checks client (ok params) =
    (rest_reached client ∷ params_checks params (in_qor params.min_stake_for_rollup), some params)

abbrev pub network_checks : PreflightClient → Option JsString → List PreflightCheck
network_checks client none = []
network_checks client (some expected) =
    let match = str_eq client.network_name expected in
    if is_empty expected
    then []
    else record {
      id = js "network";
      label = js "Network matches expectation";
      status = if match then status_ok else status_warn;
      detail = client_network client.network_name client.chain_id;
      hint = if match then none else some (expected_network expected);
    }
      ∷ []

abbrev pub warned : List ConfigWarning → CheckStatus × Detail
warned [] = (status_ok, plain_text (js "compatibility matrix satisfied"))
warned (w ∷ ws) = (status_warn, first_warning w)

abbrev pub first : {A : Type 0} → List A → Option A
first [] = none
first (x ∷ xs) = some x

abbrev pub config_checks : Option RollupConfig → List PreflightCheck
config_checks none = []
config_checks (some config) =
    let r = validate_rollup_config config in
    record {
      id = js "config";
      label = js "Rollup config valid";
      status = if r.valid then (warned r.warnings).0 else status_fail;
      detail = if r.valid then (warned r.warnings).1 else first_error (first r.errors);
      hint =
          if r.valid
          then none
          else some (plain_hint (js "Fix the configuration errors before creating."));
    }
    ∷ []
