-- ===== src/Config/Builder.antt =====
-- packages/ts/src/config/builder.ts: overrides, build and the create message; vmTypeLabel of config/enums.ts.
use qorechain_rdk.Prelude.{
  ◌≡◌, refl, ◌⊎◌, inl, inr, true, false, ◌||◌, Option, none, some, List, [], ◌∷◌, if◌then◌else◌,
  Bool-cases, Option-cases, Result, ok, err, ◌>>=◌,
}
use qorechain_rdk.Text.{js, str_eq, JsString, is_empty, JsNumber}
use qorechain_rdk.Receipts.{truthy}
use qorechain_rdk.Config.{
  RollupConfig, SequencerParams, ConfigError, stake_required, validate_rollup_config,
  assert_valid_rollup_config,
}

-- `Partial<RollupConfig>`: a field that is not given is `none`.
pub record Overrides : Type 0 where
  pub rollup_id : Option JsString
  pub profile : Option JsString
  pub settlement : Option JsString
  pub sequencer : Option JsString
  pub sequencer_params : Option SequencerParams
  pub da : Option JsString
  pub proof_system : Option JsString
  pub gas_model : Option JsString
  pub vm_type : Option JsString
  pub block_time_ms : Option JsNumber
  pub max_tx_per_block : Option JsNumber
  pub challenge_window_secs : Option JsNumber
  pub challenge_bond_uqor : Option JsString
  pub max_da_blob_size : Option JsNumber
  pub stake_amount_uqor : Option JsString

-- A field of `{ ...base, ...overrides }`, required or optional.
abbrev pub over {ℓ} : {A : Type ℓ} → A → Option A → A
over base none = base
over base (some a) = a

abbrev pub over? {ℓ} : {A : Type ℓ} → Option A → Option A → Option A
over? base none = base
over? base (some a) = some a

-- `{ ...base, ...params }`.
abbrev pub merge_params : SequencerParams → SequencerParams → SequencerParams
merge_params base params = record {
  sequencer_address = over? base.sequencer_address params.sequencer_address;
  shared_set_min_size = over? base.shared_set_min_size params.shared_set_min_size;
  inclusion_delay = over? base.inclusion_delay params.inclusion_delay;
  priority_fee_share = over? base.priority_fee_share params.priority_fee_share;
}

abbrev pub no_params : SequencerParams
no_params = record {
  sequencer_address = none;
  shared_set_min_size = none;
  inclusion_delay = none;
  priority_fee_share = none;
}

abbrev pub merged : Option SequencerParams → Option SequencerParams → Option SequencerParams
merged base none = base
merged none (some params) = some (merge_params no_params params)
merged (some base) (some params) = some (merge_params base params)

-- The builder's `set`.
unfoldable pub set : RollupConfig → Overrides → RollupConfig
set config o = record {
  rollup_id = over config.rollup_id o.rollup_id;
  profile = over config.profile o.profile;
  settlement = over config.settlement o.settlement;
  sequencer = over config.sequencer o.sequencer;
  sequencer_params = merged config.sequencer_params o.sequencer_params;
  da = over config.da o.da;
  proof_system = over config.proof_system o.proof_system;
  gas_model = over config.gas_model o.gas_model;
  vm_type = over config.vm_type o.vm_type;
  block_time_ms = over config.block_time_ms o.block_time_ms;
  max_tx_per_block = over config.max_tx_per_block o.max_tx_per_block;
  challenge_window_secs = over? config.challenge_window_secs o.challenge_window_secs;
  challenge_bond_uqor = over? config.challenge_bond_uqor o.challenge_bond_uqor;
  max_da_blob_size = over? config.max_da_blob_size o.max_da_blob_size;
  stake_amount_uqor = over? config.stake_amount_uqor o.stake_amount_uqor;
}

-- `build` and `validate` give the configuration itself; freezing and copying keep its value.
unfoldable pub build : RollupConfig → Result (List ConfigError) RollupConfig
build config = do _ ← assert_valid_rollup_config config; ok config

abbrev pub vm_type_label : JsString → JsString
vm_type_label vm_type =
    if str_eq vm_type (js "native") || str_eq vm_type (js "cosmwasm")
    then js "QoreChain Native"
    else if str_eq vm_type (js "evm")
    then js "EVM"
    else if str_eq vm_type (js "svm")
    then js "SVM"
    else if str_eq vm_type (js "custom")
    then js "Custom"
    else vm_type

pub record CreateRollupMsgInput : Type 0 where
  pub creator : JsString
  pub rollup_id : JsString
  pub profile : JsString
  pub vm_type : JsString
  pub stake_amount : JsString

abbrev pub message : RollupConfig → JsString → JsString → CreateRollupMsgInput
message config creator stake = record {
  creator = creator;
  rollup_id = config.rollup_id;
  profile = config.profile;
  vm_type = config.vm_type;
  stake_amount = stake;
}

abbrev pub with_stake :
    RollupConfig → JsString → Option JsString → Result (List ConfigError) CreateRollupMsgInput
with_stake config creator none = err (stake_required ∷ [])
with_stake config creator (some stake) =
    if is_empty stake then err (stake_required ∷ []) else ok (message config creator stake)

unfoldable pub to_create_msg :
    RollupConfig → JsString → Option JsString → Result (List ConfigError) CreateRollupMsgInput
to_create_msg config creator stake_amount = do
  checked ← assert_valid_rollup_config config
  with_stake config creator (over? config.stake_amount_uqor stake_amount)

-- A create message comes of a valid configuration with a stake, given with the call or set before, and
-- carries the configuration's id, profile and VM type; a valid one without a stake and an invalid one
-- are refused, the latter with all its errors.
pub to_create_msg_cases :
    (config : RollupConfig) (creator : JsString) (given : Option JsString)
    → let valid = (validate_rollup_config config).valid in
      let stake = over? config.stake_amount_uqor given in
      let result = to_create_msg config creator given in
      ((valid ≡ true)
        × (s : JsString) × (stake ≡ some s)
        × (is_empty s ≡ false)
        × (result ≡ ok (message config creator s)))
      ⊎ ((valid ≡ true) × (truthy stake ≡ false) × (result ≡ err (stake_required ∷ [])))
      ⊎ ((valid ≡ false) × (result ≡ err (validate_rollup_config config).errors))
unfolding to_create_msg assert_valid_rollup_config
to_create_msg_cases config creator given = elim (Bool-cases (validate_rollup_config config).valid) [
  | inr v ↦ inr (inr (v, rw v refl))
  | inl v ↦ elim (Option-cases (over? config.stake_amount_uqor given)) [
    | inl n ↦ inr (inl (v, rw n refl, rw (v, n) refl))
    | inr (s, n) ↦ elim (Bool-cases (is_empty s)) [
      | inl z ↦ inr (inl (v, rw (n, z) refl, rw (v, n, z) refl))
      | inr z ↦ inl (v, s, n, z, rw (v, n, z) refl)
    ]
  ]
]
