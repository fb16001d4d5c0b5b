-- ===== src/Config/Allowed.antt =====
-- What the validator of packages/ts/src/config/validate.ts accepts, written out field by field.
use qorechain_rdk.Prelude.{&&_both, ◌≡◌, refl, ◌↔◌, Bool, true, ◌&&◌, [], ◌∷◌}
use qorechain_rdk.Text.{js}
use qorechain_rdk.Rules.Id.{matches_grammar}
use qorechain_rdk.Config.{
  accepted_vm_types, settlement_paradigms, sequencer_modes, da_backends, gas_models, is_vm_type,
  is_positive_integer, is_positive_integer_string, RollupConfig, validate_rollup_config,
}
use qorechain_rdk.Config.Valid.{is_acceptable, validate_rollup_config_iff}
use qorechain_rdk.Config.Choices.{
  OneOf, Fits, IsPositive, IsNumeral, IfGiven, fits_there, Fits-back, includes_iff, IsPositive-iff,
  IsNumeral-iff, given_iff, based_iff,
}

pub record Allowed (config : RollupConfig) : Type 0 where
  pub id : matches_grammar config.rollup_id ≡ true
  pub settles : Fits config.settlement config.proof_system
  pub sequencer : OneOf (js "dedicated" ∷ js "shared" ∷ js "based" ∷ []) config.sequencer
  pub based : config.settlement ≡ js "based" → config.sequencer ≡ js "based"
  pub da : OneOf (js "native" ∷ js "celestia" ∷ js "both" ∷ []) config.da
  pub gas_model :
      OneOf (js "standard" ∷ js "eip1559" ∷ js "flat" ∷ js "subsidized" ∷ []) config.gas_model
  pub vm_type :
      OneOf (js "evm" ∷ js "native" ∷ js "svm" ∷ js "custom" ∷ js "cosmwasm" ∷ []) config.vm_type
  pub block_time : IsPositive config.block_time_ms
  pub max_tx : IsPositive config.max_tx_per_block
  pub stake : IfGiven IsNumeral config.stake_amount_uqor
  pub window : IfGiven IsPositive config.challenge_window_secs
  pub blob : IfGiven IsPositive config.max_da_blob_size

acceptable_there : (config : RollupConfig) → is_acceptable config ≡ true → Allowed config
unfolding is_vm_type
acceptable_there config h =
    let (id, h_id) = &&_both _ _ h in
    let (settlement, h_settlement) = &&_both _ _ h_id in
    let (sequencer, h_sequencer) = &&_both _ _ h_settlement in
    let (proof, h_proof) = &&_both _ _ h_sequencer in
    let (da, h_da) = &&_both _ _ h_proof in
    let (gas, h_gas) = &&_both _ _ h_da in
    let (vm, h_vm) = &&_both _ _ h_gas in
    let (fit, h_fit) = &&_both _ _ h_vm in
    let (based, h_based) = &&_both _ _ h_fit in
    let (time, h_time) = &&_both _ _ h_based in
    let (txs, h_txs) = &&_both _ _ h_time in
    let (stake, h_stake) = &&_both _ _ h_txs in
    let (window, h_window) = &&_both _ _ h_stake in
    let (blob, h_blob) = &&_both _ _ h_window in
    record {
      id = id;
      settles =
          fits_there config.settlement config.proof_system proof
            ((includes_iff settlement_paradigms config.settlement).0 settlement) fit;
      sequencer = (includes_iff sequencer_modes config.sequencer).0 sequencer;
      based = (based_iff config).0 based;
      da = (includes_iff da_backends config.da).0 da;
      gas_model = (includes_iff gas_models config.gas_model).0 gas;
      vm_type = (includes_iff accepted_vm_types config.vm_type).0 vm;
      block_time = (IsPositive-iff config.block_time_ms).0 time;
      max_tx = (IsPositive-iff config.max_tx_per_block).0 txs;
      stake =
          (given_iff is_positive_integer_string IsNumeral IsNumeral-iff config.stake_amount_uqor).0
            stake;
      window =
          (given_iff is_positive_integer IsPositive IsPositive-iff config.challenge_window_secs).0
            window;
      blob =
          (given_iff is_positive_integer IsPositive IsPositive-iff config.max_da_blob_size).0 blob;
    }

acceptable_back : (config : RollupConfig) → Allowed config → is_acceptable config ≡ true
unfolding is_vm_type
acceptable_back config a =
    let (settlement, proof, fit) = Fits-back config.settlement config.proof_system a.settles in
    and_true a.id (
      and_true settlement (
        and_true ((includes_iff sequencer_modes config.sequencer).1 a.sequencer) (
          and_true proof (
            and_true ((includes_iff da_backends config.da).1 a.da) (
              and_true ((includes_iff gas_models config.gas_model).1 a.gas_model) (
                and_true ((includes_iff accepted_vm_types config.vm_type).1 a.vm_type) (
                  and_true fit (
                    and_true ((based_iff config).1 a.based) (
                      and_true ((IsPositive-iff config.block_time_ms).1 a.block_time) (
                        and_true ((IsPositive-iff config.max_tx_per_block).1 a.max_tx) (
                          and_true
                            ((given_iff is_positive_integer_string IsNumeral IsNumeral-iff
                                config.stake_amount_uqor).1
                              a.stake)
                            (and_true
                              ((given_iff is_positive_integer IsPositive IsPositive-iff
                                  config.challenge_window_secs).1
                                a.window)
                              (and_true
                                ((given_iff is_positive_integer IsPositive IsPositive-iff
                                    config.max_da_blob_size).1
                                  a.blob)
                                refl)))))))))))))
  where
    and_true : {b c : Bool} → b ≡ true → c ≡ true → (b && c) ≡ true
    and_true e d = rw (e, d) refl

-- A configuration is valid exactly when: its id is in the chain's grammar; settlement and proof system
-- are one of the fitting pairs; the sequencer, the data availability, the gas model and the VM type are each of
-- their closed set; based settlement has the based sequencer; block time and transactions per block are whole numbers
-- above 0, and so are challenge window and blob size where they are given; and the stake, where it is given,
-- is a decimal numeral without a leading zero. No other field counts.
pub validate_rollup_config_allows :
    (config : RollupConfig) → ((validate_rollup_config config).valid ≡ true) ↔ Allowed config
validate_rollup_config_allows config =
    let (there, back) = validate_rollup_config_iff config in
    (λ h. acceptable_there config (there h), λ a. back (acceptable_back config a))
