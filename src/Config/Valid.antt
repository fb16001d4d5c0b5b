-- ===== src/Config/Valid.antt =====
-- The validator's list of errors is empty exactly where each of its tests passes.
use qorechain_rdk.Prelude.{
  unless_and, ℕ, ◌≡◌, refl, ◌↔◌, inl, inr, Bool, true, false, ◌&&◌, ◌||◌, Option, none, some, List,
  [], ◌∷◌, ◌++◌, arith, ◌==◌, Bool-cases, length,
}
use qorechain_rdk.Text.{JsString, is_empty, includes}
use qorechain_rdk.Rules.{is_lower_or_digit, rollup_id_error}
use qorechain_rdk.Rules.Id.{matches_grammar, rollup_id_error_iff}
use qorechain_rdk.Config.{
  max_da_blob_not_positive, challenge_window_not_positive, stake_not_positive,
  is_positive_integer_string, max_tx_not_positive, optional, block_time_not_positive,
  based_needs_based, is_positive_integer, fits_sequencer, proof_incompatible, fits_matrix,
  vm_type_unknown, gas_model_unknown, is_vm_type, da_unknown, gas_models, da_backends,
  proof_system_unknown, sequencer_unknown, proof_systems, sequencer_modes, refused_id, is_space,
  settlement_unknown, is_blank, settlement_paradigms, IdError, RollupConfig, validate_rollup_config,
  config_errors, id_errors,
}

-- A test of the validator per conjunct.
abbrev pub is_acceptable : RollupConfig → Bool
is_acceptable config =
    matches_grammar config.rollup_id
    && (includes settlement_paradigms config.settlement
        && (includes sequencer_modes config.sequencer
            && (includes proof_systems config.proof_system
                && (includes da_backends config.da
                    && (includes gas_models config.gas_model
                        && (is_vm_type config.vm_type
                            && (fits_matrix config
                                && (fits_sequencer config
                                    && (is_positive_integer config.block_time_ms
                                        && (is_positive_integer config.max_tx_per_block
                                            && (optional is_positive_integer_string
                                                  config.stake_amount_uqor
                                                && (optional is_positive_integer
                                                      config.challenge_window_secs
                                                    && (optional is_positive_integer
                                                          config.max_da_blob_size
                                                        && true)))))))))))))

not_space : (c : ℕ) → is_lower_or_digit c ≡ true → is_space c ≡ false
not_space c h = ground arith

blank_refused : (id : JsString) → matches_grammar id ≡ true → (is_empty id || is_blank id) ≡ false
blank_refused [] h = cc
blank_refused (c ∷ id) h = let s = not_space c (ground arith) in rw s refl

refused_nil : (o : Option IdError) → (refused_id o ≡ []) ↔ (o ≡ none)
refused_nil none = (λ h. refl, λ h. refl)
refused_nil (some e) = (λ h. cc, λ h. cc)

id_errors_nil : (id : JsString) → (id_errors id ≡ []) ↔ (matches_grammar id ≡ true)
unfolding id_errors
id_errors_nil id = elim (Bool-cases (is_empty id || is_blank id)) [
  | inl b ↦ rw b (λ h. cc, λ h. cc (b, blank_refused id h))
  | inr b ↦
      let (there, back) = refused_nil (rollup_id_error id) in
      let (there', back') = rollup_id_error_iff id in
      rw b (λ h. there' (there h), λ h. back (back' h))
]

append_nil_and :
    {E : Type 0} (xs ys : List E) (b c : Bool)
    → (xs ≡ []) ↔ (b ≡ true)
    → (ys ≡ []) ↔ (c ≡ true)
    → ((xs ++ ys) ≡ []) ↔ ((b && c) ≡ true)
append_nil_and [] ys b c h k = rw (h.0 refl) k
append_nil_and (x ∷ xs) ys b c h k = (λ e. cc, λ e. cc (h.1 (ground arith)))

config_errors_nil :
    (config : RollupConfig) → (config_errors config ≡ []) ↔ (is_acceptable config ≡ true)
unfolding config_errors
config_errors_nil config =
    append_nil_and (id_errors config.rollup_id) _ (matches_grammar config.rollup_id) _
      (id_errors_nil config.rollup_id)
      (unless_and (includes settlement_paradigms config.settlement) settlement_unknown (
        unless_and (includes sequencer_modes config.sequencer) sequencer_unknown (
          unless_and (includes proof_systems config.proof_system) proof_system_unknown (
            unless_and (includes da_backends config.da) da_unknown (
              unless_and (includes gas_models config.gas_model) gas_model_unknown (
                unless_and (is_vm_type config.vm_type) vm_type_unknown (
                  unless_and (fits_matrix config) proof_incompatible (
                    unless_and (fits_sequencer config) based_needs_based (
                      unless_and (is_positive_integer config.block_time_ms) block_time_not_positive
                        (unless_and (is_positive_integer config.max_tx_per_block)
                          max_tx_not_positive
                          (unless_and (optional is_positive_integer_string config.stake_amount_uqor)
                            stake_not_positive
                            (unless_and (optional is_positive_integer config.challenge_window_secs)
                              challenge_window_not_positive
                              (unless_and (optional is_positive_integer config.max_da_blob_size)
                                max_da_blob_not_positive (λ h. refl, λ h. refl))))))))))))))

no_errors : {E : Type 0} (es : List E) → ((length es == 0) ≡ true) ↔ (es ≡ [])
no_errors [] = (λ h. refl, λ h. refl)
no_errors (e ∷ es) = (λ h. absurd (ground arith), λ h. cc)

-- There is no error exactly where the validator's tests all pass.
pub validate_rollup_config_iff :
    (config : RollupConfig)
    → ((validate_rollup_config config).valid ≡ true) ↔ (is_acceptable config ≡ true)
unfolding validate_rollup_config
validate_rollup_config_iff config =
    let (there, back) = no_errors (config_errors config) in
    let (there', back') = config_errors_nil config in (λ h. there' (there h), λ h. back (back' h))
