-- ===== src/Config.antt =====
-- packages/ts/src/config/enums.ts, matrix.ts, types.ts and validate.ts: the configuration of a rollup and
-- its validation. The values of the closed sets are the wire strings, since the validator reads
-- strings that may be outside them.
pub mod Valid
pub mod Choices
pub mod Allowed
pub mod Builder
pub mod Presets
mod Tests
use qorechain_rdk.Prelude.{
  unless, ℕ, Bool, true, false, not, ◌&&◌, ◌||◌, Option, none, some, List, [], ◌∷◌, ◌++◌, ltb, leb,
  ◌==◌, if◌then◌else◌, length, Result, ok, err,
}
use qorechain_rdk.Text.{JsString, js, str_eq, is_empty, includes, JsNumber, whole, other_number}
use qorechain_rdk.Rules.{IdError, rollup_id_error}

abbrev pub settlement_paradigms : List JsString
settlement_paradigms = js "optimistic" ∷ js "zk" ∷ js "based" ∷ js "sovereign" ∷ []

abbrev pub sequencer_modes : List JsString
sequencer_modes = js "dedicated" ∷ js "shared" ∷ js "based" ∷ []

abbrev pub proof_systems : List JsString
proof_systems = js "fraud" ∷ js "snark" ∷ js "stark" ∷ js "none" ∷ []

abbrev pub da_backends : List JsString
da_backends = js "native" ∷ js "celestia" ∷ js "both" ∷ []

abbrev pub gas_models : List JsString
gas_models = js "standard" ∷ js "eip1559" ∷ js "flat" ∷ js "subsidized" ∷ []

abbrev pub accepted_vm_types : List JsString
accepted_vm_types = js "evm" ∷ js "native" ∷ js "svm" ∷ js "custom" ∷ js "cosmwasm" ∷ []

unfoldable pub is_vm_type : JsString → Bool
is_vm_type value = includes accepted_vm_types value

-- `SETTLEMENT_PROOF_MATRIX[settlement]`, undefined for another string.
unfoldable pub valid_proof_systems : JsString → Option (List JsString)
valid_proof_systems settlement =
    if str_eq settlement (js "optimistic")
    then some (js "fraud" ∷ [])
    else if str_eq settlement (js "zk")
    then some (js "snark" ∷ js "stark" ∷ [])
    else if str_eq settlement (js "based") || str_eq settlement (js "sovereign")
    then some (js "none" ∷ [])
    else none

-- For a settlement outside the matrix the code throws; the validator asks only about those in it.
unfoldable pub is_proof_compatible : JsString → JsString → Bool
is_proof_compatible settlement proof = elim (valid_proof_systems settlement) [
  | some proofs ↦ includes proofs proof
  | none ↦ false
]

unfoldable pub requires_based_sequencer : JsString → Bool
requires_based_sequencer settlement = str_eq settlement (js "based")

pub record SequencerParams : Type 0 where
  pub sequencer_address : Option JsString
  pub shared_set_min_size : Option JsNumber
  pub inclusion_delay : Option JsNumber
  pub priority_fee_share : Option JsString

pub record RollupConfig : Type 0 where
  pub rollup_id : JsString
  pub profile : JsString
  pub settlement : JsString
  pub sequencer : JsString
  pub sequencer_params : Option SequencerParams
  pub da : JsString
  pub proof_system : JsString
  pub gas_model : JsString
  pub vm_type : JsString
  pub block_time_ms : JsNumber
  pub max_tx_per_block : JsNumber
  pub challenge_window_secs : Option JsNumber
  pub challenge_bond_uqor : Option JsString
  pub max_da_blob_size : Option JsNumber
  pub stake_amount_uqor : Option JsString

pub data ConfigError : Type 0 where
  rollup_id_empty : ConfigError
  rollup_id_refused : IdError → ConfigError
  settlement_unknown sequencer_unknown proof_system_unknown da_unknown : ConfigError
  gas_model_unknown vm_type_unknown proof_incompatible based_needs_based : ConfigError
  block_time_not_positive max_tx_not_positive stake_not_positive : ConfigError
  challenge_window_not_positive max_da_blob_not_positive stake_required : ConfigError

pub data ConfigWarning : Type 0 where
  celestia_inactive : ConfigWarning

pub record ValidationResult : Type 0 where
  pub valid : Bool
  pub errors : List ConfigError
  pub warnings : List ConfigWarning

-- The characters that `trim` takes off.
abbrev pub is_space : ℕ → Bool
is_space c =
    (leb 9 c && leb c 13)
    || c == 32
    || c == 0xa0
    || c == 0x1680
    || (leb 0x2000 c && leb c 0x200a)
    || c == 0x2028
    || c == 0x2029
    || c == 0x202f
    || c == 0x205f
    || c == 0x3000
    || c == 0xfeff

-- `s.trim() === ""`.
abbrev pub is_blank : JsString → Bool
is_blank [] = true
is_blank (c ∷ s) = is_space c && is_blank s

abbrev pub refused_id : Option IdError → List ConfigError
refused_id none = []
refused_id (some e) = rollup_id_refused e ∷ []

unfoldable pub id_errors : JsString → List ConfigError
id_errors id =
    if is_empty id || is_blank id then rollup_id_empty ∷ [] else refused_id (rollup_id_error id)

-- `Number.isInteger(n) && n > 0`.
abbrev pub is_positive_integer : JsNumber → Bool
is_positive_integer (whole n) = ltb 0 n
is_positive_integer other_number = false

abbrev pub is_digit : ℕ → Bool
is_digit c = leb b'0' c && leb c b'9'

abbrev pub are_digits : JsString → Bool
are_digits [] = true
are_digits (c ∷ s) = is_digit c && are_digits s

-- `/^[1-9][0-9]*$/`.
unfoldable pub is_positive_integer_string : JsString → Bool
is_positive_integer_string [] = false
is_positive_integer_string (c ∷ s) = leb b'1' c && leb c b'9' && are_digits s

abbrev pub optional {ℓ} : {A : Type ℓ} → (A → Bool) → Option A → Bool
optional p none = true
optional p (some a) = p a

-- The proof system fits the settlement, where both are known.
abbrev pub fits_matrix : RollupConfig → Bool
fits_matrix config =
    not (includes settlement_paradigms config.settlement)
    || not (includes proof_systems config.proof_system)
    || is_proof_compatible config.settlement config.proof_system

abbrev pub fits_sequencer : RollupConfig → Bool
fits_sequencer config =
    not (requires_based_sequencer config.settlement) || str_eq config.sequencer (js "based")

unfoldable pub config_errors : RollupConfig → List ConfigError
config_errors config =
    id_errors config.rollup_id
    ++ (unless (includes settlement_paradigms config.settlement) settlement_unknown
        ++ (unless (includes sequencer_modes config.sequencer) sequencer_unknown
            ++ (unless (includes proof_systems config.proof_system) proof_system_unknown
                ++ (unless (includes da_backends config.da) da_unknown
                    ++ (unless (includes gas_models config.gas_model) gas_model_unknown
                        ++ (unless (is_vm_type config.vm_type) vm_type_unknown
                            ++ (unless (fits_matrix config) proof_incompatible
                                ++ (unless (fits_sequencer config) based_needs_based
                                    ++ (unless (is_positive_integer config.block_time_ms)
                                          block_time_not_positive
                                        ++ (unless (is_positive_integer config.max_tx_per_block)
                                              max_tx_not_positive
                                            ++ (unless
                                                  (optional is_positive_integer_string
                                                    config.stake_amount_uqor)
                                                  stake_not_positive
                                                ++ (unless
                                                      (optional is_positive_integer
                                                        config.challenge_window_secs)
                                                      challenge_window_not_positive
                                                    ++ (unless
                                                          (optional is_positive_integer
                                                            config.max_da_blob_size)
                                                          max_da_blob_not_positive
                                                        ++ [])))))))))))))

unfoldable pub validate_rollup_config : RollupConfig → ValidationResult
validate_rollup_config config =
    let errors = config_errors config in
    record {
      valid = length errors == 0;
      errors = errors;
      warnings =
          if str_eq config.da (js "celestia") || str_eq config.da (js "both")
          then celestia_inactive ∷ []
          else [];
    }

unfoldable pub assert_valid_rollup_config : RollupConfig → Result (List ConfigError) (Unit {0})
assert_valid_rollup_config config =
    let result = validate_rollup_config config in if result.valid then ok tt else err result.errors
