-- ===== src/Config/Tests.antt =====
-- Configurations at small inputs.
use qorechain_rdk.Prelude.{◌≡◌, refl, ◌↔◌, true, some}
use qorechain_rdk.Text.{js}
use qorechain_rdk.Config.{is_positive_integer_string, RollupConfig, validate_rollup_config}
use qorechain_rdk.Config.Allowed.{validate_rollup_config_allows, Allowed}
use qorechain_rdk.Config.Presets.{ProfileName, make_preset, named}

abbrev small_config : RollupConfig
small_config = make_preset ProfileName.defi (named (js "my-rollup") (some (js "5")))

validate_rollup_config_allows_example :
    ((validate_rollup_config small_config).valid ≡ true) ↔ Allowed small_config
validate_rollup_config_allows_example = validate_rollup_config_allows small_config

digits : is_positive_integer_string (js "5") ≡ true
unfolding is_positive_integer_string
digits = refl
