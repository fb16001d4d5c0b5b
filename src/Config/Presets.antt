-- ===== src/Config/Presets.antt =====
-- packages/ts/src/presets/index.ts: the five profiles.
use qorechain_rdk.Prelude.{ℕ, ◌≡◌, refl, true, Option, none, some, []}
use qorechain_rdk.Text.{JsString, js, whole}
use qorechain_rdk.Rules.Id.{matches_grammar}
use qorechain_rdk.Config.{
  requires_based_sequencer, valid_proof_systems, is_proof_compatible, is_vm_type, RollupConfig,
  validate_rollup_config, is_positive_integer_string, optional,
}
use qorechain_rdk.Config.Valid.{is_acceptable, validate_rollup_config_iff}
use qorechain_rdk.Config.Builder.{over?, Overrides, set}

pub data ProfileName : Type 0 where
  defi gaming nft enterprise custom : ProfileName

abbrev pub profile_text : ProfileName → JsString
profile_text defi = js "defi"
profile_text gaming = js "gaming"
profile_text nft = js "nft"
profile_text enterprise = js "enterprise"
profile_text custom = js "custom"

abbrev pub default_challenge_window : ℕ
default_challenge_window = 604800

abbrev pub default_challenge_bond_uqor : JsString
default_challenge_bond_uqor = js "1000000000"

-- A row of the table: what the profiles differ in.
abbrev pub row :
    ProfileName
    → JsString
    → JsString
    → JsString
    → JsString
    → JsString
    → JsString
    → ℕ
    → ℕ
    → RollupConfig
row name settlement sequencer da proof_system gas_model vm_type block_time_ms max_tx_per_block =
    record {
      rollup_id = [];
      profile = profile_text name;
      settlement = settlement;
      sequencer = sequencer;
      sequencer_params = none;
      da = da;
      proof_system = proof_system;
      gas_model = gas_model;
      vm_type = vm_type;
      block_time_ms = whole block_time_ms;
      max_tx_per_block = whole max_tx_per_block;
      challenge_window_secs = none;
      challenge_bond_uqor = none;
      max_da_blob_size = none;
      stake_amount_uqor = none;
    }

abbrev pub with_challenges : RollupConfig → RollupConfig
with_challenges config = record config {
  challenge_window_secs = some (whole default_challenge_window);
  challenge_bond_uqor = some default_challenge_bond_uqor;
}

-- With the empty id that `makePreset` starts from.
unfoldable pub preset_defaults : ProfileName → RollupConfig
preset_defaults defi =
    row defi (js "zk") (js "dedicated") (js "native") (js "snark") (js "eip1559") (js "evm") 500
      10000
preset_defaults gaming =
    row gaming (js "based") (js "based") (js "native") (js "none") (js "flat") (js "custom") 200
      50000
preset_defaults nft = with_challenges (
    row nft (js "optimistic") (js "dedicated") (js "celestia") (js "fraud") (js "standard")
      (js "native") 2000 5000)
preset_defaults enterprise =
    row enterprise (js "based") (js "based") (js "native") (js "none") (js "subsidized") (js "evm")
      1000 20000
preset_defaults custom = with_challenges (
    row custom (js "optimistic") (js "dedicated") (js "native") (js "fraud") (js "standard")
      (js "evm") 1000 10000)

unfoldable pub make_preset : ProfileName → Overrides → RollupConfig
make_preset name overrides = record (set (preset_defaults name) overrides) {
  profile = profile_text name;
}

-- Only an id and, if wanted, a stake.
abbrev pub named : JsString → Option JsString → Overrides
named id stake = record {
  rollup_id = some id;
  profile = none;
  settlement = none;
  sequencer = none;
  sequencer_params = none;
  da = none;
  proof_system = none;
  gas_model = none;
  vm_type = none;
  block_time_ms = none;
  max_tx_per_block = none;
  challenge_window_secs = none;
  challenge_bond_uqor = none;
  max_da_blob_size = none;
  stake_amount_uqor = stake;
}

over_none : {A : Type 0} (o : Option A) → over? none o ≡ o
over_none none = refl
over_none (some a) = refl

preset_acceptable :
    (name : ProfileName) (id : JsString) (stake : Option JsString)
    → matches_grammar id ≡ true
    → optional is_positive_integer_string stake ≡ true
    → is_acceptable (make_preset name (named id stake)) ≡ true
unfolding make_preset set preset_defaults is_vm_type is_proof_compatible valid_proof_systems
    requires_based_sequencer
preset_acceptable defi id stake h k = rw (h, over_none stake, k) refl
preset_acceptable gaming id stake h k = rw (h, over_none stake, k) refl
preset_acceptable nft id stake h k = rw (h, over_none stake, k) refl
preset_acceptable enterprise id stake h k = rw (h, over_none stake, k) refl
preset_acceptable custom id stake h k = rw (h, over_none stake, k) refl

-- Every profile, given an id of the grammar and no stake or a positive one, is a valid configuration.
pub make_preset_valid :
    (name : ProfileName) (id : JsString) (stake : Option JsString)
    → matches_grammar id ≡ true
    → optional is_positive_integer_string stake ≡ true
    → (validate_rollup_config (make_preset name (named id stake))).valid ≡ true
make_preset_valid name id stake h k =
    (validate_rollup_config_iff (make_preset name (named id stake))).1
      (preset_acceptable name id stake h k)
