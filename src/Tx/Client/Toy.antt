-- ===== src/Tx/Client/Toy.antt =====
-- A small signature scheme, a node that knows one rollup, and a client of it, for the tests.
use qorechain_rdk.Prelude.{Bool, true, not, none, some, [], ◌∷◌, ◌++◌, Result, ok, err}
use qorechain_rdk.QoreHash.Toy.{toy_hash}
use qorechain_rdk.Text.{is_empty, str_eq, JsString, js}
use qorechain_rdk.Views.{Rest, RollupView, BatchView}
use qorechain_rdk.Tx.Messages
use qorechain_rdk.Tx.Client.{
  post_quantum, Request, Bytes, Sdk, TxClient, TxOptions, HybridConfig, Transport,
}

abbrev pub toy_sdk : Sdk
toy_sdk = record {
  calculate_fee = λ gas price. record { amount = (js "uqor", price) ∷ []; gas = gas ∷ [] };
  pqc_sign = λ key message. ok (toy_hash (key ++ message));
  is_bech32 = λ s. not (is_empty s);
}

abbrev pub toy_verify : Bytes → Bytes → Bytes → Result JsString Bool
toy_verify key message signature = ok (str_eq signature (toy_hash (key ++ message)))

abbrev pub my_rollup : RollupView
my_rollup = record {
  rollup_id = js "r-1";
  creator = js "me";
  profile = js "defi";
  settlement_mode = js "based";
  da_backend = js "celestia";
  block_time_ms = 500;
  max_tx_per_block = 100;
  vm_type = js "evm";
  status = js "active";
  stake_amount = js "1";
  layer_id = js "layer-1";
  created_height = 1;
  escrow_balance = js "0";
  challenge_window_sec = none;
  challenge_bond = none;
  proof_system = none;
  has_verification_key = none;
}

abbrev pub settled_batch : BatchView
settled_batch = record {
  rollup_id = js "r-1";
  batch_index = 5;
  state_root = js "0102";
  prev_state_root = [];
  tx_count = 3;
  data_hash = [];
  proof_type = [];
  status = js "finalized";
  submitted_at = 1;
  finalized_at = 2;
  withdrawals_root = [];
  withdrawals_bound = none;
  submitted_time = 0;
}

abbrev pub my_rest : Rest
my_rest = record {
  get_rollup = λ id. ok my_rollup;
  get_batch = λ id i. ok settled_batch;
  get_latest_batch = λ id. ok settled_batch;
  get_anchors = λ id. ok [];
  get_latest_anchor = λ id. err [];
  get_pqc_account = λ a. err [];
  is_protocol_feature_enabled = λ f. ok true;
  get_applied_plan_height = λ p. ok 0;
}

abbrev pub my_transport : Transport
my_transport = record {
  get_chain_id = some (ok (js "qore-1"));
  get_sequence = some (λ a. ok (7, 2));
  has_broadcast_tx = true;
  simulate = some (λ a messages memo. ok 1000);
}

abbrev pub my_hybrid : HybridConfig
my_hybrid = record {
  pqc_keypair = record { public_key = 4 ∷ 2 ∷ []; secret_key = 4 ∷ 2 ∷ [] };
  rest = some my_rest;
  sign_bytes_version = none;
  include_pqc_public_key = none;
}

abbrev pub my_client : TxClient
my_client = record {
  transport = my_transport;
  address = js "me";
  hybrid = some my_hybrid;
  gas_price = some (js "0.15uqor");
}

abbrev pub default_opts : TxOptions
default_opts = record { fee = none; memo = none }

-- The gas of 1000 is priced with its margin of two fifths.
abbrev pub sent_with : Messages.EncodeObject → Request
sent_with message = post_quantum (record {
  keypair = my_hybrid.pqc_keypair;
  messages = message ∷ [];
  fee = record { amount = (js "uqor", js "0.15uqor") ∷ []; gas = 1400 ∷ [] };
  memo = [];
  chain_id = js "qore-1";
  account_number = 7;
  sequence = 2;
  include_pqc_public_key = none;
  sign_bytes_version = js "auto";
})
