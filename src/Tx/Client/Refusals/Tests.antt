-- ===== src/Tx/Client/Refusals/Tests.antt =====
-- Creation, stopping and withdrawing by a client of a node that knows one rollup.
use qorechain_rdk.Prelude.{ℕ, ◌≡◌, refl, true, none, some, List, [], ◌∷◌, ok}
use qorechain_rdk.Rules.Id.{matches_grammar}
use qorechain_rdk.Tx.Client.Toy.{my_rest, default_opts, my_client, toy_sdk, sent_with}
use qorechain_rdk.Lifecycle.{can_perform_rollup_action, RollupStatus, assert_rollup_action}
use qorechain_rdk.Tx.Client.Broadcast.{
  with_margin, simulate, resolve_fee, send_hybrid, broadcast_hybrid, broadcast,
}
use qorechain_rdk.Tx.Client.Refusals.{create_rollup_sends, Wired, stop_rollup_sends}
use qorechain_rdk.Bytes.Hex.{raw}
use qorechain_rdk.Text.Encoder.{utf8}
use qorechain_rdk.Tx.Client.Guards.{messages_of}
use qorechain_rdk.Rules.{stop_rollup_error, scan_id, rollup_id_error}
use qorechain_rdk.Tx.Codecs.CreateRollup.{MsgCreateRollup}
use qorechain_rdk.Prelude.Int.{pos}
use qorechain_rdk.Text.{js}
use qorechain_rdk.Views.{Rest, BatchView}
use qorechain_rdk.Tx.Messages
use qorechain_rdk.Rules
use qorechain_rdk.Tx.Messages.{
  stop_rollup_msg, ExecuteWithdrawalInput, vm_type_wire_value, create_rollup_msg, CreateRollupInput,
}
use qorechain_rdk.Tx.Client.{feature_rdk_challenge_settlement}
use qorechain_rdk.Tx.Client.Operations
use qorechain_rdk.Lifecycle
use qorechain_rdk.Tx.Codecs.CreateRollup
use qorechain_rdk.Tx.Codecs.StopRollup
use qorechain_rdk.Tx.Codecs.ExecuteWithdrawal
use qorechain_rdk.Tx.Codecs.ExecuteWithdrawal.{MsgExecuteWithdrawal}

abbrev my_creation : CreateRollupInput
my_creation = record {
  creator = [];
  rollup_id = js "my-rollup.1";
  profile = js "defi";
  vm_type = js "native";
  stake_amount = some (pos 9);
}

abbrev created : MsgCreateRollup
created = record {
  creator = js "me";
  rollup_id = js "my-rollup.1";
  profile = js "defi";
  vm_type = js "cosmwasm";
  stake_amount = pos 9;
}

creation_sent :
    Operations.create_rollup toy_sdk my_client none my_creation default_opts
    ≡ ok (sent_with (Messages.create_rollup created))
unfolding Operations.create_rollup Operations.send rollup_id_error scan_id utf8 create_rollup_msg
    CreateRollup.from_partial vm_type_wire_value broadcast broadcast_hybrid send_hybrid resolve_fee
    simulate with_margin
creation_sent = refl

create_rollup_sends_example :
    (matches_grammar my_creation.rollup_id ≡ true)
    × (m : MsgCreateRollup) × (messages_of (sent_with (Messages.create_rollup created))
        ≡ Messages.create_rollup m ∷ [])
    × (m.creator ≡ js "me")
    × (m.rollup_id ≡ js "my-rollup.1")
    × (m.profile ≡ js "defi")
    × Wired (js "native") m.vm_type
    × (some m.stake_amount ≡ my_creation.stake_amount)
create_rollup_sends_example =
    create_rollup_sends toy_sdk my_client none my_creation default_opts
      (sent_with (Messages.create_rollup created)) creation_sent

-- A creator that the input names against its type is the sender.
named_creator_sent :
    Operations.create_rollup toy_sdk my_client (some (js "other")) my_creation default_opts
    ≡ ok (sent_with (Messages.create_rollup (record created { creator = js "other" })))
unfolding Operations.create_rollup Operations.send rollup_id_error scan_id utf8 create_rollup_msg
    CreateRollup.from_partial vm_type_wire_value broadcast broadcast_hybrid send_hybrid resolve_fee
    simulate with_margin
named_creator_sent = refl

stop_sent :
    Operations.stop_rollup toy_sdk my_client (js "r-1") (some Lifecycle.paused) default_opts
    ≡ ok (sent_with (Messages.stop_rollup (record { creator = js "me"; rollup_id = js "r-1" })))
unfolding Operations.stop_rollup Operations.send assert_rollup_action stop_rollup_error
    stop_rollup_msg StopRollup.from_partial broadcast broadcast_hybrid send_hybrid resolve_fee
    simulate with_margin
stop_sent = refl

stop_rollup_sends_example :
    (messages_of
        (sent_with (Messages.stop_rollup (record { creator = js "me"; rollup_id = js "r-1" })))
      ≡ Messages.stop_rollup (record { creator = js "me"; rollup_id = js "r-1" }) ∷ [])
    × ((s : RollupStatus)
        → some Lifecycle.paused ≡ some s
        → can_perform_rollup_action Lifecycle.stop s ≡ true)
    × ((rest : Rest) (batch : BatchView)
        → some my_rest ≡ some rest
        → rest.is_protocol_feature_enabled feature_rdk_challenge_settlement ≡ ok true
        → rest.get_latest_batch (js "r-1") ≡ ok batch
        → stop_rollup_error (some batch.status) ≡ none)
stop_rollup_sends_example =
    stop_rollup_sends toy_sdk my_client (js "r-1") (some Lifecycle.paused) default_opts
      (sent_with (Messages.stop_rollup (record { creator = js "me"; rollup_id = js "r-1" })))
      stop_sent

abbrev level_0 : List ℕ
level_0 =
    1 ∷ 2 ∷ 3 ∷ 4 ∷ 5 ∷ 6 ∷ 7 ∷ 8 ∷ 9 ∷ 10 ∷ 11 ∷ 12 ∷ 13 ∷ 14 ∷ 15 ∷ 16 ∷ 17 ∷ 18 ∷ 19 ∷ 20 ∷ 21
    ∷ 22 ∷ 23 ∷ 24 ∷ 25 ∷ 26 ∷ 27 ∷ 28 ∷ 29 ∷ 30 ∷ 31 ∷ 32 ∷ []

abbrev my_claim : ExecuteWithdrawalInput
my_claim = record {
  submitter = [];
  rollup_id = js "r-1";
  batch_index = some (pos 5);
  withdrawal_index = some (pos 0);
  recipient = js "you";
  denom = js "uqor";
  amount = some (pos 4);
  proof = some (raw level_0 ∷ []);
}

abbrev claimed : MsgExecuteWithdrawal
claimed = record {
  submitter = js "me";
  rollup_id = js "r-1";
  batch_index = pos 5;
  withdrawal_index = pos 0;
  recipient = js "you";
  denom = js "uqor";
  amount = pos 4;
  proof = level_0 ∷ [];
}
