-- ===== src/Tx/Client/Operations.antt =====
-- packages/ts/src/tx/client.ts: the operations of the client. The types of their inputs leave the
-- sender's field out, but the input is spread after the client's address: where the object has that
-- field all the same, which `own` stands for, its value is the sender.
use qorechain_rdk.Prelude.{
  ◌>>◌, Option, none, some, List, [], ◌∷◌, ltb, if◌then◌else◌, length, Result, ok, err, ◌>>=◌,
}
use qorechain_rdk.Rules.{
  withdrawals_root_error, rollup_id_error, withdrawal_errors, stop_rollup_error, data_hash_error,
}
use qorechain_rdk.Bytes.Hex.{raw}
use qorechain_rdk.Text.{JsString}
use qorechain_rdk.Views.{Rest, BatchView}
use qorechain_rdk.Lifecycle.{ActionError, RollupStatus, RollupAction, assert_rollup_action}
use qorechain_rdk.Lifecycle
use qorechain_rdk.Tx.Messages.{
  bytes_or_empty, create_rollup_msg, submit_batch_msg, challenge_batch_msg, resolve_challenge_msg,
  pause_rollup_msg, resume_rollup_msg, stop_rollup_msg, execute_withdrawal_msg, CreateRollupInput,
  SubmitBatchInput, ChallengeBatchInput, ResolveChallengeInput, ExecuteWithdrawalInput,
  EncodeObject, given, MessageError,
}
use qorechain_rdk.Tx.Client.{
  bad_withdrawals_root, bad_id, not_anchored, not_stoppable, bad_data_hash, bad_withdrawal, refuse,
  not_allowed, feature_rdk_challenge_settlement, WithdrawalRuleError, built, thrown_by, Sdk,
  TxClient, TxOptions, Request, TxError, HybridConfig,
}
use qorechain_rdk.Tx.Client.Broadcast.{broadcast}
use mathlib.Core.Option.{get_or}
use qorechain_rdk.Tx.Client.Anchor.{try_anchor_signature, Anchoring, signed, unsigned}

pub data AnchorMode : Type 0 where
  auto require off : AnchorMode

-- `this.hybrid?.rest`.
abbrev pub hybrid_rest : Option HybridConfig → Option Rest
hybrid_rest none = none
hybrid_rest (some hybrid) = hybrid.rest

abbrev pub allowed : Result ActionError (Unit {0}) → Result TxError (Unit {0})
allowed (err e) = err (not_allowed e)
allowed (ok done) = ok tt

abbrev pub refuse_all : List WithdrawalRuleError → Result TxError (Unit {0})
refuse_all [] = ok tt
refuse_all (e ∷ es) = err (bad_withdrawal (e ∷ es))

module _ (sdk : Sdk) (client : TxClient) where
  -- `{ sequencer: this.address, ...input }`, and so for the other senders.
  abbrev pub sender_of : Option JsString → JsString
  sender_of none = client.address
  sender_of (some own) = own

  -- `this.broadcast([message], opts)`.
  unfoldable pub send : Result MessageError EncodeObject → TxOptions → Result TxError Request
  send message opts = do m ← built message; broadcast sdk client (m ∷ []) opts

  unfoldable pub create_rollup :
      Option JsString → CreateRollupInput → TxOptions → Result TxError Request
  unfolding send
  create_rollup own input opts = do
    refuse bad_id (rollup_id_error input.rollup_id)
    send (create_rollup_msg (record input { creator = sender_of own })) opts

  abbrev pub data_hash_by : Option Rest → SubmitBatchInput → Result TxError (Unit {0})
  data_hash_by none input = ok tt
  data_hash_by (some rest) input = do
    rollup ← thrown_by (rest.get_rollup input.rollup_id)
    refuse bad_data_hash (data_hash_error rollup.da_backend input.data_hash)

  -- `input.dataHash && toBytes(input.dataHash).length > 0 && this.hybrid?.rest`.
  unfoldable pub check_data_hash : SubmitBatchInput → Result TxError (Unit {0})
  check_data_hash input =
      if given input.data_hash
      then (do
        hash ← built (bytes_or_empty input.data_hash)
        if ltb 0 (length hash) then data_hash_by (hybrid_rest client.hybrid) input else ok tt)
      else ok tt

  abbrev pub with_signature :
      SubmitBatchInput → AnchorMode → Anchoring → Result TxError SubmitBatchInput
  with_signature input mode (signed signature) =
      ok (record input { anchor_signature = some (raw signature) })
  with_signature input require (unsigned reason) = err (not_anchored reason)
  with_signature input auto (unsigned reason) = ok input
  with_signature input off (unsigned reason) = ok input

  unfoldable pub anchored_input : SubmitBatchInput → AnchorMode → Result TxError SubmitBatchInput
  anchored_input input off = ok input
  anchored_input input auto = if given input.anchor_signature then ok input else (do
    anchoring ← try_anchor_signature sdk client input
    with_signature input auto anchoring)
  anchored_input input require = if given input.anchor_signature then ok input else (do
    anchoring ← try_anchor_signature sdk client input
    with_signature input require anchoring)

  unfoldable pub submit_batch :
      Option JsString → SubmitBatchInput → TxOptions → Option AnchorMode → Result TxError Request
  unfolding check_data_hash anchored_input send
  submit_batch own input opts mode = do
    refuse bad_withdrawals_root (withdrawals_root_error input.withdrawals_root)
    check_data_hash input
    anchored ← anchored_input input (get_or mode auto)
    send (submit_batch_msg (record anchored { sequencer = sender_of own })) opts

  unfoldable pub challenge_batch :
      Option JsString → ChallengeBatchInput → TxOptions → Result TxError Request
  unfolding send
  challenge_batch own input opts =
      send (challenge_batch_msg (record input { challenger = sender_of own })) opts

  unfoldable pub resolve_challenge :
      Option JsString → ResolveChallengeInput → TxOptions → Result TxError Request
  unfolding send
  resolve_challenge own input opts =
      send (resolve_challenge_msg (record input { resolver = sender_of own })) opts

  -- `if (input.currentStatus) assertRollupAction(action, input.currentStatus)`.
  abbrev pub check_action : RollupAction → Option RollupStatus → Result TxError (Unit {0})
  check_action action none = ok tt
  check_action action (some status) = allowed (assert_rollup_action action status)

  unfoldable pub pause_rollup :
      JsString → Option JsString → Option RollupStatus → TxOptions → Result TxError Request
  unfolding send
  pause_rollup rollup_id reason current_status opts = do
    check_action Lifecycle.pause current_status
    send
        (pause_rollup_msg
          (record { creator = client.address; rollup_id = rollup_id; reason = reason }))
        opts

  unfoldable pub resume_rollup : JsString → Option RollupStatus → TxOptions → Result TxError Request
  unfolding send
  resume_rollup rollup_id current_status opts = do
    check_action Lifecycle.resume current_status
    send (resume_rollup_msg (record { creator = client.address; rollup_id = rollup_id })) opts

  abbrev pub latest_status : Result JsString BatchView → Option JsString
  latest_status (err e) = none
  latest_status (ok batch) = some batch.status

  abbrev pub stop_by : Option Rest → JsString → Result TxError (Unit {0})
  stop_by none rollup_id = ok tt
  stop_by (some rest) rollup_id = do
    enabled ← thrown_by (rest.is_protocol_feature_enabled feature_rdk_challenge_settlement)
    if enabled
        then refuse not_stoppable
            (stop_rollup_error (latest_status (rest.get_latest_batch rollup_id)))
        else ok tt

  unfoldable pub stop_rollup : JsString → Option RollupStatus → TxOptions → Result TxError Request
  unfolding send
  stop_rollup rollup_id current_status opts = do
    check_action Lifecycle.stop current_status
    stop_by (hybrid_rest client.hybrid) rollup_id
    send (stop_rollup_msg (record { creator = client.address; rollup_id = rollup_id })) opts

  unfoldable pub execute_withdrawal :
      Option JsString → ExecuteWithdrawalInput → TxOptions → Result TxError Request
  unfolding send
  execute_withdrawal own input opts = do
    refuse_all (
        withdrawal_errors sdk.is_bech32 (record {
          submitter = sender_of own;
          rollup_id = input.rollup_id;
          recipient = input.recipient;
          denom = input.denom;
          amount = input.amount;
          proof = input.proof;
        }))
    send (execute_withdrawal_msg (record input { submitter = sender_of own })) opts
