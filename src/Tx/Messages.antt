-- ===== src/Tx/Messages.antt =====
-- packages/ts/src/tx/messages.ts: the builders of the transaction messages.
use qorechain_rdk.Prelude.{
  Bool, true, false, not, Option, none, some, List, [], ◌∷◌, if◌then◌else◌, Result, ok, err, ◌>>=◌,
}
use qorechain_rdk.Bytes.{Bytes}
use qorechain_rdk.Prelude.Int.{ℤ}
use qorechain_rdk.Bytes.Hex.{to_bytes, raw, hex_text, HexError, BytesInput}
use qorechain_rdk.Tx.Codecs.CreateRollup
use qorechain_rdk.Tx.Codecs.CreateRollup.{MsgCreateRollup}
use qorechain_rdk.Tx.Codecs.SubmitBatch
use qorechain_rdk.Tx.Codecs.SubmitBatch.{MsgSubmitBatch}
use qorechain_rdk.Tx.Codecs.ChallengeBatch
use qorechain_rdk.Tx.Codecs.ChallengeBatch.{MsgChallengeBatch}
use qorechain_rdk.Tx.Codecs.ResolveChallenge
use qorechain_rdk.Tx.Codecs.ResolveChallenge.{MsgResolveChallenge}
use qorechain_rdk.Tx.Codecs.PauseRollup
use qorechain_rdk.Tx.Codecs.PauseRollup.{MsgPauseRollup}
use qorechain_rdk.Tx.Codecs.ResumeRollup
use qorechain_rdk.Tx.Codecs.ResumeRollup.{MsgResumeRollup}
use qorechain_rdk.Tx.Codecs.StopRollup
use qorechain_rdk.Tx.Codecs.StopRollup.{MsgStopRollup}
use qorechain_rdk.Tx.Codecs.ExecuteWithdrawal
use qorechain_rdk.Tx.Codecs.ExecuteWithdrawal.{MsgExecuteWithdrawal}
use qorechain_rdk.Text.{is_empty, str_eq, JsString, js}
use mathlib.Core.Option.{get_or}

-- `string | number | bigint`, by what `BigInt` makes of it: `none` where it throws.
abbrev pub Numeric : Type 0
Numeric = Option ℤ

pub data MessageError : Type 0 where
  not_an_integer : MessageError
  bad_bytes : HexError → MessageError

abbrev pub big : Numeric → Result MessageError ℤ
big none = err not_an_integer
big (some v) = ok v

abbrev pub hex_checked : Result HexError Bytes → Result MessageError Bytes
hex_checked (err e) = err (bad_bytes e)
hex_checked (ok b) = ok b

unfoldable pub bytes_of : BytesInput → Result MessageError Bytes
bytes_of b = hex_checked (to_bytes b)

-- An absent value and the empty string are falsy; a byte array never is.
abbrev pub given : Option BytesInput → Bool
given none = false
given (some (hex_text s)) = not (is_empty s)
given (some (raw b)) = true

-- `x ? toBytes(x) : EMPTY`.
unfoldable pub bytes_or_empty : Option BytesInput → Result MessageError Bytes
bytes_or_empty none = ok []
bytes_or_empty (some b) = if given (some b) then bytes_of b else ok []

-- `.map(toBytes)`.
unfoldable pub bytes_of_all : List BytesInput → Result MessageError (List Bytes)
bytes_of_all [] = ok []
bytes_of_all (b ∷ bs) = do first ← bytes_of b; rest ← bytes_of_all bs; ok (first ∷ rest)

unfoldable pub vm_type_wire_value : JsString → JsString
vm_type_wire_value vm_type = if str_eq vm_type (js "native") then js "cosmwasm" else vm_type

-- The type URL is the constructor.
pub data EncodeObject : Type 0 where
  create_rollup : MsgCreateRollup → EncodeObject
  submit_batch : MsgSubmitBatch → EncodeObject
  challenge_batch : MsgChallengeBatch → EncodeObject
  resolve_challenge : MsgResolveChallenge → EncodeObject
  pause_rollup : MsgPauseRollup → EncodeObject
  resume_rollup : MsgResumeRollup → EncodeObject
  stop_rollup : MsgStopRollup → EncodeObject
  execute_withdrawal : MsgExecuteWithdrawal → EncodeObject

pub record CreateRollupInput : Type 0 where
  pub creator : JsString
  pub rollup_id : JsString
  pub profile : JsString
  pub vm_type : JsString
  pub stake_amount : Numeric

unfoldable pub create_rollup_msg : CreateRollupInput → Result MessageError EncodeObject
create_rollup_msg input = do
  stake_amount ← big input.stake_amount
  ok (
      create_rollup (
        CreateRollup.from_partial (record {
          creator = some input.creator;
          rollup_id = some input.rollup_id;
          profile = some input.profile;
          vm_type = some (vm_type_wire_value input.vm_type);
          stake_amount = some stake_amount;
        })))

pub record SubmitBatchInput : Type 0 where
  pub sequencer : JsString
  pub rollup_id : JsString
  pub batch_index : Numeric
  pub state_root : BytesInput
  pub prev_state_root : Option BytesInput
  pub tx_count : Numeric
  pub data_hash : Option BytesInput
  pub proof : Option BytesInput
  pub withdrawals_root : Option BytesInput
  pub anchor_signature : Option BytesInput
  pub validator_set_hash : Option BytesInput

unfoldable pub submit_batch_msg : SubmitBatchInput → Result MessageError EncodeObject
submit_batch_msg input = do
  batch_index ← big input.batch_index
  state_root ← bytes_of input.state_root
  prev_state_root ← bytes_or_empty input.prev_state_root
  tx_count ← big input.tx_count
  data_hash ← bytes_or_empty input.data_hash
  proof ← bytes_or_empty input.proof
  withdrawals_root ← bytes_or_empty input.withdrawals_root
  anchor_signature ← bytes_or_empty input.anchor_signature
  validator_set_hash ← bytes_or_empty input.validator_set_hash
  ok (
      submit_batch (
        SubmitBatch.from_partial (record {
          sequencer = some input.sequencer;
          rollup_id = some input.rollup_id;
          batch_index = some batch_index;
          state_root = some state_root;
          prev_state_root = some prev_state_root;
          tx_count = some tx_count;
          data_hash = some data_hash;
          proof = some proof;
          withdrawals_root = some withdrawals_root;
          anchor_signature = some anchor_signature;
          validator_set_hash = some validator_set_hash;
        })))

pub record ChallengeBatchInput : Type 0 where
  pub challenger : JsString
  pub rollup_id : JsString
  pub batch_index : Numeric
  pub proof : BytesInput

unfoldable pub challenge_batch_msg : ChallengeBatchInput → Result MessageError EncodeObject
challenge_batch_msg input = do
  batch_index ← big input.batch_index
  proof ← bytes_of input.proof
  ok (
      challenge_batch (
        ChallengeBatch.from_partial (record {
          challenger = some input.challenger;
          rollup_id = some input.rollup_id;
          batch_index = some batch_index;
          proof = some proof;
        })))

pub record ResolveChallengeInput : Type 0 where
  pub resolver : JsString
  pub rollup_id : JsString
  pub batch_index : Numeric
  pub fraud_upheld : Bool

unfoldable pub resolve_challenge_msg : ResolveChallengeInput → Result MessageError EncodeObject
resolve_challenge_msg input = do
  batch_index ← big input.batch_index
  ok (
      resolve_challenge (
        ResolveChallenge.from_partial (record {
          resolver = some input.resolver;
          rollup_id = some input.rollup_id;
          batch_index = some batch_index;
          fraud_upheld = some input.fraud_upheld;
        })))

pub record PauseRollupInput : Type 0 where
  pub creator : JsString
  pub rollup_id : JsString
  pub reason : Option JsString

unfoldable pub pause_rollup_msg : PauseRollupInput → Result MessageError EncodeObject
pause_rollup_msg input = ok (
    pause_rollup (
      PauseRollup.from_partial (record {
        creator = some input.creator;
        rollup_id = some input.rollup_id;
        reason = some (get_or input.reason []);
      })))

pub record RollupRefInput : Type 0 where
  pub creator : JsString
  pub rollup_id : JsString

unfoldable pub resume_rollup_msg : RollupRefInput → Result MessageError EncodeObject
resume_rollup_msg input = ok (
    resume_rollup (
      ResumeRollup.from_partial
        (record { creator = some input.creator; rollup_id = some input.rollup_id })))

unfoldable pub stop_rollup_msg : RollupRefInput → Result MessageError EncodeObject
stop_rollup_msg input = ok (
    stop_rollup (
      StopRollup.from_partial
        (record { creator = some input.creator; rollup_id = some input.rollup_id })))

pub record ExecuteWithdrawalInput : Type 0 where
  pub submitter : JsString
  pub rollup_id : JsString
  pub batch_index : Numeric
  pub withdrawal_index : Numeric
  pub recipient : JsString
  pub denom : JsString
  pub amount : Numeric
  pub proof : Option (List BytesInput)

unfoldable pub execute_withdrawal_msg : ExecuteWithdrawalInput → Result MessageError EncodeObject
execute_withdrawal_msg input = do
  batch_index ← big input.batch_index
  withdrawal_index ← big input.withdrawal_index
  amount ← big input.amount
  proof ← bytes_of_all (get_or input.proof [])
  ok (
      execute_withdrawal (
        ExecuteWithdrawal.from_partial (record {
          submitter = some input.submitter;
          rollup_id = some input.rollup_id;
          batch_index = some batch_index;
          withdrawal_index = some withdrawal_index;
          recipient = some input.recipient;
          denom = some input.denom;
          amount = some amount;
          proof = some proof;
        })))
