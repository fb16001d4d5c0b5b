-- ===== src/Lifecycle.antt =====
-- packages/ts/src/lifecycle/state-machine.ts: the rollup and batch lifecycles and the challenge
-- window. Status strings are the constructors of the union types.
pub mod Transitions
pub mod Window
mod Tests
use qorechain_rdk.Prelude.{
  ℕ, ◌+◌, ◌/◌, Bool, true, false, not, ◌&&◌, List, [], ◌∷◌, Option, none, some, ltb, leb, ◌==◌,
  if◌then◌else◌, Result, ok, err, length,
}
use mathlib.Core.Option.{get_or}
use qorechain_rdk.Prelude.Int.{ℤ, pos, ◌-ℤ◌, leb_ℤ}

pub data RollupAction : Type 0 where
  pause resume stop : RollupAction

pub data RollupStatus : Type 0 where
  pending active paused stopped : RollupStatus

pub data BatchStatus : Type 0 where
  submitted challenged finalized rejected : BatchStatus

abbrev pub same_rollup : RollupStatus → RollupStatus → Bool
same_rollup pending pending = true
same_rollup active active = true
same_rollup paused paused = true
same_rollup stopped stopped = true
same_rollup _ _ = false

abbrev pub includes : List RollupStatus → RollupStatus → Bool
includes [] s = false
includes (t ∷ ts) s = if same_rollup t s then true else includes ts s

abbrev pub rollup_action_from : RollupAction → List RollupStatus
rollup_action_from pause = active ∷ []
rollup_action_from resume = paused ∷ []
rollup_action_from stop = active ∷ paused ∷ []

unfoldable pub can_perform_rollup_action : RollupAction → RollupStatus → Bool
can_perform_rollup_action action status = includes (rollup_action_from action) status

-- The error's text names the action, the status and the allowed statuses.
pub data ActionError : Type 0 where
  cannot : RollupAction → RollupStatus → List RollupStatus → ActionError

unfoldable pub assert_rollup_action : RollupAction → RollupStatus → Result ActionError (Unit {0})
unfolding can_perform_rollup_action
assert_rollup_action action status =
    if not (can_perform_rollup_action action status)
    then err (cannot action status (rollup_action_from action))
    else ok tt

abbrev pub batch_transitions : BatchStatus → List BatchStatus
batch_transitions submitted = finalized ∷ challenged ∷ []
batch_transitions challenged = rejected ∷ finalized ∷ []
batch_transitions finalized = []
batch_transitions rejected = []

unfoldable pub is_batch_final : BatchStatus → Bool
is_batch_final status = length (batch_transitions status) == 0

unfoldable pub challenge_window_deadline : ℕ → ℕ → ℕ
challenge_window_deadline submitted_at_secs window_secs = submitted_at_secs + window_secs

unfoldable pub is_challenge_window_closed : ℕ → ℕ → ℕ → Bool
unfolding challenge_window_deadline
is_challenge_window_closed submitted_at_secs window_secs now_secs =
    leb (challenge_window_deadline submitted_at_secs window_secs) now_secs

pub data WindowMode : Type 0 where
  time blocks : WindowMode

-- The optional fields of one mode are `none` in the other.
pub record ChallengeWindowStatus : Type 0 where
  pub mode : WindowMode
  pub is_open : Bool
  pub finalizable : Bool
  pub deadline_secs : Option ℕ
  pub seconds_remaining : Option ℤ
  pub window_blocks : Option ℕ
  pub deadline_height : Option ℕ
  pub blocks_remaining : Option ℤ

pub record ChainTip : Type 0 where
  pub height : ℕ
  pub time_secs : ℕ

-- The two fields of a batch that the window reads.
pub record BatchTimes : Type 0 where
  pub submitted_at : ℕ
  pub submitted_time : Option ℕ

time_window : ℕ → ℕ → ChainTip → ChallengeWindowStatus
time_window submitted_time window_secs tip =
    let elapsed = pos tip.time_secs -ℤ pos submitted_time in
    let elapsed_fully = leb_ℤ (pos 0) elapsed && leb_ℤ (pos window_secs) elapsed in
    let deadline = submitted_time + window_secs in
    record {
      mode = time;
      is_open = not elapsed_fully;
      finalizable = elapsed_fully;
      deadline_secs = some deadline;
      seconds_remaining = some (pos deadline -ℤ pos tip.time_secs);
      window_blocks = none;
      deadline_height = none;
      blocks_remaining = none;
    }

block_window : ℕ → ℕ → ChainTip → ChallengeWindowStatus
block_window submitted_at window_secs tip =
    let blocks_long = window_secs / 6 in
    let since_submit = pos tip.height -ℤ pos submitted_at in
    let deadline = submitted_at + blocks_long in
    record {
      mode = blocks;
      is_open = leb_ℤ since_submit (pos blocks_long);
      finalizable = leb_ℤ (pos blocks_long) since_submit;
      deadline_secs = none;
      seconds_remaining = none;
      window_blocks = some blocks_long;
      deadline_height = some deadline;
      blocks_remaining = some (pos deadline -ℤ pos tip.height);
    }

unfoldable pub batch_challenge_window : BatchTimes → ℕ → ChainTip → ChallengeWindowStatus
unfolding time_window block_window
batch_challenge_window batch window_secs tip =
    let submitted_time = get_or batch.submitted_time 0 in
    if ltb 0 submitted_time
    then time_window submitted_time window_secs tip
    else block_window batch.submitted_at window_secs tip
