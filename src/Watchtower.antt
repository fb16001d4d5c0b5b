-- ===== src/Watchtower.antt =====
-- packages/ts/src/watchtower/index.ts: what `watchBatches` keeps between polls and what one poll does.
-- Callbacks are events, in the order of the calls. Where the code reads `stopped`, a poll says whether
-- `stop` has been called by then, so a stop may fall between any two reads.
pub mod Poll
pub mod Track
pub mod Once
pub mod Grows
pub mod Reach
pub mod Judge
mod Tests
use qorechain_rdk.Prelude.{
  ℕ, Bool, false, not, ◌&&◌, ◌||◌, Option, none, some, List, [], ◌∷◌, ltb, ◌==◌, if◌then◌else◌,
  get_or, Result,
}
use mathlib.Core.Option
use qorechain_rdk.Text.{js, JsString, str_eq}
use qorechain_rdk.Views.{BatchView}
use qorechain_rdk.Lifecycle.{
  BatchTimes, ChainTip, ChallengeWindowStatus, batch_challenge_window, time, blocks,
}
use qorechain_rdk.Prelude.Int.{ℤ, pos, leb_ℤ}

-- `${batchIndex}:${stateRoot}`: the digits of an index hold no colon, so two such texts are equal
-- exactly when both parts are.
pub record Key : Type 0 where
  pub index : ℕ
  pub root : JsString

abbrev pub key_of : BatchView → Key
key_of b = record { index = b.batch_index; root = b.state_root }

abbrev pub same_key : Key → Key → Bool
same_key k l = (k.index == l.index) && str_eq k.root l.root

-- `Set.has`.
abbrev pub has : List Key → Key → Bool
has [] k = false
has (l ∷ ls) k = same_key l k || has ls k

pub record BatchDeadline : Type 0 where
  pub batch : BatchView
  pub window : Option ChallengeWindowStatus
  pub deadline : ℕ
  pub seconds_remaining : ℤ

pub data WatchEvent : Type 0 where
  on_batch : BatchView → WatchEvent
  on_invalid on_deadline : BatchDeadline → WatchEvent
  on_error : JsString → WatchEvent

-- The options that the poll reads. A predicate that rejects its promise is an `err`.
pub record Settings : Type 0 where
  pub warn_secs : ℕ
  pub warn_blocks : ℕ
  pub validate : Option (BatchView → Result JsString Bool)

-- The variables of `watchBatches` that change.
pub record Watch : Type 0 where
  pub stopped : Bool
  pub window_secs : Option ℕ
  pub next_start : ℕ
  pub poll_from : ℕ
  pub seen : List Key
  pub warned : List Key

abbrev pub watch_start : Option ℕ → Watch
watch_start challenge_window_secs = record {
  stopped = false;
  window_secs = challenge_window_secs;
  next_start = 0;
  poll_from = 0;
  seen = [];
  warned = [];
}

abbrev pub stop_if : Bool → Watch → Watch
stop_if now w = record w { stopped = w.stopped || now }

abbrev pub times_of : BatchView → BatchTimes
times_of b = record { submitted_at = b.submitted_at; submitted_time = some b.submitted_time }

unfoldable pub deadline_for : Option ℕ → Option ChainTip → BatchView → BatchDeadline
deadline_for (some window_secs) (some tip) batch =
    let window = batch_challenge_window (times_of batch) window_secs tip in
    record {
      batch = batch;
      window = some window;
      deadline = elim window.mode [ time ↦ Option.get_or window.deadline_secs 0 | blocks ↦ 0 ];
      seconds_remaining = elim window.mode [
        | time ↦ Option.get_or window.seconds_remaining (pos 0)
        | blocks ↦ pos 0
      ];
    }
deadline_for _ _ batch = record {
  batch = batch;
  window = none;
  deadline = 0;
  seconds_remaining = pos 0;
}

-- `(x ?? Infinity) <= limit`.
abbrev pub within : Option ℤ → ℕ → Bool
within none limit = false
within (some x) limit = leb_ℤ x (pos limit)

abbrev pub is_window_open : Option ChallengeWindowStatus → Bool
is_window_open none = false
is_window_open (some w) = w.is_open

abbrev pub closing : Settings → ChallengeWindowStatus → Bool
closing settings w = elim w.mode [
  | time ↦ within w.seconds_remaining settings.warn_secs
  | blocks ↦ within w.blocks_remaining settings.warn_blocks
]

unfoldable pub near_deadline : Settings → Option ChallengeWindowStatus → Bool
near_deadline settings none = false
near_deadline settings (some w) = if not w.is_open then false else closing settings w

abbrev pub is_finalized : BatchView → Bool
is_finalized b = str_eq b.status (js "finalized") || ltb 0 b.finalized_at

abbrev pub is_live : BatchView → Bool
is_live b = not (is_finalized b) && not (str_eq b.status (js "rejected"))

-- Whether `stop` has been called when the loop comes to a batch, when its validity is known, and when
-- its deadline is looked at.
pub record Stops : Type 0 where
  pub at_batch : Bool
  pub at_verdict : Bool
  pub at_deadline : Bool

-- The loop over the batches: how far it came, and how it left.
pub data Ending : Type 0 where
  running returned : Ending
  threw : JsString → Ending

pub record Pass : Type 0 where
  pub watch : Watch
  pub oldest_open : Option ℕ
  pub events : List WatchEvent
  pub ended : Ending
