-- ===== src/Health.antt =====
-- packages/ts/src/health/index.ts: a rollup's health from its status, its latest batch and that batch's
-- challenge window. What the node says during one call is an input; notes are constructors.
pub mod Oldest
pub mod Graded
mod Tests
use qorechain_rdk.Prelude.{
  unless, ◌-◌, ℕ, Bool, true, false, not, ◌&&◌, ◌||◌, Option, none, some, List, [], ◌∷◌, ◌++◌, map,
  ltb, leb, ◌==◌, if◌then◌else◌, Result, ok, err, ◌>>=◌,
}
use qorechain_rdk.Prelude.Int.{◌-ℤ◌, pos, ℤ}
use qorechain_rdk.Text.{str_eq, JsString, js}
use qorechain_rdk.Views.{RollupView, BatchView}
use qorechain_rdk.Lifecycle.{ChainTip, ChallengeWindowStatus, batch_challenge_window, time, blocks}
use qorechain_rdk.Watchtower.{times_of}
use mathlib.Core.Option

abbrev pub max_pending_optimistic_batches : ℕ
max_pending_optimistic_batches = 4096

pub data HealthNote : Type 0 where
  status_is : JsString → HealthNote
  no_batches rejected window_is_global under_challenge : HealthNote
  tip_unread : JsString → HealthNote
  held_back : ℕ → ℕ → JsString → HealthNote

pub record RollupHealth : Type 0 where
  pub rollup_id : JsString
  pub status : JsString
  pub has_batches : Bool
  pub latest_batch_index : Option ℕ
  pub latest_batch_status : Option JsString
  pub latest_batch_height : Option ℕ
  pub batch_age_blocks : Option ℤ
  pub batch_age_secs : Option ℤ
  pub challenge_window : Option ChallengeWindowStatus
  pub challenge_deadline_secs : Option ℕ
  pub seconds_until_challenge_deadline : Option ℤ
  pub held_back_by : Option (ℕ × JsString)
  pub healthy : Bool
  pub notes : List HealthNote

-- The answers of the node, and the global challenge window of the parameters.
pub record HealthReads : Type 0 where
  pub get_rollup : Result JsString RollupView
  pub get_latest_batch : Result JsString BatchView
  pub get_chain_tip : Result JsString ChainTip
  pub default_challenge_window : Result JsString ℕ
  pub challenge_settlement_enabled : Result JsString Bool
  pub list_batches : ℕ → Result JsString (List BatchView)

pub record HealthOptions : Type 0 where
  pub tip : Option ChainTip
  pub now_secs : Option ℕ
  pub challenge_window_secs : Option ℕ

abbrev pub is_unsettled : BatchView → Bool
is_unsettled b = str_eq b.status (js "submitted") || str_eq b.status (js "challenged")

abbrev pub filter {ℓ} : {A : Type ℓ} → (A → Bool) → List A → List A
filter keeps [] = []
filter keeps (x ∷ xs) = let rest = filter keeps xs in if keeps x then x ∷ rest else rest

-- `sort` by the index: stable, as the language demands.
abbrev pub insert_by_index : BatchView → List BatchView → List BatchView
insert_by_index b [] = b ∷ []
insert_by_index b (c ∷ cs) =
    let rest = insert_by_index b cs in
    if leb b.batch_index c.batch_index then b ∷ c ∷ cs else c ∷ rest

unfoldable pub sort_by_index : List BatchView → List BatchView
sort_by_index [] = []
sort_by_index (b ∷ bs) = insert_by_index b (sort_by_index bs)

abbrev pub is_pending_before : ℕ → BatchView → Bool
is_pending_before latest b = ltb b.batch_index latest && is_unsettled b

abbrev pub first_of : List BatchView → Option (ℕ × JsString)
first_of [] = none
first_of (b ∷ bs) = some (b.batch_index, b.status)

unfoldable pub oldest_of : ℕ → List BatchView → Option (ℕ × JsString)
unfolding sort_by_index
oldest_of latest batches = first_of (sort_by_index (filter (is_pending_before latest) batches))

-- `-` on the natural numbers stops at 0, as `Math.max(0, …)` does.
unfoldable pub oldest_unsettled_before :
    (ℕ → Result JsString (List BatchView)) → ℕ → Result JsString (Option (ℕ × JsString))
unfolding oldest_of
oldest_unsettled_before list_batches latest = do
  batches ← list_batches (latest - max_pending_optimistic_batches)
  ok (oldest_of latest batches)

-- The tip to judge by, and the note where it could not be read.
abbrev pub tip_of :
    Option ChainTip → Option ℕ → Result JsString ChainTip → Option ChainTip × List HealthNote
tip_of (some tip) now read = (some tip, [])
tip_of none now (err message) = (none, tip_unread message ∷ [])
tip_of none none (ok tip) = (some tip, [])
tip_of none (some now) (ok tip) = (some (record tip { time_secs = now }), [])

abbrev pub window_secs_of : Option ℕ → Option ℕ → Result JsString ℕ → Result JsString ℕ
window_secs_of (some secs) own global = ok secs
window_secs_of none (some secs) global = ok secs
window_secs_of none none global = global

abbrev pub is_finalizable : Option ChallengeWindowStatus → Bool
is_finalizable none = false
is_finalizable (some w) = w.finalizable

-- A field of the window that is set in time mode only.
abbrev pub in_time_mode {ℓ} :
    {A : Type ℓ} → (ChallengeWindowStatus → Option A) → Option ChallengeWindowStatus → Option A
in_time_mode field none = none
in_time_mode field (some w) = elim w.mode [ time ↦ field w | blocks ↦ none ]

abbrev pub held_note : ℕ → Option (ℕ × JsString) → List HealthNote
held_note latest none = []
held_note latest (some (index, status)) = held_back latest index status ∷ []

abbrev pub absent {ℓ} : {A : Type ℓ} → Option A → Bool
absent none = true
absent (some x) = false

abbrev pub window_at : BatchView → ℕ → Option ChainTip → Option ChallengeWindowStatus
window_at batch secs tip =
    Option.map (λ (t : ChainTip). batch_challenge_window (times_of batch) secs t) tip

module _ (reads : HealthReads) (options : HealthOptions) where
  unfoldable pub blocker_of :
      BatchView → Option ChallengeWindowStatus → Result JsString (Option (ℕ × JsString))
  blocker_of batch window =
      if str_eq batch.status (js "submitted") && is_finalizable window
      then (do
        enabled ← reads.challenge_settlement_enabled
        if enabled then oldest_unsettled_before reads.list_batches batch.batch_index else ok none)
      else ok none

  abbrev pub windowed :
      RollupView
      → BatchView
      → RollupHealth
      → Option ChallengeWindowStatus
      → Option (ℕ × JsString)
      → RollupHealth
  windowed rollup batch health window blocker =
      let own = not (absent rollup.challenge_window_sec && absent options.challenge_window_secs) in
      record health {
        challenge_window = window;
        challenge_deadline_secs = in_time_mode ChallengeWindowStatus.deadline_secs window;
        seconds_until_challenge_deadline =
            in_time_mode ChallengeWindowStatus.seconds_remaining window;
        held_back_by = blocker;
        notes =
            health.notes
            ++ (unless own window_is_global
                ++ (unless (not (str_eq batch.status (js "challenged"))) under_challenge
                    ++ held_note batch.batch_index blocker));
      }

  unfoldable pub with_window :
      RollupView → BatchView → Option ChainTip → RollupHealth → Result JsString RollupHealth
  unfolding blocker_of
  with_window rollup batch tip health = do
    secs ←
        window_secs_of options.challenge_window_secs rollup.challenge_window_sec
          reads.default_challenge_window
    blocker ← blocker_of batch (window_at batch secs tip)
    ok (windowed rollup batch health (window_at batch secs tip) blocker)

  abbrev pub aged : BatchView → Option ChainTip × List HealthNote → RollupHealth → RollupHealth
  aged batch tip health =
      let is_rejected = str_eq batch.status (js "rejected") in
      record health {
        has_batches = true;
        latest_batch_index = some batch.batch_index;
        latest_batch_status = some batch.status;
        latest_batch_height = some batch.submitted_at;
        batch_age_blocks =
            Option.map (λ (t : ChainTip). pos t.height -ℤ pos batch.submitted_at) tip.0;
        batch_age_secs =
            if ltb 0 batch.submitted_time
            then Option.map (λ (t : ChainTip). pos t.time_secs -ℤ pos batch.submitted_time) tip.0
            else none;
        healthy = health.healthy && not is_rejected;
        notes = health.notes ++ (unless (not is_rejected) rejected ++ tip.1);
      }

  unfoldable pub with_batch : RollupView → BatchView → RollupHealth → Result JsString RollupHealth
  unfolding with_window
  with_batch rollup batch health =
      let tip = tip_of options.tip options.now_secs reads.get_chain_tip in
      if is_unsettled batch
      then with_window rollup batch tip.0 (aged batch tip health)
      else ok (aged batch tip health)

  abbrev pub with_latest :
      RollupView → RollupHealth → Result JsString BatchView → Result JsString RollupHealth
  with_latest rollup health (err message) =
      ok (record health { notes = health.notes ++ no_batches ∷ [] })
  with_latest rollup health (ok batch) =
      if batch.submitted_at == 0
      then ok (record health { notes = health.notes ++ no_batches ∷ [] })
      else with_batch rollup batch health

  abbrev pub initial_health : JsString → RollupView → RollupHealth
  initial_health rollup_id rollup =
      let active = str_eq rollup.status (js "active") in
      record {
        rollup_id = rollup_id;
        status = rollup.status;
        has_batches = false;
        latest_batch_index = none;
        latest_batch_status = none;
        latest_batch_height = none;
        batch_age_blocks = none;
        batch_age_secs = none;
        challenge_window = none;
        challenge_deadline_secs = none;
        seconds_until_challenge_deadline = none;
        held_back_by = none;
        healthy = active;
        notes = unless active (status_is rollup.status);
      }

  unfoldable pub get_rollup_health : JsString → Result JsString RollupHealth
  unfolding with_batch
  get_rollup_health rollup_id = do
    rollup ← reads.get_rollup
    with_latest rollup (initial_health rollup_id rollup) reads.get_latest_batch
