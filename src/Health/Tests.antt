-- ===== src/Health/Tests.antt =====
-- The health report of a rollup whose latest batch waits for an earlier one.
use qorechain_rdk.Prelude.{ℕ, ◌≡◌, refl, true, false, not, ◌&&◌, none, some, List, [], ◌∷◌, ok}
use qorechain_rdk.Receipts.{is_some}
use qorechain_rdk.Health.Graded.{get_rollup_health_says, HeldBack, seen_latest, is_rejected}
use qorechain_rdk.Prelude.Int.{◌-ℤ◌, negsuc, pos}
use qorechain_rdk.Text.{str_eq, JsString, js}
use qorechain_rdk.Views.{RollupView, BatchView}
use qorechain_rdk.Lifecycle.{ChallengeWindowStatus, batch_challenge_window, time}
use qorechain_rdk.Tx.Client.Toy.{my_rollup, settled_batch}
use qorechain_rdk.Health.{
  held_back, window_is_global, oldest_unsettled_before, blocker_of, oldest_of, RollupHealth,
  HealthReads, HealthOptions, get_rollup_health,
}

abbrev batch_at : ℕ → JsString → BatchView
batch_at index status = record settled_batch {
  batch_index = index;
  status = status;
  submitted_at = 10;
  submitted_time = 1000;
}

abbrev some_batches : List BatchView
some_batches =
    batch_at 7 (js "submitted")
    ∷ batch_at 6 (js "challenged")
    ∷ batch_at 4 (js "finalized")
    ∷ batch_at 5 (js "submitted")
    ∷ []

oldest_of_7 : oldest_of 7 some_batches ≡ some (5, js "submitted")
unfolding oldest_of
oldest_of_7 = refl

abbrev waiting_reads : HealthReads
waiting_reads = record {
  get_rollup = ok my_rollup;
  get_latest_batch = ok (batch_at 7 (js "submitted"));
  get_chain_tip = ok (record { height = 90; time_secs = 3000 });
  default_challenge_window = ok 500;
  challenge_settlement_enabled = ok true;
  list_batches = λ start. ok some_batches;
}

abbrev no_options : HealthOptions
no_options = record { tip = none; now_secs = none; challenge_window_secs = none }

abbrev passed_window : ChallengeWindowStatus
passed_window = record {
  mode = time;
  is_open = false;
  finalizable = true;
  deadline_secs = some 1500;
  seconds_remaining = some (negsuc 1499);
  window_blocks = none;
  deadline_height = none;
  blocks_remaining = none;
}

abbrev waiting_health : RollupHealth
waiting_health = record {
  rollup_id = js "r-1";
  status = js "active";
  has_batches = true;
  latest_batch_index = some 7;
  latest_batch_status = some (js "submitted");
  latest_batch_height = some 10;
  batch_age_blocks = some (pos 80);
  batch_age_secs = some (pos 2000);
  challenge_window = some passed_window;
  challenge_deadline_secs = some 1500;
  seconds_until_challenge_deadline = some (negsuc 1499);
  held_back_by = some (5, js "submitted");
  healthy = true;
  notes = window_is_global ∷ held_back 7 5 (js "submitted") ∷ [];
}

waiting : get_rollup_health waiting_reads no_options (js "r-1") ≡ ok waiting_health
unfolding get_rollup_health blocker_of oldest_unsettled_before batch_challenge_window ◌-ℤ◌
waiting = refl

get_rollup_health_says_example :
    (rollup : RollupView) × (waiting_reads.get_rollup ≡ ok rollup)
    × (waiting_health.healthy ≡ (
        str_eq rollup.status (js "active")
        && not (is_rejected (seen_latest waiting_reads.get_latest_batch))))
    × (waiting_health.has_batches ≡ is_some (seen_latest waiting_reads.get_latest_batch))
    × ((index : ℕ) (status : JsString)
        → waiting_health.held_back_by ≡ some (index, status)
        → (batch : BatchView) × (seen_latest waiting_reads.get_latest_batch ≡ some batch)
          × HeldBack waiting_reads no_options batch waiting_health index status)
get_rollup_health_says_example =
    get_rollup_health_says waiting_reads no_options (js "r-1") waiting_health waiting
