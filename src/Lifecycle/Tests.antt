-- ===== src/Lifecycle/Tests.antt =====
-- Runs of the lifecycle model, and its theorems at concrete inputs.
use qorechain_rdk.Prelude.{ℕ, ◌≡◌, refl, ◌⊎◌, true, none, some}
use qorechain_rdk.Prelude.Int.{◌-ℤ◌}
use qorechain_rdk.Lifecycle.{ChallengeWindowStatus, ChainTip, BatchTimes, batch_challenge_window}
use qorechain_rdk.Lifecycle.Window.{batch_challenge_window_lem, IsTimed, IsCounted}

abbrev tip_at : ℕ → ℕ → ChainTip
tip_at h t = record { height = h; time_secs = t }

abbrev old_batch : BatchTimes
old_batch = record { submitted_at = 100; submitted_time = none }

seven_days_in_blocks : (batch_challenge_window old_batch 604800 (tip_at 100900 0)).is_open ≡ true
unfolding batch_challenge_window ◌-ℤ◌
seven_days_in_blocks = refl

abbrev timed_batch : BatchTimes
timed_batch = record { submitted_at = 100; submitted_time = some 1000 }

abbrev at_deadline : ChallengeWindowStatus
at_deadline = batch_challenge_window timed_batch 600 (tip_at 150 1600)

abbrev at_height : ℕ → ChallengeWindowStatus
at_height h = batch_challenge_window old_batch 600 (tip_at h 0)

batch_challenge_window_lem_example :
    IsTimed 1000 600 (tip_at 150 1600) at_deadline
    ⊎ (◌≡◌ {A = ℕ} 1000 0 × IsCounted 100 600 (tip_at 150 1600) at_deadline)
batch_challenge_window_lem_example = batch_challenge_window_lem timed_batch 600 (tip_at 150 1600)

IsCounted-at_height :
    IsTimed 0 600 (tip_at 200 0) (at_height 200)
    ⊎ (◌≡◌ {A = ℕ} 0 0 × IsCounted 100 600 (tip_at 200 0) (at_height 200))
IsCounted-at_height = batch_challenge_window_lem old_batch 600 (tip_at 200 0)
