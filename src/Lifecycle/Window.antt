-- ===== src/Lifecycle/Window.antt =====
-- When a batch's challenge window is open, and when the batch may be finalized.
use qorechain_rdk.Prelude.{
  ◌+◌, ◌*◌, ◌/◌, ◌≤◌, ◌<◌, ℕ, ◌≡◌, refl, ◌↔◌, ◌⊎◌, inl, inr, true, none, some, arith, ltb,
  Bool-cases,
}
use qorechain_rdk.Prelude.Int.{pos, ◌-ℤ◌}
use mathlib.Core.Option.{get_or}
use qorechain_rdk.Lifecycle.{
  time, blocks, ChainTip, BatchTimes, ChallengeWindowStatus, batch_challenge_window, time_window,
  block_window,
}

-- The time rule, from the submission time `t` on: open exactly before the deadline, finalizable exactly
-- from it on.
abbrev pub IsTimed : ℕ → ℕ → ChainTip → ChallengeWindowStatus → Type 0
IsTimed t w tip s =
    (0 < t)
    × (s.mode ≡ time)
    × (s.deadline_secs ≡ some (t + w))
    × ((s.is_open ≡ true) ↔ (tip.time_secs < t + w))
    × ((s.finalizable ≡ true) ↔ (t + w ≤ tip.time_secs))
    × (s.seconds_remaining ≡ some (pos (t + w) -ℤ pos tip.time_secs))
    × (s.deadline_height ≡ none)

-- The block rule, from the height `at` on: `n` is the window in blocks of six seconds, the last one cut
-- off. At the deadline itself the window is open still, and the batch finalizable already.
abbrev pub IsCounted : ℕ → ℕ → ChainTip → ChallengeWindowStatus → Type 0
IsCounted at w tip s =
    (n : ℕ) × ((6 * n ≤ w) × (w < 6 * (n + 1)))
    × (s.mode ≡ blocks)
    × (s.window_blocks ≡ some n)
    × (s.deadline_height ≡ some (at + n))
    × ((s.is_open ≡ true) ↔ (tip.height ≤ at + n))
    × ((s.finalizable ≡ true) ↔ (at + n ≤ tip.height))
    × (s.blocks_remaining ≡ some (pos (at + n) -ℤ pos tip.height))
    × (s.deadline_secs ≡ none)

time_window-IsTimed : (t w : ℕ) (tip : ChainTip) → 0 < t → IsTimed t w tip (time_window t w tip)
unfolding time_window ◌-ℤ◌
time_window-IsTimed t w tip h = (h, refl, refl, ground arith, ground arith, refl, refl)

block_window-IsCounted : (at w : ℕ) (tip : ChainTip) → IsCounted at w tip (block_window at w tip)
unfolding block_window ◌-ℤ◌
block_window-IsCounted at w tip =
    (w / 6, (omega arith, omega arith), refl, refl, refl, ground arith, ground arith, refl, refl)

-- A batch with a submission time other than 0 is under the time rule: its window is open exactly before
-- that time plus the window, and the batch finalizable exactly from then on. Any other batch is under
-- the block rule: with n the whole blocks of six seconds in the window, its window is open exactly up to
-- the height of submission plus n, and the batch finalizable exactly from that height on.
pub batch_challenge_window_lem :
    (b : BatchTimes) (w : ℕ) (tip : ChainTip)
    → let t = get_or b.submitted_time 0 in
      let s = batch_challenge_window b w tip in
      IsTimed t w tip s ⊎ ((t ≡ 0) × IsCounted b.submitted_at w tip s)
unfolding batch_challenge_window
batch_challenge_window_lem b w tip = elim (Bool-cases (ltb 0 (get_or b.submitted_time 0))) [
  | inl e ↦ rw e (inl (time_window-IsTimed (get_or b.submitted_time 0) w tip (ground arith)))
  | inr e ↦ rw e (inr (ground arith, block_window-IsCounted b.submitted_at w tip))
]
