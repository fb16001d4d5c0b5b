-- ===== src/Lifecycle/Transitions.antt =====
-- The transition table of settlement batches and the guard of rollup actions.
use qorechain_rdk.Prelude.{
  ℕ, zero, suc, ◌≡◌, refl, ◌↔◌, ◌⊎◌, Bool, true, false, List, [], ◌∷◌, arith, if◌then◌else◌, ok,
  err,
}
use qorechain_rdk.Lifecycle.{
  RollupAction, pause, resume, stop, RollupStatus, active, paused, BatchStatus, submitted,
  challenged, finalized, rejected, cannot, rollup_action_from, assert_rollup_action,
  batch_transitions, is_batch_final,
}

abbrev same_batch : BatchStatus → BatchStatus → Bool
same_batch submitted submitted = true
same_batch challenged challenged = true
same_batch finalized finalized = true
same_batch rejected rejected = true
same_batch _ _ = false

abbrev listed : List BatchStatus → BatchStatus → Bool
listed [] s = false
listed (t ∷ ts) s = if same_batch t s then true else listed ts s

-- One step of a batch: the table lists the next status.
abbrev pub BatchStep : BatchStatus → BatchStatus → Type 0
BatchStep s t = listed (batch_transitions s) t ≡ true

-- A run of the batch, with its number of steps.
pub data BatchRun : BatchStatus → BatchStatus → ℕ → Type 0 where
  here : {s : BatchStatus} → BatchRun s s zero
  next : {s t u : BatchStatus} {n : ℕ} → BatchStep s t → BatchRun t u n → BatchRun s u (suc n)

final_stays :
    {s t : BatchStatus} {n : ℕ} → BatchRun s t n → is_batch_final s ≡ true → (n ≡ 0) × (t ≡ s)
unfolding is_batch_final
final_stays here h = (refl, refl)
final_stays (next {s = submitted} st r) h = cc
final_stays (next {s = challenged} st r) h = cc
final_stays (next {s = finalized} st r) h = cc
final_stays (next {s = rejected} st r) h = cc

final_cases : (s : BatchStatus) → is_batch_final s ≡ true → (s ≡ finalized) ⊎ (s ≡ rejected)
unfolding is_batch_final
final_cases s h = ground arith

-- A batch whose status is final never changes status again, and its status is finalized or rejected.
pub is_batch_final_absorbs :
    (s t : BatchStatus) (n : ℕ)
    → BatchRun s t n
    → is_batch_final s ≡ true
    → (t ≡ s) × ((s ≡ finalized) ⊎ (s ≡ rejected))
is_batch_final_absorbs s t n r h = ((final_stays r h).1, final_cases s h)

-- The rollup guard passes exactly in these cases, and otherwise throws the error that names the
-- action, the status and the statuses from which the action is allowed.
pub assert_rollup_action_iff :
    (a : RollupAction) (s : RollupStatus)
    → ((assert_rollup_action a s ≡ ok tt) ↔ (
        ((a ≡ pause) × (s ≡ active))
        ⊎ ((a ≡ resume) × (s ≡ paused))
        ⊎ ((a ≡ stop) × ((s ≡ active) ⊎ (s ≡ paused)))))
      × ((assert_rollup_action a s ≡ ok tt)
          ⊎ (assert_rollup_action a s ≡ err (cannot a s (rollup_action_from a))))
unfolding assert_rollup_action
assert_rollup_action_iff a s = ground arith
