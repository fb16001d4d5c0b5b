-- ===== src/Health/Graded.antt =====
-- `getRollupHealth` of packages/ts/src/health/index.ts: what the flag and the held-back batch say.
use qorechain_rdk.Prelude.{
  ◌-◌, ◌≤◌, ◌<◌, ℕ, ◌≡◌, refl, sym, ap, ◌∙◌, subst, ◌↔◌, ◌⊎◌, inl, inr, Bool, true, false, not,
  ◌&&◌, Option, none, some, List, [], ◌∷◌, ◌++◌, arith, ◌==◌, if◌then◌else◌, Bool-cases, Result, ok,
  err, ◌>>=◌, ok-injective, >>=-eq-ok,
}
use qorechain_rdk.Receipts.{is_some}
use qorechain_rdk.Health.Oldest.{oldest_of_cases, Among}
use qorechain_rdk.Text.{str_eq→eq, str_eq, JsString, js}
use qorechain_rdk.Views.{RollupView, BatchView}
use qorechain_rdk.Lifecycle.{ChainTip}
use qorechain_rdk.Health.{
  no_batches, with_latest, HealthNote, get_rollup_health, initial_health, is_pending_before,
  oldest_of, max_pending_optimistic_batches, oldest_unsettled_before, is_finalizable, windowed,
  aged, window_at, tip_of, blocker_of, window_secs_of, is_unsettled, with_window, with_batch,
  RollupHealth, HealthReads, HealthOptions,
}

-- A batch that was read and was submitted at some height.
abbrev pub seen_latest : Result JsString BatchView → Option BatchView
seen_latest (err message) = none
seen_latest (ok batch) = if batch.submitted_at == 0 then none else some batch

abbrev pub is_rejected : Option BatchView → Bool
is_rejected none = false
is_rejected (some b) = str_eq b.status (js "rejected")

-- A batch of a lower index that is submitted or challenged.
abbrev pub WaitsBefore : ℕ → BatchView → Type 0
WaitsBefore latest b =
    (b.batch_index < latest) × ((b.status ≡ js "submitted") ⊎ (b.status ≡ js "challenged"))

waits_iff :
    (latest : ℕ) (b : BatchView) → (is_pending_before latest b ≡ true) ↔ WaitsBefore latest b
waits_iff latest b = (there, back)
  where
    there : is_pending_before latest b ≡ true → WaitsBefore latest b
    there h = elim (Bool-cases (str_eq b.status (js "submitted"))) [
      | inl s ↦ (ground arith, inl (str_eq→eq b.status (js "submitted") s))
      | inr n ↦ (ground arith, inr (str_eq→eq b.status (js "challenged") (ground arith)))
    ]

    back : WaitsBefore latest b → is_pending_before latest b ≡ true
    back (lower, inl e) = rw e (ground arith)
    back (lower, inr e) = rw e (ground arith)

module _ (reads : HealthReads) (options : HealthOptions) where
  -- What the window's part adds to what was known of the batch.
  window_lem :
      (rollup : RollupView) (batch : BatchView) (tip : Option ChainTip)
      (before after : RollupHealth)
      → with_window reads options rollup batch tip before ≡ ok after
      → (after.healthy ≡ before.healthy)
        × (after.has_batches ≡ before.has_batches)
        × (blocker_of reads options batch after.challenge_window ≡ ok after.held_back_by)
  unfolding with_window
  window_lem rollup batch tip before after h =
      let (secs, e, h1) =
        >>=-eq-ok
          (window_secs_of options.challenge_window_secs rollup.challenge_window_sec
            reads.default_challenge_window)
          _ h in
      let (blocker, found, h2) =
        >>=-eq-ok (blocker_of reads options batch (window_at batch secs tip)) _ h1 in
      let same : windowed reads options rollup batch before (window_at batch secs tip) blocker
          ≡ after =
        ok-injective h2 in
      (
        ap RollupHealth.healthy (sym same),
        ap RollupHealth.has_batches (sym same),
        subst
            (λ (t : RollupHealth).
              blocker_of reads options batch t.challenge_window ≡ ok t.held_back_by)
            same found,
      )

  batch_lem :
      (rollup : RollupView) (batch : BatchView) (before after : RollupHealth)
      → before.held_back_by ≡ none
      → with_batch reads options rollup batch before ≡ ok after
      → (after.healthy ≡ (before.healthy && not (str_eq batch.status (js "rejected"))))
        × (after.has_batches ≡ true)
        × ((after.held_back_by ≡ none)
            ⊎ (blocker_of reads options batch after.challenge_window ≡ ok after.held_back_by))
  unfolding with_batch
  batch_lem rollup batch before after free h =
      let tip = tip_of options.tip options.now_secs reads.get_chain_tip in
      let known = aged reads options batch tip before in
      elim (Bool-cases (is_unsettled batch)) [
        | inl unsettled ↦
            let ran : with_window reads options rollup batch tip.0 known ≡ ok after =
              ground arith in
            let (a, b, c) = window_lem rollup batch tip.0 known after ran in (a, b, inr c)
        | inr settled ↦
            let done : ◌≡◌ {A = Result JsString RollupHealth} (ok known) (ok after) =
              ground arith in
            let same = ok-injective done in
            (
              ap RollupHealth.healthy (sym same),
              ap RollupHealth.has_batches (sym same),
              inl (ap RollupHealth.held_back_by (sym same) ∙ free),
            )
      ]

  -- What a held-back batch means: the latest batch's window has passed, the chain settles in order,
  -- and the batch named is, of the batches read, the one of least index that is still unsettled.
  pub record HeldBack (batch : BatchView) (health : RollupHealth) (index : ℕ) (status : JsString)
      : Type 0 where
    pub batches : List BatchView
    pub oldest : BatchView
    pub is_submitted : str_eq batch.status (js "submitted") ≡ true
    pub window_passed : is_finalizable health.challenge_window ≡ true
    pub in_order : reads.challenge_settlement_enabled ≡ ok true
    pub batches_read :
        reads.list_batches (batch.batch_index - max_pending_optimistic_batches) ≡ ok batches
    pub among : Among oldest batches
    pub unsettled : WaitsBefore batch.batch_index oldest
    pub named : (oldest.batch_index ≡ index) × (oldest.status ≡ status)
    pub least :
        (b : BatchView) → Among b batches → WaitsBefore batch.batch_index b → index ≤ b.batch_index

  held_lem :
      (batch : BatchView) (health : RollupHealth) (index : ℕ) (status : JsString)
      → blocker_of reads options batch health.challenge_window ≡ ok (some (index, status))
      → HeldBack batch health index status
  unfolding blocker_of oldest_unsettled_before
  held_lem batch health index status h =
      elim (Bool-cases
        (str_eq batch.status (js "submitted") && is_finalizable health.challenge_window)) [
          | inr no_ ↦ absurd (ground arith)
          | inl passed ↦
              let asked : (reads.challenge_settlement_enabled >>= λ (enabled : Bool).
              if enabled
              then oldest_unsettled_before reads.list_batches batch.batch_index
              else ok none)
                  ≡ ok (some (index, status)) =
                ground arith in
              let (enabled, on, h1) = >>=-eq-ok reads.challenge_settlement_enabled _ asked in
              enabled_lem passed enabled on h1
        ]
    where
      found_lem :
          (str_eq batch.status (js "submitted") && is_finalizable health.challenge_window) ≡ true
          → reads.challenge_settlement_enabled ≡ ok true
          → (batches : List BatchView)
          → reads.list_batches (batch.batch_index - max_pending_optimistic_batches) ≡ ok batches
          → oldest_of batch.batch_index batches ≡ some (index, status)
          → HeldBack batch health index status
      found_lem passed on batches read e = elim (oldest_of_cases batch.batch_index batches) [
        | inl (none_, rest) ↦ absurd (cc (none_, e))
        | inr (m, is_m, among, pending, least) ↦
            let same : (m.batch_index ≡ index) × (m.status ≡ status) = ground (arith, is_m, e) in
            record {
              batches = batches;
              oldest = m;
              is_submitted = ground arith;
              window_passed = ground arith;
              in_order = on;
              batches_read = read;
              among = among;
              unsettled = (waits_iff batch.batch_index m).0 pending;
              named = same;
              least = λ b a p.
                  subst (λ (t : ℕ). t ≤ b.batch_index) same.0
                    (least b a ((waits_iff batch.batch_index b).1 p));
            }
      ]

      enabled_lem :
          (str_eq batch.status (js "submitted") && is_finalizable health.challenge_window) ≡ true
          → (enabled : Bool) → reads.challenge_settlement_enabled ≡ ok enabled
          → (if enabled
              then oldest_unsettled_before reads.list_batches batch.batch_index
              else ok none)
            ≡ ok (some (index, status))
          → HeldBack batch health index status
      enabled_lem passed false on e = absurd (cc)
      enabled_lem passed true on e =
          let (batches, read, h2) =
            >>=-eq-ok (reads.list_batches (batch.batch_index - max_pending_optimistic_batches)) _
              e in
          found_lem passed on batches read (ok-injective h2)

  Says : RollupView → Option BatchView → RollupHealth → Type 0
  Says rollup latest health =
      (health.healthy ≡ (str_eq rollup.status (js "active") && not (is_rejected latest)))
      × (health.has_batches ≡ is_some latest)
      × ((index : ℕ) (status : JsString)
          → health.held_back_by ≡ some (index, status)
          → (batch : BatchView) × (latest ≡ some batch) × HeldBack batch health index status)

  unbatched :
      (rollup : RollupView) (rollup_id : JsString) (notes : List HealthNote) (health : RollupHealth)
      → record (initial_health reads options rollup_id rollup) { notes = notes } ≡ health
      → Says rollup none health
  unfolding Says
  unbatched rollup rollup_id notes health e = (
    ap RollupHealth.healthy (sym e) ∙ and_true (str_eq rollup.status (js "active")),
    ap RollupHealth.has_batches (sym e),
    λ index status held. absurd (cc (ap RollupHealth.held_back_by e, held)),
  )
    where
      and_true : (b : Bool) → b ≡ (b && true)
      and_true true = refl
      and_true false = refl

  batched :
      (rollup : RollupView) (rollup_id : JsString) (batch : BatchView) (health : RollupHealth)
      → with_batch reads options rollup batch (initial_health reads options rollup_id rollup)
        ≡ ok health
      → Says rollup (some batch) health
  unfolding Says
  batched rollup rollup_id batch health h =
      let (flag, has, held) =
        batch_lem rollup batch (initial_health reads options rollup_id rollup) health refl h in
      (
        flag,
        has,
        λ index status e.
            (batch, refl, held_lem batch health index status (blocked held index status e)),
      )
    where
      blocked :
          (health.held_back_by ≡ none)
            ⊎ (blocker_of reads options batch health.challenge_window ≡ ok health.held_back_by)
          → (index : ℕ) (status : JsString) → health.held_back_by ≡ some (index, status)
          → blocker_of reads options batch health.challenge_window ≡ ok (some (index, status))
      blocked (inl free) index status e = absurd (cc (free, e))
      blocked (inr found) index status e = found ∙ ap ok e

  latest-Says :
      (rollup : RollupView) (rollup_id : JsString) (latest : Result JsString BatchView)
      (health : RollupHealth)
      → with_latest reads options rollup (initial_health reads options rollup_id rollup) latest
        ≡ ok health
      → Says rollup (seen_latest latest) health
  latest-Says rollup rollup_id (err message) health h =
      unbatched rollup rollup_id _ health (ok-injective h)
  latest-Says rollup rollup_id (ok batch) health h = elim (Bool-cases (batch.submitted_at == 0)) [
    | inl never ↦
        let first = initial_health reads options rollup_id rollup in
        let notes = first.notes ++ no_batches ∷ [] in
        let done : ◌≡◌ {A = Result JsString RollupHealth} (ok (record first { notes = notes }))
            (ok health) =
          ground arith in
        rw never (unbatched rollup rollup_id notes health (ok-injective done))
    | inr seen ↦ rw seen (batched rollup rollup_id batch health (ground arith))
  ]

-- The latest batch is seen where its read succeeds and names a height of submission other than 0; a read
-- that fails counts as no batch. A rollup is healthy exactly when it is active and no rejected latest
-- batch is seen. A batch that is named as holding the latest back has, of the batches that the node
-- lists from 4096 before the latest on, the least index below the latest's among those submitted or
-- challenged; the latest is seen, submitted, its own window has passed, and the chain settles in order.
pub get_rollup_health_says :
    (reads : HealthReads) (options : HealthOptions) (rollup_id : JsString) (health : RollupHealth)
    → get_rollup_health reads options rollup_id ≡ ok health
    → (rollup : RollupView) × (reads.get_rollup ≡ ok rollup)
      × (health.healthy ≡ (
          str_eq rollup.status (js "active")
          && not (is_rejected (seen_latest reads.get_latest_batch))))
      × (health.has_batches ≡ is_some (seen_latest reads.get_latest_batch))
      × ((index : ℕ) (status : JsString)
          → health.held_back_by ≡ some (index, status)
          → (batch : BatchView) × (seen_latest reads.get_latest_batch ≡ some batch)
            × HeldBack reads options batch health index status)
unfolding get_rollup_health Says
get_rollup_health_says reads options rollup_id health h =
    let (rollup, read, h1) = >>=-eq-ok reads.get_rollup _ h in
    let says = latest-Says reads options rollup rollup_id reads.get_latest_batch health h1 in
    (rollup, read, says.0, says.1, says.2)
