-- ===== src/Rules/Withdrawals.antt =====
-- What the withdrawal, root and stop rules let through.
use qorechain_rdk.Prelude.{
  unless_and, ◌*◌, ℕ, suc, ◌≡◌, refl, sym, ap, ◌∙◌, ◌↔◌, ◌⊎◌, inl, inr, Bool, true, false, not,
  ◌&&◌, ◌||◌, Option, none, some, List, [], ◌∷◌, arith, leb, ◌==◌, if◌then◌else◌, Bool-cases,
  length, ok, ok-injective,
}
use qorechain_rdk.Bytes.Hex.RoundTrip.{hex_to_bytes_iff}
use qorechain_rdk.Bytes.{Bytes}
use qorechain_rdk.Lifecycle.{is_batch_final, BatchStatus}
use mathlib.Core.Option
use qorechain_rdk.Lifecycle
use qorechain_rdk.Text.{JsString, str_eq, is_empty}
use qorechain_rdk.Bytes.Hex.{strip_0x, hex_text, raw, to_bytes, BytesInput}
use qorechain_rdk.Rules.{
  twice_length, WithdrawalsRootError, too_deep, not_positive, other_denom, bad_recipient,
  empty_rollup_id, bad_submitter, double_length, js, stop_rollup_error, withdrawals_root_error,
  withdrawal_errors, WithdrawalForValidation, byte_length, level_errors, proof_of, is_positive,
  rollup_escrow_denom, max_withdrawal_proof_depth, is_32,
}

-- Every sibling is 32 bytes, raw or in hexadecimal.
abbrev pub are_levels : List BytesInput → Bool
are_levels [] = true
are_levels (s ∷ proof) = is_32 (byte_length s) && are_levels proof

-- All that the chain checks first.
abbrev pub is_payable : (JsString → Bool) → WithdrawalForValidation → Bool
is_payable is_bech32 w =
    is_bech32 w.submitter
    && (not (is_empty w.rollup_id)
        && (is_bech32 w.recipient
            && (str_eq w.denom rollup_escrow_denom
                && (is_positive w.amount
                    && (leb (length (proof_of w.proof)) max_withdrawal_proof_depth
                        && are_levels (proof_of w.proof))))))

level_errors_nil :
    (i : ℕ) (proof : List BytesInput) → (level_errors i proof ≡ []) ↔ (are_levels proof ≡ true)
unfolding level_errors
level_errors_nil i [] = (λ h. refl, λ h. refl)
level_errors_nil i (s ∷ proof) =
    let (there, back) = level_errors_nil (suc i) proof in
    elim (Bool-cases (is_32 (byte_length s))) [
      | inl h ↦ rw h (there, back)
      | inr h ↦ rw h (λ x. cc, λ x. cc)
    ]

-- The chain's first checks of a withdrawal find nothing exactly when submitter and recipient are
-- addresses, a rollup is named, the denomination is the escrow's, the amount is a positive integer, and
-- the proof has at most 64 levels, each of 32 bytes.
pub withdrawal_errors_iff :
    (is_bech32 : JsString → Bool) (w : WithdrawalForValidation)
    → (withdrawal_errors is_bech32 w ≡ []) ↔ (is_payable is_bech32 w ≡ true)
unfolding withdrawal_errors
withdrawal_errors_iff is_bech32 w =
    let proof = proof_of w.proof in
    let deep = leb (length proof) max_withdrawal_proof_depth in
    unless_and (is_bech32 w.submitter) bad_submitter (
      unless_and (not (is_empty w.rollup_id)) empty_rollup_id (
        unless_and (is_bech32 w.recipient) bad_recipient (
          unless_and (str_eq w.denom rollup_escrow_denom) other_denom (
            unless_and (is_positive w.amount) not_positive
              (unless_and deep (too_deep (length proof)) (level_errors_nil 0 proof))))))

-- The wire name of a batch status.
abbrev pub status_text : BatchStatus → JsString
status_text Lifecycle.submitted = js "submitted"
status_text Lifecycle.challenged = js "challenged"
status_text Lifecycle.finalized = js "finalized"
status_text Lifecycle.rejected = js "rejected"

same_final :
    (s t : BatchStatus)
    → ◌≡◌ {A = Option BatchStatus} (some s) (some t)
    → is_batch_final t ≡ true
    → is_batch_final s ≡ true
same_final s t e f = let same : s ≡ t = cc in rw same f

waits :
    (s : BatchStatus)
    → is_batch_final s ≡ false
    → ¬ (
        (◌≡◌ {A = Option BatchStatus} (some s) none)
        ⊎ ((t : BatchStatus) × (◌≡◌ {A = Option BatchStatus} (some s) (some t))
            × (is_batch_final t ≡ true)))
waits s h (inl e) = cc
waits s h (inr (t, e, f)) = cc (h, same_final s t e f)

-- A rollup may be stopped exactly when it has no batch yet or its latest batch has a final status.
pub stop_rollup_error_iff :
    (latest : Option BatchStatus)
    → (stop_rollup_error (Option.map status_text latest) ≡ none)
      ↔ ((latest ≡ none) ⊎ ((s : BatchStatus) × (latest ≡ some s) × (is_batch_final s ≡ true)))
unfolding stop_rollup_error is_batch_final
stop_rollup_error_iff none = (λ h. inl refl, λ h. refl)
stop_rollup_error_iff (some Lifecycle.submitted) =
    (λ h. cc, λ h. absurd (waits Lifecycle.submitted refl h))
stop_rollup_error_iff (some Lifecycle.challenged) =
    (λ h. cc, λ h. absurd (waits Lifecycle.challenged refl h))
stop_rollup_error_iff (some Lifecycle.finalized) =
    (λ h. inr (Lifecycle.finalized, refl, refl), λ h. refl)
stop_rollup_error_iff (some Lifecycle.rejected) =
    (λ h. inr (Lifecycle.rejected, refl, refl), λ h. refl)

halves :
    (m n : ℕ)
    → m ≡ 2 * n
    → (◌≡◌ {A = Option WithdrawalsRootError}
        (if m == 0 || m == 64 then none else some (twice_length m))
        none)
      ↔ ((n ≡ 0) ⊎ (n ≡ 32))
halves m n h = ground arith

-- A withdrawals root that can be read is acceptable exactly when it is empty or 32 bytes long, the
-- lengths that the v2 transition root takes.
pub withdrawals_root_error_iff :
    (root : BytesInput) (b : Bytes)
    → to_bytes root ≡ ok b
    → (withdrawals_root_error (some root) ≡ none) ↔ ((length b ≡ 0) ⊎ (length b ≡ 32))
unfolding withdrawals_root_error double_length to_bytes
withdrawals_root_error_iff (raw c) b e =
    let same = ok-injective e in halves (2 * length c) (length b) (ap (λ x. 2 * length x) same)
withdrawals_root_error_iff (hex_text s) b e = elim (hex_to_bytes_iff s) [
  | inl (even, bs, read, back) ↦
      let same = ok-injective (sym read ∙ e) in
      halves (length (strip_0x s)) (length b) (sym back.2 ∙ ap (λ x. 2 * length x) same)
  | inr (odd, read) ↦ absurd (cc (read, e))
]
