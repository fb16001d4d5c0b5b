-- ===== src/Preflight/Ready.antt =====
-- When the preflight passes.
use qorechain_rdk.Prelude.{
  &&_both, ◌≡◌, refl, sym, ap, ◌∙◌, subst, ◌↔◌, inl, inr, Bool, true, false, ◌&&◌, Option, none,
  some, List, [], ◌∷◌, ◌++◌, arith, leb→le, Bool-cases, Result, ok, err, ok-injective,
}
use qorechain_rdk.Prelude.Int.{leb_ℤ, ◌≤ℤ◌, ℤ}
use qorechain_rdk.Config.{ConfigWarning, validate_rollup_config, RollupConfig}
use qorechain_rdk.Preflight.Run.{
  balance_checks, signer_present, balance_check, signer_checks, check_preflight, not_failed,
  read_funds, Funds, none_failed,
}
use qorechain_rdk.Text.{is_empty, JsString}
use qorechain_rdk.Preflight.{
  PreflightOptions, warned, status_ok, status_warn, status_fail, params_checks, rest_reached,
  rest_failed, ReadFailure, rest_checks, config_checks, in_qor, StakeParams, network_checks,
  PreflightClient, PreflightCheck,
}
use qorechain_rdk.Preflight.Funds.{Covers, funds_cover}

none_failed-append :
    (a b : List PreflightCheck) → none_failed (a ++ b) ≡ (none_failed a && none_failed b)
none_failed-append [] b = refl
none_failed-append (c ∷ a) b = ground (arith, none_failed-append a b)

network_never_fails :
    (client : PreflightClient) (expected : Option JsString)
    → none_failed (network_checks client expected) ≡ true
network_never_fails client none = refl
network_never_fails client (some expected) = ground arith

-- The node gives the parameters, and their stake is an amount of uqor.
abbrev pub IsReadable : Result JsString StakeParams → Type 0
IsReadable params =
    (read : StakeParams) × (min_stake : JsString) × (params ≡ ok read)
    × (in_qor read.min_stake_for_rollup ≡ ok min_stake)

abbrev pub IsAccepted : Option RollupConfig → Type 0
IsAccepted given =
    (config : RollupConfig) → given ≡ some config → (validate_rollup_config config).valid ≡ true

-- Where the node gives the parameters and a signer is named, its balance covers the stake and the fees.
abbrev pub IsCovered :
    (JsString → Option ℤ)
    → PreflightClient
    → Result JsString StakeParams
    → Option JsString
    → Option JsString
    → Type 0
IsCovered big client params buffer signer =
    (read : StakeParams) (address : JsString)
    → params ≡ ok read
    → signer ≡ some address
    → is_empty address ≡ false
    → Covers big client read buffer address

clash :
    (params : StakeParams) (x : ReadFailure)
    → in_qor params.min_stake_for_rollup ≡ err x
    → (read : StakeParams) (q : JsString) → params ≡ read
    → in_qor read.min_stake_for_rollup ≡ ok q
    → none_failed (rest_failed x ∷ []) ≡ true
clash params x e read q h k =
    let same : in_qor params.min_stake_for_rollup ≡ ok q =
      ap (λ p. in_qor p.min_stake_for_rollup) h ∙ k in
    absurd cc

rest_ready :
    (client : PreflightClient) (r : Result JsString StakeParams)
    → (none_failed (rest_checks client r).0 ≡ true) ↔ IsReadable r
rest_ready client (err e) = (λ h. ground (arith, h), λ (read, q, h, k). absurd cc)
rest_ready client (ok params) = by_text (in_qor params.min_stake_for_rollup) refl
  where
    by_text :
        (t : Result ReadFailure JsString)
        → in_qor params.min_stake_for_rollup ≡ t
        → ((not_failed (rest_reached client) && none_failed (params_checks params t)) ≡ true)
          ↔ IsReadable (ok params)
    by_text (ok q) e = (λ h. (params, q, refl, e), λ readable. refl)
    by_text (err x) e =
        (λ h. ground (arith, h), λ (read, q, h, k). clash params x e read q (ok-injective h) k)

by_warnings :
    (ws : List ConfigWarning)
    → (elim (warned ws).0 [ status_ok ↦ true | status_warn ↦ true | status_fail ↦ false ] && true)
      ≡ true
by_warnings [] = refl
by_warnings (w ∷ ws) = refl

config_ready :
    (given : Option RollupConfig) → (none_failed (config_checks given) ≡ true) ↔ IsAccepted given
config_ready none = (λ h c k. absurd cc, λ h. refl)
config_ready (some config) = elim (Bool-cases (validate_rollup_config config).valid) [
  | inl v ↦
      (λ h c k. ap (λ c. (validate_rollup_config c).valid) (sym (some_same k)) ∙ v, λ h. passes v)
  | inr v ↦
      (λ h. absurd (ground (arith, fails v, h)), λ h. absurd (ground (arith, v, h config refl)))
]
  where
    some_same : {c d : RollupConfig} → ◌≡◌ {A = Option RollupConfig} (some c) (some d) → c ≡ d
    some_same same = cc

    passes :
        (validate_rollup_config config).valid ≡ true
        → none_failed (config_checks (some config)) ≡ true
    passes v = rw v (by_warnings (validate_rollup_config config).warnings)

    fails :
        (validate_rollup_config config).valid ≡ false
        → none_failed (config_checks (some config)) ≡ false
    fails v = rw v refl

balance_ready :
    (r : Result ReadFailure Funds)
    → (none_failed (balance_check r ∷ []) ≡ true)
      ↔ ((funds : Funds) → r ≡ ok funds → funds.required ≤ℤ funds.balance)
unfolding balance_check
balance_ready (err e) = (λ h f k. absurd cc, λ h. refl)
balance_ready (ok funds) = elim (Bool-cases (leb_ℤ funds.required funds.balance)) [
  | inl covered ↦ (
    λ h f k. subst (λ f. f.required ≤ℤ f.balance) (ok-injective k) (leb→le _ _ covered),
    λ h. rw covered refl,
  )
  | inr short ↦ (
    λ h.
        let no : none_failed (balance_check (ok funds) ∷ []) ≡ false = rw short refl in
        absurd (ground (arith, no, h)),
    λ h. absurd (ground (arith, h funds refl, short)),
  )
]

signer_ready :
    (big : JsString → Option ℤ) (client : PreflightClient) (buffer : Option JsString)
    (r : Result JsString StakeParams) (signer : Option JsString)
    → (none_failed (signer_checks big client buffer (rest_checks client r).1 signer) ≡ true)
      ↔ IsCovered big client r buffer signer
signer_ready big client buffer r none = (λ h p a e k. absurd cc, λ h. refl)
signer_ready big client buffer r (some address) = elim (Bool-cases (is_empty address)) [
  | inl missing ↦ (
    λ h p a e k present. absurd (ground (arith, missing, ap is_empty (some_same k) ∙ present)),
    λ h. rw missing refl,
  )
  | inr present ↦ rw present (named present r)
]
  where
    some_same : {a b : JsString} → ◌≡◌ {A = Option JsString} (some a) (some b) → a ≡ b
    some_same same = cc

    named :
        is_empty address ≡ false
        → (r : Result JsString StakeParams)
        → (none_failed (
              signer_present address
              ∷ balance_checks big client buffer address (rest_checks client r).1)
            ≡ true)
          ↔ IsCovered big client r buffer (some address)
    named present (err e) = (λ h p a same. absurd cc, λ h. refl)
    named present (ok params) =
        let ready = balance_ready (read_funds big client params buffer address) in
        let cover = funds_cover big client params buffer address in
        (
          λ h p a same k present_.
              subst (λ (p' : StakeParams). Covers big client p' buffer a) (ok-injective same)
                (subst (λ (a' : JsString). Covers big client params buffer a') (some_same k)
                  (cover.0 (ready.0 h))),
          λ h. ready.1 (cover.1 (h params address refl refl present)),
        )

regroup : (a b c : Bool) → (((a && true) && b) && c) ≡ (a && (b && c))
regroup true b c = refl
regroup false b c = refl

passed_parts :
    (big : JsString → Option ℤ) (client : PreflightClient) (options : PreflightOptions)
    → (check_preflight big client options).passed ≡ (
        none_failed (rest_checks client client.params).0
        && (none_failed (config_checks options.config)
            && none_failed (
                signer_checks big client options.fee_buffer_uqor
                  (rest_checks client client.params).1
                  options.signer_address)))
unfolding check_preflight
passed_parts big client options =
    rw
      (
        none_failed-append,
        none_failed-append,
        none_failed-append,
        network_never_fails client options.expected_network,
      )
      (regroup (none_failed (rest_checks client client.params).0)
        (none_failed (config_checks options.config))
        (none_failed (
          signer_checks big client options.fee_buffer_uqor (rest_checks client client.params).1
            options.signer_address)))

-- The preflight passes exactly when the node gives its parameters with a stake that is an amount, the
-- configuration that is given, if any, is valid, and, where a signer is named that is not empty, the
-- node gives its balance and all amounts are integers and can be shown in qor, the balance is at least the
-- stake and the fees together; the fees are the buffer given, else 1000000 uqor.
pub check_preflight_passes_iff :
    (big : JsString → Option ℤ) (client : PreflightClient) (options : PreflightOptions)
    → ((check_preflight big client options).passed ≡ true) ↔ (
        IsReadable client.params
        × IsAccepted options.config
        × IsCovered big client client.params options.fee_buffer_uqor options.signer_address)
check_preflight_passes_iff big client options =
    let parts = passed_parts big client options in
    let readable = rest_ready client client.params in
    let accepted = config_ready options.config in
    let covered =
      signer_ready big client options.fee_buffer_uqor client.params options.signer_address in
    (
      λ h.
          let first =
            &&_both (none_failed (rest_checks client client.params).0)
              (none_failed (config_checks options.config)
                && none_failed (
                    signer_checks big client options.fee_buffer_uqor
                      (rest_checks client client.params).1 options.signer_address))
              (sym parts ∙ h) in
          let second =
            &&_both (none_failed (config_checks options.config))
              (none_failed (
                signer_checks big client options.fee_buffer_uqor
                  (rest_checks client client.params).1 options.signer_address))
              (first.1) in
          (readable.0 first.0, accepted.0 second.0, covered.0 second.1),
      λ (r, a, c). rw (parts, readable.1 r, accepted.1 a, covered.1 c) refl,
    )
