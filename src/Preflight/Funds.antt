-- ===== src/Preflight/Funds.antt =====
-- The balance check of packages/ts/src/preflight/index.ts: what it compares, and when it can.
use qorechain_rdk.Prelude.{
  ◌≡◌, refl, sym, ap, ◌∙◌, subst, ◌↔◌, Option, none, some, Result, ok, err, ok-injective, >>=-eq-ok,
}
use qorechain_rdk.Prelude.Int.{◌+ℤ◌, ◌≤ℤ◌, ℤ}
use qorechain_rdk.Preflight.Run.{fee_buffer, print_big, integer, read_funds, Funds}
use mathlib.Core.Option.{get_or}
use qorechain_rdk.Text.{js, JsString}
use qorechain_rdk.Preflight.{
  not_integer, node_failed, plainly, in_qor, StakeParams, PreflightClient,
}

-- The address has at least the stake and the fees, 1000000 uqor where no buffer is given, if the node gives
-- its balance, all three are integers, and balance and sum can be shown in qor.
abbrev pub Covers :
    (JsString → Option ℤ) → PreflightClient → StakeParams → Option JsString → JsString → Type 0
Covers big client params buffer address =
    (bal have_text need_text : JsString) (stake fees have : ℤ)
    → client.get_balance address ≡ ok bal
    → big params.min_stake_for_rollup ≡ some stake
    → big (get_or buffer (js "1000000")) ≡ some fees
    → big bal ≡ some have
    → in_qor bal ≡ ok have_text
    → in_qor (print_big (stake +ℤ fees)) ≡ ok need_text
    → stake +ℤ fees ≤ℤ have

integer-ok :
    (big : JsString → Option ℤ) (t : JsString) (v : ℤ) → integer big t ≡ ok v → big t ≡ some v
integer-ok big t v h = by_value (big t) h
  where
    by_value :
        (o : Option ℤ) → elim o [ none ↦ err (not_integer t) | some w ↦ ok w ] ≡ ok v → o ≡ some v
    by_value none e = absurd (cc)
    by_value (some w) e = ap some (ok-injective e)

ok-integer :
    (big : JsString → Option ℤ) (t : JsString) (v : ℤ) → big t ≡ some v → integer big t ≡ ok v
ok-integer big t v h = rw (h, integer) refl

plainly-ok :
    (r : Result JsString JsString) (bal : JsString) → plainly node_failed r ≡ ok bal → r ≡ ok bal
plainly-ok (err e) bal h = absurd (cc)
plainly-ok (ok b) bal h = ap ok (ok-injective h)

buffer_same : (buffer : Option JsString) → fee_buffer buffer ≡ get_or buffer (js "1000000")
buffer_same none = refl
buffer_same (some b) = refl

pub funds_cover :
    (big : JsString → Option ℤ) (client : PreflightClient) (params : StakeParams)
    (buffer : Option JsString) (address : JsString)
    → ((funds : Funds)
        → read_funds big client params buffer address ≡ ok funds
        → funds.required ≤ℤ funds.balance)
      ↔ Covers big client params buffer address
unfolding read_funds
funds_cover big client params buffer address = (there, back)
  where
    there :
        ((funds : Funds)
          → read_funds big client params buffer address ≡ ok funds
          → funds.required ≤ℤ funds.balance)
        → Covers big client params buffer address
    there h bal have_text need_text stake fees have b s f v q n =
        h
          (record {
            balance = have;
            required = stake +ℤ fees;
            have_qor = have_text;
            need_qor = need_text;
          })
          (rw
            (
              ap (plainly node_failed) b,
              ok-integer big params.min_stake_for_rollup stake s,
              ok-integer big (fee_buffer buffer) fees (ap big (buffer_same buffer) ∙ f),
              ok-integer big bal have v,
              q,
              n,
            )
            refl)

    back :
        Covers big client params buffer address
        → (funds : Funds) → read_funds big client params buffer address ≡ ok funds
        → funds.required ≤ℤ funds.balance
    back covers funds h =
        let (bal, e1, h1) = >>=-eq-ok (plainly node_failed (client.get_balance address)) _ h in
        let (stake, e2, h2) = >>=-eq-ok (integer big params.min_stake_for_rollup) _ h1 in
        let (fees, e3, h3) = >>=-eq-ok (integer big (fee_buffer buffer)) _ h2 in
        let (have, e4, h4) = >>=-eq-ok (integer big bal) _ h3 in
        let (have_text, e5, h5) = >>=-eq-ok (in_qor bal) _ h4 in
        let (need_text, e6, h6) = >>=-eq-ok (in_qor (print_big (stake +ℤ fees))) _ h5 in
        subst (λ (f : Funds). f.required ≤ℤ f.balance) (ok-injective h6)
          (covers bal have_text need_text stake fees have
            (plainly-ok (client.get_balance address) bal e1)
            (integer-ok big params.min_stake_for_rollup stake e2)
            (ap big (sym (buffer_same buffer)) ∙ integer-ok big (fee_buffer buffer) fees e3)
            (integer-ok big bal have e4) e5 e6)
