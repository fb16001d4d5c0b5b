-- ===== src/Amounts/Cost.antt =====
-- `estimateCreationCost` of packages/ts/src/utils/economics.ts: what is burned of a stake.
use qorechain_rdk.Prelude.{
  ◌+◌, ◌-◌, ◌*◌, ◌/◌, ◌^◌, ◌≤◌, ◌<◌, ℕ, ◌≡◌, refl, sym, ap, ◌∙◌, inl, inr, true, false, some, ◌++◌,
  arith, Bool-cases, length, ok, err, ok-injective,
}
use qorechain_rdk.Text.{JsString}
use native.Mathlib.Nat.{div-add-mod', div-le_of_le-mul, mul-le-mul_left, mod-lt, one-le-pow}
use qorechain_rdk.Prelude.Int.{eq_of_parts, int_laws, ◌-ℤ◌, pos}
use qorechain_rdk.Amounts.{
  invalid_amount, is_decimal_parts, to_big_int, CreationCost, big_int, fraction_of, UqorAmount,
  mul_decimal_floor, estimate_creation_cost, split_point,
}

-- The digits of a decimal, without its point, and how many stand behind it.
abbrev pub scaled : JsString → ℕ
scaled decimal = big_int ((split_point decimal).0 ++ fraction_of (split_point decimal).1)

abbrev pub places : JsString → ℕ
places decimal = length (fraction_of (split_point decimal).1)

burn_floor : (n p : ℕ) → 0 < p → (n / p * p ≤ n) × (n < (n / p + 1) * p)
burn_floor n p pos_p =
    (omega (arith, div-add-mod' n p), omega (arith, div-add-mod' n p, mod-lt n pos_p))

burn_within : (stake d p : ℕ) → 0 < p → d ≤ p → stake * d / p ≤ stake
burn_within stake d p pos_p small = div-le_of_le-mul p (omega (arith, mul-le-mul_left stake small))

mul_read :
    (stake : ℕ) (rate : JsString)
    → is_decimal_parts (split_point rate) ≡ true
    → mul_decimal_floor (pos stake) rate ≡ ok (pos (stake * scaled rate / 10 ^ places rate))
unfolding mul_decimal_floor
mul_read stake rate decimal = rw decimal refl

mul_refused :
    (stake : ℕ) (rate : JsString)
    → is_decimal_parts (split_point rate) ≡ false
    → mul_decimal_floor (pos stake) rate ≡ err invalid_amount
unfolding mul_decimal_floor
mul_refused stake rate other = rw other refl

abbrev costed : ℕ → ℕ → JsString → CreationCost
costed stake burn rate = record {
  stake_uqor = pos stake;
  burn_uqor = pos burn;
  net_stake_uqor = pos stake -ℤ pos burn;
  total_required_uqor = pos stake;
  burn_rate = rate;
}

cost_made :
    (amount : UqorAmount) (stake : ℕ) (rate : JsString) (cost : CreationCost)
    → to_big_int amount ≡ ok (pos stake)
    → estimate_creation_cost amount (some rate) ≡ ok cost
    → cost ≡ costed stake (stake * scaled rate / 10 ^ places rate) rate
unfolding estimate_creation_cost
cost_made amount stake rate cost read h = elim (Bool-cases (is_decimal_parts (split_point rate))) [
  | inl decimal ↦
      let made : estimate_creation_cost amount (some rate)
          ≡ ok (costed stake (stake * scaled rate / 10 ^ places rate) rate) =
        rw (read, mul_read stake rate decimal) refl in
      ok-injective (sym h ∙ made)
  | inr other ↦
      let refused : estimate_creation_cost amount (some rate) ≡ err invalid_amount =
        rw (read, mul_refused stake rate other) refl in
      absurd (cc (sym h ∙ refused))
]

net_of : (stake burn : ℕ) → burn ≤ stake → (pos stake -ℤ pos burn) ≡ pos (stake - burn)
net_of stake burn fits = eq_of_parts (pos stake -ℤ pos burn) (pos (stake - burn)) (omega int_laws)

-- For a stake that is no negative number, the cost is what is burned, the product with the rate rounded down,
-- and what is left; with a rate of at most 1 neither is negative and they make up the stake.
pub estimate_creation_cost_bounds :
    (amount : UqorAmount) (stake : ℕ) (rate : JsString) (cost : CreationCost)
    → to_big_int amount ≡ ok (pos stake)
    → estimate_creation_cost amount (some rate) ≡ ok cost
    → (burn : ℕ) × (cost.burn_uqor ≡ pos burn)
      × (burn * 10 ^ places rate ≤ stake * scaled rate)
      × (stake * scaled rate < (burn + 1) * 10 ^ places rate)
      × (scaled rate ≤ 10 ^ places rate
          → (net : ℕ) × (cost.net_stake_uqor ≡ pos net) × (burn + net ≡ stake))
estimate_creation_cost_bounds amount stake rate cost read h =
    let made = cost_made amount stake rate cost read h in
    let pos_p : 0 < 10 ^ places rate = one-le-pow (places rate) 10 (omega arith) in
    let burn = stake * scaled rate / 10 ^ places rate in
    let floor = burn_floor (stake * scaled rate) (10 ^ places rate) pos_p in
    (
      burn,
      ap (λ (c : CreationCost). c.burn_uqor) made,
      floor.0,
      floor.1,
      λ small.
          let fits = burn_within stake (scaled rate) (10 ^ places rate) pos_p small in
          (
            stake - burn,
            ap (λ (c : CreationCost). c.net_stake_uqor) made ∙ net_of stake burn fits,
            omega (arith, fits),
          ),
    )
