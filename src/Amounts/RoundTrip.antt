-- ===== src/Amounts/RoundTrip.antt =====
-- `uqorToQor` and `qorToUqor`: an amount that is printed in QOR is read back as the same number of uqor.
use qorechain_rdk.Prelude.{
  &&_both, ◌+◌, ◌-◌, ◌*◌, ◌/◌, ◌%◌, ◌^◌, ◌≤◌, ◌<◌, ℕ, zero, suc, ◌≡◌, refl, sym, ap, ◌∙◌, inl, inr,
  true, false, Option, none, some, [], ◌∷◌, ◌++◌, arith, ltb, ◌==◌, ==_iff, Bool-cases, length,
  length-append, replicate, length-replicate, ok, ◌>>=◌,
}
use qorechain_rdk.Text.{is_empty, JsString}
use native.Mathlib.Nat.{div-add-mod', mod-lt, one-le-pow}
use qorechain_rdk.Amounts.{
  uqor_value, UqorAmount, format_qor, uqor_to_qor, drop_zero, to_string, strip_trailing, pad_zeros,
  read_digits, strip_leading, zero_if_empty, pad_end, big_int, qor_to_uqor, fraction_of,
  is_decimal_parts, is_digit, all_digits, split_point,
}
use qorechain_rdk.Amounts.Decimal.{
  print-nonempty, all_digits-print, pad_end-strip_trailing, read_digits-print, length-print,
  read_digits-zeros, read_digits-append_all, read_digits-strip_leading, read_digits-from,
}

digit_is_no_point : (c : ℕ) → is_digit c ≡ true → (c == b'.') ≡ false
digit_is_no_point c h = ground (arith, h)

split_point-digits : (w : JsString) → all_digits w ≡ true → split_point w ≡ (w, none)
unfolding split_point
split_point-digits [] h = refl
split_point-digits (c ∷ w) h =
    let parts = &&_both (is_digit c) (all_digits w) h in
    rw (digit_is_no_point c parts.0, split_point-digits w parts.1) refl

split_point-point :
    (w f : JsString) → all_digits w ≡ true → split_point (w ++ b'.' ∷ f) ≡ (w, some f)
unfolding split_point
split_point-point [] f h = refl
split_point-point (c ∷ w) f h =
    let parts = &&_both (is_digit c) (all_digits w) h in
    rw (digit_is_no_point c parts.0, split_point-point w f parts.1) refl

-- The digits are read with zeros filled up behind them.
qor_to_uqor_of :
    (s : JsString) (e : ℕ) (w : JsString) (frac : Option JsString)
    → split_point s ≡ (w, frac)
    → is_decimal_parts (w, frac) ≡ true
    → length (fraction_of frac) ≤ e
    → (t : JsString) × (qor_to_uqor s e ≡ ok t)
      × (big_int t
          ≡ big_int w * 10 ^ length (pad_end e (fraction_of frac))
            + big_int (pad_end e (fraction_of frac)))
unfolding read_digits
qor_to_uqor_of s e w frac split_ decimal fits =
    let digits = w ++ pad_end e (fraction_of frac) in
    (
      zero_if_empty (strip_leading digits),
      unfold qor_to_uqor in (rw (split_, decimal, no_more) refl),
      value,
    )
  where
    no_more : ltb e (length (fraction_of frac)) ≡ false
    no_more = ground arith

    plain : (t : JsString) → big_int (zero_if_empty t) ≡ big_int t
    plain [] = refl
    plain (c ∷ t) = refl

    value :
        big_int (zero_if_empty (strip_leading (w ++ pad_end e (fraction_of frac))))
        ≡ big_int w * 10 ^ length (pad_end e (fraction_of frac))
          + big_int (pad_end e (fraction_of frac))
    value =
        plain (strip_leading (w ++ pad_end e (fraction_of frac)))
        ∙ read_digits-strip_leading (w ++ pad_end e (fraction_of frac))
        ∙ read_digits-append_all 0 w (pad_end e (fraction_of frac))
        ∙ read_digits-from (big_int w) (pad_end e (fraction_of frac))

read_digits-only_zeros : (n : ℕ) → read_digits 0 (replicate n b'0') ≡ 0
unfolding read_digits
read_digits-only_zeros zero = refl
read_digits-only_zeros (suc n) = read_digits-only_zeros n

all_digits-zeros :
    (n : ℕ) (s : JsString) → all_digits s ≡ true → all_digits (replicate n b'0' ++ s) ≡ true
all_digits-zeros zero s h = h
all_digits-zeros (suc n) s h = all_digits-zeros n s h

-- What is left of digits without the zeros behind them.
all_digits-strip_trailing :
    (s : JsString) → all_digits s ≡ true → all_digits (strip_trailing s) ≡ true
unfolding strip_trailing
all_digits-strip_trailing [] h = h
all_digits-strip_trailing (c ∷ s) h =
    let parts = &&_both (is_digit c) (all_digits s) h in
    one (strip_trailing s) parts.0 (all_digits-strip_trailing s parts.1)
  where
    one :
        (t : JsString) → is_digit c ≡ true → all_digits t ≡ true → all_digits (drop_zero c t) ≡ true
    one [] d h = elim (Bool-cases (c == b'0')) [
      | inl zero_ ↦ rw zero_ refl
      | inr other ↦ rw (other, d) refl
    ]
    one (x ∷ t) d h = rw (d, h) refl

length-strip_trailing : (s : JsString) → length (strip_trailing s) ≤ length s
unfolding strip_trailing
length-strip_trailing [] = omega arith
length-strip_trailing (c ∷ s) = one (strip_trailing s) (length-strip_trailing s)
  where
    one : (t : JsString) → length t ≤ length s → length (drop_zero c t) ≤ suc (length s)
    one [] h = elim (Bool-cases (c == b'0')) [
      | inl zero_ ↦ rw zero_ (omega arith)
      | inr other ↦ rw other (omega arith)
    ]
    one (x ∷ t) h = omega arith

-- The digits behind the point: as many as the exponent says, and their value.

length-fraction_digits : (e r : ℕ) → 0 < e → r < 10 ^ e → length (pad_zeros e (to_string r)) ≡ e
length-fraction_digits e r pos_e small =
    let fits = length-print (suc r) r e pos_e small in
    omega (
      arith,
      length-append {0} (replicate (e - length (to_string r)) b'0') (to_string r),
      length-replicate {A = ℕ} (e - length (to_string r)) b'0',
      fits,
    )

big_int-fraction_digits : (e r : ℕ) → big_int (pad_zeros e (to_string r)) ≡ r
big_int-fraction_digits e r =
    read_digits-zeros (e - length (to_string r)) (to_string r)
    ∙ read_digits-print (suc r) r (omega arith)

fraction_kept :
    (e r : ℕ) → 0 < r → r < 10 ^ e → is_empty (strip_trailing (pad_zeros e (to_string r))) ≡ false
fraction_kept e r pos_r small = go (strip_trailing f0) refl
  where
    f0 : JsString
    f0 = pad_zeros e (to_string r)

    go : (t : JsString) → strip_trailing f0 ≡ t → is_empty t ≡ false
    go (c ∷ t) k = refl
    go [] k =
        let none_left : big_int (pad_end (length f0) []) ≡ 0 =
          read_digits-only_zeros (length f0 - 0) in
        let back : pad_end (length f0) [] ≡ f0 =
          ap (pad_end (length f0)) (sym k) ∙ pad_end-strip_trailing f0 in
        absurd (omega (arith, none_left, ap big_int back, big_int-fraction_digits e r, pos_r))

print_whole : (v e : ℕ) → (v % 10 ^ e == 0) ≡ true → format_qor v e ≡ to_string (v / 10 ^ e)
unfolding format_qor
print_whole v e h = rw h refl

print_part :
    (v e : ℕ)
    → (v % 10 ^ e == 0) ≡ false
    → format_qor v e
      ≡ to_string (v / 10 ^ e) ++ b'.' ∷ strip_trailing (pad_zeros e (to_string (v % 10 ^ e)))
unfolding format_qor
print_part v e h = rw h refl

-- The whole part and the digits behind the point make the amount up.
whole_and_part :
    (v e : ℕ) (f : JsString)
    → length f ≡ e
    → big_int f ≡ v % 10 ^ e
    → big_int (to_string (v / 10 ^ e)) * 10 ^ length f + big_int f ≡ v
whole_and_part v e f same_length part =
    rw (part, same_length, read_digits-print (suc (v / 10 ^ e)) (v / 10 ^ e) (omega arith))
      (div-add-mod' v (10 ^ e))

some_places : (e r : ℕ) → 0 < r → r < 10 ^ e → 0 < e
some_places zero r pos_r small = absurd (omega (arith, pos_r, small))
some_places (suc e) r pos_r small = omega arith

-- What is printed is a decimal with at most the exponent's digits, and reading it gives the amount.
format_qor_back :
    (v e : ℕ) → (t : JsString) × (qor_to_uqor (format_qor v e) e ≡ ok t) × (big_int t ≡ v)
format_qor_back v e = elim (Bool-cases (v % 10 ^ e == 0)) [
  | inl whole ↦
      let back =
        qor_to_uqor_of w e w none (split_point-digits w w_digits) w_decimal (omega arith) in
      (back.0, rw (print_whole v e whole) (back.1), back.2 ∙ whole_value whole)
  | inr part ↦ part_back part
]
  where
    w : JsString
    w = to_string (v / 10 ^ e)

    w_digits : all_digits w ≡ true
    w_digits = all_digits-print (suc (v / 10 ^ e)) (v / 10 ^ e)

    w_decimal : is_decimal_parts (w, none) ≡ true
    w_decimal = rw (print-nonempty (v / 10 ^ e), w_digits) refl

    whole_value :
        (v % 10 ^ e == 0) ≡ true
        → big_int w * 10 ^ length (pad_end e []) + big_int (pad_end e []) ≡ v
    whole_value h =
        whole_and_part v e (pad_end e []) (length-replicate {A = ℕ} (e - 0) b'0' ∙ omega arith)
          (read_digits-only_zeros (e - 0) ∙ sym ((==_iff (v % 10 ^ e) 0).0 h))

    part_back :
        (v % 10 ^ e == 0) ≡ false
        → (t : JsString) × (qor_to_uqor (format_qor v e) e ≡ ok t) × (big_int t ≡ v)
    part_back h =
        let r = v % 10 ^ e in
        let f0 = pad_zeros e (to_string r) in
        let f = strip_trailing f0 in
        let pos_r : 0 < r = ground (arith, h) in
        let small : r < 10 ^ e = mod-lt v (one-le-pow e 10 (omega arith)) in
        let pos_e : 0 < e = some_places e r pos_r small in
        let long : length f0 ≡ e = length-fraction_digits e r pos_e small in
        let f_digits : all_digits f ≡ true = all_digits-strip_trailing f0 (
          all_digits-zeros (e - length (to_string r)) (to_string r) (all_digits-print (suc r) r)) in
        let f_decimal : is_decimal_parts (w, some f) ≡ true =
          rw (print-nonempty (v / 10 ^ e), w_digits, fraction_kept e r pos_r small, f_digits)
            refl in
        let filled : pad_end e f ≡ f0 =
          ap (λ n. pad_end n f) (sym long) ∙ pad_end-strip_trailing f0 in
        let back =
          qor_to_uqor_of (w ++ b'.' ∷ f) e w (some f) (split_point-point w f w_digits) f_decimal
            (omega (arith, length-strip_trailing f0, long)) in
        (
          back.0,
          rw (print_part v e h) (back.1),
          back.2
              ∙ whole_and_part v e (pad_end e f) (ap (length {0}) filled ∙ long)
                  (ap big_int filled ∙ big_int-fraction_digits e r),
        )

-- An amount of uqor that is read as the number v is printed in QOR, whatever the exponent, as a text that
-- `qorToUqor` takes with the same exponent, and the number that it gives is v.
pub uqor_to_qor_back :
    (amount : UqorAmount) (v e : ℕ)
    → uqor_value amount ≡ ok v
    → (t : JsString) × ((uqor_to_qor amount e >>= (λ s. qor_to_uqor s e)) ≡ ok t) × (big_int t ≡ v)
unfolding uqor_to_qor
uqor_to_qor_back amount v e h = let back = format_qor_back v e in (back.0, rw h (back.1), back.2)
