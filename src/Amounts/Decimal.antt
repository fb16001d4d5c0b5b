-- ===== src/Amounts/Decimal.antt =====
-- Decimal texts: what is printed is read back, and zeros in front or behind do not count.
use qorechain_rdk.Prelude.{
  dec_lt, ◌+◌, ◌-◌, ◌*◌, ◌/◌, ◌%◌, ◌^◌, ◌≤◌, ◌<◌, ℕ, zero, suc, ◌≡◌, refl, sym, ap, ◌∙◌, inl, inr,
  true, false, [], ◌∷◌, ◌++◌, arith, ◌==◌, lt→ltb, ==_iff, Bool-cases, length, length-append,
  replicate,
}
use native.Mathlib.Nat.{pow-suc}
use qorechain_rdk.Text.{is_empty, JsString}
use qorechain_rdk.Amounts.{
  drop_zero, to_string, pad_end, strip_leading, strip_trailing, all_digits, read_digits,
  print_digits,
}

read_digits-append :
    (v : ℕ) (s : JsString) (c : ℕ) → read_digits v (s ++ c ∷ []) ≡ read_digits v s * 10 + (c - b'0')
unfolding read_digits
read_digits-append v [] c = refl
read_digits-append v (d ∷ s) c = read_digits-append (v * 10 + (d - b'0')) s c

-- One round of the printing: the last digit, or one more round.
print_last : (fuel n : ℕ) → n < 10 → print_digits (suc fuel) n ≡ (b'0' + n) ∷ []
unfolding print_digits
print_last fuel n h = ground (arith, lt→ltb n 10 h)

print_more :
    (fuel n : ℕ)
    → 10 ≤ n
    → print_digits (suc fuel) n ≡ print_digits fuel (n / 10) ++ (b'0' + n % 10) ∷ []
unfolding print_digits
print_more fuel n h = ground arith

pub read_digits-print : (fuel n : ℕ) → n < fuel → read_digits 0 (print_digits fuel n) ≡ n
read_digits-print zero n h = elim h [ ]
read_digits-print (suc fuel) n h = elim (dec_lt n 10) [
  | yes small ↦ rw (print_last fuel n small) (one n)
  | no large ↦ rw (print_more fuel n (omega arith)) (
      omega (
        arith,
        read_digits-append 0 (print_digits fuel (n / 10)) (b'0' + n % 10),
        read_digits-print fuel (n / 10) (omega arith),
      ))
]
  where
    one : (n : ℕ) → read_digits 0 ((b'0' + n) ∷ []) ≡ n
    one n = unfold read_digits in (omega arith)

all_digits-append :
    (s t : JsString) → all_digits s ≡ true → all_digits t ≡ true → all_digits (s ++ t) ≡ true
all_digits-append [] t h k = k
all_digits-append (c ∷ s) t h k = ground (arith, all_digits-append s t)

pub all_digits-print : (fuel n : ℕ) → all_digits (print_digits fuel n) ≡ true
unfolding print_digits
all_digits-print zero n = refl
all_digits-print (suc fuel) n = elim (dec_lt n 10) [
  | yes small ↦ rw (print_last fuel n small) (ground arith)
  | no large ↦ rw (print_more fuel n (omega arith)) (
      all_digits-append (print_digits fuel (n / 10)) ((b'0' + n % 10) ∷ [])
        (all_digits-print fuel (n / 10)) (ground arith))
]

pub length-print : (fuel n e : ℕ) → 0 < e → n < 10 ^ e → length (print_digits fuel n) ≤ e
length-print fuel n zero pos_e h = elim pos_e [ ]
length-print zero n (suc e) pos_e h = unfold print_digits in (omega arith)
length-print (suc fuel) n (suc e) pos_e h = elim (dec_lt n 10) [
  | yes small ↦ rw (print_last fuel n small) (omega arith)
  | no large ↦
      let pos_e' : 0 < e = more_places e n h (omega arith) in
      rw (print_more fuel n (omega arith)) (
        omega (
          arith,
          length-append {0} (print_digits fuel (n / 10)) ((b'0' + n % 10) ∷ []),
          length-print fuel (n / 10) e pos_e' (omega (arith, pow-suc 10 e, h)),
        ))
]
  where
    more_places : (e n : ℕ) → n < 10 ^ suc e → 10 ≤ n → 0 < e
    more_places zero n h k = absurd (omega arith)
    more_places (suc e) n h k = omega arith

pub print-nonempty : (n : ℕ) → is_empty (to_string n) ≡ false
print-nonempty n = elim (dec_lt n 10) [
  | yes small ↦ rw (print_last n n small) refl
  | no large ↦ rw (print_more n n (omega arith)) (snoc (print_digits n (n / 10)) (b'0' + n % 10))
]
  where
    snoc : (s : JsString) (c : ℕ) → is_empty (s ++ c ∷ []) ≡ false
    snoc [] c = refl
    snoc (d ∷ s) c = refl

-- What stands in front counts by the number of digits behind it.
pub read_digits-from :
    (v : ℕ) (s : JsString) → read_digits v s ≡ v * 10 ^ length s + read_digits 0 s
unfolding read_digits
read_digits-from v [] = omega arith
read_digits-from v (c ∷ s) =
    let digit = c - b'0' in
    let left = read_digits-from (v * 10 + digit) s in
    let right = read_digits-from (0 * 10 + digit) s in
    let step : 10 ^ length {0} (c ∷ s) ≡ 10 ^ length s * 10 = pow-suc 10 (length s) in
    rw (left, right, step) (spread v digit (10 ^ length s) (read_digits 0 s))
  where
    spread : (v d p r : ℕ) → (v * 10 + d) * p + r ≡ v * (p * 10) + ((0 * 10 + d) * p + r)
    spread v d p r = omega arith

pub read_digits-append_all :
    (v : ℕ) (s t : JsString) → read_digits v (s ++ t) ≡ read_digits (read_digits v s) t
unfolding read_digits
read_digits-append_all v [] t = refl
read_digits-append_all v (c ∷ s) t = read_digits-append_all (v * 10 + (c - b'0')) s t

pub read_digits-zeros :
    (n : ℕ) (s : JsString) → read_digits 0 (replicate n b'0' ++ s) ≡ read_digits 0 s
unfolding read_digits
read_digits-zeros zero s = refl
read_digits-zeros (suc n) s = read_digits-zeros n s

pub read_digits-strip_leading : (s : JsString) → read_digits 0 (strip_leading s) ≡ read_digits 0 s
unfolding strip_leading
read_digits-strip_leading [] = refl
read_digits-strip_leading (c ∷ []) = refl
read_digits-strip_leading (c ∷ d ∷ s) = elim (Bool-cases (c == b'0')) [
  | inl zero_ ↦
      rw zero_ (read_digits-strip_leading (d ∷ s) ∙ sym (no_value c d s ((==_iff c b'0').0 zero_)))
  | inr other ↦ rw other refl
]
  where
    no_value :
        (c d : ℕ) (s : JsString) → c ≡ b'0' → read_digits 0 (c ∷ d ∷ s) ≡ read_digits 0 (d ∷ s)
    no_value c d s e = unfold read_digits in (rw e refl)

-- Filling the zeros up again gives the text back.
pub pad_end-strip_trailing : (s : JsString) → pad_end (length s) (strip_trailing s) ≡ s
unfolding strip_trailing
pad_end-strip_trailing [] = refl
pad_end-strip_trailing (c ∷ s) = from (strip_trailing s) (pad_end-strip_trailing s)
  where
    no_less : (n : ℕ) → n - 0 ≡ n
    no_less n = omega arith

    one_less : (n m : ℕ) → suc n - suc m ≡ n - m
    one_less n m = omega arith

    from :
        (t : JsString) → pad_end (length s) t ≡ s → pad_end (suc (length s)) (drop_zero c t) ≡ c ∷ s
    from [] e = elim (Bool-cases (c == b'0')) [
      | inl zero_ ↦
          rw (zero_, (==_iff c b'0').0 zero_)
            (rw (no_less (suc (length s))) (ap (λ t. b'0' ∷ t) (rw (sym (no_less (length s))) e)))
      | inr other ↦ rw other (rw (one_less (length s) 0) (ap (λ t. c ∷ t) e))
    ]
    from (d ∷ t) e = rw (one_less (length s) (length (d ∷ t))) (ap (λ t. c ∷ t) e)
