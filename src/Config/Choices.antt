-- ===== src/Config/Choices.antt =====
-- The closed sets, the matrix and the number tests of packages/ts/src/config, each against a description
-- of what it accepts.
use qorechain_rdk.Prelude.{
  ◌≤◌, ◌<◌, ℕ, ◌≡◌, refl, sym, subst, ◌↔◌, ◌⊎◌, inl, inr, Bool, true, false, not, ◌||◌, Option,
  none, some, List, [], ◌∷◌, arith, Bool-cases,
}
use qorechain_rdk.Text.{JsString, js, includes, str_eq, str_eq→eq, JsNumber, whole, other_number}
use qorechain_rdk.Config.{
  valid_proof_systems, requires_based_sequencer, is_proof_compatible, settlement_paradigms,
  proof_systems, fits_sequencer, is_positive_integer, is_positive_integer_string, are_digits,
  optional, RollupConfig,
}

abbrev pub OneOf : List JsString → JsString → Type 0
OneOf [] s = ⊥
OneOf (t ∷ ts) s = (s ≡ t) ⊎ OneOf ts s

-- The settlements, each with the proof systems that fit it.
abbrev pub Fits : JsString → JsString → Type 0
Fits settlement proof =
    ((settlement ≡ js "optimistic") × (proof ≡ js "fraud"))
    ⊎ ((settlement ≡ js "zk") × ((proof ≡ js "snark") ⊎ (proof ≡ js "stark")))
    ⊎ ((settlement ≡ js "based") × (proof ≡ js "none"))
    ⊎ ((settlement ≡ js "sovereign") × (proof ≡ js "none"))

abbrev pub IsPositive : JsNumber → Type 0
IsPositive v = (n : ℕ) × (v ≡ whole n) × (0 < n)

abbrev pub AreDigits : JsString → Type 0
AreDigits [] = Unit
AreDigits (c ∷ s) = ((48 ≤ c) × (c ≤ 57)) × AreDigits s

-- A decimal numeral without a leading zero.
abbrev pub IsNumeral : JsString → Type 0
IsNumeral t = (c : ℕ) × (s : JsString) × (t ≡ c ∷ s) × ((49 ≤ c) × (c ≤ 57)) × AreDigits s

abbrev pub IfGiven : {A : Type 0} → (A → Type 0) → Option A → Type 0
IfGiven P none = Unit
IfGiven P (some a) = P a

str_eq_same : (s t : JsString) → s ≡ t → str_eq t s ≡ true
str_eq_same s [] e = rw e refl
str_eq_same s (c ∷ t) e = rw e (ground (arith, str_eq_same t t refl))

includes_step :
    (t : JsString) (ts : List JsString) (s : JsString)
    → (includes ts s ≡ true) ↔ OneOf ts s
    → (includes (t ∷ ts) s ≡ true) ↔ OneOf (t ∷ ts) s
includes_step t ts s (there, back) = elim (Bool-cases (str_eq t s)) [
  | inl e ↦ (λ h. inl (sym (str_eq→eq t s e)), λ h. rw e refl)
  | inr n ↦ rw n (λ h. inr (there h), λ h. back (kept n h))
]
  where
    kept : str_eq t s ≡ false → OneOf (t ∷ ts) s → OneOf ts s
    kept n (inl e) = absurd (cc (n, str_eq_same s t e))
    kept n (inr o) = o

pub includes_iff : (ts : List JsString) (s : JsString) → (includes ts s ≡ true) ↔ OneOf ts s
includes_iff [] s = (λ h. absurd (cc), λ h. absurd h)
includes_iff (t ∷ ts) s = includes_step t ts s (includes_iff ts s)

pub IsPositive-iff : (v : JsNumber) → (is_positive_integer v ≡ true) ↔ IsPositive v
IsPositive-iff (whole n) = (
  λ h. (n, refl, ground arith),
  λ (m, e, lt). subst (λ v. is_positive_integer v ≡ true) (sym e) (ground (arith, lt)),
)
IsPositive-iff other_number = (λ h. absurd (cc), λ (m, e, lt). absurd (cc))

digits_iff : (s : JsString) → (are_digits s ≡ true) ↔ AreDigits s
digits_iff [] = (λ h. tt, λ h. refl)
digits_iff (c ∷ s) =
    let (there, back) = digits_iff s in
    (
      λ h. ((ground arith, ground arith), there (ground arith)),
      λ (range, rest). ground (arith, range, back rest),
    )

pub IsNumeral-iff : (t : JsString) → (is_positive_integer_string t ≡ true) ↔ IsNumeral t
unfolding is_positive_integer_string
IsNumeral-iff [] = (λ h. absurd (cc), λ (c, s, e, r, d). absurd (cc))
IsNumeral-iff (c ∷ t) =
    let (there, back) = digits_iff t in
    (
      λ h. (c, t, refl, (ground arith, ground arith), there (ground arith)),
      λ (d, s, e, range, digits).
          subst (λ u. is_positive_integer_string u ≡ true) (sym e)
            (ground (arith, range, (digits_iff s).1 digits)),
    )

pub given_iff :
    {A : Type 0} (p : A → Bool) (P : A → Type 0)
    → ((a : A) → (p a ≡ true) ↔ P a)
    → (o : Option A) → (optional p o ≡ true) ↔ IfGiven P o
given_iff p P each none = (λ h. tt, λ h. refl)
given_iff p P each (some a) = each a

-- The validator's test of the matrix, on the two choices.
abbrev pub fits : JsString → JsString → Bool
fits settlement proof =
    not (includes settlement_paradigms settlement)
    || not (includes proof_systems proof)
    || is_proof_compatible settlement proof

one : {s t : JsString} → OneOf (t ∷ []) s → s ≡ t
one (inl e) = e
one (inr o) = absurd o

pub fits_there :
    (settlement proof : JsString)
    → includes proof_systems proof ≡ true
    → OneOf settlement_paradigms settlement
    → fits settlement proof ≡ true
    → Fits settlement proof
unfolding is_proof_compatible valid_proof_systems
fits_there s p q (inl e) h =
    let h' : includes (js "fraud" ∷ []) p ≡ true = rw q at (subst (λ s. fits s p ≡ true) e h) in
    inl (e, one ((includes_iff (js "fraud" ∷ []) p).0 h'))
fits_there s p q (inr (inl e)) h =
    let h' : includes (js "snark" ∷ js "stark" ∷ []) p ≡ true =
      rw q at (subst (λ s. fits s p ≡ true) e h) in
    inr (inl (e, either ((includes_iff (js "snark" ∷ js "stark" ∷ []) p).0 h')))
  where
    either : OneOf (js "snark" ∷ js "stark" ∷ []) p → (p ≡ js "snark") ⊎ (p ≡ js "stark")
    either (inl a) = inl a
    either (inr o) = inr (one o)
fits_there s p q (inr (inr (inl e))) h =
    let h' : includes (js "none" ∷ []) p ≡ true = rw q at (subst (λ s. fits s p ≡ true) e h) in
    inr (inr (inl (e, one ((includes_iff (js "none" ∷ []) p).0 h'))))
fits_there s p q (inr (inr (inr (inl e)))) h =
    let h' : includes (js "none" ∷ []) p ≡ true = rw q at (subst (λ s. fits s p ≡ true) e h) in
    inr (inr (inr (e, one ((includes_iff (js "none" ∷ []) p).0 h'))))
fits_there s p q (inr (inr (inr (inr o)))) h = absurd o

-- What fits is in both sets, and passes the test.
abbrev pub Passes : JsString → JsString → Type 0
Passes s p =
    (includes settlement_paradigms s ≡ true) × (includes proof_systems p ≡ true) × (fits s p ≡ true)

Passes-at : (s p a b : JsString) → s ≡ a → p ≡ b → Passes a b → Passes s p
Passes-at s p a b e d h = rw (e, d) h

pub Fits-back : (s p : JsString) → Fits s p → Passes s p
unfolding is_proof_compatible valid_proof_systems
Fits-back s p (inl (e, d)) = Passes-at s p (js "optimistic") (js "fraud") e d (refl, refl, refl)
Fits-back s p (inr (inl (e, inl d))) = Passes-at s p (js "zk") (js "snark") e d (refl, refl, refl)
Fits-back s p (inr (inl (e, inr d))) = Passes-at s p (js "zk") (js "stark") e d (refl, refl, refl)
Fits-back s p (inr (inr (inl (e, d)))) =
    Passes-at s p (js "based") (js "none") e d (refl, refl, refl)
Fits-back s p (inr (inr (inr (e, d)))) =
    Passes-at s p (js "sovereign") (js "none") e d (refl, refl, refl)

pub based_iff :
    (config : RollupConfig)
    → (fits_sequencer config ≡ true)
      ↔ (config.settlement ≡ js "based" → config.sequencer ≡ js "based")
unfolding requires_based_sequencer
based_iff config = elim (Bool-cases (str_eq config.settlement (js "based"))) [
  | inl e ↦ rw e (
    λ h b. str_eq→eq config.sequencer (js "based") h,
    λ f.
        str_eq_same (js "based") config.sequencer
          (sym (f (str_eq→eq config.settlement (js "based") e))),
  )
  | inr n ↦
      rw n (λ h b. absurd (cc (n, str_eq_same (js "based") config.settlement (sym b))), λ f. refl)
]
