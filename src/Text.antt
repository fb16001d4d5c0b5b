-- ===== src/Text.antt =====
-- JavaScript strings as lists of UTF-16 code units, with the part of the language that the kit uses:
-- `===`, `includes`, `startsWith` and `TextEncoder`.
pub mod Encoder
use qorechain_rdk.Prelude.{
  List, ℕ, ◌≡◌, refl, ◌≢◌, ◌↔◌, inl, inr, Bool, true, false, ◌&&◌, ◌||◌, [], ◌∷◌, arith, ◌==◌,
  Bool-cases,
}
use Prim.Native.Char.{code}
use Prim.Native.String.{String}

abbrev pub JsString : Type 0
JsString = List ℕ

-- A literal: its characters are ASCII here, so code points are code units.
abbrev pub js : String → JsString
js String.[] = []
js (String.◌∷◌ c s) = code c ∷ js s

-- `===` on strings, and on any list of numbers.
abbrev pub str_eq : List ℕ → List ℕ → Bool
str_eq [] [] = true
str_eq [] (y ∷ ys) = false
str_eq (x ∷ xs) [] = false
str_eq (x ∷ xs) (y ∷ ys) = (x == y) && str_eq xs ys

pub str_eq→eq : (s t : List ℕ) → str_eq s t ≡ true → s ≡ t
str_eq→eq [] [] h = refl
str_eq→eq [] (y ∷ t) h = cc
str_eq→eq (x ∷ s) [] h = cc
str_eq→eq (x ∷ s) (y ∷ t) h = ground (arith, str_eq→eq s t)

pub str_eq_refl : (s : List ℕ) → str_eq s s ≡ true
str_eq_refl [] = refl
str_eq_refl (x ∷ s) = ground (arith, str_eq_refl s)

pub str_eq_iff : (s t : List ℕ) → (str_eq s t ≡ true) ↔ (s ≡ t)
str_eq_iff s t = (str_eq→eq s t, λ e. rw e (str_eq_refl t))

pub str_eq-false : (s t : List ℕ) → s ≢ t → str_eq s t ≡ false
str_eq-false s t h = elim (Bool-cases (str_eq s t)) [
  | inl e ↦ absurd (h (str_eq→eq s t e))
  | inr e ↦ e
]

-- `xs.includes(s)` on a list of strings.
abbrev pub includes : List JsString → JsString → Bool
includes [] s = false
includes (t ∷ ts) s = str_eq t s || includes ts s

abbrev pub is_empty {ℓ} : {A : Type ℓ} → List A → Bool
is_empty [] = true
is_empty (x ∷ xs) = false

-- `s.startsWith(p)`.
abbrev pub starts_with : JsString → JsString → Bool
starts_with s [] = true
starts_with [] (p ∷ ps) = false
starts_with (c ∷ s) (p ∷ ps) = (c == p) && starts_with s ps

-- A number: the kit tells whole numbers that are not negative from all others.
pub data JsNumber : Type 0 where
  whole : ℕ → JsNumber
  other_number : JsNumber
