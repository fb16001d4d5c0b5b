-- ===== src/Views/Doubles.antt =====
-- The double that JavaScript's `Number` makes of a natural number: 53 binary digits are kept, the rest is
-- rounded to the nearest, and to the even one of two. Beyond the greatest double there is none that is finite.
use qorechain_rdk.Prelude.{
  ◌+◌, ◌*◌, ◌/◌, ◌%◌, ◌^◌, ◌<◌, ℕ, zero, suc, ◌≡◌, refl, Bool, true, false, ◌&&◌, ◌||◌, Option,
  none, some, ltb, ◌==◌, if◌then◌else◌, lt→ltb,
}

-- How often a number is to be halved until it has 53 binary digits at most. The greatest double has 1024.
unfoldable pub surplus : ℕ → ℕ → ℕ
surplus zero n = 0
surplus (suc fuel) n = let rest = surplus fuel (n / 2) in if ltb n (2 ^ 53) then 0 else rest + 1

abbrev pub rounds_up : ℕ → ℕ → Bool
rounds_up unit n =
    let rest = 2 * (n % unit) in ltb unit rest || (rest == unit && (n / unit) % 2 == 1)

unfoldable pub round_to : ℕ → ℕ → ℕ
round_to unit n = (if rounds_up unit n then n / unit + 1 else n / unit) * unit

unfoldable pub to_double : ℕ → Option ℕ
unfolding surplus round_to
to_double n = elim (ltb n (2 ^ 53)) [
  | true ↦ some n
  | false ↦
      let rounded = round_to (2 ^ surplus 1100 n) n in
      if ltb rounded (2 ^ 1024) then some rounded else none
]

-- Below 2^53 nothing is lost.
pub to_double-small : (n : ℕ) → n < 2 ^ 53 → to_double n ≡ some n
unfolding to_double
to_double-small n h = rw (lt→ltb n (2 ^ 53) h, to_double) refl
