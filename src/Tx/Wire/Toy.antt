-- ===== src/Tx/Wire/Toy.antt =====
-- A small reader and writer that meet the laws of the protobuf package, for tests: a number is one
-- element, a string or byte string its length and its elements, a 64-bit integer its sign and size.
use qorechain_rdk.Prelude.{
  ◌≤◌, ◌<◌, ℕ, ◌≡◌, refl, ap, subst, inl, inr, Bool, true, false, Option, none, some, List, [], ◌∷◌,
  ◌++◌, arith, leb, ◌==◌, if◌then◌else◌, Bool-cases, length, length-append, take, drop, take-append,
  drop-append, length-drop,
}
use qorechain_rdk.Tx.Wire.{negsuc, pos, Shrinks, ℤ, Wire, WireLaws}

unfoldable pub counted : List ℕ → Option (List ℕ × List ℕ)
counted [] = none
counted (n ∷ rest) = if leb n (length rest) then some (take n rest, drop n rest) else none

abbrev signed : ℤ → List ℕ
signed (pos n) = 0 ∷ n ∷ []
signed (negsuc n) = 1 ∷ n ∷ []

unfoldable pub get_signed : List ℕ → Option (ℤ × List ℕ)
get_signed [] = none
get_signed (s ∷ []) = none
get_signed (s ∷ n ∷ rest) = some (if s == 0 then pos n else negsuc n, rest)

unfoldable pub get_number : List ℕ → Option (ℕ × List ℕ)
get_number [] = none
get_number (n ∷ rest) = some (n, rest)

unfoldable pub get_flag : List ℕ → Option (Bool × List ℕ)
get_flag [] = none
get_flag (n ∷ rest) = some (n == 1, rest)

abbrev rest_of : {A : Type 0} → Option (A × List ℕ) → Option (List ℕ)
rest_of none = none
rest_of (some (a, rest)) = some rest

abbrev skip : ℕ → List ℕ → Option (List ℕ)
skip kind bytes = if kind == 2 then rest_of (counted bytes) else rest_of (get_signed bytes)

abbrev pub toy_wire : Wire
toy_wire = record {
  put_uint32 = λ n. n ∷ [];
  put_string = λ s. length s ∷ s;
  put_bytes = λ b. length b ∷ b;
  put_uint64 = signed;
  put_int64 = signed;
  put_bool = λ b. (if b then 1 else 0) ∷ [];
  get_uint32 = get_number;
  get_string = counted;
  get_bytes = counted;
  get_uint64 = get_signed;
  get_int64 = get_signed;
  get_bool = get_flag;
  skip_type = skip;
}

counted_back : (b rest : List ℕ) → counted ((length b ∷ b) ++ rest) ≡ some (b, rest)
unfolding counted
counted_back b rest =
    let fits : leb (length b) (length (b ++ rest)) ≡ true = ground (arith, length-append b rest) in
    rw (fits, take-append b rest (length b) refl, drop-append b rest (length b) refl)

counted-Shrinks : Shrinks counted
unfolding counted
counted-Shrinks [] rest v h = absurd (cc)
counted-Shrinks (n ∷ bytes) rest v h = elim (Bool-cases (leb n (length bytes))) [
  | inl fits ↦ ground (arith, length-drop n bytes, ap length (dropped fits))
  | inr over ↦ absurd (ground arith)
]
  where
    dropped : leb n (length bytes) ≡ true → drop n bytes ≡ rest
    dropped fits = ground arith

signed_back : (v : ℤ) (rest : List ℕ) → get_signed (signed v ++ rest) ≡ some (v, rest)
unfolding get_signed
signed_back (pos n) rest = refl
signed_back (negsuc n) rest = refl

signed-Shrinks : Shrinks get_signed
unfolding get_signed
signed-Shrinks [] rest v h = absurd (cc)
signed-Shrinks (s ∷ []) rest v h = absurd (cc)
signed-Shrinks (s ∷ n ∷ bytes) rest v h = ground (arith)

flag_back :
    (b : Bool) (rest : List ℕ) → get_flag (((if b then 1 else 0) ∷ []) ++ rest) ≡ some (b, rest)
unfolding get_flag
flag_back true rest = refl
flag_back false rest = refl

flag-Shrinks : Shrinks get_flag
unfolding get_flag
flag-Shrinks [] rest v h = absurd (cc)
flag-Shrinks (n ∷ bytes) rest v h = ground (arith)

number_shrinks :
    (bytes rest : List ℕ) (n : ℕ) → get_number bytes ≡ some (n, rest) → length rest < length bytes
unfolding get_number
number_shrinks [] rest n h = absurd (cc)
number_shrinks (m ∷ bytes) rest n h = ground (arith)

rest-Shrinks :
    {A : Type 0} (get : List ℕ → Option (A × List ℕ)) (bytes rest : List ℕ)
    → Shrinks get
    → rest_of (get bytes) ≡ some rest
    → length rest ≤ length bytes
rest-Shrinks {A = A} get bytes rest s h = from (get bytes) refl h
  where
    from :
        (o : Option (A × List ℕ))
        → get bytes ≡ o
        → rest_of o ≡ some rest
        → length rest ≤ length bytes
    from none e k = absurd (cc)
    from (some (v, r)) e k = s bytes rest v (cc)

skip_shrinks :
    (kind : ℕ) (bytes rest : List ℕ) → skip kind bytes ≡ some rest → length rest ≤ length bytes
skip_shrinks kind bytes rest h = elim (Bool-cases (kind == 2)) [
  | inl two ↦ rest-Shrinks counted bytes rest counted-Shrinks (
      subst (λ t. (if t then rest_of (counted bytes) else rest_of (get_signed bytes)) ≡ some rest)
        two h)
  | inr other ↦ rest-Shrinks get_signed bytes rest signed-Shrinks (
      subst (λ t. (if t then rest_of (counted bytes) else rest_of (get_signed bytes)) ≡ some rest)
        other h)
]

number_back : (n : ℕ) (rest : List ℕ) → get_number ((n ∷ []) ++ rest) ≡ some (n, rest)
unfolding get_number
number_back n rest = refl

pub toy_wire-WireLaws : WireLaws toy_wire
toy_wire-WireLaws = record {
  uint32_back = λ n rest h. number_back n rest;
  string_back = λ s rest h. counted_back s rest;
  bytes_back = λ b rest h. counted_back b rest;
  uint64_back = λ v rest h. signed_back v rest;
  int64_back = λ v rest h. signed_back v rest;
  bool_back = flag_back;
  tag_shrinks = number_shrinks;
  string_shrinks = counted-Shrinks;
  bytes_shrinks = counted-Shrinks;
  uint64_shrinks = signed-Shrinks;
  int64_shrinks = signed-Shrinks;
  bool_shrinks = flag-Shrinks;
  skip_shrinks = skip_shrinks;
}
