-- ===== src/Bytes/Layout.antt =====
-- What a byte string laid out by the encoders determines: fixed-width fields give back their value,
-- length-prefixed fields their content, and in both cases what follows.
use qorechain_rdk.Prelude.{
  ◌/◌, ◌%◌, ◌^◌, ◌<◌, ℕ, zero, suc, ◌≡◌, refl, sym, ◌∙◌, List, [], ◌∷◌, ◌++◌, arith, length,
  length-append,
}
use qorechain_rdk.Bytes.{Bytes, big_endian, u64be, u32be, lp32, lp64}
use mathlib.Core.List.{append_assoc}
use native.Mathlib.Nat.{pow-suc}

-- Appends with first parts of one length split in one way.
pub append_cancel {ℓ} :
    {A : Type ℓ} (a b r s : List A) → length a ≡ length b → a ++ r ≡ b ++ s → (a ≡ b) × (r ≡ s)
append_cancel [] [] r s h e = (refl, e)
append_cancel [] (y ∷ b) r s h e = absurd (omega (arith, h))
append_cancel (x ∷ a) [] r s h e = absurd (omega (arith, h))
append_cancel (x ∷ a) (y ∷ b) r s h e =
    let (p, q) = append_cancel a b r s (omega (arith, h)) (cc e) in (cc, q)

pub length-big_endian : (k v : ℕ) → length (big_endian k v) ≡ k
unfolding big_endian
length-big_endian zero v = refl
length-big_endian (suc k) v = omega (
  arith,
  length-append {0} (big_endian k (v / 256)) (v % 256 ∷ []),
  length-big_endian k (v / 256),
)

digit_lt : (k v : ℕ) → v < 256 ^ suc k → v / 256 < 256 ^ k
digit_lt k v h = omega (arith, pow-suc 256 k)

-- The bytes give back the value, where it fits the width.
pub big_endian_inj :
    (k v w : ℕ) → v < 256 ^ k → w < 256 ^ k → big_endian k v ≡ big_endian k w → v ≡ w
unfolding big_endian
big_endian_inj zero v w h g e = omega arith
big_endian_inj (suc k) v w h g e =
    let (p, q) =
      append_cancel (big_endian k (v / 256)) (big_endian k (w / 256)) (v % 256 ∷ []) (w % 256 ∷ [])
        (length-big_endian k (v / 256) ∙ sym (length-big_endian k (w / 256))) e in
    let hi : v / 256 ≡ w / 256 =
      big_endian_inj k (v / 256) (w / 256) (digit_lt k v h) (digit_lt k w g) p in
    let lo : v % 256 ≡ w % 256 = cc q in omega arith

pub big_endian_cancel :
    (k v w : ℕ) (r s : Bytes)
    → v < 256 ^ k
    → w < 256 ^ k
    → big_endian k v ++ r ≡ big_endian k w ++ s
    → (v ≡ w) × (r ≡ s)
big_endian_cancel k v w r s h g e =
    let (p, q) =
      append_cancel (big_endian k v) (big_endian k w) r s
        (length-big_endian k v ∙ sym (length-big_endian k w)) e in
    (big_endian_inj k v w h g p, q)

pub u64be_cancel :
    (v w : ℕ) (r s : Bytes)
    → v < 2 ^ 64
    → w < 2 ^ 64
    → u64be v ++ r ≡ u64be w ++ s
    → (v ≡ w) × (r ≡ s)
unfolding u64be
u64be_cancel v w r s h g e = big_endian_cancel 8 v w r s h g e

pub u32be_cancel :
    (v w : ℕ) (r s : Bytes)
    → v < 2 ^ 32
    → w < 2 ^ 32
    → u32be v ++ r ≡ u32be w ++ s
    → (v ≡ w) × (r ≡ s)
unfolding u32be
u32be_cancel v w r s h g e = ground arith

pub lp64_cancel :
    (a b r s : Bytes)
    → length a < 2 ^ 64
    → length b < 2 ^ 64
    → lp64 a ++ r ≡ lp64 b ++ s
    → (a ≡ b) × (r ≡ s)
unfolding lp64
lp64_cancel a b r s h g e =
    let (same, rest) =
      u64be_cancel (length a) (length b) (a ++ r) (b ++ s) h g
        (sym (append_assoc (u64be (length a)) a r) ∙ e ∙ append_assoc (u64be (length b)) b s) in
    append_cancel a b r s same rest

pub lp32_cancel :
    (a b r s : Bytes)
    → length a < 2 ^ 32
    → length b < 2 ^ 32
    → lp32 a ++ r ≡ lp32 b ++ s
    → (a ≡ b) × (r ≡ s)
unfolding lp32
lp32_cancel a b r s h g e =
    let (same, rest) =
      u32be_cancel (length a) (length b) (a ++ r) (b ++ s) h g
        (sym (append_assoc (u32be (length a)) a r) ∙ e ∙ append_assoc (u32be (length b)) b s) in
    append_cancel a b r s same rest

pub length-u64be : (v : ℕ) → length (u64be v) ≡ 8
unfolding u64be
length-u64be v = length-big_endian 8 v

pub length-u32be : (v : ℕ) → length (u32be v) ≡ 4
unfolding u32be
length-u32be v = refl
