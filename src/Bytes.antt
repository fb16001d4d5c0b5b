-- ===== src/Bytes.antt =====
-- Byte strings and the fixed-width big-endian encoders that the transition, withdrawal and receipt
-- code declares (`u64be`, `u32be`, the length prefixes).
pub mod Layout
pub mod Hex
mod Tests
use qorechain_rdk.Prelude.{◌/◌, ◌%◌, ◌^◌, ◌<◌, ℕ, zero, suc, List, [], ◌∷◌, ◌++◌, length}

abbrev pub Bytes : Type 0
Bytes = List ℕ

abbrev pub IsByte : ℕ → Type 0
IsByte b = b < 256

abbrev pub AreBytes : Bytes → Type 0
AreBytes [] = Unit
AreBytes (b ∷ bs) = IsByte b × AreBytes bs

-- The loop of `u64be` and `u256be`: from the last byte down, `v & 0xff` and `v >>= 8`.
unfoldable pub big_endian : ℕ → ℕ → Bytes
big_endian zero v = []
big_endian (suc k) v = big_endian k (v / 256) ++ v % 256 ∷ []

unfoldable pub u64be : ℕ → Bytes
u64be value = big_endian 8 value

-- `n >>> k` reads its operand as a uint32.
unfoldable pub u32be : ℕ → Bytes
u32be n = let u = n % 2 ^ 32 in u / 2 ^ 24 % 256 ∷ u / 2 ^ 16 % 256 ∷ u / 2 ^ 8 % 256 ∷ u % 256 ∷ []

-- `[u32be(b.length), b]`, concatenated.
unfoldable pub lp32 : Bytes → Bytes
lp32 b = u32be (length b) ++ b

-- `parts.push(u64be(b.length), b)`, concatenated.
unfoldable pub lp64 : Bytes → Bytes
lp64 b = u64be (length b) ++ b
