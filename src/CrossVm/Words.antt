-- ===== src/CrossVm/Words.antt =====
-- The 32-byte words of packages/ts/src/crossvm/index.ts: what `u256be` writes, `readWord` reads.
use qorechain_rdk.Prelude.{
  ◌+◌, ◌*◌, ◌/◌, ◌%◌, ◌^◌, ◌<◌, ℕ, zero, suc, ◌≡◌, refl, sym, [], ◌∷◌, ◌++◌, arith, length, take,
  drop, take-append, drop-append,
}
use qorechain_rdk.Bytes.Layout.{length-big_endian}
use qorechain_rdk.CrossVm.{u256be, read_bytes, read_word}
use qorechain_rdk.Bytes.{Bytes, big_endian}
use native.Mathlib.Nat.{pow-suc}

read_bytes-append :
    (v : ℕ) (xs : Bytes) (b : ℕ) → read_bytes v (xs ++ b ∷ []) ≡ read_bytes v xs * 256 + b
unfolding read_bytes
read_bytes-append v [] b = refl
read_bytes-append v (x ∷ xs) b = read_bytes-append (v * 256 + x) xs b

pub read_bytes-big_endian : (k v : ℕ) → v < 256 ^ k → read_bytes 0 (big_endian k v) ≡ v
unfolding big_endian read_bytes
read_bytes-big_endian zero v h = omega arith
read_bytes-big_endian (suc k) v h = omega (
  arith,
  read_bytes-append 0 (big_endian k (v / 256)) (v % 256),
  read_bytes-big_endian k (v / 256) (omega (arith, pow-suc 256 k)),
)

pub length-u256be : (v : ℕ) → length (u256be v) ≡ 32
unfolding u256be
length-u256be v = length-big_endian 32 v

-- A word is read back wherever it stands.
pub read_word-u256be :
    (pre : Bytes) (v : ℕ) (post : Bytes) (start : ℕ)
    → start ≡ length pre
    → v < 256 ^ 32
    → read_word (pre ++ (u256be v ++ post)) start ≡ v
unfolding read_word u256be
read_word-u256be pre v post start e h =
    rw
      (
        drop-append pre (big_endian 32 v ++ post) start (sym e),
        take-append (big_endian 32 v) post 32 (length-big_endian 32 v),
      )
      (read_bytes-big_endian 32 v h)

-- What a decoder of dynamic arguments reads: the word in the head is an offset, at which the length
-- stands, and behind it the content.
unfoldable pub argument_at : Bytes → ℕ → Bytes
argument_at b position =
    let offset = read_word b position in take (read_word b offset) (drop (offset + 32) b)
