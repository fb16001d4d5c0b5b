-- ===== src/QoreHash/Toy.antt =====
-- A hash of one byte, in place of SHAKE-256 where the tests run the model.
use qorechain_rdk.Prelude.{◌+◌, ◌*◌, ◌%◌, ℕ, ◌≡◌, refl, [], ◌∷◌, length}
use qorechain_rdk.Bytes.{Bytes}

abbrev weigh : ℕ → Bytes → ℕ
weigh acc [] = acc
weigh acc (b ∷ bs) = weigh ((acc * 31 + b + 1) % 65521) bs

abbrev pub toy_hash : Bytes → Bytes
toy_hash x = weigh 7 x % 256 ∷ []

pub toy_digest : (x : Bytes) → length (toy_hash x) ≡ 1
toy_digest x = refl
