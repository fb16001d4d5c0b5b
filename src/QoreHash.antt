-- ===== src/QoreHash.antt =====
-- packages/ts/src/utils/qorehash.ts. SHAKE-256 is the hash library's and a parameter `shake`: from bytes
-- to the 32-byte digest.
pub mod Toy
use qorechain_rdk.Prelude.{◌≡◌, ◌≢◌, ◌⊎◌, inl, inr, List, [], ◌∷◌, ◌++◌, Bool-cases}
use qorechain_rdk.Text.{str_eq, str_eq→eq, str_eq_iff}
use qorechain_rdk.Bytes.{Bytes}

-- The parts are absorbed one after the other.
abbrev pub concat_parts : List Bytes → Bytes
concat_parts [] = []
concat_parts (p ∷ ps) = p ++ concat_parts ps

unfoldable pub qorehash : (Bytes → Bytes) → List Bytes → Bytes
qorehash shake parts = shake (concat_parts parts)

-- Two inputs that a hash does not tell apart.
abbrev pub Collision : (Bytes → Bytes) → Type 0
Collision hash = (a : Bytes) × (b : Bytes) × (a ≢ b) × (hash a ≡ hash b)

-- Equal hashes come from equal inputs, or there is the collision.
pub hash_binds : (hash : Bytes → Bytes) (a b : Bytes) → hash a ≡ hash b → (a ≡ b) ⊎ Collision hash
hash_binds hash a b e = elim (Bool-cases (str_eq a b)) [
  | inl same ↦ inl (str_eq→eq a b same)
  | inr other ↦ inr (a, b, (λ p. cc ((str_eq_iff a b).1 p)), e)
]
