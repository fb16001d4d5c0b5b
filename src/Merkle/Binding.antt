-- ===== src/Merkle/Binding.antt =====
-- What a verified sibling path proves: the leaf is the committed one, or the hash has a collision.
use qorechain_rdk.Prelude.{
  ◌/◌, ◌%◌, ◌<◌, ℕ, ◌≡◌, refl, sym, ap, ◌∙◌, subst, ◌⊎◌, inl, inr, true, List, [], ◌∷◌, ◌++◌, arith,
  ◌==◌, Bool-cases, length, get_or, length-append, ok, ok-injective,
}
use qorechain_rdk.Text.{str_eq→eq}
use qorechain_rdk.Bytes.{Bytes}
use qorechain_rdk.QoreHash.{Collision, hash_binds}
use qorechain_rdk.Bytes.Layout.{append_cancel}
use qorechain_rdk.Merkle.{
  Required, MerkleProof, leaf_node, combine, climb, verify_binary_merkle_proof, binary_merkle_proof,
  binary_merkle_root,
}
use qorechain_rdk.Merkle.Verify.{verify-binary_merkle_proof}

append_cancel_right : (a b r s : Bytes) → length r ≡ length s → a ++ r ≡ b ++ s → (a ≡ b) × (r ≡ s)
append_cancel_right a b r s h e =
    append_cancel a b r s
      (omega (arith, ap (length {A = ℕ}) e, length-append {0} a r, length-append {0} b s, h)) e

-- Every output has one length: for SHAKE-256 with `dkLen: 32`, 32 bytes.
abbrev pub HasDigestLength : (Bytes → Bytes) → ℕ → Type 0
HasDigestLength hash n = (x : Bytes) → length (hash x) ≡ n

module _ (o : Required) (n : ℕ) (digest : HasDigestLength o.hash n) where
  combine_binds :
      (i : ℕ) (a b s t : Bytes)
      → length a ≡ length b
      → combine o i a s ≡ combine o i b t
      → ((a ≡ b) × (s ≡ t)) ⊎ Collision o.hash
  combine_binds i a b s t h e = elim (Bool-cases (i % 2 == 1)) [
    | inl right ↦ elim (hash_binds o.hash (s ++ a) (t ++ b) (rw right at e)) [
      | inl same ↦ let (p, q) = append_cancel_right s t a b h same in inl (q, p)
      | inr c ↦ inr c
    ]
    | inr left ↦ elim (hash_binds o.hash (a ++ s) (b ++ t) (rw left at e)) [
      | inl same ↦ inl (append_cancel a b s t h same)
      | inr c ↦ inr c
    ]
  ]

  length-combine : (i : ℕ) (a s : Bytes) → length (combine o i a s) ≡ n
  length-combine i a s = elim (Bool-cases (i % 2 == 1)) [
    | inl right ↦ rw right (digest (s ++ a))
    | inr left ↦ rw left (digest (a ++ s))
  ]

  climb_binds :
      (i : ℕ) (a b : Bytes) (ss ts : List Bytes)
      → length a ≡ length b
      → length ss ≡ length ts
      → climb o i a ss ≡ climb o i b ts
      → ((a ≡ b) × (ss ≡ ts)) ⊎ Collision o.hash
  unfolding climb
  climb_binds i a b [] [] h k e = inl (e, refl)
  climb_binds i a b [] (t ∷ ts) h k e = absurd (omega (arith, k))
  climb_binds i a b (s ∷ ss) [] h k e = absurd (omega (arith, k))
  climb_binds i a b (s ∷ ss) (t ∷ ts) h k e = join (
      climb_binds (i / 2) (combine o i a s) (combine o i b t) ss ts
        (length-combine i a s ∙ sym (length-combine i b t)) (omega (arith, k)) e)
    where
      join :
          ((combine o i a s ≡ combine o i b t) × (ss ≡ ts)) ⊎ Collision o.hash
          → ((a ≡ b) × ((s ∷ ss) ≡ (t ∷ ts))) ⊎ Collision o.hash
      join (inl (node, rest)) = elim (combine_binds i a b s t h node) [
        | inl (p, q) ↦ inl (p, cc)
        | inr c ↦ inr c
      ]
      join (inr c) = inr c

  pub verified_climb :
      (leaf : Bytes) (i : ℕ) (ss : List Bytes) (root : Bytes)
      → verify_binary_merkle_proof o leaf i ss root ≡ true
      → climb o i (leaf_node o leaf) ss ≡ root
  unfolding verify_binary_merkle_proof
  verified_climb leaf i ss root h = str_eq→eq (climb o i (leaf_node o leaf) ss) root (ground arith)

  leaf_binds : (a b : Bytes) → leaf_node o a ≡ leaf_node o b → (a ≡ b) ⊎ Collision o.hash
  leaf_binds a b e = elim (Bool-cases o.hash_leaves) [
    | inl hashed ↦ hash_binds o.hash a b (rw hashed at e)
    | inr plain ↦ inl (rw plain at e)
  ]

  verify_binds :
      (a b : Bytes) (i : ℕ) (ss ts : List Bytes) (root : Bytes)
      → length (leaf_node o a) ≡ length (leaf_node o b)
      → length ss ≡ length ts
      → verify_binary_merkle_proof o a i ss root ≡ true
      → verify_binary_merkle_proof o b i ts root ≡ true
      → ((a ≡ b) × (ss ≡ ts)) ⊎ Collision o.hash
  verify_binds a b i ss ts root h k v w =
      elim (climb_binds i (leaf_node o a) (leaf_node o b) ss ts h k
        (verified_climb a i ss root v ∙ sym (verified_climb b i ts root w))) [
          | inl (node, path) ↦ elim (leaf_binds a b node) [
            | inl same ↦ inl (same, path)
            | inr c ↦ inr c
          ]
          | inr c ↦ inr c
        ]

-- For a hash with outputs of one length and odd nodes duplicated: a leaf that verifies at index i
-- against the root of a list, by a path as long as the list's own proof, is the list's leaf i and the
-- path is the list's proof, or else the hash has a collision. The two leaves' nodes must be of one
-- length, which they are where leaves are hashed first.
pub verify_only_committed :
    (o : Required) (n : ℕ) (leaves : List Bytes) (i : ℕ) (leaf : Bytes) (siblings : List Bytes)
    (p : MerkleProof)
    → HasDigestLength o.hash n
    → o.duplicate_odd ≡ true
    → i < length leaves
    → binary_merkle_proof o leaves i ≡ ok p
    → length siblings ≡ length p.siblings
    → length (leaf_node o leaf) ≡ length (leaf_node o (get_or leaves i []))
    → verify_binary_merkle_proof o leaf i siblings (binary_merkle_root o leaves) ≡ true
    → ((leaf ≡ get_or leaves i []) × (siblings ≡ p.siblings)) ⊎ Collision o.hash
verify_only_committed o n leaves i leaf siblings p digest d h built long width v =
    let (q, q_built, _, q_root, q_verifies) = verify-binary_merkle_proof o leaves i d h in
    let same : q ≡ p = ok-injective (sym q_built ∙ built) in
    let (p_root, p_verifies) =
      subst
        (λ (r : MerkleProof).
          (r.root ≡ binary_merkle_root o leaves)
          × (verify_binary_merkle_proof o (get_or leaves i []) i r.siblings r.root ≡ true))
        same (q_root, q_verifies) in
    verify_binds o n digest leaf (get_or leaves i []) i siblings p.siblings
      (binary_merkle_root o leaves) width long v (rw p_root at p_verifies)
