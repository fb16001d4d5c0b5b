-- ===== src/Merkle/Verify.antt =====
-- A proof built for a leaf verifies against the root, and how long a proof is.
use qorechain_rdk.Prelude.{
  ◌/◌, ◌^◌, ◌≤◌, ◌<◌, ℕ, zero, suc, ◌≡◌, refl, sym, inl, inr, true, false, List, [], ◌∷◌, map,
  arith, ltb, leb, ◌==◌, Bool-cases, length, get_or, length-append, length-map, ok, err,
}
use native.Mathlib.Nat.{pow-suc}
use qorechain_rdk.Merkle.{
  index_out_of_range, binary_merkle_proof, binary_merkle_root, MerkleProof, leaf_node, leaf_nodes,
  verify_binary_merkle_proof,
}
use qorechain_rdk.Text.{str_eq_refl}
use qorechain_rdk.Bytes.{Bytes}
use qorechain_rdk.Merkle.{Required, next_level, root_loop, sibling_of, proof_loop, climb}
use qorechain_rdk.Merkle.Levels.{length-next_level}
use qorechain_rdk.Merkle.Path.{path, proof_loop_parts, path_round, path_end, climb-path}

module _ (o : Required) where
  get_or-map :
      (h : Bytes → Bytes) (xs : List Bytes) (i : ℕ)
      → i < length xs
      → get_or (map h xs) i [] ≡ h (get_or xs i [])
  get_or-map h [] i lt = absurd (omega arith)
  get_or-map h (x ∷ xs) zero lt = refl
  get_or-map h (x ∷ xs) (suc i) lt = get_or-map h xs i (omega arith)

  leaf_nodes_parts :
      (leaves : List Bytes)
      → (length (leaf_nodes o leaves) ≡ length leaves)
        × ((i : ℕ)
            → i < length leaves
            → get_or (leaf_nodes o leaves) i [] ≡ leaf_node o (get_or leaves i []))
  leaf_nodes_parts leaves = elim (Bool-cases o.hash_leaves) [
    | inl e ↦ rw e (length-map leaves o.hash, get_or-map o.hash leaves)
    | inr e ↦ rw e (refl, λ i h. refl)
  ]

  -- What `binaryMerkleProof` returns in range.
  abbrev built : List Bytes → ℕ → MerkleProof
  built leaves i = record {
    siblings = path o (length leaves) (leaf_nodes o leaves) i;
    root = get_or (root_loop o (length leaves) (leaf_nodes o leaves)) 0 [];
    index = i;
  }

  proof_built :
      (leaves : List Bytes) (i : ℕ)
      → i < length leaves
      → binary_merkle_proof o leaves i ≡ ok (built leaves i)
  unfolding binary_merkle_proof
  proof_built leaves i h =
      let inside : leb (length leaves) i ≡ false = ground arith in
      rw (inside, proof_loop_parts o (length leaves) (leaf_nodes o leaves) i []) refl

  proof_past :
      (leaves : List Bytes) (i : ℕ)
      → leb (length leaves) i ≡ true
      → binary_merkle_proof o leaves i ≡ err (index_out_of_range i (length leaves))
  unfolding binary_merkle_proof
  proof_past leaves i past = rw past refl

  root_built :
      (leaves : List Bytes) (i : ℕ)
      → i < length leaves
      → binary_merkle_root o leaves ≡ (built leaves i).root
  unfolding binary_merkle_root
  root_built leaves i h =
      let some_leaf : (length leaves == 0) ≡ false = ground arith in rw some_leaf refl

  verify_of_climb :
      (leaf : Bytes) (i : ℕ) (siblings : List Bytes) (root : Bytes)
      → climb o i (leaf_node o leaf) siblings ≡ root
      → verify_binary_merkle_proof o leaf i siblings root ≡ true
  unfolding verify_binary_merkle_proof
  verify_of_climb leaf i siblings root e = rw e (ground (arith, str_eq_refl root))

  verify_built :
      (leaves : List Bytes) (i : ℕ)
      → o.duplicate_odd ≡ true
      → i < length leaves
      → verify_binary_merkle_proof o
          (get_or leaves i [])
          i
          (built leaves i).siblings
          (built leaves i).root
        ≡ true
  verify_built leaves i d h =
      let (long, at) = leaf_nodes_parts leaves in
      verify_of_climb (get_or leaves i []) i (built leaves i).siblings (built leaves i).root (
        rw (← at i h) (
          climb-path o (length leaves) (leaf_nodes o leaves) i d (omega (arith, long))
            (omega (arith, long))))

-- With odd nodes duplicated (the default, and the chain's tree), whatever the hash and whether leaves
-- are hashed or not: for every leaf of the list a proof is built, it carries the index and the root of
-- the list, and it verifies against that root.
pub verify-binary_merkle_proof :
    (o : Required) (leaves : List Bytes) (i : ℕ)
    → o.duplicate_odd ≡ true
    → i < length leaves
    → (p : MerkleProof) × (binary_merkle_proof o leaves i ≡ ok p)
      × (p.index ≡ i)
      × (p.root ≡ binary_merkle_root o leaves)
      × (verify_binary_merkle_proof o (get_or leaves i []) i p.siblings p.root ≡ true)
verify-binary_merkle_proof o leaves i d h = (
  built o leaves i,
  proof_built o leaves i h,
  refl,
  sym (root_built o leaves i h),
  verify_built o leaves i d h,
)

module _ (o : Required) where
  sibling_small : (level : List Bytes) (i : ℕ) → length (sibling_of o level i) ≤ 1
  unfolding sibling_of
  sibling_small level i = ground arith

  path_depth :
      (fuel d : ℕ) (level : List Bytes) (i : ℕ)
      → length level ≤ 2 ^ d
      → length (path o fuel level i) ≤ d
  path_depth zero d level i h = unfold proof_loop in omega arith
  path_depth (suc fuel) zero level i h =
      let done : ltb 1 (length level) ≡ false = ground arith in
      rw (path_end o fuel level i done) (omega arith)
  path_depth (suc fuel) (suc d) level i h = elim (Bool-cases (ltb 1 (length level))) [
    | inl more ↦ rw (path_round o fuel level i more) (
        omega (
          arith,
          length-append {0} (sibling_of o level i) (path o fuel (next_level o level) (i / 2)),
          sibling_small level i,
          path_depth fuel d (next_level o level) (i / 2)
              (omega (arith, length-next_level o level, pow-suc 2 d)),
        ))
    | inr done ↦ rw (path_end o fuel level i done) (omega arith)
  ]

-- A proof over at most 2 ^ d leaves has at most d siblings, whichever way odd nodes are treated.
pub binary_merkle_proof_depth :
    (o : Required) (leaves : List Bytes) (i d : ℕ) (p : MerkleProof)
    → length leaves ≤ 2 ^ d
    → binary_merkle_proof o leaves i ≡ ok p
    → length p.siblings ≤ d
binary_merkle_proof_depth o leaves i d p h e = elim (Bool-cases (leb (length leaves) i)) [
  | inl past ↦ absurd (cc (proof_past o leaves i past))
  | inr inside ↦
      let same : built o leaves i ≡ p = cc (proof_built o leaves i (ground arith)) in
      rw (← same) (
        path_depth o (length leaves) d (leaf_nodes o leaves) i
          (omega (arith, (leaf_nodes_parts o leaves).0)))
]
