-- ===== src/Merkle/Promotion.antt =====
-- What happens to the last of an odd number of nodes, under both settings of `duplicateOdd`.
use qorechain_rdk.Bytes.Layout.{append_cancel}
use qorechain_rdk.QoreHash.{hash_binds, Collision}
use qorechain_rdk.Prelude.{
  ◌+◌, ◌%◌, ◌≤◌, ◌<◌, ℕ, zero, suc, ◌≡◌, refl, sym, ap, ◌∙◌, ◌⊎◌, inl, inr, true, false, List, [],
  ◌∷◌, ◌++◌, arith, ◌==◌, Bool-cases, length, get_or, length-append, length-map, ok, ok-injective,
}
use qorechain_rdk.Bytes.{Bytes}
use qorechain_rdk.Merkle.{
  climb, sibling_of, verify_binary_merkle_proof, proof_loop, binary_merkle_proof, leaf_node,
  binary_merkle_root, MerkleProof, Required, leaf_nodes, next_level, root_loop,
}
use qorechain_rdk.Merkle.Levels.{length-next_level}
use qorechain_rdk.Merkle.Binding.{HasDigestLength, verified_climb}
use mathlib.Core.List.{map-append}

module _ (o : Required) where
  root_loop_enough :
      (f g : ℕ) (level : List Bytes)
      → length level ≤ f
      → length level ≤ g
      → root_loop o f level ≡ root_loop o g level
  unfolding root_loop
  root_loop_enough zero zero level h k = refl
  root_loop_enough zero (suc g) level h k = ground arith
  root_loop_enough (suc f) zero level h k = ground arith
  root_loop_enough (suc f) (suc g) level h k =
      ground (arith, length-next_level o level, root_loop_enough f g (next_level o level))

  -- Whole pairs come first, then what the rest gives.
  next_level-append :
      (level rest : List Bytes)
      → length level % 2 ≡ 0
      → next_level o (level ++ rest) ≡ next_level o level ++ next_level o rest
  unfolding next_level
  next_level-append [] rest h = refl
  next_level-append (l ∷ []) rest h = absurd (omega arith)
  next_level-append (l ∷ r ∷ level) rest h =
      ap (λ t. o.hash (l ++ r) ∷ t) (next_level-append level rest (omega arith))

  next_level_twice :
      (x : Bytes) → o.duplicate_odd ≡ true → next_level o (x ∷ []) ≡ next_level o (x ∷ x ∷ [])
  unfolding next_level
  next_level_twice x d = rw d refl

  root_round :
      (f : ℕ) (level : List Bytes)
      → 1 < length level
      → root_loop o (suc f) level ≡ root_loop o f (next_level o level)
  unfolding root_loop
  root_round f level h = ground arith

  length-next_level-eq :
      (xs : List Bytes) (x : Bytes)
      → length xs % 2 ≡ 0
      → o.duplicate_odd ≡ true
      → next_level o (xs ++ x ∷ []) ≡ next_level o (xs ++ x ∷ x ∷ [])
  length-next_level-eq xs x even d =
      next_level-append xs (x ∷ []) even
      ∙ ap (λ t. next_level o xs ++ t) (next_level_twice x d)
      ∙ sym (next_level-append xs (x ∷ x ∷ []) even)

  root_loop_twice :
      (xs : List Bytes) (x : Bytes) (f g : ℕ)
      → length xs % 2 ≡ 0
      → 0 < length xs
      → o.duplicate_odd ≡ true
      → length xs + 1 ≤ suc f
      → length xs + 2 ≤ suc g
      → root_loop o (suc f) (xs ++ x ∷ []) ≡ root_loop o (suc g) (xs ++ x ∷ x ∷ [])
  root_loop_twice xs x f g even pos d h k =
      let one = length-append xs (x ∷ []) in
      let two = length-append xs (x ∷ x ∷ []) in
      let next = length-next_level-eq xs x even d in
      root_round f (xs ++ x ∷ []) (omega (arith, one))
      ∙ root_loop_enough f g (next_level o (xs ++ x ∷ []))
          (omega (arith, one, length-next_level o (xs ++ x ∷ [])))
          (omega (arith, one, length-next_level o (xs ++ x ∷ [])))
      ∙ ap (root_loop o g) next
      ∙ sym (root_round g (xs ++ x ∷ x ∷ []) (omega (arith, two)))

  leaf_nodes-append :
      (xs ys : List Bytes) → leaf_nodes o (xs ++ ys) ≡ leaf_nodes o xs ++ leaf_nodes o ys
  leaf_nodes-append xs ys = elim (Bool-cases o.hash_leaves) [
    | inl e ↦ rw e (map-append o.hash xs ys)
    | inr e ↦ rw e refl
  ]

  leaf_nodes-tail :
      (xs : List Bytes) (x : Bytes)
      → (leaf_nodes o (xs ++ x ∷ []) ≡ leaf_nodes o xs ++ leaf_node o x ∷ [])
        × (leaf_nodes o (xs ++ x ∷ x ∷ []) ≡ leaf_nodes o xs ++ leaf_node o x ∷ leaf_node o x ∷ [])
        × (length (leaf_nodes o xs) ≡ length xs)
  leaf_nodes-tail xs x = elim (Bool-cases o.hash_leaves) [
    | inl e ↦
        rw e
          (map-append o.hash xs (x ∷ []), map-append o.hash xs (x ∷ x ∷ []), length-map xs o.hash)
    | inr e ↦ rw e (refl, refl, refl)
  ]

  root_of_leaves :
      (leaves : List Bytes) (n : ℕ)
      → length leaves ≡ suc n
      → binary_merkle_root o leaves ≡ get_or (root_loop o (suc n) (leaf_nodes o leaves)) 0 []
  unfolding binary_merkle_root
  root_of_leaves leaves n e =
      let some_leaf : (suc n == 0) ≡ false = ground arith in rw (e, some_leaf) refl

-- With odd nodes duplicated, repeating the last leaf of a list of odd length, three or more, does not
-- change the root: the root alone does not fix the number of leaves.
pub binary_merkle_root_twice :
    (o : Required) (leaves : List Bytes) (x : Bytes)
    → o.duplicate_odd ≡ true
    → length leaves % 2 ≡ 0
    → 0 < length leaves
    → binary_merkle_root o (leaves ++ x ∷ []) ≡ binary_merkle_root o (leaves ++ x ∷ x ∷ [])
binary_merkle_root_twice o leaves x d even pos =
    let n = length leaves in
    let (one, two, same) = leaf_nodes-tail o leaves x in
    root_of_leaves o (leaves ++ x ∷ []) n (omega (arith, length-append leaves (x ∷ [])))
    ∙ rw (one, two)
        (ap (λ l. get_or l 0 [])
          (root_loop_twice o (leaf_nodes o leaves) (leaf_node o x) n (suc n) (rw same even)
            (rw same pos) d (omega (arith, same)) (omega (arith, same))))
    ∙ sym (
        root_of_leaves o (leaves ++ x ∷ x ∷ []) (suc n)
          (omega (arith, length-append leaves (x ∷ x ∷ []))))

module _ (o : Required) (d : o.duplicate_odd ≡ false) (a b c : Bytes) where
  three_root :
      binary_merkle_root o (a ∷ b ∷ c ∷ [])
      ≡ o.hash (o.hash (leaf_node o a ++ leaf_node o b) ++ leaf_node o c)
  unfolding binary_merkle_root root_loop next_level
  three_root = elim (Bool-cases o.hash_leaves) [ inl e ↦ rw (e, d) refl | inr e ↦ rw (e, d) refl ]

  three_siblings :
      (p : MerkleProof)
      → binary_merkle_proof o (a ∷ b ∷ c ∷ []) 2 ≡ ok p
      → p.siblings ≡ o.hash (leaf_node o a ++ leaf_node o b) ∷ []
  unfolding binary_merkle_proof proof_loop next_level sibling_of
  three_siblings p built = elim (Bool-cases o.hash_leaves) [
    | inl e ↦ ap (λ r. r.siblings) (sym (ok-injective (rw (e, d) at built))) ∙ rw e refl
    | inr e ↦ ap (λ r. r.siblings) (sym (ok-injective (rw (e, d) at built))) ∙ rw e refl
  ]

-- Without duplication, over three leaves, where the last one's node is as long as an output of the
-- hash, the proof that is built for it does not verify against the root of the list, unless its node equals that of the first two or the hash has a
-- collision: the verifier takes the one sibling for a right one, and the tree puts it on the left.
pub promoted_leaf_refused :
    (o : Required) (n : ℕ) (a b c : Bytes) (p : MerkleProof)
    → HasDigestLength o.hash n
    → length (leaf_node o c) ≡ n
    → o.duplicate_odd ≡ false
    → binary_merkle_proof o (a ∷ b ∷ c ∷ []) 2 ≡ ok p
    → verify_binary_merkle_proof o c 2 p.siblings (binary_merkle_root o (a ∷ b ∷ c ∷ [])) ≡ true
    → (leaf_node o c ≡ o.hash (leaf_node o a ++ leaf_node o b)) ⊎ Collision o.hash
promoted_leaf_refused o n a b c p digest width d built v =
    let ab = o.hash (leaf_node o a ++ leaf_node o b) in
    let climbed : climb o 2 (leaf_node o c) (ab ∷ []) ≡ o.hash (ab ++ leaf_node o c) =
      rw (← three_siblings o d a b c p built) (
        verified_climb o n digest c 2 p.siblings (binary_merkle_root o (a ∷ b ∷ c ∷ [])) v
        ∙ three_root o d a b c) in
    let hashed : o.hash (leaf_node o c ++ ab) ≡ o.hash (ab ++ leaf_node o c) =
      unfold climb in climbed in
    elim (hash_binds o.hash (leaf_node o c ++ ab) (ab ++ leaf_node o c) hashed) [
      | inl same ↦
          inl
            (append_cancel (leaf_node o c) ab ab (leaf_node o c)
              (width ∙ sym (digest (leaf_node o a ++ leaf_node o b))) same).0
      | inr k ↦ inr k
    ]
