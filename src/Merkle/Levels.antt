-- ===== src/Merkle/Levels.antt =====
-- One round of the Merkle loops: how a level shrinks, and that a node and its sibling give the parent.
use qorechain_rdk.Prelude.{
  get_or, ◌+◌, ◌/◌, ◌%◌, ◌≤◌, ◌<◌, ℕ, zero, suc, ◌≡◌, refl, sym, ◌∙◌, true, List, [], ◌∷◌, arith,
  length,
}
use qorechain_rdk.Bytes.{Bytes}
use qorechain_rdk.Merkle.{get_or, Required, next_level, root_loop, sibling_of, combine}

module _ (o : Required) where
  pub length-next_level :
      (level : List Bytes) → length (next_level o level) ≡ (length level + 1) / 2
  unfolding next_level
  length-next_level [] = omega arith
  length-next_level (l ∷ []) = omega arith
  length-next_level (l ∷ r ∷ level) = omega (arith, length-next_level level)

  -- With a fuel of the level's length the loop ends with exactly one node.
  pub length-root_loop :
      (fuel : ℕ) (level : List Bytes)
      → 0 < length level
      → length level ≤ fuel
      → length (root_loop o fuel level) ≡ 1
  unfolding root_loop
  length-root_loop zero level h k = absurd (omega arith)
  length-root_loop (suc fuel) level h k =
      ground (arith, length-next_level level, length-root_loop fuel (next_level o level))

  next_parent :
      (l r : Bytes) (level : List Bytes) (i : ℕ)
      → get_or (next_level o (l ∷ r ∷ level)) (suc (suc i) / 2) []
        ≡ get_or (next_level o level) (i / 2) []
  unfolding next_level
  next_parent l r level i = let e : suc (suc i) / 2 ≡ suc (i / 2) = omega arith in rw e refl

  next_sibling :
      (l r : Bytes) (level : List Bytes) (i : ℕ)
      → sibling_of o (l ∷ r ∷ level) (suc (suc i)) ≡ sibling_of o level i
  unfolding sibling_of
  next_sibling l r level zero = ground arith
  next_sibling l r level (suc i) = ground arith

  -- With odd nodes duplicated, every node has one sibling, and the two combine to the parent.
  pub parent_of_pair :
      (level : List Bytes) (i : ℕ)
      → o.duplicate_odd ≡ true
      → i < length level
      → (s : Bytes) × (sibling_of o level i ≡ s ∷ [])
        × (combine o i (get_or level i []) s ≡ get_or (next_level o level) (i / 2) [])
  parent_of_pair [] i d h = absurd (omega arith)
  parent_of_pair (l ∷ []) zero d h =
      (l, unfold sibling_of in ground arith, unfold next_level in ground arith)
  parent_of_pair (l ∷ []) (suc i) d h = absurd (omega arith)
  parent_of_pair (l ∷ r ∷ level) zero d h =
      (r, unfold sibling_of in ground arith, unfold next_level in ground arith)
  parent_of_pair (l ∷ r ∷ level) (suc zero) d h =
      (l, unfold sibling_of in ground arith, unfold next_level in ground arith)
  parent_of_pair (l ∷ r ∷ level) (suc (suc i)) d h =
      let (s, pushed, parent) = parent_of_pair level i d (omega arith) in
      (
        s,
        next_sibling l r level i ∙ pushed,
        same_parity (get_or level i []) s i ∙ parent ∙ sym (next_parent l r level i),
      )
    where
      same_parity : (node s : Bytes) (i : ℕ) → combine o (suc (suc i)) node s ≡ combine o i node s
      same_parity node s i = let e : suc (suc i) % 2 ≡ i % 2 = omega arith in rw e refl
