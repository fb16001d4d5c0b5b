-- ===== src/Merkle.antt =====
-- packages/ts/src/bridge/merkle.ts: binary Merkle roots, proofs and their verification.
-- A level is a list of nodes; reads `level[i]` in range are `get_or level i []`.
pub mod Levels
pub mod Path
pub mod Verify
pub mod Binding
pub mod Promotion
mod Tests
use qorechain_rdk.Prelude.{
  get_or, ◌+◌, ◌-◌, ◌/◌, ◌%◌, ℕ, zero, suc, Bool, true, false, not, Option, List, [], ◌∷◌, ◌++◌,
  map, ltb, leb, ◌==◌, if◌then◌else◌, length, Result, ok, err,
}
use qorechain_rdk.Text.{str_eq}
use qorechain_rdk.Bytes.{Bytes}
use qorechain_rdk.QoreHash.{qorehash}
use mathlib.Core.Option

pub record MerkleOptions : Type 0 where
  pub hash : Option (Bytes → Bytes)
  pub hash_leaves : Option Bool
  pub duplicate_odd : Option Bool

-- `Required<MerkleOptions>`.
pub record Required : Type 0 where
  pub hash : Bytes → Bytes
  pub hash_leaves : Bool
  pub duplicate_odd : Bool

abbrev pub resolved : (Bytes → Bytes) → MerkleOptions → Required
resolved shake options = record {
  hash = Option.get_or options.hash (λ bytes. qorehash shake (bytes ∷ []));
  hash_leaves = Option.get_or options.hash_leaves true;
  duplicate_odd = Option.get_or options.duplicate_odd true;
}

module _ (o : Required) where
  abbrev pub leaf_node : Bytes → Bytes
  leaf_node leaf = if o.hash_leaves then o.hash leaf else leaf

  abbrev pub leaf_nodes : List Bytes → List Bytes
  leaf_nodes leaves = if o.hash_leaves then map o.hash leaves else leaves

  -- The inner `for` loop: `next` from `level`, two nodes at a time.
  unfoldable pub next_level : List Bytes → List Bytes
  next_level [] = []
  next_level (left ∷ []) = (if o.duplicate_odd then o.hash (left ++ left) else left) ∷ []
  next_level (left ∷ right ∷ level) = o.hash (left ++ right) ∷ next_level level

  -- `while (level.length > 1)`; each round at least halves the level, rounded up.
  unfoldable pub root_loop : ℕ → List Bytes → List Bytes
  root_loop zero level = level
  root_loop (suc fuel) level = elim (ltb 1 (length level)) [
    | true ↦ root_loop fuel (next_level level)
    | false ↦ level
  ]

  unfoldable pub binary_merkle_root : List Bytes → Bytes
  binary_merkle_root leaves =
      if length leaves == 0
      then o.hash []
      else get_or (root_loop (length leaves) (leaf_nodes leaves)) 0 []

  -- What one round pushes on `siblings`: at most one node.
  unfoldable pub sibling_of : List Bytes → ℕ → List Bytes
  sibling_of level idx =
      let is_right = idx % 2 == 1 in
      let sibling_idx = if is_right then idx - 1 else idx + 1 in
      if ltb sibling_idx (length level)
      then get_or level sibling_idx [] ∷ []
      else if o.duplicate_odd
      then get_or level idx [] ∷ []
      else []

  unfoldable pub proof_loop : ℕ → List Bytes → ℕ → List Bytes → List Bytes × List Bytes
  proof_loop zero level idx siblings = (siblings, level)
  proof_loop (suc fuel) level idx siblings = elim (ltb 1 (length level)) [
    | true ↦ proof_loop fuel (next_level level) (idx / 2) (siblings ++ sibling_of level idx)
    | false ↦ (siblings, level)
  ]

pub record MerkleProof : Type 0 where
  pub siblings : List Bytes
  pub root : Bytes
  pub index : ℕ

pub data MerkleError : Type 0 where
  index_out_of_range : ℕ → ℕ → MerkleError

module _ (o : Required) where
  unfoldable pub binary_merkle_proof : List Bytes → ℕ → Result MerkleError MerkleProof
  binary_merkle_proof leaves index =
      if leb (length leaves) index
      then err (index_out_of_range index (length leaves))
      else let (siblings, level) = proof_loop o (length leaves) (leaf_nodes o leaves) index [] in
        ok (record { siblings = siblings; root = get_or level 0 []; index = index })

  -- The node that one sibling gives: the sibling goes first when the node is a right child.
  abbrev pub combine : ℕ → Bytes → Bytes → Bytes
  combine idx node sibling =
      if idx % 2 == 1 then o.hash (sibling ++ node) else o.hash (node ++ sibling)

  unfoldable pub climb : ℕ → Bytes → List Bytes → Bytes
  climb idx node [] = node
  climb idx node (sibling ∷ siblings) = climb (idx / 2) (combine idx node sibling) siblings

  unfoldable pub verify_binary_merkle_proof : Bytes → ℕ → List Bytes → Bytes → Bool
  verify_binary_merkle_proof leaf index siblings root =
      let node = climb index (leaf_node o leaf) siblings in
      if not (length node == length root) then false else str_eq node root
