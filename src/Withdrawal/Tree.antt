-- ===== src/Withdrawal/Tree.antt =====
-- The withdrawals tree: every withdrawal of the batch has a proof that verifies, and nothing else has.
use qorechain_rdk.Prelude.{
  ◌+◌, ◌<◌, ℕ, zero, suc, ◌≡◌, refl, sym, ap, ◌∙◌, ◌⊎◌, inl, inr, true, false, some, List, [], ◌∷◌,
  ◌++◌, arith, ◌==◌, length, get_elem?, get_or, ok, ok-injective, >>=-eq-ok,
}
use mathlib.Core.List.{append-nil}
use qorechain_rdk.Text.{JsString}
use qorechain_rdk.Text.Encoder.{utf8}
use qorechain_rdk.Bytes.{Bytes}
use qorechain_rdk.QoreHash.{concat_parts, qorehash, Collision}
use qorechain_rdk.Merkle.{
  MerkleProof, resolved, binary_merkle_root, binary_merkle_proof, verify_binary_merkle_proof,
}
use qorechain_rdk.Merkle.Verify.{verify-binary_merkle_proof}
use qorechain_rdk.Merkle.Binding.{HasDigestLength, verify_only_committed}
use qorechain_rdk.Transition.{v2}
use qorechain_rdk.Withdrawal.{
  v2_leaf_parts, Withdrawal, WithdrawalLeafInput, TreeOptions, WithdrawalsTree, WithdrawalProof,
  chain_tree, leaf_input, leaf_of, leaves_from, withdrawals_tree, assemble_withdrawal_proof,
  withdrawal_leaf_v2, or_empty,
}
use qorechain_rdk.Withdrawal.Leaf.{
  v2_leaf_hash, SameWithdrawal, FitsLeafV2, withdrawal_leaf_v2_binds,
}

get_elem?-lt {ℓ} :
    {A : Type ℓ} (xs : List A) (i : ℕ) (x : A) → get_elem? xs i ≡ some x → i < length xs
get_elem?-lt [] i x h = cc
get_elem?-lt (y ∷ xs) zero x h = omega arith
get_elem?-lt (y ∷ xs) (suc i) x h = omega (arith, get_elem?-lt xs i x h)

module _ (shake : Bytes → Bytes) (opts : TreeOptions) where
  leaves_from_parts :
      (i : ℕ) (ws : List Withdrawal) (ls : List Bytes)
      → leaves_from shake opts i ws ≡ ok ls
      → (length ls ≡ length ws)
        × ((j : ℕ) (w : Withdrawal)
            → get_elem? ws j ≡ some w
            → leaf_of shake opts (leaf_input opts (i + j) w) ≡ ok (get_or ls j []))
  unfolding leaves_from
  leaves_from_parts i [] ls e = rw (← ok-injective e) (refl, λ j w h. cc)
  leaves_from_parts i (w ∷ ws) ls e =
      let (l, hl, e') = >>=-eq-ok (leaf_of shake opts (leaf_input opts i w)) _ e in
      let (ls', hls, e'') = >>=-eq-ok (leaves_from shake opts (suc i) ws) _ e' in
      let (long, each) = leaves_from_parts (suc i) ws ls' hls in
      rw (← ok-injective e'') (ap suc long, at l hl ls' each)
    where
      at :
          (l : Bytes)
          → leaf_of shake opts (leaf_input opts i w) ≡ ok l
          → (ls' : List Bytes)
          → ((j : ℕ) (v : Withdrawal)
              → get_elem? ws j ≡ some v
              → leaf_of shake opts (leaf_input opts (suc i + j) v) ≡ ok (get_or ls' j []))
          → (j : ℕ) (v : Withdrawal) → get_elem? (w ∷ ws) j ≡ some v
          → leaf_of shake opts (leaf_input opts (i + j) v) ≡ ok (get_or (l ∷ ls') j [])
      at l hl ls' each zero v h =
          let same : w ≡ v = cc h in let start : i + 0 ≡ i = omega arith in rw (← same, start) hl
      at l hl ls' each (suc j) v h =
          let next : suc i + j ≡ i + suc j = omega arith in rw (← next) (each j v h)

  tree_parts :
      (ws : List Withdrawal) (t : WithdrawalsTree)
      → withdrawals_tree shake ws opts ≡ ok t
      → (leaves_from shake opts 0 ws ≡ ok t.leaves)
        × (t.root ≡ binary_merkle_root (resolved shake chain_tree) t.leaves)
  unfolding withdrawals_tree
  tree_parts [] t e = cc
  tree_parts (w ∷ ws) t e =
      let pos : (length (w ∷ ws) == 0) ≡ false = ground arith in
      let (ls, read, built) = >>=-eq-ok (leaves_from shake opts 0 (w ∷ ws)) _ (rw pos at e) in
      rw (← ok-injective built) (read, refl)

module _ (shake : Bytes → Bytes) (opts : TreeOptions) where
  leaf_at :
      (ws : List Withdrawal) (t : WithdrawalsTree) (i : ℕ) (w : Withdrawal)
      → leaves_from shake opts 0 ws ≡ ok t.leaves
      → get_elem? ws i ≡ some w
      → leaf_of shake opts (leaf_input opts i w) ≡ ok (get_or t.leaves i [])
  leaf_at ws t i w read found =
      let start : 0 + i ≡ i = omega arith in
      rw start at ((leaves_from_parts shake opts 0 ws t.leaves read).1 i w found)

-- In the tree of a batch every withdrawal has its leaf at its own index; a proof is assembled for it
-- that carries the tree's root, and the leaf verifies with it against that root.
pub withdrawals_tree_proofs :
    (shake : Bytes → Bytes) (opts : TreeOptions) (ws : List Withdrawal) (t : WithdrawalsTree)
    (i : ℕ) (w : Withdrawal)
    → withdrawals_tree shake ws opts ≡ ok t
    → get_elem? ws i ≡ some w
    → (leaf : Bytes) × (q : WithdrawalProof) × (leaf_of shake opts (leaf_input opts i w) ≡ ok leaf)
      × (assemble_withdrawal_proof shake t.leaves i chain_tree ≡ ok q)
      × (q.withdrawals_root ≡ t.root)
      × (q.withdrawal_index ≡ i)
      × (verify_binary_merkle_proof (resolved shake chain_tree) leaf i q.proof t.root ≡ true)
withdrawals_tree_proofs shake opts ws t i w built found =
    let (read, root) = tree_parts shake opts ws t built in
    let (long, each) = leaves_from_parts shake opts 0 ws t.leaves read in
    let inside : i < length ws = get_elem?-lt ws i w found in
    let (p, made, index, p_root, verified) =
      verify-binary_merkle_proof (resolved shake chain_tree) t.leaves i refl
        (omega (arith, long, inside)) in
    (
      get_or t.leaves i [],
      record { proof = p.siblings; withdrawals_root = p.root; withdrawal_index = i },
      leaf_at shake opts ws t i w read found,
      unfold assemble_withdrawal_proof in rw made refl,
      p_root ∙ sym root,
      refl,
      rw (root, ← p_root) verified,
    )

-- The chain's node hash is SHAKE-256 of one part.
node-Collision :
    (shake : Bytes → Bytes) → Collision (resolved shake chain_tree).hash → Collision shake
unfolding qorehash
node-Collision shake (a, b, differ, same) = (a, b, differ, rw (append-nil a, append-nil b) at same)

v2_leaf :
    (shake : Bytes → Bytes) (opts : TreeOptions) (input : WithdrawalLeafInput)
    → opts.version ≡ v2
    → leaf_of shake opts input ≡ withdrawal_leaf_v2 shake (or_empty opts.chain_id) input
unfolding leaf_of
v2_leaf shake opts input e = rw e refl

assembled :
    (shake : Bytes → Bytes) (leaves : List Bytes) (i : ℕ) (q : WithdrawalProof)
    → assemble_withdrawal_proof shake leaves i chain_tree ≡ ok q
    → (p : MerkleProof) × (binary_merkle_proof (resolved shake chain_tree) leaves i ≡ ok p)
      × (q.proof ≡ p.siblings)
unfolding assemble_withdrawal_proof
assembled shake leaves i q made =
    let (p, proved, made') =
      >>=-eq-ok (binary_merkle_proof (resolved shake chain_tree) leaves i) _ made in
    (p, proved, ap (λ r. r.proof) (sym (ok-injective made')))

leaf_width :
    (shake : Bytes → Bytes) (n : ℕ) (chain : JsString) (w : WithdrawalLeafInput) (leaf : Bytes)
    → HasDigestLength shake n
    → withdrawal_leaf_v2 shake chain w ≡ ok leaf
    → length leaf ≡ n
leaf_width shake n chain w leaf digest hashed =
    rw (v2_leaf_hash shake chain w leaf hashed) (digest (concat_parts (v2_leaf_parts chain w)))

-- A v2 leaf, of whatever network, rollup, index, recipient, denomination and amount, that verifies at
-- index i against the root of a batch's v2 tree, by a path as long as the tree's own proof, is the leaf
-- of the withdrawal that the batch holds at i, for the batch's network and rollup; or SHAKE-256 has a
-- collision. So a withdrawal proof serves for no other payment, position, rollup or network.
pub withdrawals_tree_commits :
    (shake : Bytes → Bytes) (n : ℕ) (opts : TreeOptions) (ws : List Withdrawal)
    (t : WithdrawalsTree) (i : ℕ) (w : Withdrawal) (q : WithdrawalProof) (chain : JsString)
    (claimed : WithdrawalLeafInput) (leaf : Bytes) (path : List Bytes)
    → HasDigestLength shake n
    → opts.version ≡ v2
    → withdrawals_tree shake ws opts ≡ ok t
    → get_elem? ws i ≡ some w
    → assemble_withdrawal_proof shake t.leaves i chain_tree ≡ ok q
    → FitsLeafV2 (or_empty opts.chain_id) (leaf_input opts i w)
    → FitsLeafV2 chain claimed
    → withdrawal_leaf_v2 shake chain claimed ≡ ok leaf
    → length path ≡ length q.proof
    → verify_binary_merkle_proof (resolved shake chain_tree) leaf i path t.root ≡ true
    → ((utf8 chain ≡ utf8 (or_empty opts.chain_id))
        × SameWithdrawal claimed (leaf_input opts i w)
        × (path ≡ q.proof))
      ⊎ Collision shake
unfolding qorehash
withdrawals_tree_commits shake n opts ws t i w q chain claimed leaf path digest version built found
      made f g hashed long verified =
    let (read, root) = tree_parts shake opts ws t built in
    let (leaves_long, _) = leaves_from_parts shake opts 0 ws t.leaves read in
    let honest : withdrawal_leaf_v2 shake (or_empty opts.chain_id) (leaf_input opts i w)
        ≡ ok (get_or t.leaves i []) =
      sym (v2_leaf shake opts (leaf_input opts i w) version)
      ∙ leaf_at shake opts ws t i w read found in
    let (p, proved, same_proof) = assembled shake t.leaves i q made in
    let width =
      leaf_width shake n chain claimed leaf digest hashed
      ∙ sym (
          leaf_width shake n (or_empty opts.chain_id) (leaf_input opts i w) (get_or t.leaves i [])
            digest honest) in
    elim (verify_only_committed (resolved shake chain_tree) n t.leaves i leaf path p
      (λ x. digest (x ++ [])) refl (omega (arith, leaves_long, get_elem?-lt ws i w found)) proved
      (long ∙ ap length same_proof) width (rw root at verified)) [
        | inl (same, path_same) ↦
            elim (withdrawal_leaf_v2_binds shake chain (or_empty opts.chain_id) claimed
              (leaf_input opts i w) leaf g f hashed (rw (← same) at honest)) [
                | inl (network, payment) ↦ inl (network, payment, path_same ∙ sym same_proof)
                | inr c ↦ inr c
              ]
        | inr c ↦ inr (node-Collision shake c)
      ]
