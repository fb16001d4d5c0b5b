-- ===== src/Transition/Binding.antt =====
-- What a transition root commits to.
use mathlib.Core.List.{append_assoc}
use qorechain_rdk.Prelude.{
  ◌≡◌, sym, ap, ◌∙◌, ◌⊎◌, inl, inr, true, some, [], ◌++◌, arith, length, Result, ok, err,
  Result-cases,
}
use qorechain_rdk.Bytes.Hex.{raw}
use qorechain_rdk.Transition.Preimage.{v2_preimage_inj, FitsFields}
use qorechain_rdk.Bytes.{Bytes}
use qorechain_rdk.QoreHash.{concat_parts, hash_binds, Collision, qorehash}
use qorechain_rdk.Transition.{
  batch_transition_root_v1, utf8, TransitionError, TransitionInput, bytes_of, given, truthy,
  v2_parts, batch_transition_root_v2,
}

-- The bytes of the fields that a v2 root covers, and how the root comes of them.
pub record Covered (shake : Bytes → Bytes) (input : TransitionInput) (root : Bytes) : Type 0 where
  pub prev : Bytes
  pub hash : Bytes
  pub withdrawals : Bytes
  pub prev_read : bytes_of (some input.prev_state_root) ≡ ok prev
  pub hash_read : bytes_of input.data_hash ≡ ok hash
  pub withdrawals_read : bytes_of input.withdrawals_root ≡ ok withdrawals
  pub chain_named : truthy input.chain_id ≡ true
  pub rollup_named : truthy input.rollup_id ≡ true
  pub withdrawals_long : (length withdrawals ≡ 0) ⊎ (length withdrawals ≡ 32)
  pub hashed :
      root
      ≡ qorehash shake (
          v2_parts
            (given input.chain_id)
            (given input.rollup_id)
            prev
            hash
            input.tx_count
            withdrawals)

pub covered :
    (shake : Bytes → Bytes) (input : TransitionInput) (root : Bytes)
    → batch_transition_root_v2 shake input ≡ ok root
    → Covered shake input root
unfolding batch_transition_root_v2
covered shake input root e = elim (Result-cases (bytes_of input.withdrawals_root)) [
  | inl (w, hw) ↦ elim (Result-cases (bytes_of (some input.prev_state_root))) [
    | inl (p, hp) ↦ elim (Result-cases (bytes_of input.data_hash)) [
      | inl (d, hd) ↦ record {
        prev = p;
        hash = d;
        withdrawals = w;
        prev_read = hp;
        hash_read = hd;
        withdrawals_read = hw;
        chain_named = ground arith;
        rollup_named = ground arith;
        withdrawals_long = ground arith;
        hashed = ground arith;
      }
      | inr (x, hd) ↦ absurd (ground arith)
    ]
    | inr (x, hp) ↦ absurd (ground arith)
  ]
  | inr (x, hw) ↦ absurd (ground arith)
]

abbrev result_or : Result TransitionError Bytes → Bytes
result_or (ok b) = b
result_or (err e) = []

-- The fields of an input fit their prefixes; every real batch is far below these bounds.
abbrev pub FitsInput : TransitionInput → Type 0
FitsInput input =
    FitsFields (given input.chain_id) (given input.rollup_id)
      (result_or (bytes_of (some input.prev_state_root))) (result_or (bytes_of input.data_hash))
      input.tx_count (result_or (bytes_of input.withdrawals_root))

-- Two inputs agree on all that the v2 binding covers. Ids are compared by their UTF-8 bytes.
pub record SameBatch (a b : TransitionInput) : Type 0 where
  pub chain : utf8 (given a.chain_id) ≡ utf8 (given b.chain_id)
  pub rollup : utf8 (given a.rollup_id) ≡ utf8 (given b.rollup_id)
  pub prev : bytes_of (some a.prev_state_root) ≡ bytes_of (some b.prev_state_root)
  pub hash : bytes_of a.data_hash ≡ bytes_of b.data_hash
  pub count : a.tx_count ≡ b.tx_count
  pub withdrawals : bytes_of a.withdrawals_root ≡ bytes_of b.withdrawals_root

fields_of :
    (shake : Bytes → Bytes) (input : TransitionInput) (root : Bytes) (c : Covered shake input root)
    → FitsInput input
    → FitsFields
        (given input.chain_id)
        (given input.rollup_id)
        c.prev
        c.hash
        input.tx_count
        c.withdrawals
fields_of shake input root c f = rw (c.prev_read, c.hash_read, c.withdrawals_read) at f

-- Two inputs with the same v2 transition root agree on the chain id, the rollup id, both roots, the
-- data hash and the transaction count, or the hash has a collision: a root computed for one network,
-- rollup or batch serves for no other.
pub batch_transition_root_v2_binds :
    (shake : Bytes → Bytes) (a b : TransitionInput) (root : Bytes)
    → FitsInput a
    → FitsInput b
    → batch_transition_root_v2 shake a ≡ ok root
    → batch_transition_root_v2 shake b ≡ ok root
    → SameBatch a b ⊎ Collision shake
unfolding qorehash
batch_transition_root_v2_binds shake a b root f g ea eb =
    let c = covered shake a root ea in
    let k = covered shake b root eb in
    let parts =
      v2_parts (given a.chain_id) (given a.rollup_id) c.prev c.hash a.tx_count c.withdrawals in
    let parts' =
      v2_parts (given b.chain_id) (given b.rollup_id) k.prev k.hash b.tx_count k.withdrawals in
    elim (hash_binds shake (concat_parts parts) (concat_parts parts') (sym c.hashed ∙ k.hashed)) [
      | inl same ↦
          let (p1, p2, p3, p4, p5, p6) =
            v2_preimage_inj (given a.chain_id) (given b.chain_id) (given a.rollup_id)
              (given b.rollup_id) c.prev k.prev c.hash k.hash a.tx_count b.tx_count c.withdrawals
              k.withdrawals (fields_of shake a root c f) (fields_of shake b root k g) same in
          inl (record {
            chain = p1;
            rollup = p2;
            prev = c.prev_read ∙ ap ok p3 ∙ sym k.prev_read;
            hash = c.hash_read ∙ ap ok p4 ∙ sym k.hash_read;
            count = p5;
            withdrawals = c.withdrawals_read ∙ ap ok p6 ∙ sym k.withdrawals_read;
          })
      | inr x ↦ inr x
    ]

-- The v1 binding joins its first two fields with nothing between them: bytes moved from the front of
-- the data hash to the end of the previous root leave the root as it was.
pub batch_transition_root_v1_shift :
    (shake : Bytes → Bytes) (input : TransitionInput) (prev moved hash : Bytes)
    → batch_transition_root_v1 shake
        (record input { prev_state_root = raw (prev ++ moved); data_hash = some (raw hash) })
      ≡ batch_transition_root_v1 shake
          (record input { prev_state_root = raw prev; data_hash = some (raw (moved ++ hash)) })
unfolding batch_transition_root_v1 bytes_of qorehash
batch_transition_root_v1_shift shake input prev moved hash =
    ap (λ t. ok (shake t)) (simp append_assoc)
