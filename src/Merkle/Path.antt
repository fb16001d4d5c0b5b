-- ===== src/Merkle/Path.antt =====
-- The sibling path that the proof loop builds, and that climbing it from the node gives the root.
use qorechain_rdk.Prelude.{
  ◌/◌, ◌≤◌, ◌<◌, ℕ, zero, suc, ◌≡◌, refl, ap, ◌∙◌, inl, inr, true, false, List, [], ◌∷◌, ◌++◌,
  arith, ltb, ltb→lt, Bool-cases, length, get_or,
}
use mathlib.Core.List.{append-nil, append_assoc}
use qorechain_rdk.Bytes.{Bytes}
use qorechain_rdk.Merkle.{Required, next_level, root_loop, sibling_of, combine, proof_loop, climb}
use qorechain_rdk.Merkle.Levels.{length-next_level, parent_of_pair}

module _ (o : Required) (fuel : ℕ) (level : List Bytes) where
  root_more :
      ltb 1 (length level) ≡ true
      → root_loop o (suc fuel) level ≡ root_loop o fuel (next_level o level)
  unfolding root_loop
  root_more more = rw (more, root_loop) refl

  root_done : ltb 1 (length level) ≡ false → root_loop o (suc fuel) level ≡ level
  unfolding root_loop
  root_done done = rw (done, root_loop) refl

  proof_more :
      (i : ℕ) (siblings : List Bytes)
      → ltb 1 (length level) ≡ true
      → proof_loop o (suc fuel) level i siblings
        ≡ proof_loop o fuel (next_level o level) (i / 2) (siblings ++ sibling_of o level i)
  unfolding proof_loop
  proof_more i siblings more = rw (more, proof_loop) refl

  proof_done :
      (i : ℕ) (siblings : List Bytes)
      → ltb 1 (length level) ≡ false
      → proof_loop o (suc fuel) level i siblings ≡ (siblings, level)
  unfolding proof_loop
  proof_done i siblings done = rw (done, proof_loop) refl

module _ (o : Required) where
  -- The siblings that the loop pushes, with none before them.
  abbrev pub path : ℕ → List Bytes → ℕ → List Bytes
  path fuel level i = (proof_loop o fuel level i []).0

  -- The pushed siblings come in order behind those already there, and the level is the root loop's.
  pub proof_loop_parts :
      (fuel : ℕ) (level : List Bytes) (i : ℕ) (siblings : List Bytes)
      → proof_loop o fuel level i siblings
        ≡ (siblings ++ (proof_loop o fuel level i []).0, root_loop o fuel level)
  proof_loop_parts zero level i siblings =
      unfold proof_loop root_loop in rw (append-nil siblings) refl
  proof_loop_parts (suc fuel) level i siblings = elim (Bool-cases (ltb 1 (length level))) [
    | inl more ↦
        let ih = proof_loop_parts fuel (next_level o level) (i / 2) in
        rw
          (
            proof_more o fuel level i siblings more,
            proof_more o fuel level i [] more,
            root_more o fuel level more,
          )
          (rw (ih (siblings ++ sibling_of o level i), ih (sibling_of o level i), append_assoc) refl)
    | inr done ↦
        rw
          (
            proof_done o fuel level i siblings done,
            proof_done o fuel level i [] done,
            root_done o fuel level done,
            append-nil,
          )
          refl
  ]

  -- One round of the proof: the sibling first, then the proof from the next level.
  pub path_round :
      (fuel : ℕ) (level : List Bytes) (i : ℕ)
      → ltb 1 (length level) ≡ true
      → path (suc fuel) level i ≡ sibling_of o level i ++ path fuel (next_level o level) (i / 2)
  path_round fuel level i more =
      ap (λ (p : List Bytes × List Bytes). p.0)
        (proof_more o fuel level i [] more
          ∙ proof_loop_parts fuel (next_level o level) (i / 2) (sibling_of o level i))

  pub path_end :
      (fuel : ℕ) (level : List Bytes) (i : ℕ)
      → ltb 1 (length level) ≡ false
      → path (suc fuel) level i ≡ []
  path_end fuel level i done =
      ap (λ (p : List Bytes × List Bytes). p.0) (proof_done o fuel level i [] done)

  climb-nil : (i : ℕ) (node : Bytes) → climb o i node [] ≡ node
  unfolding climb
  climb-nil i node = refl

  climb-cons :
      (i : ℕ) (node s : Bytes) (siblings : List Bytes)
      → climb o i node (s ∷ siblings) ≡ climb o (i / 2) (combine o i node s) siblings
  unfolding climb
  climb-cons i node s siblings = refl

  pub climb-path :
      (fuel : ℕ) (level : List Bytes) (i : ℕ)
      → o.duplicate_odd ≡ true
      → i < length level
      → length level ≤ fuel
      → climb o i (get_or level i []) (path fuel level i) ≡ get_or (root_loop o fuel level) 0 []
  climb-path zero level i d h k = absurd (omega arith)
  climb-path (suc fuel) level i d h k = elim (Bool-cases (ltb 1 (length level))) [
    | inl more ↦
        let (s, pushed, parent) = parent_of_pair o level i d h in
        rw (path_round fuel level i more, pushed, root_more o fuel level more, climb-cons, parent)
          (climb-path fuel (next_level o level) (i / 2) d
            (omega (arith, length-next_level o level, ltb→lt 1 (length level) more))
            (omega (arith, length-next_level o level, ltb→lt 1 (length level) more)))
    | inr done ↦
        let first : i ≡ 0 = ground arith in
        rw (path_end fuel level i done, root_done o fuel level done, first, climb-nil) refl
  ]
