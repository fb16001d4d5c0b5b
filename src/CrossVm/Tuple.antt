-- ===== src/CrossVm/Tuple.antt =====
-- `encodeDynamicTuple` of packages/ts/src/crossvm/index.ts against a decoder of dynamic arguments.
use qorechain_rdk.Prelude.{
  ◌+◌, ◌-◌, ◌*◌, ◌^◌, ◌≤◌, ◌<◌, ℕ, zero, suc, ◌≡◌, refl, sym, ◌∙◌, subst, some, List, [], ◌∷◌, ◌++◌,
  arith, length, get_elem?, length-append, drop, replicate, take-append, drop-append,
}
use qorechain_rdk.QoreHash.{concat_parts}
use qorechain_rdk.CrossVm.Words.{length-u256be, read_word-u256be, argument_at}
use qorechain_rdk.CrossVm.{tuple_loop, ceil_32, Bytes, u256be, read_word, chunk_of, pad_right_32}
use mathlib.Core.List.{append_assoc}

-- The item is read back from its chunk, whatever stands around it.
chunk_read :
    (pre item post : Bytes) (position offset : ℕ)
    → offset ≡ length pre
    → length item < 256 ^ 32
    → read_word (pre ++ (chunk_of item ++ post)) position ≡ offset
    → argument_at (pre ++ (chunk_of item ++ post)) position ≡ item
unfolding chunk_of pad_right_32 argument_at
chunk_read pre item post position offset e h r =
    let zeros : Bytes = replicate (ceil_32 (length item) - length item) 0 in
    let shape : pre ++ (chunk_of item ++ post)
        ≡ pre ++ (u256be (length item) ++ (item ++ (zeros ++ post))) =
      simp append_assoc in
    let shape' : pre ++ (chunk_of item ++ post)
        ≡ (pre ++ u256be (length item)) ++ (item ++ (zeros ++ post)) =
      simp append_assoc in
    let len : read_word (pre ++ (chunk_of item ++ post)) offset ≡ length item =
      subst (λ t. read_word t offset ≡ length item) (sym shape)
        (read_word-u256be pre (length item) (item ++ (zeros ++ post)) offset e h) in
    let rest : drop (offset + 32) (pre ++ (chunk_of item ++ post)) ≡ item ++ (zeros ++ post) =
      subst (λ t. drop (offset + 32) t ≡ item ++ (zeros ++ post)) (sym shape')
        (drop-append (pre ++ u256be (length item)) (item ++ (zeros ++ post)) (offset + 32) (
          omega (
            arith,
            length-append {0} pre (u256be (length item)),
            length-u256be (length item),
            e,
          ))) in
    rw (r, len, rest) (take-append item (zeros ++ post) (length item) refl)

item-le-chunk : (item : Bytes) → length item + 32 ≤ length (chunk_of item)
unfolding chunk_of pad_right_32
item-le-chunk item =
    let zeros : Bytes = replicate (ceil_32 (length item) - length item) 0 in
    omega (
      arith,
      length-append {0} (u256be (length item)) (item ++ zeros),
      length-u256be (length item),
      length-append {0} item zeros,
    )

pub length-offsets :
    (head_len running : ℕ) (items : List Bytes)
    → length (concat_parts (tuple_loop head_len running items).0) ≡ 32 * length items
unfolding tuple_loop
length-offsets head_len running [] = refl
length-offsets head_len running (x ∷ xs) =
    let more = running + length (chunk_of x) in
    omega (
      arith,
      length-append {0} (u256be (head_len + running))
          (concat_parts (tuple_loop head_len more xs).0),
      length-u256be (head_len + running),
      length-offsets head_len more xs,
    )

-- The first argument's offset leads to the first chunk. `offs` are the other offsets, `tail` the other chunks.
first_read :
    (x pre offs mid tail : Bytes) (start : ℕ)
    → length pre + 32 + length offs + length mid ≡ start
    → start + length (chunk_of x) < 256 ^ 32
    → argument_at (pre ++ ((u256be start ++ offs) ++ (mid ++ (chunk_of x ++ tail)))) (length pre)
      ≡ x
first_read x pre offs mid tail start e h =
    let shape : pre ++ ((u256be start ++ offs) ++ (mid ++ (chunk_of x ++ tail)))
        ≡ pre ++ (u256be start ++ (offs ++ (mid ++ (chunk_of x ++ tail)))) =
      simp append_assoc in
    let shape' : pre ++ ((u256be start ++ offs) ++ (mid ++ (chunk_of x ++ tail)))
        ≡ (pre ++ (u256be start ++ (offs ++ mid))) ++ (chunk_of x ++ tail) =
      simp append_assoc in
    let word : read_word ((pre ++ (u256be start ++ (offs ++ mid))) ++ (chunk_of x ++ tail))
          (length pre)
        ≡ start =
      subst (λ t. read_word t (length pre) ≡ start) (sym shape ∙ shape')
        (read_word-u256be pre start (offs ++ (mid ++ (chunk_of x ++ tail))) (length pre) refl
          (omega arith)) in
    let place : start ≡ length (pre ++ (u256be start ++ (offs ++ mid))) = omega (
      arith,
      length-append {0} pre (u256be start ++ (offs ++ mid)),
      length-append {0} (u256be start) (offs ++ mid),
      length-append {0} offs mid,
      length-u256be start,
      e,
    ) in
    subst (λ t. argument_at t (length pre) ≡ x) (sym shape')
      (chunk_read (pre ++ (u256be start ++ (offs ++ mid))) x tail (length pre) start place
        (omega (arith, item-le-chunk x)) word)

-- Every item is what the decoder reads at its place of the head. `pre` are the words before it and
-- `mid` the chunks before its own.
pub tuple_reads :
    (items : List Bytes) (i : ℕ) (item : Bytes) (head_len running : ℕ) (pre mid : Bytes)
    → get_elem? items i ≡ some item
    → length pre + 32 * length items + length mid ≡ head_len + running
    → head_len + running + length (concat_parts (tuple_loop head_len running items).1) < 256 ^ 32
    → argument_at
        (pre
          ++ (concat_parts (tuple_loop head_len running items).0
              ++ (mid ++ concat_parts (tuple_loop head_len running items).1)))
        (length pre + 32 * i)
      ≡ item
unfolding tuple_loop
tuple_reads [] i item head_len running pre mid g e h = absurd (cc)
tuple_reads (x ∷ xs) zero item head_len running pre mid g e h =
    let more = running + length (chunk_of x) in
    let offs = concat_parts (tuple_loop head_len more xs).0 in
    let tail = concat_parts (tuple_loop head_len more xs).1 in
    let same : x ≡ item = cc in
    let at_start : length pre + 32 * 0 ≡ length pre = omega arith in
    rw at_start (
      first_read x pre offs mid tail (head_len + running)
        (omega (arith, length-offsets head_len more xs, e))
        (omega (arith, length-append {0} (chunk_of x) tail, h))
      ∙ same)
tuple_reads (x ∷ xs) (suc i) item head_len running pre mid g e h =
    let more = running + length (chunk_of x) in
    let offs = concat_parts (tuple_loop head_len more xs).0 in
    let tail = concat_parts (tuple_loop head_len more xs).1 in
    let word = u256be (head_len + running) in
    let ih =
      tuple_reads xs i item head_len more (pre ++ word) (mid ++ chunk_of x) g
        (omega (
          arith,
          length-append {0} pre word,
          length-u256be (head_len + running),
          length-append {0} mid (chunk_of x),
          e,
        ))
        (omega (arith, length-append {0} (chunk_of x) tail, h)) in
    let shape : (pre ++ word) ++ (offs ++ ((mid ++ chunk_of x) ++ tail))
        ≡ pre ++ ((word ++ offs) ++ (mid ++ (chunk_of x ++ tail))) =
      simp append_assoc in
    let place : length (pre ++ word) + 32 * i ≡ length pre + 32 * suc i =
      omega (arith, length-append {0} pre word, length-u256be (head_len + running)) in
    subst
      (λ (p : ℕ). argument_at (pre ++ ((word ++ offs) ++ (mid ++ (chunk_of x ++ tail)))) p ≡ item)
      place (subst (λ t. argument_at t (length (pre ++ word) + 32 * i) ≡ item) shape ih)
