-- ===== src/Tx/Wire/Parses.antt =====
-- The decoders of packages/ts/src/tx/codecs.ts against a relation that has neither positions nor
-- fuel: bytes parse to a message by one field after another, until none are left.
use qorechain_rdk.Prelude.{
  ◌+◌, ◌-◌, ◌≤◌, ◌<◌, ℕ, zero, suc, ◌≡◌, refl, ap, ◌∙◌, subst, ◌≢◌, ◌↔◌, inl, inr, Bool, true,
  false, Option, none, some, List, [], ◌∷◌, arith, ltb, if◌then◌else◌, Bool-cases, length, Result,
  ok, err, ◌>>=◌, Result-cases, >>=-eq-ok,
}
use qorechain_rdk.Tx.Wire.{
  DecodeFailure, decode_end, new_reader, BinaryReader, decode_with, after_tag, out_of_fuel,
  decode_loop, Switch, skipping, read_into, Decoded, Wire, WireLaws, Shrinks,
}

pub data Parses {M : Type 0} (wire : Wire) (switch : Switch M) : M → List ℕ → M → Type 0 where
  finished : {m : M} {rest : List ℕ} → rest ≡ [] → Parses wire switch m rest m
  field :
      {m m1 m2 : M} {bytes rest rest1 : List ℕ} (tag : ℕ)
      → wire.get_uint32 bytes ≡ some (tag, rest)
      → switch m tag rest ≡ ok (m1, rest1)
      → Parses wire switch m1 rest1 m2
      → Parses wire switch m bytes m2

-- A round's reads give no bytes back, and run no loop.
abbrev pub IsRound : {M : Type 0} → Decoded M → List ℕ → Type 0
IsRound {M = M} outcome bytes =
    ((m : M) (rest : List ℕ) → outcome ≡ ok (m, rest) → length rest ≤ length bytes)
    × (outcome ≢ err out_of_fuel)

module _ {M : Type 0} where
  pub read-IsRound :
      {A : Type 0} (get : List ℕ → Option (A × List ℕ)) (assign : A → M) (bytes : List ℕ)
      → Shrinks get
      → IsRound (read_into (get bytes) assign) bytes
  read-IsRound {A = A} get assign bytes s = from (get bytes) refl
    where
      from : (o : Option (A × List ℕ)) → get bytes ≡ o → IsRound (read_into o assign) bytes
      from none e = (λ m rest h. absurd (cc), λ h. cc)
      from (some (v, r)) e =
          (λ m rest h. subst (λ t. length t ≤ length bytes) (cc) (s bytes r v e), λ h. cc)

  pub skip-IsRound :
      (m0 : M) (skip : ℕ → List ℕ → Option (List ℕ)) (kind : ℕ) (bytes : List ℕ)
      → ((kind : ℕ) (bytes rest : List ℕ)
          → skip kind bytes ≡ some rest
          → length rest ≤ length bytes)
      → IsRound (skipping (skip kind bytes) m0) bytes
  skip-IsRound m0 skip kind bytes s = from (skip kind bytes) refl
    where
      from : (o : Option (List ℕ)) → skip kind bytes ≡ o → IsRound (skipping o m0) bytes
      from none e = (λ m rest h. absurd (cc), λ h. cc)
      from (some r) e =
          (λ m rest h. subst (λ t. length t ≤ length bytes) (cc) (s kind bytes r e), λ h. cc)

  pub if-IsRound :
      (b : Bool) (first second : Decoded M) (bytes : List ℕ)
      → IsRound first bytes
      → IsRound second bytes
      → IsRound (if b then first else second) bytes
  if-IsRound true first second bytes h k = h
  if-IsRound false first second bytes h k = k

abbrev pub IsSwitch : {M : Type 0} → Switch M → Type 0
IsSwitch {M = M} switch = (m : M) (tag : ℕ) (bytes : List ℕ) → IsRound (switch m tag bytes) bytes

module _ {M : Type 0} (wire : Wire) (laws : WireLaws wire) (switch : Switch M)
    (is_switch : IsSwitch switch) where
  -- A round that answers read a tag and a field, and left fewer bytes.
  round_inv :
      (m m1 : M) (bytes rest1 : List ℕ)
      → after_tag (wire.get_uint32 bytes) switch m ≡ ok (m1, rest1)
      → (tag : ℕ) × (rest : List ℕ) × (wire.get_uint32 bytes ≡ some (tag, rest))
        × (switch m tag rest ≡ ok (m1, rest1))
        × (length rest1 < length bytes)
  round_inv m m1 bytes rest1 h = from (wire.get_uint32 bytes) refl h
    where
      from :
          (o : Option (ℕ × List ℕ))
          → wire.get_uint32 bytes ≡ o
          → after_tag o switch m ≡ ok (m1, rest1)
          → (tag : ℕ) × (rest : List ℕ) × (wire.get_uint32 bytes ≡ some (tag, rest))
            × (switch m tag rest ≡ ok (m1, rest1))
            × (length rest1 < length bytes)
      from none e k = absurd (cc)
      from (some (tag, rest)) e k = (
        tag,
        rest,
        e,
        k,
        omega (arith, laws.tag_shrinks bytes rest tag e, (is_switch m tag rest).0 m1 rest1 k),
      )

  round_runs :
      (m : M) (bytes : List ℕ) → after_tag (wire.get_uint32 bytes) switch m ≢ err out_of_fuel
  round_runs m bytes = from (wire.get_uint32 bytes)
    where
      from : (o : Option (ℕ × List ℕ)) → after_tag o switch m ≢ err out_of_fuel
      from none k = cc
      from (some (tag, rest)) k = (is_switch m tag rest).1 k

  loop-Parses :
      (fuel len : ℕ) (m m2 : M) (bytes : List ℕ)
      → length bytes ≤ len
      → decode_loop wire switch fuel len len m bytes ≡ ok m2
      → Parses wire switch m bytes m2
  unfolding decode_loop
  loop-Parses zero len m m2 bytes short h = cc
  loop-Parses (suc fuel) len m m2 bytes short h = elim (Bool-cases (ltb (len - length bytes) len)) [
    | inl more ↦
        let ran : (after_tag (wire.get_uint32 bytes) switch m >>= λ s.
        decode_loop wire switch fuel len len s.0 s.1)
            ≡ ok m2 =
          ground arith in
        let ((m1, rest1), first, then_) = >>=-eq-ok _ _ ran in
        let (tag, rest, e, k, less) = round_inv m m1 bytes rest1 first in
        field tag e k (loop-Parses fuel len m1 m2 rest1 (omega arith) then_)
    | inr over ↦
        subst (λ t. Parses wire switch m bytes t) (ground arith)
          (finished (none_left bytes (ground arith)))
  ]
    where
      none_left : (bytes : List ℕ) → length bytes ≡ 0 → bytes ≡ []
      none_left [] h = refl
      none_left (x ∷ bytes) h = absurd (omega (arith, h))

  -- A loop whose test fails answers the message, and one whose test holds goes on after the round.
  loop_ends :
      (fuel len : ℕ) (m : M) (bytes : List ℕ)
      → bytes ≡ []
      → decode_loop wire switch (suc fuel) len len m bytes ≡ ok m
  unfolding decode_loop
  loop_ends fuel len m bytes e = ground (arith, ap length e)

  loop_goes_on :
      (fuel len tag : ℕ) (m m1 : M) (bytes rest rest1 : List ℕ)
      → length bytes ≤ len
      → wire.get_uint32 bytes ≡ some (tag, rest)
      → switch m tag rest ≡ ok (m1, rest1)
      → decode_loop wire switch (suc fuel) len len m bytes
        ≡ decode_loop wire switch fuel len len m1 rest1
  unfolding decode_loop
  loop_goes_on fuel len tag m m1 bytes rest rest1 short e k =
      let less = laws.tag_shrinks bytes rest tag e in ground arith

  Parses-loop :
      (fuel len : ℕ) {m m2 : M} {bytes : List ℕ}
      → Parses wire switch m bytes m2
      → length bytes ≤ len
      → length bytes < fuel
      → decode_loop wire switch fuel len len m bytes ≡ ok m2
  Parses-loop zero len p short enough = elim enough [ ]
  Parses-loop (suc fuel) len (finished {m = m} {rest = rest} e) short enough =
      loop_ends fuel len m rest e
  Parses-loop (suc fuel) len
        (field {m = m} {m1 = m1} {m2 = m2} {bytes = bytes} {rest = rest} {rest1 = rest1} tag e k p)
        short enough =
      let less = laws.tag_shrinks bytes rest tag e in
      let no_more = (is_switch m tag rest).0 m1 rest1 k in
      loop_goes_on fuel len tag m m1 bytes rest rest1 short e k
      ∙ Parses-loop fuel len p (omega arith) (omega arith)

  -- Decoding bytes, from a new reader and with no length named, gives a message exactly when they parse to
  -- it.
  pub decode-iff-Parses :
      (empty message : M) (bytes : List ℕ)
      → (decode_with wire switch empty (new_reader bytes) none ≡ ok message)
        ↔ Parses wire switch empty bytes message
  unfolding decode_with new_reader
  decode-iff-Parses empty message bytes = (
    λ h. loop-Parses (length bytes + 1) (length bytes) empty message bytes (omega arith) h,
    λ p. Parses-loop (length bytes + 1) (length bytes) p (omega arith) (omega arith),
  )

  loop_total :
      (fuel len end : ℕ) (m : M) (bytes : List ℕ)
      → length bytes < fuel
      → decode_loop wire switch fuel len end m bytes ≢ err out_of_fuel
  unfolding decode_loop
  loop_total zero len end m bytes enough h = elim enough [ ]
  loop_total (suc fuel) len end m bytes enough h =
      elim (Bool-cases (ltb (len - length bytes) end)) [
        | inl more ↦
            let ran : (after_tag (wire.get_uint32 bytes) switch m >>= λ s.
            decode_loop wire switch fuel len end s.0 s.1)
                ≡ err out_of_fuel =
              ground arith in
            elim (Result-cases (after_tag (wire.get_uint32 bytes) switch m)) [
              | inl ((m1, rest1), e) ↦
                  let (tag, rest, t, k, less) = round_inv m m1 bytes rest1 e in
                  loop_total fuel len end m1 rest1 (omega arith) (
                    subst
                      (λ t.
                        (t >>= λ s. decode_loop wire switch fuel len end s.0 s.1) ≡ err out_of_fuel)
                      e ran)
              | inr (failure, e) ↦
                  let ended : ◌≡◌ {A = Result DecodeFailure M} (err failure) (err out_of_fuel) =
                    subst
                      (λ t.
                        (t >>= λ s. decode_loop wire switch fuel len end s.0 s.1) ≡ err out_of_fuel)
                      e ran in
                  let same : failure ≡ out_of_fuel = cc ended in
                  round_runs m bytes (e ∙ ap err same)
            ]
        | inr over ↦ absurd (ground arith)
      ]

  -- Decoding ends, whatever the bytes, the reader's place in them and the length asked for.
  pub decode_total :
      (empty : M) (reader : BinaryReader) (len : Option ℕ)
      → decode_with wire switch empty reader len ≢ err out_of_fuel
  unfolding decode_with
  decode_total empty reader len =
      loop_total (length reader.rest + 1) reader.len (decode_end reader len) empty reader.rest
        (omega arith)
