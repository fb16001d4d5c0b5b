-- ===== src/Tx/Wire/Fields.antt =====
-- What the fields that an encoder writes parse to, for the codecs of packages/ts/src/tx/codecs.ts.
use qorechain_rdk.Prelude.{
  ◌%◌, ◌^◌, ◌<◌, ℕ, ◌≡◌, refl, sym, ap, ◌∙◌, subst, Bool, true, false, not, none, some, List, [],
  ◌∷◌, ◌++◌, arith, ok,
}
use mathlib.Core.List.{append_assoc, append-nil}
use qorechain_rdk.Tx.Wire.{
  new_reader, decode_with, skipping, int64_field, bytes_field, uint64_field, string_field, IsInt64,
  IsUint64, negsuc, AreBytes, bool_field, well_formed, is_zero, read_into, put_field, pos, JsString,
  ℤ, Switch, is_empty, Wire, WireLaws,
}
use qorechain_rdk.Tx.Wire.Parses.{decode-iff-Parses, IsSwitch, field, finished, Parses}

is_empty→[] : {A : Type 0} (xs : List A) → is_empty xs ≡ true → xs ≡ []
is_empty→[] [] h = refl
is_empty→[] (x ∷ xs) h = cc

is_zero→pos : (v : ℤ) → is_zero v ≡ true → v ≡ pos 0
is_zero→pos (pos n) h = ground arith
is_zero→pos (negsuc n) h = cc

module _ {M : Type 0} (wire : Wire) (switch : Switch M) where
  -- What is written takes the decoder from one message to another, whatever stands behind it.
  abbrev pub Carries : List ℕ → M → M → Type 0
  Carries writer m0 m1 =
      (tail : List ℕ) (m2 : M)
      → Parses wire switch m1 tail m2
      → Parses wire switch m0 (writer ++ tail) m2

  pub Carries-Parses :
      (writer : List ℕ) (m0 m1 : M) → Carries writer m0 m1 → Parses wire switch m0 writer m1
  Carries-Parses writer m0 m1 c =
      subst (λ t. Parses wire switch m0 t m1) (append-nil writer) (c [] m1 (finished refl))

module _ {M : Type 0} (wire : Wire) (laws : WireLaws wire) (switch : Switch M) where
  -- A field is left out where it changes nothing, and else is read by its case of the switch.
  pub put-Carries :
      (default : Bool) (tag : ℕ) (payload writer : List ℕ) (m0 m1 m2 : M)
      → tag < 2 ^ 32
      → Carries wire switch writer m0 m1
      → (default ≡ true → m1 ≡ m2)
      → (default ≡ false → (tail : List ℕ) → switch m1 tag (payload ++ tail) ≡ ok (m2, tail))
      → Carries wire switch (put_field wire default tag payload writer) m0 m2
  unfolding put_field
  put-Carries true tag payload writer m0 m1 m2 small c same reads tail m p =
      c tail m (subst (λ t. Parses wire switch t tail m) (sym (same refl)) p)
  put-Carries false tag payload writer m0 m1 m2 small c same reads tail m p =
      subst (λ t. Parses wire switch m0 t m) (simp append_assoc)
        (c (wire.put_uint32 tag ++ (payload ++ tail)) m
          (field tag (laws.uint32_back tag (payload ++ tail) small) (reads refl tail) p))

  -- The cases of the switch that read a field of each kind: given what the case reads and assigns.
  module _ (tag : ℕ) (small : tag < 2 ^ 32) (writer : List ℕ) (m0 : M) where
    pub string-Carries :
        (s : JsString) (assign : JsString → M)
        → ((bytes : List ℕ)
            → switch (assign []) tag bytes ≡ read_into (wire.get_string bytes) assign)
        → well_formed s ≡ true
        → Carries wire switch writer m0 (assign [])
        → Carries wire switch (string_field wire tag s writer) m0 (assign s)
    string-Carries s assign case fits c =
        put-Carries (is_empty s) tag (wire.put_string s) writer m0 (assign []) (assign s) small c
          (λ h. ap assign (sym (is_empty→[] s h)))
          (λ h tail.
            case (wire.put_string s ++ tail)
            ∙ ap (λ o. read_into o assign) (laws.string_back s tail fits))

    pub bytes-Carries :
        (b : List ℕ) (assign : List ℕ → M)
        → ((bytes : List ℕ)
            → switch (assign []) tag bytes ≡ read_into (wire.get_bytes bytes) assign)
        → AreBytes b
        → Carries wire switch writer m0 (assign [])
        → Carries wire switch (bytes_field wire tag b writer) m0 (assign b)
    bytes-Carries b assign case fits c =
        put-Carries (is_empty b) tag (wire.put_bytes b) writer m0 (assign []) (assign b) small c
          (λ h. ap assign (sym (is_empty→[] b h)))
          (λ h tail.
            case (wire.put_bytes b ++ tail)
            ∙ ap (λ o. read_into o assign) (laws.bytes_back b tail fits))

    pub uint64-Carries :
        (v : ℤ) (assign : ℤ → M)
        → ((bytes : List ℕ)
            → switch (assign (pos 0)) tag bytes ≡ read_into (wire.get_uint64 bytes) assign)
        → IsUint64 v
        → Carries wire switch writer m0 (assign (pos 0))
        → Carries wire switch (uint64_field wire tag v writer) m0 (assign v)
    uint64-Carries v assign case fits c =
        put-Carries (is_zero v) tag (wire.put_uint64 v) writer m0 (assign (pos 0)) (assign v) small
          c (λ h. ap assign (sym (is_zero→pos v h)))
          (λ h tail.
            case (wire.put_uint64 v ++ tail)
            ∙ ap (λ o. read_into o assign) (laws.uint64_back v tail fits))

    pub int64-Carries :
        (v : ℤ) (assign : ℤ → M)
        → ((bytes : List ℕ)
            → switch (assign (pos 0)) tag bytes ≡ read_into (wire.get_int64 bytes) assign)
        → IsInt64 v
        → Carries wire switch writer m0 (assign (pos 0))
        → Carries wire switch (int64_field wire tag v writer) m0 (assign v)
    int64-Carries v assign case fits c =
        put-Carries (is_zero v) tag (wire.put_int64 v) writer m0 (assign (pos 0)) (assign v) small c
          (λ h. ap assign (sym (is_zero→pos v h)))
          (λ h tail.
            case (wire.put_int64 v ++ tail)
            ∙ ap (λ o. read_into o assign) (laws.int64_back v tail fits))

    pub bool-Carries :
        (b : Bool) (assign : Bool → M)
        → ((bytes : List ℕ)
            → switch (assign false) tag bytes ≡ read_into (wire.get_bool bytes) assign)
        → Carries wire switch writer m0 (assign false)
        → Carries wire switch (bool_field wire tag b writer) m0 (assign b)
    bool-Carries b assign case c =
        put-Carries (not b) tag (wire.put_bool b) writer m0 (assign false) (assign b) small c
          (λ h. ap assign (false_of b h))
          (λ h tail.
            case (wire.put_bool b ++ tail) ∙ ap (λ o. read_into o assign) (laws.bool_back b tail))
      where
        false_of : (b : Bool) → not b ≡ true → false ≡ b
        false_of true h = cc
        false_of false h = refl

  pub decode-Carries :
      IsSwitch switch
      → (empty message : M) (bytes : List ℕ) → Carries wire switch bytes empty message
      → decode_with wire switch empty (new_reader bytes) none ≡ ok message
  decode-Carries is_switch empty message bytes c =
      (decode-iff-Parses wire laws switch is_switch empty message bytes).1
        (Carries-Parses wire switch bytes empty message c)

  -- A field that the switch does not name is skipped, and the message stays as it is.
  pub unknown-Carries :
      (tag : ℕ) (payload writer : List ℕ) (m0 m : M)
      → tag < 2 ^ 32
      → ((bytes : List ℕ) → switch m tag bytes ≡ skipping (wire.skip_type (tag % 8) bytes) m)
      → ((tail : List ℕ) → wire.skip_type (tag % 8) (payload ++ tail) ≡ some tail)
      → Carries wire switch writer m0 m
      → Carries wire switch (put_field wire false tag payload writer) m0 m
  unknown-Carries tag payload writer m0 m small case skips c =
      put-Carries false tag payload writer m0 m m small c (λ h. refl)
        (λ h tail. case (payload ++ tail) ∙ ap (λ o. skipping o m) (skips tail))
