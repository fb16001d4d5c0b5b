-- ===== src/Tx/Codecs/Newer.antt =====
-- packages/ts/src/tx/codecs.ts: a batch that a newer chain wrote, with fields that the codec does not
-- know, is decoded to the fields that it knows.
use qorechain_rdk.Prelude.{
  ◌/◌, ◌%◌, ◌^◌, ◌<◌, ℕ, ◌≡◌, false, none, some, List, [], ◌∷◌, ◌++◌, arith, ok,
}
use qorechain_rdk.Tx.Wire.Fields.{decode-Carries, unknown-Carries, Carries}
use qorechain_rdk.Tx.Wire.{skipping, new_reader, put_field, Wire, WireLaws}
use qorechain_rdk.Tx.Codecs.SubmitBatch.{
  submit_batch-Carries, submit_batch_switch-IsSwitch, submit_batch_switch, MsgSubmitBatch, encode,
  decode, empty, IsEncodable,
}

-- Any number of further fields, each with its tag and its payload.
unfoldable pub with_fields : Wire → List (ℕ × List ℕ) → List ℕ → List ℕ
with_fields wire [] writer = writer
with_fields wire ((tag, payload) ∷ more) writer =
    with_fields wire more (put_field wire false tag payload writer)

-- The reader steps over a payload of the tag's wire type.
abbrev pub IsSkipped : Wire → ℕ × List ℕ → Type 0
IsSkipped wire (tag, payload) =
    (tag < 2 ^ 32)
    × (11 < tag / 8)
    × ((tail : List ℕ) → wire.skip_type (tag % 8) (payload ++ tail) ≡ some tail)

abbrev pub AreSkipped : Wire → List (ℕ × List ℕ) → Type 0
AreSkipped wire [] = Unit
AreSkipped wire (f ∷ fs) = IsSkipped wire f × AreSkipped wire fs

module _ (wire : Wire) (laws : WireLaws wire) where
  unknown_case :
      (m : MsgSubmitBatch) (tag : ℕ) (bytes : List ℕ)
      → 11 < tag / 8
      → submit_batch_switch wire m tag bytes ≡ skipping (wire.skip_type (tag % 8) bytes) m
  unfolding submit_batch_switch
  unknown_case m tag bytes h = ground arith

  with_fields-Carries :
      (fields : List (ℕ × List ℕ)) (writer : List ℕ) (m0 m : MsgSubmitBatch)
      → AreSkipped wire fields
      → Carries wire (submit_batch_switch wire) writer m0 m
      → Carries wire (submit_batch_switch wire) (with_fields wire fields writer) m0 m
  unfolding with_fields
  with_fields-Carries [] writer m0 m h c = c
  with_fields-Carries ((tag, payload) ∷ more) writer m0 m h c =
      with_fields-Carries more (put_field wire false tag payload writer) m0 m h.1 (
        unknown-Carries wire laws (submit_batch_switch wire) tag payload writer m0 m h.0.0
          (λ bytes. unknown_case m tag bytes h.0.1) h.0.2 c)

  -- Fields behind the message, with numbers the decoder does not know and that the reader can skip, change
  -- nothing of what is decoded, for a message whose fields fit the wire.
  pub submit_batch_skips_unknown :
      (message : MsgSubmitBatch) (fields : List (ℕ × List ℕ))
      → IsEncodable message
      → AreSkipped wire fields
      → decode wire (new_reader (with_fields wire fields (encode wire message []))) none
        ≡ ok message
  unfolding decode
  submit_batch_skips_unknown message fields fits skipped =
      decode-Carries wire laws (submit_batch_switch wire) (submit_batch_switch-IsSwitch wire laws)
        empty message (with_fields wire fields (encode wire message []))
        (with_fields-Carries fields (encode wire message []) empty message skipped
          (submit_batch-Carries wire laws message fits))
