-- ===== src/Tx/Codecs/Tests.antt =====
-- The codecs over a small wire.
use qorechain_rdk.Prelude.{ℕ, ◌≡◌, refl, ◌≢◌, ◌↔◌, none, some, List, [], ◌∷◌, ◌++◌, arith, ok, err}
use qorechain_rdk.Tx.Wire.Parses.{decode_total, decode-iff-Parses, Parses}
use qorechain_rdk.Prelude.Int.{negsuc, pos}
use qorechain_rdk.Tx.Codecs.Newer.{submit_batch_skips_unknown, with_fields, AreSkipped}
use qorechain_rdk.Tx.Wire.{out_of_fuel, decode_loop, put_field, new_reader, decode_with}
use qorechain_rdk.Tx.Wire.Toy.{toy_wire, toy_wire-WireLaws, counted, get_number, get_signed}
use qorechain_rdk.Tx.Codecs.SubmitBatch
use qorechain_rdk.Tx.Codecs.ExecuteWithdrawal
use qorechain_rdk.Tx.Codecs.CreateRollup
use qorechain_rdk.Tx.Codecs.SubmitBatch.{MsgSubmitBatch}
use qorechain_rdk.Tx.Codecs.ExecuteWithdrawal.{MsgExecuteWithdrawal}
use qorechain_rdk.Text.{js}

abbrev batch_5 : MsgSubmitBatch
batch_5 = record SubmitBatch.empty {
  sequencer = js "seq";
  rollup_id = js "r-1";
  batch_index = pos 5;
  state_root = 1 ∷ 2 ∷ [];
  anchor_signature = 9 ∷ [];
}

batch_5-IsEncodable : SubmitBatch.IsEncodable batch_5
batch_5-IsEncodable = record {
  sequencer_fits = refl;
  rollup_id_fits = refl;
  batch_index_fits = (omega arith, omega arith);
  state_root_fits = (omega arith, (omega arith, tt));
  prev_state_root_fits = tt;
  tx_count_fits = (omega arith, omega arith);
  data_hash_fits = tt;
  proof_fits = tt;
  withdrawals_root_fits = tt;
  anchor_signature_fits = (omega arith, tt);
  validator_set_hash_fits = tt;
}

submit_batch_round_trip_example :
    SubmitBatch.decode toy_wire (new_reader (SubmitBatch.encode toy_wire batch_5 [])) none
    ≡ ok batch_5
submit_batch_round_trip_example =
    SubmitBatch.submit_batch_round_trip toy_wire toy_wire-WireLaws batch_5 batch_5-IsEncodable

-- Defaults are not written.
batch_5_bytes :
    SubmitBatch.encode toy_wire batch_5 []
    ≡ 10 ∷ 3 ∷ (js "seq" ++ 18 ∷ 3 ∷ (js "r-1" ++ 24 ∷ 0 ∷ 5 ∷ 34 ∷ 2 ∷ 1 ∷ 2 ∷ 82 ∷ 1 ∷ 9 ∷ []))
unfolding SubmitBatch.encode put_field
batch_5_bytes = refl

skipped_two : AreSkipped toy_wire ((98, 1 ∷ 7 ∷ []) ∷ (104, 0 ∷ 4 ∷ []) ∷ [])
unfolding counted get_signed
skipped_two = (
  (omega arith, omega arith, λ tail. ground arith),
  ((omega arith, omega arith, λ tail. refl), tt),
)

submit_batch_skips_unknown_example :
    SubmitBatch.decode toy_wire
      (new_reader (
        with_fields toy_wire
          ((98, 1 ∷ 7 ∷ []) ∷ (104, 0 ∷ 4 ∷ []) ∷ [])
          (SubmitBatch.encode toy_wire batch_5 [])))
      none
    ≡ ok batch_5
submit_batch_skips_unknown_example =
    submit_batch_skips_unknown toy_wire toy_wire-WireLaws batch_5
      ((98, 1 ∷ 7 ∷ []) ∷ (104, 0 ∷ 4 ∷ []) ∷ []) batch_5-IsEncodable skipped_two

abbrev small_claim : MsgExecuteWithdrawal
small_claim = record ExecuteWithdrawal.empty {
  submitter = js "me";
  withdrawal_index = pos 2;
  amount = negsuc 4;
  proof = (1 ∷ 2 ∷ []) ∷ [] ∷ (3 ∷ []) ∷ [];
}

small_claim-IsEncodable : ExecuteWithdrawal.IsEncodable small_claim
small_claim-IsEncodable = record {
  submitter_fits = refl;
  rollup_id_fits = refl;
  batch_index_fits = (omega arith, omega arith);
  withdrawal_index_fits = (omega arith, omega arith);
  recipient_fits = refl;
  denom_fits = refl;
  amount_fits = (omega arith, omega arith);
  proof_fits = ((omega arith, (omega arith, tt)), (tt, ((omega arith, tt), tt)));
}

-- An empty element of the proof is written, unlike an empty field.
execute_withdrawal_round_trip_example :
    ExecuteWithdrawal.decode toy_wire
      (new_reader (ExecuteWithdrawal.encode toy_wire small_claim []))
      none
    ≡ ok small_claim
execute_withdrawal_round_trip_example =
    ExecuteWithdrawal.execute_withdrawal_round_trip toy_wire toy_wire-WireLaws small_claim
      small_claim-IsEncodable

abbrev two_creators : List ℕ
two_creators = 10 ∷ 1 ∷ 65 ∷ 10 ∷ 1 ∷ 66 ∷ []

-- A field that comes twice keeps its last value.
two_creators_decoded :
    CreateRollup.decode toy_wire (new_reader two_creators) none
    ≡ ok (record CreateRollup.empty { creator = 66 ∷ [] })
unfolding CreateRollup.decode decode_with new_reader decode_loop CreateRollup.create_rollup_switch
    counted get_number
two_creators_decoded = refl

decode-iff-Parses_example :
    (decode_with toy_wire
        (CreateRollup.create_rollup_switch toy_wire)
        CreateRollup.empty
        (new_reader two_creators)
        none
      ≡ ok (record CreateRollup.empty { creator = 66 ∷ [] }))
    ↔ Parses toy_wire
        (CreateRollup.create_rollup_switch toy_wire)
        CreateRollup.empty
        two_creators
        (record CreateRollup.empty { creator = 66 ∷ [] })
decode-iff-Parses_example =
    decode-iff-Parses toy_wire toy_wire-WireLaws (CreateRollup.create_rollup_switch toy_wire)
      (CreateRollup.create_rollup_switch-IsSwitch toy_wire toy_wire-WireLaws) CreateRollup.empty
      (record CreateRollup.empty { creator = 66 ∷ [] }) two_creators

-- A length beyond the buffer, from a reader that has read two bytes.
decode_total_example :
    decode_with toy_wire
      (CreateRollup.create_rollup_switch toy_wire)
      CreateRollup.empty
      (record { len = 5; rest = 10 ∷ 1 ∷ 65 ∷ [] })
      (some 9)
    ≢ err out_of_fuel
decode_total_example =
    decode_total toy_wire toy_wire-WireLaws (CreateRollup.create_rollup_switch toy_wire)
      (CreateRollup.create_rollup_switch-IsSwitch toy_wire toy_wire-WireLaws) CreateRollup.empty
      (record { len = 5; rest = 10 ∷ 1 ∷ 65 ∷ [] }) (some 9)
