-- ===== src/Tests/Flow.antt =====
-- The slots, the buffer, framing and serialization, the database and the clients.
use blockchain_messaging_sys.Prelude.{
  ℕ, suc, ◌+◌, ◌*◌, ◌≡◌, ◌<◌, ◌≤◌, true, List, [], ◌∷◌, codes, ok, arith,
}
use blockchain_messaging_sys.Itf.{Header, slot_length, get_slot, get_time_to_the_nearest_slot}
use blockchain_messaging_sys.Itf.Slots.{nearest_slot_boundary}
use blockchain_messaging_sys.Serialization.{
  block_class, message_class, header_class, serialize, deserialize,
}
use blockchain_messaging_sys.Serialization.Samples.{sample_archive, sample_archive-laws}
use blockchain_messaging_sys.Buffer.Fifo.{Call, run, start, IsFifo, run-start-IsFifo}
use blockchain_messaging_sys.Io.Wrappers.{
  ConsensusOperation, consensus_header_class, contribution_class, election_value_class,
}
use blockchain_messaging_sys.Io.Wrappers.RoundTrip.{every_class_round_trip}
use blockchain_messaging_sys.Tests.Samples.{message_at, sample_block, header_of}

wait_is_long : 20 < get_time_to_the_nearest_slot 1120
unfolding get_time_to_the_nearest_slot
wait_is_long = omega arith

nearest_slot_boundary_example :
    (1 ≤ get_time_to_the_nearest_slot 1120)
    × (get_time_to_the_nearest_slot 1120 ≤ slot_length)
    × (1120 + get_time_to_the_nearest_slot 1120 ≡ suc (get_slot 1120) * slot_length)
    × (get_slot (1120 + get_time_to_the_nearest_slot 1120) ≡ suc (get_slot 1120))
    × ((early : ℕ)
        → early < get_time_to_the_nearest_slot 1120
        → get_slot (1120 + early) ≡ get_slot 1120)
nearest_slot_boundary_example = nearest_slot_boundary 1120

abbrev history : List Call
history =
    Call.pushes (message_at 3)
    ∷ Call.saves 600
    ∷ Call.pushes (message_at 9)
    ∷ Call.saves 700
    ∷ Call.pops
    ∷ []

run-start-IsFifo_example : IsFifo (run start history)
run-start-IsFifo_example = run-start-IsFifo history

abbrev sample_client_header : Header
sample_client_header = record {
  target = codes "CreateChannel";
  server_name = codes "one";
  que_name = codes "q";
  client_address = codes "c";
}

every_class_round_trip_example :
    (deserialize sample_archive block_class
        (serialize sample_archive block_class (sample_block (message_at 3 ∷ [])))
      ≡ ok (sample_block (message_at 3 ∷ [])))
    × (deserialize sample_archive message_class
          (serialize sample_archive message_class (message_at 3))
        ≡ ok (message_at 3))
    × (deserialize sample_archive header_class
          (serialize sample_archive header_class sample_client_header)
        ≡ ok sample_client_header)
    × (deserialize sample_archive consensus_header_class
          (serialize sample_archive consensus_header_class (header_of ConsensusOperation.election))
        ≡ ok (header_of ConsensusOperation.election))
    × (deserialize sample_archive contribution_class
          (serialize sample_archive contribution_class (record { is_contributing = true }))
        ≡ ok (record { is_contributing = true }))
    × (deserialize sample_archive election_value_class
          (serialize sample_archive election_value_class (record { value = 7 }))
        ≡ ok (record { value = 7 }))
every_class_round_trip_example =
    every_class_round_trip sample_archive sample_archive-laws (sample_block (message_at 3 ∷ []))
      (message_at 3) sample_client_header (header_of ConsensusOperation.election)
      (record { is_contributing = true }) (record { value = 7 })
