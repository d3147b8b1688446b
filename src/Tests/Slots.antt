-- ===== src/Tests/Slots.antt =====
-- Messages between nodes, the waits, the handlers and the start of a slot.
use blockchain_messaging_sys.Prelude.{
  Bool, ◌>>=◌, ℕ, All, ◌≡◌, ◌≢◌, ◌⊎◌, refl, true, false, [], ◌∷◌, ◌++◌, none, some, Str, codes,
  ℕ_discrete, ok, fault, Fault, find, arith,
}
use blockchain_messaging_sys.Itf.{Block, get_slot, default_blockchain}
use blockchain_messaging_sys.Serialization.{block_class, serialize}
use blockchain_messaging_sys.Serialization.Samples.{encode, sample_archive, sample_archive-laws}
use blockchain_messaging_sys.Io.Framing.{merge, find_text}
use blockchain_messaging_sys.Io.Channels.{ChannelType, get_remote_of_type}
use blockchain_messaging_sys.Io.Channels.Queues.{sent_to}
use blockchain_messaging_sys.Io.Wrappers.{
  write_consensus_header, ConsensusOperation, consensus_header_class, contribution_class,
}
use blockchain_messaging_sys.Io.Wrappers.RoundTrip.{deserialize-serialize}
use blockchain_messaging_sys.Serialization.RoundTrip.{block_class-laws}
use blockchain_messaging_sys.Redis.{get_by_index}
use blockchain_messaging_sys.Redis.Samples.{sample_redis}
use blockchain_messaging_sys.Storage.State.{ConsensusStorage, entry, entry_at, update_context}
use blockchain_messaging_sys.Storage.Sync.{
  load_synchronized, clear_slot, get_slot_synchronization_context,
}
use blockchain_messaging_sys.Storage.Sync.Laws.{HasCondition, IsAllocated}
use blockchain_messaging_sys.Storage.Queries.{are_all_contributors_confirmed}
use blockchain_messaging_sys.Storage.Queries.Laws.{EveryEntry, IsConfirmed}
use blockchain_messaging_sys.App.Startup.{on_slot_start}
use blockchain_messaging_sys.App.Startup.Laws.{HasEntry, on_slot_start_lem}
use blockchain_messaging_sys.App.Consume.{on_consensus_message}
use blockchain_messaging_sys.App.Consume.Laws.{ChangesEntry, IsConditionOf}
use blockchain_messaging_sys.App.Consume.Delivery.{
  IsFramable, inspection_delivered, broadcast_delivered, broadcast_after_clear,
}
use blockchain_messaging_sys.Slot.State.{Outcome, Moment, Slot, Delivery}
use blockchain_messaging_sys.Slot.Wait.Threads
use blockchain_messaging_sys.Slot.Wait.Threads.{lost_wake_up}
use blockchain_messaging_sys.Slot.Wait.{Predicate}
use blockchain_messaging_sys.Slot.Steps.{broadcast, save_pending_block, notify_contribution}
use blockchain_messaging_sys.Slot.Handler.Rounds.{IsTaken, declaration_header, declaration_reaches}
use blockchain_messaging_sys.Slot.Wait.Laws.{Reaches}
use blockchain_messaging_sys.Slot.Waiters.Ready.{Inspects, wait_for_inspection-IsConfirmed}
use blockchain_messaging_sys.Slot.Handler.Laws.{Tries, try_remove_lem}
use blockchain_messaging_sys.Tests.Samples.{
  first, message_at, sample_block, voted, storage_of, header_of, slot_of,
}
use blockchain_messaging_sys.Redis.Samples.{sample_redis-laws}
use blockchain_messaging_sys.Prelude.{List}
use blockchain_messaging_sys.Slot.Waiters.{
  wait_for_broadcast, wait_for_election, wait_for_inspection,
}
use blockchain_messaging_sys.Slot.Waiters.Elected.{IsDecided, wait_for_election-IsDecided}
use blockchain_messaging_sys.Slot.Handler.Agreement.{Keeps, broadcast_agrees}
use blockchain_messaging_sys.Prelude.{inl, str_dec}
use blockchain_messaging_sys.Tests.Samples.{one_block, second}

framable : (o : ConsensusOperation) → IsFramable sample_archive (header_of o)
unfolding find_text serialize encode write_consensus_header
framable ConsensusOperation.inspection = (refl, omega arith)
framable ConsensusOperation.election = (refl, omega arith)
framable ConsensusOperation.uploading = (refl, omega arith)
framable ConsensusOperation.broadcast = (refl, omega arith)

allocated : IsAllocated (storage_of voted)
unfolding find
allocated t r e = ground arith

has_condition : HasCondition 0 2 (storage_of voted)
unfolding find ℕ_discrete
has_condition = (refl, omega arith)

not_null : find ℕ_discrete 2 (storage_of voted).conditions ≢ some none
unfolding find ℕ_discrete
not_null e = cc

voted-known : voted ≢ []
voted-known e = cc

inspection_delivered_example :
    (s' : ConsensusStorage) × (r : ℕ) × (on_consensus_message sample_archive 5
        (merge
          (serialize sample_archive consensus_header_class
            (header_of ConsensusOperation.inspection))
          (serialize sample_archive contribution_class (record { is_contributing = true })))
        (storage_of voted)
      ≡ ok s')
    × ChangesEntry 5
        (header_of ConsensusOperation.inspection)
        (λ c. record c { node = codes "two"; is_contributing = some true })
        (storage_of voted)
        s'
    × IsConditionOf r 2 s'
    × ((load_synchronized (some r) s' ≡ ok true) ⊎ (¬ EveryEntry IsConfirmed 5 2 s'.contexts))
inspection_delivered_example =
    inspection_delivered sample_archive sample_archive-laws 5
      (header_of ConsensusOperation.inspection) (record { is_contributing = true })
      (storage_of voted) refl (framable ConsensusOperation.inspection) allocated not_null

received_broadcast :
    (s' : ConsensusStorage) × (on_consensus_message sample_archive 5
        (merge
          (serialize sample_archive consensus_header_class (header_of ConsensusOperation.broadcast))
          (serialize sample_archive block_class (sample_block (message_at 3 ∷ []))))
        (storage_of voted)
      ≡ ok s')
    × ChangesEntry 5
        (header_of ConsensusOperation.broadcast)
        (λ c. record c { block = sample_block (message_at 3 ∷ []); is_resolved = true })
        (storage_of voted)
        s'
    × IsConditionOf 0 2 s'
    × (load_synchronized (some 0) s' ≡ ok true)
received_broadcast =
    broadcast_delivered sample_archive sample_archive-laws 5 0
      (header_of ConsensusOperation.broadcast) (sample_block (message_at 3 ∷ [])) (storage_of voted)
      refl (framable ConsensusOperation.broadcast) has_condition

broadcast_after_clear_example :
    on_consensus_message sample_archive 5
      (merge
        (serialize sample_archive consensus_header_class (header_of ConsensusOperation.broadcast))
        (serialize sample_archive block_class (sample_block [])))
      (clear_slot 2 (storage_of voted))
    ≡ fault Fault.null_pointer
broadcast_after_clear_example =
    broadcast_after_clear sample_archive sample_archive-laws 5
      (header_of ConsensusOperation.broadcast) (sample_block []) (storage_of voted) refl
      (framable ConsensusOperation.broadcast) voted-known

-- A wait for the flag of the slot's condition, and the broadcast that raises it.
abbrev flag_up : Predicate
flag_up s = load_synchronized (some 0) s >>= λ b. ok (s, b)

abbrev broadcast_message : Delivery
broadcast_message = record {
  now = 5;
  text =
      merge
        (serialize sample_archive consensus_header_class (header_of ConsensusOperation.broadcast))
        (serialize sample_archive block_class (sample_block (message_at 3 ∷ [])));
}

abbrev after_broadcast : ConsensusStorage
after_broadcast = received_broadcast.0

flag_down : flag_up (storage_of voted) ≡ ok (storage_of voted, false)
unfolding load_synchronized
flag_down = refl

flag_raised : flag_up after_broadcast ≡ ok (after_broadcast, true)
flag_raised = rw received_broadcast.4 refl

lost_wake_up_example :
    (Threads.run sample_archive flag_up
        (Threads.Event.waits
          ∷ Threads.Event.waits
          ∷ Threads.Event.delivers broadcast_message
          ∷ Threads.Event.notifies
          ∷ Threads.Event.waits
          ∷ [])
        (record { storage = storage_of voted; waiter = Threads.Waiter.tests })
      ≡ ok (record { storage = after_broadcast; waiter = Threads.Waiter.returned }))
    × (Threads.run sample_archive flag_up
          (Threads.Event.waits
            ∷ Threads.Event.delivers broadcast_message
            ∷ Threads.Event.notifies
            ∷ Threads.Event.waits
            ∷ Threads.Event.waits
            ∷ Threads.Event.waits
            ∷ [])
          (record { storage = storage_of voted; waiter = Threads.Waiter.tests })
        ≡ ok (record { storage = after_broadcast; waiter = Threads.Waiter.asleep }))
lost_wake_up_example =
    lost_wake_up sample_archive flag_up broadcast_message 2 (storage_of voted) (storage_of voted)
      after_broadcast after_broadcast flag_down received_broadcast.1 flag_raised

abbrev all_confirmed : Predicate
all_confirmed s = are_all_contributors_confirmed 5 2 s

voted-IsConfirmed : EveryEntry IsConfirmed 5 2 voted
unfolding entry ℕ_discrete
voted-IsConfirmed = ((λ e. cc), ((λ e. cc), ((λ e. cc), tt)))

-- The placeholder of the slot, as the database gives it.
found :
    get_by_index sample_archive sample_redis 0 default_blockchain one_block
    ≡ ok (some (sample_block []))
unfolding get_by_index
found =
    rw
      (deserialize-serialize sample_archive sample_archive-laws block_class block_class-laws
        (sample_block []))
      refl

try_remove_lem_example :
    Tries sample_archive sample_redis 5 (sample_block []) (slot_of false voted one_block)
try_remove_lem_example =
    try_remove_lem sample_archive sample_redis 5 (sample_block []) (slot_of false voted one_block)
      voted-IsConfirmed found

slot-not_null : find ℕ_discrete (get_slot 1000) (storage_of voted).conditions ≢ some none
unfolding find ℕ_discrete get_slot
slot-not_null e = cc

on_slot_start_lem_example :
    (r : ℕ) × HasCondition r (get_slot 1000) (on_slot_start 1000 (storage_of voted))
    × HasEntry (get_slot 1000) (on_slot_start 1000 (storage_of voted)).contexts first
    × All
        (λ n. HasEntry (get_slot 1000) (on_slot_start 1000 (storage_of voted)).contexts n.address)
        (storage_of voted).node_configuration.nodes
    × ((a : Str) (t : ℕ)
        → entry_at 1000 a t (on_slot_start 1000 (storage_of voted)).contexts
          ≡ entry_at 1000 a t voted)
on_slot_start_lem_example = on_slot_start_lem 1000 (storage_of voted) allocated slot-not_null

abbrev moment : Moment
moment = record { now = 5; draws = []; deliveries = [] }

abbrev returned : Outcome (Slot sample_redis × List Delivery) → Slot sample_redis
returned (Outcome.done r) = r.0
returned Outcome.blocked = slot_of false voted one_block
returned (Outcome.failed e) = slot_of false voted one_block

-- All nodes have declared.
abbrev confirmed : Slot sample_redis
unfolding wait_for_inspection
confirmed =
    returned
      (wait_for_inspection sample_archive sample_redis moment (slot_of false voted one_block))

confirmed-done :
    wait_for_inspection sample_archive sample_redis moment (slot_of false voted one_block)
    ≡ Outcome.done (confirmed, [])
unfolding wait_for_inspection ℕ_discrete
confirmed-done = refl

wait_for_inspection-IsConfirmed_example :
    Inspects sample_archive sample_redis moment (slot_of false voted one_block) confirmed []
wait_for_inspection-IsConfirmed_example =
    wait_for_inspection-IsConfirmed sample_archive sample_redis moment
      (slot_of false voted one_block) confirmed-done

-- A node whose buffer is empty starts the slot at 1000.
abbrev saved : Slot sample_redis
saved = save_pending_block sample_archive sample_redis 1000 (slot_of false voted one_block)

saved-IsFramable : IsFramable sample_archive saved.context.header
unfolding save_pending_block find_text serialize encode write_consensus_header get_slot
saved-IsFramable = (refl, omega arith)

saved-not_null : find ℕ_discrete saved.context.header.slot (storage_of voted).conditions ≢ some none
unfolding save_pending_block find ℕ_discrete get_slot
saved-not_null e = cc

declaration_reaches_example :
    (b : Block) × (contributes : Bool) × (text : Str) × (t' : ConsensusStorage) × IsTaken
      sample_archive sample_archive-laws sample_redis 1000
      (slot_of false voted one_block).node.buffer
      b
      contributes
    × ((entry_at 1000 first b.slot
          (notify_contribution sample_archive sample_redis 1000
            saved).node.storage.contexts).is_contributing
        ≡ some contributes)
    × ((notify_contribution sample_archive sample_redis 1000 saved).node.sent
        ≡ []
          ++ sent_to
              (get_remote_of_type ChannelType.consensus
                (slot_of false voted one_block).node.channels)
              text)
    × (on_consensus_message sample_archive 1001 text (storage_of voted) ≡ ok t')
    × ChangesEntry 1001
        (declaration_header sample_archive sample_archive-laws sample_redis
          (slot_of false voted one_block).context.node_configuration.self
          b)
        (λ c. record c { node = codes "one"; is_contributing = some contributes })
        (storage_of voted)
        t'
declaration_reaches_example =
    declaration_reaches sample_archive sample_archive-laws sample_redis 1000 1001
      (slot_of false voted one_block) (storage_of voted) saved-IsFramable allocated saved-not_null

-- The second node is the validator of the slot, and the first waits for its block.
abbrev waiting : Moment
waiting = record { now = 5; draws = []; deliveries = broadcast_message ∷ [] }

not_resolved : (entry_at 5 second 2 voted).is_resolved ≡ false
unfolding entry_at entry find ℕ_discrete str_dec
not_resolved = refl

broadcast_agrees_example :
    (n' : Slot sample_redis) × ((broadcast sample_archive sample_redis
        (slot_of true voted one_block)).node.sent
      ≡ sent_to
          (get_remote_of_type ChannelType.consensus (slot_of true voted one_block).node.channels)
          broadcast_message.text)
    × (wait_for_broadcast sample_archive sample_redis waiting (slot_of false voted one_block)
        ≡ Outcome.done (n', []))
    × Keeps sample_archive sample_archive-laws sample_redis sample_redis-laws
        (sample_block (message_at 3 ∷ []))
        (broadcast sample_archive sample_redis (slot_of true voted one_block))
    × Keeps sample_archive sample_archive-laws sample_redis sample_redis-laws
        (sample_block (message_at 3 ∷ []))
        n'
unfolding update_context get_slot_synchronization_context ℕ_discrete str_dec
broadcast_agrees_example =
    broadcast_agrees sample_archive sample_archive-laws sample_redis sample_redis-laws 0 5 waiting
      [] (slot_of true voted one_block) (slot_of false voted one_block) refl refl
      (refl, refl, refl, framable ConsensusOperation.broadcast)
      (inl (has_condition, not_resolved, ([], _, Reaches.here, has_condition, not_resolved, refl)))
      (omega arith, omega arith) (omega arith, omega arith)

-- All values of the slot are there, and the first node's is unique.
abbrev decided : Slot sample_redis
unfolding wait_for_election
decided =
    returned (wait_for_election sample_archive sample_redis moment (slot_of false voted one_block))

decided-done :
    wait_for_election sample_archive sample_redis moment (slot_of false voted one_block)
    ≡ Outcome.done (decided, [])
unfolding wait_for_election
decided-done = refl

wait_for_election-IsDecided_example : IsDecided 5 2 first decided.node.storage
wait_for_election-IsDecided_example =
    wait_for_election-IsDecided sample_archive sample_redis moment (slot_of false voted one_block)
      decided-done
