-- ===== src/Slot/Handler/Course.antt =====
-- The course of a whole slot: what decided whether it was published, and where the block came from.
pub mod Flags
use blockchain_messaging_sys.Prelude.{
  ◌≡◌, Bool, false, List, [], ◌∷◌, ◌++◌, Result, ok, fault, arith, ℕ,
}
use blockchain_messaging_sys.Serialization.{Archive}
use blockchain_messaging_sys.Redis.{Redis}
use blockchain_messaging_sys.Storage.State.{ConsensusStorage}
use blockchain_messaging_sys.Storage.Queries.{is_any_node_contributing}
use blockchain_messaging_sys.Slot.State.{Slot, Outcome, Delivery, Moment}
use blockchain_messaging_sys.Slot.Steps.{
  save_pending_block, try_remove, remove_placeholder, save_complete_block,
}
use blockchain_messaging_sys.Slot.Steps.Frame.{publish_to_clients-context}
use blockchain_messaging_sys.Slot.Waiters.{wait_for_broadcast}
use blockchain_messaging_sys.Slot.Waiters.Took.{TakesOver}
use blockchain_messaging_sys.Slot.Handler.{Handler, run_handler, handle_loop}
use blockchain_messaging_sys.Slot.Handler.Frame.{
  keeps_notify, keeps_inspection, between-AllKeep, none_left, one_more, handle_loop-next,
  handle_loop-SameChain,
}
use blockchain_messaging_sys.Slot.Handler.Course.Flags.{first_three, first_ten, raised}

module _ (archive : Archive) (redis : Redis) where
  -- The storage that PendingBlockRemover found, and whether some node contributed in it: then the
  -- slot went on to the end, and otherwise it was stopped.
  abbrev pub Inspected : List Moment → Slot redis → Slot redis → Type 0
  Inspected ms s s' =
      (ms1 : List Moment) × (m : Moment) × (ms2 : List Moment) × (v : Slot redis)
      × (q : ConsensusStorage) × (ms ≡ ms1 ++ m ∷ ms2)
      × (handle_loop archive redis first_three ms1 (raised archive redis s) ≡ Outcome.done v)
      × (is_any_node_contributing m.now v.context.header.slot v.node.storage
          ≡ ok (q, s'.context.should_call_next_handler))

  -- The slot's broadcast block is what BroadcastWaiter left there, after the ten handlers before it.
  abbrev pub Published : List Moment → Slot redis → Slot redis → Type 0
  Published ms s s' =
      (ms1 : List Moment) × (m : Moment) × (ms2 : List Moment) × (w : Slot redis) × (t : Slot redis)
      × (later : List Delivery) × (ms ≡ ms1 ++ m ∷ ms2)
      × (handle_loop archive redis first_ten ms1 (raised archive redis s) ≡ Outcome.done w)
      × (wait_for_broadcast archive redis m w ≡ Outcome.done (t, later))
      × TakesOver archive redis m.now w t
      × (s'.context.broadcast_block ≡ t.context.broadcast_block)
