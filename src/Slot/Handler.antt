-- ===== src/Slot/Handler.antt =====
-- slot::SlotHandler: the list of handlers and the loop of `handle`.
pub mod Laws
pub mod Rounds
pub mod Frame
pub mod Chain
pub mod Course
pub mod Agreement
pub mod Messages
use blockchain_messaging_sys.Prelude.{ℕ, Bool, true, false, List, [], ◌∷◌, Result, ok, fault}
use blockchain_messaging_sys.Serialization.{Archive}
use blockchain_messaging_sys.Redis.{Redis}
use blockchain_messaging_sys.Slot.State.{
  SlotContext, Node, Slot, Outcome, of_result, ◌>>=◌, Delivery, Moment,
}
use blockchain_messaging_sys.Slot.Wait.{deliver_all}
use blockchain_messaging_sys.Slot.Steps.{
  save_pending_block, notify_contribution, try_remove, notify_election, nominate_validator,
  transfer, broadcast, save_complete_block, publish_to_clients,
}
use blockchain_messaging_sys.Slot.Waiters.{
  wait_for_inspection, wait_for_election, wait_for_contributors_data, wait_for_broadcast,
}

pub data Handler : Type 0 where
  save_pending notify_nodes wait_inspection remove_pending send_election : Handler
  wait_election nominate transfer_data wait_data broadcasts wait_broadcast : Handler
  save_complete publishes : Handler

-- `handlers`
abbrev pub handlers : List Handler
handlers =
    Handler.save_pending ∷ Handler.notify_nodes ∷ Handler.wait_inspection ∷ Handler.remove_pending
    ∷ Handler.send_election ∷ Handler.wait_election ∷ Handler.nominate ∷ Handler.transfer_data
    ∷ Handler.wait_data ∷ Handler.broadcasts ∷ Handler.wait_broadcast ∷ Handler.save_complete
    ∷ Handler.publishes ∷ []

module _ (archive : Archive) (redis : Redis) where
  abbrev S : Type 0
  S = Slot redis

  first_draw : List ℕ → Outcome ℕ
  first_draw [] = Outcome.blocked
  first_draw (draw ∷ draws) = Outcome.done draw

  -- A handler that does not wait leaves every message of its moment to come after it.
  abbrev at_once : Moment → Result S → Outcome (S × List Delivery)
  at_once m (ok s) = Outcome.done (s, m.deliveries)
  at_once m (fault e) = Outcome.failed e

  -- The thirteen methods that the handlers call.
  unfoldable pub call : Handler → Moment → S → Outcome (S × List Delivery)
  unfolding first_draw save_pending_block notify_contribution try_remove notify_election
      nominate_validator transfer broadcast save_complete_block publish_to_clients
      wait_for_inspection wait_for_election wait_for_contributors_data wait_for_broadcast
  call Handler.save_pending m s = at_once m (ok (save_pending_block archive redis m.now s))
  call Handler.notify_nodes m s = at_once m (ok (notify_contribution archive redis m.now s))
  call Handler.wait_inspection m s = wait_for_inspection archive redis m s
  call Handler.remove_pending m s = at_once m (try_remove archive redis m.now s)
  call Handler.send_election m s = do
    draw ← first_draw m.draws
    at_once m (ok (notify_election archive redis m.now draw s))
  call Handler.wait_election m s = wait_for_election archive redis m s
  call Handler.nominate m s = at_once m (nominate_validator archive redis m.now s)
  call Handler.transfer_data m s = at_once m (transfer archive redis m.now s)
  call Handler.wait_data m s = wait_for_contributors_data archive redis m s
  call Handler.broadcasts m s = at_once m (ok (broadcast archive redis s))
  call Handler.wait_broadcast m s = wait_for_broadcast archive redis m s
  call Handler.save_complete m s = at_once m (save_complete_block archive redis s)
  call Handler.publishes m s = at_once m (ok (publish_to_clients archive redis s))

  -- A handler, and the messages that come before the next one.
  unfoldable pub run_handler : Handler → Moment → S → Outcome S
  unfolding call deliver_all
  run_handler h m s = do
    (s', later) ← call h m s
    storage ← of_result (deliver_all archive later s'.node.storage)
    Outcome.done (record s' { node = record (s'.node) { storage = storage } })

  -- The loop of `handle`: `break` where the flag is down. Each handler has a moment.
  unfoldable pub handle_loop : List Handler → List Moment → S → Outcome S
  unfolding run_handler
  handle_loop [] ms s = Outcome.done s
  handle_loop (h ∷ hs) [] s = elim s.context.should_call_next_handler [
    | false ↦ Outcome.done s
    | true ↦ Outcome.blocked
  ]
  handle_loop (h ∷ hs) (m ∷ ms) s = elim s.context.should_call_next_handler [
    | false ↦ Outcome.done s
    | true ↦ elim (run_handler h m s) [
      | Outcome.failed e ↦ Outcome.failed e
      | Outcome.blocked ↦ Outcome.blocked
      | Outcome.done s' ↦ handle_loop hs ms s'
    ]
  ]

  -- SlotHandler::handle of one slot, where no handler of another slot is at work on the same node: the
  -- timer starts one thread for each slot, and nothing keeps two of them apart.
  unfoldable pub handle : List Moment → S → Outcome S
  unfolding handle_loop
  handle ms s =
      handle_loop handlers ms
        (record s { context = record (s.context) { should_call_next_handler = true } })
