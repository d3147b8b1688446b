-- ===== src/Slot/Handler/Course/Flags.antt =====
-- The slot's flag over a run: which handlers keep it, and how PendingBlockRemover leaves it.
use blockchain_messaging_sys.Prelude.{
  ◌≡◌, inl, inr, refl, sym, ap, ◌∙◌, Bool, true, false, Bool-cases, List, [], ◌∷◌, ◌++◌, Result, ok,
  fault, arith, ℕ,
}
use blockchain_messaging_sys.Serialization.{Archive}
use blockchain_messaging_sys.Redis.{Redis}
use blockchain_messaging_sys.Storage.State.{ConsensusStorage}
use blockchain_messaging_sys.Storage.Queries.{is_any_node_contributing}
use blockchain_messaging_sys.Slot.State.{Slot, Outcome, Moment}
use blockchain_messaging_sys.Slot.Steps.{
  save_pending_block, try_remove, remove_placeholder, save_complete_block,
}
use blockchain_messaging_sys.Slot.Steps.Frame.{publish_to_clients-context}
use blockchain_messaging_sys.Slot.Handler.{Handler, call, run_handler, handle_loop}
use blockchain_messaging_sys.Slot.Handler.Frame.{
  keeps_notify, keeps_inspection, between, last_two, between-AllKeep, none_left, one_more,
  run_handler-call, handle_loop-next, handle_loop-SameChain, loop_ended,
}

-- The handlers before PendingBlockRemover, and those before BroadcastWaiter.
abbrev pub first_three : List Handler
first_three = Handler.save_pending ∷ Handler.notify_nodes ∷ Handler.wait_inspection ∷ []

abbrev pub first_ten : List Handler
first_ten =
    first_three
    ++ Handler.remove_pending ∷ Handler.send_election ∷ Handler.wait_election ∷ Handler.nominate
      ∷ Handler.transfer_data ∷ Handler.wait_data ∷ Handler.broadcasts ∷ []

pub clash : {b : Bool} → b ≡ true → b ≡ false → ⊥
clash p q = cc

module _ (archive : Archive) (redis : Redis) where
  abbrev pub is_up : Slot redis → Bool
  is_up s = s.context.should_call_next_handler

  -- `handle` raises the flag first.
  abbrev pub raised : Slot redis → Slot redis
  raised s = record s { context = record (s.context) { should_call_next_handler = true } }

  no_handlers :
      (ms : List Moment) (x : Slot redis) {s' : Slot redis}
      → handle_loop archive redis [] ms x ≡ Outcome.done s'
      → x ≡ s'
  unfolding handle_loop
  no_handlers ms x {s'} e = let ended : Outcome.done x ≡ Outcome.done s' = e in ground arith

  save_complete_block-context :
      (s : Slot redis) {s' : Slot redis}
      → save_complete_block archive redis s ≡ ok s'
      → (is_up s' ≡ is_up s) × (s'.context.broadcast_block ≡ s.context.broadcast_block)
  unfolding save_complete_block
  save_complete_block-context s e = ground arith

  -- CompleteBlockSaver's run.
  save_complete-context :
      (m : Moment) (t : Slot redis) {u : Slot redis}
      → run_handler archive redis Handler.save_complete m t ≡ Outcome.done u
      → (is_up u ≡ is_up t) × (u.context.broadcast_block ≡ t.context.broadcast_block)
  unfolding call
  save_complete-context m t {u} ran =
      let (u0, later, called, context, _) =
        run_handler-call archive redis Handler.save_complete m t ran in
      let saved : save_complete_block archive redis t ≡ ok u0 = ground arith in
      let (flag, block) = save_complete_block-context t saved in
      (
        ap (λ c. c.should_call_next_handler) context ∙ flag,
        ap (λ c. c.broadcast_block) context ∙ block,
      )

  -- SlotHandler::publishBlock's run.
  publishes-context :
      (m : Moment) (u : Slot redis) {x : Slot redis}
      → run_handler archive redis Handler.publishes m u ≡ Outcome.done x
      → x.context ≡ u.context
  unfolding call
  publishes-context m u {x} ran =
      let (x0, later, called, context, _) =
        run_handler-call archive redis Handler.publishes m u ran in
      let kept : x0.context ≡ u.context =
        ground (arith, publish_to_clients-context archive redis u) in
      context ∙ kept

  pub last_two-context :
      (ms : List Moment) (t : Slot redis) {s' : Slot redis}
      → is_up t ≡ true
      → handle_loop archive redis last_two ms t ≡ Outcome.done s'
      → (is_up s' ≡ true) × (s'.context.broadcast_block ≡ t.context.broadcast_block)
  last_two-context ms t {s'} up e =
      let (m, ms1, u, ran, rest) =
        handle_loop-next archive redis Handler.save_complete (Handler.publishes ∷ []) ms t up e in
      let (flag, block) = save_complete-context m t ran in
      let (m', ms2, x, ran', left) =
        handle_loop-next archive redis Handler.publishes [] ms1 u (flag ∙ up) rest in
      let same : s'.context ≡ u.context =
        ap (λ (v : Slot redis). v.context) (sym (no_handlers ms2 x left))
        ∙ publishes-context m' u ran' in
      (
        ap (λ c. c.should_call_next_handler) same ∙ flag ∙ up,
        ap (λ c. c.broadcast_block) same ∙ block,
      )

  -- PendingBlockRemover leaves the flag as `isAnyNodeContributing` answers.
  try_remove-answer :
      (now : ℕ) (s : Slot redis) {s' : Slot redis} (answer : Result (ConsensusStorage × Bool))
      → is_up s ≡ true
      → is_any_node_contributing now s.context.header.slot s.node.storage ≡ answer
      → try_remove archive redis now s ≡ ok s'
      → (q : ConsensusStorage) × (answer ≡ ok (q, is_up s'))
  unfolding try_remove remove_placeholder
  try_remove-answer now s (fault x) up h e = absurd (ground arith)
  try_remove-answer now s {s'} (ok (q, true)) up h e =
      let flag : true ≡ is_up s' = ground arith in (q, ap (λ b. ok (q, b)) flag)
  try_remove-answer now s {s'} (ok (q, false)) up h e =
      let flag : false ≡ is_up s' = ground arith in (q, ap (λ b. ok (q, b)) flag)

  pub first_three-up :
      (ms : List Moment) (s : Slot redis) {v : Slot redis}
      → is_up s ≡ true
      → handle_loop archive redis first_three ms s ≡ Outcome.done v
      → is_up v ≡ true
  unfolding call handle_loop save_pending_block
  first_three-up ms s {v} up e =
      let (m, ms1, t, ran, rest) =
        handle_loop-next archive redis Handler.save_pending
          (Handler.notify_nodes ∷ Handler.wait_inspection ∷ []) ms s up e in
      let (u, later, called, context, _) =
        run_handler-call archive redis Handler.save_pending m s ran in
      let saved : save_pending_block archive redis m.now s ≡ u = ground arith in
      let up' : is_up t ≡ true =
        ap (λ c. c.should_call_next_handler) context ∙ ap is_up (sym saved) ∙ up in
      let (ms2, x, same, left) =
        handle_loop-SameChain archive redis (Handler.notify_nodes ∷ Handler.wait_inspection ∷ []) []
          (one_more keeps_notify (one_more keeps_inspection none_left)) ms1 t up' rest in
      let ended : Outcome.done x ≡ Outcome.done v = left in
      let end : v ≡ x = ground arith in ap is_up end ∙ same.3 ∙ up'

  -- After PendingBlockRemover the flag stays.
  pub rest_flag :
      (ms : List Moment) (u : Slot redis) {s' : Slot redis}
      → handle_loop archive redis (between ++ last_two) ms u ≡ Outcome.done s'
      → is_up s' ≡ is_up u
  rest_flag ms u e = elim (Bool-cases (is_up u)) [
    | inl up ↦
        let (ms1, t, same, rest) =
          handle_loop-SameChain archive redis between last_two between-AllKeep ms u up e in
        (last_two-context ms1 t (same.3 ∙ up) rest).0 ∙ sym up
    | inr down ↦ ap is_up (sym (loop_ended archive redis (between ++ last_two) ms u down e))
  ]

  -- PendingBlockRemover's run.
  pub remove_pending-answer :
      (m : Moment) (v : Slot redis) {u : Slot redis}
      → is_up v ≡ true
      → run_handler archive redis Handler.remove_pending m v ≡ Outcome.done u
      → (q : ConsensusStorage) × (is_any_node_contributing m.now v.context.header.slot
            v.node.storage
          ≡ ok (q, is_up u))
  unfolding call
  remove_pending-answer m v {u} up ran =
      let (u0, later, called, context, _) =
        run_handler-call archive redis Handler.remove_pending m v ran in
      let tried : try_remove archive redis m.now v ≡ ok u0 = ground arith in
      let (q, answer) =
        try_remove-answer m.now v
          (is_any_node_contributing m.now v.context.header.slot v.node.storage) up refl tried in
      (q, answer ∙ ap (λ c. ok (q, c.should_call_next_handler)) (sym context))
