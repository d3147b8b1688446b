-- ===== src/Slot/Handler/Chain.antt =====
-- A whole slot and the database: what `handle` leaves of the placeholder that PendingBlockSaver
-- appended.
use blockchain_messaging_sys.Prelude.{
  ℕ, ◌≡◌, ◌⊎◌, inl, inr, ◌^◌, ◌<◌, refl, sym, ◌∙◌, ap, true, false, List, [], ◌∷◌, ◌++◌, some,
  arith, ok, Str, length, subst,
}
use blockchain_messaging_sys.Itf.{Block, default_blockchain}
use blockchain_messaging_sys.Serialization.{Archive, ArchiveLaws, block_class, serialize}
use blockchain_messaging_sys.Redis.{
  Redis, RedisLaws, remove_first, update, remove_block, get_by_index,
}
use blockchain_messaging_sys.Redis.Chain.{add_lem, update_last, read_last}
use blockchain_messaging_sys.Slot.State.{Slot, Outcome, Moment}
use blockchain_messaging_sys.Slot.Steps.{
  save_pending_block, try_remove, remove_placeholder, save_complete_block,
}
use blockchain_messaging_sys.Slot.Steps.Frame.{SameChain, publish_to_clients-context}
use blockchain_messaging_sys.Slot.Handler.{Handler, call, run_handler, handle_loop, handle}
use blockchain_messaging_sys.Slot.Handler.Laws.{handle_loop_down}
use blockchain_messaging_sys.Slot.Handler.Frame.{
  keeps_notify, keeps_inspection, between, last_two, between-AllKeep, none_left, one_more,
  run_handler-call, handle_loop-next, handle_loop-SameChain,
}

module _ (archive : Archive) (laws : ArchiveLaws archive) (redis : Redis)
    (rlaws : RedisLaws redis) where
  open rlaws use {elements, lrem_elements}

  abbrev text_of : Block → Str
  text_of b = serialize archive block_class b

  abbrev chain : Slot redis → List Str
  chain s = elements default_blockchain s.node.db

  -- The slot's block stands at its index, after the blocks that were there.
  abbrev Placed : List Str → Slot redis → Type 0
  Placed xs s =
      (s.context.block_index ≡ length xs)
      × (s.context.should_call_next_handler ≡ true)
      × (chain s ≡ xs ++ text_of s.context.block ∷ [])

  abbrev pub Completed : List Str → Slot redis → Type 0
  Completed xs s =
      (s.context.should_call_next_handler ≡ true)
      × (chain s ≡ xs ++ text_of s.context.broadcast_block ∷ [])
      × (get_by_index archive redis s.context.block_index default_blockchain s.node.db
          ≡ ok (some s.context.broadcast_block))

  abbrev pub Withdrawn : List Str → Slot redis → Type 0
  Withdrawn xs s =
      (s.context.should_call_next_handler ≡ false)
      × (chain s ≡ remove_first (text_of s.context.block) (xs ++ text_of s.context.block ∷ []))

  Placed-SameChain :
      (xs : List Str) (s s' : Slot redis) → SameChain s s' → Placed xs s → Placed xs s'
  Placed-SameChain xs s s' (db, block, index, flag) (at_end, up, e) = (
    index ∙ at_end,
    flag ∙ up,
    ap (elements default_blockchain) db ∙ e ∙ ap (λ b. xs ++ text_of b ∷ []) (sym block),
  )

  -- A property that does not look at the storage holds of a slot with the same context and database.
  carried :
      (P : Slot redis → Type 0) (t s' : Slot redis)
      → s'.context ≡ t.context
      → s'.node.db ≡ t.node.db
      → P (record s' { context = t.context; node = record (s'.node) { db = t.node.db } })
      → P s'
  carried P t s' same_context same_db p =
      subst (λ c. P (record s' { context = c })) (sym same_context)
        (subst (λ db. P (record s' { context = t.context; node = record (s'.node) { db = db } }))
          (sym same_db) p)

  save_pending_block-Placed :
      (now : ℕ) (s : Slot redis)
      → s.context.should_call_next_handler ≡ true
      → Placed (chain s) (save_pending_block archive redis now s)
  unfolding save_pending_block
  save_pending_block-Placed now s up =
      let (e, index) = add_lem archive laws redis rlaws default_blockchain _ s.node.db in
      (index, up, e)

  module _ (xs : List Str) (small : length xs < 2 ^ 31) where
    found :
        (s : Slot redis)
        → Placed xs s
        → get_by_index archive redis s.context.block_index default_blockchain s.node.db
          ≡ ok (some s.context.block)
    found s (index, up, e) =
        rw index (
          read_last archive laws redis rlaws default_blockchain xs s.context.block s.node.db e
            small)

    -- What `tryRemove` leaves, of the context and of the database.
    try_remove-cases :
        (now : ℕ) (s : Slot redis) {s' : Slot redis}
        → Placed xs s
        → try_remove archive redis now s ≡ ok s'
        → SameChain s s'
          ⊎ ((s'.context.should_call_next_handler ≡ false)
              × (s'.context.block ≡ s.context.block)
              × (s'.node.db ≡ redis.lrem default_blockchain 1 (text_of s.context.block) s.node.db))
    unfolding try_remove remove_placeholder remove_block
    try_remove-cases now s placed r =
        let there : get_by_index archive redis s.context.block_index default_blockchain s.node.db
            ≡ ok (some s.context.block) =
          found s placed in
        ground arith

    try_remove-Placed :
        (now : ℕ) (s : Slot redis) {s' : Slot redis}
        → Placed xs s
        → try_remove archive redis now s ≡ ok s'
        → Placed xs s' ⊎ Withdrawn xs s'
    try_remove-Placed now s {s'} placed r = elim (try_remove-cases now s placed r) [
      | inl same ↦ inl (Placed-SameChain xs s s' same placed)
      | inr (down, block, removed) ↦ inr (
        down,
        ap (elements default_blockchain) removed
            ∙ lrem_elements default_blockchain (text_of s.context.block) s.node.db
            ∙ ap (remove_first (text_of s.context.block)) placed.2
            ∙ ap (λ b. remove_first (text_of b) (xs ++ text_of b ∷ [])) (sym block),
      )
    ]

    save_complete_block-Placed :
        (s : Slot redis) {s' : Slot redis}
        → Placed xs s
        → save_complete_block archive redis s ≡ ok s'
        → Completed xs s'
    unfolding save_complete_block
    save_complete_block-Placed s {s'} (index, up, e) r =
        let (db, updated, e') =
          update_last archive laws redis rlaws default_blockchain xs (text_of s.context.block)
            s.context.broadcast_block s.node.db e in
        let at_index : update archive redis s.context.broadcast_block s.context.block_index
              default_blockchain s.node.db
            ≡ ok db =
          rw index updated in
        let (up', same_db, same_block, at_end) : (s'.context.should_call_next_handler ≡ true)
            × (s'.node.db ≡ db)
            × (s'.context.broadcast_block ≡ s.context.broadcast_block)
            × (s'.context.block_index ≡ length xs) =
          ground arith in
        let chain' : chain s' ≡ xs ++ text_of s'.context.broadcast_block ∷ [] =
          ap (elements default_blockchain) same_db
          ∙ e'
          ∙ ap (λ b. xs ++ text_of b ∷ []) (sym same_block) in
        (
          up',
          chain',
          rw at_end (
              read_last archive laws redis rlaws default_blockchain xs s'.context.broadcast_block
                s'.node.db chain' small),
        )

    -- What SlotHandler::publishBlock's run leaves of the slot.
    run_handler-context :
        (m : Moment) (s : Slot redis) {s' : Slot redis}
        → run_handler archive redis Handler.publishes m s ≡ Outcome.done s'
        → (s'.context ≡ s.context) × (s'.node.db ≡ s.node.db)
    unfolding call
    run_handler-context m s {s'} ran =
        let (t, later, called, same_context, same_db) =
          run_handler-call archive redis Handler.publishes m s ran in
        ground (arith, publish_to_clients-context archive redis s)

    -- PendingBlockRemover's run.
    run_handler-Placed :
        (m : Moment) (s : Slot redis) {s' : Slot redis}
        → Placed xs s
        → run_handler archive redis Handler.remove_pending m s ≡ Outcome.done s'
        → Placed xs s' ⊎ Withdrawn xs s'
    unfolding call
    run_handler-Placed m s {s'} placed ran =
        let (t, later, called, same_context, same_db) =
          run_handler-call archive redis Handler.remove_pending m s ran in
        let tried : try_remove archive redis m.now s ≡ ok t = ground arith in
        carried (λ u. Placed xs u ⊎ Withdrawn xs u) t s' same_context same_db
          (try_remove-Placed m.now s placed tried)

    -- CompleteBlockSaver's run.
    run_handler-Completed :
        (m : Moment) (s : Slot redis) {s' : Slot redis}
        → Placed xs s
        → run_handler archive redis Handler.save_complete m s ≡ Outcome.done s'
        → Completed xs s'
    unfolding call
    run_handler-Completed m s {s'} placed ran =
        let (t, later, called, same_context, same_db) =
          run_handler-call archive redis Handler.save_complete m s ran in
        let saved : save_complete_block archive redis s ≡ ok t = ground arith in
        carried (λ u. Completed xs u) t s' same_context same_db
          (save_complete_block-Placed s placed saved)

    loop_published :
        (ms : List Moment) (s : Slot redis) {s' : Slot redis}
        → Placed xs s
        → handle_loop archive redis last_two ms s ≡ Outcome.done s'
        → Completed xs s'
    unfolding handle_loop
    loop_published ms s {s'} placed e =
        let (m, ms1, t, ran, rest) =
          handle_loop-next archive redis Handler.save_complete (Handler.publishes ∷ []) ms s
            placed.1 e in
        let completed : Completed xs t = run_handler-Completed m s placed ran in
        let (m', ms2, u, ran', left) =
          handle_loop-next archive redis Handler.publishes [] ms1 t completed.0 rest in
        let (same_context, same_db) = run_handler-context m' t ran' in
        let ended : Outcome.done u ≡ Outcome.done s' = left in
        let end : u ≡ s' = ground arith in
        subst (λ v. Completed xs v) end
          (carried (λ v. Completed xs v) t u same_context same_db completed)

    loop_removed :
        (ms : List Moment) (s : Slot redis) {s' : Slot redis}
        → Placed xs s ⊎ Withdrawn xs s
        → handle_loop archive redis (between ++ last_two) ms s ≡ Outcome.done s'
        → Completed xs s' ⊎ Withdrawn xs s'
    loop_removed ms s {s'} (inl placed) e =
        let (ms1, t, same, rest) =
          handle_loop-SameChain archive redis between last_two between-AllKeep ms s placed.1 e in
        inl (loop_published ms1 t (Placed-SameChain xs s t same placed) rest)
    loop_removed ms s {s'} (inr withdrawn) e =
        let stopped : Outcome.done s ≡ Outcome.done s' =
          sym (handle_loop_down archive redis (between ++ last_two) ms s withdrawn.0) ∙ e in
        let end : s ≡ s' = ground arith in inr (subst (λ v. Withdrawn xs v) end withdrawn)

  -- A slot whose `handle` returns, over a chain of fewer than 2 ^ 31 blocks, leaves the chain in one
  -- of two ways, whatever messages come, whenever they come and however the election goes. Either
  -- every handler ran: the chain is the old one with the slot's broadcast block at its end, and
  -- the database gives this block at the slot's index. Or the loop was stopped: the chain is the old
  -- one with the slot's own pending block at its end, less the first block that has its text.
  pub handle-Completed :
      (ms : List Moment) (s : Slot redis) {s' : Slot redis}
      → length (chain s) < 2 ^ 31
      → handle archive redis ms s ≡ Outcome.done s'
      → Completed (chain s) s' ⊎ Withdrawn (chain s) s'
  unfolding handle call
  handle-Completed ms s {s'} small e =
      let s0 : Slot redis = record s {
        context = record (s.context) { should_call_next_handler = true };
      } in
      let (m, ms1, t, ran, rest) =
        handle_loop-next archive redis Handler.save_pending
          (Handler.notify_nodes ∷ Handler.wait_inspection ∷ Handler.remove_pending ∷ between
            ++ last_two)
          ms s0 refl e in
      let (u, later, called, same_context, same_db) =
        run_handler-call archive redis Handler.save_pending m s0 ran in
      let saved : save_pending_block archive redis m.now s0 ≡ u = ground arith in
      let placed : Placed (chain s) t =
        carried (λ v. Placed (chain s) v) u t same_context same_db
          (subst (λ v. Placed (chain s) v) saved (save_pending_block-Placed m.now s0 refl)) in
      let (ms2, v, same, rest') =
        handle_loop-SameChain archive redis (Handler.notify_nodes ∷ Handler.wait_inspection ∷ [])
          (Handler.remove_pending ∷ between ++ last_two)
          (one_more keeps_notify (one_more keeps_inspection none_left)) ms1 t placed.1 rest in
      let placed' : Placed (chain s) v = Placed-SameChain (chain s) t v same placed in
      let (m', ms3, w, ran', rest'') =
        handle_loop-next archive redis Handler.remove_pending (between ++ last_two) ms2 v placed'.1
          rest' in
      loop_removed (chain s) small ms3 w (run_handler-Placed (chain s) small m' v placed' ran')
        rest''
