-- ===== src/Slot/Handler/Frame.antt =====
-- The handlers between two changes of the database, one after the other: the loop of `handle`
-- reaches the handler after them with the same database and the same block.
use blockchain_messaging_sys.Prelude.{
  ◌≡◌, refl, sym, ap, ◌∙◌, inl, inr, true, false, Bool-cases, List, [], ◌∷◌, ◌++◌, arith,
}
use blockchain_messaging_sys.Serialization.{Archive}
use blockchain_messaging_sys.Redis.{Redis}
use blockchain_messaging_sys.Slot.State.{Slot, Outcome, Delivery, Moment, >>=-eq-done}
use blockchain_messaging_sys.Slot.Steps.Frame.{
  SameChain, SameChain-trans, notify_contribution-SameChain, notify_election-SameChain,
  nominate_validator-SameChain, transfer-SameChain, broadcast-SameChain,
}
use blockchain_messaging_sys.Slot.Waiters.Frame.{
  wait_for_inspection-SameChain, wait_for_election-SameChain, wait_for_contributors_data-SameChain,
  wait_for_broadcast-SameChain,
}
use blockchain_messaging_sys.Slot.Handler.Laws.{handle_loop_down}
use blockchain_messaging_sys.Slot.Handler.{Handler, call, first_draw, run_handler, handle_loop}

-- The handlers that do not change the database.
pub data Keeps : Handler → Type 0 where
  keeps_notify : Keeps Handler.notify_nodes
  keeps_inspection : Keeps Handler.wait_inspection
  keeps_send : Keeps Handler.send_election
  keeps_election : Keeps Handler.wait_election
  keeps_nominate : Keeps Handler.nominate
  keeps_transfer : Keeps Handler.transfer_data
  keeps_data : Keeps Handler.wait_data
  keeps_broadcasts : Keeps Handler.broadcasts
  keeps_broadcast : Keeps Handler.wait_broadcast

pub data AllKeep : List Handler → Type 0 where
  none_left : AllKeep []
  one_more : {h : Handler} {hs : List Handler} → Keeps h → AllKeep hs → AllKeep (h ∷ hs)

-- The handlers after PendingBlockRemover and before CompleteBlockSaver, and those from there on.
abbrev pub between : List Handler
between =
    Handler.send_election ∷ Handler.wait_election ∷ Handler.nominate ∷ Handler.transfer_data
    ∷ Handler.wait_data ∷ Handler.broadcasts ∷ Handler.wait_broadcast ∷ []

abbrev pub last_two : List Handler
last_two = Handler.save_complete ∷ Handler.publishes ∷ []

pub between-AllKeep : AllKeep between
between-AllKeep = one_more keeps_send (
    one_more keeps_election (
      one_more keeps_nominate (
        one_more keeps_transfer
          (one_more keeps_data (one_more keeps_broadcasts (one_more keeps_broadcast none_left))))))

module _ (archive : Archive) (redis : Redis) where
  call-SameChain :
      (h : Handler)
      → Keeps h
      → (m : Moment) (s : Slot redis) {s' : Slot redis} {later : List Delivery}
      → call archive redis h m s ≡ Outcome.done (s', later)
      → SameChain s s'
  unfolding call first_draw
  call-SameChain _ keeps_notify m s e =
      ground (arith, notify_contribution-SameChain archive redis m.now s)
  call-SameChain _ keeps_inspection m s e = wait_for_inspection-SameChain archive redis m s e
  call-SameChain _ keeps_send m s e = grind (arith, notify_election-SameChain archive redis)
  call-SameChain _ keeps_election m s e = wait_for_election-SameChain archive redis m s e
  call-SameChain _ keeps_nominate m s e = grind (arith, nominate_validator-SameChain archive redis)
  call-SameChain _ keeps_transfer m s e = grind (arith, transfer-SameChain archive redis)
  call-SameChain _ keeps_data m s e = wait_for_contributors_data-SameChain archive redis m s e
  call-SameChain _ keeps_broadcasts m s e = ground (arith, broadcast-SameChain archive redis s)
  call-SameChain _ keeps_broadcast m s e = wait_for_broadcast-SameChain archive redis m s e

  -- What comes of a handler's result in the rest of its run: only the storage may change.
  pub run_handler-call :
      (h : Handler) (m : Moment) (s : Slot redis) {s' : Slot redis}
      → run_handler archive redis h m s ≡ Outcome.done s'
      → (t : Slot redis) × (later : List Delivery) × (call archive redis h m s
          ≡ Outcome.done (t, later))
        × (s'.context ≡ t.context)
        × (s'.node.db ≡ t.node.db)
  unfolding run_handler
  run_handler-call h m s e =
      let ((t, later), called, rest) = >>=-eq-done (call archive redis h m s) _ e in
      (t, later, called, ground arith, ground arith)

  pub run_handler-SameChain :
      (h : Handler)
      → Keeps h
      → (m : Moment) (s : Slot redis) {s' : Slot redis}
      → run_handler archive redis h m s ≡ Outcome.done s'
      → SameChain s s'
  run_handler-SameChain h k m s e =
      let (t, later, called, same_context, same_db) = run_handler-call h m s e in
      grind (arith, call-SameChain h k m s called)

  loop_after :
      (hs : List Handler) (ms : List Moment) (o : Outcome (Slot redis)) {s' : Slot redis}
      → elim o [
        | Outcome.failed e ↦ Outcome.failed e
        | Outcome.blocked ↦ Outcome.blocked
        | Outcome.done t ↦ handle_loop archive redis hs ms t
      ]
        ≡ Outcome.done s'
      → (t : Slot redis) × (o ≡ Outcome.done t)
        × (handle_loop archive redis hs ms t ≡ Outcome.done s')
  loop_after hs ms (Outcome.done t) e = (t, refl, e)
  loop_after hs ms Outcome.blocked e = cc
  loop_after hs ms (Outcome.failed _) e = cc

  loop_up :
      (h : Handler) (hs : List Handler) (m : Moment) (ms : List Moment) (s : Slot redis)
      → s.context.should_call_next_handler ≡ true
      → handle_loop archive redis (h ∷ hs) (m ∷ ms) s ≡ elim (run_handler archive redis h m s) [
        | Outcome.failed e ↦ Outcome.failed e
        | Outcome.blocked ↦ Outcome.blocked
        | Outcome.done t ↦ handle_loop archive redis hs ms t
      ]
  unfolding handle_loop
  loop_up h hs m ms s up = simp (up, handle_loop)

  -- While the flag is up, a loop that returns runs its next handler and goes on.
  pub handle_loop-next :
      (h : Handler) (hs : List Handler) (ms : List Moment) (s : Slot redis) {s' : Slot redis}
      → s.context.should_call_next_handler ≡ true
      → handle_loop archive redis (h ∷ hs) ms s ≡ Outcome.done s'
      → (m : Moment) × (ms' : List Moment) × (t : Slot redis) × (run_handler archive redis h m s
          ≡ Outcome.done t)
        × (handle_loop archive redis hs ms' t ≡ Outcome.done s')
  unfolding handle_loop
  handle_loop-next h hs [] s up e = absurd (ground arith)
  handle_loop-next h hs (m ∷ ms) s up e =
      let (t, ran, rest) =
        loop_after hs ms (run_handler archive redis h m s) (sym (loop_up h hs m ms s up) ∙ e) in
      (m, ms, t, ran, rest)

  -- The same, past a list of handlers that do not change the database.
  pub handle_loop-SameChain :
      (hs rest : List Handler)
      → AllKeep hs
      → (ms : List Moment) (s : Slot redis) {s' : Slot redis}
      → s.context.should_call_next_handler ≡ true
      → handle_loop archive redis (hs ++ rest) ms s ≡ Outcome.done s'
      → (ms' : List Moment) × (t : Slot redis) × SameChain s t
        × (handle_loop archive redis rest ms' t ≡ Outcome.done s')
  handle_loop-SameChain [] rest k ms s up e = (ms, s, (refl, refl, refl, refl), e)
  handle_loop-SameChain (h ∷ hs) rest (one_more k ks) ms s up e =
      let (m, ms1, t, ran, after) = handle_loop-next h (hs ++ rest) ms s up e in
      let same : SameChain s t = run_handler-SameChain h k m s ran in
      let (ms2, u, same', left) = handle_loop-SameChain hs rest ks ms1 t (same.3 ∙ up) after in
      (ms2, u, SameChain-trans s t u same same', left)

  -- The next handler takes the first moment.
  pub handle_loop-step :
      (h : Handler) (hs : List Handler) (ms : List Moment) (s : Slot redis) {s' : Slot redis}
      → s.context.should_call_next_handler ≡ true
      → handle_loop archive redis (h ∷ hs) ms s ≡ Outcome.done s'
      → (m : Moment) × (ms' : List Moment) × (t : Slot redis) × (ms ≡ m ∷ ms')
        × (run_handler archive redis h m s ≡ Outcome.done t)
        × (handle_loop archive redis hs ms' t ≡ Outcome.done s')
  unfolding handle_loop
  handle_loop-step h hs [] s up e = absurd (ground arith)
  handle_loop-step h hs (m ∷ ms) s up e =
      let (t, ran, rest) =
        loop_after hs ms (run_handler archive redis h m s) (sym (loop_up h hs m ms s up) ∙ e) in
      (m, ms, t, refl, ran, rest)

  loop_nil :
      (ms : List Moment) (s : Slot redis) → handle_loop archive redis [] ms s ≡ Outcome.done s
  unfolding handle_loop
  loop_nil ms s = refl

  -- A loop whose flag is down has ended.
  pub loop_ended :
      (hs : List Handler) (ms : List Moment) (s : Slot redis) {s' : Slot redis}
      → s.context.should_call_next_handler ≡ false
      → handle_loop archive redis hs ms s ≡ Outcome.done s'
      → s ≡ s'
  loop_ended hs ms s {s'} down e =
      let ended : Outcome.done s ≡ Outcome.done s' =
        sym (handle_loop_down archive redis hs ms s down) ∙ e in
      ground arith

  -- A loop that returns has run its first handlers over the first moments, and the others over the
  -- others.
  pub handle_loop-split :
      (hs rest : List Handler) (ms : List Moment) (s : Slot redis) {s' : Slot redis}
      → handle_loop archive redis (hs ++ rest) ms s ≡ Outcome.done s'
      → (ms1 : List Moment) × (ms2 : List Moment) × (t : Slot redis) × (ms ≡ ms1 ++ ms2)
        × (handle_loop archive redis hs ms1 s ≡ Outcome.done t)
        × (handle_loop archive redis rest ms2 t ≡ Outcome.done s')
  handle_loop-split [] rest ms s e = ([], ms, s, refl, loop_nil [] s, e)
  handle_loop-split (h ∷ hs) rest ms s {s'} e =
      elim (Bool-cases s.context.should_call_next_handler) [
        | inl up ↦
            let (m, ms', t, first, ran, after) = handle_loop-step h (hs ++ rest) ms s up e in
            let (ms1, ms2, u, split, e1, e2) = handle_loop-split hs rest ms' t after in
            (m ∷ ms1, ms2, u, first ∙ ap (◌∷◌ m) split, loop_up h hs m ms1 s up ∙ rw ran e1, e2)
        | inr down ↦ (
          [],
          ms,
          s,
          refl,
          handle_loop_down archive redis (h ∷ hs) [] s down,
          handle_loop_down archive redis rest ms s down
              ∙ ap Outcome.done (loop_ended (h ∷ hs ++ rest) ms s down e),
        )
      ]
