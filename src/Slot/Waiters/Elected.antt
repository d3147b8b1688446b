-- ===== src/Slot/Waiters/Elected.antt =====
-- ElectionWaiter: what its loop has reached when it ends, however often values were drawn again.
use blockchain_messaging_sys.Prelude.{
  none, some, ℕ, ◌≡◌, ◌≢◌, inr, refl, sym, ap, ◌∙◌, true, false, List, [], ◌∷◌, Option, Str, Result,
  ok, fault, arith, subst, Bool,
}
use blockchain_messaging_sys.Serialization.{Archive}
use blockchain_messaging_sys.Redis.{Redis}
use blockchain_messaging_sys.Storage.State.{
  ConsensusStorage, ConsensusContext, Contexts, entry, entry_at,
}
use blockchain_messaging_sys.Storage.State.Laws.{SameRows}
use blockchain_messaging_sys.Storage.Queries.{
  are_all_election_values_present, is_election_value_unique,
}
use blockchain_messaging_sys.Storage.Queries.Laws.{EveryEntry, EveryEntry-forward, HasValue}
use blockchain_messaging_sys.Storage.Queries.Answers.{are_all_election_values_present-Answers}
use blockchain_messaging_sys.Storage.Queries.Unique.{
  EveryOther, is_election_value_unique-EveryOther, entry_at-is_election_value_unique,
  is_election_value_unique_iff,
}
use blockchain_messaging_sys.Itf.{NodeConfiguration}
use blockchain_messaging_sys.Slot.State.{Slot, Outcome, Delivery, Moment, ◌>>=◌}
use blockchain_messaging_sys.Slot.Wait.{wait_until}
use blockchain_messaging_sys.Slot.Steps.{notify_election, set_operation, notify_all_nodes}
use blockchain_messaging_sys.Slot.Waiters.{
  Round, wait_for_election, election_loop, draw_again, election_round, after_wait, is_elected,
  unique_if,
}

-- In the storage, every known node but `own` has a value for the slot, and the value of `own` differs
-- from each of theirs.
abbrev pub IsDecided : ℕ → ℕ → Str → ConsensusStorage → Type 0
IsDecided now slot own s =
    EveryOther own (λ row. HasValue (entry now slot row)) s.contexts
    × EveryOther own
        (λ row.
          (entry now slot row).election_value ≢ (entry_at now own slot s.contexts).election_value)
        s.contexts

EveryOther-EveryEntry :
    (P : ConsensusContext → Type 0) (now slot : ℕ) (own : Str) (cs : Contexts)
    → EveryEntry P now slot cs
    → EveryOther own (λ row. P (entry now slot row)) cs
EveryOther-EveryEntry P now slot own [] h = tt
EveryOther-EveryEntry P now slot own (_ ∷ cs) h =
    (inr h.0, EveryOther-EveryEntry P now slot own cs h.1)

module _ (archive : Archive) (redis : Redis) where
  present-IsDecided :
      (now slot : ℕ) (own : Str) (s s' s1 : ConsensusStorage) (b : Bool)
      → (b ≡ true → EveryEntry HasValue now slot s.contexts)
      → SameRows now s.contexts s1.contexts
      → unique_if archive redis now slot own (ok (s1, b)) ≡ ok (s', true)
      → IsDecided now slot own s'
  unfolding unique_if
  present-IsDecided now slot own s s' s1 false all rows h = cc
  present-IsDecided now slot own s s' s1 true all rows h =
      let (ended, unique) : ((is_election_value_unique now own slot s1).0 ≡ s')
          × ((is_election_value_unique now own slot s1).1 ≡ true) =
        ground arith in
      let v : ℕ = (entry_at now own slot s1.contexts).election_value in
      let same : v
          ≡ (entry_at now own slot
              (is_election_value_unique now own slot s1).0.contexts).election_value =
        ap (λ (c : ConsensusContext). c.election_value)
          (sym (entry_at-is_election_value_unique now slot slot own own s1)) in
      subst (IsDecided now slot own) ended (
        is_election_value_unique-EveryOther HasValue now slot own s1 (
            EveryOther-EveryEntry HasValue now slot own s1.contexts
              (EveryEntry-forward HasValue now slot s.contexts s1.contexts rows (all refl))),
        subst
            (λ w.
              EveryOther own (λ row. (entry now slot row).election_value ≢ w)
                (is_election_value_unique now own slot s1).0.contexts)
            same
            (is_election_value_unique-EveryOther (λ c. c.election_value ≢ v) now slot own s1
              ((is_election_value_unique_iff now slot own s1).0 unique)),
      )

  is_elected-IsDecided :
      (now slot : ℕ) (own : Str) (s s' : ConsensusStorage)
      → is_elected archive redis now slot own s ≡ ok (s', true)
      → IsDecided now slot own s'
  unfolding is_elected
  is_elected-IsDecided now slot own s s' h =
      let (s1, b, e, iff, rows, _, _) = are_all_election_values_present-Answers now slot s in
      present-IsDecided now slot own s s' s1 b iff.0 rows
        (ap (unique_if archive redis now slot own) (sym e) ∙ h)

  after_wait-IsDecided :
      (now slot : ℕ) (own : Str) (s s' : ConsensusStorage) (later rest : List Delivery)
      → after_wait archive redis now slot own s later ≡ Outcome.done (Round.finished s' rest)
      → IsDecided now slot own s'
  unfolding after_wait
  after_wait-IsDecided now slot own s s' later rest h =
      is_elected-IsDecided now slot own (is_election_value_unique now own slot s).0 s'
        (ground arith)

  waited-IsDecided :
      (now slot : ℕ) (own : Str) (rest : List Delivery) (s' : ConsensusStorage)
      (o : Outcome (ConsensusStorage × List Delivery))
      → (o >>= λ r. after_wait archive redis now slot own r.0 r.1)
        ≡ Outcome.done (Round.finished s' rest)
      → IsDecided now slot own s'
  waited-IsDecided now slot own rest s' (Outcome.done (t, later)) h =
      after_wait-IsDecided now slot own t s' later rest h
  waited-IsDecided now slot own rest s' Outcome.blocked h = cc
  waited-IsDecided now slot own rest s' (Outcome.failed e) h = cc

  round-IsDecided :
      (now slot : ℕ) (pointer : Option ℕ) (own : Str) (deliveries rest : List Delivery)
      (s s' : ConsensusStorage) (result : Result (ConsensusStorage × Bool))
      → is_elected archive redis now slot own s ≡ result
      → election_round archive redis now slot pointer own deliveries s
        ≡ Outcome.done (Round.finished s' rest)
      → IsDecided now slot own s'
  unfolding election_round
  round-IsDecided now slot pointer own deliveries rest s s' (fault x) e h = absurd (ground arith)
  round-IsDecided now slot pointer own deliveries rest s s' (ok (t, true)) e h =
      is_elected-IsDecided now slot own s s' (ground arith)
  round-IsDecided now slot none own deliveries rest s s' (ok (t, false)) e h = absurd (ground arith)
  round-IsDecided now slot (some r) own deliveries rest s s' (ok (t, false)) e h =
      waited-IsDecided now slot own rest s'
        (wait_until archive (are_all_election_values_present now slot) deliveries t)
        (sym (rw (e, election_round) refl) ∙ h)

  -- A redraw stays in the slot, and at the node.
  draw_again-slot :
      (now draw : ℕ) (pointer : Option ℕ) (s : Slot redis) (storage : ConsensusStorage)
      {s' : Slot redis}
      → draw_again archive redis now draw pointer s storage ≡ ok s'
      → (s'.context.header.slot ≡ s.context.header.slot)
        × (s'.context.node_configuration ≡ s.context.node_configuration)
  unfolding draw_again notify_election set_operation notify_all_nodes
  draw_again-slot now draw pointer s storage e = ground arith

  abbrev pub Decides : ℕ → Slot redis → Slot redis → Type 0
  Decides now s s' =
      IsDecided now s.context.header.slot s.context.node_configuration.self.address s'.node.storage

  -- The round at which a loop starts.
  abbrev first_round : ℕ → Option ℕ → List Delivery → Slot redis → Outcome Round
  first_round now pointer deliveries s =
      election_round archive redis now s.context.header.slot pointer
        s.context.node_configuration.self.address deliveries s.node.storage

  finished-IsDecided :
      (now : ℕ) (pointer : Option ℕ) (deliveries rest : List Delivery) (s s' : Slot redis)
      (t : ConsensusStorage)
      → first_round now pointer deliveries s ≡ Outcome.done (Round.finished t rest)
      → s'.node.storage ≡ t
      → Decides now s s'
  finished-IsDecided now pointer deliveries rest s s' t h same =
      let slot : ℕ = s.context.header.slot in
      let own : Str = s.context.node_configuration.self.address in
      subst (IsDecided now slot own) (sym same)
        (round-IsDecided now slot pointer own deliveries rest s.node.storage t _ refl h)

  ends-IsDecided :
      (now : ℕ) (pointer : Option ℕ) (deliveries : List Delivery) (s : Slot redis) {s' : Slot redis}
      {later : List Delivery} (o : Outcome Round)
      → first_round now pointer deliveries s ≡ o
      → election_loop archive redis now pointer [] deliveries s ≡ Outcome.done (s', later)
      → Decides now s s'
  unfolding election_loop
  ends-IsDecided now pointer deliveries s {s'} (Outcome.done (Round.finished t rest)) h e =
      finished-IsDecided now pointer deliveries rest s s' t h (ground arith)
  ends-IsDecided now pointer deliveries s (Outcome.done (Round.duplicate t rest)) h e =
      absurd (ground arith)
  ends-IsDecided now pointer deliveries s Outcome.blocked h e = absurd (ground arith)
  ends-IsDecided now pointer deliveries s (Outcome.failed x) h e = absurd (ground arith)

  goes_on-IsDecided :
      (now draw : ℕ) (pointer : Option ℕ) (draws : List ℕ) (deliveries : List Delivery)
      (s : Slot redis) {s' : Slot redis} {later : List Delivery} (o : Outcome Round)
      → first_round now pointer deliveries s ≡ o
      → ((ds : List Delivery) (next : Slot redis)
          → election_loop archive redis now pointer draws ds next ≡ Outcome.done (s', later)
          → Decides now next s')
      → election_loop archive redis now pointer (draw ∷ draws) deliveries s
        ≡ Outcome.done (s', later)
      → Decides now s s'
  unfolding election_loop
  goes_on-IsDecided now draw pointer draws deliveries s {s'} (Outcome.done (Round.finished t rest))
        h again e =
      finished-IsDecided now pointer deliveries rest s s' t h (ground arith)
  goes_on-IsDecided now draw pointer draws deliveries s {s'} {later}
        (Outcome.done (Round.duplicate t rest)) h again e =
      by_draw (draw_again archive redis now draw pointer s t) refl
    where
      by_draw :
          (result : Result (Slot redis))
          → draw_again archive redis now draw pointer s t ≡ result
          → Decides now s s'
      by_draw (fault x) d = absurd (ground arith)
      by_draw (ok next) d =
          let (same_slot, same_node) = draw_again-slot now draw pointer s t d in
          let rest_done : election_loop archive redis now pointer draws rest next
              ≡ Outcome.done (s', later) =
            ground arith in
          subst (λ q. IsDecided now q s.context.node_configuration.self.address s'.node.storage)
            same_slot
            (subst
              (λ (c : NodeConfiguration).
                IsDecided now next.context.header.slot c.self.address s'.node.storage)
              same_node (again rest next rest_done))
  goes_on-IsDecided now draw pointer draws deliveries s Outcome.blocked h again e =
      absurd (ground arith)
  goes_on-IsDecided now draw pointer draws deliveries s (Outcome.failed x) h again e =
      absurd (ground arith)

  loop-IsDecided :
      (now : ℕ) (pointer : Option ℕ) (draws : List ℕ) (deliveries : List Delivery) (s : Slot redis)
      {s' : Slot redis} {later : List Delivery}
      → election_loop archive redis now pointer draws deliveries s ≡ Outcome.done (s', later)
      → Decides now s s'
  loop-IsDecided now pointer [] deliveries s e = ends-IsDecided now pointer deliveries s _ refl e
  loop-IsDecided now pointer (draw ∷ draws) deliveries s e =
      goes_on-IsDecided now draw pointer draws deliveries s _ refl
        (λ ds next e'. loop-IsDecided now pointer draws ds next e') e

  -- When ElectionWaiter returns, whatever came meanwhile and however often values were drawn again,
  -- every other node that the storage it leaves knows has an election value for the slot, and the
  -- node's own value differs from each of theirs.
  pub wait_for_election-IsDecided :
      (m : Moment) (s : Slot redis) {s' : Slot redis} {later : List Delivery}
      → wait_for_election archive redis m s ≡ Outcome.done (s', later)
      → Decides m.now s s'
  unfolding wait_for_election
  wait_for_election-IsDecided m s e = loop-IsDecided m.now _ m.draws m.deliveries _ e
