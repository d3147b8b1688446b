-- ===== src/Slot/Steps/Frame.antt =====
-- What the steps between the database's changes leave alone: the node's database, the slot's block
-- and its place, and the flag of the loop.
use blockchain_messaging_sys.Prelude.{ℕ, ◌≡◌, refl, ok, arith, ◌∙◌, Bool-cases, inl, inr}
use blockchain_messaging_sys.Serialization.{Archive}
use blockchain_messaging_sys.Redis.{Redis}
use blockchain_messaging_sys.Slot.State.{Slot}
use blockchain_messaging_sys.Slot.Steps.{
  notify_contribution, notify_election, nominate_validator, transfer, send_to_validator, broadcast,
  publish_to_clients, set_operation, notify_all_nodes,
}

module _ {redis : Redis} where
  -- The database, the slot's block, its index in the database, and whether the loop goes on.
  abbrev pub SameChain : Slot redis → Slot redis → Type 0
  SameChain s s' =
      (s'.node.db ≡ s.node.db)
      × (s'.context.block ≡ s.context.block)
      × (s'.context.block_index ≡ s.context.block_index)
      × (s'.context.should_call_next_handler ≡ s.context.should_call_next_handler)

  pub SameChain-trans : (s t u : Slot redis) → SameChain s t → SameChain t u → SameChain s u
  SameChain-trans s t u (a, b, c, d) (a', b', c', d') = (a' ∙ a, b' ∙ b, c' ∙ c, d' ∙ d)

module _ (archive : Archive) (redis : Redis) where
  pub notify_contribution-SameChain :
      (now : ℕ) (s : Slot redis) → SameChain s (notify_contribution archive redis now s)
  unfolding notify_contribution notify_all_nodes
  notify_contribution-SameChain now s = (refl, refl, refl, refl)

  pub notify_election-SameChain :
      (now draw : ℕ) (s : Slot redis) → SameChain s (notify_election archive redis now draw s)
  unfolding notify_election notify_all_nodes set_operation
  notify_election-SameChain now draw s = (refl, refl, refl, refl)

  pub nominate_validator-SameChain :
      (now : ℕ) (s : Slot redis) {s' : Slot redis}
      → nominate_validator archive redis now s ≡ ok s'
      → SameChain s s'
  unfolding nominate_validator
  nominate_validator-SameChain now s e = ground arith

  pub transfer-SameChain :
      (now : ℕ) (s : Slot redis) {s' : Slot redis}
      → transfer archive redis now s ≡ ok s'
      → SameChain s s'
  unfolding transfer send_to_validator set_operation
  transfer-SameChain now s e = ground arith

  pub broadcast-SameChain : (s : Slot redis) → SameChain s (broadcast archive redis s)
  unfolding broadcast set_operation notify_all_nodes
  broadcast-SameChain s = elim (Bool-cases s.context.is_validator) [
    | inl own ↦ rw own (refl, refl, refl, refl)
    | inr other ↦ rw other (refl, refl, refl, refl)
  ]

  -- What is published changes only what was sent.
  pub publish_to_clients-context :
      (s : Slot redis)
      → ((publish_to_clients archive redis s).context ≡ s.context)
        × ((publish_to_clients archive redis s).node.db ≡ s.node.db)
  unfolding publish_to_clients
  publish_to_clients-context s = (refl, refl)
