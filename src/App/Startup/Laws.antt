-- ===== src/App/Startup/Laws.antt =====
-- What the start of a slot leaves in the storage.
use blockchain_messaging_sys.Prelude.{
  ℕ, ◌≡◌, ◌≢◌, refl, sym, ap, ◌∙◌, List, [], ◌∷◌, none, some, Str, str_dec, ℕ_discrete, find,
  emplace, find-modify, ite, if_pos, if_neg, subst, All, arith, at_or,
}
use blockchain_messaging_sys.Itf.{NodeInfo, NodeConfiguration, get_slot}
use blockchain_messaging_sys.Storage.View.Refines.{lookup-init_entry}
use blockchain_messaging_sys.Storage.State.{
  ConsensusStorage, Contexts, entry_at, update_entry, init_entry, init_entries, init_contexts,
  fresh_context,
}
use blockchain_messaging_sys.Storage.State.Laws.{entry_at-update_entry}
use blockchain_messaging_sys.Storage.Sync.{init_conditions}
use blockchain_messaging_sys.Storage.Sync.Laws.{
  IsAllocated, HasCondition, init_conditions-HasCondition,
}
use blockchain_messaging_sys.App.Startup.{on_slot_start}

-- The storage has a row for the address.
abbrev pub IsKnown : Contexts → Str → Type 0
IsKnown cs address = find str_dec address cs ≢ none

init_entry-update_entry :
    (now slot : ℕ) (a : Str) (cs : Contexts)
    → init_entry now slot a cs ≡ update_entry now a slot (λ c. c) cs
unfolding init_entry update_entry emplace
init_entry-update_entry now slot a cs = refl

entry_at-init_entry :
    (now slot t : ℕ) (a b : Str) (cs : Contexts)
    → entry_at now a t (init_entry now slot b cs) ≡ entry_at now a t cs
entry_at-init_entry now slot t a b cs =
    rw (init_entry-update_entry now slot b cs)
      (ground (arith, entry_at-update_entry now t slot a b (λ c. c) cs))

entry_at-init_entries :
    (now slot t : ℕ) (a : Str) (nodes : List NodeInfo) (cs : Contexts)
    → entry_at now a t (init_entries now slot nodes cs) ≡ entry_at now a t cs
unfolding init_entries
entry_at-init_entries now slot t a [] cs = refl
entry_at-init_entries now slot t a (node ∷ nodes) cs =
    entry_at-init_entries now slot t a nodes (init_entry now slot node.address cs)
    ∙ entry_at-init_entry now slot t a node.address cs

some-none : {A : Type 0} (x : A) → some x ≡ none → ⊥
some-none x e = cc

find-init_entry :
    (now slot : ℕ) (a b : Str) (cs : Contexts)
    → find str_dec a (init_entry now slot b cs)
      ≡ ite
          (str_dec b a)
          (some (emplace ℕ_discrete slot (fresh_context now) (at_or str_dec [] b cs)))
          (find str_dec a cs)
unfolding init_entry
find-init_entry now slot a b cs =
    find-modify str_dec a b [] (emplace ℕ_discrete slot (fresh_context now)) cs

IsKnown-own :
    (now slot : ℕ) (a b : Str) (cs : Contexts) → b ≡ a → IsKnown (init_entry now slot b cs) a
IsKnown-own now slot a b cs h e =
    some-none (emplace ℕ_discrete slot (fresh_context now) (at_or str_dec [] b cs))
      (sym (find-init_entry now slot a b cs ∙ if_pos (str_dec b a) h _ _) ∙ e)

IsKnown-init_entry :
    (now slot : ℕ) (a b : Str) (cs : Contexts) → IsKnown cs a → IsKnown (init_entry now slot b cs) a
IsKnown-init_entry now slot a b cs h = elim (str_dec b a) [
  | yes same ↦ IsKnown-own now slot a b cs same
  | no other ↦ λ e. h (sym (find-init_entry now slot a b cs ∙ if_neg (str_dec b a) other _ _) ∙ e)
]

IsKnown-init_entries :
    (now slot : ℕ) (a : Str) (nodes : List NodeInfo) (cs : Contexts)
    → IsKnown cs a
    → IsKnown (init_entries now slot nodes cs) a
unfolding init_entries
IsKnown-init_entries now slot a [] cs h = h
IsKnown-init_entries now slot a (node ∷ nodes) cs h =
    IsKnown-init_entries now slot a nodes (init_entry now slot node.address cs)
      (IsKnown-init_entry now slot a node.address cs h)

init_entries-IsKnown :
    (now slot : ℕ) (nodes : List NodeInfo) (cs : Contexts)
    → All (λ n. IsKnown (init_entries now slot nodes cs) n.address) nodes
unfolding init_entries
init_entries-IsKnown now slot [] cs = tt
init_entries-IsKnown now slot (node ∷ nodes) cs =
    let cs' : Contexts = init_entry now slot node.address cs in
    (
      IsKnown-init_entries now slot node.address nodes cs'
          (IsKnown-own now slot node.address node.address cs refl),
      init_entries-IsKnown now slot nodes cs',
    )

-- The table has an entry for the address and the slot.
abbrev pub HasEntry : ℕ → Contexts → Str → Type 0
HasEntry slot cs a = find ℕ_discrete slot (at_or str_dec [] a cs) ≢ none

HasEntry-init_entry :
    (now slot : ℕ) (a b : Str) (cs : Contexts)
    → HasEntry slot cs a
    → HasEntry slot (init_entry now slot b cs) a
HasEntry-init_entry now slot a b cs h e =
    let found = lookup-init_entry now slot b a slot cs in ground (arith, found, h, e)

HasEntry-own :
    (now slot : ℕ) (a b : Str) (cs : Contexts) → b ≡ a → HasEntry slot (init_entry now slot b cs) a
HasEntry-own now slot a b cs h e =
    let found = lookup-init_entry now slot b a slot cs in ground (arith, found, h, e)

HasEntry-init_entries :
    (now slot : ℕ) (a : Str) (nodes : List NodeInfo) (cs : Contexts)
    → HasEntry slot cs a
    → HasEntry slot (init_entries now slot nodes cs) a
unfolding init_entries
HasEntry-init_entries now slot a [] cs h = h
HasEntry-init_entries now slot a (node ∷ nodes) cs h =
    HasEntry-init_entries now slot a nodes (init_entry now slot node.address cs)
      (HasEntry-init_entry now slot a node.address cs h)

init_entries-HasEntry :
    (now slot : ℕ) (nodes : List NodeInfo) (cs : Contexts)
    → All (λ n. HasEntry slot (init_entries now slot nodes cs) n.address) nodes
unfolding init_entries
init_entries-HasEntry now slot [] cs = tt
init_entries-HasEntry now slot (node ∷ nodes) cs =
    let cs' : Contexts = init_entry now slot node.address cs in
    (
      HasEntry-init_entries now slot node.address nodes cs'
          (HasEntry-own now slot node.address node.address cs refl),
      init_entries-HasEntry now slot nodes cs',
    )

same_configuration :
    (slot : ℕ) (s : ConsensusStorage)
    → (init_conditions slot s).node_configuration ≡ s.node_configuration
unfolding init_conditions
same_configuration slot s = ground arith

-- Where no condition is null or dangling and no other thread uses the storage meanwhile, the timer's
-- first callback gives the slot of the clock reading a condition and the node itself and every
-- configured node an entry for this slot, and changes what is read of no entry, so that a
-- declaration that came before the slot's start is kept.
pub on_slot_start_lem :
    (now : ℕ) (s : ConsensusStorage)
    → IsAllocated s
    → find ℕ_discrete (get_slot now) s.conditions ≢ some none
    → (r : ℕ) × HasCondition r (get_slot now) (on_slot_start now s)
      × HasEntry (get_slot now) (on_slot_start now s).contexts s.node_configuration.self.address
      × All
          (λ n. HasEntry (get_slot now) (on_slot_start now s).contexts n.address)
          s.node_configuration.nodes
      × ((a : Str) (t : ℕ)
          → entry_at now a t (on_slot_start now s).contexts ≡ entry_at now a t s.contexts)
unfolding on_slot_start init_contexts init_conditions
on_slot_start_lem now s allocated pointer =
    let slot : ℕ = get_slot now in
    let s1 : ConsensusStorage = init_conditions slot s in
    let config : NodeConfiguration = s1.node_configuration in
    let cs : Contexts = init_entry now slot config.self.address s1.contexts in
    let (r, condition, same) = init_conditions-HasCondition slot s allocated pointer in
    (
      r,
      condition,
      subst (λ (c : NodeConfiguration). HasEntry slot (on_slot_start now s).contexts c.self.address)
          (same_configuration slot s)
          (HasEntry-init_entries now slot config.self.address config.nodes cs
            (HasEntry-own now slot config.self.address config.self.address s1.contexts refl)),
      subst
          (λ (c : NodeConfiguration).
            All (λ n. HasEntry slot (on_slot_start now s).contexts n.address) c.nodes)
          (same_configuration slot s) (init_entries-HasEntry now slot config.nodes cs),
      λ a t.
          entry_at-init_entries now slot t a config.nodes cs
          ∙ entry_at-init_entry now slot t a config.self.address s1.contexts
          ∙ ap (entry_at now a t) same,
    )
