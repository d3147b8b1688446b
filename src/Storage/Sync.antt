-- ===== src/Storage/Sync.antt =====
-- The condition of each slot: initConditions, getSlotSynchronizationContext, clearSlot, and the
-- atomic flag behind the shared pointer.
pub mod Laws
use blockchain_messaging_sys.Prelude.{
  ℕ, Bool, true, false, List, [], ◌∷◌, ◌++◌, Option, none, some, Str, str_dec, ℕ_discrete, Map,
  find, modify, remove, at_or, length, get_elem?, set, Result, ok, fault, Fault,
}
use blockchain_messaging_sys.Storage.State.{
  ConsensusStorage, SlotSynchronizationContext, Contexts, Row,
}

-- `conditions.emplace(slot, std::make_shared<SlotSychronizationContext>())`, unless it is there
unfoldable pub init_conditions : ℕ → ConsensusStorage → ConsensusStorage
unfolding find modify
init_conditions slot s = elim (find ℕ_discrete slot s.conditions) [
  | some _ ↦ s
  | none ↦ record s {
    conditions = s.conditions ++ (slot, some (length s.synchronizations)) ∷ [];
    synchronizations = s.synchronizations ++ record { is_synchronized = false } ∷ [];
  }
]

-- `conditions[slot]`: a slot with no condition gets a null pointer.
unfoldable pub get_slot_synchronization_context : ℕ → ConsensusStorage → ConsensusStorage × Option ℕ
unfolding find modify
get_slot_synchronization_context slot s = (
  record s { conditions = modify ℕ_discrete slot none (λ p. p) s.conditions },
  at_or ℕ_discrete none slot s.conditions,
)

-- `pointer->isSynchronized.store(value)`
unfoldable pub store_synchronized : Option ℕ → Bool → ConsensusStorage → Result ConsensusStorage
store_synchronized none value s = fault Fault.null_pointer
store_synchronized (some r) value s =
    ok (record s {
      synchronizations = set s.synchronizations r (record { is_synchronized = value });
    })

-- `pointer->isSynchronized.load()`
unfoldable pub load_synchronized : Option ℕ → ConsensusStorage → Result Bool
load_synchronized none s = fault Fault.null_pointer
load_synchronized (some r) s = elim (get_elem? s.synchronizations r) [
  | none ↦ fault Fault.null_pointer
  | some c ↦ ok c.is_synchronized
]

-- The loop of clearSlot: each row loses the slot, and `conditions` loses it in each round.
unfoldable pub clear_rows : ℕ → Contexts → Contexts
unfolding remove
clear_rows slot [] = []
clear_rows slot ((address, row) ∷ rest) =
    (address, remove ℕ_discrete slot row) ∷ clear_rows slot rest

clear_conditions : ℕ → Contexts → Map ℕ (Option ℕ) → Map ℕ (Option ℕ)
unfolding remove
clear_conditions slot [] conditions = conditions
clear_conditions slot (_ ∷ rest) conditions =
    clear_conditions slot rest (remove ℕ_discrete slot conditions)

-- clearSlot
unfoldable pub clear_slot : ℕ → ConsensusStorage → ConsensusStorage
unfolding clear_rows clear_conditions
clear_slot slot s = record s {
  contexts = clear_rows slot s.contexts;
  conditions = clear_conditions slot s.contexts s.conditions;
}
