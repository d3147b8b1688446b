-- ===== src/Storage/State.antt =====
-- The state of db::ConsensusStorage, its access paths and the methods that write one entry. An entry
-- that `operator[]` makes is `ConsensusContext{}`, whose block holds the clock reading `now`.

pub mod Laws
use blockchain_messaging_sys.Prelude.{
  ℕ, Bool, true, false, List, [], ◌∷◌, Option, none, some, Str, str_dec, ℕ_discrete, Map, find,
  modify, emplace, remove, at_or,
}
use blockchain_messaging_sys.Itf.{Block, block_default, NodeConfiguration, NodeInfo}

pub record ConsensusContext : Type 0 where
  pub node : Str
  pub address : Str
  pub slot : ℕ
  pub is_contributing : Option Bool
  pub is_validator : Bool
  pub election_value : ℕ
  pub block : Block
  pub is_resolved : Bool

-- ConsensusContext{}
unfoldable pub fresh_context : ℕ → ConsensusContext
fresh_context now = record {
  node = [];
  address = [];
  slot = 0;
  is_contributing = none;
  is_validator = false;
  election_value = 0;
  block = block_default now;
  is_resolved = false;
}

-- What the waiters read of a SlotSychronizationContext; `none` in `conditions` is a null pointer,
-- `some r` the object at place r of `synchronizations`, where shared pointers keep it.
pub record SlotSynchronizationContext : Type 0 where
  pub is_synchronized : Bool

abbrev pub Row : Type 0
Row = Map ℕ ConsensusContext

abbrev pub Contexts : Type 0
Contexts = Map Str Row

pub record ConsensusStorage : Type 0 where
  pub node_configuration : NodeConfiguration
  pub contexts : Contexts
  pub conditions : Map ℕ (Option ℕ)
  pub synchronizations : List SlotSynchronizationContext

-- ConsensusStorage(nodeConfiguration)
unfoldable pub new_storage : NodeConfiguration → ConsensusStorage
new_storage config = record {
  node_configuration = config;
  contexts = [];
  conditions = [];
  synchronizations = [];
}

-- `row[slot]`, after which the entry is there.
unfoldable pub touch : ℕ → ℕ → Row → Row
unfolding modify
touch now slot row = modify ℕ_discrete slot (fresh_context now) (λ c. c) row

-- What `row[slot]` reads.
unfoldable pub entry : ℕ → ℕ → Row → ConsensusContext
unfolding find fresh_context
entry now slot row = at_or ℕ_discrete (fresh_context now) slot row

-- What `contexts[address][slot]` reads.
unfoldable pub entry_at : ℕ → Str → ℕ → Contexts → ConsensusContext
unfolding find entry str_dec
entry_at now address slot contexts = entry now slot (at_or str_dec [] address contexts)

-- `f(contexts[address][slot])`
unfoldable pub update_entry :
    ℕ → Str → ℕ → (ConsensusContext → ConsensusContext) → Contexts → Contexts
unfolding modify
update_entry now address slot f contexts =
    modify str_dec address [] (modify ℕ_discrete slot (fresh_context now) f) contexts

unfoldable pub update_context :
    ℕ → Str → ℕ → (ConsensusContext → ConsensusContext) → ConsensusStorage → ConsensusStorage
unfolding update_entry
update_context now address slot f s = record s {
  contexts = update_entry now address slot f s.contexts;
}

-- addContext
unfoldable pub add_context : ℕ → Str → Str → ℕ → ConsensusStorage → ConsensusStorage
unfolding update_context
add_context now address node slot = update_context now address slot (λ c. record c { node = node })

-- setContribution
unfoldable pub set_contribution : ℕ → Str → ℕ → Bool → ConsensusStorage → ConsensusStorage
unfolding update_context
set_contribution now address slot is_contributing =
    update_context now address slot (λ c. record c { is_contributing = some is_contributing })

-- fillElectionValue
unfoldable pub fill_election_value : ℕ → Str → ℕ → ℕ → ConsensusStorage → ConsensusStorage
unfolding update_context
fill_election_value now address slot election_value =
    update_context now address slot (λ c. record c { election_value = election_value })

-- addBlock
unfoldable pub add_block : ℕ → Str → ℕ → Block → ConsensusStorage → ConsensusStorage
unfolding update_context
add_block now address slot block = update_context now address slot (λ c. record c { block = block })

-- marAsResolved
unfoldable pub mark_as_resolved : ℕ → Str → ℕ → ConsensusStorage → ConsensusStorage
unfolding update_context
mark_as_resolved now address slot =
    update_context now address slot (λ c. record c { is_resolved = true })

-- isResolved and getBlock read an entry, and make it if it is missing.
unfoldable pub is_resolved : ℕ → Str → ℕ → ConsensusStorage → ConsensusStorage × Bool
unfolding update_context entry_at
is_resolved now address slot s =
    (update_context now address slot (λ c. c) s, (entry_at now address slot s.contexts).is_resolved)

unfoldable pub get_block : ℕ → Str → ℕ → ConsensusStorage → ConsensusStorage × Block
unfolding update_context entry_at
get_block now address slot s =
    (update_context now address slot (λ c. c) s, (entry_at now address slot s.contexts).block)

-- `contexts[address].try_emplace(slot, ConsensusContext{})`
unfoldable pub init_entry : ℕ → ℕ → Str → Contexts → Contexts
unfolding modify emplace
init_entry now slot address contexts =
    modify str_dec address [] (emplace ℕ_discrete slot (fresh_context now)) contexts

unfoldable pub init_entries : ℕ → ℕ → List NodeInfo → Contexts → Contexts
unfolding init_entry
init_entries now slot [] contexts = contexts
init_entries now slot (node ∷ nodes) contexts =
    init_entries now slot nodes (init_entry now slot node.address contexts)

-- One turn of the loop of initContexts, for the address of a configured node: it takes the mutex and
-- gives it back.
unfoldable pub init_context : ℕ → Str → ℕ → ConsensusStorage → ConsensusStorage
unfolding init_entry
init_context now address slot s = record s { contexts = init_entry now slot address s.contexts }

-- initContexts where no other thread uses the storage meanwhile. The entry of the node itself is
-- made without the mutex, and each of the others under it, so that it is not one step.
unfoldable pub init_contexts : ℕ → ℕ → ConsensusStorage → ConsensusStorage
unfolding init_entries
init_contexts now slot s =
    let config = s.node_configuration in
    record s {
      contexts =
          init_entries now slot config.nodes (init_entry now slot config.self.address s.contexts);
    }
