-- ===== src/Storage/Queries.antt =====
-- The loops of ConsensusStorage that test every node's entry of a slot. Each visit is a
-- `pair.second[slot]`, which makes a missing entry; `std::all_of` and `std::any_of` stop early.

pub mod Laws
pub mod Answers
pub mod Unique
use blockchain_messaging_sys.Prelude.{
  ℕ, ◌<◌, Bool, true, false, List, [], ◌∷◌, Option, none, some, Str, str_dec, ltb, ◌==◌, ite,
  if◌then◌else◌, Result, ok, fault, Fault, ◌>>=◌, length, not,
}
use blockchain_messaging_sys.Storage.State.{
  ConsensusContext, ConsensusStorage, Contexts, Row, touch, entry, entry_at, update_entry,
}

-- `optional.value()`
unfoldable pub value : Option Bool → Result Bool
value none = fault Fault.bad_optional_access
value (some b) = ok b

abbrev Verdict : Type 0
Verdict = Result (Contexts × Bool)

and_row : Str → Row → Verdict → Verdict
and_row address row (ok (rest, b)) = ok ((address, row) ∷ rest, b)
and_row address row (fault e) = fault e

-- `std::all_of` over the contexts
unfoldable pub all_of : (ConsensusContext → Result Bool) → ℕ → ℕ → Contexts → Verdict
unfolding touch entry and_row
all_of p now slot [] = ok ([], true)
all_of p now slot ((address, row) ∷ rest) = elim (p (entry now slot row)) [
  | fault e ↦ fault e
  | ok false ↦ ok ((address, touch now slot row) ∷ rest, false)
  | ok true ↦ and_row address (touch now slot row) (all_of p now slot rest)
]

-- `std::any_of` over the contexts
unfoldable pub any_of : (ConsensusContext → Result Bool) → ℕ → ℕ → Contexts → Verdict
unfolding touch entry and_row
any_of p now slot [] = ok ([], false)
any_of p now slot ((address, row) ∷ rest) = elim (p (entry now slot row)) [
  | fault e ↦ fault e
  | ok true ↦ ok ((address, touch now slot row) ∷ rest, true)
  | ok false ↦ and_row address (touch now slot row) (any_of p now slot rest)
]

unfoldable pub with_contexts : ConsensusStorage → Verdict → Result (ConsensusStorage × Bool)
with_contexts s (ok (contexts, b)) = ok (record s { contexts = contexts }, b)
with_contexts s (fault e) = fault e

unfoldable pub has_contribution : ConsensusContext → Result Bool
has_contribution c = elim c.is_contributing [ none ↦ ok false | some _ ↦ ok true ]

-- areAllContributorsConfirmed
unfoldable pub are_all_contributors_confirmed :
    ℕ → ℕ → ConsensusStorage → Result (ConsensusStorage × Bool)
unfolding all_of with_contexts has_contribution
are_all_contributors_confirmed now slot s =
    with_contexts s (all_of has_contribution now slot s.contexts)

-- isAnyNodeContributing: `value()` of an unset contribution throws.
unfoldable pub is_any_node_contributing :
    ℕ → ℕ → ConsensusStorage → Result (ConsensusStorage × Bool)
unfolding any_of with_contexts value
is_any_node_contributing now slot s =
    with_contexts s (any_of (λ c. value c.is_contributing) now slot s.contexts)

unfoldable pub has_election_value : ConsensusContext → Result Bool
has_election_value c = ok (ltb 0 c.election_value)

-- areAllElectionValuesPresent
unfoldable pub are_all_election_values_present :
    ℕ → ℕ → ConsensusStorage → Result (ConsensusStorage × Bool)
unfolding all_of with_contexts has_election_value
are_all_election_values_present now slot s =
    with_contexts s (all_of has_election_value now slot s.contexts)

unfoldable pub has_collected_data : ConsensusContext → Result Bool
unfolding value
has_collected_data c = do
  contributing ← value c.is_contributing
  ok (if contributing then ltb 0 (length c.block.messages) else true)

-- isAllContributorsDataCollected
unfoldable pub is_all_contributors_data_collected :
    ℕ → ℕ → ConsensusStorage → Result (ConsensusStorage × Bool)
unfolding all_of with_contexts has_collected_data
is_all_contributors_data_collected now slot s =
    with_contexts s (all_of has_collected_data now slot s.contexts)

-- The loop of isElectionValueUnique: the node's own row is passed over, and an equal value ends it.
unique_loop : Str → ℕ → ℕ → ℕ → Contexts → Contexts × Bool
unfolding touch entry
unique_loop address election_value now slot [] = ([], true)
unique_loop address election_value now slot ((other, row) ∷ rest) =
    let (rest', b) = unique_loop address election_value now slot rest in
    ite (str_dec other address) ((other, row) ∷ rest', b)
      (if (entry now slot row).election_value == election_value
        then ((other, touch now slot row) ∷ rest, false)
        else ((other, touch now slot row) ∷ rest', b))

-- isElectionValueUnique
unfoldable pub is_election_value_unique : ℕ → Str → ℕ → ConsensusStorage → ConsensusStorage × Bool
unfolding unique_loop entry_at update_entry
is_election_value_unique now address slot s =
    let election_value = (entry_at now address slot s.contexts).election_value in
    let (contexts, b) =
      unique_loop address election_value now slot
        (update_entry now address slot (λ c. c) s.contexts) in
    (record s { contexts = contexts }, b)
