-- ===== src/Storage/Merge.antt =====
-- ConsensusStorage::mergeContributors: the block that the validator broadcasts.
pub mod Sort
pub mod Laws
use blockchain_messaging_sys.Prelude.{
  ℕ, ◌<◌, Bool, true, false, ◌||◌, List, [], ◌∷◌, ◌++◌, Option, none, some, Str, str_dec, ltb, ite,
  if◌then◌else◌, Result, ok, fault, Fault, ◌>>=◌,
}
use blockchain_messaging_sys.Itf.{Message, Block, BlockState}
use blockchain_messaging_sys.Storage.State.{
  ConsensusContext, ConsensusStorage, Contexts, Row, touch, entry, entry_at, update_context,
}
use blockchain_messaging_sys.Storage.Queries.{value}
use blockchain_messaging_sys.Storage.Election.{get_validator, touch_all}

prepend_messages : Bool → List Message → Result (List Message) → Result (List Message)
prepend_messages false messages others = others
prepend_messages true messages others = do rest ← others; ok (messages ++ rest)

-- The messages that the loop appends to the validator's block, in iteration order.
unfoldable pub contributed : Str → ℕ → ℕ → Contexts → Result (List Message)
unfolding entry value prepend_messages
contributed validator now slot [] = ok []
contributed validator now slot ((address, row) ∷ rest) =
    let others = contributed validator now slot rest in
    let context = entry now slot row in
    ite (str_dec address validator) others (
      value context.is_contributing >>= λ contributing.
      prepend_messages contributing context.block.messages others)

-- `std::sort` by timestamp, as the stable insertion sort that it is on short ranges. The order of
-- equal timestamps is not specified; see Storage/Merge/Laws for what holds of every sort.
unfoldable pub insert_message : Message → List Message → List Message
insert_message m [] = m ∷ []
insert_message m (n ∷ ns) =
    let later = n ∷ insert_message m ns in if ltb m.timestamp n.timestamp then m ∷ n ∷ ns else later

unfoldable pub sort_messages : List Message → List Message → List Message
unfolding insert_message
sort_messages sorted [] = sorted
sort_messages sorted (m ∷ ms) = sort_messages (insert_message m sorted) ms

-- mergeContributors
unfoldable pub merge_contributors : ℕ → ℕ → ConsensusStorage → Result (ConsensusStorage × Block)
unfolding get_validator contributed entry_at sort_messages touch_all update_context
merge_contributors now slot s = do
  (s', validator) ← get_validator now slot s
  messages ← contributed validator now slot s'.contexts
  let own = (entry_at now validator slot s'.contexts).block
  let merged : Block = record own {
    state = BlockState.completed;
    messages = sort_messages [] (own.messages ++ messages);
  }
  ok (update_context now validator slot (λ c. record c { block = merged }) s', merged)
