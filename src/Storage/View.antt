-- ===== src/Storage/View.antt =====
-- What ConsensusStorage promises, without its tables: one context for each address and slot that has
-- been touched. The calls that read or write one entry, a locked turn of the loop of
-- `initContexts`, and `clearSlot`, as values; each holds the mutex from its start to its end.
pub mod Refines
use mathlib.Core.Option
use blockchain_messaging_sys.Prelude.{
  ℕ, Bool, true, false, ◌||◌, List, [], ◌∷◌, ◌++◌, Option, none, some, Str, str_dec, ℕ_discrete,
  ite, find, at_or, if◌then◌else◌,
}
use blockchain_messaging_sys.Itf.{Block, NodeConfiguration, NodeInfo}
use blockchain_messaging_sys.Storage.State
use blockchain_messaging_sys.Storage.State.{ConsensusContext, ConsensusStorage, fresh_context}
use blockchain_messaging_sys.Storage.Sync

-- A call with its clock reading, except for the one that makes no entry.
pub data Call : Type 0 where
  add_context : ℕ → Str → Str → ℕ → Call
  set_contribution : ℕ → Str → ℕ → Bool → Call
  fill_election_value : ℕ → Str → ℕ → ℕ → Call
  add_block : ℕ → Str → ℕ → Block → Call
  mark_as_resolved : ℕ → Str → ℕ → Call
  is_resolved : ℕ → Str → ℕ → Call
  get_block : ℕ → Str → ℕ → Call
  init_context : ℕ → Str → ℕ → Call
  clear_slot : ℕ → Call

pub data Answer : Type 0 where
  nothing : Answer
  resolved : Bool → Answer
  block : Block → Answer

-- The calls of the class.
unfoldable pub call : Call → ConsensusStorage → ConsensusStorage × Answer
unfolding State.add_context State.set_contribution State.fill_election_value State.add_block
    State.mark_as_resolved State.is_resolved State.get_block State.init_context Sync.clear_slot
call (Call.add_context now a node t) s = (State.add_context now a node t s, Answer.nothing)
call (Call.set_contribution now a t b) s = (State.set_contribution now a t b s, Answer.nothing)
call (Call.fill_election_value now a t v) s =
    (State.fill_election_value now a t v s, Answer.nothing)
call (Call.add_block now a t b) s = (State.add_block now a t b s, Answer.nothing)
call (Call.mark_as_resolved now a t) s = (State.mark_as_resolved now a t s, Answer.nothing)
call (Call.is_resolved now a t) s =
    let (s', b) = State.is_resolved now a t s in (s', Answer.resolved b)
call (Call.get_block now a t) s = let (s', b) = State.get_block now a t s in (s', Answer.block b)
call (Call.init_context now a t) s = (State.init_context now a t s, Answer.nothing)
call (Call.clear_slot t) s = (Sync.clear_slot t s, Answer.nothing)

unfoldable pub calls : List Call → ConsensusStorage → ConsensusStorage × List Answer
unfolding call
calls [] s = (s, [])
calls (c ∷ cs) s =
    let (s1, answer) = call c s in let (s2, answers) = calls cs s1 in (s2, answer ∷ answers)

-- The abstract state.
abbrev pub View : Type 0
View = Str → ℕ → Option ConsensusContext

abbrev pub empty_view : View
empty_view a t = none

-- An entry that is not there reads as a fresh context.
abbrev pub entry_or_fresh : ℕ → Str → ℕ → View → ConsensusContext
entry_or_fresh now a t v = Option.get_or (v a t) (fresh_context now)

abbrev pub write : ℕ → Str → ℕ → (ConsensusContext → ConsensusContext) → View → View
write now a t f v b u =
    ite (str_dec a b) (ite (ℕ_discrete t u) (some (f (entry_or_fresh now a t v))) (v b u)) (v b u)

abbrev pub forget : ℕ → View → View
forget t v b u = ite (ℕ_discrete t u) none (v b u)

abbrev pub call_view : Call → View → View × Answer
call_view (Call.add_context now a node t) v =
    (write now a t (λ c. record c { node = node }) v, Answer.nothing)
call_view (Call.set_contribution now a t b) v =
    (write now a t (λ c. record c { is_contributing = some b }) v, Answer.nothing)
call_view (Call.fill_election_value now a t n) v =
    (write now a t (λ c. record c { election_value = n }) v, Answer.nothing)
call_view (Call.add_block now a t b) v =
    (write now a t (λ c. record c { block = b }) v, Answer.nothing)
call_view (Call.mark_as_resolved now a t) v =
    (write now a t (λ c. record c { is_resolved = true }) v, Answer.nothing)
call_view (Call.is_resolved now a t) v =
    (write now a t (λ c. c) v, Answer.resolved (entry_or_fresh now a t v).is_resolved)
call_view (Call.get_block now a t) v =
    (write now a t (λ c. c) v, Answer.block (entry_or_fresh now a t v).block)
call_view (Call.init_context now a t) v = (write now a t (λ c. c) v, Answer.nothing)
call_view (Call.clear_slot t) v = (forget t v, Answer.nothing)

abbrev pub calls_view : List Call → View → View × List Answer
calls_view [] v = (v, [])
calls_view (c ∷ cs) v =
    let (v1, answer) = call_view c v in
    let (v2, answers) = calls_view cs v1 in (v2, answer ∷ answers)

-- The view of a storage.
abbrev pub view_of : ConsensusStorage → View
view_of s a t = find ℕ_discrete t (at_or str_dec [] a s.contexts)
