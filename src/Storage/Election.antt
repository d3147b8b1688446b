-- ===== src/Storage/Election.antt =====
-- The election in ConsensusStorage: markValidator, getValidator, removeElectionValueDuplicates.
pub mod Votes
pub mod Sum
pub mod Agreement
pub mod Best
pub mod Mark
pub mod Reset
pub mod Ties
use blockchain_messaging_sys.Prelude.{
  ℕ, ◌+◌, ◌-◌, ◌*◌, ◌%◌, ◌^◌, Bool, true, false, ◌||◌, List, [], ◌∷◌, Option, none, some, Str,
  str_dec, ltb, ◌==◌, ite, if◌then◌else◌, Result, ok, fault, Fault, ◌>>=◌,
}
use blockchain_messaging_sys.Storage.State.{
  ConsensusContext, ConsensusStorage, Contexts, Row, touch, entry, update_entry, update_context,
}

-- The contexts after a loop that visits every row.
unfoldable pub touch_all : ℕ → ℕ → Contexts → Contexts
unfolding touch
touch_all now slot [] = []
touch_all now slot ((address, row) ∷ rest) = (address, touch now slot row) ∷ touch_all now slot rest

-- The inner loop of removeElectionValueDuplicates, which visits the compared row itself too.
unfoldable pub is_any_duplicate : ℕ → ℕ → ℕ → Contexts → Bool
unfolding entry
is_any_duplicate value now slot [] = false
is_any_duplicate value now slot ((_, row) ∷ rest) =
    (value == (entry now slot row).election_value) || is_any_duplicate value now slot rest

-- The outer loop: the addresses of the set that it fills.
unfoldable pub duplicated_addresses : ℕ → ℕ → Contexts → Contexts → List Str
unfolding entry is_any_duplicate
duplicated_addresses now slot all [] = []
duplicated_addresses now slot all ((address, row) ∷ rest) =
    let others = duplicated_addresses now slot all rest in
    if is_any_duplicate (entry now slot row).election_value now slot all
    then address ∷ others
    else others

unfoldable pub reset_election_values : ℕ → ℕ → List Str → Contexts → Contexts
unfolding update_entry
reset_election_values now slot [] contexts = contexts
reset_election_values now slot (address ∷ rest) contexts =
    reset_election_values now slot rest
      (update_entry now address slot (λ c. record c { election_value = 0 }) contexts)

-- removeElectionValueDuplicates
unfoldable pub remove_election_value_duplicates : ℕ → ℕ → ConsensusStorage → ConsensusStorage
unfolding touch_all duplicated_addresses reset_election_values
remove_election_value_duplicates now slot s = record s {
  contexts =
      reset_election_values now slot (duplicated_addresses now slot s.contexts s.contexts)
        (touch_all now slot s.contexts);
}

-- The loop of getValidatorimpl keeps the last marked address; none leaves a null view.
unfoldable pub last_validator : Option Str → ℕ → ℕ → Contexts → Option Str
unfolding entry
last_validator validator now slot [] = validator
last_validator validator now slot ((address, row) ∷ rest) =
    last_validator (if (entry now slot row).is_validator then some address else validator) now slot
      rest

-- `std::string{validator.data()}` of a null view
unfoldable pub string_of_view : Option Str → Result Str
string_of_view none = fault Fault.null_string
string_of_view (some a) = ok a

-- getValidator and getValidatorimpl
unfoldable pub get_validator : ℕ → ℕ → ConsensusStorage → Result (ConsensusStorage × Str)
unfolding touch_all last_validator string_of_view
get_validator now slot s = do
  address ← string_of_view (last_validator none now slot s.contexts)
  ok (record s { contexts = touch_all now slot s.contexts }, address)

-- The accumulator of markValidator is a 32-bit `int`, here its bit pattern: `prev + electionValue`
-- is computed in 64 bits, of a sign-extended `prev`, and narrowed again.
unfoldable pub sign_extend : ℕ → ℕ
sign_extend prev = if ltb prev (2 ^ 31) then prev else prev + (2 ^ 64 - 2 ^ 32)

unfoldable pub add_to_int : ℕ → ℕ → ℕ
unfolding sign_extend
add_to_int prev election_value = ((sign_extend prev + election_value) % 2 ^ 64) % 2 ^ 32

unfoldable pub accumulate : ℕ → ℕ → ℕ → Contexts → ℕ
unfolding add_to_int entry
accumulate prev now slot [] = prev
accumulate prev now slot ((_, row) ∷ rest) =
    accumulate (add_to_int prev (entry now slot row).election_value) now slot rest

-- `v > value` in the loop for an odd sum, `v < value` in the one for an even sum
unfoldable pub beats : Bool → ℕ → ℕ → Bool
beats true v value = ltb value v
beats false v value = ltb v value

-- The loops of markValidator: the first best value wins.
unfoldable pub elect : Bool → Str → ℕ → ℕ → ℕ → Contexts → Str
unfolding beats entry
elect is_odd validator value now slot [] = validator
elect is_odd validator value now slot ((address, row) ∷ rest) =
    let v = (entry now slot row).election_value in
    let better = beats is_odd v value in
    elect is_odd (if better then address else validator) (if better then v else value) now slot rest

-- The address that markValidator marks. `sum % 2` is -1 or 1 for an odd `int`, both true.
unfoldable pub elected : ℕ → ℕ → Contexts → Result Str
unfolding accumulate elect
elected now slot [] = fault Fault.empty_range
elected now slot ((address, row) ∷ rest) =
    let contexts = (address, row) ∷ rest in
    ok (
      elect (accumulate 0 now slot contexts % 2 == 1) address (entry now slot row).election_value
        now slot contexts)

-- markValidator
unfoldable pub mark_validator : ℕ → ℕ → ConsensusStorage → Result ConsensusStorage
unfolding elected touch_all update_context
mark_validator now slot s = do
  validator ← elected now slot s.contexts
  ok (
      update_context now validator slot (λ c. record c { is_validator = true })
        (record s { contexts = touch_all now slot s.contexts }))
