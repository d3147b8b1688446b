-- ===== src/Storage/Queries/Answers.antt =====
-- The four tests of a slot that the handlers and the waiters make.
use blockchain_messaging_sys.Prelude.{
  ℕ, ◌≡◌, ◌↔◌, refl, Bool, true, false, Option, none, some, arith, Result, ok, ltb, length,
  if◌then◌else◌, lt→ltb, ltb→lt,
}
use blockchain_messaging_sys.Storage.State.{ConsensusContext, ConsensusStorage}
use blockchain_messaging_sys.Storage.Queries.{
  value, has_contribution, has_election_value, has_collected_data, are_all_contributors_confirmed,
  is_any_node_contributing, are_all_election_values_present, is_all_contributors_data_collected,
}
use blockchain_messaging_sys.Storage.Queries.Laws.{
  EveryEntry, SomeEntry, Answers, EveryEntry-map, SomeEntry-map, EveryEntry-all, all_of-Answers,
  any_of-Answers, IsConfirmed, Contributes, HasValue, IsCollected,
}

Answers-iff :
    (now : ℕ) (s : ConsensusStorage) {r : Result (ConsensusStorage × Bool)} {Y Z : Type 0}
    → Y ↔ Z
    → Answers now s r Y
    → Answers now s r Z
Answers-iff now s yz (s', b, e, iff, same, conditions, flags) =
    (s', b, e, (λ t. yz.0 (iff.0 t), λ z. iff.1 (yz.1 z)), same, conditions, flags)

is_set : ConsensusContext → Bool
is_set c = elim c.is_contributing [ none ↦ false | some _ ↦ true ]

has_contribution_lem : (c : ConsensusContext) → has_contribution c ≡ ok (is_set c)
unfolding has_contribution is_set
has_contribution_lem c = ground arith

IsConfirmed-iff : (c : ConsensusContext) → (is_set c ≡ true) ↔ IsConfirmed c
unfolding is_set
IsConfirmed-iff c = ground arith

-- `areAllContributorsConfirmed` never fails. It answers true exactly when every known node has
-- declared for the slot whether it contributes, and no entry reads differently afterwards.
pub are_all_contributors_confirmed-Answers :
    (now slot : ℕ) (s : ConsensusStorage)
    → Answers now s
        (are_all_contributors_confirmed now slot s)
        (EveryEntry IsConfirmed now slot s.contexts)
unfolding are_all_contributors_confirmed
are_all_contributors_confirmed-Answers now slot s =
    Answers-iff now s
      (
        EveryEntry-map (λ c. (IsConfirmed-iff c).0) now slot s.contexts,
        EveryEntry-map (λ c. (IsConfirmed-iff c).1) now slot s.contexts,
      )
      (all_of-Answers has_contribution is_set now slot s
        (EveryEntry-all has_contribution_lem now slot s.contexts))

is_true : Option Bool → Bool
is_true none = false
is_true (some b) = b

value_lem :
    (c : ConsensusContext)
    → IsConfirmed c
    → value c.is_contributing ≡ ok (is_true c.is_contributing)
unfolding value is_true
value_lem c h = ground arith

Contributes-iff : (c : ConsensusContext) → (is_true c.is_contributing ≡ true) ↔ Contributes c
unfolding is_true
Contributes-iff c = ground arith

-- Once every node has declared, `isAnyNodeContributing` throws nothing, answers true exactly when
-- some node has declared that it contributes, and changes no entry.
pub is_any_node_contributing-Answers :
    (now slot : ℕ) (s : ConsensusStorage)
    → EveryEntry IsConfirmed now slot s.contexts
    → Answers now s
        (is_any_node_contributing now slot s)
        (SomeEntry Contributes now slot s.contexts)
unfolding is_any_node_contributing
is_any_node_contributing-Answers now slot s h =
    Answers-iff now s
      (
        SomeEntry-map (λ c. (Contributes-iff c).0) now slot s.contexts,
        SomeEntry-map (λ c. (Contributes-iff c).1) now slot s.contexts,
      )
      (any_of-Answers (λ c. value c.is_contributing) (λ c. is_true c.is_contributing) now slot s
        (EveryEntry-map value_lem now slot s.contexts h))

-- `areAllElectionValuesPresent` never fails, answers true exactly when every known node's election
-- value for the slot is above 0, and changes no entry.
pub are_all_election_values_present-Answers :
    (now slot : ℕ) (s : ConsensusStorage)
    → Answers now s
        (are_all_election_values_present now slot s)
        (EveryEntry HasValue now slot s.contexts)
unfolding are_all_election_values_present has_election_value
are_all_election_values_present-Answers now slot s =
    Answers-iff now s
      (
        EveryEntry-map (λ c h. ltb→lt 0 c.election_value h) now slot s.contexts,
        EveryEntry-map (λ c h. lt→ltb 0 c.election_value h) now slot s.contexts,
      )
      (all_of-Answers has_election_value (λ c. ltb 0 c.election_value) now slot s
        (EveryEntry-all (λ c. refl {a = has_election_value c}) now slot s.contexts))

has_data : ConsensusContext → Bool
unfolding is_true
has_data c = if is_true c.is_contributing then ltb 0 (length c.block.messages) else true

has_collected_data_lem :
    (c : ConsensusContext) → IsConfirmed c → has_collected_data c ≡ ok (has_data c)
unfolding has_collected_data has_data
has_collected_data_lem c h = ground arith

IsCollected-of : (c : ConsensusContext) → has_data c ≡ true → IsCollected c
unfolding has_data
IsCollected-of c h e = ground arith

of_IsCollected : (c : ConsensusContext) → IsCollected c → has_data c ≡ true
unfolding has_data
of_IsCollected c h = ground arith

-- Once every node has declared, `isAllContributorsDataCollected` throws nothing, answers true
-- exactly when the block of every contributing node holds a message, and changes no entry.
pub is_all_contributors_data_collected-Answers :
    (now slot : ℕ) (s : ConsensusStorage)
    → EveryEntry IsConfirmed now slot s.contexts
    → Answers now s
        (is_all_contributors_data_collected now slot s)
        (EveryEntry IsCollected now slot s.contexts)
unfolding is_all_contributors_data_collected
is_all_contributors_data_collected-Answers now slot s h =
    Answers-iff now s
      (
        EveryEntry-map IsCollected-of now slot s.contexts,
        EveryEntry-map of_IsCollected now slot s.contexts,
      )
      (all_of-Answers has_collected_data has_data now slot s
        (EveryEntry-map has_collected_data_lem now slot s.contexts h))

-- In every storage `areAllContributorsConfirmed` and `areAllElectionValuesPresent` never fail. The
-- first answers true exactly when every known node has declared for the slot whether it
-- contributes, the second exactly when every known node's election value for the slot is above 0.
-- Neither changes what an entry reads, nor a condition or its flag.
pub presence_queries-Answers :
    (now slot : ℕ) (s : ConsensusStorage)
    → Answers now s
        (are_all_contributors_confirmed now slot s)
        (EveryEntry IsConfirmed now slot s.contexts)
      × Answers now s
          (are_all_election_values_present now slot s)
          (EveryEntry HasValue now slot s.contexts)
presence_queries-Answers now slot s = (
  are_all_contributors_confirmed-Answers now slot s,
  are_all_election_values_present-Answers now slot s,
)

-- Once every node has declared, `isAnyNodeContributing` and `isAllContributorsDataCollected` throw
-- nothing. The first answers true exactly when some node has declared that it contributes, the
-- second exactly when the block of every contributing node holds a message. Neither changes what an
-- entry reads, nor a condition or its flag.
pub contribution_queries-Answers :
    (now slot : ℕ) (s : ConsensusStorage)
    → EveryEntry IsConfirmed now slot s.contexts
    → Answers now s
        (is_any_node_contributing now slot s)
        (SomeEntry Contributes now slot s.contexts)
      × Answers now s
          (is_all_contributors_data_collected now slot s)
          (EveryEntry IsCollected now slot s.contexts)
contribution_queries-Answers now slot s h = (
  is_any_node_contributing-Answers now slot s h,
  is_all_contributors_data_collected-Answers now slot s h,
)
