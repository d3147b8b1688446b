-- ===== src/Tests/Storage.antt =====
-- The storage, the election and the merge of a slot, at three known nodes.
use mathlib.Core.List.Perm
use blockchain_messaging_sys.Prelude.{
  ℕ, ◌%◌, ◌<◌, ◌≡◌, ◌≢◌, ◌↔◌, ◌⊎◌, inl, inr, refl, ap, true, false, [], ◌∷◌, Perm, none, some, Str,
  str_dec, ℕ_discrete, All, Any, ite, ok, arith,
}
use blockchain_messaging_sys.Itf.{Block, BlockState, block_default}
use blockchain_messaging_sys.Storage.State.{ConsensusStorage, entry, entry_at}
use blockchain_messaging_sys.Storage.Queries.{
  is_any_node_contributing, is_all_contributors_data_collected, is_election_value_unique,
}
use blockchain_messaging_sys.Storage.Queries.Laws.{
  Answers, EveryEntry, SomeEntry, IsConfirmed, Contributes, IsCollected,
}
use blockchain_messaging_sys.Storage.Queries.Answers.{contribution_queries-Answers}
use blockchain_messaging_sys.Storage.Queries.Unique.{is_election_value_unique_iff}
use blockchain_messaging_sys.Storage.Election.{
  elected, mark_validator, get_validator, remove_election_value_duplicates, last_validator,
}
use blockchain_messaging_sys.Prelude.{All, ◌≤◌, ◌<◌, ◌^◌}
use blockchain_messaging_sys.Storage.Election.{accumulate}
use blockchain_messaging_sys.Storage.Election.Agreement.{Nominates, same_validator}
use blockchain_messaging_sys.Storage.Election.Sum.{highest_value, accumulate_exact}
use blockchain_messaging_sys.Storage.Election.Votes.{total, votes, DistinctValues}
use blockchain_messaging_sys.Storage.Election.Best.{elected-IsExtreme, IsExtreme}
use blockchain_messaging_sys.Storage.Election.Mark.{get_validator-mark_validator, IsUnmarked, mark}
use blockchain_messaging_sys.Storage.Election.Reset.{
  entry_at-remove_election_value_duplicates, zeroed,
}
use blockchain_messaging_sys.Storage.Election.Ties.{tie_disagreement}
use blockchain_messaging_sys.Storage.Merge.{merge_contributors}
use blockchain_messaging_sys.Storage.Merge.Sort.{IsSorted}
use blockchain_messaging_sys.Storage.Merge.Laws.{
  merge_contributors-perm, DistinctAddresses, published,
}
use blockchain_messaging_sys.Tests.Samples.{
  first, second, third, row_of, voted, voted_elsewhere, marked, tied, storage_of,
}

voted-known : voted ≢ []
voted-known e = cc

voted-IsConfirmed : EveryEntry IsConfirmed 5 2 voted
unfolding entry ℕ_discrete
voted-IsConfirmed = ((λ e. cc), ((λ e. cc), ((λ e. cc), tt)))

voted-IsUnmarked : EveryEntry IsUnmarked 5 2 voted
unfolding entry ℕ_discrete
voted-IsUnmarked = (refl, (refl, (refl, tt)))

marked-IsConfirmed : EveryEntry IsConfirmed 5 2 marked
unfolding entry ℕ_discrete
marked-IsConfirmed = ((λ e. cc), ((λ e. cc), ((λ e. cc), tt)))

second-marked : last_validator none 5 2 marked ≡ some second
unfolding last_validator ℕ_discrete
second-marked = refl

abbrev initial : Str → ℕ
initial [] = 0
initial (c ∷ _) = c

marked-addresses : DistinctAddresses marked
marked-addresses = (
  ((λ e. omega (arith, ap initial e)), ((λ e. omega (arith, ap initial e)), tt)),
  (((λ e. omega (arith, ap initial e)), tt), (tt, tt)),
)

same_votes : Perm (votes 5 2 voted) (votes 6 2 voted_elsewhere)
unfolding entry ℕ_discrete block_default
same_votes = Perm.swap _ _ _

different_votes : DistinctValues (votes 5 2 voted)
unfolding entry ℕ_discrete
different_votes =
    (((λ e. omega arith), ((λ e. omega arith), tt)), (((λ e. omega arith), tt), (tt, tt)))

elsewhere-IsUnmarked : EveryEntry IsUnmarked 6 2 voted_elsewhere
unfolding entry ℕ_discrete
elsewhere-IsUnmarked = (refl, (refl, (refl, tt)))

elsewhere-known : voted_elsewhere ≢ []
elsewhere-known e = cc

same_validator_example :
    (w : Str) × Nominates 5 2 (storage_of voted) w × Nominates 6 2 (storage_of voted_elsewhere) w
same_validator_example =
    same_validator 5 6 2 (storage_of voted) (storage_of voted_elsewhere) voted-known elsewhere-known
      voted-IsUnmarked elsewhere-IsUnmarked same_votes different_votes

elected-IsExtreme_example :
    (w : Str) × (u : ℕ) × (elected 5 2 voted ≡ ok w)
    × Any (λ y. (w, u) ≡ y) (votes 5 2 voted)
    × IsExtreme (w, u) (votes 5 2 voted)
elected-IsExtreme_example = elected-IsExtreme 5 2 voted voted-known

get_validator-mark_validator_example :
    (s' : ConsensusStorage) × (s'' : ConsensusStorage) × (w : Str) × (elected 5 2 voted ≡ ok w)
    × (mark_validator 5 2 (storage_of voted) ≡ ok s')
    × (get_validator 5 2 s' ≡ ok (s'', w))
    × ((a : Str) (t : ℕ)
        → entry_at 5 a t s''.contexts
          ≡ ite
              (str_dec w a)
              (ite (ℕ_discrete 2 t) (mark (entry_at 5 a t voted)) (entry_at 5 a t voted))
              (entry_at 5 a t voted))
get_validator-mark_validator_example =
    get_validator-mark_validator 5 2 (storage_of voted) voted-known voted-IsUnmarked

merge_contributors-perm_example :
    (s' : ConsensusStorage) × (b : Block) × (merge_contributors 5 2 (storage_of marked)
      ≡ ok (s', b))
    × Perm b.messages (published second 5 2 marked)
    × IsSorted b.messages
    × (b.state ≡ BlockState.completed)
    × (b.timestamp ≡ (entry_at 5 second 2 marked).block.timestamp)
    × (b.slot ≡ (entry_at 5 second 2 marked).block.slot)
    × ((a : Str) (t : ℕ)
        → entry_at 5 a t s'.contexts
          ≡ ite
              (str_dec second a)
              (ite
                (ℕ_discrete 2 t)
                (record (entry_at 5 a t marked) { block = b })
                (entry_at 5 a t marked))
              (entry_at 5 a t marked))
merge_contributors-perm_example =
    merge_contributors-perm 5 2 second (storage_of marked) second-marked (inr (inl refl))
      marked-addresses marked-IsConfirmed

contribution_queries-Answers_example :
    Answers 5
      (storage_of voted)
      (is_any_node_contributing 5 2 (storage_of voted))
      (SomeEntry Contributes 5 2 voted)
    × Answers 5
        (storage_of voted)
        (is_all_contributors_data_collected 5 2 (storage_of voted))
        (EveryEntry IsCollected 5 2 voted)
contribution_queries-Answers_example =
    contribution_queries-Answers 5 2 (storage_of voted) voted-IsConfirmed

is_election_value_unique_iff_example :
    ((is_election_value_unique 5 first 2 (storage_of voted)).1 ≡ true)
    ↔ All
        (λ r.
          (r.0 ≡ first)
          ⊎ ((entry 5 2 r.1).election_value ≢ (entry_at 5 first 2 voted).election_value))
        voted
is_election_value_unique_iff_example = is_election_value_unique_iff 5 2 first (storage_of voted)

entry_at-remove_election_value_duplicates_example :
    entry_at 5 first 2 (remove_election_value_duplicates 5 2 (storage_of voted)).contexts
    ≡ ite (ℕ_discrete 2 2) (zeroed (entry_at 5 first 2 voted)) (entry_at 5 first 2 voted)
entry_at-remove_election_value_duplicates_example =
    entry_at-remove_election_value_duplicates 5 2 2 first (storage_of voted)

tied-values :
    ((entry 5 2 (row_of (some true) false 6 [])).election_value
      ≡ (entry 5 2 (row_of (some true) false 6 [])).election_value)
    × ((entry 5 2 (row_of (some true) false 3 [])).election_value
        < (entry 5 2 (row_of (some true) false 6 [])).election_value)
    × ((entry 5 2 (row_of (some true) false 3 [])).election_value % 2 ≡ 1)
unfolding entry ℕ_discrete
tied-values = (refl, omega arith, refl)

tie_disagreement_example :
    ((is_election_value_unique 5 first 2 (storage_of tied)).1 ≡ true)
    × (elected 5 2 tied ≡ ok second)
    × (elected 5 2 (
          (first, row_of (some true) false 3 [])
          ∷ (third, row_of (some true) false 6 [])
          ∷ (second, row_of (some true) false 6 [])
          ∷ [])
        ≡ ok third)
tie_disagreement_example =
    tie_disagreement 5 2 first second third (row_of (some true) false 3 [])
      (row_of (some true) false 6 []) (row_of (some true) false 6 []) (storage_of tied)
      tied-values.0 tied-values.1 tied-values.2 refl

voted_in_range : All (λ v. v.1 ≤ highest_value) (votes 5 2 voted)
unfolding entry ℕ_discrete
voted_in_range = (omega arith, (omega arith, (omega arith, tt)))

accumulate_exact_example :
    (accumulate 0 5 2 voted ≡ total (votes 5 2 voted)) × (accumulate 0 5 2 voted < 2 ^ 31)
accumulate_exact_example = accumulate_exact 5 2 voted voted_in_range (omega arith)
