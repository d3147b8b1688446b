-- ===== src/Storage/Election/Ties.antt =====
-- What a tie does to an election: `isElectionValueUnique` looks at the node's own value only.
use blockchain_messaging_sys.Prelude.{
  ℕ, ◌%◌, ◌<◌, ◌≡◌, refl, ap, ◌∙◌, sym, Bool, true, [], ◌∷◌, Str, str_dec, arith, ok, if_pos, ◌==◌,
  find, inl, inr,
}
use blockchain_messaging_sys.Storage.State.{ConsensusStorage, Contexts, Row, entry, entry_at}
use blockchain_messaging_sys.Storage.Queries.{is_election_value_unique}
use blockchain_messaging_sys.Storage.Queries.Unique.{is_election_value_unique_iff}
use blockchain_messaging_sys.Storage.Election.{accumulate, elect, elected, beats}
use blockchain_messaging_sys.Storage.Election.Votes.{accumulate_parity}

elected_parity :
    (b : Bool) (now slot : ℕ) (a : Str) (row : Row) (cs : Contexts)
    → (accumulate 0 now slot ((a, row) ∷ cs) % 2 == 1) ≡ b
    → elected now slot ((a, row) ∷ cs)
      ≡ ok (elect b a (entry now slot row).election_value now slot ((a, row) ∷ cs))
unfolding elected
elected_parity b now slot a row cs h =
    ap (λ (c : Bool). ok (elect c a (entry now slot row).election_value now slot ((a, row) ∷ cs))) h

elect_tie :
    (now slot : ℕ) (self a b : Str) (own row row' : Row)
    → (entry now slot row).election_value ≡ (entry now slot row').election_value
    → (entry now slot own).election_value < (entry now slot row).election_value
    → elect true self
        (entry now slot own).election_value
        now
        slot
        ((self, own) ∷ (a, row) ∷ (b, row') ∷ [])
      ≡ a
unfolding elect beats
elect_tie now slot self a b own row row' tie less = ground arith

odd_wins :
    (now slot : ℕ) (self a b : Str) (own row row' : Row)
    → (entry now slot row).election_value ≡ (entry now slot row').election_value
    → (entry now slot own).election_value < (entry now slot row).election_value
    → (entry now slot own).election_value % 2 ≡ 1
    → elected now slot ((self, own) ∷ (a, row) ∷ (b, row') ∷ []) ≡ ok a
odd_wins now slot self a b own row row' tie less odd =
    let cs : Contexts = (self, own) ∷ (a, row) ∷ (b, row') ∷ [] in
    let parity : accumulate 0 now slot cs % 2 ≡ 1 =
      omega (arith, accumulate_parity 0 now slot cs) in
    elected_parity true now slot self own ((a, row) ∷ (b, row') ∷ [])
      (ap (λ (n : ℕ). n == 1) parity)
    ∙ ap ok (elect_tie now slot self a b own row row' tie less)

own_value :
    (now slot : ℕ) (self : Str) (own : Row) (cs : Contexts)
    → entry_at now self slot ((self, own) ∷ cs) ≡ entry now slot own
unfolding entry_at find
own_value now slot self own cs = rw (if_pos (str_dec self self) refl) refl

-- A node whose own value is odd and lower than the value that two others share passes the test of
-- isElectionValueUnique, and elects the one of the two that its table happens to hold first.
pub tie_disagreement :
    (now slot : ℕ) (self a b : Str) (own row row' : Row) (s : ConsensusStorage)
    → (entry now slot row).election_value ≡ (entry now slot row').election_value
    → (entry now slot own).election_value < (entry now slot row).election_value
    → (entry now slot own).election_value % 2 ≡ 1
    → s.contexts ≡ (self, own) ∷ (a, row) ∷ (b, row') ∷ []
    → ((is_election_value_unique now self slot s).1 ≡ true)
      × (elected now slot s.contexts ≡ ok a)
      × (elected now slot ((self, own) ∷ (b, row') ∷ (a, row) ∷ []) ≡ ok b)
tie_disagreement now slot self a b own row row' s tie less odd e =
    let v : entry_at now self slot s.contexts ≡ entry now slot own =
      ap (entry_at now self slot) e ∙ own_value now slot self own ((a, row) ∷ (b, row') ∷ []) in
    (
      (is_election_value_unique_iff now slot self s).1
          (rw v (rw e (inl refl, (inr (omega arith), (inr (omega arith), tt))))),
      ap (elected now slot) e ∙ odd_wins now slot self a b own row row' tie less odd,
      odd_wins now slot self b a own row' row (sym tie) (omega arith) odd,
    )
