-- ===== src/Storage/Queries/Unique.antt =====
-- isElectionValueUnique: one node's value against every other node's.
use blockchain_messaging_sys.Prelude.{
  ℕ, ◌≡◌, ◌≢◌, ◌↔◌, ◌⊎◌, inl, inr, refl, Bool, true, false, [], ◌∷◌, Str, str_dec, ℕ_discrete, All,
  arith, if_pos, if_neg, modify, sym, subst,
}
use blockchain_messaging_sys.Storage.State.{
  ConsensusContext, ConsensusStorage, Contexts, Row, entry, entry_at, update_entry,
}
use blockchain_messaging_sys.Storage.State.Laws.{
  SameRows, SameRows-refl, SameRows-touch, SameRows-entry_at, entry_at-update_entry,
}
use blockchain_messaging_sys.Prelude.{Bool-cases, ite_cases, ◌∙◌, ◌==◌}
use blockchain_messaging_sys.Storage.Queries.{is_election_value_unique, unique_loop}

-- The row is the node's own, or its value for the slot differs from `v`.
abbrev pub Differs : Str → ℕ → ℕ → ℕ → Str × Row → Type 0
Differs address v now slot r = (r.0 ≡ address) ⊎ ((entry now slot r.1).election_value ≢ v)

module _ (address : Str) (v now slot : ℕ) where
  answer : Contexts → Bool
  answer cs = (unique_loop address v now slot cs).1

  answer_own :
      (a : Str) (row : Row) (cs : Contexts) → a ≡ address → answer ((a, row) ∷ cs) ≡ answer cs
  unfolding unique_loop answer
  answer_own a row cs h = ground arith

  answer_equal :
      (a : Str) (row : Row) (cs : Contexts)
      → a ≢ address
      → (entry now slot row).election_value ≡ v
      → answer ((a, row) ∷ cs) ≡ false
  unfolding unique_loop answer
  answer_equal a row cs h e = ground arith

  answer_differs :
      (a : Str) (row : Row) (cs : Contexts)
      → (entry now slot row).election_value ≢ v
      → answer ((a, row) ∷ cs) ≡ answer cs
  unfolding unique_loop answer
  answer_differs a row cs e = ground arith

  answer_iff_step :
      (a : Str) (row : Row) (cs : Contexts)
      → (answer cs ≡ true) ↔ All (Differs address v now slot) cs
      → (answer ((a, row) ∷ cs) ≡ true) ↔ All (Differs address v now slot) ((a, row) ∷ cs)
  answer_iff_step a row cs (there, back) = elim (str_dec a address) [
    | yes own ↦ rw (answer_own a row cs own) (λ t. (inl own, there t), λ h. back h.1)
    | no other ↦ elim (ℕ_discrete (entry now slot row).election_value v) [
      | yes equal ↦
          rw (answer_equal a row cs other equal)
            (λ t. cc, λ h. elim h.0 [ inl e ↦ absurd (other e) | inr d ↦ absurd (d equal) ])
      | no differs ↦
          rw (answer_differs a row cs differs) (λ t. (inr differs, there t), λ h. back h.1)
    ]
  ]

  answer_iff : (cs : Contexts) → (answer cs ≡ true) ↔ All (Differs address v now slot) cs
  unfolding answer unique_loop
  answer_iff [] = (λ _. tt, λ _. refl)
  answer_iff ((a, row) ∷ cs) = answer_iff_step a row cs (answer_iff cs)

unique_loop_iff :
    (address : Str) (v now slot : ℕ) (cs : Contexts)
    → ((unique_loop address v now slot cs).1 ≡ true) ↔ All (Differs address v now slot) cs
unfolding answer
unique_loop_iff address v now slot cs = answer_iff address v now slot cs

-- `Q` of every row but the one at the address.
abbrev pub EveryOther : Str → (Row → Type 0) → Contexts → Type 0
EveryOther address Q cs = All (λ r. (r.0 ≡ address) ⊎ Q r.1) cs

EveryOther-update_entry :
    (Q : Row → Type 0) (address : Str) (now slot : ℕ) (cs : Contexts)
    → EveryOther address Q (update_entry now address slot (λ c. c) cs) ↔ EveryOther address Q cs
unfolding update_entry modify str_dec
EveryOther-update_entry Q address now slot [] = (λ _. tt, λ _. (inl refl, tt))
EveryOther-update_entry Q address now slot ((a, row) ∷ cs) =
    let (there, back) = EveryOther-update_entry Q address now slot cs in
    elim (str_dec a address) [
      | yes own ↦ rw (if_pos _ own) (λ h. (inl own, h.1), λ h. (inl own, h.1))
      | no other ↦ rw (if_neg _ other) (λ h. (h.0, there h.1), λ h. (h.0, back h.1))
    ]

-- `isElectionValueUnique` answers true exactly when every other known node's value for the slot
-- differs from the value of the given node. Two other nodes may have equal values.
pub is_election_value_unique_iff :
    (now slot : ℕ) (address : Str) (s : ConsensusStorage)
    → ((is_election_value_unique now address slot s).1 ≡ true)
      ↔ All
          (λ r.
            (r.0 ≡ address)
            ⊎ ((entry now slot r.1).election_value
                ≢ (entry_at now address slot s.contexts).election_value))
          s.contexts
unfolding is_election_value_unique
is_election_value_unique_iff now slot address s =
    let v : ℕ = (entry_at now address slot s.contexts).election_value in
    let (there, back) =
      unique_loop_iff address v now slot (update_entry now address slot (λ c. c) s.contexts) in
    let (there', back') =
      EveryOther-update_entry (λ row. (entry now slot row).election_value ≢ v) address now slot
        s.contexts in
    (λ t. there' (there t), λ h. back (back' h))

-- The loop over the other nodes only accesses their entries.
unique_loop-SameRows :
    (own : Str) (v now slot : ℕ) (cs : Contexts) → SameRows now cs (unique_loop own v now slot cs).0
unfolding unique_loop
unique_loop-SameRows own v now slot [] = tt
unique_loop-SameRows own v now slot ((a, row) ∷ cs) =
    ite_cases (λ (r : Contexts × Bool). SameRows now ((a, row) ∷ cs) r.0) (str_dec a own)
      (λ mine. (refl, (λ t. refl), unique_loop-SameRows own v now slot cs))
      (λ other. elim (Bool-cases ((entry now slot row).election_value == v)) [
        | inl equal ↦ rw equal (SameRows-touch now slot a row cs cs (SameRows-refl now cs))
        | inr differs ↦
            rw differs (SameRows-touch now slot a row cs _ (unique_loop-SameRows own v now slot cs))
      ])

-- `isElectionValueUnique` changes what is read of no entry.
pub entry_at-is_election_value_unique :
    (now slot q : ℕ) (own a : Str) (s : ConsensusStorage)
    → entry_at now a q (is_election_value_unique now own slot s).0.contexts
      ≡ entry_at now a q s.contexts
unfolding is_election_value_unique
entry_at-is_election_value_unique now slot q own a s =
    SameRows-entry_at now (update_entry now own slot (λ c. c) s.contexts) _ a q (
      unique_loop-SameRows own (entry_at now own slot s.contexts).election_value now slot
        (update_entry now own slot (λ c. c) s.contexts))
    ∙ ground (arith, entry_at-update_entry now q slot a own (λ c. c) s.contexts)

EveryOther-SameRows :
    (R : ConsensusContext → Type 0) (now slot : ℕ) (own : Str) (cs ds : Contexts)
    → SameRows now cs ds
    → EveryOther own (λ row. R (entry now slot row)) cs
    → EveryOther own (λ row. R (entry now slot row)) ds
EveryOther-SameRows R now slot own [] [] same h = tt
EveryOther-SameRows R now slot own [] (_ ∷ _) same h = absurd same
EveryOther-SameRows R now slot own (_ ∷ _) [] same h = absurd same
EveryOther-SameRows R now slot own ((a, row) ∷ cs) ((b, row') ∷ ds) same h = (
  elim h.0 [ inl e ↦ inl (sym same.0 ∙ e) | inr r ↦ inr (subst R (sym (same.1 slot)) r) ],
  EveryOther-SameRows R now slot own cs ds same.2 h.1,
)

-- What holds of the entry of every other node, holds of it after `isElectionValueUnique`.
pub is_election_value_unique-EveryOther :
    (R : ConsensusContext → Type 0) (now slot : ℕ) (own : Str) (s : ConsensusStorage)
    → EveryOther own (λ row. R (entry now slot row)) s.contexts
    → EveryOther own
        (λ row. R (entry now slot row))
        (is_election_value_unique now own slot s).0.contexts
unfolding is_election_value_unique
is_election_value_unique-EveryOther R now slot own s h =
    EveryOther-SameRows R now slot own (update_entry now own slot (λ c. c) s.contexts) _
      (unique_loop-SameRows own (entry_at now own slot s.contexts).election_value now slot
        (update_entry now own slot (λ c. c) s.contexts))
      ((EveryOther-update_entry (λ row. R (entry now slot row)) own now slot s.contexts).1 h)
