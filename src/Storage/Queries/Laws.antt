-- ===== src/Storage/Queries/Laws.antt =====
-- The tests over every node's entry: they terminate with the answer that their names promise, and
-- leave every entry as it was read.
use blockchain_messaging_sys.Prelude.{
  ℕ, ◌<◌, ◌≡◌, ◌≢◌, ◌↔◌, inl, inr, refl, Bool, true, false, [], ◌∷◌, none, some, arith, All, Any,
  Result, ok, length, Bool-cases, subst, sym,
}
use blockchain_messaging_sys.Storage.State.{
  ConsensusContext, ConsensusStorage, Contexts, touch, entry,
}
use blockchain_messaging_sys.Storage.State.Laws.{SameRows, SameRows-refl, SameRows-touch}
use blockchain_messaging_sys.Storage.Queries.{all_of, any_of, with_contexts}

-- The entries of a slot, one for each address.
abbrev pub EveryEntry : (ConsensusContext → Type 0) → ℕ → ℕ → Contexts → Type 0
EveryEntry P now slot cs = All (λ r. P (entry now slot r.1)) cs

-- What holds of every entry, holds where the entries read the same.
pub EveryEntry-forward :
    (P : ConsensusContext → Type 0) (now slot : ℕ) (cs ds : Contexts)
    → SameRows now cs ds
    → EveryEntry P now slot cs
    → EveryEntry P now slot ds
EveryEntry-forward P now slot [] [] same h = tt
EveryEntry-forward P now slot [] (_ ∷ _) same h = absurd same
EveryEntry-forward P now slot (_ ∷ _) [] same h = absurd same
EveryEntry-forward P now slot ((a, row) ∷ cs) ((b, row') ∷ ds) same h =
    (subst P (sym (same.1 slot)) h.0, EveryEntry-forward P now slot cs ds same.2 h.1)

abbrev pub SomeEntry : (ConsensusContext → Type 0) → ℕ → ℕ → Contexts → Type 0
SomeEntry P now slot cs = Any (λ r. P (entry now slot r.1)) cs

-- A call answers `b` with the entries unchanged.
abbrev pub Answers : ℕ → ConsensusStorage → Result (ConsensusStorage × Bool) → Type 0 → Type 0
Answers now s result Yes =
    (s' : ConsensusStorage) × (b : Bool) × (result ≡ ok (s', b))
    × ((b ≡ true) ↔ Yes)
    × SameRows now s.contexts s'.contexts
    × (s'.conditions ≡ s.conditions)
    × (s'.synchronizations ≡ s.synchronizations)

module _ (p : ConsensusContext → Result Bool) (q : ConsensusContext → Bool) (now slot : ℕ) where
  abbrev pub Decides : ConsensusContext → Type 0
  Decides c = p c ≡ ok (q c)

  all_of-every :
      (cs : Contexts)
      → EveryEntry Decides now slot cs
      → (ds : Contexts) × (b : Bool) × (all_of p now slot cs ≡ ok (ds, b))
        × ((b ≡ true) ↔ EveryEntry (λ c. q c ≡ true) now slot cs)
        × SameRows now cs ds
  unfolding all_of
  all_of-every [] h = ([], true, refl, (λ _. tt, λ _. refl), tt)
  all_of-every ((a, row) ∷ cs) h = elim (Bool-cases (q (entry now slot row))) [
    | inl yes' ↦
        let (ds, b, e, iff, same) = all_of-every cs h.1 in
        (
          (a, touch now slot row) ∷ ds,
          b,
          ground (arith, h.0, yes', e),
          (λ t. (yes', iff.0 t), λ all. iff.1 all.1),
          SameRows-touch now slot a row cs ds same,
        )
    | inr no' ↦ (
      (a, touch now slot row) ∷ cs,
      false,
      ground (arith, h.0, no'),
      (λ t. cc, λ all. cc),
      SameRows-touch now slot a row cs cs (SameRows-refl now cs),
    )
  ]

  any_of-some :
      (cs : Contexts)
      → EveryEntry Decides now slot cs
      → (ds : Contexts) × (b : Bool) × (any_of p now slot cs ≡ ok (ds, b))
        × ((b ≡ true) ↔ SomeEntry (λ c. q c ≡ true) now slot cs)
        × SameRows now cs ds
  unfolding any_of
  any_of-some [] h = ([], false, refl, (λ t. cc, λ none'. absurd none'), tt)
  any_of-some ((a, row) ∷ cs) h = elim (Bool-cases (q (entry now slot row))) [
    | inl yes' ↦ (
      (a, touch now slot row) ∷ cs,
      true,
      ground (arith, h.0, yes'),
      (λ t. inl yes', λ any. refl),
      SameRows-touch now slot a row cs cs (SameRows-refl now cs),
    )
    | inr no' ↦
        let (ds, b, e, iff, same) = any_of-some cs h.1 in
        (
          (a, touch now slot row) ∷ ds,
          b,
          ground (arith, h.0, no', e),
          (λ t. inr (iff.0 t), λ any. elim any [ inl here ↦ cc | inr there ↦ iff.1 there ]),
          SameRows-touch now slot a row cs ds same,
        )
  ]

  pub all_of-Answers :
      (s : ConsensusStorage)
      → EveryEntry Decides now slot s.contexts
      → Answers now s
          (with_contexts s (all_of p now slot s.contexts))
          (EveryEntry (λ c. q c ≡ true) now slot s.contexts)
  unfolding with_contexts
  all_of-Answers s h =
      let (ds, b, e, iff, same) = all_of-every s.contexts h in
      (record s { contexts = ds }, b, rw e, iff, same, refl, refl)

  pub any_of-Answers :
      (s : ConsensusStorage)
      → EveryEntry Decides now slot s.contexts
      → Answers now s
          (with_contexts s (any_of p now slot s.contexts))
          (SomeEntry (λ c. q c ≡ true) now slot s.contexts)
  unfolding with_contexts
  any_of-Answers s h =
      let (ds, b, e, iff, same) = any_of-some s.contexts h in
      (record s { contexts = ds }, b, rw e, iff, same, refl, refl)

module _ {P Q : ConsensusContext → Type 0} (f : (c : ConsensusContext) → P c → Q c) where
  pub EveryEntry-map :
      (now slot : ℕ) (cs : Contexts) → EveryEntry P now slot cs → EveryEntry Q now slot cs
  EveryEntry-map now slot [] h = tt
  EveryEntry-map now slot ((a, row) ∷ cs) h =
      (f (entry now slot row) h.0, EveryEntry-map now slot cs h.1)

  pub SomeEntry-map :
      (now slot : ℕ) (cs : Contexts) → SomeEntry P now slot cs → SomeEntry Q now slot cs
  SomeEntry-map now slot [] h = absurd h
  SomeEntry-map now slot ((a, row) ∷ cs) (inl h) = inl (f (entry now slot row) h)
  SomeEntry-map now slot ((a, row) ∷ cs) (inr h) = inr (SomeEntry-map now slot cs h)

pub EveryEntry-all :
    {P : ConsensusContext → Type 0} (f : (c : ConsensusContext) → P c) (now slot : ℕ)
    (cs : Contexts)
    → EveryEntry P now slot cs
EveryEntry-all f now slot [] = tt
EveryEntry-all f now slot ((a, row) ∷ cs) = (f (entry now slot row), EveryEntry-all f now slot cs)

abbrev pub Contributes : ConsensusContext → Type 0
Contributes c = c.is_contributing ≡ some true

abbrev pub IsConfirmed : ConsensusContext → Type 0
IsConfirmed c = c.is_contributing ≢ none

abbrev pub HasValue : ConsensusContext → Type 0
HasValue c = 0 < c.election_value

-- A contributing node's block has come.
abbrev pub IsCollected : ConsensusContext → Type 0
IsCollected c = c.is_contributing ≡ some true → 0 < length c.block.messages
