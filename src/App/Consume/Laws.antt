-- ===== src/App/Consume/Laws.antt =====
-- What a delivered consensus message does to the storage.
use blockchain_messaging_sys.Prelude.{
  ℕ, ◌<◌, ◌≡◌, ◌⊎◌, inl, inr, refl, sym, ap, ◌∙◌, Bool, true, false, [], ◌∷◌, none, some, Str,
  str_dec, ℕ_discrete, find, subst, ite, arith, Result, ok, fault, Fault, length,
}
use blockchain_messaging_sys.Itf.{Block}
use blockchain_messaging_sys.Io.Wrappers.{ConsensusHeader, ContributionWrapper}
use blockchain_messaging_sys.Storage.State.{
  ConsensusContext, ConsensusStorage, Contexts, entry_at, update_context, update_entry, add_context,
  set_contribution, add_block, mark_as_resolved,
}
use blockchain_messaging_sys.Storage.State.Laws.{entry_at-update_entry, SameRows}
use blockchain_messaging_sys.Storage.Sync.{
  get_slot_synchronization_context, load_synchronized, store_synchronized,
}
use blockchain_messaging_sys.Storage.Sync.Laws.{HasCondition, get-HasCondition, load-store}
use blockchain_messaging_sys.Storage.Queries.Laws.{Answers, EveryEntry}
use blockchain_messaging_sys.App.Consume.{signal, signal_if}

abbrev pub IsConditionOf : ℕ → ℕ → ConsensusStorage → Type 0
IsConditionOf r slot s = find ℕ_discrete slot s.conditions ≡ some (some r)

-- The slot's flag is up, and the entries are those of `s`.
abbrev pub Signalled : ℕ → ℕ → ConsensusStorage → Result ConsensusStorage → Type 0
Signalled r slot s result =
    (s' : ConsensusStorage) × (result ≡ ok s')
    × IsConditionOf r slot s'
    × (load_synchronized (some r) s' ≡ ok true)
    × (s'.contexts ≡ s.contexts)

pub signal_lem :
    (r slot : ℕ) (s : ConsensusStorage) → HasCondition r slot s → Signalled r slot s (signal slot s)
unfolding signal
signal_lem r slot s h =
    let (pointer, (found, there), same) = get-HasCondition r slot s h in
    let (s', e, flag, contexts, conditions) =
      load-store r true (get_slot_synchronization_context slot s).0 there in
    (s', rw pointer e, ap (find ℕ_discrete slot) conditions ∙ found, flag, contexts ∙ same)

abbrev pub declared : ConsensusHeader → ContributionWrapper → ConsensusContext → ConsensusContext
declared h w c = record c { node = h.node; is_contributing = some w.is_contributing }

-- The sender's entry of the slot is changed by `f`, and no other entry.
abbrev pub ChangesEntry :
    ℕ
    → ConsensusHeader
    → (ConsensusContext → ConsensusContext)
    → ConsensusStorage
    → ConsensusStorage
    → Type 0
ChangesEntry now h f s s' =
    (a : Str) (t : ℕ)
    → entry_at now a t s'.contexts
      ≡ ite (str_dec h.address a)
          (ite (ℕ_discrete h.slot t) (f (entry_at now a t s.contexts))
            (entry_at now a t s.contexts))
          (entry_at now a t s.contexts)

pub set_contribution-HasCondition :
    (now r q slot : ℕ) (a n : Str) (b : Bool) (s : ConsensusStorage)
    → HasCondition r q s
    → HasCondition r q (set_contribution now a slot b (add_context now a n slot s))
unfolding set_contribution add_context update_context
set_contribution-HasCondition now r q slot a n b s h = h

pub resolved-HasCondition :
    (now r q slot : ℕ) (a : Str) (b : Block) (s : ConsensusStorage)
    → HasCondition r q s
    → HasCondition r q (mark_as_resolved now a slot (add_block now a slot b s))
unfolding mark_as_resolved add_block update_context
resolved-HasCondition now r q slot a b s h = h

pub resolved_conditions :
    (now q slot : ℕ) (a : Str) (b : Block) (s : ConsensusStorage)
    → find ℕ_discrete q s.conditions ≡ none
    → find ℕ_discrete q (mark_as_resolved now a slot (add_block now a slot b s)).conditions ≡ none
unfolding mark_as_resolved add_block update_context
resolved_conditions now q slot a b s h = h

pub signal-none :
    (slot : ℕ) (s : ConsensusStorage)
    → find ℕ_discrete slot s.conditions ≡ none
    → signal slot s ≡ fault Fault.null_pointer
unfolding signal get_slot_synchronization_context store_synchronized
signal-none slot s h = rw (h, get_slot_synchronization_context) refl

pub ChangesEntry-two :
    (now : ℕ) (h : ConsensusHeader) (f g : ConsensusContext → ConsensusContext)
    (s : ConsensusStorage)
    → ChangesEntry now h
        (λ c. g (f c))
        s
        (update_context now h.address h.slot g (update_context now h.address h.slot f s))
unfolding update_context
ChangesEntry-two now h f g s a t =
    rw
      (entry_at-update_entry now t h.slot a h.address g
        (update_entry now h.address h.slot f s.contexts))
      (ground (arith, entry_at-update_entry now t h.slot a h.address f s.contexts))

pub EveryEntry-SameRows :
    (P : ConsensusContext → Type 0) (now slot : ℕ) (cs ds : Contexts)
    → SameRows now cs ds
    → EveryEntry P now slot ds
    → EveryEntry P now slot cs
EveryEntry-SameRows P now slot [] [] same h = tt
EveryEntry-SameRows P now slot [] (_ ∷ _) same h = absurd same
EveryEntry-SameRows P now slot (_ ∷ _) [] same h = absurd same
EveryEntry-SameRows P now slot ((a, row) ∷ cs) ((b, row') ∷ ds) same h =
    (subst P (same.1 slot) h.0, EveryEntry-SameRows P now slot cs ds same.2 h.1)

-- The test's answer is acted upon: the entries are as before, and the flag is up unless the
-- tested property fails of them.
abbrev pub Acts : ℕ → ℕ → ℕ → ConsensusStorage → Type 0 → Result ConsensusStorage → Type 0
Acts now r slot s Yes result =
    (s' : ConsensusStorage) × (result ≡ ok s')
    × IsConditionOf r slot s'
    × SameRows now s.contexts s'.contexts
    × ((load_synchronized (some r) s' ≡ ok true) ⊎ (¬ Yes))

pub signal_if_lem :
    (now r slot : ℕ) (s : ConsensusStorage) (test : Result (ConsensusStorage × Bool)) (Yes : Type 0)
    → HasCondition r slot s
    → Answers now s test Yes
    → Acts now r slot s Yes (signal_if slot test)
unfolding signal_if
signal_if_lem now r slot s test Yes h (s1, false, e, iff, same, conditions, flags) = (
  s1,
  rw (e, signal_if) refl,
  ap (find ℕ_discrete slot) conditions ∙ h.0,
  same,
  inr (λ y. no_true (iff.1 y)),
)
  where
    no_true : false ≡ true → ⊥
    no_true q = cc
signal_if_lem now r slot s test Yes h (s1, true, e, iff, same, conditions, flags) =
    let (s', e', condition, flag, contexts) =
      signal_lem r slot s1
        (ap (find ℕ_discrete slot) conditions ∙ h.0, subst (λ l. r < length l) (sym flags) h.1) in
    (
      s',
      rw (e, signal_if) e',
      condition,
      subst (SameRows now s.contexts) (sym contexts) same,
      inl flag,
    )
