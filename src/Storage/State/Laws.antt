-- ===== src/Storage/State/Laws.antt =====
-- What can be read after a write, and when two storages read alike.
use blockchain_messaging_sys.Prelude.{
  true, ℕ, ◌≡◌, refl, [], ◌∷◌, Str, str_dec, ℕ_discrete, modify, find-modify, at_or, ite, arith,
}
use blockchain_messaging_sys.Storage.State.{
  ConsensusContext, Contexts, Row, touch, entry, entry_at, update_entry, fresh_context,
}

-- The entries of a row after one of them is written.
pub entry-modify :
    (now t slot : ℕ) (f : ConsensusContext → ConsensusContext) (row : Row)
    → entry now t (modify ℕ_discrete slot (fresh_context now) f row)
      ≡ ite (ℕ_discrete slot t) (f (entry now t row)) (entry now t row)
unfolding entry
entry-modify now t slot f row =
    rw (find-modify ℕ_discrete t slot (fresh_context now) f row) (ground arith)

pub entry-touch : (now t slot : ℕ) (row : Row) → entry now t (touch now slot row) ≡ entry now t row
unfolding touch
entry-touch now t slot row = ground (arith, entry-modify now t slot (λ c. c) row)

-- The entries of a storage after one of them is written.
pub entry_at-update_entry :
    (now t slot : ℕ) (a b : Str) (f : ConsensusContext → ConsensusContext) (cs : Contexts)
    → entry_at now a t (update_entry now b slot f cs)
      ≡ ite
          (str_dec b a)
          (ite (ℕ_discrete slot t) (f (entry_at now a t cs)) (entry_at now a t cs))
          (entry_at now a t cs)
unfolding entry_at update_entry
entry_at-update_entry now t slot a b f cs =
    rw (find-modify str_dec a b [] (modify ℕ_discrete slot (fresh_context now) f) cs)
      (ground (arith, entry-modify now t slot f (at_or str_dec [] b cs)))

-- The same addresses in the same order, each with the same entries.
abbrev pub SameRows : ℕ → Contexts → Contexts → Type 0
SameRows now [] [] = Unit
SameRows now [] (_ ∷ _) = ⊥
SameRows now (_ ∷ _) [] = ⊥
SameRows now ((a, row) ∷ cs) ((b, row') ∷ ds) =
    (a ≡ b) × ((t : ℕ) → entry now t row' ≡ entry now t row) × SameRows now cs ds

pub SameRows-refl : (now : ℕ) (cs : Contexts) → SameRows now cs cs
SameRows-refl now [] = tt
SameRows-refl now ((a, row) ∷ cs) = (refl, λ t. refl, SameRows-refl now cs)

pub SameRows-touch :
    (now slot : ℕ) (a : Str) (row : Row) (cs ds : Contexts)
    → SameRows now cs ds
    → SameRows now ((a, row) ∷ cs) ((a, touch now slot row) ∷ ds)
SameRows-touch now slot a row cs ds h = (refl, λ t. entry-touch now t slot row, h)

pub SameRows-entry_at :
    (now : ℕ) (cs ds : Contexts) (a : Str) (t : ℕ)
    → SameRows now cs ds
    → entry_at now a t ds ≡ entry_at now a t cs
unfolding entry_at
SameRows-entry_at now [] [] a t h = refl
SameRows-entry_at now [] (_ ∷ _) a t h = absurd h
SameRows-entry_at now (_ ∷ _) [] a t h = absurd h
SameRows-entry_at now ((b, row) ∷ cs) ((b', row') ∷ ds) a t h =
    ground (arith, h.1 t, SameRows-entry_at now cs ds a t h.2)

-- A resolved entry is there, so every clock reading reads the same.
pub entry_at-resolved :
    (now now' t : ℕ) (a : Str) (cs : Contexts)
    → (entry_at now a t cs).is_resolved ≡ true
    → entry_at now' a t cs ≡ entry_at now a t cs
unfolding entry_at entry fresh_context
entry_at-resolved now now' t a cs h = ground arith
