-- ===== src/Storage/Sync/Laws.antt =====
-- What clearSlot forgets and keeps, and that the condition of a prepared slot can be signalled.
use blockchain_messaging_sys.Prelude.{
  get_elem?-set, ℕ, ◌<◌, ◌≡◌, ◌≢◌, refl, sym, ap, ◌∙◌, Bool, [], ◌∷◌, ◌++◌, Option, none, some, Str,
  ℕ_discrete, Map, find, remove, find-modify, find-remove, ite, if_pos, if_neg, arith, length,
  length-append, set, ok,
}
use blockchain_messaging_sys.Storage.State.{
  ConsensusStorage, Contexts, Row, entry, entry_at, fresh_context,
}
use blockchain_messaging_sys.Storage.Sync.{
  init_conditions, get_slot_synchronization_context, store_synchronized, load_synchronized,
  clear_rows, clear_conditions, clear_slot,
}

entry-remove :
    (now t slot : ℕ) (row : Row)
    → entry now t (remove ℕ_discrete slot row)
      ≡ ite (ℕ_discrete slot t) (fresh_context now) (entry now t row)
unfolding entry
entry-remove now t slot row = rw (find-remove ℕ_discrete t slot row) (ground arith)

entry_at-clear_rows :
    (now t slot : ℕ) (a : Str) (cs : Contexts)
    → entry_at now a t (clear_rows slot cs)
      ≡ ite (ℕ_discrete slot t) (fresh_context now) (entry_at now a t cs)
unfolding entry_at clear_rows find entry
entry_at-clear_rows now t slot a [] = ground arith
entry_at-clear_rows now t slot a ((b, row) ∷ cs) =
    ground (arith, entry-remove now t slot row, entry_at-clear_rows now t slot a cs)

cons_not_nil : (r : Str × Row) (cs : Contexts) → r ∷ cs ≢ []
cons_not_nil r cs e = cc

ite_twice {ℓ} : {P C : Type ℓ} (d : Dec P) (a b : C) → ite d a (ite d a b) ≡ ite d a b
ite_twice (yes p) a b = refl
ite_twice (no p) a b = refl

find-clear_conditions :
    (t slot : ℕ) (cs : Contexts) (m : Map ℕ (Option ℕ))
    → cs ≢ []
    → find ℕ_discrete t (clear_conditions slot cs m)
      ≡ ite (ℕ_discrete slot t) none (find ℕ_discrete t m)
unfolding clear_conditions
find-clear_conditions t slot [] m h = absurd (h refl)
find-clear_conditions t slot (_ ∷ []) m h = find-remove ℕ_discrete t slot m
find-clear_conditions t slot (_ ∷ r ∷ cs) m h =
    find-clear_conditions t slot (r ∷ cs) (remove ℕ_discrete slot m) (λ e. cons_not_nil r cs e)
    ∙ ap (ite (ℕ_discrete slot t) none) (find-remove ℕ_discrete t slot m)
    ∙ ite_twice (ℕ_discrete slot t) none (find ℕ_discrete t m)

-- Where at least one node is known, `clearSlot` forgets the slot and nothing else: a later access
-- to an entry of the slot reads a fresh context, every entry of another slot is read as before, the
-- slot has no condition any more, and the conditions of the other slots are the same objects.
pub clear_slot_lem :
    (now slot : ℕ) (s : ConsensusStorage)
    → s.contexts ≢ []
    → ((a : Str) (t : ℕ)
        → entry_at now a t (clear_slot slot s).contexts
          ≡ ite (ℕ_discrete slot t) (fresh_context now) (entry_at now a t s.contexts))
      × ((t : ℕ)
          → find ℕ_discrete t (clear_slot slot s).conditions
            ≡ ite (ℕ_discrete slot t) none (find ℕ_discrete t s.conditions))
      × ((clear_slot slot s).synchronizations ≡ s.synchronizations)
unfolding clear_slot
clear_slot_lem now slot s h = (
  λ a t. entry_at-clear_rows now t slot a s.contexts,
  λ t. find-clear_conditions t slot s.contexts s.conditions h,
  refl,
)

-- Every condition is an object that is there.
abbrev pub IsAllocated : ConsensusStorage → Type 0
IsAllocated s =
    (t r : ℕ) → find ℕ_discrete t s.conditions ≡ some (some r) → r < length s.synchronizations

find-append_none :
    {V : Type 0} (t slot : ℕ) (v : V) (m : Map ℕ V)
    → find ℕ_discrete slot m ≡ none
    → find ℕ_discrete t (m ++ (slot, v) ∷ [])
      ≡ ite (ℕ_discrete slot t) (some v) (find ℕ_discrete t m)
unfolding find
find-append_none t slot v [] h = refl
find-append_none t slot v ((j, w) ∷ m) h = elim (ℕ_discrete j slot) [
  | yes e ↦ ground arith
  | no d ↦
      let h' : find ℕ_discrete slot m ≡ none =
        sym (if_neg (ℕ_discrete j slot) d (some w) (find ℕ_discrete slot m)) ∙ h in
      ground (arith, find-append_none t slot v m h')
]

-- The slot's condition is the object r, which is there.
abbrev pub HasCondition : ℕ → ℕ → ConsensusStorage → Type 0
HasCondition r slot s =
    (find ℕ_discrete slot s.conditions ≡ some (some r)) × (r < length s.synchronizations)

pub init_conditions-HasCondition :
    (slot : ℕ) (s : ConsensusStorage)
    → IsAllocated s
    → find ℕ_discrete slot s.conditions ≢ some none
    → (r : ℕ) × HasCondition r slot (init_conditions slot s)
      × ((init_conditions slot s).contexts ≡ s.contexts)
unfolding init_conditions
init_conditions-HasCondition slot s h d = has_after (find ℕ_discrete slot s.conditions) refl
  where
    has_after :
        (found : Option (Option ℕ))
        → find ℕ_discrete slot s.conditions ≡ found
        → (r : ℕ) × HasCondition r slot (init_conditions slot s)
          × ((init_conditions slot s).contexts ≡ s.contexts)
    has_after (some (some r)) e = rw (e, init_conditions) (r, (e, h slot r e), refl)
    has_after (some none) e = absurd (d e)
    has_after none e =
        rw (e, init_conditions)
          (
            length s.synchronizations,
            (
              find-append_none slot slot _ s.conditions e ∙ if_pos (ℕ_discrete slot slot) refl _ _,
              omega (arith, length-append s.synchronizations (_ ∷ [])),
            ),
            refl,
          )

-- A store through a slot's condition is read back through it.
pub load-store :
    (r : ℕ) (b : Bool) (s : ConsensusStorage)
    → r < length s.synchronizations
    → (s' : ConsensusStorage) × (store_synchronized (some r) b s ≡ ok s')
      × (load_synchronized (some r) s' ≡ ok b)
      × (s'.contexts ≡ s.contexts)
      × (s'.conditions ≡ s.conditions)
unfolding store_synchronized load_synchronized
load-store r b s h = (
  record s { synchronizations = set s.synchronizations r (record { is_synchronized = b }) },
  refl,
  rw (get_elem?-set s.synchronizations r (record { is_synchronized = b }) h, load_synchronized)
      refl,
  refl,
  refl,
)

pub get-HasCondition :
    (r slot : ℕ) (s : ConsensusStorage)
    → HasCondition r slot s
    → ((get_slot_synchronization_context slot s).1 ≡ some r)
      × HasCondition r slot (get_slot_synchronization_context slot s).0
      × ((get_slot_synchronization_context slot s).0.contexts ≡ s.contexts)
unfolding get_slot_synchronization_context
get-HasCondition r slot s (e, h) = (
  rw e refl,
  (
    find-modify ℕ_discrete slot slot none (λ p. p) s.conditions
        ∙ if_pos (ℕ_discrete slot slot) refl _ _
        ∙ rw e refl,
    h,
  ),
  refl,
)
