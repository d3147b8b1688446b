-- ===== src/Storage/Election/Mark.antt =====
-- What markValidator leaves in the storage, and what getValidator then reads.
use blockchain_messaging_sys.Prelude.{
  ℕ, ◌≡◌, ◌≢◌, inl, inr, refl, sym, ap, ◌∙◌, true, false, [], ◌∷◌, Str, str_dec, ℕ_discrete, Any,
  arith, ok, if◌then◌else◌, Option, none, some, modify, ite, if_pos, if_neg,
}
use blockchain_messaging_sys.Storage.State.{
  ConsensusContext, ConsensusStorage, Contexts, Row, entry, entry_at, update_entry, update_context,
  fresh_context,
}
use blockchain_messaging_sys.Storage.State.Laws.{
  SameRows, SameRows-touch, SameRows-entry_at, entry-modify, entry_at-update_entry,
}
use blockchain_messaging_sys.Storage.Queries.Laws.{EveryEntry}
use blockchain_messaging_sys.Storage.Election.{
  touch_all, last_validator, get_validator, string_of_view, elected, mark_validator,
}
use blockchain_messaging_sys.Storage.Election.Votes.{votes}
use blockchain_messaging_sys.Storage.Election.Best.{elected-IsExtreme}

pub touch_all-SameRows : (now slot : ℕ) (cs : Contexts) → SameRows now cs (touch_all now slot cs)
unfolding touch_all
touch_all-SameRows now slot [] = tt
touch_all-SameRows now slot ((a, row) ∷ cs) =
    SameRows-touch now slot a row cs (touch_all now slot cs) (touch_all-SameRows now slot cs)

abbrev pub IsUnmarked : ConsensusContext → Type 0
IsUnmarked c = c.is_validator ≡ false

-- Rows that read alike have the same last mark.
last_validator-SameRows :
    (o : Option Str) (now slot : ℕ) (cs ds : Contexts)
    → SameRows now cs ds
    → last_validator o now slot ds ≡ last_validator o now slot cs
unfolding last_validator
last_validator-SameRows o now slot [] [] h = refl
last_validator-SameRows o now slot [] (_ ∷ _) h = absurd h
last_validator-SameRows o now slot (_ ∷ _) [] h = absurd h
last_validator-SameRows o now slot ((a, row) ∷ cs) ((b, row') ∷ ds) h =
    rw (← h.0, h.1 slot)
      (last_validator-SameRows (if (entry now slot row).is_validator then some a else o) now slot cs
        ds h.2)

last_validator_unmarked :
    (o : Option Str) (now slot : ℕ) (cs : Contexts)
    → EveryEntry IsUnmarked now slot cs
    → last_validator o now slot cs ≡ o
unfolding last_validator
last_validator_unmarked o now slot [] h = refl
last_validator_unmarked o now slot ((a, row) ∷ cs) h =
    rw h.0 (last_validator_unmarked o now slot cs h.1)

abbrev pub mark : ConsensusContext → ConsensusContext
mark c = record c { is_validator = true }

marked_entry :
    (now slot : ℕ) (row : Row)
    → (entry now slot (modify ℕ_discrete slot (fresh_context now) mark row)).is_validator ≡ true
marked_entry now slot row = ground (arith, entry-modify now slot slot mark row)

-- A mark on the address of some row is the only one.
last_validator_marked :
    (o : Option Str) (w : Str) (now slot : ℕ) (cs : Contexts)
    → EveryEntry IsUnmarked now slot cs
    → Any (λ r. r.0 ≡ w) cs
    → last_validator o now slot (update_entry now w slot mark cs) ≡ some w
unfolding last_validator update_entry modify str_dec
last_validator_marked o w now slot [] h k = absurd k
last_validator_marked o w now slot ((a, row) ∷ cs) h k = elim (str_dec a w) [
  | yes here ↦
      rw (if_pos _ here, marked_entry now slot row)
        (last_validator_unmarked (some a) now slot cs h.1 ∙ ap some here)
  | no other ↦
      rw (if_neg _ other, h.0)
        (last_validator_marked o w now slot cs h.1
          (elim k [ inl here ↦ absurd (other here) | inr there ↦ there ]))
]

IsUnmarked-touch :
    (now slot : ℕ) (cs ds : Contexts)
    → SameRows now cs ds
    → EveryEntry IsUnmarked now slot cs
    → EveryEntry IsUnmarked now slot ds
IsUnmarked-touch now slot [] [] same h = tt
IsUnmarked-touch now slot [] (_ ∷ _) same h = absurd same
IsUnmarked-touch now slot (_ ∷ _) [] same h = absurd same
IsUnmarked-touch now slot ((a, row) ∷ cs) ((b, row') ∷ ds) same h =
    (ground (arith, h.0, same.1 slot), IsUnmarked-touch now slot cs ds same.2 h.1)

address_of_vote :
    (now slot : ℕ) (w : Str) (u : ℕ) (cs ds : Contexts)
    → SameRows now cs ds
    → Any (λ y. (w, u) ≡ y) (votes now slot cs)
    → Any (λ r. r.0 ≡ w) ds
address_of_vote now slot w u [] ds same h = absurd h
address_of_vote now slot w u (_ ∷ _) [] same h = absurd same
address_of_vote now slot w u ((a, row) ∷ cs) ((b, row') ∷ ds) same (inl h) =
    inl (sym same.0 ∙ sym (ap (λ (v : Str × ℕ). v.0) h))
address_of_vote now slot w u ((a, row) ∷ cs) ((b, row') ∷ ds) same (inr h) =
    inr (address_of_vote now slot w u cs ds same.2 h)

-- With some node known and none marked, markValidator marks the elected node, getValidator then
-- returns it, and no other field of any entry, and no other node's mark, is changed.
pub get_validator-mark_validator :
    (now slot : ℕ) (s : ConsensusStorage)
    → s.contexts ≢ []
    → EveryEntry IsUnmarked now slot s.contexts
    → (s' : ConsensusStorage) × (s'' : ConsensusStorage) × (w : Str) × (elected now slot s.contexts
        ≡ ok w)
      × (mark_validator now slot s ≡ ok s')
      × (get_validator now slot s' ≡ ok (s'', w))
      × ((a : Str) (t : ℕ)
          → entry_at now a t s''.contexts
            ≡ ite
                (str_dec w a)
                (ite
                  (ℕ_discrete slot t)
                  (mark (entry_at now a t s.contexts))
                  (entry_at now a t s.contexts))
                (entry_at now a t s.contexts))
unfolding mark_validator get_validator update_context string_of_view
get_validator-mark_validator now slot s h unmarked =
    let cs : Contexts = s.contexts in
    let ds : Contexts = touch_all now slot cs in
    let same : SameRows now cs ds = touch_all-SameRows now slot cs in
    let (w, u, e, found, _) = elected-IsExtreme now slot cs h in
    let es : Contexts = update_entry now w slot mark ds in
    let last : last_validator none now slot es ≡ some w =
      last_validator_marked none w now slot ds (IsUnmarked-touch now slot cs ds same unmarked)
        (address_of_vote now slot w u cs ds same found) in
    (
      record s { contexts = es },
      record s { contexts = touch_all now slot es },
      w,
      e,
      rw e,
      rw last,
      λ a t.
          SameRows-entry_at now es (touch_all now slot es) a t (touch_all-SameRows now slot es)
          ∙ entry_at-update_entry now t slot a w mark ds
          ∙ rw (SameRows-entry_at now cs ds a t same) refl,
    )
