-- ===== src/Storage/Election/Reset.antt =====
-- What removeElectionValueDuplicates does: its inner loop compares each row with itself too, so
-- every row counts as duplicated. Also what a tie does to an election.
use blockchain_messaging_sys.Prelude.{
  ℕ, ◌≡◌, ◌≢◌, ◌⊎◌, inl, inr, refl, sym, ap, ◌∙◌, true, List, [], ◌∷◌, Str, str_dec, ℕ_discrete,
  All, Any, arith, ite, if_pos, if_neg, subst, find,
}
use blockchain_messaging_sys.Storage.State.{
  ConsensusContext, ConsensusStorage, Contexts, Row, entry, entry_at, update_entry, fresh_context,
}
use blockchain_messaging_sys.Storage.State.Laws.{SameRows-entry_at, entry_at-update_entry}
use blockchain_messaging_sys.Storage.Election.{
  touch_all, is_any_duplicate, duplicated_addresses, reset_election_values,
  remove_election_value_duplicates,
}
use blockchain_messaging_sys.Storage.Election.Mark.{touch_all-SameRows}

abbrev addresses : Contexts → List Str
addresses [] = []
addresses ((a, row) ∷ cs) = a ∷ addresses cs

abbrev SelfDuplicate : ℕ → ℕ → Contexts → Str × Row → Type 0
SelfDuplicate now slot all r =
    is_any_duplicate (entry now slot r.1).election_value now slot all ≡ true

is_any_duplicate_here :
    (v now slot : ℕ) (a : Str) (row : Row) (cs : Contexts)
    → v ≡ (entry now slot row).election_value
    → is_any_duplicate v now slot ((a, row) ∷ cs) ≡ true
unfolding is_any_duplicate
is_any_duplicate_here v now slot a row cs h = ground arith

is_any_duplicate_there :
    (v now slot : ℕ) (a : Str) (row : Row) (cs : Contexts)
    → is_any_duplicate v now slot cs ≡ true
    → is_any_duplicate v now slot ((a, row) ∷ cs) ≡ true
unfolding is_any_duplicate
is_any_duplicate_there v now slot a row cs h = ground arith

self_duplicates_there :
    (now slot : ℕ) (a : Str) (row : Row) (cs rs : Contexts)
    → All (SelfDuplicate now slot cs) rs
    → All (SelfDuplicate now slot ((a, row) ∷ cs)) rs
self_duplicates_there now slot a row cs [] h = tt
self_duplicates_there now slot a row cs ((b, other) ∷ rs) h = (
  is_any_duplicate_there (entry now slot other).election_value now slot a row cs h.0,
  self_duplicates_there now slot a row cs rs h.1,
)

self_duplicates : (now slot : ℕ) (cs : Contexts) → All (SelfDuplicate now slot cs) cs
self_duplicates now slot [] = tt
self_duplicates now slot ((a, row) ∷ cs) = (
  is_any_duplicate_here (entry now slot row).election_value now slot a row cs refl,
  self_duplicates_there now slot a row cs cs (self_duplicates now slot cs),
)

duplicated_addresses-All :
    (now slot : ℕ) (all cs : Contexts)
    → All (SelfDuplicate now slot all) cs
    → duplicated_addresses now slot all cs ≡ addresses cs
unfolding duplicated_addresses
duplicated_addresses-All now slot all [] h = refl
duplicated_addresses-All now slot all ((a, row) ∷ cs) h =
    rw h.0 (ap (◌∷◌ a) (duplicated_addresses-All now slot all cs h.1))

abbrev pub zeroed : ConsensusContext → ConsensusContext
zeroed c = record c { election_value = 0 }

reset-entry_at :
    (now slot : ℕ) (a : Str) (addrs : List Str) (cs : Contexts)
    → Any (λ b. b ≡ a) addrs ⊎ (zeroed (entry_at now a slot cs) ≡ entry_at now a slot cs)
    → entry_at now a slot (reset_election_values now slot addrs cs)
      ≡ zeroed (entry_at now a slot cs)
unfolding reset_election_values
reset-entry_at now slot a [] cs (inl h) = absurd h
reset-entry_at now slot a [] cs (inr h) = sym h
reset-entry_at now slot a (b ∷ addrs) cs h =
    let cs' : Contexts = update_entry now b slot zeroed cs in
    let c : ConsensusContext = entry_at now a slot cs in
    let same : entry_at now a slot cs' ≡ ite (str_dec b a) (zeroed c) c =
      entry_at-update_entry now slot slot a b zeroed cs
      ∙ rw (if_pos (ℕ_discrete slot slot) refl (zeroed c) c) refl in
    elim (str_dec b a) [
      | yes here ↦
          let now_zero : entry_at now a slot cs' ≡ zeroed c =
            same ∙ if_pos (str_dec b a) here (zeroed c) c in
          reset-entry_at now slot a addrs cs' (inr (ap zeroed now_zero ∙ sym now_zero))
          ∙ ap zeroed now_zero
      | no other ↦
          let kept : entry_at now a slot cs' ≡ c = same ∙ if_neg (str_dec b a) other (zeroed c) c in
          reset-entry_at now slot a addrs cs' (elim h [
            | inl (inl here) ↦ absurd (other here)
            | inl (inr there) ↦ inl there
            | inr zero' ↦ inr (ap zeroed kept ∙ zero' ∙ sym kept)
          ])
          ∙ ap zeroed kept
    ]

reset-entry_at_ne :
    (now slot t : ℕ) (a : Str) (addrs : List Str) (cs : Contexts)
    → slot ≢ t
    → entry_at now a t (reset_election_values now slot addrs cs) ≡ entry_at now a t cs
unfolding reset_election_values
reset-entry_at_ne now slot t a [] cs h = refl
reset-entry_at_ne now slot t a (b ∷ addrs) cs h =
    reset-entry_at_ne now slot t a addrs (update_entry now b slot zeroed cs) h
    ∙ entry_at-update_entry now t slot a b zeroed cs
    ∙ ground arith

zeroed_fresh : (now : ℕ) → zeroed (fresh_context now) ≡ fresh_context now
unfolding fresh_context
zeroed_fresh now = refl

address_or_fresh :
    (now t : ℕ) (a : Str) (cs : Contexts)
    → Any (λ b. b ≡ a) (addresses cs) ⊎ (entry_at now a t cs ≡ fresh_context now)
unfolding entry_at entry find
address_or_fresh now t a [] = inr refl
address_or_fresh now t a ((b, row) ∷ cs) = elim (str_dec b a) [
  | yes here ↦ inl (inl here)
  | no other ↦ elim (address_or_fresh now t a cs) [
    | inl there ↦ inl (inr there)
    | inr fresh ↦ inr (rw (if_neg _ other) fresh)
  ]
]

zeroed_slot :
    (now slot : ℕ) (a : Str) (s : ConsensusStorage)
    → entry_at now a slot
        (reset_election_values now slot (addresses s.contexts) (touch_all now slot s.contexts))
      ≡ zeroed (entry_at now a slot s.contexts)
zeroed_slot now slot a s =
    let cs : Contexts = s.contexts in
    let ds : Contexts = touch_all now slot cs in
    let same : entry_at now a slot ds ≡ entry_at now a slot cs =
      SameRows-entry_at now cs ds a slot (touch_all-SameRows now slot cs) in
    reset-entry_at now slot a (addresses cs) ds (elim (address_or_fresh now slot a cs) [
      | inl there ↦ inl there
      | inr fresh ↦
          let e : entry_at now a slot ds ≡ fresh_context now = same ∙ fresh in
          inr (ap zeroed e ∙ zeroed_fresh now ∙ sym e)
    ])
    ∙ ap zeroed same

-- removeElectionValueDuplicates sets the election value of every node's entry of the slot to 0,
-- whether or not another node has the same value; it changes nothing else.
pub entry_at-remove_election_value_duplicates :
    (now slot t : ℕ) (a : Str) (s : ConsensusStorage)
    → entry_at now a t (remove_election_value_duplicates now slot s).contexts
      ≡ ite (ℕ_discrete slot t) (zeroed (entry_at now a t s.contexts)) (entry_at now a t s.contexts)
unfolding remove_election_value_duplicates
entry_at-remove_election_value_duplicates now slot t a s =
    let cs : Contexts = s.contexts in
    let ds : Contexts = touch_all now slot cs in
    let same : entry_at now a t ds ≡ entry_at now a t cs =
      SameRows-entry_at now cs ds a t (touch_all-SameRows now slot cs) in
    let Zeroed : ℕ → Type 0 = λ u.
      entry_at now a u (reset_election_values now slot (addresses cs) ds)
      ≡ zeroed (entry_at now a u cs) in
    rw (duplicated_addresses-All now slot cs cs (self_duplicates now slot cs))
      (elim (ℕ_discrete slot t) [
        | yes here ↦ rw (if_pos _ here) (subst Zeroed here (zeroed_slot now slot a s))
        | no other ↦
            rw (if_neg _ other) (reset-entry_at_ne now slot t a (addresses cs) ds other ∙ same)
      ])
