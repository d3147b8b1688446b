-- ===== src/Storage/Merge/Laws.antt =====
-- The block that mergeContributors makes, and what it leaves in the storage.
use mathlib.Core.List.Perm
use mathlib.Core.List.{perm_append_comm, append_assoc}
use mathlib.Core.Path.{ap₂, subst₂}
use blockchain_messaging_sys.Prelude.{
  ℕ, ◌≡◌, ◌≢◌, refl, sym, ap, ◌∙◌, Bool, false, List, [], ◌∷◌, ◌++◌, Perm, none, some, Str, str_dec,
  ℕ_discrete, All, Any, arith, Result, ok, ite, if_pos, if_neg, inl, inr, subst, find,
  if◌then◌else◌,
}
use blockchain_messaging_sys.Itf.{Message, Block, BlockState}
use blockchain_messaging_sys.Storage.State.{
  ConsensusContext, ConsensusStorage, Contexts, Row, entry, entry_at, update_context, update_entry,
}
use blockchain_messaging_sys.Storage.State.Laws.{SameRows, SameRows-entry_at, entry_at-update_entry}
use blockchain_messaging_sys.Storage.Queries.{value}
use blockchain_messaging_sys.Storage.Queries.Laws.{EveryEntry, IsConfirmed}
use blockchain_messaging_sys.Storage.Election.{
  touch_all, last_validator, get_validator, string_of_view,
}
use blockchain_messaging_sys.Storage.Election.Mark.{touch_all-SameRows}
use blockchain_messaging_sys.Storage.Merge.{contributed, merge_contributors, sort_messages}
use blockchain_messaging_sys.Storage.Merge.Sort.{
  IsSorted, sort_messages-perm, sort_messages-IsSorted,
}

is_contributor : ConsensusContext → Bool
is_contributor c = elim c.is_contributing [ none ↦ false | some b ↦ b ]

-- What one node has given to the slot: the validator its block, another node its block if it
-- contributes.
share : Str → Str → ConsensusContext → List Message
unfolding is_contributor
share validator a c =
    ite (str_dec a validator) c.block.messages (if is_contributor c then c.block.messages else [])

-- The messages of the validator and of every contributing node.
pub published : Str → ℕ → ℕ → Contexts → List Message
unfolding share
published validator now slot [] = []
published validator now slot ((a, row) ∷ cs) =
    share validator a (entry now slot row) ++ published validator now slot cs

others : Str → ℕ → ℕ → Contexts → List Message
unfolding is_contributor
others validator now slot [] = []
others validator now slot ((a, row) ∷ cs) =
    ite (str_dec a validator) []
      (if is_contributor (entry now slot row) then (entry now slot row).block.messages else [])
    ++ others validator now slot cs

contributed-others :
    (w : Str) (now slot : ℕ) (cs ds : Contexts)
    → SameRows now cs ds
    → EveryEntry IsConfirmed now slot cs
    → contributed w now slot ds ≡ ok (others w now slot cs)
unfolding contributed others value
contributed-others w now slot [] [] same h = refl
contributed-others w now slot [] (_ ∷ _) same h = absurd same
contributed-others w now slot (_ ∷ _) [] same h = absurd same
contributed-others w now slot ((a, row) ∷ cs) ((b, row') ∷ ds) same h =
    ground (arith, h.0, same.1 slot, contributed-others w now slot cs ds same.2 h.1)

-- An `unordered_map` holds an address once.
abbrev pub DistinctAddresses : Contexts → Type 0
DistinctAddresses [] = Unit
DistinctAddresses (r ∷ cs) = All (λ q. q.0 ≢ r.0) cs × DistinctAddresses cs

published_absent :
    (w : Str) (now slot : ℕ) (cs : Contexts)
    → All (λ r. r.0 ≢ w) cs
    → published w now slot cs ≡ others w now slot cs
unfolding published others
published_absent w now slot [] h = refl
published_absent w now slot ((a, row) ∷ cs) h =
    ground (arith, h.0, published_absent w now slot cs h.1)

abbrev own_messages : Str → ℕ → ℕ → Contexts → List Message
own_messages w now slot cs = (entry_at now w slot cs).block.messages

own_here :
    (w a : Str) (now slot : ℕ) (row : Row) (cs : Contexts)
    → a ≡ w
    → entry_at now w slot ((a, row) ∷ cs) ≡ entry now slot row
unfolding entry_at find
own_here w a now slot row cs h = rw (if_pos (str_dec a w) h) refl

own_there :
    (w a : Str) (now slot : ℕ) (row : Row) (cs : Contexts)
    → a ≢ w
    → entry_at now w slot ((a, row) ∷ cs) ≡ entry_at now w slot cs
unfolding entry_at find
own_there w a now slot row cs h = rw (if_neg (str_dec a w) h) refl

others_here :
    (w a : Str) (now slot : ℕ) (row : Row) (cs : Contexts)
    → a ≡ w
    → others w now slot ((a, row) ∷ cs) ≡ others w now slot cs
unfolding others
others_here w a now slot row cs h = rw (if_pos (str_dec a w) h) refl

published_here :
    (w a : Str) (now slot : ℕ) (row : Row) (cs : Contexts)
    → a ≡ w
    → published w now slot ((a, row) ∷ cs)
      ≡ (entry now slot row).block.messages ++ published w now slot cs
unfolding published
published_here w a now slot row cs h = rw (if_pos (str_dec a w) h) refl

others_there :
    (w a : Str) (now slot : ℕ) (row : Row) (cs : Contexts)
    → a ≢ w
    → others w now slot ((a, row) ∷ cs) ≡ share w a (entry now slot row) ++ others w now slot cs
unfolding others share
others_there w a now slot row cs h = rw (if_neg (str_dec a w) h) (rw (if_neg (str_dec a w) h) refl)

shared_here :
    (w a : Str) (now slot : ℕ) (row : Row) (cs : Contexts)
    → a ≡ w
    → All (λ q. q.0 ≢ a) cs
    → own_messages w now slot ((a, row) ∷ cs) ++ others w now slot ((a, row) ∷ cs)
      ≡ published w now slot ((a, row) ∷ cs)
shared_here w a now slot row cs h absent =
    ap₂ ◌++◌ (ap (λ (c : ConsensusContext). c.block.messages) (own_here w a now slot row cs h)) (
      others_here w a now slot row cs h
      ∙ sym (published_absent w now slot cs (subst (λ b. All (λ q. q.0 ≢ b) cs) h absent)))
    ∙ sym (published_here w a now slot row cs h)

published_cons :
    (w a : Str) (now slot : ℕ) (row : Row) (cs : Contexts)
    → share w a (entry now slot row) ++ published w now slot cs
      ≡ published w now slot ((a, row) ∷ cs)
unfolding published
published_cons w a now slot row cs = refl

shared_there :
    (w a : Str) (now slot : ℕ) (row : Row) (cs : Contexts)
    → a ≢ w
    → Perm (own_messages w now slot cs ++ others w now slot cs) (published w now slot cs)
    → Perm
        (own_messages w now slot ((a, row) ∷ cs) ++ others w now slot ((a, row) ∷ cs))
        (published w now slot ((a, row) ∷ cs))
shared_there w a now slot row cs h p =
    let xs : List Message = share w a (entry now slot row) in
    let own : List Message = own_messages w now slot cs in
    let rest : List Message = others w now slot cs in
    let goal : List Message = xs ++ published w now slot cs in
    let moved : Perm (own ++ (xs ++ rest)) goal =
      Perm.trans
        (subst (λ l. Perm l ((xs ++ own) ++ rest)) (append_assoc own xs rest)
          (Perm.append_right rest (perm_append_comm own xs)))
        (subst (λ l. Perm l goal) (sym (append_assoc xs own rest)) (Perm.append_left xs p)) in
    subst₂ Perm
      (sym (
        ap₂ ◌++◌ (ap (λ (c : ConsensusContext). c.block.messages) (own_there w a now slot row cs h))
          (others_there w a now slot row cs h)))
      (published_cons w a now slot row cs) moved

-- Each share stands in the result exactly once.
shared-perm :
    (w : Str) (now slot : ℕ) (cs : Contexts)
    → Any (λ r. r.0 ≡ w) cs
    → DistinctAddresses cs
    → Perm (own_messages w now slot cs ++ others w now slot cs) (published w now slot cs)
shared-perm w now slot [] found distinct = absurd found
shared-perm w now slot ((a, row) ∷ cs) found distinct = elim (str_dec a w) [
  | yes here ↦
      subst (Perm (own_messages w now slot ((a, row) ∷ cs) ++ others w now slot ((a, row) ∷ cs)))
        (shared_here w a now slot row cs here distinct.0) (Perm.refl _)
  | no other ↦ shared_there w a now slot row cs other (
      shared-perm w now slot cs (elim found [ inl here ↦ absurd (other here) | inr there ↦ there ])
        distinct.1)
]

-- The last lines of mergeContributors, from the validator's entry and the messages of the others.
abbrev merged :
    Str
    → ℕ
    → ℕ
    → ConsensusStorage
    → Contexts
    → ConsensusContext
    → List Message
    → Result (ConsensusStorage × Block)
merged w now slot s ds c messages =
    let b : Block = record c.block {
      state = BlockState.completed;
      messages = sort_messages [] (c.block.messages ++ messages);
    } in
    ok (record s { contexts = update_entry now w slot (λ d. record d { block = b }) ds }, b)

-- When one node is marked and every node has declared, mergeContributors returns a completed block
-- that keeps the timestamp and the slot of the validator's own; its messages are those of the
-- validator and of the contributing nodes, each exactly once, the oldest first. The block becomes
-- the validator's, and no other entry or field is changed.
pub merge_contributors-perm :
    (now slot : ℕ) (w : Str) (s : ConsensusStorage)
    → last_validator none now slot s.contexts ≡ some w
    → Any (λ r. r.0 ≡ w) s.contexts
    → DistinctAddresses s.contexts
    → EveryEntry IsConfirmed now slot s.contexts
    → (s' : ConsensusStorage) × (b : Block) × (merge_contributors now slot s ≡ ok (s', b))
      × Perm b.messages (published w now slot s.contexts)
      × IsSorted b.messages
      × (b.state ≡ BlockState.completed)
      × (b.timestamp ≡ (entry_at now w slot s.contexts).block.timestamp)
      × (b.slot ≡ (entry_at now w slot s.contexts).block.slot)
      × ((a : Str) (t : ℕ)
          → entry_at now a t s'.contexts
            ≡ ite
                (str_dec w a)
                (ite
                  (ℕ_discrete slot t)
                  (record (entry_at now a t s.contexts) { block = b })
                  (entry_at now a t s.contexts))
                (entry_at now a t s.contexts))
unfolding merge_contributors get_validator string_of_view update_context
merge_contributors-perm now slot w s marked found distinct confirmed =
    let cs : Contexts = s.contexts in
    let ds : Contexts = touch_all now slot cs in
    let same : SameRows now cs ds = touch_all-SameRows now slot cs in
    let read : entry_at now w slot ds ≡ entry_at now w slot cs =
      SameRows-entry_at now cs ds w slot same in
    let own : Block = (entry_at now w slot cs).block in
    let ms : List Message = sort_messages [] (own.messages ++ others w now slot cs) in
    let b : Block = record own { state = BlockState.completed; messages = ms } in
    let es : Contexts = update_entry now w slot (λ c. record c { block = b }) ds in
    (
      record s { contexts = es },
      b,
      rw marked (
          rw (contributed-others w now slot cs ds same confirmed)
            (ap (λ (c : ConsensusContext). merged w now slot s ds c (others w now slot cs)) read)),
      Perm.trans (sort_messages-perm [] (own.messages ++ others w now slot cs))
          (shared-perm w now slot cs found distinct),
      sort_messages-IsSorted [] (own.messages ++ others w now slot cs) tt,
      refl,
      refl,
      refl,
      λ a t.
          entry_at-update_entry now t slot a w (λ c. record c { block = b }) ds
          ∙ rw (SameRows-entry_at now cs ds a t same) refl,
    )
