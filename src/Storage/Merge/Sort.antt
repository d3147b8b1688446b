-- ===== src/Storage/Merge/Sort.antt =====
-- The sort of mergeContributors, and what every sort by timestamp has in common with it.
use mathlib.Core.List.Perm
use mathlib.Core.List.{Mem, mem-cons, mem-cons_self, perm_middle, append-nil}
use mathlib.Core.Logic.Or
use mathlib.Core.Path.{ap₂}
use native.Mathlib.Bridge.{le_prop}
use blockchain_messaging_sys.Prelude.{
  ℕ, ◌≤◌, ◌≡◌, ◌≢◌, refl, sym, List, [], ◌∷◌, ◌++◌, Perm, All, arith, ltb, Bool-cases, inl, inr,
  subst, ℕ_discrete,
}
use blockchain_messaging_sys.Itf.{Message}
use blockchain_messaging_sys.Storage.Merge.{insert_message, sort_messages}
use blockchain_messaging_sys.Storage.Election.Votes.{all_of_mem}

-- By timestamp, the oldest first.
abbrev pub IsSorted : List Message → Type 0
IsSorted [] = Unit
IsSorted (m ∷ ms) = All (λ n. m.timestamp ≤ n.timestamp) ms × IsSorted ms

insert_message-perm : (m : Message) (ms : List Message) → Perm (insert_message m ms) (m ∷ ms)
unfolding insert_message
insert_message-perm m [] = Perm.refl (m ∷ [])
insert_message-perm m (n ∷ ns) = elim (Bool-cases (ltb m.timestamp n.timestamp)) [
  | inl before ↦ rw before (Perm.refl (m ∷ n ∷ ns))
  | inr after ↦ rw after (Perm.trans (Perm.cons n (insert_message-perm m ns)) (Perm.swap m n ns))
]

pub sort_messages-perm : (sorted ms : List Message) → Perm (sort_messages sorted ms) (sorted ++ ms)
unfolding sort_messages
sort_messages-perm sorted [] = rw append-nil (Perm.refl sorted)
sort_messages-perm sorted (m ∷ ms) = Perm.trans (sort_messages-perm (insert_message m sorted) ms) (
    Perm.trans (Perm.append_right ms (insert_message-perm m sorted))
      (Perm.symm (perm_middle sorted ms)))

All-insert :
    (P : Message → Type 0) (m : Message) (ms : List Message)
    → P m
    → All P ms
    → All P (insert_message m ms)
unfolding insert_message
All-insert P m [] h hs = (h, tt)
All-insert P m (n ∷ ns) h hs = elim (Bool-cases (ltb m.timestamp n.timestamp)) [
  | inl before ↦ rw before (h, hs)
  | inr after ↦ rw after (hs.0, All-insert P m ns h hs.1)
]

All-le_trans :
    (k n : ℕ) (ms : List Message)
    → k ≤ n
    → All (λ m. n ≤ m.timestamp) ms
    → All (λ m. k ≤ m.timestamp) ms
All-le_trans k n [] h hs = tt
All-le_trans k n (m ∷ ms) h hs = (omega arith, All-le_trans k n ms h hs.1)

insert_message-IsSorted :
    (m : Message) (ms : List Message) → IsSorted ms → IsSorted (insert_message m ms)
unfolding insert_message
insert_message-IsSorted m [] h = (tt, tt)
insert_message-IsSorted m (n ∷ ns) h = elim (Bool-cases (ltb m.timestamp n.timestamp)) [
  | inl before ↦
      rw before ((ground arith, All-le_trans m.timestamp n.timestamp ns (ground arith) h.0), h)
  | inr after ↦ rw after (
    All-insert (λ x. n.timestamp ≤ x.timestamp) m ns (ground arith) h.0,
    insert_message-IsSorted m ns h.1,
  )
]

pub sort_messages-IsSorted :
    (sorted ms : List Message) → IsSorted sorted → IsSorted (sort_messages sorted ms)
unfolding sort_messages
sort_messages-IsSorted sorted [] h = h
sort_messages-IsSorted sorted (m ∷ ms) h =
    sort_messages-IsSorted (insert_message m sorted) ms (insert_message-IsSorted m sorted h)

-- No two messages have the same timestamp.
abbrev pub DistinctTimes : List Message → Type 0
DistinctTimes [] = Unit
DistinctTimes (m ∷ ms) = All (λ n. n.timestamp ≢ m.timestamp) ms × DistinctTimes ms

message_set : IsSet Message
message_set = hlevel ℕ_discrete

head_eq :
    (m n : Message) (ms ns : List Message)
    → All (λ x. x.timestamp ≢ m.timestamp) ms
    → IsSorted (m ∷ ms)
    → IsSorted (n ∷ ns)
    → Mem m (n ∷ ns)
    → Mem n (m ∷ ms)
    → IsProp (m ≡ n)
    → m ≡ n
head_eq m n ms ns distinct h k p q prop =
    Or.elim prop (mem-cons.0 p) (λ e. e)
      (λ later.
        Or.elim prop (mem-cons.0 q) (λ e. sym e)
          (λ later'. absurd (
            all_of_mem (λ x. hlevel) ms distinct later'
              (omega (
                arith,
                all_of_mem (λ x. le_prop) ms h.0 later',
                all_of_mem (λ x. le_prop) ns k.0 later,
              )))))

-- Messages with distinct timestamps have one sorted order only, so that any sort of them gives the
-- same list as the one here.
pub sorted_unique :
    (ms ns : List Message) → DistinctTimes ms → IsSorted ms → IsSorted ns → Perm ms ns → ms ≡ ns
sorted_unique [] [] d h k p = refl
sorted_unique [] (n ∷ ns) d h k p = Perm.nil-eq p
sorted_unique (m ∷ ms) [] d h k p = Perm.eq-nil p
sorted_unique (m ∷ ms) (n ∷ ns) d h k p =
    let e : m ≡ n =
      head_eq m n ms ns d.0 h k ((Perm.mem_iff p).0 mem-cons_self)
        ((Perm.mem_iff p).1 mem-cons_self) (message_set m n) in
    ap₂ ◌∷◌ e (
      sorted_unique ms ns d.1 h.1 k.1
        (Perm.cons_inv (subst (λ x. Perm (m ∷ ms) (x ∷ ns)) (sym e) p)))
