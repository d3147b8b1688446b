-- ===== src/Storage/Election/Best.antt =====
-- Who wins the election of a slot, and that every node elects the same.
use mathlib.Core.List.Perm
use mathlib.Core.List.{Mem}
use native.Mathlib.Bridge.{le_prop}
use blockchain_messaging_sys.Prelude.{
  ℕ, ◌%◌, ◌≤◌, ◌≡◌, ◌≢◌, ◌⊎◌, inl, inr, refl, sym, ap, ◌∙◌, Bool, true, false, List, [], ◌∷◌, Perm,
  Str, All, Any, ◌==◌, arith, ok, Bool-cases, subst,
}
use blockchain_messaging_sys.Storage.State.{Contexts, Row, entry}
use blockchain_messaging_sys.Storage.Election.{beats, elect, elected, accumulate}
use blockchain_messaging_sys.Storage.Election.Votes.{
  Vote, votes, total, accumulate_parity, total_perm, DistinctValues, DistinctValues-eq, mem_of_any,
  all_of_mem,
}

-- A vote that no other vote beats.
abbrev pub IsBest : Bool → Vote → List Vote → Type 0
IsBest is_odd best vs = All (λ x. beats is_odd x.1 best.1 ≡ false) vs

beats_trans :
    (is_odd : Bool) (u v y : ℕ)
    → beats is_odd y v ≡ true
    → beats is_odd y u ≡ false
    → beats is_odd v u ≡ false
unfolding beats
beats_trans true u v y h k = ground arith
beats_trans false u v y h k = ground arith

beats_stays :
    (is_odd : Bool) (u v y : ℕ)
    → beats is_odd y v ≡ false
    → beats is_odd v u ≡ false
    → beats is_odd y u ≡ false
unfolding beats
beats_stays true u v y h k = ground arith
beats_stays false u v y h k = ground arith

elect_better :
    (is_odd : Bool) (a b : Str) (v now slot : ℕ) (row : Row) (cs : Contexts)
    → beats is_odd (entry now slot row).election_value v ≡ true
    → elect is_odd a v now slot ((b, row) ∷ cs)
      ≡ elect is_odd b (entry now slot row).election_value now slot cs
unfolding elect
elect_better is_odd a b v now slot row cs h = rw h

elect_worse :
    (is_odd : Bool) (a b : Str) (v now slot : ℕ) (row : Row) (cs : Contexts)
    → beats is_odd (entry now slot row).election_value v ≡ false
    → elect is_odd a v now slot ((b, row) ∷ cs) ≡ elect is_odd a v now slot cs
unfolding elect
elect_worse is_odd a b v now slot row cs h = rw h

-- One of the votes, and none of them beats it.
abbrev Wins : Bool → Str → List Vote → Type 0
Wins is_odd w vs = (u : ℕ) × Any (λ y. (w, u) ≡ y) vs × IsBest is_odd (w, u) vs

elect-Wins_step :
    (is_odd : Bool) (a b : Str) (v now slot : ℕ) (row : Row) (cs : Contexts)
    → Wins is_odd (elect is_odd a v now slot cs) ((a, v) ∷ votes now slot cs)
    → Wins is_odd
        (elect is_odd b (entry now slot row).election_value now slot cs)
        ((b, (entry now slot row).election_value) ∷ votes now slot cs)
    → Wins is_odd
        (elect is_odd a v now slot ((b, row) ∷ cs))
        ((a, v) ∷ votes now slot ((b, row) ∷ cs))
elect-Wins_step is_odd a b v now slot row cs (u, found, best) (u', found', best') =
    let y : ℕ = (entry now slot row).election_value in
    elim (Bool-cases (beats is_odd y v)) [
      | inl better ↦
          subst (λ w. Wins is_odd w ((a, v) ∷ votes now slot ((b, row) ∷ cs)))
            (sym (elect_better is_odd a b v now slot row cs better))
            (u', inr found', (beats_trans is_odd u' v y better best'.0, (best'.0, best'.1)))
      | inr worse ↦
          subst (λ w. Wins is_odd w ((a, v) ∷ votes now slot ((b, row) ∷ cs)))
            (sym (elect_worse is_odd a b v now slot row cs worse))
            (
              u,
              elim found [ inl here ↦ inl here | inr there ↦ inr (inr there) ],
              (best.0, (beats_stays is_odd u v y worse best.0, best.1)),
            )
    ]

-- The loop returns one of the votes that it saw, and none of those beats it.
elect-Wins :
    (is_odd : Bool) (a : Str) (v now slot : ℕ) (cs : Contexts)
    → Wins is_odd (elect is_odd a v now slot cs) ((a, v) ∷ votes now slot cs)
unfolding elect beats
elect-Wins true a v now slot [] = (v, inl refl, (ground arith, tt))
elect-Wins false a v now slot [] = (v, inl refl, (ground arith, tt))
elect-Wins is_odd a v now slot ((b, row) ∷ cs) =
    elect-Wins_step is_odd a b v now slot row cs (elect-Wins is_odd a v now slot cs)
      (elect-Wins is_odd b (entry now slot row).election_value now slot cs)

-- The greatest of the votes if their sum is odd, the least if it is even.
abbrev pub IsExtreme : Vote → List Vote → Type 0
IsExtreme best vs =
    ((total vs % 2 ≡ 1) × All (λ x. x.1 ≤ best.1) vs)
    ⊎ ((total vs % 2 ≡ 0) × All (λ x. best.1 ≤ x.1) vs)

All-le : (best : Vote) (vs : List Vote) → IsBest true best vs → All (λ x. x.1 ≤ best.1) vs
unfolding beats
All-le best [] h = tt
All-le best (x ∷ vs) h = (ground arith, All-le best vs h.1)

All-ge : (best : Vote) (vs : List Vote) → IsBest false best vs → All (λ x. best.1 ≤ x.1) vs
unfolding beats
All-ge best [] h = tt
All-ge best (x ∷ vs) h = (ground arith, All-ge best vs h.1)

-- What `elected` tests is the parity of the sum of the votes.
odd_sum :
    (now slot : ℕ) (cs : Contexts)
    → (accumulate 0 now slot cs % 2 == 1) ≡ (total (votes now slot cs) % 2 == 1)
odd_sum now slot cs = ap (λ (n : ℕ). n == 1) (omega (arith, accumulate_parity 0 now slot cs))

IsBest-IsExtreme :
    (best : Vote) (vs : List Vote) → IsBest (total vs % 2 == 1) best vs → IsExtreme best vs
IsBest-IsExtreme best vs h = elim (Bool-cases (total vs % 2 == 1)) [
  | inl odd ↦ inl (ground arith, All-le best vs (rw odd at h))
  | inr even ↦ inr (ground arith, All-ge best vs (rw even at h))
]

-- With at least one known node, the election names a node whose vote is among the votes of the slot
-- and is the greatest of them if their sum is odd, the least if it is even; the 32-bit accumulator
-- of the sum may wrap.
pub elected-IsExtreme :
    (now slot : ℕ) (cs : Contexts)
    → cs ≢ []
    → (w : Str) × (u : ℕ) × (elected now slot cs ≡ ok w)
      × Any (λ y. (w, u) ≡ y) (votes now slot cs)
      × IsExtreme (w, u) (votes now slot cs)
unfolding elected
elected-IsExtreme now slot [] h = absurd (h refl)
elected-IsExtreme now slot ((a, row) ∷ rest) h =
    let cs : Contexts = (a, row) ∷ rest in
    let is_odd : Bool = accumulate 0 now slot cs % 2 == 1 in
    let v : ℕ = (entry now slot row).election_value in
    let w : Str = elect is_odd a v now slot cs in
    let (u, found, best) = elect-Wins is_odd a v now slot cs in
    (
      w,
      u,
      refl,
      elim found [ inl here ↦ inl here | inr there ↦ there ],
      IsBest-IsExtreme (w, u) (votes now slot cs)
          (subst (λ b. IsBest b (w, u) (votes now slot cs)) (odd_sum now slot cs) best.1),
    )

extreme_unique :
    (x y : Vote) (vs ws : List Vote)
    → Perm vs ws
    → Mem x vs
    → Mem y vs
    → IsExtreme x vs
    → IsExtreme y ws
    → x.1 ≡ y.1
extreme_unique x y vs ws p m n h k =
    let m' : Mem x ws = (Perm.mem_iff p).0 m in
    let sums : total vs ≡ total ws = total_perm p in
    elim h [
      | inl (odd, top) ↦ elim k [
        | inl (_, top') ↦
            omega (arith, all_of_mem (λ z. le_prop) vs top n, all_of_mem (λ z. le_prop) ws top' m')
        | inr (even, _) ↦ absurd (omega arith)
      ]
      | inr (even, low) ↦ elim k [
        | inl (odd, _) ↦ absurd (omega arith)
        | inr (_, low') ↦
            omega (arith, all_of_mem (λ z. le_prop) vs low n, all_of_mem (λ z. le_prop) ws low' m')
      ]
    ]

cons≢nil {ℓ} : {A : Type ℓ} {x : A} {l : List A} → x ∷ l ≢ []
cons≢nil = λ e. cc

elected_empty : (now now' slot : ℕ) → elected now slot [] ≡ elected now' slot []
unfolding elected
elected_empty now now' slot = refl

-- Two nodes that have received the same votes for a slot, in whatever order their tables hold them,
-- elect the same validator, provided that no two votes have the same value.
pub elected-agree :
    (now now' slot : ℕ) (cs ds : Contexts)
    → Perm (votes now slot cs) (votes now' slot ds)
    → DistinctValues (votes now slot cs)
    → elected now slot cs ≡ elected now' slot ds
elected-agree now now' slot [] [] p d = elected_empty now now' slot
elected-agree now now' slot [] (x ∷ ds) p d = absurd (cons≢nil (sym (Perm.nil-eq p)))
elected-agree now now' slot (x ∷ cs) [] p d = absurd (cons≢nil (Perm.eq-nil p))
elected-agree now now' slot (x ∷ cs) (y ∷ ds) p d =
    let (w, u, e, found, best) = elected-IsExtreme now slot (x ∷ cs) cons≢nil in
    let (w', u', e', found', best') = elected-IsExtreme now' slot (y ∷ ds) cons≢nil in
    let vs : List Vote = votes now slot (x ∷ cs) in
    let m : Mem (w, u) vs = mem_of_any vs found in
    let n : Mem (w', u') vs = (Perm.mem_iff p).1 (mem_of_any (votes now' slot (y ∷ ds)) found') in
    e
    ∙ ap ok (DistinctValues-eq vs d m n (extreme_unique (w, u) (w', u') vs _ p m n best best'))
    ∙ sym e'
