-- ===== src/Storage/Election/Votes.antt =====
-- The election values of a slot as votes, and the parity that decides the election.
use mathlib.Core.List.{Permᴰ, Mem, not-mem-nil, mem-cons, mem-cons_of_mem}
use mathlib.Core.Logic.{∥∥₁_elim}
use mathlib.Core.Logic.Or
use mathlib.Core.HLevel.{hedberg}
use native.Mathlib.Nat.{ℕ_set}
use blockchain_messaging_sys.Prelude.{
  ℕ, ◌+◌, ◌%◌, ◌≡◌, ◌≢◌, refl, sym, ap, ◌∙◌, List, [], ◌∷◌, Perm, Str, All, Any, arith, inl, inr,
  subst, str_dec,
}
use blockchain_messaging_sys.Storage.State.{Contexts, entry}
use blockchain_messaging_sys.Storage.Election.{sign_extend, add_to_int, accumulate}

abbrev pub Vote : Type 0
Vote = Str × ℕ

abbrev pub votes : ℕ → ℕ → Contexts → List Vote
votes now slot [] = []
votes now slot ((a, row) ∷ cs) = (a, (entry now slot row).election_value) ∷ votes now slot cs

abbrev pub total : List Vote → ℕ
total [] = 0
total ((a, v) ∷ vs) = v + total vs

add_to_int_parity : (p v : ℕ) → add_to_int p v % 2 ≡ (p + v) % 2
unfolding add_to_int sign_extend
add_to_int_parity p v = ground arith

-- The 32-bit accumulator may wrap, and its parity is still that of the sum.
pub accumulate_parity :
    (p now slot : ℕ) (cs : Contexts)
    → accumulate p now slot cs % 2 ≡ (p + total (votes now slot cs)) % 2
unfolding accumulate
accumulate_parity p now slot [] = ground arith
accumulate_parity p now slot ((a, row) ∷ cs) =
    let v : ℕ = (entry now slot row).election_value in
    omega (arith, accumulate_parity (add_to_int p v) now slot cs, add_to_int_parity p v)

total_permᴰ : {vs ws : List Vote} → Permᴰ vs ws → total vs ≡ total ws
total_permᴰ Permᴰ.nil = refl
total_permᴰ (Permᴰ.cons e h) = omega (arith, total_permᴰ h, ap (λ (v : Vote). v.1) e)
total_permᴰ (Permᴰ.swap e f) = omega (arith, ap (λ (v : Vote). v.1) e, ap (λ (v : Vote). v.1) f)
total_permᴰ (Permᴰ.trans h k) = total_permᴰ h ∙ total_permᴰ k

pub total_perm : {vs ws : List Vote} → Perm vs ws → total vs ≡ total ws
total_perm h = ∥∥₁_elim h (ℕ_set _ _) total_permᴰ

-- No two votes have the same value.
abbrev pub DistinctValues : List Vote → Type 0
DistinctValues [] = Unit
DistinctValues (x ∷ vs) = All (λ y. y.1 ≢ x.1) vs × DistinctValues vs

pub mem_of_any : {A : Type 0} {x : A} (l : List A) → Any (λ y. x ≡ y) l → Mem x l
mem_of_any [] h = absurd h
mem_of_any (y ∷ l) (inl h) = mem-cons.1 (Or.inl h)
mem_of_any (y ∷ l) (inr h) = mem-cons_of_mem y (mem_of_any l h)

pub all_of_mem {ℓ} :
    {A : Type ℓ} {P : A → Type 0} (p : (a : A) → IsProp (P a)) {x : A} (l : List A)
    → All P l
    → Mem x l
    → P x
all_of_mem p [] h m = absurd (not-mem-nil m)
all_of_mem {P} p {x} (y ∷ l) h m =
    Or.elim (p x) (mem-cons.0 m) (λ e. subst P (sym e) h.0) (all_of_mem p l h.1)

-- Of distinct values one is cast by one node only.
pub DistinctValues-eq :
    {x y : Vote} (vs : List Vote) → DistinctValues vs → Mem x vs → Mem y vs → x.1 ≡ y.1 → x.0 ≡ y.0
DistinctValues-eq [] d m n e = absurd (not-mem-nil m)
DistinctValues-eq {x} {y} (z ∷ vs) d m n e =
    Or.elim eq (mem-cons.0 m)
      (λ p.
        Or.elim eq (mem-cons.0 n) (λ q. ap (λ (v : Vote). v.0) (p ∙ sym q))
          (λ r. absurd (all_of_mem differ vs d.0 r (sym e ∙ ap (λ (v : Vote). v.1) p))))
      (λ r.
        Or.elim eq (mem-cons.0 n)
          (λ q. absurd (all_of_mem differ vs d.0 r (e ∙ ap (λ (v : Vote). v.1) q)))
          (λ t. DistinctValues-eq vs d.1 r t e))
  where
    eq : IsProp (x.0 ≡ y.0)
    eq = hedberg str_dec _ _

    differ : (v : Vote) → IsProp (v.1 ≢ z.1)
    differ v = hlevel
