-- ===== src/Timer/Totals.antt =====
-- Sums over the threads of a timer, and how a step changes them.
use blockchain_messaging_sys.Prelude.{
  ℕ, zero, suc, ◌+◌, ◌≤◌, ◌≡◌, ◌⊎◌, inl, inr, refl, ap, List, [], ◌∷◌, ◌++◌, All, arith,
}
use blockchain_messaging_sys.Timer.{Pc, Timer, Action, System, next, move, behind}

abbrev pub total : (Pc → ℕ) → List Pc → ℕ
total w [] = 0
total w (pc ∷ pcs) = w pc + total w pcs

pub total-append : (w : Pc → ℕ) (xs ys : List Pc) → total w (xs ++ ys) ≡ total w xs + total w ys
total-append w [] ys = omega arith
total-append w (x ∷ xs) ys = omega (arith, total-append w xs ys)

All-le_weaken :
    (w : Pc → ℕ) (k n : ℕ) (xs : List Pc) → All (λ pc. w pc ≤ n) xs → All (λ pc. w pc ≤ k + n) xs
All-le_weaken w k n [] h = tt
All-le_weaken w k n (x ∷ xs) h = (omega (arith, h.0), All-le_weaken w k n xs h.1)

pub All-le-total : (w : Pc → ℕ) (pcs : List Pc) → All (λ pc. w pc ≤ total w pcs) pcs
All-le-total w [] = tt
All-le-total w (pc ∷ pcs) =
    (omega arith, All-le_weaken w (w pc) (total w pcs) pcs (All-le-total w pcs))

-- One thread of a list moves, the others stay where they are.
pub record Moved (t : Timer) (calls : ℕ) (pcs : List Pc) (s : System) : Type 0 where
  pub before : List Pc
  pub pc : Pc
  pub after : List Pc
  pub threads : pcs ≡ before ++ pc ∷ after
  pub timer' : s.timer ≡ (next t pc).timer
  pub threads' : s.threads ≡ before ++ (next t pc).pc ∷ (after ++ (next t pc).started)
  pub calls' : s.calls ≡ calls + (next t pc).calls

Moved-behind :
    (t : Timer) (calls : ℕ) (pc : Pc) (pcs : List Pc) (s : System)
    → Moved t calls pcs s
    → Moved t calls (pc ∷ pcs) (behind pc s)
Moved-behind t calls pc pcs s m = record {
  before = pc ∷ m.before;
  pc = m.pc;
  after = m.after;
  threads = ap (◌∷◌ pc) m.threads;
  timer' = m.timer';
  threads' = ap (◌∷◌ pc) m.threads';
  calls' = m.calls';
}

-- An index that names no thread moves none.
pub move_cases :
    (t : Timer) (calls i : ℕ) (pcs : List Pc)
    → (move t calls i pcs ≡ record { timer = t; threads = pcs; calls = calls })
      ⊎ Moved t calls pcs (move t calls i pcs)
unfolding move
move_cases t calls i [] = inl refl
move_cases t calls zero (pc ∷ pcs) = inr (record {
  before = [];
  pc = pc;
  after = pcs;
  threads = refl;
  timer' = refl;
  threads' = refl;
  calls' = refl;
})
move_cases t calls (suc i) (pc ∷ pcs) = elim (move_cases t calls i pcs) [
  | inl e ↦ inl (ap (behind pc) e)
  | inr m ↦ inr (Moved-behind t calls pc pcs (move t calls i pcs) m)
]

-- The sums before and after a step.
pub total-Moved :
    (w : Pc → ℕ) {t : Timer} {calls : ℕ} {pcs : List Pc} {s : System} (m : Moved t calls pcs s)
    → total w s.threads + w m.pc ≡ total w pcs + w (next t m.pc).pc + total w (next t m.pc).started
total-Moved w {t} {calls} {pcs} {s} m =
    let a : Action = next t m.pc in
    omega (
      arith,
      ap (total w) m.threads,
      ap (total w) m.threads',
      total-append w m.before (m.pc ∷ m.after),
      total-append w m.before (a.pc ∷ (m.after ++ a.started)),
      total-append w m.after a.started,
    )

pub Moved-le :
    (w : Pc → ℕ) {t : Timer} {calls : ℕ} {pcs : List Pc} {s : System} (m : Moved t calls pcs s)
    → w m.pc ≤ total w pcs
Moved-le w m = omega (arith, ap (total w) m.threads, total-append w m.before (m.pc ∷ m.after))
