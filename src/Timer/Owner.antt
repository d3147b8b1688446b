-- ===== src/Timer/Owner.antt =====
-- A timer with one owner: no two calls of setTimeout and setInterval at a time.
use blockchain_messaging_sys.Prelude.{
  ℕ, ◌+◌, ◌≤◌, ◌≡◌, ◌⊎◌, inl, inr, refl, sym, subst, List, [], ◌∷◌, arith,
}
use blockchain_messaging_sys.Timer.{
  Kind, Pc, Timer, System, Event, next, move, perform, run, new_system,
}
use blockchain_messaging_sys.Timer.Totals.{
  total, total-append, Moved, Moved-le, move_cases, total-Moved,
}
use blockchain_messaging_sys.Timer.Counter.{counted, IsCounted, perform-IsCounted}

-- Before, and past, the wait for the workers.
abbrev pub early : Pc → ℕ
early (Pc.checks _ _) = 1
early (Pc.waits _ _) = 1
early _ = 0

abbrev pub late : Pc → ℕ
late (Pc.activates _ _) = 1
late (Pc.counts _ _) = 1
late _ = 0

abbrev pub recording : Pc → ℕ
recording (Pc.records _ _) = 1
recording _ = 0

-- The calls under way.
abbrev pub callers : System → ℕ
callers s = total early s.threads + total late s.threads + total recording s.threads

-- A call begins only when none is under way.
abbrev pub IsOwned : List Event → System → Type 0
unfolding perform
IsOwned [] s = Unit
IsOwned (Event.enters kind delay ∷ es) s =
    (callers s ≡ 0) × IsOwned es (perform (Event.enters kind delay) s)
IsOwned (e ∷ es) s = IsOwned es (perform e s)

-- A step starts no call, and only the end of the wait brings a caller near the counter.
record Steps (t : Timer) (pc : Pc) : Type 0 where
  calling :
      early (next t pc).pc
        + late (next t pc).pc
        + recording (next t pc).pc
        + total early (next t pc).started
        + total late (next t pc).started
        + total recording (next t pc).started
      ≤ early pc + late pc + recording pc
  passing :
      (late (next t pc).pc
          + counted (next t pc).pc
          + total late (next t pc).started
          + total counted (next t pc).started
        ≤ late pc + counted pc)
      ⊎ ((early pc ≡ 1)
          × (t.counter ≡ 0)
          × (late (next t pc).pc
                + counted (next t pc).pc
                + total late (next t pc).started
                + total counted (next t pc).started
              ≤ 1))

next-Steps : (t : Timer) (pc : Pc) → Steps t pc
unfolding next
next-Steps t (Pc.checks kind delay) = ground arith
next-Steps t (Pc.waits kind delay) = ground arith
next-Steps t (Pc.records Kind.timeout delay) = ground arith
next-Steps t (Pc.records Kind.interval delay) = ground arith
next-Steps t pc = ground arith

abbrev pub IsSingle : System → Type 0
IsSingle s = (callers s ≤ 1) × (total late s.threads + total counted s.threads ≤ 1)

Moved-IsSingle :
    (s s' : System)
    → IsCounted s
    → IsSingle s
    → (m : Moved s.timer s.calls s.threads s') → IsSingle s'
Moved-IsSingle s s' counter (few, one) m =
    let steps : Steps s.timer m.pc = next-Steps s.timer m.pc in
    (
      omega (
        arith,
        few,
        steps.calling,
        total-Moved early m,
        total-Moved late m,
        total-Moved recording m,
      ),
      elim steps.passing [
        | inl less ↦ omega (arith, one, less, total-Moved late m, total-Moved counted m)
        | inr (waiting, none_left, less) ↦ omega (
          arith,
          counter,
          few,
          waiting,
          none_left,
          less,
          Moved-le early m,
          total-Moved late m,
          total-Moved counted m,
        )
      ],
    )

run-IsSingle :
    (es : List Event) (s : System) → IsCounted s → IsSingle s → IsOwned es s → IsSingle (run es s)
unfolding run perform
run-IsSingle [] s c h o = h
run-IsSingle (Event.enters kind delay ∷ es) s c h o =
    let s' : System = perform (Event.enters kind delay) s in
    let added : List Pc = Pc.checks kind delay ∷ [] in
    run-IsSingle es s' (perform-IsCounted (Event.enters kind delay) s c)
      (
        omega (
          arith,
          o.0,
          total-append early s.threads added,
          total-append late s.threads added,
          total-append recording s.threads added,
        ),
        omega (arith, h.1, total-append late s.threads added, total-append counted s.threads added),
      )
      o.1
run-IsSingle (Event.stops ∷ es) s c h o =
    run-IsSingle es (perform Event.stops s) (perform-IsCounted Event.stops s c) h o
run-IsSingle (Event.moves i ∷ es) s c h o =
    run-IsSingle es (perform (Event.moves i) s) (perform-IsCounted (Event.moves i) s c)
      (elim (move_cases s.timer s.calls i s.threads) [
        | inl e ↦ subst IsSingle (sym e) h
        | inr m ↦ Moved-IsSingle s (move s.timer s.calls i s.threads) c h m
      ])
      o

-- A timer that one owner uses, so that no call of setTimeout or setInterval begins while another is
-- under way, never has two workers: of all threads at most one is counted, which those are that
-- may still make a callback.
pub single_worker :
    (es : List Event) → IsOwned es new_system → total counted (run es new_system).threads ≤ 1
single_worker es owned =
    omega (arith, (run-IsSingle es new_system refl (omega arith, omega arith) owned).1)
