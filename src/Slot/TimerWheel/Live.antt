-- ===== src/Slot/TimerWheel/Live.antt =====
-- Which callbacks a tick makes: the wheel as a sequence of subscriptions, each live or cancelled.
use mathlib.Core.List.Perm
use blockchain_messaging_sys.Prelude.{
  ℕ, zero, suc, ◌+◌, ◌-◌, ◌^◌, ◌<◌, ◌≡◌, refl, sym, ap, subst, ◌∙◌, true, List, [], ◌∷◌, ◌++◌, Perm,
  Option, none, some, Map, modify, emplace, remove, map, ℕ_discrete, if_pos, if_neg, ok, fault,
  arith, length, length-append, set,
}
use blockchain_messaging_sys.Slot.TimerWheel.{
  Subscription, TimerWheel, new_wheel, subscribe, unsubscribe, tick,
}

-- What the owners of subscriptions do. A subscription is known by its id.
pub data Call (C : Type 0) : Type 0 where
  subscribes : C → Call C
  cancels : ℕ → Call C

-- The contract: the n-th subscription's callback, until it is cancelled.
abbrev pub Ledger : Type 0 → Type 0
Ledger C = List (Option C)

attached : ℕ → Subscription
attached id = record { id = id; is_attached = true }

module _ {C : Type 0} where
  pub enter : Call C → Ledger C → Ledger C
  enter (subscribes c) l = l ++ some c ∷ []
  enter (cancels id) l = set l id none

  pub ledger_of : List (Call C) → Ledger C → Ledger C
  ledger_of [] l = l
  ledger_of (c ∷ cs) l = ledger_of cs (enter c l)

  pub live : Ledger C → List C
  live [] = []
  live (none ∷ l) = live l
  live (some c ∷ l) = c ∷ live l

  -- A wheel after a call, of a subscription that has not been moved from.
  pub call : Call C → TimerWheel C → TimerWheel C
  unfolding subscribe unsubscribe attached
  call (subscribes c) w = (subscribe c w).0
  call (cancels id) w = elim (unsubscribe (attached id) w) [ ok w' ↦ w' | fault _ ↦ w ]

  pub call_all : List (Call C) → TimerWheel C → TimerWheel C
  call_all [] w = w
  call_all (c ∷ cs) w = call_all cs (call c w)

  -- The table that stands for a ledger, from the id n on.
  numbered : ℕ → Ledger C → Map ℕ C
  numbered n [] = []
  numbered n (none ∷ l) = numbered (suc n) l
  numbered n (some c ∷ l) = (n, c) ∷ numbered (suc n) l

  emplace-numbered :
      (n k : ℕ) (c : C) (l : Ledger C)
      → k ≡ n + length l
      → emplace ℕ_discrete k c (numbered n l) ≡ numbered n (l ++ some c ∷ [])
  unfolding emplace modify numbered
  emplace-numbered n k c [] h = let e : k ≡ n = omega (arith, h) in rw e refl
  emplace-numbered n k c (none ∷ l) h = emplace-numbered (suc n) k c l (omega (arith, h))
  emplace-numbered n k c (some d ∷ l) h =
      if_neg (ℕ_discrete n k) (λ e. omega (arith, h, e)) _ _
      ∙ ap (◌∷◌ (n, d)) (emplace-numbered (suc n) k c l (omega (arith, h)))

  remove-below :
      (n k : ℕ) (l : Ledger C) → k < n → remove ℕ_discrete k (numbered n l) ≡ numbered n l
  unfolding remove numbered
  remove-below n k [] h = refl
  remove-below n k (none ∷ l) h = remove-below (suc n) k l (omega arith)
  remove-below n k (some d ∷ l) h =
      if_neg (ℕ_discrete n k) (λ e. omega (arith, h, e)) _ _
      ∙ ap (◌∷◌ (n, d)) (remove-below (suc n) k l (omega arith))

  remove-numbered :
      (n i k : ℕ) (l : Ledger C)
      → k ≡ n + i
      → remove ℕ_discrete k (numbered n l) ≡ numbered n (set l i none)
  unfolding remove numbered
  remove-numbered n i k [] h = refl
  remove-numbered n zero k (none ∷ l) h = remove-below (suc n) k l (omega (arith, h))
  remove-numbered n zero k (some d ∷ l) h =
      if_pos (ℕ_discrete n k) (omega (arith, h)) _ _ ∙ remove-below (suc n) k l (omega (arith, h))
  remove-numbered n (suc i) k (none ∷ l) h = remove-numbered (suc n) i k l (omega (arith, h))
  remove-numbered n (suc i) k (some d ∷ l) h =
      if_neg (ℕ_discrete n k) (λ e. omega (arith, h, e)) _ _
      ∙ ap (◌∷◌ (n, d)) (remove-numbered (suc n) i k l (omega (arith, h)))

  -- The wheel's state is the ledger's.
  Stands : TimerWheel C → Ledger C → Type 0
  unfolding numbered
  Stands w l = (w.callbacks ≡ numbered 0 l) × (w.counter ≡ length l)

  length-set : (l : Ledger C) (i : ℕ) (o : Option C) → length (set l i o) ≡ length l
  length-set [] i o = refl
  length-set (x ∷ l) zero o = refl
  length-set (x ∷ l) (suc i) o = ap suc (length-set l i o)

  call-Stands :
      (c : Call C) (w : TimerWheel C) (l : Ledger C)
      → length l + 1 < 2 ^ 64
      → Stands w l
      → Stands (call c w) (enter c l)
  unfolding call enter subscribe Stands
  call-Stands (subscribes c) w l room (table, count) = (
    ap (emplace ℕ_discrete w.counter c) table
        ∙ emplace-numbered 0 w.counter c l (omega (arith, count)),
    omega (arith, count, room, length-append l (some c ∷ [])),
  )
  call-Stands (cancels id) w l room (table, count) = (
    ap (remove ℕ_discrete id) table ∙ remove-numbered 0 id id l (omega arith),
    omega (arith, count, length-set l id none),
  )

  calls-Stands :
      (cs : List (Call C)) (w : TimerWheel C) (l : Ledger C)
      → length l + length cs < 2 ^ 64 - 1
      → Stands w l
      → Stands (call_all cs w) (ledger_of cs l)
  unfolding call_all ledger_of enter
  calls-Stands [] w l room h = h
  calls-Stands (subscribes c ∷ cs) w l room h =
      calls-Stands cs (call (subscribes c) w) (l ++ some c ∷ [])
        (omega (arith, room, length-append l (some c ∷ [])))
        (call-Stands (subscribes c) w l (omega arith) h)
  calls-Stands (cancels id ∷ cs) w l room h =
      calls-Stands cs (call (cancels id) w) (set l id none)
        (omega (arith, room, length-set l id none)) (call-Stands (cancels id) w l (omega arith) h)

  callbacks-numbered : (n : ℕ) (l : Ledger C) → map (λ (e : ℕ × C). e.1) (numbered n l) ≡ live l
  unfolding numbered live
  callbacks-numbered n [] = refl
  callbacks-numbered n (none ∷ l) = callbacks-numbered (suc n) l
  callbacks-numbered n (some c ∷ l) = ap (◌∷◌ c) (callbacks-numbered (suc n) l)

  -- After any sequence of fewer than 2 ^ 64 - 1 calls of subscribe, and of unsubscribe on
  -- subscriptions that were not moved from, a tick makes each callback that was subscribed and has
  -- not been cancelled since, once for each subscription, and no other; in which order is not said.
  pub tick-call_all :
      (slot : ℕ) (cs : List (Call C))
      → length cs < 2 ^ 64 - 1
      → Perm (tick (call_all cs (new_wheel C slot))) (live (ledger_of cs []))
  unfolding tick Stands numbered
  tick-call_all slot cs room =
      let (table, _) = calls-Stands cs (new_wheel C slot) [] (omega arith) (refl, refl) in
      subst (λ l. Perm l (live (ledger_of cs [])))
        (sym (ap (map (λ (e : ℕ × C). e.1)) table ∙ callbacks-numbered 0 (ledger_of cs [])))
        (Perm.refl (live (ledger_of cs [])))
