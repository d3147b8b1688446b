-- ===== src/Storage/View/Refines.antt =====
-- ConsensusStorage implements its view.
use mathlib.Core.Option
use blockchain_messaging_sys.Prelude.{
  ℕ, [], Str, str_dec, ℕ_discrete, find, modify, emplace, find-modify, at_or, ◌≡◌, arith,
}
use blockchain_messaging_sys.Itf.{NodeConfiguration}
use blockchain_messaging_sys.Storage.State.{ConsensusStorage, Contexts, fresh_context, init_entry}
use blockchain_messaging_sys.Storage.View.{Answer, View, write, view_of}

abbrev pub Lookup : Contexts → View
Lookup cs a t = find ℕ_discrete t (at_or str_dec [] a cs)

pub lookup-init_entry :
    (now t : ℕ) (a b : Str) (u : ℕ) (cs : Contexts)
    → Lookup (init_entry now t a cs) b u ≡ write now a t (λ c. c) (Lookup cs) b u
unfolding init_entry emplace
lookup-init_entry now t a b u cs =
    rw (find-modify str_dec b a [] (modify ℕ_discrete t (fresh_context now) (λ c. c)) cs) (
      ground
        (arith, find-modify ℕ_discrete u t (fresh_context now) (λ c. c) (at_or str_dec [] a cs)))

-- The storage holds what the view says, at every address and slot.
abbrev pub Holds : NodeConfiguration → View → ConsensusStorage → Type 0
Holds config v s = (s.node_configuration ≡ config) × ((a : Str) (t : ℕ) → view_of s a t ≡ v a t)

-- The same answer, and the view holds again.
abbrev Implements : NodeConfiguration → View × Answer → ConsensusStorage × Answer → Type 0
Implements config (v, answer) (s, answer') = (answer' ≡ answer) × Holds config v s
