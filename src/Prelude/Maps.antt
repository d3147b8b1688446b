-- ===== src/Prelude/Maps.antt =====
-- `std::unordered_map` as an association list in iteration order. A new key goes to the end; the
-- order of a real table is unspecified, so what depends on it is stated for every order.
use mathlib.Core.Path.{◌≡◌, refl}
use mathlib.Core.Logic.{ite}
use mathlib.Core.List.{List, [], ◌∷◌, ◌++◌}
use mathlib.Core.Option.{Option, none, some}
use mathlib.Core.Option
use native.Mathlib.Omega.{arith}

abbrev pub Map {ℓ} : Type ℓ → Type ℓ → Type ℓ
Map K V = List (K × V)

module _ {ℓ} {K V : Type ℓ} (dec : Discrete K) where
  unfoldable pub find : K → Map K V → Option V
  find k [] = none
  find k ((j, v) ∷ m) = ite (dec j k) (some v) (find k m)

  -- `f(m[k])`: an absent key is given the value `d` first.
  unfoldable pub modify : K → V → (V → V) → Map K V → Map K V
  modify k d f [] = (k, f d) ∷ []
  modify k d f ((j, v) ∷ m) = ite (dec j k) ((j, f v) ∷ m) ((j, v) ∷ modify k d f m)

  -- `m.try_emplace(k, v)` and `m.emplace(k, v)` keep the value of a key that is there.
  unfoldable pub emplace : K → V → Map K V → Map K V
  unfolding modify
  emplace k v m = modify k v (λ w. w) m

  -- `m.erase(k)`
  unfoldable pub remove : K → Map K V → Map K V
  remove k [] = []
  remove k ((j, v) ∷ m) = ite (dec j k) (remove k m) ((j, v) ∷ remove k m)

  -- The value that `m[k]` reads.
  abbrev pub at_or : V → K → Map K V → V
  at_or d k m = Option.get_or (find k m) d

  pub find-modify :
      (q k : K) (d : V) (f : V → V) (m : Map K V)
      → find q (modify k d f m) ≡ ite (dec k q) (some (f (at_or d k m))) (find q m)
  unfolding find modify
  find-modify q k d f [] = refl
  find-modify q k d f ((j, v) ∷ m) = ground (arith, find-modify q k d f m)

  pub find-remove : (q k : K) (m : Map K V) → find q (remove k m) ≡ ite (dec k q) none (find q m)
  unfolding find remove
  find-remove q k [] = ground arith
  find-remove q k ((j, v) ∷ m) = ground (arith, find-remove q k m)

  -- A new entry at the end is read where no earlier one is.
  pub find-append_last :
      (q k : K) (v : V) (m : Map K V)
      → find q (m ++ (k, v) ∷ [])
        ≡ elim (find q m) [ some w ↦ some w | none ↦ ite (dec k q) (some v) none ]
  unfolding find
  find-append_last q k v [] = refl
  find-append_last q k v ((j, w) ∷ m) = ground (arith, find-append_last q k v m)
