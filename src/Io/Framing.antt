-- ===== src/Io/Framing.antt =====
-- io::split and io::merge of node/src/io/Utils.hpp.
pub mod RoundTrip
use blockchain_messaging_sys.Prelude.{
  ℕ, zero, suc, ◌+◌, ◌-◌, ◌%◌, ◌^◌, ◌≤◌, ◌<◌, ◌≡◌, ◌≢◌, refl, sym, ap, ◌∙◌, Bool, true, false, ◌&&◌,
  List, [], ◌∷◌, ◌++◌, Option, none, some, Str, codes, length, take, drop, ltb, ◌==◌, if◌then◌else◌,
  Result, ok, fault, Fault, ◌>>=◌, All, arith, Bool-cases, inl, inr,
}

abbrev pub separator : Str
separator = codes "<@SEPARATOR#>"

unfoldable pub starts_with : Str → Str → Bool
starts_with [] s = true
starts_with (c ∷ cs) [] = false
starts_with (c ∷ cs) (d ∷ ds) = (c == d) && starts_with cs ds

-- `string.find(pattern)`; `none` is npos.
unfoldable pub find_text : Str → Str → Option ℕ
unfolding starts_with
find_text pattern' [] = if starts_with pattern' [] then some 0 else none
find_text pattern' (c ∷ cs) =
    let rest = find_text pattern' cs in
    if starts_with pattern' (c ∷ cs)
    then some 0
    else elim rest [ none ↦ none | some i ↦ some (suc i) ]

-- npos, the greatest 64-bit number
abbrev pub npos : ℕ
npos = 2 ^ 64 - 1

-- `string.substr(position, string.length())`, which throws past the end
unfoldable pub substr_from : ℕ → Str → Result Str
substr_from position s =
    if ltb (length s) position then fault Fault.out_of_range else ok (drop position s)

-- split: where there is no separator, `npos + 13` wraps around.
unfoldable pub split : Str → Result (Str × Str)
unfolding find_text substr_from
split s = elim (find_text separator s) [
  | some i ↦ do body ← substr_from ((i + 13) % 2 ^ 64) s; ok (take i s, body)
  | none ↦ do body ← substr_from ((npos + 13) % 2 ^ 64) s; ok (s, body)
]

-- merge
unfoldable pub merge : Str → Str → Str
merge s1 s2 = s1 ++ (separator ++ s2)
