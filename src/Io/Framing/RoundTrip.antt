-- ===== src/Io/Framing/RoundTrip.antt =====
-- Splitting what was merged.
use blockchain_messaging_sys.Prelude.{
  ℕ, suc, ◌+◌, ◌%◌, ◌^◌, ◌<◌, ◌≤◌, ◌≡◌, ◌≢◌, refl, ap, ◌∙◌, true, false, ◌&&◌, [], ◌∷◌, ◌++◌, none,
  some, Str, codes, length, length-append, take, drop, ◌==◌, if◌then◌else◌, ok, All, arith,
  Bool-cases, inl, inr,
}
use blockchain_messaging_sys.Io.Framing.{
  separator, starts_with, find_text, substr_from, split, merge,
}

-- `<`, with which the separator begins; it has no second one.
abbrev opening : ℕ
opening = b'<'

abbrev rest_of_separator : Str
rest_of_separator = codes "@SEPARATOR#>"

starts_with_cut :
    (p t r : Str)
    → All (λ c. c ≢ opening) p
    → starts_with p (t ++ opening ∷ r) ≡ true
    → starts_with p t ≡ true
unfolding starts_with
starts_with_cut [] t r h e = refl
starts_with_cut (c ∷ p) [] r h e = absurd (h.0 (ground arith))
starts_with_cut (c ∷ p) (d ∷ t) r h e = ground (arith, starts_with_cut p t r h.1)

starts_with-cons :
    (c d : ℕ) (p t : Str) → starts_with (c ∷ p) (d ∷ t) ≡ ((c == d) && starts_with p t)
unfolding starts_with
starts_with-cons c d p t = refl

starts_with_head :
    (o c : ℕ) (p cs t : Str)
    → (starts_with p t ≡ true → starts_with p cs ≡ true)
    → starts_with (o ∷ p) (c ∷ cs) ≡ false
    → starts_with (o ∷ p) (c ∷ t) ≡ false
unfolding starts_with
starts_with_head o c p cs t f h = elim (Bool-cases (starts_with p t)) [
  | inl whole ↦ ground (arith, f whole)
  | inr broken ↦ ground arith
]

starts_with-separator :
    (c : ℕ) (cs r : Str)
    → starts_with separator (c ∷ cs) ≡ false
    → starts_with separator (c ∷ (cs ++ (separator ++ r))) ≡ false
starts_with-separator c cs r h =
    starts_with_head opening c rest_of_separator cs (cs ++ (separator ++ r))
      (starts_with_cut rest_of_separator cs (rest_of_separator ++ r) (omega arith)) h

find_text-cons :
    (c : ℕ) (cs : Str)
    → find_text separator (c ∷ cs) ≡ (
        if starts_with separator (c ∷ cs)
        then some 0
        else elim (find_text separator cs) [ none ↦ none | some i ↦ some (suc i) ])
unfolding find_text
find_text-cons c cs = refl

find_text_end : (r : Str) → find_text separator (separator ++ r) ≡ some 0
unfolding find_text starts_with
find_text_end r = refl

find_text_absent :
    (c : ℕ) (cs : Str)
    → find_text separator (c ∷ cs) ≡ none
    → (starts_with separator (c ∷ cs) ≡ false) × (find_text separator cs ≡ none)
find_text_absent c cs h = ground (arith, find_text-cons c cs)

find_text_present :
    (c i : ℕ) (cs : Str)
    → starts_with separator (c ∷ cs) ≡ false
    → find_text separator cs ≡ some i
    → find_text separator (c ∷ cs) ≡ some (suc i)
find_text_present c i cs h e = ground (arith, find_text-cons c cs)

-- The first separator of a merged text is the one that was put in.
find_text-merge :
    (s1 s2 : Str)
    → find_text separator s1 ≡ none
    → find_text separator (s1 ++ (separator ++ s2)) ≡ some (length s1)
find_text-merge [] s2 h = find_text_end s2
find_text-merge (c ∷ cs) s2 h =
    let (absent, later) = find_text_absent c cs h in
    find_text_present c (length cs) (cs ++ (separator ++ s2)) (starts_with-separator c cs s2 absent)
      (find_text-merge cs s2 later)

take-merge : (s1 r : Str) → take (length s1) (s1 ++ r) ≡ s1
take-merge [] r = refl
take-merge (c ∷ cs) r = ap (◌∷◌ c) (take-merge cs r)

drop-merge : (s1 s2 : Str) → drop (length s1 + 13) (s1 ++ (separator ++ s2)) ≡ s2
drop-merge [] s2 = refl
drop-merge (c ∷ cs) s2 =
    ap (λ (n : ℕ). drop n (c ∷ (cs ++ (separator ++ s2)))) (suc_add (length cs)) ∙ drop-merge cs s2
  where
    suc_add : (n : ℕ) → suc n + 13 ≡ suc (n + 13)
    suc_add n = omega arith

substr_from_within : (n : ℕ) (s : Str) → n ≤ length s → substr_from n s ≡ ok (drop n s)
unfolding substr_from
substr_from_within n s h = ground arith

substr_from_end :
    (s1 s2 : Str)
    → length s1 + 13 < 2 ^ 64
    → substr_from ((length s1 + 13) % 2 ^ 64) (s1 ++ (separator ++ s2)) ≡ ok s2
substr_from_end s1 s2 h =
    let n : ℕ = length s1 + 13 in
    let fits : n % 2 ^ 64 ≡ n = omega arith in
    let long : length (s1 ++ (separator ++ s2)) ≡ n + length s2 =
      omega (arith, length-append s1 (separator ++ s2)) in
    ap (λ (k : ℕ). substr_from k (s1 ++ (separator ++ s2))) fits
    ∙ substr_from_within n (s1 ++ (separator ++ s2)) (omega arith)
    ∙ ap ok (drop-merge s1 s2)

split_found :
    (i : ℕ) (s body : Str)
    → find_text separator s ≡ some i
    → substr_from ((i + 13) % 2 ^ 64) s ≡ ok body
    → split s ≡ ok (take i s, body)
unfolding split
split_found i s body found rest' = rw (found, split) (rw rest')

find_text_merged :
    (s1 s2 : Str)
    → find_text separator s1 ≡ none
    → find_text separator (merge s1 s2) ≡ some (length s1)
unfolding merge
find_text_merged s1 s2 h = find_text-merge s1 s2 h

merged_end :
    (s1 s2 : Str)
    → length s1 + 13 < 2 ^ 64
    → substr_from ((length s1 + 13) % 2 ^ 64) (merge s1 s2) ≡ ok s2
unfolding merge
merged_end s1 s2 h = substr_from_end s1 s2 h

merged_start : (s1 s2 : Str) → take (length s1) (merge s1 s2) ≡ s1
unfolding merge
merged_start s1 s2 = take-merge s1 (separator ++ s2)

-- `split` takes a merged text back into its two parts, whatever the second part holds, provided
-- that the first part holds no separator and that its length and the separator's fit in 64 bits.
pub split-merge :
    (s1 s2 : Str)
    → find_text separator s1 ≡ none
    → length s1 + 13 < 2 ^ 64
    → split (merge s1 s2) ≡ ok (s1, s2)
unfolding split
split-merge s1 s2 h fits =
    split_found (length s1) (merge s1 s2) s2 (find_text_merged s1 s2 h) (merged_end s1 s2 fits)
    ∙ ap (λ (t : Str). ok (t, s2)) (merged_start s1 s2)
