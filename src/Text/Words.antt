-- ===== src/Text/Words.antt =====
-- The words of a text: what `tokenizeBySpace` returns.
use mathlib.Core.List.{append_assoc, append-nil}
use blockchain_messaging_sys.Prelude.{
  ℕ, Bool, true, false, List, [], ◌∷◌, ◌++◌, Str, All, ◌≡◌, ◌↔◌, ◌⊎◌, inl, inr, refl, sym, ap,
  subst, ◌∙◌, Bool-cases, if◌then◌else◌,
}
use blockchain_messaging_sys.Text.{push_back, extract, is_space, tokenize_by_space}

module _ (p : ℕ → Bool) where
  abbrev pub IsGap : Str → Type 0
  IsGap = All (λ c. p c ≡ true)

  abbrev pub IsFree : Str → Type 0
  IsFree = All (λ c. p c ≡ false)

  -- A word is not empty, and no character of it separates.
  abbrev pub IsWord : Str → Type 0
  IsWord [] = ⊥
  IsWord (c ∷ cs) = IsFree (c ∷ cs)

  -- The text consists of these words with gaps between them, before the first and after the last.
  abbrev pub Reads : List Str → Str → Type 0
  Reads [] s = IsGap s
  Reads (w ∷ ws) s =
      (g : Str) × (s' : Str) × IsGap g
      × IsWord w
      × (s ≡ g ++ (w ++ s'))
      × (((s' ≡ []) × (ws ≡ [])) ⊎ ((c : ℕ) × (t : Str) × (s' ≡ c ∷ t) × (p c ≡ true) × Reads ws t))

  pub extract-gap : (g s : Str) → IsGap g → extract p [] (g ++ s) ≡ extract p [] s
  unfolding extract push_back
  extract-gap [] s h = refl
  extract-gap (c ∷ g) s (h, more) = rw (h, if◌then◌else◌) (extract-gap g s more)

  extract-free : (w tmp s : Str) → IsFree w → extract p tmp (w ++ s) ≡ extract p (tmp ++ w) s
  unfolding extract
  extract-free [] tmp s h = ap (λ t. extract p t s) (sym (append-nil tmp))
  extract-free (c ∷ w) tmp s (h, more) =
      rw (h, if◌then◌else◌)
        (extract-free w (tmp ++ c ∷ []) s more
          ∙ ap (λ t. extract p t s) (append_assoc tmp (c ∷ []) w))

  -- A word, and a separator after it.
  pub extract-word :
      (w : Str) (c : ℕ) (s : Str)
      → IsWord w
      → p c ≡ true
      → extract p [] (w ++ c ∷ s) ≡ w ∷ extract p [] s
  unfolding extract push_back
  extract-word [] c s h k = absurd h
  extract-word (a ∷ w) c s h k = extract-free (a ∷ w) [] (c ∷ s) h ∙ rw (k, if◌then◌else◌) refl

  pub extract-last : (w : Str) → IsWord w → extract p [] w ≡ w ∷ []
  unfolding extract push_back
  extract-last [] h = absurd h
  extract-last (a ∷ w) h =
      ap (extract p []) (sym (append-nil (a ∷ w))) ∙ extract-free (a ∷ w) [] [] h

  extract-Reads : (ws : List Str) (s : Str) → Reads ws s → extract p [] s ≡ ws
  unfolding extract push_back
  extract-Reads [] s h = ap (extract p []) (sym (append-nil s)) ∙ extract-gap s [] h
  extract-Reads (w ∷ ws) s (g, s', gap, word, e, inl (e', e'')) =
      ap (extract p []) (e ∙ ap (λ t. g ++ (w ++ t)) e')
      ∙ extract-gap g (w ++ []) gap
      ∙ ap (extract p []) (append-nil w)
      ∙ extract-last w word
      ∙ ap (◌∷◌ w) (sym e'')
  extract-Reads (w ∷ ws) s (g, s', gap, word, e, inr (c, t, e', k, more)) =
      ap (extract p []) (e ∙ ap (λ t. g ++ (w ++ t)) e')
      ∙ extract-gap g (w ++ c ∷ t) gap
      ∙ extract-word w c t word k
      ∙ ap (◌∷◌ w) (extract-Reads ws t more)

  Reads-gap : (c : ℕ) (ws : List Str) (s : Str) → p c ≡ true → Reads ws s → Reads ws (c ∷ s)
  Reads-gap c [] s k h = (k, h)
  Reads-gap c (w ∷ ws) s k (g, s', gap, word, e, rest) =
      (c ∷ g, s', (k, gap), word, ap (◌∷◌ c) e, rest)

  IsFree-snoc : (tmp : Str) (c : ℕ) → IsFree tmp → p c ≡ false → IsFree (tmp ++ c ∷ [])
  IsFree-snoc [] c h k = (k, tt)
  IsFree-snoc (a ∷ tmp) c (h, more) k = (h, IsFree-snoc tmp c more k)

  separated :
      (tmp : Str) (c : ℕ) (cs : Str) (ws : List Str)
      → IsFree tmp
      → p c ≡ true
      → Reads ws cs
      → Reads (push_back tmp ws) (tmp ++ c ∷ cs)
  unfolding push_back
  separated [] c cs ws h k r = Reads-gap c ws cs k r
  separated (a ∷ tmp) c cs ws h k r = ([], c ∷ cs, tt, h, refl, inr (c, cs, refl, k, r))

  ended : (tmp : Str) → IsFree tmp → Reads (push_back tmp []) (tmp ++ [])
  unfolding push_back
  ended [] h = tt
  ended (a ∷ tmp) h = ([], [], tt, h, refl, inl (refl, refl))

  Reads-extract : (tmp s : Str) → IsFree tmp → Reads (extract p tmp s) (tmp ++ s)
  unfolding extract
  Reads-extract tmp [] h = ended tmp h
  Reads-extract tmp (c ∷ cs) h = elim (Bool-cases (p c)) [
    | inl k ↦
        rw (k, if◌then◌else◌) (separated tmp c cs (extract p [] cs) h k (Reads-extract [] cs tt))
    | inr k ↦
        rw (k, if◌then◌else◌)
          (subst (Reads (extract p (tmp ++ c ∷ []) cs)) (append_assoc tmp (c ∷ []) cs)
            (Reads-extract (tmp ++ c ∷ []) cs (IsFree-snoc tmp c h k)))
  ]

-- `tokenizeBySpace` returns exactly the words of its input: the list whose words, none empty and
-- none with a space in it, make up the text with gaps of spaces between them and round them.
pub tokenize_by_space_iff :
    (input : Str) (words : List Str)
    → (tokenize_by_space input ≡ words) ↔ Reads is_space words input
unfolding tokenize_by_space
tokenize_by_space_iff input words = (
  λ h. subst (λ ws. Reads is_space ws input) h (Reads-extract is_space [] input tt),
  extract-Reads is_space words input,
)
