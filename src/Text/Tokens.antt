-- ===== src/Text/Tokens.antt =====
-- What the program relies on of boost::tokenizer with a char_separator, and a concrete tokenizer.
use blockchain_messaging_sys.Prelude.{
  ℕ, Bool, false, ◌||◌, List, [], ◌∷◌, ◌++◌, Str, ◌≡◌, ◌==◌, arith,
}
use blockchain_messaging_sys.Text.{extract}
use blockchain_messaging_sys.Text.Words.{IsWord, extract-word, extract-last}

abbrev pub is_char : ℕ → ℕ → Bool
is_char separator c = c == separator

-- Documented behaviour: a token ends at the first separating character or at the end of the text.
pub record TokenizerLaws (tokenize : Str → Str → List Str) : Type 0 where
  pub token :
      (separator : ℕ) (w s : Str)
      → IsWord (is_char separator) w
      → tokenize (w ++ separator ∷ s) (separator ∷ []) ≡ w ∷ tokenize s (separator ∷ [])
  pub last_token :
      (separator : ℕ) (w : Str)
      → IsWord (is_char separator) w
      → tokenize w (separator ∷ []) ≡ w ∷ []

abbrev pub is_one_of : Str → ℕ → Bool
is_one_of [] c = false
is_one_of (d ∷ []) c = c == d
is_one_of (d ∷ e ∷ ds) c = (c == d) || is_one_of (e ∷ ds) c

unfoldable pub sample_tokenize : Str → Str → List Str
unfolding extract
sample_tokenize text separators = extract (is_one_of separators) [] text

pub sample_tokenize-laws : TokenizerLaws sample_tokenize
unfolding sample_tokenize
sample_tokenize-laws = record {
  token = λ separator w s h. extract-word (is_char separator) w separator s h (ground arith);
  last_token = λ separator w h. extract-last (is_char separator) w h;
}
