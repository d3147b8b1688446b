-- ===== src/Text.antt =====
-- common/utils/Text.cpp, and its copy in client/src/Utils.cpp: lower case and the words of a line.
-- `std::tolower` and `std::isspace` are those of the "C" locale. Boost's tokenizer, which
-- `splitBySeparator` calls, is the parameter `tokenize`, of a text and the separating characters.
pub mod Words
pub mod Tokens
use blockchain_messaging_sys.Prelude.{
  ℕ, ◌+◌, Bool, true, false, ◌&&◌, ◌||◌, List, [], ◌∷◌, ◌++◌, Str, codes, ltb, leb, ◌==◌,
  if◌then◌else◌,
}

-- std::tolower
unfoldable pub tolower : ℕ → ℕ
tolower c = if leb b'A' c && leb c b'Z' then c + 32 else c

-- Text::toLower
unfoldable pub to_lower : Str → Str
unfolding tolower
to_lower [] = []
to_lower (c ∷ cs) = tolower c ∷ to_lower cs

-- std::isspace: the blank, and the control characters from tab to carriage return
unfoldable pub is_space : ℕ → Bool
is_space c = (c == 32) || (leb 9 c && leb c 13)

-- `args.push_back(tmp)`, if anything was read into `tmp`
unfoldable pub push_back : Str → List Str → List Str
push_back [] rest = rest
push_back (c ∷ cs) rest = (c ∷ cs) ∷ rest

-- The words of a text, one character at a time: `tmp` is the word that is being read.
unfoldable pub extract : (ℕ → Bool) → Str → Str → List Str
unfolding push_back
extract separates tmp [] = push_back tmp []
extract separates tmp (c ∷ cs) =
    let rest = extract separates [] cs in
    let longer = extract separates (tmp ++ c ∷ []) cs in
    if separates c then push_back tmp rest else longer

-- Text::tokenizeBySpace
unfoldable pub tokenize_by_space : Str → List Str
unfolding extract is_space
tokenize_by_space input = extract is_space [] input

append_tokens : List Str → List Str → List Str
append_tokens [] data_attributes = data_attributes
append_tokens (token ∷ tokens) data_attributes =
    append_tokens tokens (data_attributes ++ token ∷ [])

-- Text::splitBySeparator
unfoldable pub split_by_separator : (Str → Str → List Str) → Str → Str → List Str
unfolding append_tokens
split_by_separator tokenize text separator = append_tokens (tokenize text separator) []
