-- ===== src/Text.antt =====
-- What the program does with the characters of a text, over the code points of ASCII: words,
-- counts, and the search for whole words in any case (`re` with `\b(…)\b` and IGNORECASE).
use Prim.Native.Char.{code}
use sentinellm.Prelude.{
  ℕ, ◌+◌, Bool, true, false, not, ◌&&◌, ◌||◌, String, List, [], ◌∷◌, leb, eqb, any, if◌then◌else◌,
}

abbrev pub codes : String → List ℕ
codes String.[] = []
codes (String.◌∷◌ c s) = code c ∷ codes s

unfoldable pub is_space : ℕ → Bool
is_space c = eqb c 32 || leb 9 c && leb c 13 || leb 28 c && leb c 31

-- `len(text.split())`: the runs of other characters than white space; `inside` says whether the
-- character before was in one
unfoldable pub words_from : Bool → List ℕ → ℕ
unfolding is_space
words_from inside [] = 0
words_from inside (c ∷ cs) =
    let rest = words_from (not (is_space c)) cs in
    if not (is_space c) && not inside then rest + 1 else rest

unfoldable pub word_count : List ℕ → ℕ
unfolding words_from
word_count = words_from false

-- `text.count(c)` for one character
unfoldable pub occurrences : ℕ → List ℕ → ℕ
occurrences c [] = 0
occurrences c (x ∷ xs) = let rest = occurrences c xs in if eqb x c then rest + 1 else rest

unfoldable pub lower : ℕ → ℕ
lower c = if leb b'A' c && leb c b'Z' then c + 32 else c

-- `\w`
unfoldable pub is_word : ℕ → Bool
is_word c =
    leb b'a' c && leb c b'z' || leb b'A' c && leb c b'Z' || leb b'0' c && leb c b'9' || eqb c b'_'

-- the end of a whole word
unfoldable pub ends_word : List ℕ → Bool
unfolding is_word
ends_word [] = true
ends_word (c ∷ cs) = not (is_word c)

-- `term` stands at the head of the text, in any case, and ends a word there
unfoldable pub whole_word_at : List ℕ → List ℕ → Bool
unfolding lower ends_word
whole_word_at [] text = ends_word text
whole_word_at (t ∷ term) [] = false
whole_word_at (t ∷ term) (c ∷ text) = eqb (lower c) t && whole_word_at term text

-- `re.search` for one of the terms, which begin and end with word characters; `fresh` says whether
-- the character before is no word character
unfoldable pub search_words : List (List ℕ) → Bool → List ℕ → Bool
unfolding whole_word_at is_word
search_words terms fresh [] = false
search_words terms fresh (c ∷ text) =
    fresh && any (λ term. whole_word_at term (c ∷ text)) terms
    || search_words terms (not (is_word c)) text

-- `word in text`
unfoldable pub starts_with : List ℕ → List ℕ → Bool
starts_with [] text = true
starts_with (w ∷ word) [] = false
starts_with (w ∷ word) (c ∷ text) = eqb w c && starts_with word text

unfoldable pub occurs_in : List ℕ → List ℕ → Bool
unfolding starts_with
occurs_in word [] = starts_with word []
occurs_in word (c ∷ text) = starts_with word (c ∷ text) || occurs_in word text
