-- ===== src/Nomination/Pattern.antt =====
-- The regular expressions of the nominations in lib/intelligence/research_queue.py, on code points. The
-- Unicode tables of `re` are parameters: `is_word` is `\w`, and `folded` the character that a letter stands
-- for where case is ignored.
use stocks_agent.Common.{
  ℕ, Bool, true, false, not, ◌&&◌, ◌||◌, Option, none, some, List, [], ◌∷◌, String, length, all,
  any, leb, ◌==◌, if◌then◌else◌, codes,
}

abbrev pub is_between : (first last : ℕ) → ℕ → Bool
is_between first last c = leb first c && leb c last

-- `[0-9]`, `[a-z]`, `[A-Z]` and `[0-9a-f]`
abbrev pub is_digit : ℕ → Bool
is_digit = is_between 48 57

abbrev pub is_small : ℕ → Bool
is_small = is_between 97 122

abbrev pub is_capital : ℕ → Bool
is_capital = is_between 65 90

abbrev pub is_hex : ℕ → Bool
is_hex c = is_digit c || is_between 97 102 c

-- `[a-z0-9_]`
abbrev pub is_snake : ℕ → Bool
is_snake c = is_small c || is_digit c || c == 95

-- `[A-Za-z0-9:._-]`
abbrev pub is_identifier_char : ℕ → Bool
is_identifier_char c =
    is_capital c || is_small c || is_digit c || c == 58 || c == 46 || c == 95 || c == 45

-- A first character and from `least` to `most` others.
abbrev pub matches_head : (first other : ℕ → Bool) → (least most : ℕ) → List ℕ → Bool
matches_head first other least most [] = false
matches_head first other least most (c ∷ text) =
    first c && leb least (length text) && leb (length text) most && all other text

-- `[a-z][a-z0-9_]{2,79}`
unfoldable pub is_snake_name : List ℕ → Bool
is_snake_name text = matches_head is_small is_snake 2 79 text

-- `[A-Za-z0-9][A-Za-z0-9:._-]{0,255}`
unfoldable pub is_identifier : List ℕ → Bool
is_identifier text =
    matches_head (λ c. is_capital c || is_small c || is_digit c) is_identifier_char 0 255 text

-- `[0-9a-f]{64}`
unfoldable pub is_sha256 : List ℕ → Bool
is_sha256 text = length text == 64 && all is_hex text

-- A pattern of one class for each character.
abbrev pub matches_classes : List (ℕ → Bool) → List ℕ → Bool
matches_classes [] [] = true
matches_classes [] (c ∷ text) = false
matches_classes (class ∷ classes) [] = false
matches_classes (class ∷ classes) (c ∷ text) = class c && matches_classes classes text

abbrev pub is_dash : ℕ → Bool
is_dash c = c == 45

-- The groups of a UUID, with classes for the first character of the third and of the fourth group.
abbrev pub uuid_classes : (version variant : ℕ → Bool) → List (ℕ → Bool)
uuid_classes version variant =
    is_hex ∷ is_hex ∷ is_hex ∷ is_hex ∷ is_hex ∷ is_hex ∷ is_hex ∷ is_hex ∷ is_dash ∷ is_hex
    ∷ is_hex ∷ is_hex ∷ is_hex ∷ is_dash ∷ version ∷ is_hex ∷ is_hex ∷ is_hex ∷ is_dash ∷ variant
    ∷ is_hex ∷ is_hex ∷ is_hex ∷ is_dash ∷ is_hex ∷ is_hex ∷ is_hex ∷ is_hex ∷ is_hex ∷ is_hex
    ∷ is_hex ∷ is_hex ∷ is_hex ∷ is_hex ∷ is_hex ∷ is_hex ∷ []

-- `str(uuid.UUID(value)) == value`: the canonical text of a UUID.
unfoldable pub is_canonical_uuid : List ℕ → Bool
is_canonical_uuid text = matches_classes (uuid_classes is_hex is_hex) text

-- `_NOMINATION_THEME_PATTERN`
unfoldable pub is_theme : List ℕ → Bool
is_theme text =
    is_snake_name text
    || matches_classes
        (uuid_classes (is_between 49 53) (λ c. c == 56 || c == 57 || is_between 97 98 c)) text

abbrev pub unsafe_words : List String
unsafe_words =
    "buy" ∷ "sell" ∷ "trade" ∷ "order" ∷ "price" ∷ "score" ∷ "watchlist" ∷ "holding" ∷ "portfolio"
    ∷ "cash" ∷ "alert" ∷ "policy" ∷ "allocation" ∷ "browse" ∷ "search query" ∷ []

module _ (is_word : ℕ → Bool) (folded : ℕ → ℕ) where
  abbrev pub is_word_char : Option ℕ → Bool
  is_word_char none = false
  is_word_char (some c) = is_word c

  abbrev pub next_char : List ℕ → Option ℕ
  next_char [] = none
  next_char (c ∷ text) = some c

  -- `\b` between a character and what follows it.
  abbrev pub is_boundary : Option ℕ → List ℕ → Bool
  is_boundary previous text =
      if is_word_char previous
      then not (is_word_char (next_char text))
      else is_word_char (next_char text)

  -- The last character of the word in the text, and what follows.
  unfoldable pub match_word : Option ℕ → (word text : List ℕ) → Option (Option ℕ × List ℕ)
  match_word previous [] text = some (previous, text)
  match_word previous (w ∷ word) [] = none
  match_word previous (w ∷ word) (c ∷ text) =
      let rest = match_word (some c) word text in if folded c == w then rest else none

  abbrev pub ends_word : Option (Option ℕ × List ℕ) → Bool
  ends_word none = false
  ends_word (some (previous, text)) = is_boundary previous text

  abbrev pub is_found : Option (Option ℕ × List ℕ) → Bool
  is_found none = false
  is_found (some found) = true

  -- `https?://` or one of the words, here.
  unfoldable pub is_unsafe_at : Option ℕ → List ℕ → Bool
  is_unsafe_at previous text =
      is_found (match_word previous (codes "http://") text)
      || is_found (match_word previous (codes "https://") text)
      || is_boundary previous text
        && any (λ word. ends_word (match_word previous (codes word) text)) unsafe_words

  -- `_UNSAFE_NOMINATION_REASON.search`
  unfoldable pub is_unsafe : Option ℕ → List ℕ → Bool
  is_unsafe previous [] = is_unsafe_at previous []
  is_unsafe previous (c ∷ text) = is_unsafe_at previous (c ∷ text) || is_unsafe (some c) text
