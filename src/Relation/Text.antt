-- ===== src/Relation/Text.antt =====
-- The string methods that `propose_relation` uses. The full case mappings of Unicode are parameters there.
use Prim.Native.Char.{Char, code}
use Prim.Native.String.{◌++◌, count}
use Prim.Native.String.count.{nil, cons}
use stocks_agent.Common.{
  ℕ, not, ◌≤◌, ◌<◌, ◌≡◌, arith, zero, suc, Bool, true, false, ◌&&◌, ◌||◌, List, String, leb, ◌==◌,
  if◌then◌else◌, str_eq,
}

-- `str.isspace` of a character
abbrev pub is_space : ℕ → Bool
is_space c =
    leb 9 c && leb c 13
    || leb 28 c && leb c 32
    || c == 133
    || c == 160
    || c == 5760
    || leb 8192 c && leb c 8202
    || c == 8232
    || c == 8233
    || c == 8239
    || c == 8287
    || c == 12288

unfoldable pub lstrip : String → String
lstrip String.[] = String.[]
lstrip (String.◌∷◌ c s) = if is_space (code c) then lstrip s else String.◌∷◌ c s

unfoldable pub rstrip : String → String
rstrip String.[] = String.[]
rstrip (String.◌∷◌ c s) =
    let rest = rstrip s in if is_space (code c) && str_eq rest "" then "" else String.◌∷◌ c rest

unfoldable pub strip : String → String
strip text = rstrip (lstrip text)

-- A character in front of the words of the rest: it joins the first word unless a space follows it.
unfoldable pub push_char : Char → (spaced : Bool) → List String → List String
push_char c spaced List.[] = List.◌∷◌ (String.◌∷◌ c "") List.[]
push_char c true words = List.◌∷◌ (String.◌∷◌ c "") words
push_char c false (List.◌∷◌ word words) = List.◌∷◌ (String.◌∷◌ c word) words

abbrev pub starts_spaced : String → Bool
starts_spaced String.[] = false
starts_spaced (String.◌∷◌ c s) = is_space (code c)

-- `str.split()`
unfoldable pub split : String → List String
split String.[] = List.[]
split (String.◌∷◌ c s) =
    let words = split s in if is_space (code c) then words else push_char c (starts_spaced s) words

-- `"_".join(words)`
unfoldable pub underscored : List String → String
underscored List.[] = ""
underscored (List.◌∷◌ word List.[]) = word
underscored (List.◌∷◌ word (List.◌∷◌ next words)) =
    word ++ ("_" ++ underscored (List.◌∷◌ next words))

-- `text[:n]`
unfoldable pub first_chars : ℕ → String → String
first_chars zero text = ""
first_chars (suc n) String.[] = ""
first_chars (suc n) (String.◌∷◌ c s) = String.◌∷◌ c (first_chars n s)

pub count-first_chars : (n : ℕ) (text : String) → count (first_chars n text) ≤ n
unfolding first_chars
count-first_chars zero text = omega (arith, nil)
count-first_chars (suc n) String.[] = omega (arith, nil)
count-first_chars (suc n) (String.◌∷◌ c s) =
    omega (arith, cons c (first_chars n s), count-first_chars n s)

pub count_pos : (text : String) → not (str_eq text "") ≡ true → 0 < count text
count_pos String.[] h = cc
count_pos (String.◌∷◌ c s) h = omega (arith, cons c s)
