-- ===== src/Cursor/Checks.antt =====
-- The validators at the top of lib/intelligence/cursors.py, and lib/intelligence/limits.py.
-- A datetime is its UTC instant in microseconds since `datetime.min`; a timedelta is a number of
-- microseconds. Arguments have the type that the source checks by `isinstance`.
use stocks_agent.Common.{
  ℕ, Bool, true, false, not, ◌&&◌, ◌||◌, Option, none, some, List, [], ◌∷◌, String, codes, length,
  all, ltb, leb, ◌==◌, if◌then◌else◌, str_eq, contains, all_distinct, Result, ok, raise, ◌>>◌,
  guard,
}

-- The `ValueError`s of the module, by message, and datetime's `OverflowError`.
pub data CursorError : Type 0 where
  provider_invalid capability_invalid : CursorError
  window_half_open window_unordered window_off_watermark : CursorError
  token_invalid token_without_window page_invalid : CursorError
  too_many_ids id_invalid ids_repeated : CursorError
  history_invalid identity_invalid identities_repeated token_not_in_history : CursorError
  phase_invalid overlap_invalid backfill_invalid date_overflow : CursorError
  status_invalid exhausted_and_truncated success_not_truncated failure_exhausted : CursorError
  failure_with_ids exhausted_with_token : CursorError
  window_mismatch window_not_overlapping window_not_contiguous : CursorError
  timestamp_invalid planned_window_too_long token_repeated outcome_invalid : CursorError

abbrev pub CursorResult : Type 0 → Type 0
CursorResult = Result CursorError

-- limits.py
abbrev pub default_max_collection_page : ℕ
default_max_collection_page = 10

abbrev pub white_house_sitemap_max_page : ℕ
white_house_sitemap_max_page = 2001

unfoldable pub maximum_collection_page : String → ℕ
maximum_collection_page capability_id =
    if str_eq capability_id "white_house_sitemap"
    then white_house_sitemap_max_page
    else default_max_collection_page

-- cursors.py
abbrev pub minimum_overlap : ℕ
minimum_overlap = 7200000000

abbrev pub max_accepted_item_ids : ℕ
max_accepted_item_ids = 500

abbrev pub max_token_characters : ℕ
max_token_characters = 2048

abbrev pub max_token_identities : ℕ
max_token_identities = 64

abbrev pub phases : List String
phases = "pre-market" ∷ "intraday" ∷ "post-market" ∷ "on-demand" ∷ []

abbrev pub cursor_statuses : List String
cursor_statuses =
    "succeeded" ∷ "cache_hit" ∷ "failed" ∷ "configuration_missing" ∷ "quota_blocked" ∷ "unsupported"
    ∷ []

-- `not any(ord(character) < 32 for character in value)`
printable : String → Bool
printable value = all (λ c. not (ltb c 32)) (codes value)

-- What `_bounded_token` accepts of a text.
unfoldable pub is_token : String → Bool
unfolding printable
is_token value =
    not (str_eq value "") && leb (length (codes value)) max_token_characters && printable value

unfoldable pub bounded_token : Option String → CursorResult (Option String)
bounded_token none = ok none
bounded_token (some value) = if is_token value then ok (some value) else raise token_invalid

-- What `_item_ids` accepts of one value.
unfoldable pub is_item_id : String → Bool
unfolding printable
is_item_id value = not (str_eq value "") && leb (length (codes value)) 512 && printable value

unfoldable pub item_ids : List String → CursorResult (List String)
item_ids values = do
  guard (leb (length values) max_accepted_item_ids) too_many_ids
  guard (all is_item_id values) id_invalid
  guard (all_distinct values) ids_repeated
  ok values

-- `re.fullmatch(r"[0-9a-f]{64}", value)`
is_hex_digit : ℕ → Bool
is_hex_digit c = (leb b'0' c && leb c b'9') || (leb b'a' c && leb c b'f')

unfoldable pub is_identity : String → Bool
unfolding is_hex_digit
is_identity value = length (codes value) == 64 && all is_hex_digit (codes value)

unfoldable pub token_identities : List String → CursorResult (List String)
token_identities values = do
  guard (leb (length values) max_token_identities) history_invalid
  guard (all is_identity values) identity_invalid
  guard (all_distinct values) identities_repeated
  ok values

-- `re.fullmatch(r"[a-z][a-z0-9_]{low,79}", value)`
is_name_char : ℕ → Bool
is_name_char c = (leb b'a' c && leb c b'z') || (leb b'0' c && leb c b'9') || c == b'_'

name_codes : ℕ → List ℕ → Bool
name_codes low [] = false
name_codes low (c ∷ cs) =
    (leb b'a' c && leb c b'z') && leb low (length cs) && leb (length cs) 79 && all is_name_char cs

unfoldable pub is_name : ℕ → String → Bool
unfolding name_codes is_name_char
is_name low value = name_codes low (codes value)

-- `phase is None or phase in _PHASES`
unfoldable pub phase_allowed : Option String → Bool
phase_allowed none = true
phase_allowed (some phase) = contains phase phases

-- `status in {"succeeded", "cache_hit"}`
unfoldable pub is_successful : String → Bool
is_successful status = str_eq status "succeeded" || str_eq status "cache_hit"
