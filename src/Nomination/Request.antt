-- ===== src/Nomination/Request.antt =====
-- One nomination of lib/intelligence/research_queue.py and its checks, on a JSON value. A value that Python
-- cannot hash is refused where the code would raise a `TypeError`.
use Prim.Native.String.{count, compare as compare_texts, ◌++◌ as append_text}
use stocks_agent.Common.{
  ℕ, suc, Bool, true, not, ◌&&◌, Option, none, some, List, [], ◌∷◌, String, leb, codes, contains,
  all_distinct, sorted, Result, ok, raise, ◌>>=◌, ◌>>◌, guard,
}
use stocks_agent.Relation.Text.{split}
use stocks_agent.Policy.Value.{
  Value, null, integer, text, sequence, Values, end, item, Fields, lookup, has_exactly,
}
use stocks_agent.Nomination.Pattern.{
  is_theme, is_identifier, is_snake_name, is_canonical_uuid, is_unsafe,
}

pub data NominationError : Type 0 where
  not_a_list too_many packet_not_protected packet_hash_invalid candidates_invalid : NominationError
  identity_invalid : (label : String) → NominationError
  not_reviewed_keys theme_invalid role_invalid reason_invalid reason_unsafe kind_invalid :
      NominationError
  priority_invalid evidence_invalid evidence_duplicated not_bound duplicated : NominationError

abbrev pub nomination_keys : List String
nomination_keys =
    "theme_id" ∷ "entity_id" ∷ "security_id" ∷ "role" ∷ "reason" ∷ "evidence_ids"
    ∷ "required_evidence_kind" ∷ "priority" ∷ []

abbrev pub evidence_kinds : List String
evidence_kinds =
    "primary_exposure" ∷ "contradictory_primary" ∷ "current_filing" ∷ "official_program"
    ∷ "entity_identity" ∷ "relationship" ∷ "current_reference" ∷ []

-- `request`, which is hashed.
pub record NominationRequest : Type 0 where
  pub entity_id : Option String
  pub evidence_ids : List String
  pub packet_hash : String
  pub priority : ℕ
  pub reason : String
  pub required_evidence_kind : String
  pub role : String
  pub security_id : Option String
  pub theme_id : String

-- A text that passes a test.
abbrev pub tested_text :
    (String → Bool) → NominationError → Option Value → Result NominationError String
tested_text test exception (some (text value)) = do guard (test value) exception; ok value
tested_text test exception _ = raise exception

-- A text that passes a test, or `None`.
abbrev pub optional_text :
    (String → Bool) → NominationError → Option Value → Result NominationError (Option String)
optional_text test exception (some (text value)) = do guard (test value) exception; ok (some value)
optional_text test exception (some null) = ok none
optional_text test exception _ = raise exception

-- `_nomination_uuid`
unfoldable pub nomination_uuid : (label : String) → Option Value → Result NominationError String
nomination_uuid label value =
    tested_text (λ t. is_canonical_uuid (codes t)) (identity_invalid label) value

unfoldable pub nomination_uuids : Values → Result NominationError (List String)
nomination_uuids end = ok []
nomination_uuids (item value values) = do
  id ← nomination_uuid "evidence identity" (some value)
  rest ← nomination_uuids values
  ok (id ∷ rest)

-- `" ".join(words)`
unfoldable pub spaced : List String → String
spaced [] = ""
spaced (word ∷ []) = word
spaced (word ∷ next ∷ words) = append_text word (append_text " " (spaced (next ∷ words)))

abbrev pub priority_of : Option Value → Result NominationError ℕ
priority_of (some (integer n)) = do guard (leb 1 n && leb n 5) priority_invalid; ok n
priority_of _ = raise priority_invalid

-- `1 <= len(raw_ids) <= 8`, of a list.
abbrev pub evidence_values : Option Value → Result NominationError Values
evidence_values (some (sequence values)) = ok values
evidence_values _ = raise evidence_invalid

unfoldable pub count_values : Values → ℕ
count_values end = 0
count_values (item value values) = suc (count_values values)

module _ (is_word : ℕ → Bool) (folded : ℕ → ℕ) where
  -- The reason with single spaces, which has to be of a length and free of instructions.
  unfoldable pub checked_reason : Option Value → Result NominationError String
  checked_reason value = do
    reason ← tested_text (λ t. true) reason_invalid value
    let normalized = spaced (split reason)
    guard
        (leb 20 (count normalized)
          && leb (count normalized) 500
          && not (is_unsafe is_word folded none (codes normalized)))
        reason_unsafe
    ok normalized

  -- The checks of the fields of one nomination, in their order.
  unfoldable pub checked_request :
      (packet_hash : String) → Fields → Result NominationError NominationRequest
  checked_request packet_hash raw = do
    guard (has_exactly nomination_keys raw) not_reviewed_keys
    theme_id ← tested_text (λ t. is_theme (codes t)) theme_invalid (lookup "theme_id" raw)
    entity_id ←
        optional_text (λ t. is_identifier (codes t)) (identity_invalid "entity")
          (lookup "entity_id" raw)
    security_id ←
        optional_text (λ t. is_identifier (codes t)) (identity_invalid "security")
          (lookup "security_id" raw)
    role ← tested_text (λ t. is_snake_name (codes t)) role_invalid (lookup "role" raw)
    reason ← checked_reason (lookup "reason" raw)
    kind ←
        tested_text (λ t. contains t evidence_kinds) kind_invalid
          (lookup "required_evidence_kind" raw)
    priority ← priority_of (lookup "priority" raw)
    values ← evidence_values (lookup "evidence_ids" raw)
    guard (leb 1 (count_values values) && leb (count_values values) 8) evidence_invalid
    evidence_ids ← nomination_uuids values
    guard (all_distinct evidence_ids) evidence_duplicated
    ok (record {
      entity_id = entity_id;
      evidence_ids = sorted compare_texts evidence_ids;
      packet_hash = packet_hash;
      priority = priority;
      reason = reason;
      required_evidence_kind = kind;
      role = role;
      security_id = security_id;
      theme_id = theme_id;
    })
