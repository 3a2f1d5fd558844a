-- ===== src/Nomination/Validate.antt =====
-- The packet and the nominations of `validate_research_nominations` in lib/intelligence/research_queue.py. A
-- time is a number of microseconds, as in Cursor. `hash_request` is the SHA-256 of the canonical JSON, and
-- `name` the UUID of a nomination. The packet is given as the mapping that it is.
use stocks_agent.Common.{
  ℕ, ◌+◌, Bool, true, false, not, ◌&&◌, ◌||◌, Option, none, some, List, [], ◌∷◌, String, length,
  all, filter, leb, ◌==◌, codes, str_eq, contains, Result, ok, raise, ◌>>=◌, ◌>>◌, guard,
}
use stocks_agent.Policy.Value.{
  Value, null, integer, real, text, sequence, mapping, Values, end, item, Fields, lookup,
  is_boolean,
}
use stocks_agent.Nomination.Pattern.{is_sha256}
use stocks_agent.Nomination.Request.{
  NominationError, not_a_list, too_many, packet_not_protected, packet_hash_invalid,
  candidates_invalid, not_reviewed_keys, not_bound, duplicated, NominationRequest, tested_text,
  nomination_uuid, count_values, checked_request,
}

pub data NominationState : Type 0 where
  pending selected resolved rejected expired : NominationState

pub record ResearchNomination : Type 0 where
  pub nomination_id : String
  pub packet_id : String
  pub packet_hash : String
  pub reference_manifest_id : String
  pub theme_id : String
  pub entity_id : Option String
  pub security_id : Option String
  pub role : String
  pub reason : String
  pub evidence_ids : List String
  pub required_evidence_kind : String
  pub priority : ℕ
  pub created_at : ℕ
  pub expires_at : ℕ
  pub state : NominationState
  pub authorizes_action : Bool
  pub may_mutate_watchlist : Bool
  pub execution_allowed : Bool

-- What is read of the packet.
pub record Packet : Type 0 where
  pub packet_id : String
  pub packet_hash : String
  pub reference_id : String
  pub candidates : List Fields

-- `value == 2`
abbrev pub is_two : Option Value → Bool
is_two (some (integer n)) = n == 2
is_two (some (real (some n))) = n == 2
is_two _ = false

-- `value is …`
abbrev pub is_value : Bool → Option Value → Bool
is_value b none = false
is_value b (some value) = is_boolean b value

unfoldable pub mappings : Values → List Fields
mappings end = []
mappings (item (mapping fields) values) = fields ∷ mappings values
mappings (item _ values) = mappings values

abbrev pub list_of : Option Value → Option Values
list_of (some (sequence values)) = some values
list_of _ = none

-- A list of at most twelve, and its mappings.
abbrev pub candidates_of : Option Values → Result NominationError (List Fields)
candidates_of none = raise candidates_invalid
candidates_of (some values) = do
  guard (leb (count_values values) 12) candidates_invalid
  ok (mappings values)

-- `_packet_document` and what follows of the packet.
unfoldable pub packet_of : Value → Result NominationError Packet
packet_of (mapping row) = do
  guard (is_two (lookup "contract_version" row) && is_value false (lookup "execution_allowed" row))
      packet_not_protected
  packet_id ← nomination_uuid "packet identity" (lookup "packet_id" row)
  reference_id ← nomination_uuid "reference identity" (lookup "reference_manifest_id" row)
  packet_hash ←
      tested_text (λ t. is_sha256 (codes t)) packet_hash_invalid (lookup "packet_hash" row)
  candidates ← candidates_of (list_of (lookup "research_candidates" row))
  ok (record {
    packet_id = packet_id;
    packet_hash = packet_hash;
    reference_id = reference_id;
    candidates = candidates;
  })
packet_of _ = raise packet_not_protected

abbrev pub is_text_value : String → Value → Bool
is_text_value s (text t) = str_eq t s
is_text_value s _ = false

-- `text in values`
unfoldable pub has_text : String → Values → Bool
has_text s end = false
has_text s (item value values) = is_text_value s value || has_text s values

abbrev pub is_text_field : String → Option Value → Bool
is_text_field s none = false
is_text_field s (some value) = is_text_value s value

-- `candidate.get(…) == value`, of a text or `None`.
abbrev pub equals_optional : Option String → Option Value → Bool
equals_optional none none = true
equals_optional none (some null) = true
equals_optional none (some _) = false
equals_optional (some s) value = is_text_field s value

-- An item of the evidence that a relationship rests on, with this identifier.
unfoldable pub is_allowed_item : String → Fields → Bool
is_allowed_item id fields =
    is_value true (lookup "relationship_eligible" fields)
    && (is_text_field "supporting" (lookup "role" fields)
        || is_text_field "opposing" (lookup "role" fields))
    && is_text_field id (lookup "item_id" fields)

-- `id in allowed_evidence`
unfoldable pub is_allowed : List Fields → String → Bool
is_allowed [] id = false
is_allowed (fields ∷ evidence) id = is_allowed_item id fields || is_allowed evidence id

abbrev pub is_bound_to :
    NominationRequest
    → (themes roles evidence : Option Values) → (entity security : Option Value) → Bool
is_bound_to request (some themes) (some roles) (some evidence) entity security =
    has_text request.theme_id themes
    && has_text request.role roles
    && equals_optional request.entity_id entity
    && equals_optional request.security_id security
    && all (is_allowed (mappings evidence)) request.evidence_ids
is_bound_to request none roles evidence entity security = false
is_bound_to request (some themes) none evidence entity security = false
is_bound_to request (some themes) (some roles) none entity security = false

-- Whether a candidate of the packet is that of the request.
unfoldable pub is_bound : NominationRequest → Fields → Bool
is_bound request candidate =
    is_bound_to request (list_of (lookup "theme_ids" candidate))
      (list_of (lookup "roles" candidate)) (list_of (lookup "evidence" candidate))
      (lookup "entity_id" candidate) (lookup "security_id" candidate)

-- Seven days, in microseconds.
abbrev pub days_7 : ℕ
days_7 = 604800000000

module _ (is_word : ℕ → Bool) (folded : ℕ → ℕ) (hash_request : NominationRequest → String)
    (name : (packet_id request_hash : String) → String) where
  abbrev pub nomination_of : Packet → (now : ℕ) → NominationRequest → ResearchNomination
  nomination_of packet now request = record {
    nomination_id = name packet.packet_id (hash_request request);
    packet_id = packet.packet_id;
    packet_hash = packet.packet_hash;
    reference_manifest_id = packet.reference_id;
    theme_id = request.theme_id;
    entity_id = request.entity_id;
    security_id = request.security_id;
    role = request.role;
    reason = request.reason;
    evidence_ids = request.evidence_ids;
    required_evidence_kind = request.required_evidence_kind;
    priority = request.priority;
    created_at = now;
    expires_at = now + days_7;
    state = pending;
    authorizes_action = false;
    may_mutate_watchlist = false;
    execution_allowed = false;
  }

  abbrev pub raw_request : (packet_hash : String) → Value → Result NominationError NominationRequest
  raw_request packet_hash (mapping raw) = checked_request is_word folded packet_hash raw
  raw_request packet_hash _ = raise not_reviewed_keys

  -- The loop over the nominations, from the hashes of those before.
  unfoldable pub nominate :
      Packet
      → (now : ℕ) → (request_hashes : List String) → Values
      → Result NominationError (List ResearchNomination)
  nominate packet now request_hashes end = ok []
  nominate packet now request_hashes (item value values) = do
    request ← raw_request packet.packet_hash value
    guard (length (filter (is_bound request) packet.candidates) == 1) not_bound
    guard (not (contains (hash_request request) request_hashes)) duplicated
    rest ← nominate packet now (hash_request request ∷ request_hashes) values
    ok (nomination_of packet now request ∷ rest)

  abbrev pub few_values : Value → Result NominationError Values
  few_values (sequence values) = do guard (leb (count_values values) 3) too_many; ok values
  few_values _ = raise not_a_list

  unfoldable pub validate_research_nominations :
      (nominations packet : Value) → (now : ℕ) → Result NominationError (List ResearchNomination)
  validate_research_nominations nominations packet now = do
    values ← few_values nominations
    row ← packet_of packet
    nominate row now [] values
