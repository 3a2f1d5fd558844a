-- ===== src/Nomination/Examples.antt =====
-- A nomination accepted and some refused by lib/intelligence/research_queue.py, and the theorem at it.
use Prim.Native.String.{◌++◌ as append_text}
use stocks_agent.Common.{
  ℕ, ◌+◌, ◌≤◌, ◌≡◌, refl, Bool, true, false, ◌||◌, List, [], String, length, ◌==◌, if◌then◌else◌,
  insert_sorted, sorted, Result, ok, raise,
}
use stocks_agent.Relation.Text.{push_char, split}
use stocks_agent.Policy.Value.{
  Value, null, boolean, integer, text, sequence, mapping, Values, end, item, no_field, field,
  lookup, keys_of, all_in, has_exactly, is_boolean,
}
use stocks_agent.Nomination.Pattern.{
  is_between, is_snake_name, is_identifier, is_sha256, is_canonical_uuid, is_theme, match_word,
  is_unsafe_at, is_unsafe,
}
use stocks_agent.Nomination.Request.{
  NominationError, not_bound, reason_unsafe, duplicated, NominationRequest, nomination_uuid,
  nomination_uuids, spaced, count_values, checked_reason, checked_request,
}
use stocks_agent.Nomination.Validate.{
  ResearchNomination, Packet, mappings, packet_of, has_text, is_allowed_item, is_allowed, is_bound,
  nominate, validate_research_nominations,
}
use stocks_agent.Nomination.Bound.{AreNominated, validate_research_nominations-AreNominated}

-- The tables of `re` for ASCII.
abbrev is_ascii_word : ℕ → Bool
is_ascii_word c = is_between 48 57 c || is_between 65 90 c || is_between 97 122 c || c == 95

abbrev ascii_folded : ℕ → ℕ
ascii_folded c = if is_between 65 90 c then c + 32 else c

-- A hash and a name that tell the requests of the example apart.
abbrev hash_reason : NominationRequest → String
hash_reason request = request.reason

abbrev joined : String → String → String
joined packet_id request_hash = append_text packet_id request_hash

abbrev packet_id : String
packet_id = "00000000-0000-4000-8000-000000000001"

abbrev evidence_id : String
evidence_id = "00000000-0000-4000-8000-000000000002"

abbrev hash : String
hash = "0123456789abcdef0123456789abcdef0123456789abcdef0123456789abcdef"

abbrev one_text : String → Value
one_text value = sequence (item (text value) end)

abbrev evidence : Value
evidence = mapping (
    field "item_id" (text evidence_id)
      (field "relationship_eligible" (boolean true) (field "role" (text "supporting") no_field)))

abbrev candidate : Value
candidate = mapping (
    field "theme_ids" (one_text "grid_power") (
      field "roles" (one_text "supplier") (
        field "entity_id" (text "cik:1")
          (field "evidence" (sequence (item evidence end)) no_field))))

abbrev packet : Value
packet = mapping (
    field "contract_version" (integer 2) (
      field "execution_allowed" (boolean false) (
        field "packet_id" (text packet_id) (
          field "reference_manifest_id" (text packet_id) (
            field "packet_hash" (text hash)
              (field "research_candidates" (sequence (item candidate end)) no_field))))))

abbrev nomination : (role reason : String) → Value
nomination role reason = mapping (
    field "theme_id" (text "grid_power") (
      field "entity_id" (text "cik:1") (
        field "security_id" null (
          field "role" (text role) (
            field "reason" (text reason) (
              field "evidence_ids" (one_text evidence_id) (
                field "required_evidence_kind" (text "current_filing")
                  (field "priority" (integer 2) no_field))))))))

abbrev validated : Values → Result NominationError (List ResearchNomination)
validated values =
    validate_research_nominations is_ascii_word ascii_folded hash_reason joined (sequence values)
      packet 1000

program : Unit {0}
unfolding insert_sorted sorted push_char split lookup keys_of all_in has_exactly is_boolean
    is_snake_name is_identifier is_sha256 is_canonical_uuid is_theme match_word is_unsafe_at
    is_unsafe nomination_uuid nomination_uuids spaced count_values checked_reason checked_request
    mappings packet_of has_text is_allowed_item is_allowed is_bound nominate
    validate_research_nominations
program = tt

abbrev returned : Result NominationError (List ResearchNomination) → List ResearchNomination
returned (ok nominations) = nominations
returned (raise exception) = []

-- The space is made single, and the borders of words are seen: "reordering" is no order.
abbrev nominations : Values
nominations = item (nomination "supplier" "confirm the  reordering in the filing") end

accepted : validated nominations ≡ ok (returned (validated nominations))
unfolding program
accepted = refl

accepted_one : length (returned (validated nominations)) ≡ 1
unfolding program
accepted_one = refl

unsafe :
    validated (item (nomination "supplier" "please Buy on the next filing") end)
    ≡ raise reason_unsafe
unfolding program
unsafe = refl

elsewhere :
    validated (item (nomination "customer" "confirm the exposure in the filing") end)
    ≡ raise not_bound
unfolding program
elsewhere = refl

repeated :
    validated (
      item
        (nomination "supplier" "confirm the reordering in the filing")
        (item (nomination "supplier" "confirm the  reordering in the filing") end))
    ≡ raise duplicated
unfolding program
repeated = refl

validate_research_nominations-AreNominated_example :
    (row : Packet) × (requests : List NominationRequest) × (packet_of packet ≡ ok row)
    × (length requests ≤ 3)
    × AreNominated is_ascii_word ascii_folded hash_reason joined row 1000 requests
        (returned (validated nominations))
validate_research_nominations-AreNominated_example =
    validate_research_nominations-AreNominated is_ascii_word ascii_folded hash_reason joined
      (sequence nominations) packet 1000 (returned (validated nominations)) accepted
