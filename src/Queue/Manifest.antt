-- ===== src/Queue/Manifest.antt =====
-- `SelectionManifest`, `build_selection_manifest` and `validate_selection_manifest` of
-- lib/intelligence/research_queue.py. Parameters: `url_id name` is the UUID of a name in the namespace of
-- URLs, `id_in space name` the UUID of a name in another namespace, `parse_uuid` the canonical text of
-- a UUID that is given as a text, and `digest` the SHA-256 of the canonical JSON of a value.
use Prim.Native.String.{compare as compare_texts, ◌++◌ as append_text}
use Prim.Native.Nat.{Ordering}
use stocks_agent.Common.{
  ◌&&◌, sorted, ℕ, Bool, false, not, Option, none, some, List, [], ◌∷◌, map, String, str_eq,
  contains, all_distinct, if◌then◌else◌, Result, ok, raise, ◌>>=◌, ◌>>◌, guard,
}
use stocks_agent.Policy.Value.{
  Value, boolean, integer, text, sequence, mapping, Values, end, item, Fields, no_field, field,
  lookup, set_field, has_exactly,
}
use stocks_agent.Queue.Request.{EnrichmentRequest}
use stocks_agent.Queue.Reservation.{phase_envelopes}

-- An `EnrichmentRequest` with the descriptor and the window that the manifest gives it.
-- `request` is as `select_enrichment_queue` makes it: its security and its ticker are texts, and so are
-- the values of its own descriptor.
pub record BoundRequest : Type 0 where
  pub request : EnrichmentRequest
  pub descriptor : Fields
  pub requested_window : Fields

pub record SelectionManifest : Type 0 where
  pub manifest_id : String
  pub run_id : String
  pub phase : String
  pub requests : List BoundRequest
  pub deferred_reasons : List (String × String)
  pub provider_reservations : List (String × ℕ)
  pub semantic_hash : String
  pub selection_stage : String
  pub execution_allowed : Bool

pub data ManifestError : Type 0 where
  run_id_invalid identity_invalid requests_duplicated window_invalid stage_invalid : ManifestError
  hash_mismatch authorizes_execution : ManifestError

abbrev pub text_values : List String → Values
text_values [] = end
text_values (s ∷ ss) = item (text s) (text_values ss)

abbrev pub text_fields : List (String × String) → Fields
text_fields [] = no_field
text_fields ((key, s) ∷ rest) = field key (text s) (text_fields rest)

abbrev pub count_fields : List (String × ℕ) → Fields
count_fields [] = no_field
count_fields ((key, n) ∷ rest) = field key (integer n) (count_fields rest)

-- The entries of a dict display that follow `**dict(…)`.
unfoldable pub set_fields : List (String × Value) → Fields → Fields
set_fields [] fields = fields
set_fields ((key, value) ∷ rest) fields = set_fields rest (set_field key value fields)

-- `sorted(….items())`: the keys of a dict differ, so its values are never compared.
abbrev pub compare_keys : {A : Type 0} → String × A → String × A → Ordering
compare_keys a b = compare_texts a.0 b.0

abbrev pub sorted_items : {A : Type 0} → List (String × A) → List (String × A)
sorted_items items = sorted compare_keys items

abbrev pub is_named_text : Option Value → Bool
is_named_text (some (text s)) = not (str_eq s "")
is_named_text _ = false

abbrev pub is_window : Fields → Bool
is_window window =
    has_exactly ("start" ∷ "end" ∷ []) window
    && is_named_text (lookup "start" window)
    && is_named_text (lookup "end" window)

abbrev pub is_stage : String → Bool
is_stage stage = contains stage ("holding_quotes" ∷ "initial" ∷ "filing_documents" ∷ [])

abbrev pub is_phase : String → Bool
is_phase phase = contains phase (map (λ e. e.0) phase_envelopes)

abbrev pub request_ids : List EnrichmentRequest → List String
request_ids rows = map (λ row. row.request_id) rows

abbrev pub selection_name : (hash : String) → String
selection_name hash = append_text "enrichment-selection:" hash

-- `uuid.UUID(run_id)`, which raises `ValueError` of any other text
abbrev pub parsed_uuid : (parsed : Option String) → Result ManifestError String
parsed_uuid none = raise run_id_invalid
parsed_uuid (some parsed) = ok parsed

-- `_persistence_document`
unfoldable pub persistence_document : BoundRequest → Fields
persistence_document row = field "request_id" (text row.request.request_id) (
    field "task_id" (text row.request.request_id) (
      field "stage" (text (if str_eq row.request.query_kind "quote" then "quote" else "enrich")) (
        field "provider" (text row.request.provider) (
          field "capability_id" (text row.request.capability_id) (
            field "descriptor" (mapping row.descriptor) (
              field "query_kind" (text row.request.query_kind) (
                field "dependency_ids" (sequence (text_values row.request.dependency_task_ids)) (
                  field "requested_window" (mapping row.requested_window) (
                    field "request_budget" (integer 1)
                      (field "execution_allowed" (boolean false) no_field))))))))))

module _ (digest : Value → String) where
  unfoldable pub descriptor_hash : BoundRequest → String
  descriptor_hash row = digest (mapping (persistence_document row))

  abbrev pub request_descriptors : List BoundRequest → Values
  request_descriptors [] = end
  request_descriptors (row ∷ rows) =
      item
        (mapping (
          field "request_id" (text row.request.request_id)
            (field "descriptor_hash" (text (descriptor_hash row)) no_field)))
        (request_descriptors rows)

  -- `_manifest_document`
  unfoldable pub manifest_document :
      (run_id phase : String)
      → List BoundRequest
      → List (String × String)
      → List (String × ℕ)
      → (stage : String) → Fields
  manifest_document run_id phase requests reasons reservations stage =
      field "deferred_reasons" (mapping (text_fields (sorted_items reasons))) (
        field "execution_allowed" (boolean false) (
          field "phase" (text phase) (
            field "provider_reservations" (mapping (count_fields (sorted_items reservations))) (
              field "request_descriptors" (sequence (request_descriptors requests)) (
                field "run_id" (text run_id) (
                  field "schema_version" (integer 1)
                    (field "selection_stage" (text stage) no_field)))))))

  module _ (url_id : String → String) where
    abbrev pub receipt_name : (purpose run_id name : String) → String
    receipt_name purpose run_id name =
        append_text "market-intelligence:"
          (append_text purpose (append_text ":" (append_text run_id (append_text ":" name))))

    -- `base` before its cache key is set.
    unfoldable pub bound_descriptor : (run_id : String) → EnrichmentRequest → Fields
    bound_descriptor run_id row =
        set_fields
          (("adverse_path", boolean row.adverse_path)
            ∷ ("cik", text row.cik)
            ∷ ("dependency_task_ids", sequence (text_values row.dependency_task_ids))
            ∷ ("entity_id", text row.entity_id)
            ∷ ("event_ids", sequence (text_values row.event_ids))
            ∷ ("hypothesis_ids", sequence (text_values row.hypothesis_ids))
            ∷ ("instrument_type", text row.instrument_type)
            ∷ ("priority", integer row.priority)
            ∷ ("reference_manifest_id", text row.reference_manifest_id)
            ∷ ("reservation_id", text (url_id (receipt_name "reservation" run_id row.provider)))
            ∷ ("role", text row.role)
            ∷ ("source_item_ids", sequence (text_values row.source_item_ids))
            ∷ ("source_receipt_id", text (url_id (receipt_name "receipt" run_id row.request_id)))
            ∷ ("security_id", text row.security_id)
            ∷ ("security_revision_id", text row.security_revision_id)
            ∷ ("theme_id", text row.theme_id)
            ∷ ("ticker", text row.ticker)
            ∷ [])
          (text_fields row.descriptor)

    unfoldable pub cache_key_of : (window : Fields) → EnrichmentRequest → (base : Fields) → String
    cache_key_of window row base = digest (
        mapping (
          field "capability_id" (text row.capability_id) (
            field "descriptor" (mapping base) (
              field "provider" (text row.provider) (
                field "query_kind" (text row.query_kind)
                  (field "requested_window" (mapping window) no_field))))))

    -- The body of the loop over the requests.
    unfoldable pub bind_request :
        (run_id : String) → (window : Fields) → EnrichmentRequest → BoundRequest
    bind_request run_id window row =
        let base = bound_descriptor run_id row in
        record {
          request = row;
          descriptor = set_field "cache_key" (text (cache_key_of window row base)) base;
          requested_window = window;
        }

    module _ (id_in : (space name : String) → String) (parse_uuid : String → Option String) where
      unfoldable pub sealed_manifest :
          (parsed run_id phase : String)
          → List BoundRequest
          → List (String × String)
          → List (String × ℕ)
          → (stage : String) → SelectionManifest
      sealed_manifest parsed run_id phase bound reasons reservations stage =
          let hash =
            digest (mapping (manifest_document run_id phase bound reasons reservations stage)) in
          record {
            manifest_id = id_in parsed (selection_name hash);
            run_id = run_id;
            phase = phase;
            requests = bound;
            deferred_reasons = sorted_items reasons;
            provider_reservations = sorted_items reservations;
            semantic_hash = hash;
            selection_stage = stage;
            execution_allowed = false;
          }

      unfoldable pub build_selection_manifest :
          (run_id phase : String)
          → List EnrichmentRequest
          → (reasons : List (String × String)) → (reservations : List (String × ℕ))
          → (window : Fields) → (stage : String) → Result ManifestError SelectionManifest
      build_selection_manifest run_id phase requests reasons reservations window stage = do
        parsed ← parsed_uuid (parse_uuid run_id)
        guard (str_eq parsed run_id && is_phase phase) identity_invalid
        guard (all_distinct (request_ids requests)) requests_duplicated
        guard (is_window window) window_invalid
        guard (is_stage stage) stage_invalid
        let bound = map (bind_request run_id window) requests
        ok (sealed_manifest parsed run_id phase bound reasons reservations stage)

      unfoldable pub validate_selection_manifest :
          SelectionManifest → Result ManifestError SelectionManifest
      validate_selection_manifest m = do
        parsed ← parsed_uuid (parse_uuid m.run_id)
        let hash = digest (
            mapping (
              manifest_document m.run_id m.phase m.requests m.deferred_reasons
                m.provider_reservations m.selection_stage))
        guard
            (str_eq hash m.semantic_hash
              && str_eq (id_in parsed (selection_name hash)) m.manifest_id)
            hash_mismatch
        guard (not m.execution_allowed) authorizes_execution
        ok m
