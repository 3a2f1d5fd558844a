-- ===== src/Queue/ManifestExamples.antt =====
-- A selection manifest of two requests, and the theorems at it.
use Prim.Native.String.{◌++◌ as append_text}
use stocks_agent.Common.{
  sorted, insert_sorted, ◌≡◌, refl, false, Option, some, List, [], ◌∷◌, String, ok, raise,
}
use stocks_agent.Policy.Value.{
  Value, text, sequence, mapping, Values, end, item, Fields, no_field, field, lookup, set_field,
  has_exactly, keys_of, all_in,
}
use stocks_agent.Queue.Request.{EnrichmentRequest}
use stocks_agent.Queue.Manifest.{
  SelectionManifest, requests_duplicated, set_fields, persistence_document, descriptor_hash,
  manifest_document, bound_descriptor, cache_key_of, bind_request, sealed_manifest,
  build_selection_manifest, validate_selection_manifest,
}
use stocks_agent.Queue.Sealed.{IsSealed, build_selection_manifest-validates}
use stocks_agent.Queue.Tamper.{document_of, IsSameSelection, validate_selection_manifest-same}

-- For the digest, the texts of a value and the keys of its mappings, one after the other.
mutual
  all_texts : Value → String
  all_texts (text s) = s
  all_texts (sequence values) = texts_of_values values
  all_texts (mapping fields) = texts_of_fields fields
  all_texts _ = "."

  texts_of_values : Values → String
  texts_of_values end = ""
  texts_of_values (item value values) = append_text (all_texts value) (texts_of_values values)

  texts_of_fields : Fields → String
  texts_of_fields no_field = ""
  texts_of_fields (field key value fields) =
      append_text key (append_text (all_texts value) (texts_of_fields fields))

abbrev url_name : String → String
url_name name = append_text "url/" name

abbrev joined : String → String → String
joined space name = append_text space (append_text "/" name)

abbrev known_uuid : String → Option String
known_uuid name = some name

abbrev quote : (id : String) → (ticker : String) → EnrichmentRequest
quote id ticker = record {
  request_id = id;
  entity_id = "acme";
  security_id = "s1";
  security_revision_id = "v1";
  reference_manifest_id = "m1";
  cik = "0000000001";
  ticker = ticker;
  instrument_type = "COMMON_STOCK";
  event_ids = "e1" ∷ [];
  theme_id = "chips";
  role = "supplier";
  hypothesis_ids = "h1" ∷ [];
  source_item_ids = "i1" ∷ [];
  dependency_task_ids = "t1" ∷ [];
  provider = "yahoo";
  capability_id = "yahoo_security_quote";
  query_kind = "quote";
  descriptor = ("symbol", ticker) ∷ [];
  adverse_path = false;
  priority = 1;
  execution_allowed = false;
}

abbrev requests : List EnrichmentRequest
requests = quote "r1" "ABC" ∷ quote "r2" "XYZ" ∷ []

abbrev window : Fields
window = field "start" (text "2026-01-01") (field "end" (text "2026-01-02") no_field)

abbrev manifest : SelectionManifest
manifest =
    sealed_manifest all_texts url_name joined known_uuid "run" "run" "intraday"
      (bind_request all_texts url_name "run" window (quote "r1" "ABC")
        ∷ bind_request all_texts url_name "run" window (quote "r2" "XYZ")
        ∷ [])
      (("h9", "budget") ∷ ("h2", "provider") ∷ []) (("yahoo", 1) ∷ ("sec_edgar", 1) ∷ []) "initial"

-- Two requests of one name are refused.
duplicated :
    build_selection_manifest all_texts url_name joined known_uuid "run" "intraday"
      (quote "r1" "ABC" ∷ quote "r1" "XYZ" ∷ [])
      []
      []
      window
      "initial"
    ≡ raise requests_duplicated
unfolding build_selection_manifest
duplicated = refl

built :
    build_selection_manifest all_texts url_name joined known_uuid "run" "intraday" requests
      (("h9", "budget") ∷ ("h2", "provider") ∷ [])
      (("yahoo", 1) ∷ ("sec_edgar", 1) ∷ [])
      window
      "initial"
    ≡ ok manifest
unfolding build_selection_manifest has_exactly all_in keys_of lookup
built = refl

build_selection_manifest-validates_example :
    IsSealed all_texts url_name joined known_uuid "run" "intraday" requests manifest
build_selection_manifest-validates_example =
    build_selection_manifest-validates all_texts url_name joined known_uuid "run" "intraday"
      requests (("h9", "budget") ∷ ("h2", "provider") ∷ []) (("yahoo", 1) ∷ ("sec_edgar", 1) ∷ [])
      window "initial" built

-- The same manifest with its reasons in the order in which they were given.
abbrev reordered : SelectionManifest
reordered = record manifest { deferred_reasons = ("h9", "budget") ∷ ("h2", "provider") ∷ [] }

same_hash : manifest.semantic_hash ≡ reordered.semantic_hash
unfolding sealed_manifest
same_hash = refl

accepted : validate_selection_manifest all_texts url_name joined known_uuid manifest ≡ ok manifest
unfolding IsSealed
accepted = build_selection_manifest-validates_example.0

reordered_document : document_of all_texts manifest ≡ document_of all_texts reordered
unfolding document_of manifest_document sealed_manifest sorted insert_sorted
reordered_document = refl

reordered_accepted :
    validate_selection_manifest all_texts url_name joined known_uuid reordered ≡ ok reordered
unfolding validate_selection_manifest manifest_document sealed_manifest bind_request descriptor_hash
    persistence_document bound_descriptor cache_key_of set_fields set_field all_texts sorted
    insert_sorted
reordered_accepted = refl

validate_selection_manifest-same_example : IsSameSelection all_texts manifest reordered
validate_selection_manifest-same_example =
    validate_selection_manifest-same all_texts url_name joined known_uuid manifest reordered
      (λ same. reordered_document) accepted reordered_accepted same_hash
