-- ===== src/Queue/Sealed.antt =====
-- What `build_selection_manifest` of lib/intelligence/research_queue.py seals is what
-- `validate_selection_manifest` accepts.
use Prim.Native.Nat.{Ordering}
use Prim.Native.String.{compare as compare_texts}
use stocks_agent.Common.{
  sorted_of_IsSorted, sorted-IsSorted, is_after, flip, compare_texts_flip, ℕ, ◌≡◌, refl, true,
  false, Option, List, [], ◌∷◌, map, String, str_eq, str_eq_self, ◌&&◌, all_distinct, ok,
  after_call, after_guard, passed_guard, returned_value, guard, ◌>>◌, ok_injective, subst,
}
use stocks_agent.Policy.Value.{Value, mapping, Fields}
use stocks_agent.Queue.Request.{EnrichmentRequest}
use stocks_agent.Queue.Manifest.{
  BoundRequest, SelectionManifest, ManifestError, identity_invalid, requests_duplicated,
  window_invalid, stage_invalid, compare_keys, sorted_items, is_window, is_stage, is_phase,
  request_ids, manifest_document, bind_request, selection_name, parsed_uuid, sealed_manifest,
  build_selection_manifest, validate_selection_manifest,
}

after_flip : (o : Ordering) → is_after o ≡ true → is_after (flip o) ≡ false
after_flip Ordering.lt later = cc
after_flip Ordering.eq later = refl
after_flip Ordering.gt later = refl

pub sorted_items_twice :
    {A : Type 0} (items : List (String × A))
    → sorted_items (sorted_items items) ≡ sorted_items items
sorted_items_twice items = sorted_of_IsSorted compare_keys (sorted_items items) (
    sorted-IsSorted compare_keys
      (λ x y later. rw (compare_texts_flip x.0 y.0) (after_flip (compare_texts x.0 y.0) later))
      items)

module _ (digest : Value → String) (url_id : String → String)
    (id_in : (space name : String) → String) (parse_uuid : String → Option String) where
  manifest_document-sorted_items :
      (run_id phase : String) (bound : List BoundRequest) (reasons : List (String × String))
      (reservations : List (String × ℕ)) (stage : String)
      → manifest_document digest run_id phase bound
          (sorted_items reasons)
          (sorted_items reservations)
          stage
        ≡ manifest_document digest run_id phase bound reasons reservations stage
  unfolding manifest_document
  manifest_document-sorted_items run_id phase bound reasons reservations stage =
      rw (sorted_items_twice reasons, sorted_items_twice reservations) refl

  requests-bind_request :
      (run_id : String) (window : Fields) (requests : List EnrichmentRequest)
      → map (λ row. row.request) (map (bind_request digest url_id run_id window) requests)
        ≡ requests
  unfolding bind_request
  requests-bind_request run_id window [] = refl
  requests-bind_request run_id window (row ∷ rows) =
      rw (requests-bind_request run_id window rows) refl

  -- What is said of a manifest that is built.
  unfoldable pub IsSealed :
      (run_id phase : String) → List EnrichmentRequest → SelectionManifest → Type 0
  IsSealed run_id phase requests m =
      (validate_selection_manifest digest url_id id_in parse_uuid m ≡ ok m)
      × (map (λ row. row.request) m.requests ≡ requests)
      × (all_distinct (request_ids requests) ≡ true)
      × (m.run_id ≡ run_id)
      × (m.phase ≡ phase)
      × (m.execution_allowed ≡ false)

  sealed_manifest-validates :
      (parsed run_id phase : String) (bound : List BoundRequest) (reasons : List (String × String))
      (reservations : List (String × ℕ)) (stage : String)
      → parsed_uuid (parse_uuid run_id) ≡ ok parsed
      → let m =
          sealed_manifest digest url_id id_in parse_uuid parsed run_id phase bound reasons
            reservations stage in
        validate_selection_manifest digest url_id id_in parse_uuid m ≡ ok m
  unfolding sealed_manifest validate_selection_manifest
  sealed_manifest-validates parsed run_id phase bound reasons reservations stage known =
      let hash =
        digest (mapping (manifest_document digest run_id phase bound reasons reservations stage)) in
      rw
        (
          known,
          manifest_document-sorted_items run_id phase bound reasons reservations stage,
          str_eq_self hash,
          str_eq_self (id_in parsed (selection_name hash)),
        )
        refl

  -- A manifest that is built is accepted as it is. It holds the requests that were given, in their order,
  -- whose ids differ, under the run and the phase that were given, and it permits no execution.
  pub build_selection_manifest-validates :
      (run_id phase : String) (requests : List EnrichmentRequest) (reasons : List (String × String))
      (reservations : List (String × ℕ)) (window : Fields) (stage : String) {m : SelectionManifest}
      → build_selection_manifest digest url_id id_in parse_uuid run_id phase requests reasons
          reservations window stage
        ≡ ok m
      → IsSealed run_id phase requests m
  unfolding build_selection_manifest sealed_manifest IsSealed
  build_selection_manifest-validates run_id phase requests reasons reservations window stage {m}
        built =
      after_call (parsed_uuid (parse_uuid run_id)) _ built (λ parsed known rest.
        let bound = map (bind_request digest url_id run_id window) requests in
        let manifest =
          sealed_manifest digest url_id id_in parse_uuid parsed run_id phase bound reasons
            reservations stage in
        let returned = returned_value {E = ManifestError} manifest in
        let staged = guard (is_stage stage) stage_invalid >> returned in
        let windowed = guard (is_window window) window_invalid >> staged in
        let distinct =
          guard (all_distinct (request_ids requests)) requests_duplicated >> windowed in
        let identified =
          after_guard (str_eq parsed run_id && is_phase phase) identity_invalid distinct rest in
        let in_window =
          after_guard (all_distinct (request_ids requests)) requests_duplicated windowed
            identified in
        let in_stage = after_guard (is_window window) window_invalid staged in_window in
        let same = after_guard (is_stage stage) stage_invalid returned in_stage in
        subst (IsSealed run_id phase requests) (ok_injective same) (
          sealed_manifest-validates parsed run_id phase bound reasons reservations stage known,
          requests-bind_request run_id window requests,
          passed_guard (all_distinct (request_ids requests)) requests_duplicated windowed
              identified,
          refl,
          refl,
          refl,
        ))
