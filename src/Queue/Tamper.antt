-- ===== src/Queue/Tamper.antt =====
-- What the hash and the identity of a selection manifest of lib/intelligence/research_queue.py tell apart.
use stocks_agent.Common.{
  both, of_not, subst, ◌≡◌, refl, ◌∙◌, ap, sym, false, not, Option, List, [], ◌∷◌, map, String,
  str_eq, str_eq→eq, ◌&&◌, ok, after_call, after_guard, passed_guard, guard, ◌>>◌, ok_injective,
  returned_value,
}
use stocks_agent.Policy.Value.{Value, mapping}
use stocks_agent.Queue.Manifest.{
  BoundRequest, SelectionManifest, hash_mismatch, authorizes_execution, manifest_document,
  request_descriptors, descriptor_hash, parsed_uuid, selection_name, validate_selection_manifest,
}

module _ (digest : Value → String) where
  -- The document that the hash of a manifest is taken of.
  unfoldable pub document_of : SelectionManifest → Value
  document_of m = mapping (
      manifest_document digest m.run_id m.phase m.requests m.deferred_reasons
        m.provider_reservations m.selection_stage)

  -- Two manifests select the same requests, in the same order, for the same run.
  unfoldable pub IsSameSelection : SelectionManifest → SelectionManifest → Type 0
  IsSameSelection m n =
      (m.manifest_id ≡ n.manifest_id)
      × (m.run_id ≡ n.run_id)
      × (m.phase ≡ n.phase)
      × (m.selection_stage ≡ n.selection_stage)
      × (map (λ row. row.request.request_id) m.requests
          ≡ map (λ row. row.request.request_id) n.requests)
      × (map (descriptor_hash digest) m.requests ≡ map (descriptor_hash digest) n.requests)
      × (m.execution_allowed ≡ false)
      × (n.execution_allowed ≡ false)

  request_descriptors_injective :
      (rows others : List BoundRequest)
      → request_descriptors digest rows ≡ request_descriptors digest others
      → (map (λ row. row.request.request_id) rows ≡ map (λ row. row.request.request_id) others)
        × (map (descriptor_hash digest) rows ≡ map (descriptor_hash digest) others)
  request_descriptors_injective [] [] same = (refl, refl)
  request_descriptors_injective [] (other ∷ others) same = cc
  request_descriptors_injective (row ∷ rows) [] same = cc
  request_descriptors_injective (row ∷ rows) (other ∷ others) same =
      let tail : request_descriptors digest rows ≡ request_descriptors digest others = cc in
      let (ids, hashes) = request_descriptors_injective rows others tail in (cc, cc)

  module _ (url_id : String → String) (id_in : (space name : String) → String)
      (parse_uuid : String → Option String) where
    -- What a manifest satisfies that is accepted.
    unfoldable IsAccepted : SelectionManifest → Type 0
    IsAccepted m =
        (parsed : String) × (parsed_uuid (parse_uuid m.run_id) ≡ ok parsed)
        × (digest (document_of m) ≡ m.semantic_hash)
        × (id_in parsed (selection_name m.semantic_hash) ≡ m.manifest_id)
        × (m.execution_allowed ≡ false)

    validate_selection_manifest-IsAccepted :
        (m : SelectionManifest) {n : SelectionManifest}
        → validate_selection_manifest digest url_id id_in parse_uuid m ≡ ok n
        → IsAccepted m
    unfolding validate_selection_manifest document_of IsAccepted
    validate_selection_manifest-IsAccepted m accepted =
        after_call (parsed_uuid (parse_uuid m.run_id)) _ accepted (λ parsed known rest.
          let hash = digest (document_of m) in
          let matches =
            str_eq hash m.semantic_hash
            && str_eq (id_in parsed (selection_name hash)) m.manifest_id in
          let allowed = guard (not m.execution_allowed) authorizes_execution >> returned_value m in
          let both = both (passed_guard matches hash_mismatch allowed rest) in
          let same = str_eq→eq hash m.semantic_hash both.0 in
          let identity = str_eq→eq (id_in parsed (selection_name hash)) m.manifest_id both.1 in
          let refused =
            passed_guard (not m.execution_allowed) authorizes_execution (returned_value m)
              (after_guard matches hash_mismatch allowed rest) in
          (
            parsed,
            known,
            same,
            subst (λ h. id_in parsed (selection_name h) ≡ m.manifest_id) same identity,
            of_not refused,
          ))

    -- Two accepted manifests with the same semantic hash, whose documents the digest tells apart if they
    -- differ, select the same requests with the same descriptor hashes, in the same order, for the same run,
    -- phase and stage, have the same identity, and permit no execution.
    pub validate_selection_manifest-same :
        (m n : SelectionManifest) {m' n' : SelectionManifest}
        → (digest (document_of m) ≡ digest (document_of n) → document_of m ≡ document_of n)
        → validate_selection_manifest digest url_id id_in parse_uuid m ≡ ok m'
        → validate_selection_manifest digest url_id id_in parse_uuid n ≡ ok n'
        → m.semantic_hash ≡ n.semantic_hash
        → IsSameSelection m n
    unfolding IsAccepted IsSameSelection document_of manifest_document
    validate_selection_manifest-same m n apart accepted accepted' same_hash =
        let (parsed, known, hashed, identity, refused) =
          validate_selection_manifest-IsAccepted m accepted in
        let (parsed', known', hashed', identity', refused') =
          validate_selection_manifest-IsAccepted n accepted' in
        let same = apart (hashed ∙ same_hash ∙ sym hashed') in
        let same_run : m.run_id ≡ n.run_id = cc in
        let (ids, hashes) = request_descriptors_injective m.requests n.requests cc in
        let same_parsed : parsed ≡ parsed' =
          ok_injective (sym known ∙ ap (λ r. parsed_uuid (parse_uuid r)) same_run ∙ known') in
        (cc, same_run, cc, cc, ids, hashes, refused, refused')
