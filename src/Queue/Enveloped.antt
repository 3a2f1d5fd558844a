-- ===== src/Queue/Enveloped.antt =====
-- `build_selection_manifest` of lib/intelligence/research_queue.py on what `select_enrichment_queue` selects.
use stocks_agent.Common.{
  ℕ, ◌-◌, ◌≤◌, ◌≡◌, sym, subst, false, Option, List, map, String, length, All, ok,
}
use stocks_agent.Policy.Value.{Value, Fields}
use stocks_agent.Queue.Candidate.{EnrichmentCandidate}
use stocks_agent.Queue.Request.{
  EnrichmentRequest, limit_of, limits_or_default, select_enrichment_queue,
}
use stocks_agent.Queue.Envelope.{requests_to, IsReadOnly, select_enrichment_queue-envelope}
use stocks_agent.Queue.Manifest.{
  SelectionManifest, build_selection_manifest, validate_selection_manifest,
}
use stocks_agent.Queue.Sealed.{IsSealed, build_selection_manifest-validates}

-- The requests stay in the limits of the run, and each of them only reads.
unfoldable pub IsEnveloped :
    (max_requests reserve : ℕ)
    → (provider_limits : List (String × ℕ)) → List EnrichmentRequest
    → Type 0
IsEnveloped max_requests reserve provider_limits requests =
    let limits = limits_or_default provider_limits (max_requests - reserve) in
    (length requests ≤ max_requests - reserve)
    × (requests_to "sec_edgar" requests ≤ limit_of "sec_edgar" limits)
    × (requests_to "yahoo" requests ≤ limit_of "yahoo" limits)
    × All IsReadOnly requests

-- If a queue is selected and a manifest of its requests is built, validation accepts the manifest as it
-- is, the manifest permits no execution, and its requests stay in the envelope of the run: at most
-- `max_requests` less the reserve for the holdings, no more for EDGAR or Yahoo than the provider's
-- limit, and each one that the provider answers and that execution is not allowed for.
pub build_selection_manifest-IsEnveloped :
    (identify : (kind : String) → List (String × String) → List String → String)
    (digest : Value → String) (url_id : String → String) (id_in : (space name : String) → String)
    (parse_uuid : String → Option String) (hypotheses : List EnrichmentCandidate)
    (max_entities max_requests reserve : ℕ) (provider_limits : List (String × ℕ))
    (run_id phase : String) (requests : List EnrichmentRequest) (reasons : List (String × String))
    (reservations : List (String × ℕ)) (window : Fields) (stage : String) {m : SelectionManifest}
    → select_enrichment_queue identify hypotheses max_entities max_requests reserve provider_limits
      ≡ ok requests
    → build_selection_manifest digest url_id id_in parse_uuid run_id phase requests reasons
        reservations window stage
      ≡ ok m
    → (validate_selection_manifest digest url_id id_in parse_uuid m ≡ ok m)
      × (m.execution_allowed ≡ false)
      × IsEnveloped max_requests reserve provider_limits (map (λ row. row.request) m.requests)
unfolding IsSealed IsEnveloped
build_selection_manifest-IsEnveloped identify digest url_id id_in parse_uuid hypotheses max_entities
      max_requests reserve provider_limits run_id phase requests reasons reservations window stage
      selected built =
    let (accepted, same, _, _, _, refused) =
      build_selection_manifest-validates digest url_id id_in parse_uuid run_id phase requests
        reasons reservations window stage built in
    (
      accepted,
      refused,
      subst (IsEnveloped max_requests reserve provider_limits) (sym same) (
          select_enrichment_queue-envelope identify hypotheses max_entities max_requests reserve
            provider_limits requests selected),
    )
