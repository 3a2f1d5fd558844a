-- ===== src/Queue/Examples.antt =====
-- Four candidates of two themes, and the theorems at them.
use Prim.Native.String.{◌++◌ as append_text}
use stocks_agent.Common.{
  map, Option, some, insert_sorted, sorted, ℕ, ◌≤◌, ◌≡◌, refl, ◌⊎◌, inl, inr, true, false, List, [],
  ◌∷◌, String, ok, raise, arith, length, contains, all_distinct,
}
use stocks_agent.Queue.Reservation.{
  phase_not_approved, envelope, envelope_in, adaptive_provider_reservations,
}
use stocks_agent.Queue.Candidate.{EnrichmentCandidate, compare_candidates}
use stocks_agent.Queue.RoundRobin.{
  append_to_theme, group_by_theme, next_row, select_chosen, keep_theme, visit_themes, sorted_themes,
  rounds, round_robin, round_robin_candidates,
}
use stocks_agent.Queue.Limits.{entities, count, round_robin-limits}
use stocks_agent.Queue.Passed.{round_robin_complete}
use stocks_agent.Queue.Request.{
  EnrichmentRequest, max_requests_invalid, sorted_set, of_entity, of_security, put_security,
  by_security, concatenated, any_adverse, limit_of, submissions_request, quote_request,
  add_submissions, add_quotes, add_head, add_heads, limits_or_default, drafted,
  select_enrichment_queue,
}
use stocks_agent.Queue.Manifest.{
  SelectionManifest, bind_request, sealed_manifest, build_selection_manifest,
  validate_selection_manifest,
}
use stocks_agent.Queue.Enveloped.{IsEnveloped, build_selection_manifest-IsEnveloped}
use stocks_agent.Policy.Value.{
  Value, text, Fields, no_field, field, lookup, keys_of, all_in, has_exactly,
}
use stocks_agent.Cursor.Update.{first_occurrences}

abbrev candidate :
    (id : String)
    → (event : String) → (theme : String) → (entity : String) → (security : String) → ℕ
    → EnrichmentCandidate
candidate id event theme entity security novelty = record {
  hypothesis = record {
    hypothesis_id = id;
    event_id = event;
    theme_id = theme;
    role = "supplier";
    adverse_path = false;
  };
  entity_id = entity;
  security_id = security;
  security_revision_id = "v1";
  reference_manifest_id = "m1";
  cik = "0000000001";
  ticker = "ABC";
  instrument_type = "COMMON_STOCK";
  source_item_ids = "i1" ∷ [];
  dependency_task_ids = "t1" ∷ [];
  official_support = true;
  novelty = novelty;
}

abbrev chips : EnrichmentCandidate
chips = candidate "h1" "e1" "chips" "acme" "s1" 90

abbrev chips_again : EnrichmentCandidate
chips_again = candidate "h2" "e2" "chips" "acme" "s2" 80

abbrev power : EnrichmentCandidate
power = candidate "h3" "e1" "power" "grid" "s3" 10

abbrev spare : EnrichmentCandidate
spare = candidate "h4" "e1" "chips" "fab" "s4" 5

abbrev candidates : List EnrichmentCandidate
candidates = chips_again ∷ power ∷ chips ∷ spare ∷ []

program : Unit {0}
unfolding envelope_in adaptive_provider_reservations compare_candidates insert_sorted sorted
    append_to_theme group_by_theme next_row select_chosen keep_theme visit_themes sorted_themes
    rounds round_robin round_robin_candidates sorted_set of_entity of_security put_security
    by_security concatenated any_adverse limit_of submissions_request quote_request add_submissions
    add_quotes add_head add_heads limits_or_default drafted select_enrichment_queue
    first_occurrences
program = tt

-- One of each theme. The third candidate's event is used twice, and the fourth has the first's entity.
chosen : round_robin_candidates candidates 4 ≡ chips ∷ power ∷ []
unfolding program
chosen = refl

round_robin-limits_example :
    (length (round_robin_candidates candidates 4) ≤ 4)
    × (all_distinct (entities (round_robin_candidates candidates 4)) ≡ true)
    × ((event : String) → count event (round_robin_candidates candidates 4) ≤ 2)
round_robin-limits_example = round_robin-limits candidates 4

round_robin_complete_example :
    (contains "fab" (entities (round_robin_candidates candidates 4)) ≡ true)
    ⊎ (count "e1" (round_robin_candidates candidates 4) ≡ 2)
unfolding program
round_robin_complete_example =
    round_robin_complete candidates 4 spare (inr (inr (inr (inl refl)))) (omega arith)

-- A name that stands for the UUID of the query.
abbrev identify : (kind : String) → List (String × String) → List String → String
identify kind descriptor [] = kind
identify kind descriptor (id ∷ ids) = append_text kind id

abbrev queue : List EnrichmentRequest
queue =
    submissions_request identify 1 chips (chips ∷ chips_again ∷ [])
    ∷ quote_request identify 1 chips (chips ∷ chips_again ∷ [])
    ∷ submissions_request identify 2 power (power ∷ [])
    ∷ []

queued :
    select_enrichment_queue identify candidates 4 5 2 (("yahoo", 1) ∷ ("sec_edgar", 3) ∷ [])
    ≡ ok queue
unfolding program
queued = refl

refused : select_enrichment_queue identify candidates 4 101 2 [] ≡ raise max_requests_invalid
unfolding program
refused = refl

abbrev window : Fields
window = field "start" (text "2026-01-01") (field "end" (text "2026-01-02") no_field)

abbrev digest : Value → String
digest document = "hash"

abbrev url_name : String → String
url_name name = name

abbrev joined : String → String → String
joined space name = append_text space name

abbrev known_uuid : String → Option String
known_uuid name = some name

abbrev manifest : SelectionManifest
manifest =
    sealed_manifest digest url_name joined known_uuid "run" "run" "intraday"
      (map (bind_request digest url_name "run" window) queue) [] [] "initial"

sealed :
    build_selection_manifest digest url_name joined known_uuid "run" "intraday" queue [] [] window
      "initial"
    ≡ ok manifest
unfolding program build_selection_manifest has_exactly all_in keys_of lookup
sealed = refl

build_selection_manifest-IsEnveloped_example :
    (validate_selection_manifest digest url_name joined known_uuid manifest ≡ ok manifest)
    × (manifest.execution_allowed ≡ false)
    × IsEnveloped 5 2
        (("yahoo", 1) ∷ ("sec_edgar", 3) ∷ [])
        (map (λ row. row.request) manifest.requests)
build_selection_manifest-IsEnveloped_example =
    build_selection_manifest-IsEnveloped identify digest url_name joined known_uuid candidates 4 5 2
      (("yahoo", 1) ∷ ("sec_edgar", 3) ∷ []) "run" "intraday" queue [] [] window "initial" queued
      sealed

reserved : adaptive_provider_reservations "pre-market" ≡ ok (envelope 3 3 4 2)
unfolding program
reserved = refl

unknown_phase : adaptive_provider_reservations "overnight" ≡ raise phase_not_approved
unfolding program
unknown_phase = refl
