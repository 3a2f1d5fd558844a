-- ===== src/Queue/Request.antt =====
-- `EnrichmentRequest` and `select_enrichment_queue` of lib/intelligence/research_queue.py. What
-- names a request, the UUID of the SHA-256 of its canonical JSON, is the parameter `identify`.
use Prim.Native.Nat.{compare, Ordering}
use Prim.Native.String.{compare as compare_texts}
use stocks_agent.Common.{
  or_then, sorted, ℕ, ◌+◌, ◌-◌, Bool, true, false, ◌&&◌, ◌||◌, List, [], ◌∷◌, ◌++◌, map, String,
  length, take, ltb, leb, str_eq, if◌then◌else◌, Result, ok, ◌>>◌, guard,
}
use stocks_agent.Cursor.Update.{first_occurrences}
use stocks_agent.Queue.Candidate.{EnrichmentCandidate, compare_candidates}
use stocks_agent.Queue.RoundRobin.{round_robin_candidates}

pub record EnrichmentRequest : Type 0 where
  pub request_id : String
  pub entity_id : String
  pub security_id : String
  pub security_revision_id : String
  pub reference_manifest_id : String
  pub cik : String
  pub ticker : String
  pub instrument_type : String
  pub event_ids : List String
  pub theme_id : String
  pub role : String
  pub hypothesis_ids : List String
  pub source_item_ids : List String
  pub dependency_task_ids : List String
  pub provider : String
  pub capability_id : String
  pub query_kind : String
  pub descriptor : List (String × String)
  pub adverse_path : Bool
  pub priority : ℕ
  pub execution_allowed : Bool

pub data QueueError : Type 0 where
  max_entities_invalid max_requests_invalid holding_reserve_invalid : QueueError

-- `tuple(sorted({…}))` of texts
unfoldable pub sorted_set : List String → List String
sorted_set values = sorted compare_texts (first_occurrences [] values)

-- `by_entity[entity_id]`
unfoldable pub of_entity : String → List EnrichmentCandidate → List EnrichmentCandidate
of_entity entity [] = []
of_entity entity (row ∷ rows) =
    let rest = of_entity entity rows in if str_eq row.entity_id entity then row ∷ rest else rest

unfoldable pub of_security : String → List EnrichmentCandidate → List EnrichmentCandidate
of_security security [] = []
of_security security (row ∷ rows) =
    let rest = of_security security rows in
    if str_eq row.security_id security then row ∷ rest else rest

-- `{item.security_id: item for item in related}.values()`: the last candidate of each security, at
-- the place of the first.
unfoldable pub put_security :
    EnrichmentCandidate → List EnrichmentCandidate → List EnrichmentCandidate
put_security item [] = item ∷ []
put_security item (row ∷ rows) =
    if str_eq row.security_id item.security_id then item ∷ rows else row ∷ put_security item rows

unfoldable pub by_security :
    List EnrichmentCandidate → List EnrichmentCandidate → List EnrichmentCandidate
by_security found [] = found
by_security found (item ∷ items) = by_security (put_security item found) items

abbrev pub hypothesis_ids_of : List EnrichmentCandidate → List String
hypothesis_ids_of rows = sorted_set (map (λ row. row.hypothesis.hypothesis_id) rows)

abbrev pub event_ids_of : List EnrichmentCandidate → List String
event_ids_of rows = sorted_set (map (λ row. row.hypothesis.event_id) rows)

-- `[item for row in related for item in …]`
unfoldable pub concatenated :
    (EnrichmentCandidate → List String) → List EnrichmentCandidate → List String
concatenated f [] = []
concatenated f (row ∷ rows) = f row ++ concatenated f rows

unfoldable pub any_adverse : List EnrichmentCandidate → Bool
any_adverse [] = false
any_adverse (row ∷ rows) = row.hypothesis.adverse_path || any_adverse rows

-- `limits.get(provider, 0)`
unfoldable pub limit_of : String → List (String × ℕ) → ℕ
limit_of provider [] = 0
limit_of provider ((p, n) ∷ limits) = if str_eq p provider then n else limit_of provider limits

-- `0 if row.provider == "sec_edgar" else 1`
abbrev pub provider_rank : EnrichmentRequest → ℕ
provider_rank row = if str_eq row.provider "sec_edgar" then 0 else 1

abbrev pub compare_requests : EnrichmentRequest → EnrichmentRequest → Ordering
compare_requests a b = or_then (compare a.priority b.priority) (
    or_then (compare (provider_rank a) (provider_rank b)) (compare_texts a.request_id b.request_id))

-- `provider_limits or {…}`: an absent mapping is given as an empty one.
unfoldable pub limits_or_default : List (String × ℕ) → ℕ → List (String × ℕ)
limits_or_default [] available = ("sec_edgar", available) ∷ ("yahoo", available) ∷ []
limits_or_default (limit ∷ limits) available = limit ∷ limits

-- `requests` and `used`.
pub record Draft : Type 0 where
  pub requests : List EnrichmentRequest
  pub used_sec : ℕ
  pub used_yahoo : ℕ

module _ (identify : (kind : String) → List (String × String) → List String → String) where
  unfoldable pub submissions_request :
      (priority : ℕ) → EnrichmentCandidate → List EnrichmentCandidate → EnrichmentRequest
  submissions_request priority head related =
      let descriptor =
        ("cik", head.cik)
        ∷ ("issuer_entity_id", head.entity_id)
        ∷ ("reference_manifest_id", head.reference_manifest_id)
        ∷ ("security_revision_id", head.security_revision_id)
        ∷ [] in
      record {
        request_id = identify "issuer_submissions" descriptor (hypothesis_ids_of related);
        entity_id = head.entity_id;
        security_id = head.security_id;
        security_revision_id = head.security_revision_id;
        reference_manifest_id = head.reference_manifest_id;
        cik = head.cik;
        ticker = head.ticker;
        instrument_type = head.instrument_type;
        event_ids = event_ids_of related;
        theme_id = head.hypothesis.theme_id;
        role = head.hypothesis.role;
        hypothesis_ids = hypothesis_ids_of related;
        source_item_ids = take 64 (sorted_set (concatenated (λ row. row.source_item_ids) related));
        dependency_task_ids =
            take 32 (sorted_set (concatenated (λ row. row.dependency_task_ids) related));
        provider = "sec_edgar";
        capability_id = "sec_issuer_submissions";
        query_kind = "issuer_submissions";
        descriptor = descriptor;
        adverse_path = any_adverse related;
        priority = priority;
        execution_allowed = false;
      }

  unfoldable pub quote_request :
      (priority : ℕ) → EnrichmentCandidate → List EnrichmentCandidate → EnrichmentRequest
  quote_request priority row related =
      let descriptor =
        ("instrument_type", row.instrument_type)
        ∷ ("reference_manifest_id", row.reference_manifest_id)
        ∷ ("security_id", row.security_id)
        ∷ ("security_revision_id", row.security_revision_id)
        ∷ ("ticker", row.ticker)
        ∷ [] in
      let hypotheses = hypothesis_ids_of (of_security row.security_id related) in
      record {
        request_id = identify "quote" descriptor hypotheses;
        entity_id = row.entity_id;
        security_id = row.security_id;
        security_revision_id = row.security_revision_id;
        reference_manifest_id = row.reference_manifest_id;
        cik = row.cik;
        ticker = row.ticker;
        instrument_type = row.instrument_type;
        event_ids = event_ids_of related;
        theme_id = row.hypothesis.theme_id;
        role = row.hypothesis.role;
        hypothesis_ids = hypotheses;
        source_item_ids = take 64 (sorted_set (concatenated (λ r. r.source_item_ids) related));
        dependency_task_ids =
            take 32 (sorted_set (concatenated (λ r. r.dependency_task_ids) related));
        provider = "yahoo";
        capability_id = "yahoo_security_quote";
        query_kind = "quote";
        descriptor = descriptor;
        adverse_path = row.hypothesis.adverse_path;
        priority = priority;
        execution_allowed = false;
      }

  module _ (available : ℕ) (limits : List (String × ℕ)) where
    unfoldable pub add_submissions :
        (priority : ℕ) → EnrichmentCandidate → List EnrichmentCandidate → Draft → Draft
    add_submissions priority head related d =
        if ltb (length d.requests) available && ltb d.used_sec (limit_of "sec_edgar" limits)
        then record d {
          requests = d.requests ++ submissions_request priority head related ∷ [];
          used_sec = d.used_sec + 1;
        }
        else d

    -- The inner `for` loop, which stops at the first security that does not fit.
    unfoldable pub add_quotes :
        (priority : ℕ) → List EnrichmentCandidate → List EnrichmentCandidate → Draft → Draft
    add_quotes priority related [] d = d
    add_quotes priority related (row ∷ rows) d =
        elim (leb available (length d.requests) || leb (limit_of "yahoo" limits) d.used_yahoo) [
          | true ↦ d
          | false ↦ add_quotes priority related rows (record d {
            requests = d.requests ++ quote_request priority row related ∷ [];
            used_yahoo = d.used_yahoo + 1;
          })
        ]

    -- The body of `for priority, head in enumerate(selected_heads, 1)`.
    unfoldable pub add_head :
        (priority : ℕ) → List EnrichmentCandidate → EnrichmentCandidate → Draft → Draft
    add_head priority values head d =
        let related = sorted compare_candidates (of_entity head.entity_id values) in
        let securities =
          sorted (λ a b. compare_texts a.security_id b.security_id) (by_security [] related) in
        add_quotes priority related securities (add_submissions priority head related d)

    unfoldable pub add_heads :
        (priority : ℕ) → List EnrichmentCandidate → List EnrichmentCandidate → Draft → Draft
    add_heads priority values [] d = d
    add_heads priority values (head ∷ heads) d =
        add_heads (priority + 1) values heads (add_head priority values head d)

  unfoldable pub drafted :
      List EnrichmentCandidate → (max_entities available : ℕ) → List (String × ℕ) → Draft
  drafted hypotheses max_entities available limits =
      add_heads available limits 1 hypotheses (round_robin_candidates hypotheses max_entities)
        (record { requests = []; used_sec = 0; used_yahoo = 0 })

  unfoldable pub select_enrichment_queue :
      List EnrichmentCandidate
      → (max_entities max_requests required_holding_quote_requests : ℕ) → List (String × ℕ)
      → Result QueueError (List EnrichmentRequest)
  select_enrichment_queue hypotheses max_entities max_requests reserve provider_limits = do
    guard (leb max_entities 4) max_entities_invalid
    guard (leb max_requests 100) max_requests_invalid
    guard (leb reserve 100) holding_reserve_invalid
    let available = max_requests - reserve
    let limits = limits_or_default provider_limits available
    ok (sorted compare_requests (drafted hypotheses max_entities available limits).requests)
