-- ===== src/Queue/Envelope.antt =====
-- The requests that `select_enrichment_queue` returns stay in the envelope of the run: its number of
-- requests less the reserve for the holdings, each provider's limit, and no permission to execute.
use Prim.Native.Nat.{Ordering}
use stocks_agent.Common.{
  All-sorted, insert_sorted, length-sorted, sorted, ℕ, ◌+◌, ◌-◌, ◌≤◌, ◌≡◌, ◌⊎◌, refl, subst, false,
  ◌&&◌, ◌||◌, List, [], ◌∷◌, ◌++◌, String, arith, length, length-append, ltb, leb, str_eq, All,
  All-append, if◌then◌else◌, Bool-cases, inl, inr, Result, ok, after_guard,
}
use stocks_agent.Queue.Candidate.{EnrichmentCandidate}
use stocks_agent.Queue.RoundRobin.{round_robin_candidates}
use stocks_agent.Queue.Request.{
  EnrichmentRequest, QueueError, max_entities_invalid, max_requests_invalid,
  holding_reserve_invalid, Draft, limit_of, submissions_request, quote_request, add_submissions,
  add_quotes, add_head, add_heads, compare_requests, limits_or_default, drafted,
  select_enrichment_queue,
}

-- How many of the requests go to the provider.
abbrev pub requests_to : String → List EnrichmentRequest → ℕ
requests_to provider [] = 0
requests_to provider (row ∷ rows) =
    if str_eq row.provider provider
    then requests_to provider rows + 1
    else requests_to provider rows

-- A request only reads, and names what the provider can do.
unfoldable pub IsReadOnly : EnrichmentRequest → Type 0
IsReadOnly row =
    (row.execution_allowed ≡ false)
    × ((row.provider ≡ "sec_edgar") × (row.capability_id ≡ "sec_issuer_submissions")
        ⊎ (row.provider ≡ "yahoo") × (row.capability_id ≡ "yahoo_security_quote"))

requests_to_append :
    (provider : String) (xs ys : List EnrichmentRequest)
    → requests_to provider (xs ++ ys) ≡ requests_to provider xs + requests_to provider ys
requests_to_append provider [] ys = omega arith
requests_to_append provider (x ∷ xs) ys = ground (arith, requests_to_append provider xs ys)

requests_to-insert_sorted :
    (provider : String) (order : EnrichmentRequest → EnrichmentRequest → Ordering)
    (x : EnrichmentRequest) (xs : List EnrichmentRequest)
    → requests_to provider (insert_sorted order x xs) ≡ requests_to provider (x ∷ xs)
unfolding insert_sorted
requests_to-insert_sorted provider order x [] = refl
requests_to-insert_sorted provider order x (y ∷ ys) =
    ground (arith, requests_to-insert_sorted provider order x ys)

requests_to-sorted :
    (provider : String) (order : EnrichmentRequest → EnrichmentRequest → Ordering)
    (xs : List EnrichmentRequest)
    → requests_to provider (sorted order xs) ≡ requests_to provider xs
unfolding sorted
requests_to-sorted provider order [] = refl
requests_to-sorted provider order (x ∷ xs) = ground (
  arith,
  requests_to-insert_sorted provider order x (sorted order xs),
  requests_to-sorted provider order xs,
)

module _ (identify : (kind : String) → List (String × String) → List String → String)
    (available : ℕ) (limits : List (String × ℕ)) where
  record Fits (d : Draft) : Type 0 where
    bounded : length d.requests ≤ available
    sec : requests_to "sec_edgar" d.requests ≡ d.used_sec
    yahoo : requests_to "yahoo" d.requests ≡ d.used_yahoo
    sec_limit : d.used_sec ≤ limit_of "sec_edgar" limits
    yahoo_limit : d.used_yahoo ≤ limit_of "yahoo" limits
    read_only : All IsReadOnly d.requests

  add_submissions-Fits :
      (priority : ℕ) (head : EnrichmentCandidate) (related : List EnrichmentCandidate) (d : Draft)
      → Fits d
      → Fits (add_submissions identify available limits priority head related d)
  unfolding add_submissions submissions_request IsReadOnly
  add_submissions-Fits priority head related d v =
      let row = submissions_request identify priority head related in
      elim (Bool-cases
        (ltb (length d.requests) available && ltb d.used_sec (limit_of "sec_edgar" limits))) [
          | inr full ↦ rw full v
          | inl room ↦ rw room record {
            bounded = ground (arith, length-append d.requests (row ∷ []));
            sec = ground (arith, v.sec, requests_to_append "sec_edgar" d.requests (row ∷ []));
            yahoo = ground (arith, v.yahoo, requests_to_append "yahoo" d.requests (row ∷ []));
            sec_limit = ground arith;
            yahoo_limit = v.yahoo_limit;
            read_only =
                All-append IsReadOnly d.requests (row ∷ []) v.read_only
                  ((refl, inl (refl, refl)), tt);
          }
        ]

  add_quotes-Fits :
      (priority : ℕ) (related rows : List EnrichmentCandidate) (d : Draft)
      → Fits d
      → Fits (add_quotes identify available limits priority related rows d)
  unfolding add_quotes quote_request IsReadOnly
  add_quotes-Fits priority related [] d v = v
  add_quotes-Fits priority related (row ∷ rows) d v =
      let request = quote_request identify priority row related in
      elim (Bool-cases
        (leb available (length d.requests) || leb (limit_of "yahoo" limits) d.used_yahoo)) [
          | inl full ↦ rw (full, add_quotes) v
          | inr room ↦
              rw (room, add_quotes)
                (add_quotes-Fits priority related rows _ record {
                  bounded = ground (arith, length-append d.requests (request ∷ []));
                  sec =
                      ground
                        (arith, v.sec, requests_to_append "sec_edgar" d.requests (request ∷ []));
                  yahoo =
                      ground (arith, v.yahoo, requests_to_append "yahoo" d.requests (request ∷ []));
                  sec_limit = v.sec_limit;
                  yahoo_limit = ground arith;
                  read_only =
                      All-append IsReadOnly d.requests (request ∷ []) v.read_only
                        ((refl, inr (refl, refl)), tt);
                })
        ]

  add_heads-Fits :
      (priority : ℕ) (values heads : List EnrichmentCandidate) (d : Draft)
      → Fits d
      → Fits (add_heads identify available limits priority values heads d)
  unfolding add_heads add_head
  add_heads-Fits priority values [] d v = v
  add_heads-Fits priority values (head ∷ heads) d v =
      add_heads-Fits (priority + 1) values heads _
        (add_quotes-Fits priority _ _ _ (add_submissions-Fits priority head _ d v))

  drafted-Fits :
      (hypotheses : List EnrichmentCandidate) (max_entities : ℕ)
      → Fits (drafted identify hypotheses max_entities available limits)
  unfolding drafted
  drafted-Fits hypotheses max_entities =
      add_heads-Fits 1 hypotheses (round_robin_candidates hypotheses max_entities) _ record {
        bounded = omega arith;
        sec = refl;
        yahoo = refl;
        sec_limit = omega arith;
        yahoo_limit = omega arith;
        read_only = tt;
      }

-- If the queue is selected, it holds at most `max_requests` requests less the reserve for the holdings,
-- no more for EDGAR or Yahoo than the provider's limit, and every request is one that the
-- provider answers and that execution is not allowed for.
pub select_enrichment_queue-envelope :
    (identify : (kind : String) → List (String × String) → List String → String)
    (hypotheses : List EnrichmentCandidate) (max_entities max_requests reserve : ℕ)
    (provider_limits : List (String × ℕ)) (requests : List EnrichmentRequest)
    → select_enrichment_queue identify hypotheses max_entities max_requests reserve provider_limits
      ≡ ok requests
    → let limits = limits_or_default provider_limits (max_requests - reserve) in
      (length requests ≤ max_requests - reserve)
      × (requests_to "sec_edgar" requests ≤ limit_of "sec_edgar" limits)
      × (requests_to "yahoo" requests ≤ limit_of "yahoo" limits)
      × All IsReadOnly requests
unfolding select_enrichment_queue
select_enrichment_queue-envelope identify hypotheses max_entities max_requests reserve
      provider_limits requests e =
    let available = max_requests - reserve in
    let limits = limits_or_default provider_limits available in
    let draft = drafted identify hypotheses max_entities available limits in
    let v = drafted-Fits identify available limits hypotheses max_entities in
    let same : sorted compare_requests draft.requests ≡ requests = selected (
      after_guard (leb reserve 100) holding_reserve_invalid _ (
        after_guard (leb max_requests 100) max_requests_invalid _
          (after_guard (leb max_entities 4) max_entities_invalid _ e))) in
    subst
      (λ rows.
        (length rows ≤ available)
        × (requests_to "sec_edgar" rows ≤ limit_of "sec_edgar" limits)
        × (requests_to "yahoo" rows ≤ limit_of "yahoo" limits)
        × All IsReadOnly rows)
      same
      (
        omega (arith, v.bounded, length-sorted compare_requests draft.requests),
        omega (
          arith,
          v.sec,
          v.sec_limit,
          requests_to-sorted "sec_edgar" compare_requests draft.requests,
        ),
        omega (
          arith,
          v.yahoo,
          v.yahoo_limit,
          requests_to-sorted "yahoo" compare_requests draft.requests,
        ),
        All-sorted IsReadOnly compare_requests draft.requests v.read_only,
      )
  where
    returned : List EnrichmentRequest → Result QueueError (List EnrichmentRequest)
    returned rows = ok rows

    selected : {a b : List EnrichmentRequest} → returned a ≡ returned b → a ≡ b
    selected h = cc
