-- ===== src/Ranking/Research.antt =====
-- `_assess_v2_candidate` of lib/intelligence/ranking.py: how far the research on a candidate is, and
-- whether it suits the portfolio.
use Prim.Native.String.{◌++◌ as append_text}
use stocks_agent.Common.{
  ◌+◌, Bool, true, false, not, ◌&&◌, ◌||◌, Option, none, some, List, [], ◌∷◌, ◌++◌, map, String,
  all, leb, if◌then◌else◌, str_eq, contains, is_some, Result, ok, ◌>>=◌, ℤ, pos, negsuc,
}
use stocks_agent.Cursor.Update.{first_occurrences}
use stocks_agent.Queue.Request.{sorted_set}
use stocks_agent.Relation.Item.{evidence_key}
use stocks_agent.Relation.Proposal.{EventRelationship, is_nonempty}
use stocks_agent.Ranking.Decimal.{Given, RankingError, fixed}
use stocks_agent.Ranking.Candidate.{
  CandidateInput, CandidateLineage, Components, ResearchState, unresolved, resolved,
  exposure_supported, analysis_ready, research_rejected, ResearchCandidate, SuitabilityState,
  unknown, eligible, vetoed, SuitabilityEvaluation, truthy,
}
use stocks_agent.Ranking.Evidence.{exposure_items}
use stocks_agent.Ranking.Score.{concentrated}

-- `bool(values)` of a list of texts.
abbrev pub has_texts : List String → Bool
has_texts [] = false
has_texts (value ∷ values) = true

-- `first or second`
abbrev pub or_texts : List String → List String → List String
or_texts [] second = second
or_texts (value ∷ values) second = value ∷ values

-- `[text] if test else []`
abbrev pub when : Bool → String → List String
when true text = text ∷ []
when false text = []

-- `not set(ids) - set(known)`
abbrev pub are_known : (ids known : List String) → Bool
are_known ids known = all (λ id. contains id known) ids

abbrev pub relation_roles : Option EventRelationship → List String
relation_roles none = []
relation_roles (some relation) = relation.role ∷ []

abbrev pub receipts_of : Option CandidateLineage → List (String × String)
receipts_of none = []
receipts_of (some lineage) = lineage.evidence_receipt_ids

abbrev pub keys_of_receipts : List (String × String) → List String
keys_of_receipts receipts = map (λ entry. entry.0) receipts

unfoldable pub is_resolved : CandidateInput → (ticker : Option String) → Bool
is_resolved c ticker =
    is_some (truthy c.security_id) && is_some (truthy ticker) && is_some c.relation

module _ (name_hash : String → String) where
  abbrev pub evidence_ids : CandidateInput → List String
  evidence_ids c = map (evidence_key name_hash) c.evidence

  -- Typed exposure: facts are named and primary items are retained. (An item for each fact is not asked
  -- for, where there are primary items.)
  unfoldable pub has_typed_exposure : CandidateInput → Bool
  has_typed_exposure c =
      let primary = is_nonempty (exposure_items c.relation) in
      has_texts c.exposure_fact_ids
      && primary
      && (are_known c.exposure_fact_ids (evidence_ids c)
          || has_texts c.exposure_fact_ids && primary)

  -- What is missing of a candidate with typed exposure.
  unfoldable pub supported_limitations : CandidateInput → List String
  supported_limitations c =
      when (not (has_texts c.supporting_evidence_ids)) "supporting_evidence_missing"
      ++ (when (not (has_texts c.opposing_evidence_ids)) "opposing_evidence_missing"
          ++ (when
                (not (
                  are_known (c.supporting_evidence_ids ++ c.opposing_evidence_ids)
                    (evidence_ids c)))
                "candidate_evidence_relationship_missing"
              ++ when (not (str_eq c.reference_state "current"))
                  (append_text "reference_" c.reference_state)))

  abbrev pub supported_state : List String → ResearchState
  supported_state [] = analysis_ready
  supported_state (limitation ∷ limitations) = exposure_supported

  -- The state and the limitations.
  unfoldable pub research_state_of :
      CandidateInput
      → (ticker : Option String) → (evidence_consistent : Bool) → ResearchState × List String
  research_state_of c ticker evidence_consistent =
      if not (is_nonempty c.evidence)
        || not (is_nonempty c.event.evidence)
        || not evidence_consistent
      then (research_rejected, c.limitations ++ "source_backed_event_required" ∷ [])
      else if not (is_resolved c ticker)
      then (
        (if c.explicit_unresolved_identity && is_some (truthy c.entity_id)
            then unresolved
            else research_rejected),
        c.limitations ++ "security_identity_unresolved" ∷ [],
      )
      else if not (has_typed_exposure c)
      then (resolved, c.limitations ++ "typed_primary_exposure_missing" ∷ [])
      else (
        supported_state (c.limitations ++ supported_limitations c),
        c.limitations ++ supported_limitations c,
      )

  unfoldable pub assess_research :
      CandidateInput
      → (candidate_key : String) → (ticker : Option String) → Components
      → (evidence_consistent : Bool) → ResearchCandidate
  assess_research c candidate_key ticker components evidence_consistent =
      let (state, limitations) = research_state_of c ticker evidence_consistent in
      record {
        candidate_key = candidate_key;
        security_id = c.security_id;
        ticker = ticker;
        entity_id = c.entity_id;
        event_ids = c.event.event_id ∷ [];
        theme_ids = sorted_set (or_texts c.theme_ids c.event.theme_ids);
        roles = sorted_set (or_texts c.roles (relation_roles c.relation));
        research_state = state;
        priority_score =
            components.materiality + components.authority_corroboration + components.exposure
            + components.recency;
        evidence = c.evidence;
        exposure_fact_ids = sorted_set c.exposure_fact_ids;
        supporting_evidence_ids = sorted_set c.supporting_evidence_ids;
        opposing_evidence_ids = sorted_set c.opposing_evidence_ids;
        evidence_receipt_ids = receipts_of c.lineage;
        limitations = first_occurrences [] limitations;
        adverse_paths = sorted_set c.adverse_paths;
      }

abbrev pub is_ready : ResearchState → Bool
is_ready analysis_ready = true
is_ready _ = false

-- One of the `state_inputs`: what it adds to `missing` and to `veto`.
unfoldable pub state_missing : (name state : String) → List String
state_missing name state =
    when
      (not (str_eq state "failed")
        && not (str_eq state "passed")
        && not (str_eq name "reference" && str_eq state "current"))
      (append_text name (append_text "_" state))

unfoldable pub state_veto : (name state : String) → List String
state_veto name state = when (str_eq state "failed") (append_text name "_failed")

-- The protected states. There is no ledger of valuations, so a valuation counts as missing, whatever the
-- candidate says.
abbrev pub state_inputs : CandidateInput → List (String × String)
state_inputs c =
    ("reference", c.reference_state)
    ∷ ("valuation", "missing")
    ∷ ("quote", c.quote_state)
    ∷ ("portfolio", c.portfolio_state)
    ∷ ("cash", c.cash_state)
    ∷ []

unfoldable pub states_missing : List (String × String) → List String
states_missing [] = []
states_missing ((name, state) ∷ states) = state_missing name state ++ states_missing states

unfoldable pub states_veto : List (String × String) → List String
states_veto [] = []
states_veto ((name, state) ∷ states) = state_veto name state ++ states_veto states

abbrev pub is_heavy_value : ℤ → Bool
is_heavy_value (pos n) = leb concentrated n
is_heavy_value (negsuc n) = false

-- `value is not None and _fixed(value, …) >= Decimal("0.40")`
unfoldable pub is_heavy : Option Given → Result RankingError Bool
is_heavy none = ok false
is_heavy (some value) = do weight ← fixed value; ok (is_heavy_value weight)

abbrev pub missing_text : (name : String) → (present : Bool) → List String
missing_text name present = when (not present) (append_text name "_missing")

unfoldable pub lineage_missing : (evidence : List String) → Option CandidateLineage → List String
lineage_missing evidence none = "protected_lineage_missing" ∷ []
lineage_missing evidence (some lineage) =
    missing_text "run" (not (str_eq lineage.run_id ""))
    ++ (missing_text "observation_time" (not (str_eq lineage.observed_at ""))
        ++ (missing_text "reference_manifest" (is_some (truthy lineage.reference_manifest_id))
            ++ (missing_text "reference_revision" (is_some lineage.reference_revision)
                ++ (missing_text "reference_expiry" (is_some (truthy lineage.reference_expires_at))
                    ++ (missing_text "security_revision"
                          (is_some (truthy lineage.security_revision_id))
                        ++ (missing_text "quote_receipt" (is_some (truthy lineage.quote_receipt_id))
                            ++ (missing_text "quote_as_of" (is_some (truthy lineage.quote_as_of))
                                ++ (missing_text "quote_expiry"
                                      (is_some (truthy lineage.quote_expires_at))
                                    ++ (missing_text "portfolio_revision"
                                          (is_some (truthy lineage.portfolio_revision))
                                        ++ (missing_text "cash_revision"
                                              (is_some (truthy lineage.cash_revision))
                                            ++ when
                                                (not (
                                                  are_known evidence (
                                                    keys_of_receipts lineage.evidence_receipt_ids)))
                                                "source_receipt_lineage_missing"))))))))))

abbrev pub suitability_state : (veto missing : List String) → SuitabilityState
suitability_state (reason ∷ veto) missing = vetoed
suitability_state [] (reason ∷ missing) = unknown
suitability_state [] [] = eligible

unfoldable pub assess_suitability :
    CandidateInput → ResearchCandidate → Result RankingError SuitabilityEvaluation
assess_suitability c research = do
  heavy_holding ← is_heavy c.holding_weight
  heavy_concentration ← is_heavy c.concentration
  let missing =
      when (not (is_ready research.research_state)) "analysis_not_ready"
      ++ (states_missing (state_inputs c)
          ++ (missing_text "liquidity" (is_some c.liquidity)
              ++ (missing_text "portfolio_overlap" (is_some c.overlap)
                  ++ (missing_text "portfolio_concentration" (is_some c.concentration)
                      ++ (missing_text "holding_weight" (is_some c.holding_weight)
                          ++ lineage_missing
                              (research.supporting_evidence_ids ++ research.opposing_evidence_ids)
                              c.lineage)))))
  let veto =
      states_veto (state_inputs c)
      ++ (when heavy_holding "holding_weight_concentrated"
          ++ when heavy_concentration "portfolio_concentration_high")
  ok (record {
    candidate_key = research.candidate_key;
    state = suitability_state veto missing;
    missing_reasons = first_occurrences [] missing;
    veto_reasons = first_occurrences [] veto;
    lineage = c.lineage;
  })
