-- ===== src/Ranking/Candidate.antt =====
-- What goes into the ranking of lib/intelligence/ranking.py and what comes out of it. A score of an event
-- (lib/intelligence/themes.py) is its number of millionths.
use stocks_agent.Common.{ℕ, Bool, Option, none, some, List, String, ℤ, if◌then◌else◌, str_eq}
use stocks_agent.Relation.Item.{SourceItem}
use stocks_agent.Relation.Proposal.{EventRelationship}
use stocks_agent.Ranking.Decimal.{Given}

pub record MarketEvent : Type 0 where
  pub event_id : String
  pub materiality : ℕ
  pub theme_ids : List String
  pub evidence : List SourceItem

pub record CandidateLineage : Type 0 where
  pub run_id : String
  pub observed_at : String
  pub policy_version : ℕ
  pub reference_manifest_id : Option String
  pub reference_revision : Option ℕ
  pub reference_expires_at : Option String
  pub security_revision_id : Option String
  pub quote_receipt_id : Option String
  pub quote_as_of : Option String
  pub quote_expires_at : Option String
  pub evidence_receipt_ids : List (String × String)
  pub portfolio_revision : Option String
  pub cash_revision : Option String

pub record CandidateInput : Type 0 where
  pub ticker : Option String
  pub event : MarketEvent
  pub relation : Option EventRelationship
  pub evidence : List SourceItem
  pub authority_corroboration : Option Given
  pub exposure_strength : Option Given
  pub recency : Option Given
  pub portfolio_relevance : Option Given
  pub liquidity : Option Given
  pub duplication_penalty : Option Given
  pub holding_weight : Option Given
  pub overlap : Option Given
  pub concentration : Option Given
  pub contract_version : ℕ
  pub security_id : Option String
  pub entity_id : Option String
  pub theme_ids : List String
  pub roles : List String
  pub exposure_fact_ids : List String
  pub supporting_evidence_ids : List String
  pub opposing_evidence_ids : List String
  pub lineage : Option CandidateLineage
  pub reference_state : String
  pub valuation_state : String
  pub quote_state : String
  pub portfolio_state : String
  pub cash_state : String
  pub explicit_unresolved_identity : Bool
  pub limitations : List String
  pub adverse_paths : List String

-- The eight components, in millionths; the penalties are given without their sign.
pub record Components : Type 0 where
  pub materiality : ℕ
  pub authority_corroboration : ℕ
  pub exposure : ℕ
  pub recency : ℕ
  pub portfolio_relevance : ℕ
  pub liquidity : ℕ
  pub duplication_penalty : ℕ
  pub concentration_penalty : ℕ

pub data ResearchState : Type 0 where
  observed unresolved resolved exposure_supported analysis_ready research_rejected : ResearchState

pub data SuitabilityState : Type 0 where
  unknown eligible vetoed : SuitabilityState

-- The mappings of components in the next two records, which are those of the candidate's components, are
-- left out.
pub record ResearchCandidate : Type 0 where
  pub candidate_key : String
  pub security_id : Option String
  pub ticker : Option String
  pub entity_id : Option String
  pub event_ids : List String
  pub theme_ids : List String
  pub roles : List String
  pub research_state : ResearchState
  pub priority_score : ℕ
  pub evidence : List SourceItem
  pub exposure_fact_ids : List String
  pub supporting_evidence_ids : List String
  pub opposing_evidence_ids : List String
  pub evidence_receipt_ids : List (String × String)
  pub limitations : List String
  pub adverse_paths : List String

pub record SuitabilityEvaluation : Type 0 where
  pub candidate_key : String
  pub state : SuitabilityState
  pub missing_reasons : List String
  pub veto_reasons : List String
  pub lineage : Option CandidateLineage

pub record RankedCandidate : Type 0 where
  pub ticker : Option String
  pub candidate_key : String
  pub event_id : String
  pub relationship_type : String
  pub evidence : List SourceItem
  pub exposure_evidence : List SourceItem
  pub components : Components
  pub missing_reasons : List String
  pub total_score : ℤ
  pub authoritative_evidence_count : ℕ
  pub qualified : Bool
  pub veto_reasons : List String
  pub rank : ℕ
  pub research : Option ResearchCandidate
  pub suitability : Option SuitabilityEvaluation

-- `text or None`
abbrev pub truthy : Option String → Option String
truthy none = none
truthy (some text) = if str_eq text "" then none else some text

-- `text or default`
abbrev pub or_text : Option String → String → String
or_text none default = default
or_text (some text) default = if str_eq text "" then default else text
