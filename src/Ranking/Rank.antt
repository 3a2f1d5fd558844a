-- ===== src/Ranking/Rank.antt =====
-- `rank_candidates` of lib/intelligence/ranking.py. `upper` is `str.upper`, and `name_hash` the UUID of a
-- content hash.
use Prim.Native.Nat.{compare, Ordering}
use Prim.Native.String.{compare as compare_texts, ◌++◌ as append_text}
use stocks_agent.Common.{
  ℕ, suc, Bool, true, false, not, ◌&&◌, ◌||◌, Option, none, some, List, [], ◌∷◌, ◌++◌, map, String,
  length, filter, if◌then◌else◌, ◌==◌, str_eq, is_some, Result, ok, ◌>>=◌, ◌>>◌, guard, compare_ℤ,
  or_then, sorted,
}
use stocks_agent.Cursor.Update.{first_occurrences}
use stocks_agent.Relation.Text.{strip}
use stocks_agent.Relation.Item.{SourceItem}
use stocks_agent.Relation.Proposal.{EventRelationship}
use stocks_agent.Ranking.Decimal.{
  Given, RankingError, version_unsupported, version_mismatch, relationship_required,
  ticker_mismatch,
}
use stocks_agent.Ranking.Candidate.{
  CandidateInput, Components, SuitabilityState, eligible, RankedCandidate, or_text,
}
use stocks_agent.Ranking.Positions.{Positions, Plans, holding_positions, plan_positions}
use stocks_agent.Ranking.Evidence.{
  evidence_index, is_filled, exposure_items, is_event_consistent, is_evidence_consistent,
}
use stocks_agent.Ranking.Score.{Reason, reason, reason_text, veto_text, score_candidate, total_of}
use stocks_agent.Ranking.Research.{is_ready, assess_research, assess_suitability}

abbrev pub map_text : (String → String) → Option String → Option String
map_text f none = none
map_text f (some text) = some (f text)

abbrev pub is_ticker_of : Option String → Option EventRelationship → Bool
is_ticker_of ticker none = true
is_ticker_of none (some relation) = false
is_ticker_of (some ticker) (some relation) = str_eq ticker relation.ticker

-- The reasons that the evidence gives.
unfoldable pub evidence_reasons :
    (event_consistent has_evidence evidence_consistent : Bool) → List Reason
evidence_reasons event_consistent has_evidence evidence_consistent =
    (if event_consistent then [] else reason "event_relation" "mismatch" ∷ [])
    ++ (if not has_evidence
        then reason "evidence" "empty" ∷ []
        else if evidence_consistent
        then []
        else reason "exposure_evidence" "mismatch" ∷ [])

abbrev pub is_eligible_relation : Option EventRelationship → Bool
is_eligible_relation none = false
is_eligible_relation (some relation) = relation.eligible_for_ranking

abbrev pub relation_reasons : Option EventRelationship → List String
relation_reasons none = []
relation_reasons (some relation) = relation.missing_reasons

abbrev pub relation_type : Option EventRelationship → String
relation_type none = "unresolved"
relation_type (some relation) = relation.relationship_type

abbrev pub no_reason : List Reason → Bool
no_reason [] = true
no_reason (r ∷ reasons) = false

abbrev pub is_official : SourceItem → Bool
is_official item = str_eq item.authority "official"

abbrev pub is_eligible : SuitabilityState → Bool
is_eligible eligible = true
is_eligible _ = false

abbrev pub shown_exposure : Bool → Option EventRelationship → List SourceItem
shown_exposure true relation = exposure_items relation
shown_exposure false relation = []

-- `ticker or candidate.entity_id or f"unresolved:{…}"`
unfoldable pub legacy_key : CandidateInput → (ticker : Option String) → String
legacy_key c ticker =
    or_text ticker (or_text c.entity_id (append_text "unresolved:" c.event.event_id))

unfoldable pub second_key : CandidateInput → (ticker : Option String) → String
second_key c ticker = or_text c.security_id (or_text c.entity_id (legacy_key c ticker))

module _ (upper name_hash : String → String) where
  -- What the two contracts have in common of a candidate that is ranked.
  abbrev pub ranked_base :
      CandidateInput
      → (ticker : Option String) → (exposure_consistent : Bool) → Components
      → RankedCandidate
  ranked_base c ticker exposure_consistent components = record {
    ticker = ticker;
    candidate_key = legacy_key c ticker;
    event_id = c.event.event_id;
    relationship_type = relation_type c.relation;
    evidence = c.evidence;
    exposure_evidence = shown_exposure exposure_consistent c.relation;
    components = components;
    missing_reasons = [];
    total_score = total_of components;
    authoritative_evidence_count = length (filter is_official c.evidence);
    qualified = false;
    veto_reasons = [];
    rank = 0;
    research = none;
    suitability = none;
  }

  unfoldable pub rank_first :
      CandidateInput → (missing : List Reason) → RankedCandidate → RankedCandidate
  rank_first c missing base = record base {
    missing_reasons = map reason_text missing;
    qualified = is_eligible_relation c.relation && no_reason missing;
    veto_reasons =
        first_occurrences [] (relation_reasons c.relation ++ map (veto_text upper) missing);
  }

  unfoldable pub rank_second :
      CandidateInput
      → (ticker : Option String) → (evidence_consistent : Bool) → RankedCandidate
      → Result RankingError RankedCandidate
  rank_second c ticker evidence_consistent base = do
    let research =
        assess_research name_hash c (second_key c ticker) ticker base.components evidence_consistent
    suitability ← assess_suitability c research
    ok (record base {
      candidate_key = second_key c ticker;
      missing_reasons = suitability.missing_reasons;
      qualified = is_ready research.research_state && is_eligible suitability.state;
      veto_reasons = first_occurrences [] (research.limitations ++ suitability.veto_reasons);
      research = some research;
      suitability = some suitability;
    })

  unfoldable pub rank_by :
      (first : Bool)
      → CandidateInput
      → (ticker : Option String) → (missing : List Reason) → (evidence_consistent : Bool)
      → RankedCandidate
      → Result RankingError RankedCandidate
  rank_by true c ticker missing evidence_consistent base = ok (rank_first c missing base)
  rank_by false c ticker missing evidence_consistent base =
      rank_second c ticker evidence_consistent base

  -- `candidate.ticker.strip().upper()`
  unfoldable pub canonical_ticker : CandidateInput → Option String
  canonical_ticker c = map_text (λ text. upper (strip text)) c.ticker

  abbrev pub has_consistent_event : CandidateInput → Bool
  has_consistent_event c = is_event_consistent c.event.event_id c.relation

  unfoldable pub has_consistent_evidence : (first : Bool) → CandidateInput → Bool
  has_consistent_evidence first c =
      is_evidence_consistent first c.relation (evidence_index name_hash c.evidence)
        (evidence_index name_hash (exposure_items c.relation))

  unfoldable pub reasons_of_evidence : (first : Bool) → CandidateInput → List Reason
  reasons_of_evidence first c =
      evidence_reasons (has_consistent_event c) (is_filled (evidence_index name_hash c.evidence).0)
        (has_consistent_evidence first c)

  -- The body of the loop over the candidates.
  unfoldable pub rank_candidate :
      (contract_version : ℕ)
      → (has_holdings : Bool) → (holdings plans : Positions) → CandidateInput
      → Result RankingError RankedCandidate
  rank_candidate contract_version has_holdings holdings plans c = do
    guard (c.contract_version == contract_version) version_mismatch
    let ticker = canonical_ticker c
    let first = contract_version == 1
    guard (not first || is_some ticker && is_some c.relation) relationship_required
    guard (is_ticker_of ticker c.relation) ticker_mismatch
    let consistent = has_consistent_event c && has_consistent_evidence first c
    (components, missing) ← score_candidate c ticker consistent has_holdings holdings plans
    rank_by first c ticker (reasons_of_evidence first c ++ missing)
        (has_consistent_evidence first c && has_consistent_event c)
        (ranked_base c ticker consistent components)

  unfoldable pub rank_all :
      (contract_version : ℕ)
      → (has_holdings : Bool) → (holdings plans : Positions) → List CandidateInput
      → Result RankingError (List RankedCandidate)
  rank_all contract_version has_holdings holdings plans [] = ok []
  rank_all contract_version has_holdings holdings plans (c ∷ candidates) = do
    r ← rank_candidate contract_version has_holdings holdings plans c
    rest ← rank_all contract_version has_holdings holdings plans candidates
    ok (r ∷ rest)

-- `candidate_sort_key`: more score first, then more official evidence, then the key.
unfoldable pub compare_ranked : RankedCandidate → RankedCandidate → Ordering
compare_ranked a b = or_then (compare_ℤ b.total_score a.total_score) (
    or_then (compare b.authoritative_evidence_count a.authoritative_evidence_count)
      (compare_texts a.candidate_key b.candidate_key))

-- `[replace(candidate, rank=index) for index, candidate in enumerate(ranked, first)]`
unfoldable pub numbered : (first : ℕ) → List RankedCandidate → List RankedCandidate
numbered first [] = []
numbered first (r ∷ ranked) = record r { rank = first } ∷ numbered (suc first) ranked

unfoldable pub rank_candidates :
    (upper name_hash : String → String)
    → List CandidateInput
    → (holdings : Option (List (String × Given))) → Plans
    → (contract_version : ℕ) → Result RankingError (List RankedCandidate)
rank_candidates upper name_hash candidates holdings plans contract_version = do
  guard (contract_version == 1 || contract_version == 2) version_unsupported
  held ← holding_positions upper holdings
  planned ← plan_positions upper plans
  ranked ← rank_all upper name_hash contract_version (is_some holdings) held planned candidates
  ok (numbered 1 (sorted compare_ranked ranked))
