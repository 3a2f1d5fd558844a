-- ===== src/Ranking/Examples.antt =====
-- Two candidates ranked under each contract of lib/intelligence/ranking.py, and the theorems at them.
use stocks_agent.Common.{
  ℕ, ◌≡◌, refl, Bool, true, false, Option, none, some, List, [], ◌∷◌, String, length, arith, map,
  Result, ok, raise, ℤ, pos, insert_sorted, sorted, All,
}
use stocks_agent.Cursor.Update.{first_occurrences}
use stocks_agent.Relation.Text.{lstrip, rstrip, strip}
use stocks_agent.Relation.Item.{SourceItem, key_of_supplied, evidence_key}
use stocks_agent.Relation.Proposal.{EventRelationship}
use stocks_agent.Ranking.Decimal.{
  Given, decimal, RankingError, half_even, quantized, fixed, unit_score,
}
use stocks_agent.Ranking.Candidate.{CandidateInput, RankedCandidate}
use stocks_agent.Ranking.Positions.{
  Plans, by_key, plan_text, add_holdings, holding_positions, add_position, add_plan,
  add_keyed_plans, add_listed_plans, plan_positions,
}
use stocks_agent.Ranking.Evidence.{
  item_of, put_indexed, index_items, evidence_index, is_evidence_consistent,
}
use stocks_agent.Ranking.Score.{
  reason_text, veto_text, supplied_score, weight_reasons, explicit_duplication, fixed_weight,
  automatic_duplication, concentration_size, score_candidate, total_of,
}
use stocks_agent.Ranking.Research.{
  is_resolved, has_typed_exposure, supported_limitations, research_state_of, assess_research,
  state_missing, state_veto, states_missing, states_veto, is_heavy, lineage_missing,
  assess_suitability,
}
use stocks_agent.Ranking.Rank.{
  evidence_reasons, legacy_key, second_key, rank_first, rank_second, rank_by, canonical_ticker,
  has_consistent_evidence, reasons_of_evidence, rank_candidate, rank_all, compare_ranked, numbered,
  rank_candidates,
}
use stocks_agent.Ranking.Closed.{rank_candidates-shut}
use stocks_agent.Ranking.Order.{IsRanked, rank_candidates-IsRanked}
use stocks_agent.Ranking.Bounds.{IsWithin, rank_candidates-IsWithin}
use stocks_agent.Ranking.Gates.{IsGated, rank_candidates-IsGated}

-- The mapping of texts that are mapped already, and a name that is the hash itself.
abbrev same : String → String
same text = text

abbrev filing : SourceItem
filing = record {
  provider = "sec_edgar";
  upstream_item_id = none;
  title = "";
  summary = "";
  item_id = some "f";
  content_hash = "c";
  canonical_content = "c";
  authority = "official";
  claim_polarity = "unknown";
  exposure_kind_attribute = none;
  exposure_kind_metadata = some "filing";
  claim_polarity_metadata = none;
  adverse_path_metadata = false;
  role_metadata = none;
}

abbrev relation : (ticker : String) → EventRelationship
relation ticker = record {
  event_id = "e";
  source_kind = "event";
  source_key = "e";
  target_kind = "security";
  target_key = ticker;
  security_id = ticker;
  ticker = ticker;
  role = "supplier";
  relationship_type = "supply_chain";
  evidence = filing ∷ [];
  exposure_evidence = filing ∷ [];
  exposure_status = "confirmed";
  eligible_for_ranking = true;
  hypothesis = false;
  missing_reasons = [];
  dropped_evidence_keys = [];
  dropped_exposure_fact_ids = [];
}

abbrev score : ℕ → Option Given
score tenths = some (decimal false tenths 1)

abbrev candidate : (contract_version : ℕ) → (ticker : String) → (liquidity : ℕ) → CandidateInput
candidate contract_version ticker liquidity = record {
  ticker = some ticker;
  event = record {
    event_id = "e";
    materiality = 700000;
    theme_ids = "t" ∷ [];
    evidence = filing ∷ [];
  };
  relation = some (relation ticker);
  evidence = filing ∷ [];
  authority_corroboration = score 9;
  exposure_strength = score 8;
  recency = score 5;
  portfolio_relevance = score 4;
  liquidity = score liquidity;
  duplication_penalty = none;
  holding_weight = none;
  overlap = score 0;
  concentration = none;
  contract_version = contract_version;
  security_id = some ticker;
  entity_id = none;
  theme_ids = [];
  roles = [];
  exposure_fact_ids = "x" ∷ [];
  supporting_evidence_ids = "f" ∷ [];
  opposing_evidence_ids = "f" ∷ [];
  lineage = none;
  reference_state = "current";
  valuation_state = "passed";
  quote_state = "passed";
  portfolio_state = "passed";
  cash_state = "passed";
  explicit_unresolved_identity = false;
  limitations = [];
  adverse_paths = [];
}

abbrev candidates : (contract_version : ℕ) → List CandidateInput
candidates contract_version =
    candidate contract_version "ABC" 3 ∷ candidate contract_version "DEF" 6 ∷ []

abbrev holdings : Option (List (String × Given))
holdings = some (("ABC", decimal false 1 1) ∷ [])

abbrev plans : Plans
plans = by_key (("DEF", plan_text "DEF") ∷ [])

program : Unit {0}
unfolding insert_sorted sorted first_occurrences lstrip rstrip strip key_of_supplied evidence_key
    half_even quantized fixed unit_score item_of put_indexed index_items evidence_index
    is_evidence_consistent add_holdings holding_positions add_position add_plan add_keyed_plans
    add_listed_plans plan_positions evidence_reasons legacy_key second_key rank_first rank_second
    rank_by canonical_ticker has_consistent_evidence reasons_of_evidence rank_candidate rank_all
    compare_ranked numbered rank_candidates is_resolved has_typed_exposure supported_limitations
    research_state_of assess_research state_missing state_veto states_missing states_veto is_heavy
    lineage_missing assess_suitability reason_text veto_text supplied_score weight_reasons
    explicit_duplication fixed_weight automatic_duplication concentration_size score_candidate
    total_of
program = tt

abbrev returned : Result RankingError (List RankedCandidate) → List RankedCandidate
returned (ok ranked) = ranked
returned (raise exception) = []

abbrev result : (contract_version : ℕ) → Result RankingError (List RankedCandidate)
result contract_version =
    rank_candidates same same (candidates contract_version) holdings plans contract_version

-- What the example reads of a ranked candidate.
abbrev shown : RankedCandidate → (ℕ × Option String) × ℤ × Bool
shown r = ((r.rank, r.ticker), r.total_score, r.qualified)

-- 3.9 less 0.1 for the plan and 3.6 less 0.15 for the holding and 0.1 for its weight.
first :
    map shown (returned (result 1))
    ≡ ((1, some "DEF"), pos 3800000, true) ∷ ((2, some "ABC"), pos 3350000, true) ∷ []
unfolding program
first = refl

first_returned : result 1 ≡ ok (returned (result 1))
unfolding program
first_returned = refl

second :
    map shown (returned (result 2))
    ≡ ((1, some "DEF"), pos 3800000, false) ∷ ((2, some "ABC"), pos 3350000, false) ∷ []
unfolding program
second = refl

second_returned : result 2 ≡ ok (returned (result 2))
unfolding program
second_returned = refl

rank_candidates-shut_example :
    All (λ (r : RankedCandidate). r.qualified ≡ false) (returned (result 2))
rank_candidates-shut_example =
    rank_candidates-shut same same (candidates 2) holdings plans (returned (result 2))
      second_returned

rank_candidates-IsRanked_example :
    IsRanked 1 (returned (result 1)) × (length (returned (result 1)) ≡ length (candidates 1))
rank_candidates-IsRanked_example =
    rank_candidates-IsRanked same same 1 (candidates 1) holdings plans (returned (result 1))
      first_returned

rank_candidates-IsGated_example :
    All
      (λ (r : RankedCandidate). r.qualified ≡ true → IsGated same same (candidates 1) holdings r)
      (returned (result 1))
rank_candidates-IsGated_example =
    rank_candidates-IsGated same same (candidates 1) holdings plans (returned (result 1))
      first_returned

rank_candidates-IsWithin_example : All IsWithin (returned (result 1))
rank_candidates-IsWithin_example =
    rank_candidates-IsWithin same same (candidates 1) holdings plans 1 (returned (result 1))
      (omega arith, (omega arith, tt)) first_returned
