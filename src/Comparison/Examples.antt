-- ===== src/Comparison/Examples.antt =====
-- A candidate compared by lib/intelligence/comparison.py, and the theorem at it.
use stocks_agent.Common.{
  ◌≡◌, refl, true, false, not, ◌&&◌, none, some, [], ◌∷◌, String, Result, ok, raise,
}
use stocks_agent.Cursor.Update.{first_occurrences}
use stocks_agent.Relation.Text.{lstrip, rstrip, strip}
use stocks_agent.Comparison.Candidate.{
  EvidenceStatus, supported, missing, veto, ComparisonError, supported_without_evidence,
  EvidenceValue, evidence_value, put_entry, ComparisonCandidate, ticker_of, drawdowns_of,
  comparison_candidate,
}
use stocks_agent.Comparison.Compare.{
  ComparisonContext, eligible, vetoed, insufficient, PersonalComparison, holding_anchors,
  plan_anchors, current_anchors, drawdown_evidence, scenarios_of, unavailable_entries, set_default,
  set_defaults, scenario_limitations, limitations_of_comparison, compare_candidate,
}
use stocks_agent.Comparison.Limits.{is_complete}
use stocks_agent.Comparison.Complete.{is_status, is_vetoed, compare_candidate-is_complete}

-- The mapping of texts that are mapped already.
abbrev same : String → String
same text = text

abbrev of_status : EvidenceStatus → EvidenceValue
of_status status = record { value = some "0.2"; evidence_ids = "e1" ∷ []; status = status }

abbrev candidate : (overlap liquidity : EvidenceStatus) → ComparisonCandidate
candidate overlap liquidity = record {
  ticker = "XYZ";
  role = "diversifier";
  diversification = of_status supported;
  overlap = of_status overlap;
  cost = of_status supported;
  valuation = of_status supported;
  concentration = of_status supported;
  liquidity = of_status liquidity;
  drawdowns = ("XYZ", of_status supported) ∷ ("ABC", of_status supported) ∷ [];
  correlation = of_status supported;
  scenario_evidence_ids = record { bear = []; base = "e2" ∷ []; bull = "e3" ∷ [] };
}

abbrev context : (plan : String) → ComparisonContext
context plan = record {
  holdings = record { ticker = some " ABC" } ∷ [];
  owner_plans =
      record { ticker = some plan; active = true } ∷ record { ticker = none; active = false } ∷ [];
}

program : Unit {0}
unfolding first_occurrences lstrip rstrip strip evidence_value put_entry ticker_of drawdowns_of
    comparison_candidate holding_anchors plan_anchors current_anchors drawdown_evidence scenarios_of
    unavailable_entries set_default set_defaults scenario_limitations limitations_of_comparison
    compare_candidate
program = tt

abbrev compared : ComparisonCandidate → (plan : String) → Result ComparisonError PersonalComparison
compared c plan = compare_candidate same c (context plan)

abbrev returned : ComparisonCandidate → (plan : String) → PersonalComparison
returned c plan = elim (compared c plan) [
  | ok r ↦ r
  | raise exception ↦ record {
    candidate_ticker = "";
    anchor_tickers = [];
    role = "";
    diversification = c.diversification;
    overlap = c.overlap;
    cost = c.cost;
    valuation = c.valuation;
    concentration = c.concentration;
    liquidity = c.liquidity;
    drawdowns = [];
    correlation = c.correlation;
    scenarios = [];
    limitations = [];
    status = insufficient;
    veto_reasons = [];
  }
]

unchanged :
    comparison_candidate same (candidate supported supported) ≡ ok (candidate supported supported)
unfolding program
unchanged = refl

without_evidence : evidence_value (some "0.2") [] supported ≡ raise supported_without_evidence
unfolding program
without_evidence = refl

compared_ok :
    compared (candidate supported supported) "ABC"
    ≡ ok (returned (candidate supported supported) "ABC")
unfolding program
compared_ok = refl

compared_eligible : (returned (candidate supported supported) "ABC").status ≡ eligible
unfolding program
compared_eligible = refl

-- Another plan has no drawdown.
compared_insufficient :
    (returned (candidate supported supported) "DEF").limitations ≡ "drawdown:DEF:missing" ∷ []
unfolding program
compared_insufficient = refl

compared_vetoed : (returned (candidate veto missing) "ABC").status ≡ vetoed
unfolding program
compared_vetoed = refl

compare_candidate-is_complete_example :
    (current_anchors same (context "ABC")
      ≡ ok (returned (candidate supported supported) "ABC").anchor_tickers)
    × (is_status vetoed (returned (candidate supported supported) "ABC").status
        ≡ is_vetoed (candidate supported supported))
    × (is_status eligible (returned (candidate supported supported) "ABC").status ≡ (
        not (is_vetoed (candidate supported supported))
        && is_complete
            (returned (candidate supported supported) "ABC").anchor_tickers
            (candidate supported supported)))
compare_candidate-is_complete_example =
    compare_candidate-is_complete same (candidate supported supported) (context "ABC")
      (returned (candidate supported supported) "ABC") compared_ok
