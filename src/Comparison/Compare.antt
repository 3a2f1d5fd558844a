-- ===== src/Comparison/Compare.antt =====
-- `compare_candidate` of lib/intelligence/comparison.py.
use Prim.Native.String.{◌++◌ as append_text}
use stocks_agent.Common.{
  Bool, true, false, Option, List, [], ◌∷◌, ◌++◌, String, if◌then◌else◌, str_eq, contains, Result,
  ok, ◌>>=◌,
}
use stocks_agent.Cursor.Update.{first_occurrences}
use stocks_agent.Comparison.Candidate.{
  EvidenceStatus, supported, missing, conflicting, veto, ComparisonError, EvidenceValue,
  missing_value, Entries, ComparisonCandidate, has_ids, ticker_of,
}

pub record Holding : Type 0 where
  pub ticker : Option String

-- `active` is whether `plan.get("active")` is `True`.
pub record OwnerPlan : Type 0 where
  pub ticker : Option String
  pub active : Bool

pub record ComparisonContext : Type 0 where
  pub holdings : List Holding
  pub owner_plans : List OwnerPlan

pub data ScenarioName : Type 0 where
  bear base bull : ScenarioName

pub record Scenario : Type 0 where
  pub name : ScenarioName
  pub prose : String
  pub evidence_ids : List String

pub data ComparisonStatus : Type 0 where
  eligible vetoed insufficient : ComparisonStatus

pub record PersonalComparison : Type 0 where
  pub candidate_ticker : String
  pub anchor_tickers : List String
  pub role : String
  pub diversification : EvidenceValue
  pub overlap : EvidenceValue
  pub cost : EvidenceValue
  pub valuation : EvidenceValue
  pub concentration : EvidenceValue
  pub liquidity : EvidenceValue
  pub drawdowns : Entries
  pub correlation : EvidenceValue
  pub scenarios : List Scenario
  pub limitations : List String
  pub status : ComparisonStatus
  pub veto_reasons : List String

-- `if ticker not in anchors: anchors.append(ticker)`
abbrev pub add_anchor : String → List String → List String
add_anchor ticker anchors = if contains ticker anchors then anchors else anchors ++ ticker ∷ []

module _ (upper : String → String) where
  unfoldable pub holding_anchors : List String → List Holding → Result ComparisonError (List String)
  holding_anchors anchors [] = ok anchors
  holding_anchors anchors (holding ∷ holdings) = do
    ticker ← ticker_of upper holding.ticker
    holding_anchors (add_anchor ticker anchors) holdings

  unfoldable pub plan_anchors : List String → List OwnerPlan → Result ComparisonError (List String)
  plan_anchors anchors [] = ok anchors
  plan_anchors anchors (plan ∷ plans) = elim plan.active [
    | false ↦ plan_anchors anchors plans
    | true ↦ (do
      ticker ← ticker_of upper plan.ticker
      plan_anchors (add_anchor ticker anchors) plans)
  ]

  -- `_current_anchors`
  unfoldable pub current_anchors : ComparisonContext → Result ComparisonError (List String)
  current_anchors context = do
    anchors ← holding_anchors [] context.holdings
    plan_anchors anchors context.owner_plans

-- `[evidence_id for drawdown in drawdowns.values() for evidence_id in drawdown.evidence_ids]`
unfoldable pub drawdown_evidence : Entries → List String
drawdown_evidence [] = []
drawdown_evidence ((ticker, value) ∷ entries) = value.evidence_ids ++ drawdown_evidence entries

abbrev pub prose_of : (description : String) → String
prose_of description =
    append_text "If the cited "
      (append_text description "; this is conditional research, not a forecast.")

-- `_scenarios`
unfoldable pub scenarios_of : ComparisonCandidate → List Scenario
scenarios_of c =
    record {
      name = bear;
      prose = prose_of "bear conditions hold, the cited risk evidence supports a downside case";
      evidence_ids =
          first_occurrences [] (c.scenario_evidence_ids.bear ++ drawdown_evidence c.drawdowns);
    }
    ∷ record {
      name = base;
      prose =
          prose_of "base conditions hold, the cited operating evidence supports the central case";
      evidence_ids = c.scenario_evidence_ids.base;
    }
    ∷ record {
      name = bull;
      prose = prose_of "bull conditions hold, the cited catalyst evidence supports an upside case";
      evidence_ids = c.scenario_evidence_ids.bull;
    }
    ∷ []

abbrev pub scenario_text : ScenarioName → String
scenario_text bear = "bear"
scenario_text base = "base"
scenario_text bull = "bull"

-- `f"{name}:{status}"` of a value that is not available.
abbrev pub unavailable : (name : String) → EvidenceStatus → List String
unavailable name supported = []
unavailable name missing = append_text name ":missing" ∷ []
unavailable name conflicting = append_text name ":conflicting" ∷ []
unavailable name veto = []

-- `_FACTORS`, with their values.
abbrev pub factors_of : ComparisonCandidate → Entries
factors_of c =
    ("diversification", c.diversification)
    ∷ ("overlap", c.overlap)
    ∷ ("cost", c.cost)
    ∷ ("valuation", c.valuation)
    ∷ ("concentration", c.concentration)
    ∷ ("liquidity", c.liquidity)
    ∷ ("correlation", c.correlation)
    ∷ []

unfoldable pub unavailable_entries : (prefix : String) → Entries → List String
unavailable_entries prefix [] = []
unavailable_entries prefix ((name, value) ∷ entries) =
    unavailable (append_text prefix name) value.status ++ unavailable_entries prefix entries

-- `entries.setdefault(key, EvidenceValue(None, status="missing"))`
unfoldable pub set_default : String → Entries → Entries
set_default key [] = (key, missing_value) ∷ []
set_default key ((k, value) ∷ entries) =
    if str_eq k key then (k, value) ∷ entries else (k, value) ∷ set_default key entries

unfoldable pub set_defaults : List String → Entries → Entries
set_defaults [] entries = entries
set_defaults (key ∷ keys) entries = set_defaults keys (set_default key entries)

abbrev pub without_evidence : Scenario → List String
without_evidence scenario =
    if has_ids scenario.evidence_ids
    then []
    else append_text "scenario:" (append_text (scenario_text scenario.name) ":missing_evidence")
      ∷ []

unfoldable pub scenario_limitations : List Scenario → List String
scenario_limitations [] = []
scenario_limitations (scenario ∷ scenarios) =
    without_evidence scenario ++ scenario_limitations scenarios

unfoldable pub limitations_of_comparison :
    (anchors : List String) → ComparisonCandidate → (drawdowns : Entries) → List String
limitations_of_comparison anchors c drawdowns =
    (if has_ids anchors then [] else "anchor:missing" ∷ [])
    ++ (unavailable_entries "" (factors_of c)
        ++ (unavailable_entries "drawdown:" drawdowns ++ scenario_limitations (scenarios_of c)))

abbrev pub veto_of : (name : String) → EvidenceStatus → List String
veto_of name veto = append_text name "_veto" ∷ []
veto_of name _ = []

abbrev pub veto_reasons_of : ComparisonCandidate → List String
veto_reasons_of c =
    veto_of "overlap" c.overlap.status ++ veto_of "concentration" c.concentration.status

abbrev pub status_of : (veto_reasons limitations : List String) → ComparisonStatus
status_of (reason ∷ veto_reasons) limitations = vetoed
status_of [] (limitation ∷ limitations) = insufficient
status_of [] [] = eligible

unfoldable pub compare_candidate :
    (upper : String → String)
    → ComparisonCandidate
    → ComparisonContext
    → Result ComparisonError PersonalComparison
compare_candidate upper c context = do
  anchors ← current_anchors upper context
  let drawdowns = set_defaults (c.ticker ∷ anchors) c.drawdowns
  let limitations = limitations_of_comparison anchors c drawdowns
  ok (record {
    candidate_ticker = c.ticker;
    anchor_tickers = anchors;
    role = c.role;
    diversification = c.diversification;
    overlap = c.overlap;
    cost = c.cost;
    valuation = c.valuation;
    concentration = c.concentration;
    liquidity = c.liquidity;
    drawdowns = drawdowns;
    correlation = c.correlation;
    scenarios = scenarios_of c;
    limitations = first_occurrences [] limitations;
    status = status_of (veto_reasons_of c) limitations;
    veto_reasons = veto_reasons_of c;
  })
