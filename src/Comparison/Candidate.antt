-- ===== src/Comparison/Candidate.antt =====
-- What lib/intelligence/comparison.py compares, and the checks when it is made. A value is its text, and a
-- mapping the list of its entries. `upper` is `str.upper`.
use Prim.Native.String.{count}
use stocks_agent.Common.{
  Bool, true, false, not, ◌&&◌, Option, none, some, List, [], ◌∷◌, String, leb, if◌then◌else◌,
  str_eq, is_some, Result, ok, ◌>>=◌, ◌>>◌, guard,
}
use stocks_agent.Cursor.Update.{first_occurrences}
use stocks_agent.Relation.Text.{strip}

pub data EvidenceStatus : Type 0 where
  supported missing conflicting veto : EvidenceStatus

pub data ComparisonError : Type 0 where
  ticker_invalid supported_without_evidence veto_without_evidence unavailable_with_value :
      ComparisonError

pub record EvidenceValue : Type 0 where
  pub value : Option String
  pub evidence_ids : List String
  pub status : EvidenceStatus

abbrev pub has_ids : List String → Bool
has_ids [] = false
has_ids (id ∷ ids) = true

-- The checks of a status.
abbrev pub check_status :
    EvidenceStatus → (has_value has_evidence : Bool) → Result ComparisonError (Unit {0})
check_status supported has_value has_evidence =
    guard (has_value && has_evidence) supported_without_evidence
check_status veto has_value has_evidence = guard has_evidence veto_without_evidence
check_status missing has_value has_evidence = guard (not has_value) unavailable_with_value
check_status conflicting has_value has_evidence = guard (not has_value) unavailable_with_value

-- `EvidenceValue(value, evidence_ids, status)`
unfoldable pub evidence_value :
    Option String → List String → EvidenceStatus → Result ComparisonError EvidenceValue
evidence_value value evidence_ids status = do
  let ids = first_occurrences [] evidence_ids
  check_status status (is_some value) (has_ids ids)
  ok (record { value = value; evidence_ids = ids; status = status })

-- `EvidenceValue(None, status="missing")`
abbrev pub missing_value : EvidenceValue
missing_value = record { value = none; evidence_ids = []; status = missing }

abbrev pub Entries : Type 0
Entries = List (String × EvidenceValue)

-- `entries[key] = value`
unfoldable pub put_entry : String → EvidenceValue → Entries → Entries
put_entry key value [] = (key, value) ∷ []
put_entry key value ((k, old) ∷ entries) =
    if str_eq k key then (k, value) ∷ entries else (k, old) ∷ put_entry key value entries

-- The evidence of the bear, the base and the bull case.
pub record ScenarioEvidence : Type 0 where
  pub bear : List String
  pub base : List String
  pub bull : List String

pub record ComparisonCandidate : Type 0 where
  pub ticker : String
  pub role : String
  pub diversification : EvidenceValue
  pub overlap : EvidenceValue
  pub cost : EvidenceValue
  pub valuation : EvidenceValue
  pub concentration : EvidenceValue
  pub liquidity : EvidenceValue
  pub drawdowns : Entries
  pub correlation : EvidenceValue
  pub scenario_evidence_ids : ScenarioEvidence

module _ (upper : String → String) where
  abbrev pub is_ticker_text : String → Bool
  is_ticker_text ticker = not (str_eq ticker "") && leb (count ticker) 15

  abbrev pub text_or_empty : Option String → String
  text_or_empty none = ""
  text_or_empty (some text) = text

  -- `_ticker`
  unfoldable pub ticker_of : Option String → Result ComparisonError String
  ticker_of value = do
    let ticker = upper (strip (text_or_empty value))
    guard (is_ticker_text ticker) ticker_invalid
    ok ticker

  -- `{_ticker(key): value for key, value in drawdowns.items()}`, from the entries before.
  unfoldable pub drawdowns_of : (found : Entries) → Entries → Result ComparisonError Entries
  drawdowns_of found [] = ok found
  drawdowns_of found ((key, value) ∷ entries) = do
    ticker ← ticker_of (some key)
    drawdowns_of (put_entry ticker value found) entries

  -- `ComparisonCandidate.__post_init__`, of a candidate as it is given.
  unfoldable pub comparison_candidate :
      ComparisonCandidate → Result ComparisonError ComparisonCandidate
  comparison_candidate c = do
    ticker ← ticker_of (some c.ticker)
    drawdowns ← drawdowns_of [] c.drawdowns
    ok (record c {
      ticker = ticker;
      drawdowns = drawdowns;
      scenario_evidence_ids = record {
        bear = first_occurrences [] c.scenario_evidence_ids.bear;
        base = first_occurrences [] c.scenario_evidence_ids.base;
        bull = first_occurrences [] c.scenario_evidence_ids.bull;
      };
    })
