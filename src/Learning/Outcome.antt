-- ===== src/Learning/Outcome.antt =====
-- `build_learning_proposal`, `build_noise_observation` and `build_source_failure_observation` of
-- lib/intelligence/learning.py. A value of a row that is not of the expected type is none; `True` does not
-- stand for 1 in a policy version.
use Prim.Native.Nat.{max}
use Prim.Native.String.{count as count_chars}
use stocks_agent.Common.{
  ℕ, Bool, true, false, not, ◌&&◌, ◌||◌, Option, none, some, List, [], ◌∷◌, map, String, length,
  filter, leb, ◌==◌, if◌then◌else◌, str_eq, Result, ok, ◌>>=◌, ◌>>◌, guard,
}
use stocks_agent.Queue.Request.{sorted_set}
use stocks_agent.Learning.Observation.{
  LearningError, invalid_run_id, invalid_evidence_id, invalid_policy_version, no_eligible_outcomes,
  policy_versions_differ, benchmarks_differ, horizons_differ, runs_differ, other_run,
  other_policy_version, invalid_source_failure, LearningObservation, outcome, source_failure, noise,
  observation, owner_review, false_positives, failures, minimum_proposal_sample, rate,
  positive_version, the_one, uuid_of, uuids,
}

-- A row of the outcomes. `excess_return` is whether it has an `excess_return_pct`.
pub record Outcome : Type 0 where
  pub original_run_id : String
  pub evidence_id : String
  pub policy_version : Option ℕ
  pub horizon_days : Option ℕ
  pub horizon_sessions : Option ℕ
  pub coverage_status : String
  pub benchmark : Option String
  pub excess_return : Bool
  pub direction_success : Option Bool

abbrev pub is_eligible_horizon : Option ℕ → Bool
is_eligible_horizon none = false
is_eligible_horizon (some days) = days == 5 || days == 21 || days == 63

abbrev pub is_same_number : Option ℕ → Option ℕ → Bool
is_same_number none none = true
is_same_number (some a) (some b) = a == b
is_same_number none (some b) = false
is_same_number (some a) none = false

abbrev pub is_named : Option String → Bool
is_named none = false
is_named (some name) = not (str_eq name "")

abbrev pub is_boolean_value : Option Bool → Bool
is_boolean_value none = false
is_boolean_value (some value) = true

unfoldable pub is_eligible_outcome : Outcome → Bool
is_eligible_outcome row =
    is_eligible_horizon row.horizon_days
    && is_same_number row.horizon_sessions row.horizon_days
    && str_eq row.coverage_status "complete"
    && is_named row.benchmark
    && row.excess_return
    && is_boolean_value row.direction_success

unfoldable pub eligible_outcomes : List Outcome → List Outcome
eligible_outcomes outcomes = filter is_eligible_outcome outcomes

abbrev pub is_same_text : Option String → Option String → Bool
is_same_text none none = true
is_same_text (some a) (some b) = str_eq a b
is_same_text none (some b) = false
is_same_text (some a) none = false

abbrev pub has_rows : List Outcome → Bool
has_rows [] = false
has_rows (row ∷ rows) = true

abbrev pub is_false_positive : Outcome → Bool
is_false_positive row = elim row.direction_success [
  | some false ↦ true
  | some true ↦ false
  | none ↦ false
]

abbrev pub days_of : Option ℕ → ℕ
days_of none = 0
days_of (some days) = days

unfoldable pub false_positive_metrics : List Outcome → ℕ × ℕ
false_positive_metrics rows = (
  length (filter is_false_positive rows),
  rate (length (filter is_false_positive rows)) (length rows),
)

-- The parts that depend on whether the sample is large enough.
abbrev pub proposed : (sample false_positive_rate : ℕ) → Option ℕ
proposed sample false_positive_rate =
    if leb minimum_proposal_sample sample then some false_positive_rate else none

abbrev pub limitations_of : (sample : ℕ) → List String
limitations_of sample =
    "historical outcomes do not prove future performance"
    ∷ (if leb minimum_proposal_sample sample
        then []
        else "minimum 5 eligible outcomes required for owner-review proposal" ∷ [])

module _ (uuid : String → Option String) where
  -- `{_uuid(…) for row in eligible}`, sorted.
  unfoldable pub evidence_of : List Outcome → Result LearningError (List String)
  evidence_of rows = do
    ids ← uuids uuid invalid_evidence_id (map (λ (row : Outcome). row.evidence_id) rows)
    ok (sorted_set ids)

  unfoldable pub build_learning_proposal : List Outcome → Result LearningError LearningObservation
  build_learning_proposal outcomes = do
    let rows = eligible_outcomes outcomes
    guard (has_rows rows) no_eligible_outcomes
    version ←
        the_one is_same_number policy_versions_differ
          (map (λ (row : Outcome). row.policy_version) rows)
    policy_version ← positive_version policy_versions_differ version
    benchmark ← the_one is_same_text benchmarks_differ (map (λ (row : Outcome). row.benchmark) rows)
    horizon ←
        the_one is_same_number horizons_differ (map (λ (row : Outcome). row.horizon_days) rows)
    ids ← uuids uuid invalid_run_id (map (λ (row : Outcome). row.original_run_id) rows)
    run_id ← the_one str_eq runs_differ ids
    evidence ← evidence_of rows
    let (count, false_positive_rate) = false_positive_metrics rows
    ok (record {
      kind = outcome;
      original_run_id = run_id;
      policy_version = policy_version;
      sample_size = length rows;
      evidence_ids = evidence;
      limitations = limitations_of (length rows);
      proposed_change = proposed (length rows) false_positive_rate;
      status = if leb minimum_proposal_sample (length rows) then owner_review else observation;
      horizon_days = days_of horizon;
      benchmark = benchmark;
      metrics = false_positives count false_positive_rate;
    })

  -- `any(_uuid(…) != expected …)` stops at the first row that differs.
  unfoldable pub check_runs : (expected : String) → List Outcome → Result LearningError (Unit {0})
  check_runs expected [] = ok tt
  check_runs expected (row ∷ rows) = do
    id ← uuid_of uuid invalid_run_id row.original_run_id
    guard (str_eq id expected) other_run
    check_runs expected rows

  unfoldable pub check_versions : (expected : ℕ) → List Outcome → Result LearningError (Unit {0})
  check_versions expected [] = ok tt
  check_versions expected (row ∷ rows) = do
    guard (is_same_number row.policy_version (some expected)) other_policy_version
    check_versions expected rows

  unfoldable pub build_noise_observation :
      (original_run_id : String)
      → (policy_version : Option ℕ) → List Outcome
      → Result LearningError LearningObservation
  build_noise_observation original_run_id policy_version outcomes = do
    let rows = eligible_outcomes outcomes
    guard (has_rows rows) no_eligible_outcomes
    expected ← uuid_of uuid invalid_run_id original_run_id
    version ← positive_version invalid_policy_version policy_version
    check_runs expected rows
    check_versions version rows
    horizon ←
        the_one is_same_number horizons_differ (map (λ (row : Outcome). row.horizon_days) rows)
    benchmark ← the_one is_same_text benchmarks_differ (map (λ (row : Outcome). row.benchmark) rows)
    evidence ← evidence_of rows
    let (count, false_positive_rate) = false_positive_metrics rows
    ok (record {
      kind = noise;
      original_run_id = expected;
      policy_version = version;
      sample_size = length rows;
      evidence_ids = evidence;
      limitations = "historical outcomes do not prove future performance" ∷ [];
      proposed_change = none;
      status = observation;
      horizon_days = days_of horizon;
      benchmark = benchmark;
      metrics = false_positives count false_positive_rate;
    })

  unfoldable pub build_source_failure_observation :
      (original_run_id : String)
      → (policy_version : ℕ) → (evidence_ids : List String) → (source limitation : String)
      → Result LearningError LearningObservation
  build_source_failure_observation original_run_id policy_version evidence_ids source limitation =
      do
        guard
            (not (str_eq source "")
              && leb (count_chars source) 100
              && not (str_eq limitation "")
              && leb (count_chars limitation) 500)
            invalid_source_failure
        run_id ← uuid_of uuid invalid_run_id original_run_id
        evidence ← uuids uuid invalid_evidence_id evidence_ids
        ok (record {
          kind = source_failure;
          original_run_id = run_id;
          policy_version = policy_version;
          sample_size = max 1 (length evidence_ids);
          evidence_ids = evidence;
          limitations = limitation ∷ [];
          proposed_change = none;
          status = observation;
          horizon_days = 0;
          benchmark = none;
          metrics = failures source 1;
        })
