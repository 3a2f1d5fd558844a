-- ===== src/Learning/Observation.antt =====
-- The observations of lib/intelligence/learning.py, and its helpers. A UUID is its canonical text, and
-- `uuid` is `UUID(str(value))`, none where it raises.
use stocks_agent.Common.{
  ℕ, zero, suc, ◌+◌, ◌*◌, ◌/◌, Bool, Option, none, some, List, [], ◌∷◌, String, all, Result, ok,
  raise, ◌>>=◌, ◌>>◌, guard,
}

pub data ObservationKind : Type 0 where
  outcome missed_event source_failure noise : ObservationKind

pub data ObservationStatus : Type 0 where
  observation owner_review : ObservationStatus

pub data LearningError : Type 0 where
  invalid_run_id invalid_evidence_id invalid_policy_version no_eligible_outcomes : LearningError
  policy_versions_differ benchmarks_differ horizons_differ runs_differ : LearningError
  other_run other_policy_version invalid_source_failure : LearningError

-- The `metrics` of each kind.
pub data Metrics : Type 0 where
  false_positives : (count rate : ℕ) → Metrics
  missed_candidate_keys : List String → Metrics
  failures : (source : String) (count : ℕ) → Metrics

-- A proposed change is always the review of the false positive rate, which is kept.
pub record LearningObservation : Type 0 where
  pub kind : ObservationKind
  pub original_run_id : String
  pub policy_version : ℕ
  pub sample_size : ℕ
  pub evidence_ids : List String
  pub limitations : List String
  pub proposed_change : Option ℕ
  pub status : ObservationStatus
  pub horizon_days : ℕ
  pub benchmark : Option String
  pub metrics : Metrics

abbrev pub minimum_proposal_sample : ℕ
minimum_proposal_sample = 5

-- `_rate`, in ten-thousandths, a half rounded up. (The 28 digits of the quotient round as the quotient
-- does, for any number of outcomes below 10^23.)
unfoldable pub rate : (count total : ℕ) → ℕ
rate count total = (2 * (10000 * count) + total) / (2 * total)

-- `isinstance(value, int) and not isinstance(value, bool) and value > 0`, of an int or another value.
abbrev pub positive_version : LearningError → Option ℕ → Result LearningError ℕ
positive_version exception (some (suc n)) = ok (suc n)
positive_version exception (some zero) = raise exception
positive_version exception none = raise exception

-- `len(set(values)) == 1`, and the one value.
unfoldable pub the_one {ℓ} :
    {A : Type ℓ} → (A → A → Bool) → LearningError → List A → Result LearningError A
the_one same exception [] = raise exception
the_one same exception (x ∷ xs) = do guard (all (same x) xs) exception; ok x

module _ (uuid : String → Option String) where
  abbrev pub uuid_of : LearningError → String → Result LearningError String
  uuid_of exception value = elim (uuid value) [ none ↦ raise exception | some id ↦ ok id ]

  unfoldable pub uuids : LearningError → List String → Result LearningError (List String)
  uuids exception [] = ok []
  uuids exception (value ∷ values) = do
    id ← uuid_of exception value
    rest ← uuids exception values
    ok (id ∷ rest)
