-- ===== src/Learning/Missed.antt =====
-- `evaluate_missed_event` of lib/intelligence/learning.py. A datetime is a number, as in Cursor.
use Prim.Native.Nat.{Ordering}
use Prim.Native.String.{compare as compare_texts}
use stocks_agent.Common.{
  ℕ, Bool, true, false, not, ◌&&◌, Option, none, some, List, [], ◌∷◌, map, String, length, leb, ltb,
  contains, or_then, sorted, Result, ok, ◌>>=◌,
}
use stocks_agent.Learning.Observation.{
  LearningError, invalid_run_id, invalid_evidence_id, invalid_policy_version, LearningObservation,
  missed_event, observation, missed_candidate_keys, positive_version, uuid_of,
}

pub record OriginalRun : Type 0 where
  pub id : String
  pub policy_version : Option ℕ
  pub coverage_start : Option ℕ
  pub coverage_end : Option ℕ
  pub completed_at : Option ℕ
  pub covered_sources : List String
  pub ranked_candidate_keys : List String

pub record LaterItem : Type 0 where
  pub id : String
  pub occurred_at : Option ℕ
  pub discovered_at : Option ℕ
  pub source : Option String
  pub candidate_key : Option String
  pub authoritative : Bool

-- The time window that a run declares.
pub record Coverage : Type 0 where
  pub first : ℕ
  pub last : ℕ
  pub completed : ℕ

unfoldable pub coverage_of : OriginalRun → Option Coverage
coverage_of run = elim run.coverage_start [
  | none ↦ none
  | some first ↦ elim run.coverage_end [
    | none ↦ none
    | some last ↦ elim run.completed_at [
      | none ↦ none
      | some completed ↦ some (record { first = first; last = last; completed = completed })
    ]
  ]
]

abbrev pub is_among : Option String → List String → Bool
is_among none texts = false
is_among (some text) texts = contains text texts

abbrev pub is_inside : Coverage → Option ℕ → Bool
is_inside window none = false
is_inside window (some time) = leb window.first time && leb time window.last

abbrev pub is_later : Coverage → Option ℕ → Bool
is_later window none = false
is_later window (some time) = ltb window.completed time

unfoldable pub is_missed : OriginalRun → Coverage → LaterItem → Bool
is_missed run window item =
    item.authoritative
    && is_among item.source run.covered_sources
    && not (is_among item.candidate_key run.ranked_candidate_keys)
    && is_inside window item.occurred_at
    && is_later window item.discovered_at

-- `str(candidate_key)`
abbrev pub key_text : Option String → String
key_text none = "None"
key_text (some key) = key

abbrev pub compare_missed : String × String → String × String → Ordering
compare_missed a b = or_then (compare_texts a.0 b.0) (compare_texts a.1 b.1)

abbrev pub missed_observation :
    (run_id : String) → (policy_version : ℕ) → List (String × String) → LearningObservation
missed_observation run_id policy_version missed = record {
  kind = missed_event;
  original_run_id = run_id;
  policy_version = policy_version;
  sample_size = length missed;
  evidence_ids = map (λ (entry : String × String). entry.0) missed;
  limitations =
      "later evidence does not prove contemporaneous discoverability"
      ∷ "miss attribution is limited to the original declared source and time window" ∷ [];
  proposed_change = none;
  status = observation;
  horizon_days = 0;
  benchmark = none;
  metrics = missed_candidate_keys (map (λ (entry : String × String). entry.1) missed);
}

-- `None` where nothing was missed.
abbrev pub observed_misses :
    (run_id : String) → (policy_version : ℕ) → List (String × String) → Option LearningObservation
observed_misses run_id policy_version [] = none
observed_misses run_id policy_version (entry ∷ missed) =
    some (missed_observation run_id policy_version (sorted compare_missed (entry ∷ missed)))

module _ (uuid : String → Option String) where
  -- The loop over the later items, from what it has found.
  unfoldable pub missed_items :
      OriginalRun → Coverage → List LaterItem → Result LearningError (List (String × String))
  missed_items run window [] = ok []
  missed_items run window (item ∷ items) = elim (is_missed run window item) [
    | false ↦ missed_items run window items
    | true ↦ (do
      id ← uuid_of uuid invalid_evidence_id item.id
      rest ← missed_items run window items
      ok ((id, key_text item.candidate_key) ∷ rest))
  ]

  unfoldable pub evaluate_missed_event :
      OriginalRun → List LaterItem → Result LearningError (Option LearningObservation)
  evaluate_missed_event run later_items = do
    run_id ← uuid_of uuid invalid_run_id run.id
    policy_version ← positive_version invalid_policy_version run.policy_version
    elim (coverage_of run) [
      | none ↦ ok none
      | some window ↦ (do
        missed ← missed_items run window later_items
        ok (observed_misses run_id policy_version missed))
    ]
