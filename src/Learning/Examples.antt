-- ===== src/Learning/Examples.antt =====
-- Five outcomes and one miss observed by lib/intelligence/learning.py, and the theorems at them.
use stocks_agent.Common.{
  ℕ, ◌≡◌, refl, Bool, true, false, Option, none, some, List, [], ◌∷◌, String, length, filter,
  str_eq, ok, raise, insert_sorted, sorted, All,
}
use stocks_agent.Cursor.Update.{first_occurrences}
use stocks_agent.Queue.Request.{sorted_set}
use stocks_agent.Learning.Observation.{
  horizons_differ, LearningObservation, outcome, noise, observation, owner_review, false_positives,
  failures, source_failure, rate, the_one, uuids,
}
use stocks_agent.Learning.Outcome.{
  Outcome, is_eligible_outcome, eligible_outcomes, is_false_positive, false_positive_metrics,
  evidence_of, build_learning_proposal, check_runs, check_versions, build_noise_observation,
  build_source_failure_observation,
}
use stocks_agent.Learning.Missed.{
  OriginalRun, LaterItem, coverage_of, is_missed, missed_items, missed_observation,
  evaluate_missed_event,
}
use stocks_agent.Learning.Homogeneous.{
  IsOf, IsMeasured, IsProposedBySize, build_learning_proposal-IsOf,
}
use stocks_agent.Learning.Misses.{IsAnswer, evaluate_missed_event-IsAnswer}

-- Of the texts, those that are not empty stand for UUIDs.
abbrev uuid : String → Option String
uuid text = elim (str_eq text "") [ true ↦ none | false ↦ some text ]

abbrev row : (evidence_id : String) → (horizon : ℕ) → (success : Bool) → Outcome
row evidence_id horizon success = record {
  original_run_id = "r";
  evidence_id = evidence_id;
  policy_version = some 3;
  horizon_days = some horizon;
  horizon_sessions = some horizon;
  coverage_status = "complete";
  benchmark = some "SPY";
  excess_return = true;
  direction_success = some success;
}

-- Six eligible rows of 21 days, and one of no eligible horizon.
abbrev rows : List Outcome
rows =
    row "b" 21 true
    ∷ row "a" 21 false
    ∷ row "c" 21 false
    ∷ row "x" 20 false
    ∷ row "d" 21 true
    ∷ row "e" 21 true
    ∷ row "a" 21 true
    ∷ []

abbrev proposal : LearningObservation
proposal = record {
  kind = outcome;
  original_run_id = "r";
  policy_version = 3;
  sample_size = 6;
  evidence_ids = "a" ∷ "b" ∷ "c" ∷ "d" ∷ "e" ∷ [];
  limitations = "historical outcomes do not prove future performance" ∷ [];
  proposed_change = some 3333;
  status = owner_review;
  horizon_days = 21;
  benchmark = some "SPY";
  metrics = false_positives 2 3333;
}

program : Unit {0}
unfolding insert_sorted sorted first_occurrences sorted_set rate the_one uuids is_eligible_outcome
    eligible_outcomes false_positive_metrics evidence_of build_learning_proposal check_runs
    check_versions build_noise_observation build_source_failure_observation coverage_of is_missed
    missed_items evaluate_missed_event
program = tt

proposed_to_owner : build_learning_proposal uuid rows ≡ ok proposal
unfolding program
proposed_to_owner = refl

mixed_horizons : build_learning_proposal uuid (row "f" 63 true ∷ rows) ≡ raise horizons_differ
unfolding program
mixed_horizons = refl

abbrev noted : LearningObservation
noted = record proposal { kind = noise; proposed_change = none; status = observation }

noise_noted : build_noise_observation uuid "r" (some 3) rows ≡ ok noted
unfolding program
noise_noted = refl

abbrev failed : LearningObservation
failed = record {
  kind = source_failure;
  original_run_id = "r";
  policy_version = 3;
  sample_size = 1;
  evidence_ids = [];
  limitations = "timeout" ∷ [];
  proposed_change = none;
  status = observation;
  horizon_days = 0;
  benchmark = none;
  metrics = failures "gdelt" 1;
}

failure_noted : build_source_failure_observation uuid "r" 3 [] "gdelt" "timeout" ≡ ok failed
unfolding program
failure_noted = refl

abbrev run : OriginalRun
run = record {
  id = "r";
  policy_version = some 3;
  coverage_start = some 100;
  coverage_end = some 200;
  completed_at = some 250;
  covered_sources = "sec_edgar" ∷ [];
  ranked_candidate_keys = "ABC" ∷ [];
}

abbrev item : (id : String) → (occurred : ℕ) → (key : String) → LaterItem
item id occurred key = record {
  id = id;
  occurred_at = some occurred;
  discovered_at = some 300;
  source = some "sec_edgar";
  candidate_key = some key;
  authoritative = true;
}

abbrev items : List LaterItem
items = item "2" 200 "XYZ" ∷ item "3" 201 "XYZ" ∷ item "4" 150 "ABC" ∷ item "1" 100 "DEF" ∷ []

abbrev misses : Option LearningObservation
misses = some (missed_observation "r" 3 (("1", "DEF") ∷ ("2", "XYZ") ∷ []))

missed_noted : evaluate_missed_event uuid run items ≡ ok misses
unfolding program
missed_noted = refl

build_learning_proposal-IsOf_example :
    All (IsOf uuid proposal) (eligible_outcomes rows)
    × IsMeasured (eligible_outcomes rows) proposal
    × IsProposedBySize proposal (
        rate
          (length (filter is_false_positive (eligible_outcomes rows)))
          (length (eligible_outcomes rows)))
build_learning_proposal-IsOf_example =
    build_learning_proposal-IsOf uuid rows proposal proposed_to_owner

evaluate_missed_event-IsAnswer_example : IsAnswer uuid run items misses
evaluate_missed_event-IsAnswer_example =
    evaluate_missed_event-IsAnswer uuid run items misses missed_noted
