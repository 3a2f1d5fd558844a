-- ===== src/Learning/Noise.antt =====
-- What `build_noise_observation` of lib/intelligence/learning.py gives.
use stocks_agent.Common.{
  ℕ, ◌≡◌, refl, ap, subst, ◌∙◌, Option, none, some, List, [], ◌∷◌, map, String, str_eq, str_eq→eq,
  ok, ok_injective, after_call, after_test, All,
}
use stocks_agent.Learning.Observation.{
  invalid_run_id, invalid_policy_version, no_eligible_outcomes, benchmarks_differ, horizons_differ,
  other_run, other_policy_version, LearningObservation, observation, positive_version, the_one,
  uuid_of,
}
use stocks_agent.Learning.Outcome.{
  Outcome, is_same_number, is_same_text, eligible_outcomes, has_rows, days_of,
  false_positive_metrics, evidence_of, check_runs, check_versions, build_noise_observation,
}
use stocks_agent.Learning.Rows.{
  has_rows-length, uuid_of-some, All-both, horizon_known, eligible_horizons, is_same_number-path,
  is_same_text-path, the_one-All, All-map,
}
use stocks_agent.Learning.Homogeneous.{IsOf, IsMeasured}

module _ (uuid : String → Option String) where
  check_runs-All :
      (expected : String) (rows : List Outcome) (done : Unit {0})
      → check_runs uuid expected rows ≡ ok done
      → All (λ (row : Outcome). uuid row.original_run_id ≡ some expected) rows
  unfolding check_runs
  check_runs-All expected [] done e = tt
  check_runs-All expected (row ∷ rows) done e =
      after_call (uuid_of uuid invalid_run_id row.original_run_id) _ e (λ id f1 e1.
        after_test (str_eq id expected) other_run _ e1 (λ same e2. (
          uuid_of-some uuid invalid_run_id row.original_run_id id f1
              ∙ ap some (str_eq→eq id expected same),
          check_runs-All expected rows done e2,
        )))

  check_versions-All :
      (expected : ℕ) (rows : List Outcome) (done : Unit {0})
      → check_versions uuid expected rows ≡ ok done
      → All (λ (row : Outcome). row.policy_version ≡ some expected) rows
  unfolding check_versions
  check_versions-All expected [] done e = tt
  check_versions-All expected (row ∷ rows) done e =
      after_test (is_same_number row.policy_version (some expected)) other_policy_version _ e
        (λ same e1. (
          is_same_number-path row.policy_version (some expected) same,
          check_versions-All expected rows done e1,
        ))

  -- If outcomes are observed as noise of a run, the observation is of that run, and every eligible outcome
  -- is of its policy version, benchmark, horizon and run. It has their number, which is above zero, and how
  -- many of them are false positives, and it proposes no change, however many there are.
  pub build_noise_observation-IsOf :
      (original_run_id : String) (policy_version : Option ℕ) (outcomes : List Outcome)
      (o : LearningObservation)
      → build_noise_observation uuid original_run_id policy_version outcomes ≡ ok o
      → (uuid original_run_id ≡ some o.original_run_id)
        × All (IsOf uuid o) (eligible_outcomes outcomes)
        × IsMeasured (eligible_outcomes outcomes) o
        × (o.status ≡ observation)
        × (o.proposed_change ≡ none)
  unfolding build_noise_observation false_positive_metrics
  build_noise_observation-IsOf original_run_id policy_version outcomes o e =
      let rows = eligible_outcomes outcomes in
      after_test (has_rows rows) no_eligible_outcomes _ e (λ some_rows e0.
        after_call (uuid_of uuid invalid_run_id original_run_id) _ e0 (λ expected f1 e1.
          after_call (positive_version invalid_policy_version policy_version) _ e1 (λ version f2 e2.
            after_call (check_runs uuid expected rows) _ e2 (λ done f3 e3.
              after_call (check_versions uuid version rows) _ e3 (λ done2 f4 e4.
                after_call
                  (the_one is_same_number horizons_differ
                    (map (λ (row : Outcome). row.horizon_days) rows))
                  _ e4
                  (λ horizon f5 e5.
                    after_call
                      (the_one is_same_text benchmarks_differ
                        (map (λ (row : Outcome). row.benchmark) rows))
                      _ e5
                      (λ benchmark f6 e6. after_call (evidence_of uuid rows) _ e6 (λ evidence f7 e7.
                        subst
                          (λ (obs : LearningObservation).
                            (uuid original_run_id ≡ some obs.original_run_id)
                            × All (IsOf uuid obs) rows
                            × IsMeasured rows obs
                            × (obs.status ≡ observation)
                            × (obs.proposed_change ≡ none))
                          (ok_injective e7)
                          (
                            uuid_of-some uuid invalid_run_id original_run_id expected f1,
                            All-both (λ row. row.policy_version ≡ some version)
                                (λ row. row.benchmark ≡ benchmark)
                                (λ row. row.horizon_days ≡ some (days_of horizon))
                                (λ row. uuid row.original_run_id ≡ some expected) rows
                                (check_versions-All version rows done2 f4)
                                (All-map (λ (row : Outcome). row.benchmark) (λ b. b ≡ benchmark)
                                  rows
                                  (the_one-All is_same_text benchmarks_differ _ benchmark
                                    is_same_text-path f6))
                                (horizon_known rows horizon (eligible_horizons outcomes) (
                                  All-map (λ (row : Outcome). row.horizon_days) (λ h. h ≡ horizon)
                                    rows
                                    (the_one-All is_same_number horizons_differ _ horizon
                                      is_same_number-path f5)))
                                (check_runs-All expected rows done f3),
                            (has_rows-length rows some_rows, refl, refl),
                            refl,
                            refl,
                          )))))))))
