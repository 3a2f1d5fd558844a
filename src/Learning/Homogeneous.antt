-- ===== src/Learning/Homogeneous.antt =====
-- What the observations of outcomes in lib/intelligence/learning.py rest on.
use stocks_agent.Common.{
  ℕ, ◌≤◌, ◌<◌, ◌≡◌, refl, subst, Option, none, some, List, map, String, length, filter, arith, leb,
  if◌then◌else◌, str_eq, str_eq→eq, ok, ok_injective, after_call, after_test, All,
}
use stocks_agent.Learning.Observation.{
  invalid_run_id, no_eligible_outcomes, policy_versions_differ, benchmarks_differ, horizons_differ,
  runs_differ, LearningObservation, observation, owner_review, false_positives,
  minimum_proposal_sample, rate, positive_version, the_one, uuids,
}
use stocks_agent.Learning.Outcome.{
  Outcome, is_same_number, eligible_outcomes, is_same_text, has_rows, is_false_positive, days_of,
  false_positive_metrics, proposed, evidence_of, build_learning_proposal,
}
use stocks_agent.Learning.Rows.{
  has_rows-length, positive_version-some, uuids-All, All-both, horizon_known, eligible_horizons,
  is_same_number-path, is_same_text-path, the_one-All, All-map,
}

-- The rows share what an observation says of them.
abbrev pub IsOf : (uuid : String → Option String) → LearningObservation → Outcome → Type 0
IsOf uuid o row =
    (row.policy_version ≡ some o.policy_version)
    × (row.benchmark ≡ o.benchmark)
    × (row.horizon_days ≡ some o.horizon_days)
    × (uuid row.original_run_id ≡ some o.original_run_id)

-- Only a sample of five or more is given to the owner to review, with its rate as the proposed change.
abbrev pub IsProposedBySize : LearningObservation → (false_positive_rate : ℕ) → Type 0
IsProposedBySize o false_positive_rate =
    (5 ≤ o.sample_size → (o.status ≡ owner_review) × (o.proposed_change ≡ some false_positive_rate))
    × (o.sample_size < 5 → (o.status ≡ observation) × (o.proposed_change ≡ none))

-- The sample is that of the eligible rows, and the metrics are their false positives.
abbrev pub IsMeasured : List Outcome → LearningObservation → Type 0
IsMeasured rows o =
    (0 < o.sample_size)
    × (o.sample_size ≡ length rows)
    × (o.metrics
        ≡ false_positives (length (filter is_false_positive rows))
            (rate (length (filter is_false_positive rows)) (length rows)))

by_size :
    (n false_positive_rate : ℕ)
    → (5 ≤ n
        → ((if leb minimum_proposal_sample n then owner_review else observation) ≡ owner_review)
          × (proposed n false_positive_rate ≡ some false_positive_rate))
      × (n < 5
          → ((if leb minimum_proposal_sample n then owner_review else observation) ≡ observation)
            × (proposed n false_positive_rate ≡ none))
by_size n false_positive_rate = (λ h. ground arith, λ h. ground arith)

module _ (uuid : String → Option String) where
  shared :
      (outcomes : List Outcome) (version : Option ℕ) (policy : ℕ) (benchmark : Option String)
      (horizon : Option ℕ) (ids : List String) (run_id : String)
      → the_one is_same_number policy_versions_differ
          (map (λ (row : Outcome). row.policy_version) (eligible_outcomes outcomes))
        ≡ ok version
      → positive_version policy_versions_differ version ≡ ok policy
      → the_one is_same_text benchmarks_differ
          (map (λ (row : Outcome). row.benchmark) (eligible_outcomes outcomes))
        ≡ ok benchmark
      → the_one is_same_number horizons_differ
          (map (λ (row : Outcome). row.horizon_days) (eligible_outcomes outcomes))
        ≡ ok horizon
      → uuids uuid invalid_run_id
          (map (λ (row : Outcome). row.original_run_id) (eligible_outcomes outcomes))
        ≡ ok ids
      → the_one str_eq runs_differ ids ≡ ok run_id
      → All
          (λ row.
            (row.policy_version ≡ some policy)
            × (row.benchmark ≡ benchmark)
            × (row.horizon_days ≡ some (days_of horizon))
            × (uuid row.original_run_id ≡ some run_id))
          (eligible_outcomes outcomes)
  shared outcomes version policy benchmark horizon ids run_id f1 f2 f3 f4 f5 f6 =
      let rows = eligible_outcomes outcomes in
      All-both (λ row. row.policy_version ≡ some policy) (λ row. row.benchmark ≡ benchmark)
        (λ row. row.horizon_days ≡ some (days_of horizon))
        (λ row. uuid row.original_run_id ≡ some run_id) rows
        (All-map (λ (row : Outcome). row.policy_version) (λ v. v ≡ some policy) rows
          (subst (λ v. All (λ w. w ≡ v) (map (λ (row : Outcome). row.policy_version) rows))
            (positive_version-some policy_versions_differ version policy f2)
            (the_one-All is_same_number policy_versions_differ _ version is_same_number-path f1)))
        (All-map (λ (row : Outcome). row.benchmark) (λ b. b ≡ benchmark) rows
          (the_one-All is_same_text benchmarks_differ _ benchmark is_same_text-path f3))
        (horizon_known rows horizon (eligible_horizons outcomes) (
          All-map (λ (row : Outcome). row.horizon_days) (λ h. h ≡ horizon) rows
            (the_one-All is_same_number horizons_differ _ horizon is_same_number-path f4)))
        (All-map (λ (row : Outcome). row.original_run_id) (λ v. uuid v ≡ some run_id) rows
          (uuids-All uuid invalid_run_id _ ids run_id f5
            (the_one-All str_eq runs_differ ids run_id str_eq→eq f6)))

  -- If outcomes give an observation, it is of every eligible one of them: of its policy version, benchmark,
  -- horizon and run; there is one at least, and the observation has their number, and how many of them are
  -- false positives. It proposes a change to the owner where there are five of them or more, and
  -- proposes none where there are fewer.
  pub build_learning_proposal-IsOf :
      (outcomes : List Outcome) (o : LearningObservation)
      → build_learning_proposal uuid outcomes ≡ ok o
      → All (IsOf uuid o) (eligible_outcomes outcomes)
        × IsMeasured (eligible_outcomes outcomes) o
        × IsProposedBySize o (
            rate
              (length (filter is_false_positive (eligible_outcomes outcomes)))
              (length (eligible_outcomes outcomes)))
  unfolding build_learning_proposal false_positive_metrics
  build_learning_proposal-IsOf outcomes o e =
      let rows = eligible_outcomes outcomes in
      after_test (has_rows rows) no_eligible_outcomes _ e (λ some_rows e0.
        after_call
          (the_one is_same_number policy_versions_differ
            (map (λ (row : Outcome). row.policy_version) rows))
          _ e0
          (λ version f1 e1.
            after_call (positive_version policy_versions_differ version) _ e1 (λ policy f2 e2.
              after_call
                (the_one is_same_text benchmarks_differ
                  (map (λ (row : Outcome). row.benchmark) rows))
                _ e2
                (λ benchmark f3 e3.
                  after_call
                    (the_one is_same_number horizons_differ
                      (map (λ (row : Outcome). row.horizon_days) rows))
                    _ e3
                    (λ horizon f4 e4.
                      after_call
                        (uuids uuid invalid_run_id
                          (map (λ (row : Outcome). row.original_run_id) rows))
                        _ e4
                        (λ ids f5 e5.
                          after_call (the_one str_eq runs_differ ids) _ e5 (λ run_id f6 e6.
                            after_call (evidence_of uuid rows) _ e6 (λ evidence f7 e7.
                              subst
                                (λ obs.
                                  All (IsOf uuid obs) rows
                                  × IsMeasured rows obs
                                  × IsProposedBySize obs
                                      (rate (length (filter is_false_positive rows)) (length rows)))
                                (ok_injective e7)
                                (
                                  shared outcomes version policy benchmark horizon ids run_id f1 f2
                                      f3 f4 f5 f6,
                                  (has_rows-length rows some_rows, refl, refl),
                                  by_size (length rows) _,
                                )))))))))
