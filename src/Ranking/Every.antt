-- ===== src/Ranking/Every.antt =====
-- What holds of every candidate that `rank_candidates` returns.
use stocks_agent.Common.{
  ℕ, suc, ◌≡◌, refl, inl, inr, Bool, ◌||◌, ◌&&◌, not, ◌++◌, Option, List, [], ◌∷◌, String, ◌==◌,
  is_some, subst, ok, ok_injective, after_call, after_test, All, All-imp, All-sorted, IsIn, sorted,
}
use stocks_agent.Ranking.Decimal.{
  Given, version_unsupported, version_mismatch, relationship_required, ticker_mismatch,
}
use stocks_agent.Ranking.Candidate.{CandidateInput, Components, RankedCandidate}
use stocks_agent.Ranking.Positions.{Positions, Plans, holding_positions, plan_positions}
use stocks_agent.Ranking.Score.{Reason, score_candidate}
use stocks_agent.Ranking.Rank.{
  canonical_ticker, has_consistent_event, has_consistent_evidence, reasons_of_evidence,
  is_ticker_of, ranked_base, rank_by, rank_candidate, rank_all, compare_ranked, numbered,
  rank_candidates,
}

module _ (P : RankedCandidate → Type 0)
    (any_rank : (r : RankedCandidate) (n : ℕ) → P r → P (record r { rank = n })) where
  All-numbered :
      (first : ℕ) (ranked : List RankedCandidate) → All P ranked → All P (numbered first ranked)
  unfolding numbered
  All-numbered first [] h = tt
  All-numbered first (r ∷ ranked) h = (any_rank r first h.0, All-numbered (suc first) ranked h.1)

module _ (upper name_hash : String → String) (contract_version : ℕ) where
  -- The candidate `r` is the outcome of one of the candidates.
  pub IsOutcome : List CandidateInput → Bool → Positions → Positions → RankedCandidate → Type 0
  IsOutcome candidates has_holdings held planned r =
      (c : CandidateInput) × IsIn c candidates
      × (rank_candidate upper name_hash contract_version has_holdings held planned c ≡ ok r)

  IsOutcome-later :
      (first : CandidateInput) (candidates : List CandidateInput) (has_holdings : Bool)
      (held planned : Positions) (ranked : List RankedCandidate)
      → All (IsOutcome candidates has_holdings held planned) ranked
      → All (IsOutcome (first ∷ candidates) has_holdings held planned) ranked
  unfolding IsOutcome
  IsOutcome-later first candidates has_holdings held planned [] h = tt
  IsOutcome-later first candidates has_holdings held planned (r ∷ ranked) h =
      let (c, here, done) = h.0 in
      ((c, inr here, done), IsOutcome-later first candidates has_holdings held planned ranked h.1)

  rank_all-IsOutcome :
      (has_holdings : Bool) (held planned : Positions) (candidates : List CandidateInput)
      (ranked : List RankedCandidate)
      → rank_all upper name_hash contract_version has_holdings held planned candidates ≡ ok ranked
      → All (IsOutcome candidates has_holdings held planned) ranked
  unfolding rank_all IsOutcome
  rank_all-IsOutcome has_holdings held planned [] ranked e =
      subst (All (IsOutcome [] has_holdings held planned)) (ok_injective e) tt
  rank_all-IsOutcome has_holdings held planned (c ∷ candidates) ranked e =
      after_call (rank_candidate upper name_hash contract_version has_holdings held planned c) _ e
        (λ r done e1.
          after_call
            (rank_all upper name_hash contract_version has_holdings held planned candidates) _ e1
            (λ rest others e2.
              subst (All (IsOutcome (c ∷ candidates) has_holdings held planned)) (ok_injective e2) (
                (c, inl refl, done),
                IsOutcome-later c candidates has_holdings held planned rest
                    (rank_all-IsOutcome has_holdings held planned candidates rest others),
              )))

-- A predicate that the rank does not change and that every outcome of a candidate has, every ranked
-- candidate has.
pub rank_candidates-All :
    (P : RankedCandidate → Type 0) (upper name_hash : String → String)
    (candidates : List CandidateInput) (holdings : Option (List (String × Given))) (plans : Plans)
    (contract_version : ℕ) (out : List RankedCandidate)
    → ((r : RankedCandidate) (n : ℕ) → P r → P (record r { rank = n }))
    → ((held planned : Positions) (c : CandidateInput) (r : RankedCandidate)
        → holding_positions upper holdings ≡ ok held
        → IsIn c candidates
        → rank_candidate upper name_hash contract_version (is_some holdings) held planned c ≡ ok r
        → P r)
    → rank_candidates upper name_hash candidates holdings plans contract_version ≡ ok out
    → All P out
unfolding rank_candidates IsOutcome
rank_candidates-All P upper name_hash candidates holdings plans contract_version out any_rank every
      e =
    after_test (contract_version == 1 || contract_version == 2) version_unsupported _ e (λ known e1.
      after_call (holding_positions upper holdings) _ e1 (λ held f1 e2.
        after_call (plan_positions upper plans) _ e2 (λ planned f2 e3.
          after_call
            (rank_all upper name_hash contract_version (is_some holdings) held planned candidates) _
            e3
            (λ ranked f3 e4. subst (All P) (ok_injective e4) (
              All-numbered P any_rank 1 (sorted compare_ranked ranked) (
                All-sorted P compare_ranked ranked (
                  All-imp
                    (IsOutcome upper name_hash contract_version candidates (is_some holdings) held
                      planned)
                    P ranked (λ r outcome. every held planned outcome.0 r f1 outcome.1 outcome.2)
                    (rank_all-IsOutcome upper name_hash contract_version (is_some holdings) held
                      planned candidates ranked f3))))))))

-- Where a candidate is ranked, it is of the contract, has what the first contract asks for and its
-- relation's ticker, is scored, and the rest is `rank_by`.
pub rank_candidate-steps {ℓ} :
    {C : Type ℓ} (upper name_hash : String → String) (version : ℕ) (has_holdings : Bool)
    (held planned : Positions) (c : CandidateInput) (r : RankedCandidate)
    → rank_candidate upper name_hash version has_holdings held planned c ≡ ok r
    → ((components : Components) (missing : List Reason)
        → score_candidate c
            (canonical_ticker upper name_hash c)
            (has_consistent_event upper name_hash c
              && has_consistent_evidence upper name_hash (version == 1) c)
            has_holdings
            held
            planned
          ≡ ok (components, missing)
        → rank_by upper name_hash
            (version == 1)
            c
            (canonical_ticker upper name_hash c)
            (reasons_of_evidence upper name_hash (version == 1) c ++ missing)
            (has_consistent_evidence upper name_hash (version == 1) c
              && has_consistent_event upper name_hash c)
            (ranked_base upper name_hash c
              (canonical_ticker upper name_hash c)
              (has_consistent_event upper name_hash c
                && has_consistent_evidence upper name_hash (version == 1) c)
              components)
          ≡ ok r
        → C)
    → C
unfolding rank_candidate
rank_candidate-steps upper name_hash version has_holdings held planned c r e proof =
    after_test (c.contract_version == version) version_mismatch _ e (λ same e1.
      after_test
        (not (version == 1) || is_some (canonical_ticker upper name_hash c) && is_some c.relation)
        relationship_required _ e1
        (λ related e2.
          after_test (is_ticker_of (canonical_ticker upper name_hash c) c.relation) ticker_mismatch
            _ e2
            (λ matched e3.
              after_call
                (score_candidate c (canonical_ticker upper name_hash c)
                  (has_consistent_event upper name_hash c
                    && has_consistent_evidence upper name_hash (version == 1) c)
                  has_holdings held planned)
                _ e3 (λ scored f e4. proof scored.0 scored.1 f e4))))
