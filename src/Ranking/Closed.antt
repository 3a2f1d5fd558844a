-- ===== src/Ranking/Closed.antt =====
-- Under the second contract of lib/intelligence/ranking.py nothing is qualified: the gate of the valuation
-- is shut.
use stocks_agent.Common.{
  ◌≡◌, refl, subst, Bool, true, false, not, ◌||◌, Option, List, [], ◌∷◌, ◌++◌, String, arith,
  is_some, ok, ok_injective, after_call, All,
}
use stocks_agent.Ranking.Decimal.{Given}
use stocks_agent.Ranking.Candidate.{
  CandidateInput, RankedCandidate, ResearchCandidate, SuitabilityEvaluation,
}
use stocks_agent.Ranking.Positions.{Positions, Plans}
use stocks_agent.Ranking.Research.{
  has_texts, when, is_ready, is_heavy, state_missing, states_missing, state_inputs,
  suitability_state, assess_suitability, assess_research,
}
use stocks_agent.Ranking.Rank.{
  is_eligible, second_key, rank_second, rank_by, rank_candidate, rank_candidates,
}
use stocks_agent.Ranking.Every.{rank_candidates-All, rank_candidate-steps}

has_texts_append : (xs ys : List String) → has_texts (xs ++ ys) ≡ (has_texts xs || has_texts ys)
has_texts_append [] ys = refl
has_texts_append (x ∷ xs) ys = refl

suitability_state-shut :
    (veto missing : List String)
    → has_texts missing ≡ true
    → is_eligible (suitability_state veto missing) ≡ false
suitability_state-shut (r ∷ veto) missing h = refl
suitability_state-shut [] (r ∷ missing) h = refl
suitability_state-shut [] [] h = cc

-- Something is missing of every candidate: its valuation.
states_missing_some : (c : CandidateInput) → has_texts (states_missing (state_inputs c)) ≡ true
unfolding states_missing state_missing
states_missing_some c = ground (
  arith,
  has_texts_append (state_missing "reference" c.reference_state) (states_missing (state_inputs c)),
)

assess_suitability-shut :
    (c : CandidateInput) (research : ResearchCandidate) (s : SuitabilityEvaluation)
    → assess_suitability c research ≡ ok s
    → is_eligible s.state ≡ false
unfolding assess_suitability
assess_suitability-shut c research s e = after_call (is_heavy c.holding_weight) _ e (λ heavy f1 e1.
    after_call (is_heavy c.concentration) _ e1 (λ heavy2 f2 e2.
      subst (λ (t : SuitabilityEvaluation). is_eligible t.state ≡ false) (ok_injective e2)
        (suitability_state-shut _ _
          (missing_some (when (not (is_ready research.research_state)) "analysis_not_ready") _))))
  where
    missing_some :
        (first rest : List String)
        → has_texts (first ++ (states_missing (state_inputs c) ++ rest)) ≡ true
    missing_some first rest = ground (
      arith,
      has_texts_append first (states_missing (state_inputs c) ++ rest),
      has_texts_append (states_missing (state_inputs c)) rest,
      states_missing_some c,
    )

module _ (upper name_hash : String → String) where
  rank_second-shut :
      (c : CandidateInput) (ticker : Option String) (consistent : Bool) (base r : RankedCandidate)
      → rank_second upper name_hash c ticker consistent base ≡ ok r
      → r.qualified ≡ false
  unfolding rank_second
  rank_second-shut c ticker consistent base r e =
      after_call
        (assess_suitability c
          (assess_research name_hash c (second_key c ticker) ticker base.components consistent))
        _ e
        (λ s assessed e1.
          subst (λ (t : RankedCandidate). t.qualified ≡ false) (ok_injective e1)
            (ground (
              arith,
              assess_suitability-shut c
                  (assess_research name_hash c (second_key c ticker) ticker base.components
                    consistent)
                  s assessed,
            )))

  rank_candidate-shut :
      (has_holdings : Bool) (held planned : Positions) (c : CandidateInput) (r : RankedCandidate)
      → rank_candidate upper name_hash 2 has_holdings held planned c ≡ ok r
      → r.qualified ≡ false
  unfolding rank_by
  rank_candidate-shut has_holdings held planned c r e =
      rank_candidate-steps upper name_hash 2 has_holdings held planned c r e
        (λ components missing scored ranked. rank_second-shut c _ _ _ r ranked)

  -- If candidates are ranked under the second contract, none of them is qualified.
  pub rank_candidates-shut :
      (candidates : List CandidateInput) (holdings : Option (List (String × Given))) (plans : Plans)
      (out : List RankedCandidate)
      → rank_candidates upper name_hash candidates holdings plans 2 ≡ ok out
      → All (λ (r : RankedCandidate). r.qualified ≡ false) out
  rank_candidates-shut candidates holdings plans out e =
      rank_candidates-All (λ r. r.qualified ≡ false) upper name_hash candidates holdings plans 2 out
        (λ r n h. h)
        (λ held planned c r held_is here done.
          rank_candidate-shut (is_some holdings) held planned c r done)
        e
