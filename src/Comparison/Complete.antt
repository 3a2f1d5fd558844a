-- ===== src/Comparison/Complete.antt =====
-- When `compare_candidate` of lib/intelligence/comparison.py finds a candidate eligible.
use stocks_agent.Common.{
  ◌≡◌, refl, ap, subst, ◌∙◌, Bool, true, false, not, ◌&&◌, ◌||◌, List, [], ◌∷◌, String, ok,
  ok_injective, after_call,
}
use stocks_agent.Comparison.Candidate.{
  EvidenceStatus, supported, missing, conflicting, veto, ComparisonCandidate, has_ids,
}
use stocks_agent.Comparison.Compare.{
  ComparisonContext, ComparisonStatus, eligible, vetoed, insufficient, PersonalComparison,
  current_anchors, set_defaults, limitations_of_comparison, veto_of, veto_reasons_of, status_of,
  compare_candidate,
}
use stocks_agent.Comparison.Limits.{
  is_veto, is_complete, has_ids_append, limitations_of_comparison-is_complete,
}

abbrev pub is_status : ComparisonStatus → ComparisonStatus → Bool
is_status eligible eligible = true
is_status vetoed vetoed = true
is_status insufficient insufficient = true
is_status _ _ = false

-- An overlap or a concentration that is a veto.
abbrev pub is_vetoed : ComparisonCandidate → Bool
is_vetoed c = is_veto c.overlap.status || is_veto c.concentration.status

status_of-cases :
    (reasons limitations : List String)
    → (is_status vetoed (status_of reasons limitations) ≡ has_ids reasons)
      × (is_status eligible (status_of reasons limitations)
          ≡ (not (has_ids reasons) && not (has_ids limitations)))
status_of-cases [] [] = (refl, refl)
status_of-cases [] (limitation ∷ limitations) = (refl, refl)
status_of-cases (reason ∷ reasons) limitations = (refl, refl)

veto_reasons_of-is_vetoed : (c : ComparisonCandidate) → has_ids (veto_reasons_of c) ≡ is_vetoed c
veto_reasons_of-is_vetoed c =
    has_ids_append (veto_of "overlap" c.overlap.status)
      (veto_of "concentration" c.concentration.status)
    ∙ (λ i.
        veto_of-is_veto "overlap" c.overlap.status i
        || veto_of-is_veto "concentration" c.concentration.status i)
  where
    veto_of-is_veto :
        (name : String) (status : EvidenceStatus) → has_ids (veto_of name status) ≡ is_veto status
    veto_of-is_veto name supported = refl
    veto_of-is_veto name missing = refl
    veto_of-is_veto name conflicting = refl
    veto_of-is_veto name veto = refl

-- If a candidate is compared, its anchors are those of the context; the comparison is vetoed exactly where
-- the overlap or the concentration is a veto, and eligible exactly where neither is and the candidate is
-- complete: there is an anchor, no factor is missing or conflicting, the candidate and every anchor have a
-- drawdown, no drawdown is missing or conflicting, and each case has evidence.
pub compare_candidate-is_complete :
    (upper : String → String) (c : ComparisonCandidate) (context : ComparisonContext)
    (r : PersonalComparison)
    → compare_candidate upper c context ≡ ok r
    → (current_anchors upper context ≡ ok r.anchor_tickers)
      × (is_status vetoed r.status ≡ is_vetoed c)
      × (is_status eligible r.status ≡ (not (is_vetoed c) && is_complete r.anchor_tickers c))
unfolding compare_candidate
compare_candidate-is_complete upper c context r e =
    after_call (current_anchors upper context) _ e (λ anchors found e1.
      let limitations =
        limitations_of_comparison anchors c (set_defaults (c.ticker ∷ anchors) c.drawdowns) in
      let (vetoed_case, eligible_case) = status_of-cases (veto_reasons_of c) limitations in
      subst
        (λ (out : PersonalComparison).
          (current_anchors upper context ≡ ok out.anchor_tickers)
          × (is_status vetoed out.status ≡ is_vetoed c)
          × (is_status eligible out.status
              ≡ (not (is_vetoed c) && is_complete out.anchor_tickers c)))
        (ok_injective e1)
        (
          found,
          vetoed_case ∙ veto_reasons_of-is_vetoed c,
          eligible_case
              ∙ (λ i.
                  not (veto_reasons_of-is_vetoed c i)
                  && not (limitations_of_comparison-is_complete anchors c i))
              ∙ ap (λ b. not (is_vetoed c) && b) (not_not (is_complete anchors c)),
        ))
  where
    not_not : (b : Bool) → not (not b) ≡ b
    not_not true = refl
    not_not false = refl
