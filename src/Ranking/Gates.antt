-- ===== src/Ranking/Gates.antt =====
-- The gates of the first contract of lib/intelligence/ranking.py: what holds of a qualified candidate.
use stocks_agent.Common.{
  both, ℕ, ◌<◌, ◌≡◌, refl, ap, sym, ◌∙◌, Bool, true, false, ◌&&◌, Option, none, some, List, [], ◌∷◌,
  ◌++◌, String, arith, leb, if◌then◌else◌, str_eq→eq, is_some, ok, ok_injective, after_call, All,
  IsIn,
}
use stocks_agent.Relation.Proposal.{EventRelationship}
use stocks_agent.Ranking.Decimal.{Given, unit_score}
use stocks_agent.Ranking.Candidate.{CandidateInput, Components, RankedCandidate}
use stocks_agent.Ranking.Positions.{Positions, Plans, holding_positions}
use stocks_agent.Ranking.Evidence.{exposure_items, is_event_consistent}
use stocks_agent.Ranking.Shown.{IsShownBy, is_evidence_consistent-IsShownBy}
use stocks_agent.Ranking.Score.{
  Reason, reason, supplied_score, concentrated, weight_reasons, held_weight, or_else_given,
  explicit_duplication, fixed_weight, score_candidate,
}
use stocks_agent.Ranking.Rank.{
  evidence_reasons, is_eligible_relation, no_reason, rank_first, rank_by, canonical_ticker,
  has_consistent_event, has_consistent_evidence, reasons_of_evidence, rank_candidate,
  rank_candidates,
}
use stocks_agent.Ranking.Every.{rank_candidates-All, rank_candidate-steps}

no_reason-append : (xs ys : List Reason) → no_reason (xs ++ ys) ≡ (no_reason xs && no_reason ys)
no_reason-append [] ys = refl
no_reason-append (x ∷ xs) ys = refl

-- No reason in the two, so none in either.
no_reasons :
    (xs ys : List Reason)
    → no_reason (xs ++ ys) ≡ true
    → (no_reason xs ≡ true) × (no_reason ys ≡ true)
no_reasons xs ys h = both (sym (no_reason-append xs ys) ∙ h)

evidence_reasons_none :
    (event has consistent : Bool)
    → no_reason (evidence_reasons event has consistent) ≡ true
    → (event ≡ true) × (consistent ≡ true)
unfolding evidence_reasons
evidence_reasons_none event has consistent h = ground arith

-- A weight is given, is a score, and is below forty percent.
abbrev pub IsLight : Option Given → Type 0
IsLight none = ⊥
IsLight (some value) = (n : ℕ) × (unit_score value ≡ ok n) × (n < concentrated)

supplied_score-is_some :
    (name : String) (value : Option Given) (scored : ℕ × List Reason)
    → supplied_score name value ≡ ok scored
    → no_reason scored.1 ≡ true
    → is_some value ≡ true
unfolding supplied_score
supplied_score-is_some name none scored e h =
    ap (λ (s : ℕ × List Reason). no_reason s.1) (ok_injective e) ∙ h
supplied_score-is_some name (some value) scored e h = refl

weight_reasons-is_some :
    (name : String) (value : Option Given) (missing : List Reason)
    → weight_reasons name none value ≡ ok missing
    → no_reason missing ≡ true
    → is_some value ≡ true
unfolding weight_reasons
weight_reasons-is_some name none missing e h = ap no_reason (ok_injective e) ∙ h
weight_reasons-is_some name (some value) missing e h = refl

weight_reasons-IsLight :
    (name problem : String) (value : Option Given) (missing : List Reason)
    → weight_reasons name (some problem) value ≡ ok missing
    → no_reason missing ≡ true
    → IsLight value
unfolding weight_reasons
weight_reasons-IsLight name problem none missing e h =
    ground (arith, ap no_reason (ok_injective e) ∙ h)
weight_reasons-IsLight name problem (some value) missing e h =
    after_call (unit_score value) _ e
      (λ n scored e1. (n, scored, light n (ap no_reason (ok_injective e1) ∙ h)))
  where
    light :
        (n : ℕ)
        → no_reason (if leb concentrated n then reason name problem ∷ [] else []) ≡ true
        → n < concentrated
    light n h1 = ground arith

-- Every score is given, and the weights are light.
abbrev pub IsScored : CandidateInput → (weight : Option Given) → Type 0
IsScored c weight =
    (is_some c.authority_corroboration ≡ true)
    × (is_some c.exposure_strength ≡ true)
    × (is_some c.recency ≡ true)
    × (is_some c.portfolio_relevance ≡ true)
    × (is_some c.liquidity ≡ true)
    × (is_some c.overlap ≡ true)
    × IsLight weight
    × IsLight (or_else_given c.concentration weight)

score_candidate-IsScored :
    (c : CandidateInput) (ticker : Option String) (consistent has_holdings : Bool)
    (held planned : Positions) (scored : Components × List Reason)
    → score_candidate c ticker consistent has_holdings held planned ≡ ok scored
    → no_reason scored.1 ≡ true
    → IsScored c (or_else_given c.holding_weight (held_weight has_holdings held ticker))
unfolding score_candidate
score_candidate-IsScored c ticker consistent has_holdings held planned scored e h =
    let weight = or_else_given c.holding_weight (held_weight has_holdings held ticker) in
    after_call (supplied_score "authority_corroboration" c.authority_corroboration) _ e (λ s1 f1 e1.
      after_call (supplied_score "exposure" c.exposure_strength) _ e1 (λ s2 f2 e2.
        after_call (supplied_score "recency" c.recency) _ e2 (λ s3 f3 e3.
          after_call (supplied_score "portfolio_relevance" c.portfolio_relevance) _ e3 (λ s4 f4 e4.
            after_call (supplied_score "liquidity" c.liquidity) _ e4 (λ s5 f5 e5.
              after_call (weight_reasons "holding_weight" (some "concentrated") weight) _ e5
                (λ m6 f6 e6. after_call (weight_reasons "overlap" none c.overlap) _ e6 (λ m7 f7 e7.
                  after_call
                    (weight_reasons "concentration" (some "high")
                      (or_else_given c.concentration weight))
                    _ e7
                    (λ m8 f8 e8.
                      after_call (explicit_duplication c.duplication_penalty) _ e8
                        (λ explicit f9 e9. after_call (fixed_weight weight) _ e9 (λ size f10 e10.
                          let (h1, r1) = no_reasons s1.1 _ (
                            ap (λ (s : Components × List Reason). no_reason s.1) (ok_injective e10)
                            ∙ h) in
                          let (h2, r2) = no_reasons s2.1 _ r1 in
                          let (h3, r3) = no_reasons s3.1 _ r2 in
                          let (h4, r4) = no_reasons s4.1 _ r3 in
                          let (h5, r5) = no_reasons s5.1 _ r4 in
                          let (h6, r6) = no_reasons m6 _ r5 in
                          let (h7, h8) = no_reasons m7 m8 r6 in
                          (
                            supplied_score-is_some _ _ s1 f1 h1,
                            supplied_score-is_some _ _ s2 f2 h2,
                            supplied_score-is_some _ _ s3 f3 h3,
                            supplied_score-is_some _ _ s4 f4 h4,
                            supplied_score-is_some _ _ s5 f5 h5,
                            weight_reasons-is_some _ _ m7 f7 h7,
                            weight_reasons-IsLight _ _ weight m6 f6 h6,
                            weight_reasons-IsLight _ _ (or_else_given c.concentration weight) m8 f8
                                h8,
                          )))))))))))

module _ (upper name_hash : String → String) where
  -- The relation is eligible, of the candidate's event, and all of its exposure evidence is shown by the
  -- candidate's.
  abbrev pub IsRelated : CandidateInput → Type 0
  IsRelated c =
      (relation : EventRelationship) × (c.relation ≡ some relation)
      × (relation.eligible_for_ranking ≡ true)
      × (c.event.event_id ≡ relation.event_id)
      × All (IsShownBy name_hash c.evidence) relation.exposure_evidence

  -- `r` shows one of the candidates, which has passed every gate.
  abbrev pub IsGated :
      List CandidateInput → Option (List (String × Given)) → RankedCandidate → Type 0
  IsGated candidates holdings r =
      (c : CandidateInput) × (held : Positions) × IsIn c candidates
      × (holding_positions upper holdings ≡ ok held)
      × (r.event_id ≡ c.event.event_id)
      × (r.ticker ≡ canonical_ticker upper name_hash c)
      × (r.evidence ≡ c.evidence)
      × IsRelated c
      × IsScored c (
          or_else_given c.holding_weight
            (held_weight (is_some holdings) held (canonical_ticker upper name_hash c)))

  related :
      (c : CandidateInput)
      → is_eligible_relation c.relation ≡ true
      → has_consistent_event upper name_hash c ≡ true
      → All (IsShownBy name_hash c.evidence) (exposure_items c.relation)
      → IsRelated c
  related c eligible event shown = of_relation c.relation refl eligible event shown
    where
      of_relation :
          (relation : Option EventRelationship)
          → c.relation ≡ relation
          → is_eligible_relation relation ≡ true
          → is_event_consistent c.event.event_id relation ≡ true
          → All (IsShownBy name_hash c.evidence) (exposure_items relation)
          → IsRelated c
      of_relation none same h1 h2 h3 = absurd (impossible h1)
        where
          impossible : false ≡ true → ⊥
          impossible e = cc
      of_relation (some relation) same h1 h2 h3 = (relation, same, h1, str_eq→eq _ _ h2, h3)

  rank_candidate-IsGated :
      (candidates : List CandidateInput) (holdings : Option (List (String × Given)))
      (held planned : Positions) (c : CandidateInput) (r : RankedCandidate)
      → holding_positions upper holdings ≡ ok held
      → IsIn c candidates
      → rank_candidate upper name_hash 1 (is_some holdings) held planned c ≡ ok r
      → r.qualified ≡ true
      → IsGated candidates holdings r
  unfolding rank_by rank_first reasons_of_evidence has_consistent_evidence
  rank_candidate-IsGated candidates holdings held planned c r held_is here e qualified =
      rank_candidate-steps upper name_hash 1 (is_some holdings) held planned c r e
        (λ components missing scored ranked.
          let (eligible, passed) =
            both (ap (λ (t : RankedCandidate). t.qualified) (ok_injective ranked) ∙ qualified) in
          let (shown, given_all) =
            no_reasons (reasons_of_evidence upper name_hash true c) missing passed in
          let (event, evidence) = evidence_reasons_none _ _ _ shown in
          (
            c,
            held,
            here,
            held_is,
            sym (ap (λ (t : RankedCandidate). t.event_id) (ok_injective ranked)),
            sym (ap (λ (t : RankedCandidate). t.ticker) (ok_injective ranked)),
            sym (ap (λ (t : RankedCandidate). t.evidence) (ok_injective ranked)),
            related c eligible event
                (is_evidence_consistent-IsShownBy name_hash true c.relation c.evidence evidence),
            score_candidate-IsScored c _ _ (is_some holdings) held planned (components, missing)
                scored given_all,
          ))

  -- If candidates are ranked under the first contract, each qualified one of the result shows the event, the
  -- ticker and the evidence of a candidate with an eligible relation of its event, whose evidence shows every
  -- item of the relation's exposure evidence with the same content; this candidate's five scores and overlap
  -- are given, and its holding weight and concentration, where not given derived from the holdings, are
  -- scores below forty percent.
  pub rank_candidates-IsGated :
      (candidates : List CandidateInput) (holdings : Option (List (String × Given))) (plans : Plans)
      (out : List RankedCandidate)
      → rank_candidates upper name_hash candidates holdings plans 1 ≡ ok out
      → All (λ (r : RankedCandidate). r.qualified ≡ true → IsGated candidates holdings r) out
  rank_candidates-IsGated candidates holdings plans out e =
      rank_candidates-All (λ r. r.qualified ≡ true → IsGated candidates holdings r) upper name_hash
        candidates holdings plans 1 out (λ r n h. h) (rank_candidate-IsGated candidates holdings) e
