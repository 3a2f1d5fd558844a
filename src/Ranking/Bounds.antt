-- ===== src/Ranking/Bounds.antt =====
-- The bounds of the scores in lib/intelligence/ranking.py, and the rounding to six places.
use Prim.Native.Nat.{min}
use stocks_agent.Common.{
  ℕ, ◌+◌, ◌*◌, ◌≤◌, ◌≡◌, refl, sym, subst, Bool, true, false, Option, none, some, List, String,
  arith, leb, leb→le, ◌==◌, if◌then◌else◌, is_some, ok, raise, ok_injective, after_call, after_test,
  ℤ, pos, negsuc, ◌≤ℤ◌, All, All-IsIn,
}
use stocks_agent.Ranking.Decimal.{
  Given, out_of_range, fixed, one, half_even-IsRounded, unit_score_of, unit_score,
}
use stocks_agent.Ranking.Candidate.{CandidateInput, Components, RankedCandidate}
use stocks_agent.Ranking.Positions.{Positions, Plans}
use stocks_agent.Ranking.Score.{
  Reason, supplied_score, weight_reasons, held_weight, or_else_given, explicit_duplication,
  fixed_weight, concentration_size, score_candidate, total_of,
}
use stocks_agent.Ranking.Research.{assess_suitability, assess_research}
use stocks_agent.Ranking.Rank.{
  second_key, rank_first, rank_second, rank_by, rank_candidate, rank_candidates,
}
use stocks_agent.Ranking.Every.{rank_candidates-All, rank_candidate-steps}

unit_score_bounded : (value : Given) (n : ℕ) → unit_score value ≡ ok n → n ≤ one
unfolding unit_score
unit_score_bounded value n e = after_call (fixed value) _ e (λ score f1 e1. within score e1)
  where
    within : (score : ℤ) → unit_score_of score ≡ ok n → n ≤ one
    within (pos m) h =
        after_test (leb m one) out_of_range _ h
          (λ low h1. subst (λ k. k ≤ one) (ok_injective h1) (leb→le m one low))
    within (negsuc m) h = absurd (refused h)
      where
        refused : raise out_of_range ≡ ok n → ⊥
        refused h1 = cc

supplied_score_bounded :
    (name : String) (value : Option Given) (scored : ℕ × List Reason)
    → supplied_score name value ≡ ok scored
    → scored.0 ≤ one
unfolding supplied_score
supplied_score_bounded name none scored e =
    subst (λ (s : ℕ × List Reason). s.0 ≤ one) (ok_injective e) (omega arith)
supplied_score_bounded name (some value) scored e = after_call (unit_score value) _ e (λ n f1 e1.
    subst (λ (s : ℕ × List Reason). s.0 ≤ one) (ok_injective e1) (unit_score_bounded value n f1))

concentration_size_bounded : (weight plan : ℕ) → concentration_size weight plan ≤ one
unfolding concentration_size
concentration_size_bounded weight plan =
    omega
      (arith, (half_even-IsRounded (min (10 * one) (10 * weight + 5 * plan)) 10 (omega arith)).0)

-- The five scores and the concentration penalty are at most one.
abbrev pub IsBounded : Components → Type 0
IsBounded s =
    (s.authority_corroboration ≤ one)
    × (s.exposure ≤ one)
    × (s.recency ≤ one)
    × (s.portfolio_relevance ≤ one)
    × (s.liquidity ≤ one)
    × (s.concentration_penalty ≤ one)

score_candidate-IsBounded :
    (c : CandidateInput) (ticker : Option String) (consistent has_holdings : Bool)
    (held planned : Positions) (scored : Components × List Reason)
    → score_candidate c ticker consistent has_holdings held planned ≡ ok scored
    → IsBounded scored.0 × (scored.0.materiality ≡ c.event.materiality)
unfolding score_candidate
score_candidate-IsBounded c ticker consistent has_holdings held planned scored e =
    let weight = or_else_given c.holding_weight (held_weight has_holdings held ticker) in
    after_call (supplied_score "authority_corroboration" c.authority_corroboration) _ e (λ s1 f1 e1.
      after_call (supplied_score "exposure" c.exposure_strength) _ e1 (λ s2 f2 e2.
        after_call (supplied_score "recency" c.recency) _ e2 (λ s3 f3 e3.
          after_call (supplied_score "portfolio_relevance" c.portfolio_relevance) _ e3 (λ s4 f4 e4.
            after_call (supplied_score "liquidity" c.liquidity) _ e4 (λ s5 f5 e5.
              after_call (weight_reasons "holding_weight" (some "concentrated") weight) _ e5
                (λ m6 f6 e6. after_call (weight_reasons "overlap" none c.overlap) _ e6 (λ m7 f7 e7.
                  after_call
                    (weight_reasons "concentration" (some "high")
                      (or_else_given c.concentration weight))
                    _ e7
                    (λ m8 f8 e8.
                      after_call (explicit_duplication c.duplication_penalty) _ e8
                        (λ explicit f9 e9. after_call (fixed_weight weight) _ e9 (λ size f10 e10.
                          subst
                            (λ (s : Components × List Reason).
                              IsBounded s.0 × (s.0.materiality ≡ c.event.materiality))
                            (ok_injective e10)
                            (
                              (
                                supplied_score_bounded _ _ s1 f1,
                                shown consistent s2.0 (supplied_score_bounded _ _ s2 f2),
                                supplied_score_bounded _ _ s3 f3,
                                supplied_score_bounded _ _ s4 f4,
                                supplied_score_bounded _ _ s5 f5,
                                concentration_size_bounded size _,
                              ),
                              refl,
                            )))))))))))
  where
    shown : (b : Bool) (exposure : ℕ) → exposure ≤ one → (if b then exposure else 0) ≤ one
    shown true exposure h = h
    shown false exposure h = omega arith

total_of_bounded :
    (s : Components) → IsBounded s → s.materiality ≤ one → total_of s ≤ℤ pos (6 * one)
unfolding total_of
total_of_bounded s h m = ground arith

-- The components are bounded, and the total is theirs and is at most six.
abbrev pub IsWithin : RankedCandidate → Type 0
IsWithin r =
    IsBounded r.components
    × (r.total_score ≡ total_of r.components)
    × (r.total_score ≤ℤ pos (6 * one))

module _ (upper name_hash : String → String) where
  rank_by-IsWithin :
      (first : Bool) (c : CandidateInput) (ticker : Option String) (missing : List Reason)
      (consistent : Bool) (base r : RankedCandidate)
      → IsWithin base
      → rank_by upper name_hash first c ticker missing consistent base ≡ ok r
      → IsWithin r
  unfolding rank_by rank_first rank_second
  rank_by-IsWithin true c ticker missing consistent base r h e = subst IsWithin (ok_injective e) h
  rank_by-IsWithin false c ticker missing consistent base r h e =
      after_call
        (assess_suitability c
          (assess_research name_hash c (second_key c ticker) ticker base.components consistent))
        _ e (λ s f1 e1. subst IsWithin (ok_injective e1) h)

  rank_candidate-IsWithin :
      (version : ℕ) (has_holdings : Bool) (held planned : Positions) (c : CandidateInput)
      (r : RankedCandidate)
      → c.event.materiality ≤ one
      → rank_candidate upper name_hash version has_holdings held planned c ≡ ok r
      → IsWithin r
  rank_candidate-IsWithin version has_holdings held planned c r m e =
      rank_candidate-steps upper name_hash version has_holdings held planned c r e
        (λ components missing scored ranked.
          let (bounded, same) =
            score_candidate-IsBounded c _ _ has_holdings held planned (components, missing)
              scored in
          rank_by-IsWithin (version == 1) c _ _ _ _ r
            (bounded, refl, total_of_bounded components bounded (subst (λ n. n ≤ one) (sym same) m))
            ranked)

  -- If candidates are ranked whose events have a materiality of at most one, then of each one of the result
  -- the five scores and the size of the concentration penalty are at most one, and the total is the sum of
  -- the components and at most six.
  pub rank_candidates-IsWithin :
      (candidates : List CandidateInput) (holdings : Option (List (String × Given))) (plans : Plans)
      (contract_version : ℕ) (out : List RankedCandidate)
      → All (λ (c : CandidateInput). c.event.materiality ≤ one) candidates
      → rank_candidates upper name_hash candidates holdings plans contract_version ≡ ok out
      → All IsWithin out
  rank_candidates-IsWithin candidates holdings plans contract_version out small e =
      rank_candidates-All IsWithin upper name_hash candidates holdings plans contract_version out
        (λ r n h. h)
        (λ held planned c r held_is here done.
          rank_candidate-IsWithin contract_version (is_some holdings) held planned c r
            (All-IsIn _ c candidates here small) done)
        e
