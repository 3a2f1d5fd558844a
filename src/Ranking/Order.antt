-- ===== src/Ranking/Order.antt =====
-- The order of what `rank_candidates` of lib/intelligence/ranking.py returns, and that it returns every
-- candidate.
use Prim.Native.Nat.{compare}
use Prim.Native.String.{compare as compare_texts}
use stocks_agent.Common.{
  ℕ, suc, ◌+◌, ◌<◌, ◌≡◌, refl, ap, sym, subst, ◌∙◌, ◌⊎◌, inl, inr, Bool, true, false, ◌||◌, ◌==◌,
  Option, List, [], ◌∷◌, String, length, arith, is_some, ok, ok_injective, after_call, after_test,
  ℤ, pos, negsuc, pos_part, neg_part, compare_ℤ, or_then, is_after, flip, flip-or_then,
  flip-is_after, or_then_decides, compare_flip, compare_texts_flip, IsIn, IsIn-sorted, sorted,
  length-sorted, IsSorted, sorted-IsSorted,
}
use stocks_agent.Ranking.Decimal.{Given, version_unsupported}
use stocks_agent.Ranking.Candidate.{CandidateInput, RankedCandidate}
use stocks_agent.Ranking.Positions.{Positions, Plans, holding_positions, plan_positions}
use stocks_agent.Ranking.Rank.{compare_ranked, numbered, rank_candidate, rank_all, rank_candidates}

-- a < b, in integers.
infix 50 ◌<ℤ◌
abbrev pub ◌<ℤ◌ : ℤ → ℤ → Type 0
a <ℤ b = pos_part a + neg_part b < pos_part b + neg_part a

ℤ-equal : (a b : ℤ) → pos_part a + neg_part b ≡ pos_part b + neg_part a → a ≡ b
ℤ-equal (pos m) (pos n) h = ap pos (omega (arith, h))
ℤ-equal (pos m) (negsuc n) h = absurd (omega (arith, h))
ℤ-equal (negsuc m) (pos n) h = absurd (omega (arith, h))
ℤ-equal (negsuc m) (negsuc n) h = ap negsuc (omega (arith, h))

-- More score; of equal scores, more official evidence; of equal numbers, not a later key.
abbrev pub Precedes : RankedCandidate → RankedCandidate → Type 0
Precedes a b =
    (b.total_score <ℤ a.total_score)
    ⊎ ((a.total_score ≡ b.total_score)
        × ((b.authoritative_evidence_count < a.authoritative_evidence_count)
            ⊎ ((a.authoritative_evidence_count ≡ b.authoritative_evidence_count)
                × (is_after (compare_texts a.candidate_key b.candidate_key) ≡ false))))

-- Numbered from `first`, each candidate before the next one.
abbrev pub IsRanked : (first : ℕ) → List RankedCandidate → Type 0
IsRanked first [] = Unit
IsRanked first (a ∷ []) = a.rank ≡ first
IsRanked first (a ∷ b ∷ ranked) =
    (a.rank ≡ first) × Precedes a b × IsRanked (suc first) (b ∷ ranked)

compare_ranked-Precedes :
    (a b : RankedCandidate) → is_after (compare_ranked a b) ≡ false → Precedes a b
unfolding compare_ranked
compare_ranked-Precedes a b h = elim (or_then_decides _ _ _ h) [
  | inl more ↦ inl more
  | inr (same, h1) ↦ elim (or_then_decides _ _ _ h1) [
    | inl official ↦ inr (sym (ℤ-equal _ _ same), inl official)
    | inr (same_count, h2) ↦ inr (sym (ℤ-equal _ _ same), inr (sym same_count, h2))
  ]
]

compare_ranked-flip : (a b : RankedCandidate) → compare_ranked b a ≡ flip (compare_ranked a b)
unfolding compare_ranked
compare_ranked-flip a b =
    (λ i. or_then (score i) (or_then (official i) (key i)))
    ∙ ap (or_then (flip (compare_ℤ b.total_score a.total_score))) (sym (flip-or_then _ _))
    ∙ sym (flip-or_then _ _)
  where
    score : compare_ℤ a.total_score b.total_score ≡ flip (compare_ℤ b.total_score a.total_score)
    score = compare_flip _ _

    official :
        compare a.authoritative_evidence_count b.authoritative_evidence_count
        ≡ flip (compare b.authoritative_evidence_count a.authoritative_evidence_count)
    official = compare_flip _ _

    key :
        compare_texts b.candidate_key a.candidate_key
        ≡ flip (compare_texts a.candidate_key b.candidate_key)
    key = compare_texts_flip a.candidate_key b.candidate_key

compare_ranked_asymmetric :
    (a b : RankedCandidate)
    → is_after (compare_ranked a b) ≡ true
    → is_after (compare_ranked b a) ≡ false
compare_ranked_asymmetric a b h =
    ap is_after (compare_ranked-flip a b) ∙ flip-is_after (compare_ranked a b) h

numbered-IsRanked :
    (first : ℕ) (ranked : List RankedCandidate)
    → IsSorted compare_ranked ranked
    → IsRanked first (numbered first ranked)
unfolding numbered
numbered-IsRanked first [] h = tt
numbered-IsRanked first (a ∷ []) h = refl
numbered-IsRanked first (a ∷ b ∷ ranked) h =
    (refl, compare_ranked-Precedes a b h.0, numbered-IsRanked (suc first) (b ∷ ranked) h.1)

length-numbered :
    (first : ℕ) (ranked : List RankedCandidate) → length (numbered first ranked) ≡ length ranked
unfolding numbered
length-numbered first [] = refl
length-numbered first (r ∷ ranked) = ap suc (length-numbered (suc first) ranked)

-- The candidate stands there, of whatever rank.
abbrev pub IsThere : RankedCandidate → List RankedCandidate → Type 0
IsThere r out = (n : ℕ) × IsIn (record r { rank = n }) out

IsIn-numbered :
    (first : ℕ) (r : RankedCandidate) (ranked : List RankedCandidate)
    → IsIn r ranked
    → IsThere r (numbered first ranked)
unfolding numbered
IsIn-numbered first r (a ∷ ranked) (inl e) =
    (first, inl (ap (λ (x : RankedCandidate). record x { rank = first }) e))
IsIn-numbered first r (a ∷ ranked) (inr there) =
    let (n, h) = IsIn-numbered (suc first) r ranked there in (n, inr h)
IsIn-numbered first r [] h = absurd h

module _ (upper name_hash : String → String) (contract_version : ℕ) where
  length-rank_all :
      (has_holdings : Bool) (held planned : Positions) (candidates : List CandidateInput)
      (ranked : List RankedCandidate)
      → rank_all upper name_hash contract_version has_holdings held planned candidates ≡ ok ranked
      → length ranked ≡ length candidates
  unfolding rank_all
  length-rank_all has_holdings held planned [] ranked e = sym (ap length (ok_injective e))
  length-rank_all has_holdings held planned (c ∷ candidates) ranked e =
      after_call (rank_candidate upper name_hash contract_version has_holdings held planned c) _ e
        (λ r f1 e1.
          after_call
            (rank_all upper name_hash contract_version has_holdings held planned candidates) _ e1
            (λ rest f2 e2.
              sym (ap length (ok_injective e2))
              ∙ ap suc (length-rank_all has_holdings held planned candidates rest f2)))

  IsIn-rank_all :
      (has_holdings : Bool) (held planned : Positions) (c : CandidateInput)
      (candidates : List CandidateInput) (ranked : List RankedCandidate)
      → IsIn c candidates
      → rank_all upper name_hash contract_version has_holdings held planned candidates ≡ ok ranked
      → (r : RankedCandidate) × (rank_candidate upper name_hash contract_version has_holdings held
            planned c
          ≡ ok r)
        × IsIn r ranked
  unfolding rank_all
  IsIn-rank_all has_holdings held planned c [] ranked here e = absurd here
  IsIn-rank_all has_holdings held planned c (first ∷ candidates) ranked (inl here) e =
      after_call (rank_candidate upper name_hash contract_version has_holdings held planned first) _
        e
        (λ r f1 e1.
          after_call
            (rank_all upper name_hash contract_version has_holdings held planned candidates) _ e1
            (λ rest f2 e2. (
              r,
              ap (rank_candidate upper name_hash contract_version has_holdings held planned) here
                  ∙ f1,
              subst (IsIn r) (ok_injective e2) (inl refl),
            )))
  IsIn-rank_all has_holdings held planned c (first ∷ candidates) ranked (inr there) e =
      after_call (rank_candidate upper name_hash contract_version has_holdings held planned first) _
        e
        (λ r f1 e1.
          after_call
            (rank_all upper name_hash contract_version has_holdings held planned candidates) _ e1
            (λ rest f2 e2.
              let (s, done, at) =
                IsIn-rank_all has_holdings held planned c candidates rest there f2 in
              (s, done, subst (IsIn s) (ok_injective e2) (inr at))))

  -- If candidates are ranked, there are as many in the result; they are numbered from 1 in its order, and
  -- each precedes the next one: it has more score, or the same score and more official evidence, or the same
  -- of both and a key that is not after the other's.
  pub rank_candidates-IsRanked :
      (candidates : List CandidateInput) (holdings : Option (List (String × Given))) (plans : Plans)
      (out : List RankedCandidate)
      → rank_candidates upper name_hash candidates holdings plans contract_version ≡ ok out
      → IsRanked 1 out × (length out ≡ length candidates)
  unfolding rank_candidates
  rank_candidates-IsRanked candidates holdings plans out e =
      after_test (contract_version == 1 || contract_version == 2) version_unsupported _ e
        (λ known e1. after_call (holding_positions upper holdings) _ e1 (λ held f1 e2.
          after_call (plan_positions upper plans) _ e2 (λ planned f2 e3.
            after_call
              (rank_all upper name_hash contract_version (is_some holdings) held planned candidates)
              _ e3
              (λ ranked f3 e4.
                subst (λ result. IsRanked 1 result × (length result ≡ length candidates))
                  (ok_injective e4)
                  (
                    numbered-IsRanked 1 _
                        (sorted-IsSorted compare_ranked compare_ranked_asymmetric ranked),
                    length-numbered 1 (sorted compare_ranked ranked)
                        ∙ length-sorted compare_ranked ranked
                        ∙ length-rank_all (is_some holdings) held planned candidates ranked f3,
                  )))))

  -- If candidates are ranked, then of every one of them, with the positions of the holdings and of the
  -- plans, the loop's body returns, and what it returns stands in the result, with a rank.
  pub rank_candidates-IsThere :
      (candidates : List CandidateInput) (holdings : Option (List (String × Given))) (plans : Plans)
      (out : List RankedCandidate) (c : CandidateInput)
      → IsIn c candidates
      → rank_candidates upper name_hash candidates holdings plans contract_version ≡ ok out
      → (held : Positions) × (planned : Positions) × (r : RankedCandidate) × (holding_positions
            upper holdings
          ≡ ok held)
        × (plan_positions upper plans ≡ ok planned)
        × (rank_candidate upper name_hash contract_version (is_some holdings) held planned c ≡ ok r)
        × IsThere r out
  unfolding rank_candidates
  rank_candidates-IsThere candidates holdings plans out c here e =
      after_test (contract_version == 1 || contract_version == 2) version_unsupported _ e
        (λ known e1. after_call (holding_positions upper holdings) _ e1 (λ held f1 e2.
          after_call (plan_positions upper plans) _ e2 (λ planned f2 e3.
            after_call
              (rank_all upper name_hash contract_version (is_some holdings) held planned candidates)
              _ e3
              (λ ranked f3 e4.
                let (r, done, at) =
                  IsIn-rank_all (is_some holdings) held planned c candidates ranked here f3 in
                (
                  held,
                  planned,
                  r,
                  f1,
                  f2,
                  done,
                  subst (IsThere r) (ok_injective e4) (
                      IsIn-numbered 1 r (sorted compare_ranked ranked)
                        (IsIn-sorted r compare_ranked ranked at)),
                )))))
