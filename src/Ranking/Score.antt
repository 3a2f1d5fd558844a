-- ===== src/Ranking/Score.antt =====
-- The components of a candidate's score in `rank_candidates` of lib/intelligence/ranking.py, and the
-- reasons for which something is missing.
use Prim.Native.Nat.{min}
use Prim.Native.String.{◌++◌ as append_text}
use stocks_agent.Common.{
  ℕ, zero, suc, ◌+◌, ◌*◌, Bool, true, false, Option, none, some, List, [], ◌∷◌, ◌++◌, String, leb,
  if◌then◌else◌, str_eq, is_some, or_default, Result, ok, raise, ◌>>=◌, ℤ, pos, negsuc, sub_ℕ,
}
use stocks_agent.Ranking.Decimal.{
  Given, RankingError, penalty_positive, fixed, given, one, half_even, unit_score,
}
use stocks_agent.Ranking.Candidate.{CandidateInput, Components}
use stocks_agent.Ranking.Positions.{Positions}

-- `f"{name}:{problem}"`. No name has a colon.
pub record Reason : Type 0 where
  pub name : String
  pub problem : String

abbrev pub reason : (name problem : String) → Reason
reason name problem = record { name = name; problem = problem }

unfoldable pub reason_text : Reason → String
reason_text r = append_text r.name (append_text ":" r.problem)

-- `f"missing_{…}" if reason.endswith(":missing") else reason.replace(":", "_").upper()`
unfoldable pub veto_text : (upper : String → String) → Reason → String
veto_text upper r =
    if str_eq r.problem "missing"
    then append_text "missing_" r.name
    else upper (append_text r.name (append_text "_" r.problem))

-- One of the `supplied` scores.
unfoldable pub supplied_score : String → Option Given → Result RankingError (ℕ × List Reason)
supplied_score name none = ok (0, reason name "missing" ∷ [])
supplied_score name (some value) = do score ← unit_score value; ok (score, [])

-- Forty percent, in millionths.
abbrev pub concentrated : ℕ
concentrated = 400000

-- One of the three weights, with the problem that a weight of forty percent is, if it is one.
unfoldable pub weight_reasons :
    String → (problem : Option String) → Option Given → Result RankingError (List Reason)
weight_reasons name problem none = ok (reason name "missing" ∷ [])
weight_reasons name none (some value) = do score ← unit_score value; ok []
weight_reasons name (some problem) (some value) = do
  score ← unit_score value
  ok (if leb concentrated score then reason name problem ∷ [] else [])

abbrev pub position_of : Positions → Option String → Option ℕ
position_of positions none = none
position_of positions (some ticker) = positions ticker

-- `holding_positions.get(ticker, _ZERO) if holdings is not None and ticker is not None else None`
abbrev pub held_weight : Bool → Positions → Option String → Option Given
held_weight false positions ticker = none
held_weight true positions none = none
held_weight true positions (some ticker) = some (given (or_default (positions ticker) 0))

abbrev pub or_else_given : Option Given → Option Given → Option Given
or_else_given none second = second
or_else_given (some value) second = some value

-- An explicit penalty is at most zero; its size.
abbrev pub penalty_size : ℤ → Result RankingError ℕ
penalty_size (pos zero) = ok 0
penalty_size (pos (suc n)) = raise penalty_positive
penalty_size (negsuc n) = ok (suc n)

unfoldable pub explicit_duplication : Option Given → Result RankingError ℕ
explicit_duplication none = ok 0
explicit_duplication (some value) = do penalty ← fixed value; penalty_size penalty

-- `_fixed(derived_holding_weight, …)`, which has been found to be between zero and one by then.
unfoldable pub fixed_weight : Option Given → Result RankingError ℕ
fixed_weight none = ok 0
fixed_weight (some value) = unit_score value

-- 0.15 for a holding and 0.1 for a plan of the same ticker.
unfoldable pub automatic_duplication : (holding plan : Bool) → ℕ
automatic_duplication holding plan = (if holding then 150000 else 0) + (if plan then 100000 else 0)

-- The weight and half of the plan's, at most one, of six places.
unfoldable pub concentration_size : (weight plan : ℕ) → ℕ
concentration_size weight plan = half_even (min (10 * one) (10 * weight + 5 * plan)) 10

-- The scores that are looked up for a candidate. A penalty whose sum leaves the 28 digits of Python's
-- context is not told apart.
unfoldable pub score_candidate :
    CandidateInput
    → (ticker : Option String) → (exposure_consistent : Bool) → (has_holdings : Bool)
    → (holdings plans : Positions) → Result RankingError (Components × List Reason)
score_candidate c ticker exposure_consistent has_holdings holdings plans = do
  (authority, missing1) ← supplied_score "authority_corroboration" c.authority_corroboration
  (exposure, missing2) ← supplied_score "exposure" c.exposure_strength
  (recency, missing3) ← supplied_score "recency" c.recency
  (relevance, missing4) ← supplied_score "portfolio_relevance" c.portfolio_relevance
  (liquidity, missing5) ← supplied_score "liquidity" c.liquidity
  let weight = or_else_given c.holding_weight (held_weight has_holdings holdings ticker)
  missing6 ← weight_reasons "holding_weight" (some "concentrated") weight
  missing7 ← weight_reasons "overlap" none c.overlap
  missing8 ← weight_reasons "concentration" (some "high") (or_else_given c.concentration weight)
  explicit ← explicit_duplication c.duplication_penalty
  size ← fixed_weight weight
  ok (
    record {
      materiality = c.event.materiality;
      authority_corroboration = authority;
      exposure = if exposure_consistent then exposure else 0;
      recency = recency;
      portfolio_relevance = relevance;
      liquidity = liquidity;
      duplication_penalty =
          automatic_duplication (is_some (position_of holdings ticker))
            (is_some (position_of plans ticker))
          + explicit;
      concentration_penalty = concentration_size size (or_default (position_of plans ticker) 0);
    },
    missing1
        ++ (missing2
            ++ (missing3 ++ (missing4 ++ (missing5 ++ (missing6 ++ (missing7 ++ missing8)))))),
  )

-- `sum(ordered.values())`
unfoldable pub total_of : Components → ℤ
total_of s =
    sub_ℕ
      (s.materiality + s.authority_corroboration + s.exposure + s.recency + s.portfolio_relevance
        + s.liquidity)
      (s.duplication_penalty + s.concentration_penalty)
