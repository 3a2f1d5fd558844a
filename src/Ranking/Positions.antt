-- ===== src/Ranking/Positions.antt =====
-- `_holding_positions` and `_plan_positions` of lib/intelligence/ranking.py. A dict of positions is a
-- function from its keys. `upper` is `str.upper`.
use stocks_agent.Common.{
  ℕ, Bool, true, false, Option, none, some, List, [], ◌∷◌, String, if◌then◌else◌, str_eq, Result,
  ok, raise, ◌>>=◌, ℤ, pos, negsuc, pos_part,
}
use stocks_agent.Ranking.Decimal.{Given, decimal, RankingError, weight_negative, fixed}
use stocks_agent.Ranking.Candidate.{or_text}

abbrev pub Positions : Type 0
Positions = String → Option ℕ

abbrev pub no_positions : Positions
no_positions _ = none

-- `positions[symbol] = weight`
abbrev pub put_position : String → ℕ → Positions → Positions
put_position symbol weight positions s = if str_eq s symbol then some weight else positions s

abbrev pub nonnegative : ℤ → Result RankingError ℕ
nonnegative (pos n) = ok n
nonnegative (negsuc n) = raise weight_negative

-- A plan: a mapping with the entries that are read of it, or another value, given as its `str`.
pub data Plan : Type 0 where
  plan_mapping :
      (inactive : Bool) (ticker symbol : Option String) (weight allocation : Option Given) → Plan
  plan_text : String → Plan

-- `None`, a mapping by key, or a sequence.
pub data Plans : Type 0 where
  no_plans : Plans
  by_key : List (String × Plan) → Plans
  in_order : List Plan → Plans

-- `value.get("weight", value.get("allocation", 0))`
abbrev pub or_given : Option Given → Option Given → Given
or_given (some weight) allocation = weight
or_given none (some allocation) = allocation
or_given none none = decimal false 0 0

module _ (upper : String → String) where
  unfoldable pub add_holdings : Positions → List (String × Given) → Result RankingError Positions
  add_holdings positions [] = ok positions
  add_holdings positions ((ticker, weight) ∷ holdings) = do
    value ← fixed weight
    n ← nonnegative value
    add_holdings (put_position (upper ticker) n positions) holdings

  abbrev pub items_of : Option (List (String × Given)) → List (String × Given)
  items_of none = []
  items_of (some holdings) = holdings

  unfoldable pub holding_positions : Option (List (String × Given)) → Result RankingError Positions
  holding_positions holdings = add_holdings no_positions (items_of holdings)

  -- A position with a symbol; a weight below zero counts as zero.
  unfoldable pub add_position : Positions → String → Given → Result RankingError Positions
  add_position positions symbol weight =
      if str_eq symbol ""
      then ok positions
      else (do value ← fixed weight; ok (put_position symbol (pos_part value) positions))

  unfoldable pub add_plan : Positions → (name : String) → Plan → Result RankingError Positions
  add_plan positions name (plan_mapping true ticker symbol weight allocation) = ok positions
  add_plan positions name (plan_mapping false ticker symbol weight allocation) =
      add_position positions (upper (or_text ticker (or_text symbol "")))
        (or_given weight allocation)
  add_plan positions name (plan_text text) = add_position positions (upper name) (decimal false 0 0)

  unfoldable pub add_keyed_plans : Positions → List (String × Plan) → Result RankingError Positions
  add_keyed_plans positions [] = ok positions
  add_keyed_plans positions ((key, plan) ∷ plans) = do
    positions' ← add_plan positions key plan
    add_keyed_plans positions' plans

  abbrev pub own_text : Plan → String
  own_text (plan_mapping inactive ticker symbol weight allocation) = ""
  own_text (plan_text text) = text

  unfoldable pub add_listed_plans : Positions → List Plan → Result RankingError Positions
  add_listed_plans positions [] = ok positions
  add_listed_plans positions (plan ∷ plans) = do
    positions' ← add_plan positions (own_text plan) plan
    add_listed_plans positions' plans

  unfoldable pub plan_positions : Plans → Result RankingError Positions
  plan_positions no_plans = ok no_positions
  plan_positions (by_key plans) = add_keyed_plans no_positions plans
  plan_positions (in_order plans) = add_listed_plans no_positions plans
