-- ===== src/Dedupe/Ratio.antt =====
-- `SequenceMatcher(None, a, b, autojunk=False).ratio()` as lib/intelligence/dedupe.py uses it.
use stocks_agent.Common.{
  ℕ, zero, suc, ◌+◌, ◌*◌, Bool, List, [], ◌∷◌, length, take, drop, leb, ltb, ◌==◌, if◌then◌else◌,
}

-- A common block: where it starts in each of the lists, and its size.
pub record Block : Type 0 where
  pub first : ℕ
  pub second : ℕ
  pub size : ℕ

-- The number of equal elements that two lists start with.
abbrev pub common_prefix : List ℕ → List ℕ → ℕ
common_prefix [] b = 0
common_prefix (x ∷ a) [] = 0
common_prefix (x ∷ a) (y ∷ b) = let rest = common_prefix a b in if x == y then suc rest else 0

abbrev pub larger : Block → Block → Block
larger best block = if ltb best.size block.size then block else best

-- The larger of the best block and those that start at `i` in the one list and from `j` on in the other.
unfoldable pub best_from : (i j : ℕ) → Block → (a b : List ℕ) → Block
best_from i j best a [] = best
best_from i j best a (y ∷ b) =
    best_from i (suc j)
      (larger best (record { first = i; second = j; size = common_prefix a (y ∷ b) })) a b

unfoldable pub best_of : (i : ℕ) → Block → (a b : List ℕ) → Block
best_of i best [] b = best
best_of i best (x ∷ a) b = best_of (suc i) (best_from i 0 best (x ∷ a) b) a b

-- `find_longest_match`: of the longest blocks, one that starts first in `a`, and of these in `b`.
unfoldable pub find_longest_match : (a b : List ℕ) → Block
find_longest_match a b = best_of 0 (record { first = 0; second = 0; size = 0 }) a b

-- The sizes of `get_matching_blocks` together: the longest block, and the blocks on either side of it. The
-- length of `a` is enough fuel.
unfoldable pub matched : (fuel : ℕ) → (a b : List ℕ) → ℕ
matched zero a b = 0
matched (suc fuel) a b =
    let block = find_longest_match a b in
    let before = matched fuel (take block.first a) (take block.second b) in
    let after =
      matched fuel (drop (block.first + block.size) a) (drop (block.second + block.size) b) in
    if block.size == 0 then 0 else block.size + (before + after)

unfoldable pub matches : (a b : List ℕ) → ℕ
matches a b = matched (length a) a b

-- `ratio() >= 0.88`: the ratio is 2 * matches / total, and 1 for two empty texts.
unfoldable pub is_near : (a b : List ℕ) → Bool
is_near a b = leb (22 * (length a + length b)) (25 * (2 * matches a b))
