-- ===== src/Dedupe/Matching.antt =====
-- Lemmas on the matching that lib/intelligence/dedupe.py calls.
use stocks_agent.Common.{
  ℕ, zero, suc, ◌+◌, ◌≤◌, ◌≡◌, refl, inl, inr, true, List, [], ◌∷◌, length, length-take,
  length-drop, take, drop, arith, ltb, ◌==◌, if◌then◌else◌, Bool-cases,
}
use stocks_agent.Dedupe.Ratio.{
  Block, common_prefix, larger, best_from, best_of, find_longest_match, matched, matches, is_near,
}

common_prefix_le : (a b : List ℕ) → (common_prefix a b ≤ length a) × (common_prefix a b ≤ length b)
common_prefix_le [] b = omega arith
common_prefix_le (x ∷ a) [] = omega arith
common_prefix_le (x ∷ a) (y ∷ b) = ground (arith, common_prefix_le a b)

common_prefix_self : (a : List ℕ) → common_prefix a a ≡ length a
common_prefix_self [] = refl
common_prefix_self (x ∷ a) = ground (arith, common_prefix_self a)

-- The block stands in lists of these lengths.
abbrev IsInside : (m n : ℕ) → Block → Type 0
IsInside m n block = (block.first + block.size ≤ m) × (block.second + block.size ≤ n)

larger-IsInside :
    (m n : ℕ) (best block : Block)
    → IsInside m n best
    → IsInside m n block
    → IsInside m n (larger best block)
larger-IsInside m n best block h k = elim (Bool-cases (ltb best.size block.size)) [
  | inl more ↦ rw more k
  | inr less ↦ rw less h
]

best_from-IsInside :
    (m n i j : ℕ) (best : Block) (a b : List ℕ)
    → i + length a ≤ m
    → j + length b ≤ n
    → IsInside m n best
    → IsInside m n (best_from i j best a b)
unfolding best_from
best_from-IsInside m n i j best a [] ha hb h = h
best_from-IsInside m n i j best a (y ∷ b) ha hb h =
    best_from-IsInside m n i (suc j)
      (larger best (record { first = i; second = j; size = common_prefix a (y ∷ b) })) a b ha
      (omega arith)
      (larger-IsInside m n best _ h
        (omega (arith, common_prefix_le a (y ∷ b)), omega (arith, common_prefix_le a (y ∷ b))))

best_of-IsInside :
    (m n i : ℕ) (best : Block) (a b : List ℕ)
    → i + length a ≤ m
    → length b ≤ n
    → IsInside m n best
    → IsInside m n (best_of i best a b)
unfolding best_of
best_of-IsInside m n i best [] b ha hb h = h
best_of-IsInside m n i best (x ∷ a) b ha hb h =
    best_of-IsInside m n (suc i) (best_from i 0 best (x ∷ a) b) a b (omega arith) hb
      (best_from-IsInside m n i 0 best (x ∷ a) b ha (omega arith) h)

pub find_longest_match-IsInside :
    (a b : List ℕ) → IsInside (length a) (length b) (find_longest_match a b)
unfolding find_longest_match
find_longest_match-IsInside a b =
    best_of-IsInside (length a) (length b) 0 _ a b (omega arith) (omega arith)
      (omega arith, omega arith)

best_from_ge : (i j : ℕ) (best : Block) (a b : List ℕ) → best.size ≤ (best_from i j best a b).size
unfolding best_from
best_from_ge i j best a [] = omega arith
best_from_ge i j best a (y ∷ b) = ground (
  arith,
  best_from_ge i (suc j)
      (larger best (record { first = i; second = j; size = common_prefix a (y ∷ b) })) a b,
)

best_of_ge : (i : ℕ) (best : Block) (a b : List ℕ) → best.size ≤ (best_of i best a b).size
unfolding best_of
best_of_ge i best [] b = omega arith
best_of_ge i best (x ∷ a) b =
    omega (
      arith,
      best_from_ge i 0 best (x ∷ a) b,
      best_of_ge (suc i) (best_from i 0 best (x ∷ a) b) a b,
    )

-- What is before the longest block and what is after it.
abbrev before : List ℕ → List ℕ → ℕ → ℕ
before a b fuel =
    matched fuel (take (find_longest_match a b).first a) (take (find_longest_match a b).second b)

abbrev after : List ℕ → List ℕ → ℕ → ℕ
after a b fuel =
    matched fuel (drop ((find_longest_match a b).first + (find_longest_match a b).size) a)
      (drop ((find_longest_match a b).second + (find_longest_match a b).size) b)

matched-suc :
    (fuel : ℕ) (a b : List ℕ)
    → matched (suc fuel) a b ≡ (
        if (find_longest_match a b).size == 0
        then 0
        else (find_longest_match a b).size + (before a b fuel + after a b fuel))
unfolding matched
matched-suc fuel a b = refl

-- No more is matched than there is in either list.
pub matched_le :
    (fuel : ℕ) (a b : List ℕ) → (matched fuel a b ≤ length a) × (matched fuel a b ≤ length b)
unfolding matched
matched_le zero a b = omega arith
matched_le (suc fuel) a b =
    let block = find_longest_match a b in
    ground (
      arith,
      matched-suc fuel a b,
      find_longest_match-IsInside a b,
      matched_le fuel (take block.first a) (take block.second b),
      matched_le fuel (drop (block.first + block.size) a) (drop (block.second + block.size) b),
      length-take block.first a,
      length-take block.second b,
      length-drop (block.first + block.size) a,
      length-drop (block.second + block.size) b,
    )

-- More fuel than the length of the first list makes no difference.
pub matched_enough :
    (m n : ℕ) (a b : List ℕ) → length a ≤ m → length a ≤ n → matched m a b ≡ matched n a b
unfolding matched
matched_enough zero n a b hm hn = omega (arith, matched_le n a b, hm)
matched_enough (suc m) zero a b hm hn = omega (arith, matched_le (suc m) a b, hn)
matched_enough (suc m) (suc n) a b hm hn = elim (Bool-cases ((find_longest_match a b).size == 0)) [
  | inl none_found ↦ rw (matched-suc m a b, matched-suc n a b, none_found) refl
  | inr found ↦
      let block = find_longest_match a b in
      let inside = find_longest_match-IsInside a b in
      let first =
        matched_enough m n (take block.first a) (take block.second b)
          (ground (arith, inside, length-take block.first a))
          (ground (arith, inside, length-take block.first a)) in
      let last =
        matched_enough m n (drop (block.first + block.size) a) (drop (block.second + block.size) b)
          (ground (arith, inside, length-drop (block.first + block.size) a))
          (ground (arith, inside, length-drop (block.first + block.size) a)) in
      rw (matched-suc m a b, matched-suc n a b, found) (λ i. block.size + (first i + last i))
]

longest_self : (x : ℕ) (a : List ℕ) → suc (length a) ≤ (find_longest_match (x ∷ a) (x ∷ a)).size
unfolding find_longest_match best_of best_from
longest_self x a = ground (
  arith,
  common_prefix_self (x ∷ a),
  best_from_ge 0 1
      (larger (record { first = 0; second = 0; size = 0 })
        (record { first = 0; second = 0; size = common_prefix (x ∷ a) (x ∷ a) }))
      (x ∷ a) a,
  best_of_ge 1 (best_from 0 0 (record { first = 0; second = 0; size = 0 }) (x ∷ a) (x ∷ a)) a
      (x ∷ a),
)

matched_self : (x : ℕ) (a : List ℕ) (fuel : ℕ) → matched (suc fuel) (x ∷ a) (x ∷ a) ≡ suc (length a)
matched_self x a fuel =
    let block = find_longest_match (x ∷ a) (x ∷ a) in
    ground (
      arith,
      matched-suc fuel (x ∷ a) (x ∷ a),
      longest_self x a,
      find_longest_match-IsInside (x ∷ a) (x ∷ a),
      matched_le fuel (take block.first (x ∷ a)) (take block.second (x ∷ a)),
      matched_le fuel (drop (block.first + block.size) (x ∷ a))
          (drop (block.second + block.size) (x ∷ a)),
      length-take block.first (x ∷ a),
      length-drop (block.first + block.size) (x ∷ a),
    )

-- A text is near itself.
pub is_near_self : (a : List ℕ) → is_near a a ≡ true
unfolding is_near matches matched
is_near_self [] = refl
is_near_self (x ∷ a) = ground (arith, matched_self x a (length a))
