-- ===== src/Common/Sorting.antt =====
-- Python's stable `sorted` by a comparison of keys, the comparison of tuples, and what sorting keeps.
use Prim.Native.Nat.{suc, Ordering}
use mathlib.Core.Path.{◌≡◌, refl}
use mathlib.Core.Bool.{Bool, true, false}
use mathlib.Core.List.{List, [], ◌∷◌}
use native.Mathlib.Omega.{arith}
use mathlib.Core.Logic.{inl, inr}
use stocks_agent.Common.Tests.{if◌then◌else◌, Bool-cases}
use stocks_agent.Common.Lists.{length, All}

-- The comparison of tuples: the first components that differ decide.
abbrev pub or_then : Ordering → Ordering → Ordering
or_then Ordering.lt later = Ordering.lt
or_then Ordering.eq later = later
or_then Ordering.gt later = Ordering.gt

abbrev pub is_after : Ordering → Bool
is_after Ordering.gt = true
is_after _ = false

-- `sorted(values, key=…)`: an equal value that stands later stays later.
module _ {ℓ} {A : Type ℓ} (order : A → A → Ordering) where
  unfoldable pub insert_sorted : A → List A → List A
  insert_sorted x [] = x ∷ []
  insert_sorted x (y ∷ ys) = if is_after (order x y) then y ∷ insert_sorted x ys else x ∷ y ∷ ys

  unfoldable pub sorted : List A → List A
  sorted [] = []
  sorted (x ∷ xs) = insert_sorted x (sorted xs)

length-insert_sorted {ℓ} :
    {A : Type ℓ} (order : A → A → Ordering) (x : A) (xs : List A)
    → length (insert_sorted order x xs) ≡ suc (length xs)
unfolding insert_sorted
length-insert_sorted order x [] = refl
length-insert_sorted order x (y ∷ ys) = ground (arith, length-insert_sorted order x ys)

pub length-sorted {ℓ} :
    {A : Type ℓ} (order : A → A → Ordering) (xs : List A) → length (sorted order xs) ≡ length xs
unfolding sorted
length-sorted order [] = refl
length-sorted order (x ∷ xs) =
    omega (arith, length-insert_sorted order x (sorted order xs), length-sorted order xs)

module _ {ℓ κ} {A : Type ℓ} (P : A → Type κ) (order : A → A → Ordering) where
  All-insert_sorted : (x : A) (xs : List A) → P x → All P xs → All P (insert_sorted order x xs)
  unfolding insert_sorted
  All-insert_sorted x [] h hs = (h, tt)
  All-insert_sorted x (y ∷ ys) h hs = ground (arith, All-insert_sorted x ys)

  pub All-sorted : (xs : List A) → All P xs → All P (sorted order xs)
  unfolding sorted
  All-sorted [] hs = tt
  All-sorted (x ∷ xs) hs = All-insert_sorted x (sorted order xs) hs.0 (All-sorted xs hs.1)

module _ {ℓ} {A : Type ℓ} (order : A → A → Ordering) where
  -- No value is after the next one.
  abbrev pub IsSorted : List A → Type 0
  IsSorted [] = Unit
  IsSorted (x ∷ []) = Unit
  IsSorted (x ∷ y ∷ ys) = (is_after (order x y) ≡ false) × IsSorted (y ∷ ys)

  insert_sorted-IsSorted :
      ((x y : A) → is_after (order x y) ≡ true → is_after (order y x) ≡ false)
      → (x : A) (xs : List A) → IsSorted xs
      → IsSorted (insert_sorted order x xs)
  unfolding insert_sorted
  insert_sorted-IsSorted asym x [] h = tt
  insert_sorted-IsSorted asym x (y ∷ []) h = elim (Bool-cases (is_after (order x y))) [
    | inl later ↦ rw later (asym x y later, tt)
    | inr first ↦ rw first (first, tt)
  ]
  insert_sorted-IsSorted asym x (y ∷ z ∷ zs) h = elim (Bool-cases (is_after (order x y))) [
    | inr first ↦ rw (first, insert_sorted) (first, h)
    | inl later ↦
        rw (later, insert_sorted)
          (behind (asym x y later) (insert_sorted-IsSorted asym x (z ∷ zs) h.1))
  ]
    where
      behind :
          is_after (order y x) ≡ false
          → IsSorted (insert_sorted order x (z ∷ zs))
          → IsSorted (y ∷ insert_sorted order x (z ∷ zs))
      behind before rest = elim (Bool-cases (is_after (order x z))) [
        | inl further ↦ rw further (h.0, rw further at rest)
        | inr here ↦ rw here (before, rw here at rest)
      ]

  pub sorted-IsSorted :
      ((x y : A) → is_after (order x y) ≡ true → is_after (order y x) ≡ false)
      → (xs : List A) → IsSorted (sorted order xs)
  unfolding sorted
  sorted-IsSorted asym [] = tt
  sorted-IsSorted asym (x ∷ xs) =
      insert_sorted-IsSorted asym x (sorted order xs) (sorted-IsSorted asym xs)

  pub sorted_of_IsSorted : (xs : List A) → IsSorted xs → sorted order xs ≡ xs
  unfolding sorted insert_sorted
  sorted_of_IsSorted [] h = refl
  sorted_of_IsSorted (x ∷ []) h = refl
  sorted_of_IsSorted (x ∷ y ∷ ys) h = rw (sorted_of_IsSorted (y ∷ ys) h.1, insert_sorted, h.0) refl
