-- ===== src/Common/Members.antt =====
-- Membership of a list, kept by Python's `sorted` and by `append`.
use Prim.Native.Nat.{Ordering}
use mathlib.Core.Path.{◌≡◌, sym, subst}
use mathlib.Core.Logic.{◌⊎◌, inl, inr}
use mathlib.Core.List.{List, [], ◌∷◌, ◌++◌}
use stocks_agent.Common.Tests.{Bool-cases}
use stocks_agent.Common.Lists.{All}
use stocks_agent.Common.Sorting.{insert_sorted, sorted, is_after}

module _ {A : Type 0} (c : A) where
  abbrev pub IsIn : List A → Type 0
  IsIn [] = ⊥
  IsIn (x ∷ xs) = (c ≡ x) ⊎ IsIn xs

  pub IsIn-snoc : (xs : List A) → IsIn xs → (x : A) → IsIn (xs ++ x ∷ [])
  IsIn-snoc (y ∷ xs) (inl here) x = inl here
  IsIn-snoc (y ∷ xs) (inr there) x = inr (IsIn-snoc xs there x)
  IsIn-snoc [] h x = absurd h

  pub IsIn-last : (xs : List A) (x : A) → c ≡ x → IsIn (xs ++ x ∷ [])
  IsIn-last [] x e = inl e
  IsIn-last (y ∷ xs) x e = inr (IsIn-last xs x e)

  IsIn-insert_sorted :
      (order : A → A → Ordering) (x : A) (xs : List A)
      → (c ≡ x) ⊎ IsIn xs
      → IsIn (insert_sorted order x xs)
  unfolding insert_sorted
  IsIn-insert_sorted order x [] h = h
  IsIn-insert_sorted order x (y ∷ ys) h = elim (Bool-cases (is_after (order x y))) [
    | inr first ↦ rw (first, insert_sorted) h
    | inl later ↦ rw (later, insert_sorted) (past (IsIn-insert_sorted order x ys) h)
  ]
    where
      past :
          ((c ≡ x) ⊎ IsIn ys → IsIn (insert_sorted order x ys))
          → (c ≡ x) ⊎ ((c ≡ y) ⊎ IsIn ys)
          → (c ≡ y) ⊎ IsIn (insert_sorted order x ys)
      past rest (inl e) = inr (rest (inl e))
      past rest (inr (inl e)) = inl e
      past rest (inr (inr there)) = inr (rest (inr there))

  pub IsIn-sorted : (order : A → A → Ordering) (xs : List A) → IsIn xs → IsIn (sorted order xs)
  unfolding sorted
  IsIn-sorted order [] h = h
  IsIn-sorted order (x ∷ xs) (inl here) = IsIn-insert_sorted order x (sorted order xs) (inl here)
  IsIn-sorted order (x ∷ xs) (inr there) =
      IsIn-insert_sorted order x (sorted order xs) (inr (IsIn-sorted order xs there))

pub All-IsIn {κ} : {A : Type 0} (P : A → Type κ) (x : A) (xs : List A) → IsIn x xs → All P xs → P x
All-IsIn P x (y ∷ xs) (inl here) hs = subst P (sym here) hs.0
All-IsIn P x (y ∷ xs) (inr there) hs = All-IsIn P x xs there hs.1
All-IsIn P x [] h hs = absurd h
