-- ===== src/Common/Orderings.antt =====
-- The two comparisons of the language, of numbers and of texts, turned round, and what they decide.
use Prim.Native.Nat.compare as compare_ℕ
use Prim.Native.Nat.{ℕ, zero, suc, ◌<◌, Ordering, compare as compare_ℕ}
use Prim.Native.Char.{code}
use Prim.Native.String.compare
use Prim.Native.String.{String, [], ◌∷◌, compare, then}
use mathlib.Core.Path.{◌≡◌, refl, ap, sym, ◌∙◌}
use mathlib.Core.Logic.{◌⊎◌}
use mathlib.Core.Bool.{true, false}
use native.Mathlib.Omega.{arith}
use stocks_agent.Common.Sorting.{or_then, is_after}

abbrev pub flip : Ordering → Ordering
flip Ordering.lt = Ordering.gt
flip Ordering.eq = Ordering.eq
flip Ordering.gt = Ordering.lt

pub flip-or_then : (a b : Ordering) → flip (or_then a b) ≡ or_then (flip a) (flip b)
flip-or_then Ordering.lt b = refl
flip-or_then Ordering.eq b = refl
flip-or_then Ordering.gt b = refl

pub compare_flip : (m n : ℕ) → compare_ℕ n m ≡ flip (compare_ℕ m n)
compare_flip zero zero = refl
compare_flip zero (suc n) = compare_ℕ.suc-zero n ∙ ap flip (sym (compare_ℕ.zero-suc n))
compare_flip (suc m) zero = compare_ℕ.zero-suc m ∙ ap flip (sym (compare_ℕ.suc-zero m))
compare_flip (suc m) (suc n) =
    compare_ℕ.suc-suc n m ∙ compare_flip m n ∙ ap flip (sym (compare_ℕ.suc-suc m n))

flip-then : (a b : Ordering) → flip (then a b) ≡ then (flip a) (flip b)
flip-then Ordering.lt b = refl
flip-then Ordering.eq b = refl
flip-then Ordering.gt b = refl

pub compare_texts_flip : (s t : String) → compare t s ≡ flip (compare s t)
compare_texts_flip [] [] = refl
compare_texts_flip [] (d ∷ t) = compare.cons-nil d t ∙ ap flip (sym (compare.nil-cons d t))
compare_texts_flip (c ∷ s) [] = compare.nil-cons c s ∙ ap flip (sym (compare.cons-nil c s))
compare_texts_flip (c ∷ s) (d ∷ t) =
    compare.cons-cons d c t s
    ∙ (λ i. then (compare_flip (code c) (code d) i) (compare_texts_flip s t i))
    ∙ sym (flip-then (compare_ℕ (code c) (code d)) (compare s t))
    ∙ ap flip (sym (compare.cons-cons c d s t))

pub flip-is_after : (a : Ordering) → is_after a ≡ true → is_after (flip a) ≡ false
flip-is_after Ordering.gt h = refl
flip-is_after Ordering.lt h = cc
flip-is_after Ordering.eq h = cc

-- What a comparison decides, in words.
pub or_then_decides :
    (m n : ℕ) (later : Ordering)
    → is_after (or_then (compare_ℕ m n) later) ≡ false
    → (m < n) ⊎ ((m ≡ n) × (is_after later ≡ false))
or_then_decides m n later h = ground arith
