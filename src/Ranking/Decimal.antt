-- ===== src/Ranking/Decimal.antt =====
-- `_fixed` of lib/intelligence/ranking.py: decimals of six places. A fixed decimal is its number of
-- millionths.
use stocks_agent.Common.{
  ℕ, ◌+◌, ◌-◌, ◌*◌, ◌/◌, ◌%◌, ◌^◌, ◌≤◌, ◌<◌, ◌≡◌, ◌⊎◌, arith, subst, sym, Bool, true, false, leb,
  ltb, ◌==◌, if◌then◌else◌, Result, ok, raise, ◌>>=◌, ◌>>◌, guard, ℤ, pos, negsuc, sub_ℕ,
}

-- What `Decimal(str(value))` makes of a value: nothing that is finite (a `bool`, a text that is no decimal,
-- NaN and infinity), or (-1)^negative * coefficient / 10^places. A positive exponent is multiplied out.
pub data Given : Type 0 where
  not_finite : Given
  decimal : (negative : Bool) (coefficient places : ℕ) → Given

pub data RankingError : Type 0 where
  not_a_decimal out_of_range penalty_positive weight_negative : RankingError
  version_unsupported version_mismatch relationship_required ticker_mismatch : RankingError

abbrev pub rounded : (quotient remainder d : ℕ) → ℕ
rounded q r d =
    if ltb (2 * r) d then q else if ltb d (2 * r) then q + 1 else if q % 2 == 0 then q else q + 1

-- The integer nearest to n / d; between two, the even one (`ROUND_HALF_EVEN`).
unfoldable pub half_even : (n d : ℕ) → ℕ
half_even n d = rounded (n / d) (n % d) d

-- The coefficient that `quantize(Decimal("0.000001"))` gives.
unfoldable pub quantized : (coefficient places : ℕ) → ℕ
quantized coefficient places =
    if leb places 6
    then coefficient * 10 ^ (6 - places)
    else half_even coefficient (10 ^ (places - 6))

abbrev pub signed : Bool → ℕ → ℤ
signed true magnitude = sub_ℕ 0 magnitude
signed false magnitude = pos magnitude

-- `quantize` raises where the result has more than the 28 digits of the context.
unfoldable pub fixed : Given → Result RankingError ℤ
fixed not_finite = raise not_a_decimal
fixed (decimal negative coefficient places) = do
  guard (ltb (quantized coefficient places) (10 ^ 28)) not_a_decimal
  ok (signed negative (quantized coefficient places))

-- A fixed decimal as a value that is given to `_fixed` again.
abbrev pub given : ℕ → Given
given millionths = decimal false millionths 6

-- One, in millionths.
abbrev pub one : ℕ
one = 1000000

abbrev pub unit_score_of : ℤ → Result RankingError ℕ
unit_score_of (pos n) = do guard (leb n one) out_of_range; ok n
unit_score_of (negsuc n) = raise out_of_range

-- A score between zero and one.
unfoldable pub unit_score : Given → Result RankingError ℕ
unit_score value = do score ← fixed value; unit_score_of score

half_even_near :
    (n d : ℕ)
    → 0 < d
    → (2 * (half_even n d * d) ≤ 2 * n + d) × (2 * n ≤ 2 * (half_even n d * d) + d)
unfolding half_even
half_even_near n d h = grind arith

rounded_even :
    (q r d : ℕ)
    → r < d
    → (2 * (q * d + r) ≡ 2 * (rounded q r d * d) + d)
      ⊎ (2 * (rounded q r d * d) ≡ 2 * (q * d + r) + d)
    → rounded q r d % 2 ≡ 0
rounded_even q r d h tie = grind arith

-- n / d rounded, in words.
abbrev pub IsRounded : (n d rounded_value : ℕ) → Type 0
IsRounded n d m =
    (2 * (m * d) ≤ 2 * n + d)
    × (2 * n ≤ 2 * (m * d) + d)
    × ((2 * n ≡ 2 * (m * d) + d) ⊎ (2 * (m * d) ≡ 2 * n + d) → m % 2 ≡ 0)

-- The rounded value of n / d, for a d above zero, is at most half a unit away, and is even where it is half
-- a unit away.
pub half_even-IsRounded : (n d : ℕ) → 0 < d → IsRounded n d (half_even n d)
unfolding half_even
half_even-IsRounded n d h = ((half_even_near n d h).0, (half_even_near n d h).1, even_tie)
  where
    quotient : n / d * d + n % d ≡ n
    quotient = grind arith

    small : n % d < d
    small = omega (arith, h)

    even_tie :
        (2 * n ≡ 2 * (half_even n d * d) + d) ⊎ (2 * (half_even n d * d) ≡ 2 * n + d)
        → half_even n d % 2 ≡ 0
    even_tie tie = rounded_even (n / d) (n % d) d small (
        subst (λ k. (2 * k ≡ 2 * (half_even n d * d) + d) ⊎ (2 * (half_even n d * d) ≡ 2 * k + d))
          (sym quotient) tie)
