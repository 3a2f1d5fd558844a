-- ===== src/Learning/Rows.antt =====
-- What it means for the checks of rows in lib/intelligence/learning.py to pass.
use stocks_agent.Common.{
  ℕ, zero, suc, ◌<◌, ◌≡◌, refl, ap, sym, subst, ◌∙◌, inl, inr, Bool, true, ◌&&◌, Option, none, some,
  List, [], ◌∷◌, map, String, length, filter, all, arith, str_eq→eq, Bool-cases, ok, raise,
  ok_injective, after_call, after_test, All, All-imp,
}
use stocks_agent.Learning.Observation.{LearningError, positive_version, the_one, uuid_of, uuids}
use stocks_agent.Learning.Outcome.{
  Outcome, is_eligible_horizon, is_same_number, is_eligible_outcome, eligible_outcomes,
  is_same_text, has_rows, days_of,
}

pub is_same_number-path : (a b : Option ℕ) → is_same_number a b ≡ true → a ≡ b
is_same_number-path none none h = refl
is_same_number-path (some a) (some b) h = ap some (ground arith)
is_same_number-path none (some b) h = absurd (ground arith)
is_same_number-path (some a) none h = absurd (ground arith)

pub is_same_text-path : (a b : Option String) → is_same_text a b ≡ true → a ≡ b
is_same_text-path none none h = refl
is_same_text-path (some a) (some b) h = ap some (str_eq→eq a b h)
is_same_text-path none (some b) h = absurd (ground arith)
is_same_text-path (some a) none h = absurd (ground arith)

all-All {ℓ} : {A : Type ℓ} (p : A → Bool) (xs : List A) → all p xs ≡ true → All (λ x. p x ≡ true) xs
all-All p [] h = tt
all-All p (x ∷ xs) h = (here h, all-All p xs (there h))
  where
    here : (p x && all p xs) ≡ true → p x ≡ true
    here e = ground arith

    there : (p x && all p xs) ≡ true → all p xs ≡ true
    there e = ground arith

-- Of values that are one, each is it.
pub the_one-All {ℓ} :
    {A : Type ℓ} (same : A → A → Bool) (exception : LearningError) (xs : List A) (x : A)
    → ((a b : A) → same a b ≡ true → a ≡ b)
    → the_one same exception xs ≡ ok x
    → All (λ y. y ≡ x) xs
unfolding the_one
the_one-All same exception [] x path h = tt
the_one-All same exception (y ∷ ys) x path h =
    after_test (all (same y) ys) exception _ h (λ equal h1. (
      ok_injective h1,
      All-imp (λ z. same y z ≡ true) (λ z. z ≡ x) ys (λ z e. sym (path y z e) ∙ ok_injective h1)
          (all-All (same y) ys equal),
    ))

pub All-map {ℓ κ} :
    {A : Type ℓ} {B : Type κ} (f : A → B) (P : B → Type κ) (xs : List A)
    → All P (map f xs)
    → All (λ x. P (f x)) xs
All-map f P [] h = tt
All-map f P (x ∷ xs) h = (h.0, All-map f P xs h.1)

All-filter {ℓ} : {A : Type ℓ} (p : A → Bool) (xs : List A) → All (λ x. p x ≡ true) (filter p xs)
All-filter p [] = tt
All-filter p (x ∷ xs) = elim (Bool-cases (p x)) [
  | inl kept ↦ rw kept (kept, All-filter p xs)
  | inr dropped ↦ rw dropped (All-filter p xs)
]

pub has_rows-length : (rows : List Outcome) → has_rows rows ≡ true → 0 < length rows
has_rows-length [] h = absurd (ground arith)
has_rows-length (row ∷ rows) h = omega arith

pub positive_version-some :
    (exception : LearningError) (value : Option ℕ) (version : ℕ)
    → positive_version exception value ≡ ok version
    → value ≡ some version
positive_version-some exception (some (suc n)) version h = ap some (ok_injective h)
positive_version-some exception (some zero) version h = absurd (refused h)
  where
    refused : raise exception ≡ ok version → ⊥
    refused e = cc
positive_version-some exception none version h = absurd (refused h)
  where
    refused : raise exception ≡ ok version → ⊥
    refused e = cc

pub uuid_of-some :
    (uuid : String → Option String) (exception : LearningError) (value id : String)
    → uuid_of uuid exception value ≡ ok id
    → uuid value ≡ some id
uuid_of-some uuid exception value id h = found (uuid value) refl h
  where
    found :
        (parsed : Option String)
        → uuid value ≡ parsed
        → (elim parsed [ none ↦ raise exception | some i ↦ ok i ]) ≡ ok id
        → uuid value ≡ some id
    found none same e = absurd (ground arith)
    found (some i) same e = same ∙ ap some (ok_injective e)

-- Where every identifier is the same, each value parses to it.
pub uuids-All :
    (uuid : String → Option String) (exception : LearningError) (values ids : List String)
    (id : String)
    → uuids uuid exception values ≡ ok ids
    → All (λ i. i ≡ id) ids
    → All (λ value. uuid value ≡ some id) values
unfolding uuids
uuids-All uuid exception [] ids id e h = tt
uuids-All uuid exception (value ∷ values) ids id e h =
    after_call (uuid_of uuid exception value) _ e (λ first f1 e1.
      after_call (uuids uuid exception values) _ e1 (λ rest f2 e2.
        let same = subst (All (λ i. i ≡ id)) (sym (ok_injective e2)) h in
        (
          uuid_of-some uuid exception value first f1 ∙ ap some same.0,
          uuids-All uuid exception values rest id f2 same.1,
        )))

pub All-both :
    (P Q R S : Outcome → Type 0) (rows : List Outcome)
    → All P rows
    → All Q rows
    → All R rows
    → All S rows
    → All (λ row. P row × Q row × R row × S row) rows
All-both P Q R S [] hp hq hr hs = tt
All-both P Q R S (row ∷ rows) hp hq hr hs =
    ((hp.0, hq.0, hr.0, hs.0), All-both P Q R S rows hp.1 hq.1 hr.1 hs.1)

-- The rows have one horizon, that of the observation.
pub horizon_known :
    (rows : List Outcome) (horizon : Option ℕ)
    → All (λ row. is_eligible_horizon row.horizon_days ≡ true) rows
    → All (λ row. row.horizon_days ≡ horizon) rows
    → All (λ row. row.horizon_days ≡ some (days_of horizon)) rows
horizon_known [] horizon h same = tt
horizon_known (row ∷ rows) horizon h same = (
  known horizon (subst (λ n. is_eligible_horizon n ≡ true) same.0 h.0) same.0,
  horizon_known rows horizon h.1 same.1,
)
  where
    known :
        (value : Option ℕ)
        → is_eligible_horizon value ≡ true
        → row.horizon_days ≡ value
        → row.horizon_days ≡ some (days_of value)
    known none e1 e2 = absurd (ground arith)
    known (some days) e1 e2 = e2

pub eligible_horizons :
    (outcomes : List Outcome)
    → All (λ row. is_eligible_horizon row.horizon_days ≡ true) (eligible_outcomes outcomes)
unfolding eligible_outcomes is_eligible_outcome
eligible_horizons outcomes =
    All-imp (λ row. is_eligible_outcome row ≡ true)
      (λ row. is_eligible_horizon row.horizon_days ≡ true) (eligible_outcomes outcomes)
      (λ row h. ground (arith, h)) (All-filter is_eligible_outcome outcomes)
