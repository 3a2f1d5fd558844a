-- ===== src/Learning/Misses.antt =====
-- What `evaluate_missed_event` of lib/intelligence/learning.py attributes to a run.
use stocks_agent.Common.{
  ℕ, suc, ◌≤◌, ◌<◌, ◌≡◌, refl, ap, sym, subst, ◌∙◌, ◌⊎◌, inl, inr, true, false, Option, none, some,
  List, [], ◌∷◌, map, String, length, filter, arith, contains, Bool-cases, sorted, length-sorted,
  All-sorted, ok, ok_injective, after_call, ◌>>=◌, All, All-imp, IsIn,
}
use stocks_agent.Learning.Observation.{
  invalid_run_id, invalid_evidence_id, invalid_policy_version, LearningObservation, observation,
  positive_version, uuid_of,
}
use stocks_agent.Learning.Rows.{uuid_of-some, positive_version-some}
use stocks_agent.Learning.Missed.{
  OriginalRun, LaterItem, Coverage, coverage_of, is_among, is_inside, is_later, is_missed,
  compare_missed, observed_misses, missed_items, evaluate_missed_event,
}

-- Later official proof of an event inside the coverage of the run, which did not rank its candidate.
abbrev pub IsMissed : OriginalRun → Coverage → LaterItem → Type 0
IsMissed run window item =
    (item.authoritative ≡ true)
    × ((source : String) × (item.source ≡ some source)
        × (contains source run.covered_sources ≡ true))
    × (is_among item.candidate_key run.ranked_candidate_keys ≡ false)
    × ((time : ℕ) × (item.occurred_at ≡ some time) × (window.first ≤ time) × (time ≤ window.last))
    × ((time : ℕ) × (item.discovered_at ≡ some time) × (window.completed < time))

among :
    (text : Option String) (texts : List String)
    → is_among text texts ≡ true
    → (s : String) × (text ≡ some s) × (contains s texts ≡ true)
among none texts h = absurd (ground arith)
among (some s) texts h = (s, refl, h)

inside :
    (window : Coverage) (at : Option ℕ)
    → is_inside window at ≡ true
    → (time : ℕ) × (at ≡ some time) × (window.first ≤ time) × (time ≤ window.last)
inside window none h = absurd (ground arith)
inside window (some time) h = (time, refl, ground arith, ground arith)

later :
    (window : Coverage) (at : Option ℕ)
    → is_later window at ≡ true
    → (time : ℕ) × (at ≡ some time) × (window.completed < time)
later window none h = absurd (ground arith)
later window (some time) h = (time, refl, ground arith)

is_missed-IsMissed :
    (run : OriginalRun) (window : Coverage) (item : LaterItem)
    → is_missed run window item ≡ true
    → IsMissed run window item
unfolding is_missed
is_missed-IsMissed run window item h =
    let (official, covered, unranked, occurred, discovered) = parts in
    (
      official,
      among item.source run.covered_sources covered,
      unranked,
      inside window item.occurred_at occurred,
      later window item.discovered_at discovered,
    )
  where
    parts :
        (item.authoritative ≡ true)
        × (is_among item.source run.covered_sources ≡ true)
        × (is_among item.candidate_key run.ranked_candidate_keys ≡ false)
        × (is_inside window item.occurred_at ≡ true)
        × (is_later window item.discovered_at ≡ true)
    parts = ground (arith, h)

module _ (uuid : String → Option String) (run : OriginalRun) (window : Coverage) where
  -- The entry is that of a missed item.
  abbrev pub IsFrom : List LaterItem → String → Type 0
  IsFrom items id =
      (item : LaterItem) × IsIn item items × IsMissed run window item × (uuid item.id ≡ some id)

  missed_items-IsFrom :
      (items : List LaterItem) (missed : List (String × String))
      → missed_items uuid run window items ≡ ok missed
      → (length missed ≡ length (filter (is_missed run window) items))
        × All (λ (entry : String × String). IsFrom items entry.0) missed
  unfolding missed_items
  missed_items-IsFrom [] missed e =
      subst (λ m. (length m ≡ 0) × All (λ (entry : String × String). IsFrom [] entry.0) m)
        (ok_injective e) (refl, tt)
  missed_items-IsFrom (item ∷ items) missed e = elim (Bool-cases (is_missed run window item)) [
    | inr passed ↦
        rw passed
          (onward missed (missed_items-IsFrom items missed (rw (passed, missed_items) at e)))
    | inl chosen ↦ rw chosen (
        after_call (uuid_of uuid invalid_evidence_id item.id) _ (rw (chosen, missed_items) at e)
          (λ id f1 e1. after_call (missed_items uuid run window items) _ e1 (λ rest f2 e2.
            subst
              (λ m.
                (length m ≡ suc (length (filter (is_missed run window) items)))
                × All (λ (entry : String × String). IsFrom (item ∷ items) entry.0) m)
              (ok_injective e2)
              (put chosen id f1 rest (onward rest (missed_items-IsFrom items rest f2))))))
  ]
    where
      onward :
          (found : List (String × String))
          → (length found ≡ length (filter (is_missed run window) items))
            × All (λ (entry : String × String). IsFrom items entry.0) found
          → (length found ≡ length (filter (is_missed run window) items))
            × All (λ (entry : String × String). IsFrom (item ∷ items) entry.0) found
      onward found (same, all_from) = (
        same,
        All-imp (λ (entry : String × String). IsFrom items entry.0)
            (λ (entry : String × String). IsFrom (item ∷ items) entry.0) found
            (λ entry h. (h.0, inr h.1, h.2, h.3)) all_from,
      )

      put :
          is_missed run window item ≡ true
          → (id : String) → uuid_of uuid invalid_evidence_id item.id ≡ ok id
          → (rest : List (String × String))
          → (length rest ≡ length (filter (is_missed run window) items))
            × All (λ (entry : String × String). IsFrom (item ∷ items) entry.0) rest
          → (suc (length rest) ≡ suc (length (filter (is_missed run window) items)))
            × (IsFrom (item ∷ items) id
                × All (λ (entry : String × String). IsFrom (item ∷ items) entry.0) rest)
      put chosen id f1 rest (same, all_from) = (
        ap suc same,
        (
          (
            item,
            inl refl,
            is_missed-IsMissed run window item chosen,
            uuid_of-some uuid invalid_evidence_id item.id id f1,
          ),
          all_from,
        ),
      )

-- The observation is of every missed item and of no other, proposes nothing, and there is one at least.
abbrev pub IsObserved :
    (uuid : String → Option String) → OriginalRun → List LaterItem → LearningObservation → Type 0
IsObserved uuid run items o =
    (window : Coverage) × (coverage_of run ≡ some window)
    × (0 < o.sample_size)
    × (o.sample_size ≡ length (filter (is_missed run window) items))
    × (length o.evidence_ids ≡ o.sample_size)
    × All (IsFrom uuid run window items) o.evidence_ids
    × (o.proposed_change ≡ none)
    × (o.status ≡ observation)

-- The run declares no coverage, or nothing was missed.
abbrev pub HasNoMiss : OriginalRun → List LaterItem → Type 0
HasNoMiss run items =
    (coverage_of run ≡ none)
    ⊎ ((window : Coverage) × (coverage_of run ≡ some window)
        × (length (filter (is_missed run window) items) ≡ 0))

abbrev pub IsAnswer :
    (uuid : String → Option String)
    → OriginalRun
    → List LaterItem
    → Option LearningObservation
    → Type 0
IsAnswer uuid run items none = HasNoMiss run items
IsAnswer uuid run items (some o) =
    IsObserved uuid run items o
    × (uuid run.id ≡ some o.original_run_id)
    × (run.policy_version ≡ some o.policy_version)

length-map {ℓ κ} :
    {A : Type ℓ} {B : Type κ} (f : A → B) (xs : List A) → length (map f xs) ≡ length xs
length-map f [] = refl
length-map f (x ∷ xs) = ap suc (length-map f xs)

All-of-map {ℓ κ} :
    {A : Type ℓ} {B : Type κ} (f : A → B) (P : B → Type 0) (xs : List A)
    → All (λ x. P (f x)) xs
    → All P (map f xs)
All-of-map f P [] h = tt
All-of-map f P (x ∷ xs) h = (h.0, All-of-map f P xs h.1)

observed_misses-IsAnswer :
    (uuid : String → Option String) (run : OriginalRun) (window : Coverage) (items : List LaterItem)
    (run_id : String) (version : ℕ) (missed : List (String × String))
    → coverage_of run ≡ some window
    → uuid run.id ≡ some run_id
    → run.policy_version ≡ some version
    → length missed ≡ length (filter (is_missed run window) items)
    → All (λ (entry : String × String). IsFrom uuid run window items entry.0) missed
    → IsAnswer uuid run items (observed_misses run_id version missed)
observed_misses-IsAnswer uuid run window items run_id version [] covered named versioned same
      all_from =
    inr (window, covered, sym same)
observed_misses-IsAnswer uuid run window items run_id version (entry ∷ missed) covered named
      versioned same all_from =
    (
      (
        window,
        covered,
        omega (arith, length-sorted compare_missed (entry ∷ missed)),
        length-sorted compare_missed (entry ∷ missed) ∙ same,
        length-map _ (sorted compare_missed (entry ∷ missed)),
        All-of-map (λ (e : String × String). e.0) (IsFrom uuid run window items)
            (sorted compare_missed (entry ∷ missed))
            (All-sorted (λ (e : String × String). IsFrom uuid run window items e.0) compare_missed
              (entry ∷ missed) all_from),
        refl,
        refl,
      ),
      named,
      versioned,
    )

module _ (uuid : String → Option String) where
  -- If a run is evaluated, either there is no observation, and the run declares no coverage or no later
  -- item is a miss of it; or there is one, of the run and its policy version, with as many evidence
  -- identifiers as there are misses among the items, each that of an item which is authoritative, of a
  -- source that the run covered, of a candidate that it did not rank, inside its window and discovered after
  -- it completed. It proposes no change.
  pub evaluate_missed_event-IsAnswer :
      (run : OriginalRun) (items : List LaterItem) (answer : Option LearningObservation)
      → evaluate_missed_event uuid run items ≡ ok answer
      → IsAnswer uuid run items answer
  unfolding evaluate_missed_event
  evaluate_missed_event-IsAnswer run items answer e =
      after_call (uuid_of uuid invalid_run_id run.id) _ e (λ run_id f1 e1.
        after_call (positive_version invalid_policy_version run.policy_version) _ e1
          (λ version f2 e2.
            covered (coverage_of run) refl run_id version
              (uuid_of-some uuid invalid_run_id run.id run_id f1)
              (positive_version-some invalid_policy_version run.policy_version version f2) e2))
    where
      covered :
          (coverage : Option Coverage)
          → coverage_of run ≡ coverage
          → (run_id : String) (version : ℕ) → uuid run.id ≡ some run_id
          → run.policy_version ≡ some version
          → (elim coverage [
            | none ↦ ok none
            | some window ↦ (do
              missed ← missed_items uuid run window items
              ok (observed_misses run_id version missed))
          ])
            ≡ ok answer
          → IsAnswer uuid run items answer
      covered none same run_id version named versioned e1 =
          subst (IsAnswer uuid run items) (ok_injective e1) (inl same)
      covered (some window) same run_id version named versioned e1 =
          after_call (missed_items uuid run window items) _ e1 (λ missed f1 e2.
            let (counted, all_from) = missed_items-IsFrom uuid run window items missed f1 in
            subst (IsAnswer uuid run items) (ok_injective e2) (
              observed_misses-IsAnswer uuid run window items run_id version missed same named
                versioned counted all_from))
