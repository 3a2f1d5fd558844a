-- ===== src/Relation/Adverse.antt =====
-- `propose_relation` drops adverse evidence only for evidence that is adverse or an exposure itself.
use Prim.Native.Nat.{Ordering}
use stocks_agent.Common.{
  insert_sorted, sorted, ℕ, zero, suc, ◌≡◌, ◌∙◌, refl, sym, ap, subst, Bool, true, ◌&&◌, ◌||◌,
  Option, none, some, List, [], ◌∷◌, ◌++◌, String, arith, all, filter, find_first, take, drop,
  eq_iff, contains, all_distinct, Bool-cases, inl, inr, ok,
}
use stocks_agent.Relation.Item.{SourceItem, is_adverse, is_exposure, evidence_key, compare_priority}
use stocks_agent.Relation.Proposal.{
  EventRelationship, put_items, keep_new, listed, ordered_evidence, prioritized_evidence,
  relation_of, propose_relation,
}
use stocks_agent.Relation.Prioritized.{
  keys, find_first-some, contains-keep_new, all_distinct-keep_new, contains_append, contains-take,
  contains-reversed,
}
use stocks_agent.Relation.Retained.{propose_relation-of}

all_append :
    (q : SourceItem → Bool) (xs ys : List SourceItem) → all q (xs ++ ys) ≡ (all q xs && all q ys)
all_append q [] ys = refl
all_append q (x ∷ xs) ys = ground (arith, all_append q xs ys)

module _ (name_hash : String → String) where
  contains-filter-sorted :
      (k : String) (order : SourceItem → SourceItem → Ordering) (xs : List SourceItem)
      → contains k (keys name_hash (filter is_adverse (sorted order xs)))
        ≡ contains k (keys name_hash (filter is_adverse xs))
  unfolding sorted insert_sorted
  contains-filter-sorted k order [] = refl
  contains-filter-sorted k order (x ∷ xs) =
      inserted x (sorted order xs) ∙ ground (arith, contains-filter-sorted k order xs)
    where
      inserted :
          (y : SourceItem) (ys : List SourceItem)
          → contains k (keys name_hash (filter is_adverse (insert_sorted order y ys)))
            ≡ contains k (keys name_hash (filter is_adverse (y ∷ ys)))
      inserted y [] = refl
      inserted y (z ∷ zs) = ground (arith, inserted y zs)

  all-keep_new :
      (q : SourceItem → Bool) (ids : List String) (xs : List SourceItem)
      → all q xs ≡ true
      → all q (keep_new name_hash ids xs) ≡ true
  unfolding keep_new
  all-keep_new q ids [] h = refl
  all-keep_new q ids (x ∷ xs) h = elim (Bool-cases (contains (evidence_key name_hash x) ids)) [
    | inl seen ↦ rw (seen, keep_new) (all-keep_new q ids xs (ground arith))
    | inr new ↦
        rw (new, keep_new) (ground (arith, all-keep_new q (evidence_key name_hash x ∷ ids) xs))
  ]

  keep_new_append :
      (ids : List String) (xs ys : List SourceItem)
      → (ids' : List String) × (keep_new name_hash ids (xs ++ ys)
          ≡ keep_new name_hash ids xs ++ keep_new name_hash ids' ys)
  unfolding keep_new
  keep_new_append ids [] ys = (ids, refl)
  keep_new_append ids (x ∷ xs) ys = elim (Bool-cases (contains (evidence_key name_hash x) ids)) [
    | inl seen ↦ rw (seen, keep_new) (keep_new_append ids xs ys)
    | inr new ↦
        let (ids', same) = keep_new_append (evidence_key name_hash x ∷ ids) xs ys in
        (ids', rw (new, keep_new) cc)
  ]

  -- A key of the first part that is dropped stands behind what is taken, so that is of the first part.
  take_before :
      (q : SourceItem → Bool) (k : String) (n : ℕ) (xs ys : List SourceItem)
      → all_distinct (keys name_hash (xs ++ ys)) ≡ true
      → contains k (keys name_hash xs) ≡ true
      → contains k (keys name_hash (drop n (xs ++ ys))) ≡ true
      → all q xs ≡ true
      → all q (take n (xs ++ ys)) ≡ true
  take_before q k zero xs ys d here dropped h = refl
  take_before q k (suc n) [] ys d here dropped h = cc
  take_before q k (suc n) (x ∷ xs) ys d here dropped h = ground (
    arith,
    take_before q k n xs ys,
    contains-take name_hash k n (xs ++ ys),
    eq_iff k (evidence_key name_hash x),
  )

all-filter :
    (p q : SourceItem → Bool) (xs : List SourceItem) → all (λ x. q x || p x) (filter q xs) ≡ true
all-filter p q [] = refl
all-filter p q (x ∷ xs) = ground (arith, all-filter p q xs)

listed_append :
    (o : Option SourceItem) (xs ys : List SourceItem)
    → (listed o ++ xs) ++ ys ≡ listed o ++ (xs ++ ys)
listed_append none xs ys = refl
listed_append (some item) xs ys = refl

prioritized_evidence-adverse :
    (casefold name_hash : String → String) (evidence : List SourceItem) (k : String)
    → contains k (keys name_hash (filter is_adverse (put_items name_hash [] evidence))) ≡ true
    → contains k (keys name_hash (drop 8 (prioritized_evidence casefold name_hash evidence))) ≡ true
    → all
        (λ item. is_adverse item || is_exposure casefold item)
        (take 8 (prioritized_evidence casefold name_hash evidence))
      ≡ true
unfolding prioritized_evidence ordered_evidence
prioritized_evidence-adverse casefold name_hash evidence k here dropped =
    let (ids, split) = keep_new_append name_hash [] first ordered in
    let parts : prioritized_evidence casefold name_hash evidence
        ≡ keep_new name_hash [] first ++ keep_new name_hash ids ordered =
      ap (keep_new name_hash []) (sym (listed_append decisive adverse ordered)) ∙ split in
    rw parts (
      take_before name_hash q k 8 (keep_new name_hash [] first) (keep_new name_hash ids ordered)
        (rw parts at (all_distinct-keep_new name_hash [] (listed decisive ++ (adverse ++ ordered))))
        (ground (
          arith,
          contains-keep_new name_hash k [] first,
          contains_append name_hash k (listed decisive) adverse,
          contains-filter-sorted name_hash k (compare_priority name_hash) unique,
        ))
        (rw parts at dropped)
        (all-keep_new name_hash q [] first (
          ground (
            arith,
            all_append q (listed decisive) adverse,
            all-filter (is_exposure casefold) is_adverse ordered,
            chosen decisive (λ d. find_first-some (is_exposure casefold) ordered d),
          ))))
  where
    q : SourceItem → Bool
    q item = is_adverse item || is_exposure casefold item

    unique : List SourceItem
    unique = put_items name_hash [] evidence

    ordered : List SourceItem
    ordered = sorted (compare_priority name_hash) unique

    decisive : Option SourceItem
    decisive = find_first (is_exposure casefold) ordered

    adverse : List SourceItem
    adverse = filter is_adverse ordered

    first : List SourceItem
    first = listed decisive ++ adverse

    chosen :
        (o : Option SourceItem)
        → ((d : SourceItem) → o ≡ some d → is_exposure casefold d ≡ true)
        → all q (listed o) ≡ true
    chosen none h = refl
    chosen (some d) h = ground (arith, h d refl)

-- If a relation is proposed and the key of an adverse item (where a key stands twice, its last item
-- counts) is dropped, every retained item is adverse or an official exposure.
pub propose_relation-adverse :
    (casefold upper name_hash : String → String) (event_id ticker : String)
    (security_id : Option String) (role : String) (evidence : List SourceItem)
    (r : EventRelationship) (k : String)
    → propose_relation casefold upper name_hash event_id ticker security_id role evidence ≡ ok r
    → contains k (keys name_hash (filter is_adverse (put_items name_hash [] evidence))) ≡ true
    → contains k r.dropped_evidence_keys ≡ true
    → all (λ item. is_adverse item || is_exposure casefold item) r.evidence ≡ true
unfolding relation_of
propose_relation-adverse casefold upper name_hash event_id ticker security_id role evidence r k e
      adverse dropped =
    let (same, ticker_known, role_known, id_known) =
      propose_relation-of casefold upper name_hash event_id ticker security_id role evidence r e in
    subst
      (λ r.
        contains k r.dropped_evidence_keys ≡ true
        → all (λ item. is_adverse item || is_exposure casefold item) r.evidence ≡ true)
      (sym same)
      (λ d. prioritized_evidence-adverse casefold name_hash evidence k adverse (
        sym (
          contains-reversed name_hash k
            (keys name_hash (drop 8 (prioritized_evidence casefold name_hash evidence))))
        ∙ d))
      dropped
