-- ===== src/Relation/Prioritized.antt =====
-- The order in which `propose_relation` takes the evidence: each key once, none lost.
use Prim.Native.Nat.{Ordering}
use stocks_agent.Common.{
  insert_sorted, sorted, ℕ, ◌≡◌, refl, Bool, true, false, not, ◌&&◌, ◌||◌, none, some, List, [],
  ◌∷◌, ◌++◌, map, String, arith, any, filter, find_first, take, drop, zero, suc, eq_iff, contains,
  contains-append, all_distinct, Bool-cases, inl, inr,
}
use stocks_agent.Relation.Item.{SourceItem, evidence_key}
use stocks_agent.Relation.Proposal.{put_item, put_items, keep_new, listed, is_nonempty, reversed}

module _ (p : SourceItem → Bool) where
  any-insert_sorted :
      (order : SourceItem → SourceItem → Ordering) (x : SourceItem) (xs : List SourceItem)
      → any p (insert_sorted order x xs) ≡ (p x || any p xs)
  unfolding insert_sorted
  any-insert_sorted order x [] = refl
  any-insert_sorted order x (y ∷ ys) = ground (arith, any-insert_sorted order x ys)

  pub any-sorted :
      (order : SourceItem → SourceItem → Ordering) (xs : List SourceItem)
      → any p (sorted order xs) ≡ any p xs
  unfolding sorted
  any-sorted order [] = refl
  any-sorted order (x ∷ xs) =
      ground (arith, any-insert_sorted order x (sorted order xs), any-sorted order xs)

  pub any-append : (xs ys : List SourceItem) → any p (xs ++ ys) ≡ (any p xs || any p ys)
  any-append [] ys = refl
  any-append (x ∷ xs) ys = ground (arith, any-append xs ys)

  pub any-filter :
      (q : SourceItem → Bool) (xs : List SourceItem) → any p (filter q xs) ≡ true → any p xs ≡ true
  any-filter q [] h = h
  any-filter q (x ∷ xs) h = ground (arith, any-filter q xs)

  -- What is found satisfies the test, and where nothing is found nothing does.
  pub find_first-none : (xs : List SourceItem) → find_first p xs ≡ none → any p xs ≡ false
  find_first-none [] h = refl
  find_first-none (x ∷ xs) h = ground (arith, find_first-none xs)

  pub find_first-some :
      (xs : List SourceItem) (d : SourceItem) → find_first p xs ≡ some d → p d ≡ true
  find_first-some [] d h = cc
  find_first-some (x ∷ xs) d h = ground (arith, find_first-some xs d)

  pub find_first-any :
      (xs : List SourceItem) (d : SourceItem) → find_first p xs ≡ some d → any p xs ≡ true
  find_first-any [] d h = cc
  find_first-any (x ∷ xs) d h = ground (arith, find_first-any xs d)

  pub any-take : (n : ℕ) (xs : List SourceItem) → any p (take n xs) ≡ true → any p xs ≡ true
  any-take zero xs h = cc
  any-take (suc n) [] h = cc
  any-take (suc n) (x ∷ xs) h = ground (arith, any-take n xs)

  pub any-of_filter :
      (xs : List SourceItem) → (is_nonempty xs && is_nonempty (filter p xs)) ≡ any p xs
  any-of_filter [] = refl
  any-of_filter (x ∷ xs) = ground (arith, nonempty xs, any-of_filter xs)
    where
      nonempty : (ys : List SourceItem) → is_nonempty (filter p ys) ≡ any p ys
      nonempty [] = refl
      nonempty (y ∷ ys) = ground (arith, nonempty ys)

module _ (name_hash : String → String) where
  abbrev pub keys : List SourceItem → List String
  keys items = map (evidence_key name_hash) items

  pub contains-keep_new :
      (k : String) (ids : List String) (xs : List SourceItem)
      → contains k (keys (keep_new name_hash ids xs))
        ≡ (contains k (keys xs) && not (contains k ids))
  unfolding keep_new
  contains-keep_new k ids [] = refl
  contains-keep_new k ids (x ∷ xs) = elim (Bool-cases (contains (evidence_key name_hash x) ids)) [
    | inl seen ↦
        rw (seen, keep_new)
          (ground (arith, contains-keep_new k ids xs, eq_iff k (evidence_key name_hash x)))
    | inr new ↦
        rw (new, keep_new)
          (ground (
            arith,
            contains-keep_new k (evidence_key name_hash x ∷ ids) xs,
            eq_iff k (evidence_key name_hash x),
          ))
  ]

  pub all_distinct-keep_new :
      (ids : List String) (xs : List SourceItem)
      → all_distinct (keys (keep_new name_hash ids xs)) ≡ true
  unfolding keep_new
  all_distinct-keep_new ids [] = refl
  all_distinct-keep_new ids (x ∷ xs) = elim (Bool-cases (contains (evidence_key name_hash x) ids)) [
    | inl seen ↦ rw (seen, keep_new) (all_distinct-keep_new ids xs)
    | inr new ↦
        let key = evidence_key name_hash x in
        rw (new, keep_new)
          (ground (
            arith,
            all_distinct-keep_new (key ∷ ids) xs,
            contains-keep_new key (key ∷ ids) xs,
            eq_iff key key,
          ))
  ]

  pub any-keep_new :
      (p : SourceItem → Bool) (ids : List String) (xs : List SourceItem)
      → any p (keep_new name_hash ids xs) ≡ true
      → any p xs ≡ true
  unfolding keep_new
  any-keep_new p ids [] h = h
  any-keep_new p ids (x ∷ xs) h = elim (Bool-cases (contains (evidence_key name_hash x) ids)) [
    | inl seen ↦ ground (arith, any-keep_new p ids xs (rw (seen, keep_new) at h))
    | inr new ↦ ground (arith, any-keep_new p (evidence_key name_hash x ∷ ids) xs)
  ]

  contains-insert_sorted :
      (k : String) (order : SourceItem → SourceItem → Ordering) (x : SourceItem)
      (xs : List SourceItem)
      → contains k (keys (insert_sorted order x xs)) ≡ contains k (keys (x ∷ xs))
  unfolding insert_sorted
  contains-insert_sorted k order x [] = refl
  contains-insert_sorted k order x (y ∷ ys) = ground (arith, contains-insert_sorted k order x ys)

  pub contains-sorted :
      (k : String) (order : SourceItem → SourceItem → Ordering) (xs : List SourceItem)
      → contains k (keys (sorted order xs)) ≡ contains k (keys xs)
  unfolding sorted
  contains-sorted k order [] = refl
  contains-sorted k order (x ∷ xs) =
      ground (arith, contains-insert_sorted k order x (sorted order xs), contains-sorted k order xs)

  contains-put_item :
      (k : String) (x : SourceItem) (xs : List SourceItem)
      → contains k (keys (put_item name_hash x xs)) ≡ contains k (keys (x ∷ xs))
  unfolding put_item
  contains-put_item k x [] = refl
  contains-put_item k x (y ∷ ys) = ground (
    arith,
    contains-put_item k x ys,
    eq_iff (evidence_key name_hash y) (evidence_key name_hash x),
  )

  pub contains-put_items :
      (k : String) (found xs : List SourceItem)
      → contains k (keys (put_items name_hash found xs))
        ≡ (contains k (keys found) || contains k (keys xs))
  unfolding put_items
  contains-put_items k found [] = ground arith
  contains-put_items k found (x ∷ xs) =
      ground
        (arith, contains-put_item k x found, contains-put_items k (put_item name_hash x found) xs)

  pub contains-filter :
      (k : String) (q : SourceItem → Bool) (xs : List SourceItem)
      → contains k (keys (filter q xs)) ≡ true
      → contains k (keys xs) ≡ true
  contains-filter k q [] h = h
  contains-filter k q (x ∷ xs) h = ground (arith, contains-filter k q xs)

  pub contains-find_first :
      (k : String) (q : SourceItem → Bool) (xs : List SourceItem)
      → contains k (keys (listed (find_first q xs))) ≡ true
      → contains k (keys xs) ≡ true
  contains-find_first k q [] h = h
  contains-find_first k q (x ∷ xs) h = ground (arith, contains-find_first k q xs)

  pub contains_append :
      (k : String) (xs ys : List SourceItem)
      → contains k (keys (xs ++ ys)) ≡ (contains k (keys xs) || contains k (keys ys))
  contains_append k [] ys = refl
  contains_append k (x ∷ xs) ys = ground (arith, contains_append k xs ys)

  -- A list is cut into what is taken and what is dropped, and a key that stands once is on one side.
  pub contains-take :
      (k : String) (n : ℕ) (xs : List SourceItem)
      → contains k (keys xs) ≡ (contains k (keys (take n xs)) || contains k (keys (drop n xs)))
  contains-take k zero xs = refl
  contains-take k (suc n) [] = refl
  contains-take k (suc n) (x ∷ xs) = ground (arith, contains-take k n xs)

  pub all_distinct-take :
      (k : String) (n : ℕ) (xs : List SourceItem)
      → all_distinct (keys xs) ≡ true
      → (all_distinct (keys (take n xs)) ≡ true)
        × (contains k (keys (take n xs)) ≡ true → contains k (keys (drop n xs)) ≡ false)
  all_distinct-take k zero xs d = (refl, λ h. cc)
  all_distinct-take k (suc n) [] d = (refl, λ h. cc)
  all_distinct-take k (suc n) (x ∷ xs) d =
      let (distinct, apart) = all_distinct-take k n xs (ground arith) in
      (
        ground (arith, distinct, contains-take (evidence_key name_hash x) n xs),
        λ h. ground (
          arith,
          apart,
          eq_iff k (evidence_key name_hash x),
          contains-take (evidence_key name_hash x) n xs,
        ),
      )

  pub contains-reversed :
      (k : String) (names : List String) → contains k (reversed names) ≡ contains k names
  unfolding reversed
  contains-reversed k [] = refl
  contains-reversed k (name ∷ names) =
      ground (arith, contains-append k (reversed names) (name ∷ []), contains-reversed k names)
