-- ===== src/Dedupe/Exact.antt =====
-- What `deduplicate` of lib/intelligence/dedupe.py makes of each item, by what is retained before it.
use stocks_agent.Common.{
  ◌≡◌, refl, ap, sym, ◌∙◌, ◌⊎◌, inl, inr, Bool, true, false, not, ◌&&◌, Option, List, [], ◌∷◌, ◌++◌,
  String, any, filter, arith, both, of_not, Bool-cases, IsIn,
}
use stocks_agent.Relation.Item.{SourceItem}
use stocks_agent.Dedupe.Disposition.{
  Disposition, accepted, duplicate, near_duplicate, contradicts, is_upstream_match, is_hash_match,
  agrees_with, is_near_duplicate, disposition_of, dispose, deduplicate,
}
use stocks_agent.Dedupe.Retained.{retained_items, row_with}
use stocks_agent.Dedupe.Justified.{agrees_with-found, agrees_with-intro}
use stocks_agent.Dedupe.Replay.{deduplicate-append}

-- Of those retained, one has the identity of the item, and none that has it contradicts the item.
abbrev pub IsKnownBy : (SourceItem → Bool) → List SourceItem → SourceItem → Type 0
IsKnownBy identifies retained item =
    ((k : SourceItem) × IsIn k retained × (identifies k ≡ true))
    × ((k : SourceItem) → IsIn k retained → identifies k ≡ true → contradicts item k ≡ false)

-- The item is known by its provider and upstream identifier, or by its content hash.
abbrev pub IsKnown : List SourceItem → SourceItem → Type 0
IsKnown retained item =
    IsKnownBy (is_upstream_match item) retained item ⊎ IsKnownBy (is_hash_match item) retained item

module _ (casefold : String → String) where
  -- One of those retained has a similar text and does not contradict the item.
  abbrev pub IsSimilar : List SourceItem → SourceItem → Type 0
  IsSimilar retained item =
      (k : SourceItem) × IsIn k retained
      × (contradicts item k ≡ false)
      × (is_near_duplicate casefold item k ≡ true)

  -- What an item is, by those retained before it.
  abbrev pub IsDisposed : List SourceItem → SourceItem → Disposition → Type 0
  IsDisposed retained item duplicate = IsKnown retained item
  IsDisposed retained item near_duplicate = (¬ IsKnown retained item) × IsSimilar retained item
  IsDisposed retained item accepted = (¬ IsKnown retained item) × (¬ IsSimilar retained item)

  abbrev is_similar : SourceItem → SourceItem → Bool
  is_similar item canonical =
      not (contradicts item canonical) && is_near_duplicate casefold item canonical

  any-found :
      (p : SourceItem → Bool) (xs : List SourceItem)
      → any p xs ≡ true
      → (k : SourceItem) × IsIn k xs × (p k ≡ true)
  any-found p [] h = absurd (ground arith)
  any-found p (x ∷ xs) h = elim (Bool-cases (p x)) [
    | inl here ↦ (x, inl refl, here)
    | inr other ↦ let (k, at, found) = any-found p xs (rw other at h) in (k, inr at, found)
  ]

  any-intro :
      (p : SourceItem → Bool) (xs : List SourceItem) (k : SourceItem)
      → IsIn k xs
      → p k ≡ true
      → any p xs ≡ true
  any-intro p [] k here found = absurd here
  any-intro p (x ∷ xs) k (inl e) found = rw (ap p (sym e) ∙ found) refl
  any-intro p (x ∷ xs) k (inr there) found = ground (arith, any-intro p xs k there found)

  any-filter-intro :
      (q p : SourceItem → Bool) (xs : List SourceItem) (k : SourceItem)
      → IsIn k xs
      → p k ≡ true
      → q k ≡ true
      → any q (filter p xs) ≡ true
  any-filter-intro q p [] k here found holds = absurd here
  any-filter-intro q p (x ∷ xs) k (inl e) found holds =
      rw (ap p (sym e) ∙ found) (rw (ap q (sym e) ∙ holds) refl)
  any-filter-intro q p (x ∷ xs) k (inr there) found holds = elim (Bool-cases (p x)) [
    | inl kept ↦ rw kept (ground (arith, any-filter-intro q p xs k there found holds))
    | inr dropped ↦ rw dropped (any-filter-intro q p xs k there found holds)
  ]

  none_contradicts :
      (item : SourceItem) (p : SourceItem → Bool) (xs : List SourceItem)
      → any (contradicts item) (filter p xs) ≡ false
      → (k : SourceItem) → IsIn k xs
      → p k ≡ true
      → contradicts item k ≡ false
  none_contradicts item p xs h k here found = elim (Bool-cases (contradicts item k)) [
    | inl denied ↦
        let denial = any-filter-intro (contradicts item) p xs k here found denied in absurd cc
    | inr agrees ↦ agrees
  ]

  agrees_with-IsKnownBy :
      (item : SourceItem) (p : SourceItem → Bool) (retained : List SourceItem)
      → agrees_with item (filter p retained) ≡ true
      → IsKnownBy p retained item
  agrees_with-IsKnownBy item p retained h =
      let (k, at, found, _) = agrees_with-found item p retained h in
      ((k, at, found), none_contradicts item p retained (of_not (both h).1))

  unknown :
      (item : SourceItem) (p : SourceItem → Bool) (retained : List SourceItem)
      → agrees_with item (filter p retained) ≡ false
      → ¬ IsKnownBy p retained item
  unknown item p retained h ((k, at, found), agrees) =
      let known = agrees_with-intro item p retained k at found agrees in cc

  not-IsKnown :
      (retained : List SourceItem) (item : SourceItem)
      → agrees_with item (filter (is_upstream_match item) retained) ≡ false
      → agrees_with item (filter (is_hash_match item) retained) ≡ false
      → ¬ IsKnown retained item
  not-IsKnown retained item other different (inl known) =
      unknown item (is_upstream_match item) retained other known
  not-IsKnown retained item other different (inr known) =
      unknown item (is_hash_match item) retained different known

  IsSimilar-found :
      (retained : List SourceItem) (item : SourceItem)
      → any (is_similar item) retained ≡ true
      → IsSimilar retained item
  IsSimilar-found retained item near =
      let (k, at, found) = any-found (is_similar item) retained near in
      let (agrees, close) = both found in (k, at, of_not agrees, close)

  not-IsSimilar :
      (retained : List SourceItem) (item : SourceItem)
      → any (is_similar item) retained ≡ false
      → ¬ IsSimilar retained item
  not-IsSimilar retained item apart (k, at, agrees, close) =
      let found = any-intro (is_similar item) retained k at (rw (agrees, close) refl) in cc

  disposition_of-IsDisposed :
      (retained : List SourceItem) (item : SourceItem)
      → IsDisposed retained item (disposition_of casefold retained item).0
  unfolding disposition_of
  disposition_of-IsDisposed retained item =
      elim (Bool-cases (agrees_with item (filter (is_upstream_match item) retained))) [
        | inl upstream ↦
            rw upstream
              (inl (agrees_with-IsKnownBy item (is_upstream_match item) retained upstream))
        | inr other ↦ elim (Bool-cases (agrees_with item (filter (is_hash_match item) retained))) [
          | inl hash ↦
              rw (other, hash) (inr (agrees_with-IsKnownBy item (is_hash_match item) retained hash))
          | inr different ↦ elim (Bool-cases (any (is_similar item) retained)) [
            | inl near ↦
                rw (other, different, near)
                  (not-IsKnown retained item other different, IsSimilar-found retained item near)
            | inr apart ↦
                rw (other, different, apart)
                  (not-IsKnown retained item other different, not-IsSimilar retained item apart)
          ]
        ]
      ]

  -- A new item is dropped exactly if one of those retained before it has its provider and upstream
  -- identifier, or its content hash, and none of those that have it contradicts the item. Otherwise it is a
  -- near duplicate exactly if one of those retained has a similar text and does not contradict it, and
  -- accepted if there is none. Accepted items and near duplicates are retained, and earlier rows stay.
  pub deduplicate-IsDisposed :
      (items : List SourceItem) (x : SourceItem)
      → (d : Disposition) × (reason : Option String) × (deduplicate casefold (items ++ x ∷ [])
          ≡ deduplicate casefold items ++ row_with casefold x (d, reason) ∷ [])
        × IsDisposed (retained_items (deduplicate casefold items)) x d
  unfolding dispose
  deduplicate-IsDisposed items x =
      let kept = retained_items (deduplicate casefold items) in
      let given = disposition_of casefold kept x in
      (
        given.0,
        given.1,
        deduplicate-append casefold items (x ∷ []),
        disposition_of-IsDisposed kept x,
      )
