-- ===== src/Dedupe/Justified.antt =====
-- Why `deduplicate` of lib/intelligence/dedupe.py drops an item.
use stocks_agent.Common.{
  ◌≡◌, refl, ap, sym, ◌∙◌, ◌⊎◌, inl, inr, Bool, true, false, some, List, [], ◌∷◌, String, any,
  filter, arith, Bool-cases, IsIn,
}
use stocks_agent.Relation.Item.{SourceItem}
use stocks_agent.Dedupe.Disposition.{
  Disposition, accepted, duplicate, near_duplicate, contradicts, is_upstream_match, is_hash_match,
  has_items, agrees_with, disposition_of,
}

-- Of the retained items that match, there is one, and none contradicts.
pub agrees_with-found :
    (item : SourceItem) (p : SourceItem → Bool) (retained : List SourceItem)
    → agrees_with item (filter p retained) ≡ true
    → (k : SourceItem) × IsIn k retained × (p k ≡ true) × (contradicts item k ≡ false)
agrees_with-found item p [] h = absurd (ground arith)
agrees_with-found item p (x ∷ retained) h = elim (Bool-cases (p x)) [
  | inl here ↦ (x, inl refl, here, first (rw here at h))
  | inr apart ↦
      let (k, at, found, agrees) = agrees_with-found item p retained (rw apart at h) in
      (k, inr at, found, agrees)
]
  where
    first : agrees_with item (x ∷ filter p retained) ≡ true → contradicts item x ≡ false
    first e = ground (arith, e)

pub agrees_with-intro :
    (item : SourceItem) (p : SourceItem → Bool) (retained : List SourceItem) (k : SourceItem)
    → IsIn k retained
    → p k ≡ true
    → ((x : SourceItem) → IsIn x retained → p x ≡ true → contradicts item x ≡ false)
    → agrees_with item (filter p retained) ≡ true
agrees_with-intro item p retained k here found agrees =
    ground (arith, has_items_filter retained here, none_contradicts retained agrees)
  where
    has_items_filter : (xs : List SourceItem) → IsIn k xs → has_items (filter p xs) ≡ true
    has_items_filter (x ∷ xs) (inl e) = rw (ap p (sym e) ∙ found) refl
    has_items_filter (x ∷ xs) (inr there) = elim (Bool-cases (p x)) [
      | inl kept ↦ rw kept refl
      | inr dropped ↦ rw dropped (has_items_filter xs there)
    ]
    has_items_filter [] h = absurd h

    none_contradicts :
        (xs : List SourceItem)
        → ((x : SourceItem) → IsIn x xs → p x ≡ true → contradicts item x ≡ false)
        → any (contradicts item) (filter p xs) ≡ false
    none_contradicts [] f = refl
    none_contradicts (x ∷ xs) f = elim (Bool-cases (p x)) [
      | inl kept ↦ rw (kept, f x (inl refl) kept) (none_contradicts xs (λ y at. f y (inr at)))
      | inr dropped ↦ rw dropped (none_contradicts xs (λ y at. f y (inr at)))
    ]

-- The identity of one of the items, which is not contradicted.
abbrev pub IsRepeated : List SourceItem → SourceItem → Type 0
IsRepeated items item =
    (k : SourceItem) × IsIn k items
    × ((is_upstream_match item k ≡ true) ⊎ (is_hash_match item k ≡ true))
    × (contradicts item k ≡ false)

abbrev pub is_duplicate : Disposition → Bool
is_duplicate duplicate = true
is_duplicate near_duplicate = false
is_duplicate accepted = false

module _ (casefold : String → String) where
  pub disposition_of-IsRepeated :
      (retained : List SourceItem) (item : SourceItem)
      → is_duplicate (disposition_of casefold retained item).0 ≡ true
      → IsRepeated retained item
  unfolding disposition_of
  disposition_of-IsRepeated retained item h =
      elim (Bool-cases (agrees_with item (filter (is_upstream_match item) retained))) [
        | inl upstream ↦
            let (k, at, found, agrees) =
              agrees_with-found item (is_upstream_match item) retained upstream in
            (k, at, inl found, agrees)
        | inr other ↦ elim (Bool-cases (agrees_with item (filter (is_hash_match item) retained))) [
          | inl hash ↦
              let (k, at, found, agrees) =
                agrees_with-found item (is_hash_match item) retained hash in
              (k, at, inr found, agrees)
          | inr different ↦ absurd (ground arith)
        ]
      ]

  pub disposition_of-duplicate :
      (retained : List SourceItem) (item : SourceItem)
      → agrees_with item (filter (is_hash_match item) retained) ≡ true
      → (reason : String) × (disposition_of casefold retained item ≡ (duplicate, some reason))
  unfolding disposition_of
  disposition_of-duplicate retained item h =
      elim (Bool-cases (agrees_with item (filter (is_upstream_match item) retained))) [
        | inl upstream ↦ ("same_upstream_item_id", rw upstream refl)
        | inr other ↦ ("same_content_hash", rw (other, h) refl)
      ]
