-- ===== src/Dedupe/Retained.antt =====
-- Which items `deduplicate` of lib/intelligence/dedupe.py retains, and why it drops the others.
use stocks_agent.Common.{
  ◌≡◌, refl, ap, ◌∙◌, Bool, true, false, Option, List, [], ◌∷◌, ◌++◌, map, String, filter,
}
use stocks_agent.Relation.Item.{SourceItem}
use stocks_agent.Dedupe.Disposition.{
  Disposition, accepted, duplicate, near_duplicate, RunItemDisposition, disposition_of, retains,
  dispose, deduplicate,
}

abbrev pub is_retained : Disposition → Bool
is_retained duplicate = false
is_retained near_duplicate = true
is_retained accepted = true

abbrev pub retained_rows : List RunItemDisposition → List RunItemDisposition
retained_rows rows = filter (λ row. is_retained row.disposition) rows

-- The items of the rows that are retained.
abbrev pub retained_items : List RunItemDisposition → List SourceItem
retained_items rows = map (λ (row : RunItemDisposition). row.item) (retained_rows rows)

module _ (casefold : String → String) where
  abbrev row_of : (retained : List SourceItem) → SourceItem → RunItemDisposition
  row_of retained item = record {
    item = item;
    disposition = (disposition_of casefold retained item).0;
    reason = (disposition_of casefold retained item).1;
  }

  dispose-items :
      (retained items : List SourceItem)
      → map (λ (row : RunItemDisposition). row.item) (dispose casefold retained items) ≡ items
  unfolding dispose
  dispose-items retained [] = refl
  dispose-items retained (item ∷ items) =
      ap (λ rest. item ∷ rest)
        (dispose-items (retains casefold (disposition_of casefold retained item).0 item retained)
          items)

  -- Every item has a row, in the order of the items.
  pub deduplicate-items :
      (items : List SourceItem)
      → map (λ (row : RunItemDisposition). row.item) (deduplicate casefold items) ≡ items
  unfolding deduplicate
  deduplicate-items items = dispose-items [] items

  abbrev pub row_with : SourceItem → Disposition × Option String → RunItemDisposition
  row_with item given = record { item = item; disposition = given.0; reason = given.1 }

  dispose-retained :
      (retained : List SourceItem) (item : SourceItem) (items : List SourceItem)
      (given : Disposition × Option String)
      → is_retained given.0 ≡ true
      → disposition_of casefold retained item ≡ given
      → dispose casefold
          (retained ++ item ∷ [])
          (retained_items (dispose casefold (retained ++ item ∷ []) items))
        ≡ retained_rows (dispose casefold (retained ++ item ∷ []) items)
      → retains casefold given.0 item retained ≡ retained ++ item ∷ []
      → dispose casefold retained
          (item ∷ retained_items (dispose casefold (retained ++ item ∷ []) items))
        ≡ row_with item given ∷ retained_rows (dispose casefold (retained ++ item ∷ []) items)
  unfolding dispose
  dispose-retained retained item items given kept same rest grown =
      (λ i.
        row_with item (same i)
        ∷ dispose casefold (retains casefold (same i).0 item retained)
            (retained_items (dispose casefold (retained ++ item ∷ []) items)))
      ∙ (λ i.
          row_with item given
          ∷ dispose casefold (grown i)
              (retained_items (dispose casefold (retained ++ item ∷ []) items)))
      ∙ ap (λ rows. row_with item given ∷ rows) rest

  dispose_idempotent :
      (retained : List SourceItem) (item : SourceItem) (items : List SourceItem) (d : Disposition)
      (reason : Option String)
      → disposition_of casefold retained item ≡ (d, reason)
      → dispose casefold
          (retains casefold d item retained)
          (retained_items (dispose casefold (retains casefold d item retained) items))
        ≡ retained_rows (dispose casefold (retains casefold d item retained) items)
      → dispose casefold retained (
          retained_items
            (row_with item (d, reason) ∷ dispose casefold (retains casefold d item retained) items))
        ≡ retained_rows
            (row_with item (d, reason) ∷ dispose casefold (retains casefold d item retained) items)
  dispose_idempotent retained item items duplicate reason same rest = rest
  dispose_idempotent retained item items near_duplicate reason same rest =
      dispose-retained retained item items (near_duplicate, reason) refl same rest refl
  dispose_idempotent retained item items accepted reason same rest =
      dispose-retained retained item items (accepted, reason) refl same rest refl

  dispose-retained_items :
      (retained items : List SourceItem)
      → dispose casefold retained (retained_items (dispose casefold retained items))
        ≡ retained_rows (dispose casefold retained items)
  unfolding dispose
  dispose-retained_items retained [] = refl
  dispose-retained_items retained (item ∷ items) =
      dispose_idempotent retained item items (disposition_of casefold retained item).0
        (disposition_of casefold retained item).1 refl
        (dispose-retained_items
          (retains casefold (disposition_of casefold retained item).0 item retained) items)

  -- What is retained of items is retained again, with the same dispositions and reasons: what was dropped
  -- makes no difference.
  pub deduplicate-retained_items :
      (items : List SourceItem)
      → deduplicate casefold (retained_items (deduplicate casefold items))
        ≡ retained_rows (deduplicate casefold items)
  unfolding deduplicate
  deduplicate-retained_items items = dispose-retained_items [] items
