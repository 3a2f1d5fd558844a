-- ===== src/Dedupe/Replay.antt =====
-- What `deduplicate` of lib/intelligence/dedupe.py does with repeated items.
use stocks_agent.Common.{
  ◌≡◌, refl, ap, sym, ◌∙◌, ◌⊎◌, inl, inr, true, false, Option, some, List, [], ◌∷◌, ◌++◌, String,
  arith, str_eq_self, All, IsIn,
}
use stocks_agent.Relation.Item.{SourceItem}
use stocks_agent.Dedupe.Disposition.{
  Disposition, accepted, duplicate, near_duplicate, RunItemDisposition, contradicts, is_hash_match,
  disposition_of, retains, dispose, deduplicate,
}
use stocks_agent.Dedupe.Retained.{retained_items, row_with}
use stocks_agent.Dedupe.Justified.{
  IsRepeated, is_duplicate, disposition_of-IsRepeated, disposition_of-duplicate, agrees_with-intro,
}

IsIn-append :
    (k x : SourceItem) (xs : List SourceItem) → IsIn k (xs ++ x ∷ []) → IsIn k xs ⊎ (k ≡ x)
IsIn-append k x [] (inl e) = inr e
IsIn-append k x [] (inr h) = absurd h
IsIn-append k x (y ∷ xs) (inl e) = inl (inl e)
IsIn-append k x (y ∷ xs) (inr there) = elim (IsIn-append k x xs there) [
  | inl h ↦ inl (inr h)
  | inr e ↦ inr e
]

append_assoc : (xs ys zs : List SourceItem) → (xs ++ ys) ++ zs ≡ xs ++ (ys ++ zs)
append_assoc [] ys zs = refl
append_assoc (x ∷ xs) ys zs = ap (λ rest. x ∷ rest) (append_assoc xs ys zs)

module _ (casefold : String → String) where
  -- Those retained before an item and those after it, whatever its disposition.
  retains-retained_items :
      (retained : List SourceItem) (item : SourceItem) (given : Disposition × Option String)
      (rows : List RunItemDisposition)
      → retains casefold given.0 item retained ++ retained_items rows
        ≡ retained ++ retained_items (row_with casefold item given ∷ rows)
  retains-retained_items retained item (duplicate, reason) rows = refl
  retains-retained_items retained item (near_duplicate, reason) rows =
      append_assoc retained (item ∷ []) (retained_items rows)
  retains-retained_items retained item (accepted, reason) rows =
      append_assoc retained (item ∷ []) (retained_items rows)

  dispose-append :
      (retained xs ys : List SourceItem)
      → dispose casefold retained (xs ++ ys)
        ≡ dispose casefold retained xs
          ++ dispose casefold (retained ++ retained_items (dispose casefold retained xs)) ys
  unfolding dispose
  dispose-append retained [] ys = ap (λ kept. dispose casefold kept ys) (sym (append_nil retained))
    where
      append_nil : (zs : List SourceItem) → zs ++ [] ≡ zs
      append_nil [] = refl
      append_nil (z ∷ zs) = ap (λ rest. z ∷ rest) (append_nil zs)
  dispose-append retained (x ∷ xs) ys =
      let given = disposition_of casefold retained x in
      let rows = dispose casefold (retains casefold given.0 x retained) xs in
      ap (λ rest. row_with casefold x given ∷ rest)
        (dispose-append (retains casefold given.0 x retained) xs ys
          ∙ ap (λ kept. rows ++ dispose casefold kept ys)
              (retains-retained_items retained x given rows))

  -- The dispositions of the first items do not depend on the later ones, and those of the later ones only on
  -- what is retained of the first.
  pub deduplicate-append :
      (xs ys : List SourceItem)
      → deduplicate casefold (xs ++ ys)
        ≡ deduplicate casefold xs ++ dispose casefold (retained_items (deduplicate casefold xs)) ys
  unfolding deduplicate
  deduplicate-append xs ys = dispose-append [] xs ys

  contradicts_itself : (x : SourceItem) → contradicts x x ≡ false
  unfolding contradicts
  contradicts_itself x = ground (arith, str_eq_self x.claim_polarity)

  -- If an item that is retained comes again at the end, and no retained item of the same content hash
  -- contradicts it, it is dropped as a duplicate.
  pub deduplicate_replay :
      (items : List SourceItem) (x : SourceItem)
      → IsIn x (retained_items (deduplicate casefold items))
      → ((k : SourceItem)
          → IsIn k (retained_items (deduplicate casefold items))
          → is_hash_match x k ≡ true
          → contradicts x k ≡ false)
      → (reason : String) × (deduplicate casefold (items ++ x ∷ [])
          ≡ deduplicate casefold items ++ row_with casefold x (duplicate, some reason) ∷ [])
  unfolding dispose
  deduplicate_replay items x here agrees =
      let kept = retained_items (deduplicate casefold items) in
      let (reason, same) =
        disposition_of-duplicate casefold kept x
          (agrees_with-intro x (is_hash_match x) kept x here (str_eq_self x.content_hash) agrees) in
      (
        reason,
        deduplicate-append items (x ∷ [])
            ∙ ap (λ given. deduplicate casefold items ++ row_with casefold x given ∷ []) same,
      )

  dispose-IsRepeated :
      (all_items retained items : List SourceItem)
      → ((k : SourceItem) → IsIn k retained → IsIn k all_items)
      → ((k : SourceItem)
          → IsIn k (retained_items (dispose casefold retained items))
          → IsIn k all_items)
      → All
          (λ (row : RunItemDisposition).
            is_duplicate row.disposition ≡ true → IsRepeated all_items row.item)
          (dispose casefold retained items)
  unfolding dispose
  dispose-IsRepeated all_items retained [] f g = tt
  dispose-IsRepeated all_items retained (item ∷ items) f g =
      let given = disposition_of casefold retained item in
      let rows = dispose casefold (retains casefold given.0 item retained) items in
      (
        λ dropped. widened (disposition_of-IsRepeated casefold retained item dropped),
        dispose-IsRepeated all_items (retains casefold given.0 item retained) items
            (λ k at. grown given rows g k at) (λ k at. g k (onward given rows k at)),
      )
    where
      widened : IsRepeated retained item → IsRepeated all_items item
      widened (k, at, found, agrees) = (k, f k at, found, agrees)

      onward :
          (given : Disposition × Option String) (rows : List RunItemDisposition) (k : SourceItem)
          → IsIn k (retained_items rows)
          → IsIn k (retained_items (row_with casefold item given ∷ rows))
      onward (duplicate, reason) rows k at = at
      onward (near_duplicate, reason) rows k at = inr at
      onward (accepted, reason) rows k at = inr at

      grown :
          (given : Disposition × Option String) (rows : List RunItemDisposition)
          → ((k : SourceItem)
              → IsIn k (retained_items (row_with casefold item given ∷ rows))
              → IsIn k all_items)
          → (k : SourceItem) → IsIn k (retains casefold given.0 item retained)
          → IsIn k all_items
      grown (duplicate, reason) rows g1 k at = f k at
      grown (near_duplicate, reason) rows g1 k at = elim (IsIn-append k item retained at) [
        | inl before ↦ f k before
        | inr e ↦ g1 k (inl e)
      ]
      grown (accepted, reason) rows g1 k at = elim (IsIn-append k item retained at) [
        | inl before ↦ f k before
        | inr e ↦ g1 k (inl e)
      ]

  -- An item is dropped as a duplicate only where a retained item has its provider and upstream identifier,
  -- or its content hash, and is not contradicted by it.
  pub deduplicate-IsRepeated :
      (items : List SourceItem)
      → All
          (λ (row : RunItemDisposition).
            is_duplicate row.disposition ≡ true
            → IsRepeated (retained_items (deduplicate casefold items)) row.item)
          (deduplicate casefold items)
  unfolding deduplicate
  deduplicate-IsRepeated items =
      dispose-IsRepeated (retained_items (dispose casefold [] items)) [] items (λ k h. absurd h)
        (λ k at. at)
