-- ===== src/Dedupe/Disposition.antt =====
-- `deduplicate` of lib/intelligence/dedupe.py. `casefold` is `str.casefold`.
use Prim.Native.String.{◌++◌ as append_text}
use stocks_agent.Common.{
  Bool, true, false, not, ◌&&◌, ◌||◌, Option, none, some, List, [], ◌∷◌, ◌++◌, String, any, filter,
  codes, if◌then◌else◌, str_eq,
}
use stocks_agent.Relation.Item.{SourceItem}
use stocks_agent.Dedupe.Ratio.{is_near}

pub data Disposition : Type 0 where
  accepted duplicate near_duplicate : Disposition

pub record RunItemDisposition : Type 0 where
  pub item : SourceItem
  pub disposition : Disposition
  pub reason : Option String

-- The texts that `_near_duplicate` compares.
abbrev pub text_of : SourceItem → String
text_of item = append_text item.title (append_text "\n" item.summary)

abbrev pub is_claim : String → Bool
is_claim polarity = str_eq polarity "affirmed" || str_eq polarity "denied"

unfoldable pub contradicts : SourceItem → SourceItem → Bool
contradicts left right =
    is_claim left.claim_polarity
    && is_claim right.claim_polarity
    && not (str_eq left.claim_polarity right.claim_polarity)

-- Whether an item that is retained has the upstream identity of this one.
abbrev pub has_upstream : Option String → Option String → Bool
has_upstream none other = false
has_upstream (some id) none = false
has_upstream (some id) (some other) = not (str_eq id "") && str_eq other id

abbrev pub is_upstream_match : SourceItem → SourceItem → Bool
is_upstream_match item canonical =
    has_upstream item.upstream_item_id canonical.upstream_item_id
    && str_eq canonical.provider item.provider

abbrev pub is_hash_match : SourceItem → SourceItem → Bool
is_hash_match item canonical = str_eq canonical.content_hash item.content_hash

abbrev pub has_items : List SourceItem → Bool
has_items [] = false
has_items (item ∷ items) = true

-- `matches and not any(_contradicts(item, canonical) for canonical in matches)`
abbrev pub agrees_with : SourceItem → List SourceItem → Bool
agrees_with item matches = has_items matches && not (any (contradicts item) matches)

module _ (casefold : String → String) where
  unfoldable pub is_near_duplicate : SourceItem → SourceItem → Bool
  is_near_duplicate left right =
      is_near (codes (casefold (text_of left))) (codes (casefold (text_of right)))

  -- The disposition of an item and its reason, by those that are retained.
  unfoldable pub disposition_of :
      (retained : List SourceItem) → SourceItem → Disposition × Option String
  disposition_of retained item =
      if agrees_with item (filter (is_upstream_match item) retained)
      then (duplicate, some "same_upstream_item_id")
      else if agrees_with item (filter (is_hash_match item) retained)
      then (duplicate, some "same_content_hash")
      else if any
          (λ canonical. not (contradicts item canonical) && is_near_duplicate item canonical)
          retained
      then (near_duplicate, some "similar_normalized_content")
      else (accepted, none)

  abbrev pub retains : Disposition → SourceItem → List SourceItem → List SourceItem
  retains duplicate item retained = retained
  retains near_duplicate item retained = retained ++ item ∷ []
  retains accepted item retained = retained ++ item ∷ []

  -- The loop over the items, from those that are retained.
  unfoldable pub dispose : (retained : List SourceItem) → List SourceItem → List RunItemDisposition
  dispose retained [] = []
  dispose retained (item ∷ items) =
      let (disposition, reason) = disposition_of retained item in
      record { item = item; disposition = disposition; reason = reason }
      ∷ dispose (retains disposition item retained) items

  unfoldable pub deduplicate : List SourceItem → List RunItemDisposition
  deduplicate items = dispose [] items
