-- ===== src/Relation/Item.antt =====
-- What lib/intelligence/relationships.py reads of a `SourceItem` (lib/intelligence/normalize.py).
-- A metadata value that is not a text is given as its `str`.
use Prim.Native.Nat.{compare, Ordering}
use Prim.Native.String.{compare as compare_texts}
use stocks_agent.Common.{
  or_then, ℕ, Bool, false, ◌&&◌, ◌||◌, Option, none, some, List, [], ◌∷◌, String, any,
  if◌then◌else◌, str_eq, contains,
}
use stocks_agent.Relation.Text.{strip}

pub record SourceItem : Type 0 where
  pub provider : String
  pub upstream_item_id : Option String
  pub title : String
  pub summary : String
  pub item_id : Option String
  pub content_hash : String
  pub canonical_content : String
  pub authority : String
  pub claim_polarity : String
  -- The attribute that some items have, and the entries of `metadata`.
  pub exposure_kind_attribute : Option String
  pub exposure_kind_metadata : Option String
  pub claim_polarity_metadata : Option String
  pub adverse_path_metadata : Bool
  pub role_metadata : Option String

abbrev pub exposure_kinds : List String
exposure_kinds = "filing" ∷ "contract" ∷ "backlog" ∷ "revenue" ∷ "capacity" ∷ "official_fund" ∷ []

abbrev pub is_text : String → Option String → Bool
is_text text none = false
is_text text (some value) = str_eq value text

-- `direct if direct is not None else item.metadata.get("exposure_kind")`
abbrev pub or_metadata : Option String → Option String → Option String
or_metadata none metadata = metadata
or_metadata (some direct) metadata = some direct

-- `_is_adverse`
unfoldable pub is_adverse : SourceItem → Bool
is_adverse item =
    str_eq item.claim_polarity "denied"
    || is_text "denied" item.claim_polarity_metadata
    || item.adverse_path_metadata
    || is_text "opposing" item.role_metadata

-- `{"official": 0, …}.get(item.authority, 4)`
unfoldable pub authority_rank : String → ℕ
authority_rank authority =
    if str_eq authority "official"
    then 0
    else if str_eq authority "corroborating"
    then 1
    else if str_eq authority "market_data"
    then 2
    else if str_eq authority "radar"
    then 3
    else 4

module _ (casefold : String → String) where
  -- `str(value).strip().casefold() if value else None`
  unfoldable pub kind_of_value : Option String → Option String
  kind_of_value none = none
  kind_of_value (some value) = if str_eq value "" then none else some (casefold (strip value))

  unfoldable pub exposure_kind : SourceItem → Option String
  exposure_kind item =
      kind_of_value (or_metadata item.exposure_kind_attribute item.exposure_kind_metadata)

  abbrev pub is_exposure_kind : Option String → Bool
  is_exposure_kind none = false
  is_exposure_kind (some kind) = contains kind exposure_kinds

  unfoldable pub is_exposure : SourceItem → Bool
  is_exposure item = str_eq item.authority "official" && is_exposure_kind (exposure_kind item)

  unfoldable pub qualifies_exposure : List SourceItem → Bool
  qualifies_exposure items = any is_exposure items

-- `name_hash` is the UUID that names a content hash.
module _ (name_hash : String → String) where
  unfoldable pub key_of_supplied : Option String → String → String
  key_of_supplied none content_hash = name_hash content_hash
  key_of_supplied (some supplied) content_hash =
      if str_eq supplied "" then name_hash content_hash else supplied

  -- `evidence_key` of lib/intelligence/themes.py
  unfoldable pub evidence_key : SourceItem → String
  evidence_key item = key_of_supplied item.item_id item.content_hash

  -- `_evidence_priority`
  unfoldable pub compare_priority : SourceItem → SourceItem → Ordering
  compare_priority a b =
      or_then (compare (authority_rank a.authority) (authority_rank b.authority))
        (compare_texts (evidence_key a) (evidence_key b))
