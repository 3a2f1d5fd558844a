-- ===== src/Ranking/Evidence.antt =====
-- The evidence of a candidate and of its relation in lib/intelligence/ranking.py.
use stocks_agent.Common.{
  Bool, true, false, not, ◌&&◌, Option, none, some, List, [], ◌∷◌, String, all, if◌then◌else◌,
  str_eq,
}
use stocks_agent.Relation.Item.{SourceItem, evidence_key}
use stocks_agent.Relation.Proposal.{EventRelationship}

abbrev pub Index : Type 0
Index = List (String × SourceItem)

abbrev pub has_same_content : SourceItem → SourceItem → Bool
has_same_content a b =
    str_eq a.content_hash b.content_hash && str_eq a.canonical_content b.canonical_content

unfoldable pub item_of : String → Index → Option SourceItem
item_of key [] = none
item_of key ((k, item) ∷ index) = if str_eq k key then some item else item_of key index

unfoldable pub put_indexed : String → SourceItem → Index → Index
put_indexed key item [] = (key, item) ∷ []
put_indexed key item ((k, old) ∷ index) =
    if str_eq k key then (k, item) ∷ index else (k, old) ∷ put_indexed key item index

abbrev pub conflicts : Option SourceItem → SourceItem → Bool
conflicts none item = false
conflicts (some prior) item = not (has_same_content prior item)

module _ (name_hash : String → String) where
  -- The loop of `_evidence_index`, from the index and `consistent`.
  unfoldable pub index_items : Index → Bool → List SourceItem → Index × Bool
  index_items index consistent [] = (index, consistent)
  index_items index consistent (item ∷ items) =
      let key = evidence_key name_hash item in
      elim (conflicts (item_of key index) item) [
        | true ↦ index_items index false items
        | false ↦ index_items (put_indexed key item index) consistent items
      ]

  unfoldable pub evidence_index : List SourceItem → Index × Bool
  evidence_index items = index_items [] true items

abbrev pub is_matched : Option SourceItem → SourceItem → Bool
is_matched none item = false
is_matched (some found) item = has_same_content found item

abbrev pub is_filled : Index → Bool
is_filled [] = false
is_filled (entry ∷ index) = true

-- `relation.exposure_evidence if relation is not None else ()`
abbrev pub exposure_items : Option EventRelationship → List SourceItem
exposure_items none = []
exposure_items (some relation) = relation.exposure_evidence

abbrev pub is_event_consistent : String → Option EventRelationship → Bool
is_event_consistent event_id none = true
is_event_consistent event_id (some relation) = str_eq event_id relation.event_id

-- Whether the first contract asks for the exposure evidence of a relation.
abbrev pub has_required_exposure : Bool → Option EventRelationship → Index → Bool
has_required_exposure true (some relation) exposure = is_filled exposure
has_required_exposure first none exposure = true
has_required_exposure false (some relation) exposure = true

-- `evidence_consistent`, of the two indexes.
unfoldable pub is_evidence_consistent :
    (first : Bool) → Option EventRelationship → Index × Bool → Index × Bool → Bool
is_evidence_consistent first relation (evidence, evidence_ok) (exposure, exposure_ok) =
    is_filled evidence
    && has_required_exposure first relation exposure
    && evidence_ok
    && exposure_ok
    && all (λ entry. is_matched (item_of entry.0 evidence) entry.1) exposure
