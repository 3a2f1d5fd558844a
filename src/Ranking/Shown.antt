-- ===== src/Ranking/Shown.antt =====
-- What consistent evidence in lib/intelligence/ranking.py shows of a relation.
use stocks_agent.Common.{
  ◌≡◌, refl, sym, subst, ◌∙◌, inl, inr, Bool, true, false, Option, none, some, List, [], ◌∷◌,
  String, all, arith, str_eq, Bool-cases, All, All-imp, IsIn,
}
use stocks_agent.Relation.Item.{SourceItem, evidence_key}
use stocks_agent.Relation.Proposal.{EventRelationship}
use stocks_agent.Ranking.Evidence.{
  Index, has_same_content, item_of, put_indexed, conflicts, index_items, evidence_index, is_matched,
  exposure_items, is_evidence_consistent,
}
use stocks_agent.Ranking.Indexed.{
  has_same_content_left, all-item_of, is_covered, index_items_step, evidence_index-is_covered,
}

All-self : (items : List SourceItem) → All (λ item. IsIn item items) items
All-self items = within items items (λ item here. here)
  where
    within :
        (all_items some_items : List SourceItem)
        → ((item : SourceItem) → IsIn item some_items → IsIn item all_items)
        → All (λ item. IsIn item all_items) some_items
    within all_items [] f = tt
    within all_items (x ∷ some_items) f =
        (f x (inl refl), within all_items some_items (λ item here. f item (inr here)))

module _ (name_hash : String → String) where
  -- The entries of an index are among some items.
  AreFrom : List SourceItem → Index → Type 0
  AreFrom all_items index = All (λ (entry : String × SourceItem). IsIn entry.1 all_items) index

  put_indexed-AreFrom :
      (all_items : List SourceItem) (key : String) (item : SourceItem) (index : Index)
      → IsIn item all_items
      → AreFrom all_items index
      → AreFrom all_items (put_indexed key item index)
  unfolding put_indexed AreFrom
  put_indexed-AreFrom all_items key item [] here h = (here, tt)
  put_indexed-AreFrom all_items key item ((k, old) ∷ index) here h =
      elim (Bool-cases (str_eq k key)) [
        | inl same ↦ rw same (here, h.1)
        | inr differs ↦
            rw (differs, put_indexed) (h.0, put_indexed-AreFrom all_items key item index here h.1)
      ]

  index_items-AreFrom :
      (all_items : List SourceItem) (index : Index) (consistent : Bool) (items : List SourceItem)
      → AreFrom all_items index
      → All (λ item. IsIn item all_items) items
      → AreFrom all_items (index_items name_hash index consistent items).0
  unfolding index_items
  index_items-AreFrom all_items index consistent [] h here = h
  index_items-AreFrom all_items index consistent (x ∷ items) h here =
      elim (Bool-cases (conflicts (item_of (evidence_key name_hash x) index) x)) [
        | inl clash ↦
            subst (λ out. AreFrom all_items out.0)
              (sym (index_items_step name_hash index consistent x items true clash))
              (index_items-AreFrom all_items index false items h here.1)
        | inr agree ↦
            subst (λ out. AreFrom all_items out.0)
              (sym (index_items_step name_hash index consistent x items false agree))
              (index_items-AreFrom all_items (put_indexed (evidence_key name_hash x) x index)
                consistent items
                (put_indexed-AreFrom all_items (evidence_key name_hash x) x index here.0 h) here.1)
      ]

  item_of-AreFrom :
      (all_items : List SourceItem) (key : String) (index : Index) (item : SourceItem)
      → AreFrom all_items index
      → item_of key index ≡ some item
      → IsIn item all_items
  unfolding item_of AreFrom
  item_of-AreFrom all_items key [] item h found = absurd (none_is_not found)
    where
      none_is_not : Option.none ≡ some item → ⊥
      none_is_not e = cc
  item_of-AreFrom all_items key ((k, x) ∷ index) item h found = elim (Bool-cases (str_eq k key)) [
    | inl same ↦ subst (λ found_item. IsIn found_item all_items) (unwrap (rw same at found)) h.0
    | inr differs ↦ item_of-AreFrom all_items key index item h.1 (rw differs at found)
  ]
    where
      unwrap : Option.some x ≡ some item → x ≡ item
      unwrap e = cc

  -- One of the items has the content of this one.
  abbrev pub IsShownBy : List SourceItem → SourceItem → Type 0
  IsShownBy items item =
      (found : SourceItem) × IsIn found items × (has_same_content found item ≡ true)

  is_covered-IsShownBy :
      (items : List SourceItem) (item : SourceItem)
      → is_covered name_hash (evidence_index name_hash items).0 item ≡ true
      → IsShownBy items item
  unfolding evidence_index AreFrom
  is_covered-IsShownBy items item covered =
      shown (item_of (evidence_key name_hash item) (evidence_index name_hash items).0) refl covered
    where
      shown :
          (found : Option SourceItem)
          → item_of (evidence_key name_hash item) (evidence_index name_hash items).0 ≡ found
          → is_matched found item ≡ true
          → IsShownBy items item
      shown none here h = cc
      shown (some found) here h = (
        found,
        item_of-AreFrom items (evidence_key name_hash item) (evidence_index name_hash items).0 found
            (index_items-AreFrom items [] true items tt (All-self items)) here,
        h,
      )

  -- Where the evidence is consistent, each item of the relation's exposure evidence is shown by an item of
  -- the candidate.
  pub is_evidence_consistent-IsShownBy :
      (first : Bool) (relation : Option EventRelationship) (evidence : List SourceItem)
      → is_evidence_consistent first relation
          (evidence_index name_hash evidence)
          (evidence_index name_hash (exposure_items relation))
        ≡ true
      → All (IsShownBy evidence) (exposure_items relation)
  unfolding is_evidence_consistent
  is_evidence_consistent-IsShownBy first relation evidence h =
      All-imp (λ item. is_covered name_hash exposed item ≡ true) (IsShownBy evidence)
        (exposure_items relation)
        (λ item covered.
          is_covered-IsShownBy evidence item
            (through item (item_of (evidence_key name_hash item) exposed) refl covered))
        (evidence_index-is_covered name_hash (exposure_items relation) parts.0)
    where
      exposed : Index
      exposed = (evidence_index name_hash (exposure_items relation)).0

      kept : Index
      kept = (evidence_index name_hash evidence).0

      parts :
          ((evidence_index name_hash (exposure_items relation)).1 ≡ true)
          × (all (λ entry. is_matched (item_of entry.0 kept) entry.1) exposed ≡ true)
      parts = ground (arith, h)

      through :
          (item : SourceItem) (found : Option SourceItem)
          → item_of (evidence_key name_hash item) exposed ≡ found
          → is_matched found item ≡ true
          → is_covered name_hash kept item ≡ true
      through item none here h1 = cc
      through item (some found) here h1 = above (item_of (evidence_key name_hash item) kept) (
          all-item_of (λ entry. is_matched (item_of entry.0 kept) entry.1)
            (evidence_key name_hash item) exposed found here parts.1)
        where
          above :
              (top : Option SourceItem) → is_matched top found ≡ true → is_matched top item ≡ true
          above none h2 = cc
          above (some top) h2 = has_same_content_left top found item h2 ∙ h1
