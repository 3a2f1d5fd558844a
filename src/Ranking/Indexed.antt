-- ===== src/Ranking/Indexed.antt =====
-- What `_evidence_index` of lib/intelligence/ranking.py Keeps of the items, and what it means that the
-- evidence is consistent.
use stocks_agent.Common.{
  ◌≡◌, refl, ap, sym, subst, ◌∙◌, ◌⊎◌, inl, inr, Bool, true, false, not, ◌&&◌, Option, none, some,
  List, [], ◌∷◌, String, all, arith, if◌then◌else◌, str_eq, str_eq→eq, str_eq_self, Bool-cases, All,
}
use stocks_agent.Relation.Item.{SourceItem, evidence_key}
use stocks_agent.Ranking.Evidence.{
  Index, has_same_content, item_of, put_indexed, conflicts, index_items, evidence_index, is_matched,
}

-- An item of the same content may be put in another's place.
pub has_same_content_left :
    (a b c : SourceItem) → has_same_content a b ≡ true → has_same_content a c ≡ has_same_content b c
has_same_content_left a b c h = λ i.
    str_eq (str_eq→eq _ _ (both h).0 i) c.content_hash
    && str_eq (str_eq→eq _ _ (both h).1 i) c.canonical_content
  where
    both :
        has_same_content a b ≡ true
        → (str_eq a.content_hash b.content_hash ≡ true)
          × (str_eq a.canonical_content b.canonical_content ≡ true)
    both same = ground arith

holds : {b : Bool} → not b ≡ false → b ≡ true
holds {b = b} h = ground arith

item_of-put_indexed :
    (key other : String) (item : SourceItem) (index : Index)
    → item_of other (put_indexed key item index)
      ≡ (if str_eq key other then some item else item_of other index)
unfolding item_of put_indexed
item_of-put_indexed key other item [] = refl
item_of-put_indexed key other item ((k, old) ∷ index) = elim (Bool-cases (str_eq k key)) [
  | inl same ↦ rw same (replaced (str_eq→eq k key same))
  | inr differs ↦
      rw differs
        (kept differs (item_of-put_indexed key other item index) (Bool-cases (str_eq key other)))
]
  where
    replaced :
        k ≡ key
        → (if str_eq k other then some item else item_of other index)
          ≡ (if str_eq key other then some item else item_of other ((k, old) ∷ index))
    replaced e = elim (Bool-cases (str_eq key other)) [
      | inl equal ↦ rw (e, equal) refl
      | inr apart ↦ rw (e, apart) refl
    ]

    kept :
        str_eq k key ≡ false
        → item_of other (put_indexed key item index)
          ≡ (if str_eq key other then some item else item_of other index)
        → (str_eq key other ≡ true) ⊎ (str_eq key other ≡ false)
        → item_of other ((k, old) ∷ put_indexed key item index)
          ≡ (if str_eq key other then some item else item_of other ((k, old) ∷ index))
    kept differs rest (inl equal) =
        rw (sym (ap (str_eq k) (str_eq→eq key other equal)) ∙ differs, rest, equal) refl
    kept differs rest (inr apart) = rw (rest, apart) refl

pub all-item_of :
    (p : String × SourceItem → Bool) (key : String) (index : Index) (item : SourceItem)
    → item_of key index ≡ some item
    → all p index ≡ true
    → p (key, item) ≡ true
unfolding item_of
all-item_of p key [] item found h = cc
all-item_of p key ((k, x) ∷ index) item found h = elim (Bool-cases (str_eq k key)) [
  | inl same ↦
      subst (λ entry. p entry ≡ true) (λ i. (str_eq→eq k key same i, here same i)) (first_of h)
  | inr differs ↦ all-item_of p key index item (later differs) (rest_of h)
]
  where
    unwrap : Option.some x ≡ some item → x ≡ item
    unwrap e = cc

    here : str_eq k key ≡ true → x ≡ item
    here same = unwrap (rw same at found)

    later : str_eq k key ≡ false → item_of key index ≡ some item
    later differs = rw differs at found

    first_of : (p (k, x) && all p index) ≡ true → p (k, x) ≡ true
    first_of both = ground arith

    rest_of : (p (k, x) && all p index) ≡ true → all p index ≡ true
    rest_of both = ground arith

module _ (name_hash : String → String) where
  -- An item of the same content stands in the index under the item's key.
  abbrev pub is_covered : Index → SourceItem → Bool
  is_covered index item = is_matched (item_of (evidence_key name_hash item) index) item

  put_indexed-is_covered :
      (item x : SourceItem) (index : Index)
      → conflicts (item_of (evidence_key name_hash x) index) x ≡ false
      → is_covered index item ≡ true
      → is_covered (put_indexed (evidence_key name_hash x) x index) item ≡ true
  put_indexed-is_covered item x index agree covered =
      rw (item_of-put_indexed (evidence_key name_hash x) (evidence_key name_hash item) x index)
        (elim (Bool-cases (str_eq (evidence_key name_hash x) (evidence_key name_hash item))) [
          | inl same ↦ rw same (
              matched (item_of (evidence_key name_hash item) index)
                (ap (λ k. conflicts (item_of k index) x) (sym (str_eq→eq _ _ same)) ∙ agree)
                covered)
          | inr differs ↦ rw differs covered
        ])
    where
      matched :
          (found : Option SourceItem)
          → conflicts found x ≡ false
          → is_matched found item ≡ true
          → has_same_content x item ≡ true
      matched none h1 h2 = cc
      matched (some prior) h1 h2 = sym (has_same_content_left prior x item (holds h1)) ∙ h2

  put_indexed_covers :
      (x : SourceItem) (index : Index)
      → is_covered (put_indexed (evidence_key name_hash x) x index) x ≡ true
  put_indexed_covers x index =
      rw
        (
          item_of-put_indexed (evidence_key name_hash x) (evidence_key name_hash x) x index,
          str_eq_self (evidence_key name_hash x),
          str_eq_self x.content_hash,
          str_eq_self x.canonical_content,
        )
        refl

  index_items-inconsistent :
      (index : Index) (items : List SourceItem)
      → (index_items name_hash index false items).1 ≡ false
  unfolding index_items
  index_items-inconsistent index [] = refl
  index_items-inconsistent index (x ∷ items) =
      elim (Bool-cases (conflicts (item_of (evidence_key name_hash x) index) x)) [
        | inl clash ↦ rw (index_items, clash) (index_items-inconsistent index items)
        | inr agree ↦
            rw (index_items, agree)
              (index_items-inconsistent (put_indexed (evidence_key name_hash x) x index) items)
      ]

  abbrev Keeps : Index → List SourceItem → Index × Bool → Type 0
  Keeps index items out =
      ((item : SourceItem) → is_covered index item ≡ true → is_covered out.0 item ≡ true)
      × All (λ item. is_covered out.0 item ≡ true) items

  pub index_items_step :
      (index : Index) (consistent : Bool) (x : SourceItem) (items : List SourceItem) (clash : Bool)
      → conflicts (item_of (evidence_key name_hash x) index) x ≡ clash
      → index_items name_hash index consistent (x ∷ items) ≡ (
          if clash
          then index_items name_hash index false items
          else index_items name_hash
              (put_indexed (evidence_key name_hash x) x index)
              consistent
              items)
  unfolding index_items
  index_items_step index consistent x items clash h =
      ap
        (λ b. elim b [
          | true ↦ index_items name_hash index false items
          | false ↦
              index_items name_hash (put_indexed (evidence_key name_hash x) x index) consistent
                items
        ])
        h
      ∙ chosen clash
    where
      chosen :
          (b : Bool)
          → (elim b [
            | true ↦ index_items name_hash index false items
            | false ↦
                index_items name_hash
                  (put_indexed (evidence_key name_hash x) x index)
                  consistent
                  items
          ])
            ≡ (if b
                then index_items name_hash index false items
                else index_items name_hash
                    (put_indexed (evidence_key name_hash x) x index)
                    consistent
                    items)
      chosen true = refl
      chosen false = refl

  -- Where the loop ends consistent, every item is covered, those that the index covered as well.
  index_items-is_covered :
      (index : Index) (consistent : Bool) (items : List SourceItem)
      → (index_items name_hash index consistent items).1 ≡ true
      → Keeps index items (index_items name_hash index consistent items)
  unfolding index_items
  index_items-is_covered index consistent [] h = (λ item covered. covered, tt)
  index_items-is_covered index consistent (x ∷ items) h =
      elim (Bool-cases (conflicts (item_of (evidence_key name_hash x) index) x)) [
        | inl clash ↦ absurd (
            contradiction
              (sym (ap (λ out. out.1) (index_items_step index consistent x items true clash)) ∙ h))
        | inr agree ↦
            subst (Keeps index (x ∷ items))
              (sym (index_items_step index consistent x items false agree))
              (put_first agree
                (index_items name_hash (put_indexed (evidence_key name_hash x) x index) consistent
                  items)
                (index_items-is_covered (put_indexed (evidence_key name_hash x) x index) consistent
                  items
                  (sym (ap (λ out. out.1) (index_items_step index consistent x items false agree))
                    ∙ h)))
      ]
    where
      contradiction : (index_items name_hash index false items).1 ≡ true → ⊥
      contradiction e = ground (arith, index_items-inconsistent index items)

      put_first :
          conflicts (item_of (evidence_key name_hash x) index) x ≡ false
          → (out : Index × Bool) → Keeps (put_indexed (evidence_key name_hash x) x index) items out
          → Keeps index (x ∷ items) out
      put_first agree out (kept, rest) = (
        λ item covered. kept item (put_indexed-is_covered item x index agree covered),
        (kept x (put_indexed_covers x index), rest),
      )

  -- Where the index is consistent, every item is covered.
  pub evidence_index-is_covered :
      (items : List SourceItem)
      → (evidence_index name_hash items).1 ≡ true
      → All (λ item. is_covered (evidence_index name_hash items).0 item ≡ true) items
  unfolding evidence_index
  evidence_index-is_covered items h = (index_items-is_covered [] true items h).1
