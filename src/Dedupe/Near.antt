-- ===== src/Dedupe/Near.antt =====
-- Items of the same text in `deduplicate` of lib/intelligence/dedupe.py.
use stocks_agent.Common.{
  ◌≡◌, ap, sym, ◌∙◌, inl, inr, Bool, true, false, not, ◌&&◌, List, [], ◌∷◌, String, any, codes,
  arith, IsIn,
}
use stocks_agent.Relation.Item.{SourceItem}
use stocks_agent.Dedupe.Ratio.{is_near}
use stocks_agent.Dedupe.Matching.{is_near_self}
use stocks_agent.Dedupe.Disposition.{
  Disposition, accepted, duplicate, near_duplicate, text_of, contradicts, is_near_duplicate,
  disposition_of,
}

abbrev pub is_accepted : Disposition → Bool
is_accepted accepted = true
is_accepted duplicate = false
is_accepted near_duplicate = false

any-IsIn :
    (p : SourceItem → Bool) (xs : List SourceItem) (k : SourceItem)
    → IsIn k xs
    → p k ≡ true
    → any p xs ≡ true
any-IsIn p (x ∷ xs) k (inl e) h = ground (arith, ap p (sym e) ∙ h)
any-IsIn p (x ∷ xs) k (inr there) h = ground (arith, any-IsIn p xs k there h)
any-IsIn p [] k here h = absurd here

module _ (casefold : String → String) where
  is_near_duplicate_self :
      (a b : SourceItem)
      → casefold (text_of a) ≡ casefold (text_of b)
      → is_near_duplicate casefold a b ≡ true
  unfolding is_near_duplicate
  is_near_duplicate_self a b same =
      ap (λ text. is_near (codes (casefold (text_of a))) (codes text)) (sym same)
      ∙ is_near_self (codes (casefold (text_of a)))

  -- If a retained item has the text of an item, but for case, and does not contradict it, the item is not
  -- accepted as a new one.
  pub disposition_of-is_accepted :
      (retained : List SourceItem) (item k : SourceItem)
      → IsIn k retained
      → casefold (text_of item) ≡ casefold (text_of k)
      → contradicts item k ≡ false
      → is_accepted (disposition_of casefold retained item).0 ≡ false
  unfolding disposition_of
  disposition_of-is_accepted retained item k here same agrees = ground (arith, found)
    where
      found :
          any
            (λ canonical.
              not (contradicts item canonical) && is_near_duplicate casefold item canonical)
            retained
          ≡ true
      found =
          any-IsIn _ retained k here (ground (arith, agrees, is_near_duplicate_self item k same))
