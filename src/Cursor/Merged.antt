-- ===== src/Cursor/Merged.antt =====
-- The item IDs that `update_cursor` of lib/intelligence/cursors.py merges.
use stocks_agent.Common.{
  ◌≡◌, ◌≤◌, refl, true, false, List, [], ◌∷◌, ◌++◌, String, arith, ok, all, length, contains,
  all_distinct, str_eq, str_eq_self, str_eq→eq, Bool-cases, inl, inr, ap, both,
}
use stocks_agent.Cursor.Checks.{is_item_id, item_ids, max_accepted_item_ids}
use stocks_agent.Cursor.Update.{first_occurrences, merged_ids}

first_occurrences-again :
    (x : String) (seen xs : List String)
    → contains x seen ≡ true
    → first_occurrences seen (x ∷ xs) ≡ first_occurrences seen xs
unfolding first_occurrences
first_occurrences-again x seen xs again = rw (again, first_occurrences) refl

first_occurrences-new :
    (x : String) (seen xs : List String)
    → contains x seen ≡ false
    → first_occurrences seen (x ∷ xs) ≡ x ∷ first_occurrences (x ∷ seen) xs
unfolding first_occurrences
first_occurrences-new x seen xs new = rw (new, first_occurrences) refl

first_occurrences-fresh :
    (y : String) (seen xs : List String)
    → contains y seen ≡ true
    → contains y (first_occurrences seen xs) ≡ false
unfolding first_occurrences
first_occurrences-fresh y seen [] known = refl
first_occurrences-fresh y seen (x ∷ xs) known = elim (Bool-cases (contains x seen)) [
  | inl again ↦
      rw (first_occurrences-again x seen xs again) (first_occurrences-fresh y seen xs known)
  | inr new ↦ rw (first_occurrences-new x seen xs new) (elim (Bool-cases (str_eq y x)) [
    | inl same ↦ let e = ap (λ z. contains z seen) (str_eq→eq y x same) in absurd cc
    | inr other ↦ rw other (first_occurrences-fresh y (x ∷ seen) xs (rw (other, known) refl))
  ])
]

all_distinct-first_occurrences :
    (seen xs : List String) → all_distinct (first_occurrences seen xs) ≡ true
unfolding first_occurrences
all_distinct-first_occurrences seen [] = refl
all_distinct-first_occurrences seen (x ∷ xs) = elim (Bool-cases (contains x seen)) [
  | inl again ↦
      rw (first_occurrences-again x seen xs again) (all_distinct-first_occurrences seen xs)
  | inr new ↦ rw (first_occurrences-new x seen xs new) (
      rw (first_occurrences-fresh x (x ∷ seen) xs (rw (str_eq_self x) refl))
        (all_distinct-first_occurrences (x ∷ seen) xs))
]

all-first_occurrences :
    (seen xs : List String)
    → all is_item_id xs ≡ true
    → all is_item_id (first_occurrences seen xs) ≡ true
unfolding first_occurrences
all-first_occurrences seen [] valid = refl
all-first_occurrences seen (x ∷ xs) valid = elim (Bool-cases (contains x seen)) [
  | inl again ↦
      rw (first_occurrences-again x seen xs again)
        (all-first_occurrences seen xs (both {a = is_item_id x} valid).1)
  | inr new ↦ rw (first_occurrences-new x seen xs new) (
      rw (both {a = is_item_id x} valid).0
        (all-first_occurrences (x ∷ seen) xs (both {a = is_item_id x} valid).1))
]

all-append :
    (xs ys : List String)
    → all is_item_id xs ≡ true
    → all is_item_id ys ≡ true
    → all is_item_id (xs ++ ys) ≡ true
all-append [] ys valid valid' = valid'
all-append (x ∷ xs) ys valid valid' =
    rw (both {a = is_item_id x} valid).0 (all-append xs ys (both {a = is_item_id x} valid).1 valid')

-- Valid IDs are merged, if there are not too many different ones.
pub merged_ids-fit :
    (existing new : List String)
    → all is_item_id existing ≡ true
    → all is_item_id new ≡ true
    → length (first_occurrences [] (existing ++ new)) ≤ max_accepted_item_ids
    → merged_ids existing new ≡ ok (first_occurrences [] (existing ++ new))
unfolding merged_ids item_ids
merged_ids-fit existing new valid valid' fit =
    let listed =
      all-first_occurrences [] (existing ++ new) (all-append existing new valid valid') in
    let distinct = all_distinct-first_occurrences [] (existing ++ new) in ground arith
