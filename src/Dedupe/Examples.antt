-- ===== src/Dedupe/Examples.antt =====
-- Items disposed of by lib/intelligence/dedupe.py, and the theorems at them.
use stocks_agent.Common.{
  ◌≡◌, refl, inl, inr, true, false, Option, none, some, List, [], ◌∷◌, ◌++◌, map, String, codes,
  All, IsIn,
}
use stocks_agent.Relation.Item.{SourceItem}
use stocks_agent.Dedupe.Ratio.{best_from, best_of, find_longest_match, matched, matches, is_near}
use stocks_agent.Dedupe.Disposition.{
  Disposition, accepted, duplicate, near_duplicate, RunItemDisposition, contradicts, is_hash_match,
  is_near_duplicate, disposition_of, dispose, deduplicate,
}
use stocks_agent.Dedupe.Retained.{retained_items, row_with}
use stocks_agent.Dedupe.Justified.{IsRepeated, is_duplicate}
use stocks_agent.Dedupe.Exact.{IsDisposed, deduplicate-IsDisposed}
use stocks_agent.Dedupe.Replay.{deduplicate_replay, deduplicate-IsRepeated}

-- The case mapping on texts that are mapped already.
abbrev same : String → String
same text = text

abbrev item :
    (upstream_item_id : Option String) → (content_hash polarity title : String) → SourceItem
item upstream_item_id content_hash polarity title = record {
  provider = "gdelt";
  upstream_item_id = upstream_item_id;
  title = title;
  summary = "";
  item_id = none;
  content_hash = content_hash;
  canonical_content = title;
  authority = "radar";
  claim_polarity = polarity;
  exposure_kind_attribute = none;
  exposure_kind_metadata = none;
  claim_polarity_metadata = none;
  adverse_path_metadata = false;
  role_metadata = none;
}

abbrev affirmed : SourceItem
affirmed = item (some "u1") "h1" "affirmed" "plant opens in may"

abbrev denied : SourceItem
denied = item (some "u1") "h2" "denied" "plant opens in may"

abbrev reworded : SourceItem
reworded = item (some "u2") "h3" "unknown" "plant opens in may."

abbrev copied : SourceItem
copied = item (some "u3") "h1" "unknown" "plant opens in may"

program : Unit {0}
unfolding best_from best_of find_longest_match matched matches is_near contradicts is_near_duplicate
    disposition_of dispose deduplicate
program = tt

-- 3 of "bcd" and "abcd".
matched_letters : matched 4 (codes "abcd") (codes "bcde") ≡ 3
unfolding program
matched_letters = refl

abbrev dispositions : List SourceItem → List Disposition
dispositions items = map (λ (row : RunItemDisposition). row.disposition) (deduplicate same items)

kinds :
    dispositions (affirmed ∷ copied ∷ reworded ∷ affirmed ∷ [])
    ≡ accepted ∷ duplicate ∷ near_duplicate ∷ duplicate ∷ []
unfolding program
kinds = refl

-- A claim that is denied is retained with its denial, and a replay of it is dropped.
replayed :
    dispositions (affirmed ∷ denied ∷ affirmed ∷ affirmed ∷ [])
    ≡ accepted ∷ accepted ∷ duplicate ∷ duplicate ∷ []
unfolding program
replayed = refl

abbrev items : List SourceItem
items = affirmed ∷ copied ∷ denied ∷ reworded ∷ []

deduplicate-IsDisposed_example :
    (d : Disposition) × (reason : Option String) × (deduplicate same (items ++ affirmed ∷ [])
      ≡ deduplicate same items ++ row_with same affirmed (d, reason) ∷ [])
    × IsDisposed same (retained_items (deduplicate same items)) affirmed d
deduplicate-IsDisposed_example = deduplicate-IsDisposed same items affirmed

deduplicate-IsRepeated_example :
    All
      (λ (row : RunItemDisposition).
        is_duplicate row.disposition ≡ true
        → IsRepeated (retained_items (deduplicate same items)) row.item)
      (deduplicate same items)
deduplicate-IsRepeated_example = deduplicate-IsRepeated same items

kept : retained_items (deduplicate same items) ≡ affirmed ∷ denied ∷ reworded ∷ []
unfolding program
kept = refl

affirmed_kept : IsIn affirmed (retained_items (deduplicate same items))
unfolding program
affirmed_kept = inl refl

affirmed_agrees :
    (k : SourceItem)
    → IsIn k (retained_items (deduplicate same items))
    → is_hash_match affirmed k ≡ true
    → contradicts affirmed k ≡ false
unfolding program
affirmed_agrees k (inl e) h = rw e refl
affirmed_agrees k (inr (inl e)) h = cc
affirmed_agrees k (inr (inr (inl e))) h = rw e refl
affirmed_agrees k (inr (inr (inr nowhere))) h = absurd nowhere

deduplicate_replay_example :
    (reason : String) × (deduplicate same (items ++ affirmed ∷ [])
      ≡ deduplicate same items ++ row_with same affirmed (duplicate, some reason) ∷ [])
deduplicate_replay_example = deduplicate_replay same items affirmed affirmed_kept affirmed_agrees
