-- ===== src/Relation/Examples.antt =====
-- A relation proposed from ten items, one of which is a filing, and the theorems at it.
use stocks_agent.Common.{
  insert_sorted, sorted, ◌≤◌, ◌≡◌, ◌↔◌, refl, Bool, true, false, not, ◌||◌, Option, none, some,
  List, [], ◌∷◌, ◌++◌, String, all, filter, length, contains, all_distinct, ok, raise,
}
use stocks_agent.Relation.Text.{lstrip, rstrip, strip, push_char, split, underscored, first_chars}
use stocks_agent.Relation.Item.{
  SourceItem, is_adverse, is_exposure, authority_rank, kind_of_value, exposure_kind,
  key_of_supplied, evidence_key, compare_priority, qualifies_exposure,
}
use stocks_agent.Relation.Proposal.{
  EventRelationship, ticker_not_canonical, role_required, is_ticker, put_item, put_items, keep_new,
  reversed, is_nonempty, security_or_ticker, ordered_evidence, prioritized_evidence, relation_of,
  propose_relation,
}
use stocks_agent.Relation.Prioritized.{keys}
use stocks_agent.Relation.Retained.{propose_relation-evidence}
use stocks_agent.Relation.Eligible.{propose_relation-eligible}
use stocks_agent.Relation.Adverse.{propose_relation-adverse}

-- The case mappings on texts that are mapped already, and a name that is the hash itself.
abbrev same : String → String
same text = text

abbrev item :
    (id : String) → (authority : String) → (kind : Option String) → (adverse : Bool) → SourceItem
item id authority kind adverse = record {
  provider = "gdelt";
  upstream_item_id = none;
  title = "";
  summary = "";
  item_id = some id;
  content_hash = "c";
  canonical_content = "c";
  authority = authority;
  claim_polarity = "unknown";
  exposure_kind_attribute = none;
  exposure_kind_metadata = kind;
  claim_polarity_metadata = none;
  adverse_path_metadata = adverse;
  role_metadata = none;
}

abbrev denials : List SourceItem
denials =
    item "a1" "radar" none true
    ∷ item "a2" "radar" none true
    ∷ item "a3" "radar" none true
    ∷ item "a4" "radar" none true
    ∷ item "a5" "radar" none true
    ∷ item "a6" "radar" none true
    ∷ item "a7" "radar" none true
    ∷ item "a8" "radar" none true
    ∷ []

abbrev filing : SourceItem
filing = item "f" "official" (some " filing ") false

abbrev note : SourceItem
note = item "n" "official" none false

abbrev evidence : List SourceItem
evidence = note ∷ filing ∷ denials

abbrev relation : EventRelationship
relation = relation_of same same "e1" "ABC" "ABC" "key_supplier" (filing ∷ (denials ++ note ∷ []))

program : Unit {0}
unfolding insert_sorted sorted lstrip rstrip strip push_char split underscored first_chars
    is_adverse is_exposure authority_rank kind_of_value exposure_kind key_of_supplied evidence_key
    compare_priority qualifies_exposure is_ticker put_item put_items keep_new reversed
    security_or_ticker ordered_evidence prioritized_evidence relation_of propose_relation
program = tt

proposed : propose_relation same same same "e1" " ABC" none "key  supplier" evidence ≡ ok relation
unfolding program
proposed = refl

dropped : relation.dropped_evidence_keys ≡ "n" ∷ "a8" ∷ []
unfolding program
dropped = refl

refused :
    propose_relation same same same "e1" "abc" none "supplier" evidence ≡ raise ticker_not_canonical
unfolding program
refused = refl

nameless : propose_relation same same same "e1" "ABC" none "  " evidence ≡ raise role_required
unfolding program
nameless = refl

propose_relation-evidence_example :
    (length relation.evidence ≤ 8)
    × (all_distinct (keys same relation.evidence) ≡ true)
    × ((k : String)
        → (contains k (keys same evidence) ≡ (
            contains k (keys same relation.evidence) || contains k relation.dropped_evidence_keys))
          × (contains k (keys same relation.evidence) ≡ true
              → contains k relation.dropped_evidence_keys ≡ false))
propose_relation-evidence_example =
    propose_relation-evidence same same same "e1" " ABC" none "key  supplier" evidence relation
      proposed

propose_relation-eligible_example :
    (relation.eligible_for_ranking ≡ qualifies_exposure same (put_items same [] evidence))
    × (relation.hypothesis ≡ not relation.eligible_for_ranking)
    × ((relation.exposure_status ≡ "qualified") ↔ (relation.eligible_for_ranking ≡ true))
    × ((relation.missing_reasons ≡ []) ↔ (relation.eligible_for_ranking ≡ true))
    × (is_nonempty relation.exposure_evidence ≡ relation.eligible_for_ranking)
propose_relation-eligible_example =
    propose_relation-eligible same same same "e1" " ABC" none "key  supplier" evidence relation
      proposed

adverse_key : contains "a8" (keys same (filter is_adverse (put_items same [] evidence))) ≡ true
unfolding program
adverse_key = refl

dropped_key : contains "a8" relation.dropped_evidence_keys ≡ true
unfolding program
dropped_key = refl

propose_relation-adverse_example :
    all (λ item. is_adverse item || is_exposure same item) relation.evidence ≡ true
propose_relation-adverse_example =
    propose_relation-adverse same same same "e1" " ABC" none "key  supplier" evidence relation "a8"
      proposed adverse_key dropped_key
