-- ===== src/Relation/Proposal.antt =====
-- `propose_relation` of lib/intelligence/relationships.py.
use Prim.Native.String.{count}
use stocks_agent.Common.{
  sorted, ℕ, Bool, true, false, not, ◌&&◌, ◌||◌, Option, none, some, List, [], ◌∷◌, ◌++◌, map,
  String, all, filter, find_first, take, drop, length, leb, ◌==◌, codes, if◌then◌else◌, str_eq,
  contains, Result, ok, ◌>>◌, guard,
}
use stocks_agent.Relation.Text.{strip, split, underscored, first_chars}
use stocks_agent.Relation.Item.{SourceItem, is_adverse, is_exposure, evidence_key, compare_priority}

pub record EventRelationship : Type 0 where
  pub event_id : String
  pub source_kind : String
  pub source_key : String
  pub target_kind : String
  pub target_key : String
  pub security_id : String
  pub ticker : String
  pub role : String
  pub relationship_type : String
  pub evidence : List SourceItem
  pub exposure_evidence : List SourceItem
  pub exposure_status : String
  pub eligible_for_ranking : Bool
  pub hypothesis : Bool
  pub missing_reasons : List String
  pub dropped_evidence_keys : List String
  pub dropped_exposure_fact_ids : List String

pub data RelationError : Type 0 where
  ticker_not_canonical role_required security_id_unbounded : RelationError

abbrev pub direct_roles : List String
direct_roles = "direct" ∷ "issuer" ∷ "beneficiary" ∷ "exposure" ∷ []

abbrev pub is_upper : ℕ → Bool
is_upper c = leb 65 c && leb c 90

-- `[A-Z0-9.-]`
abbrev pub is_ticker_char : ℕ → Bool
is_ticker_char c = is_upper c || leb 48 c && leb c 57 || c == 46 || c == 45

-- `re.fullmatch(r"[A-Z][A-Z0-9.-]{0,14}", ticker_value)`
unfoldable pub is_ticker : List ℕ → Bool
is_ticker [] = false
is_ticker (c ∷ rest) = is_upper c && leb (length rest) 14 && all is_ticker_char rest

module _ (name_hash : String → String) where
  -- `{evidence_key(item): item for item in evidence}.values()`: the last item of each key, at the place
  -- of the first.
  unfoldable pub put_item : SourceItem → List SourceItem → List SourceItem
  put_item item [] = item ∷ []
  put_item item (row ∷ rows) =
      if str_eq (evidence_key name_hash row) (evidence_key name_hash item)
      then item ∷ rows
      else row ∷ put_item item rows

  unfoldable pub put_items : List SourceItem → List SourceItem → List SourceItem
  put_items found [] = found
  put_items found (item ∷ items) = put_items (put_item item found) items

  -- The loop that prioritizes: what is kept behind the IDs seen.
  unfoldable pub keep_new : (prioritized_ids : List String) → List SourceItem → List SourceItem
  keep_new ids [] = []
  keep_new ids (item ∷ items) = elim (contains (evidence_key name_hash item) ids) [
    | true ↦ keep_new ids items
    | false ↦ item ∷ keep_new (evidence_key name_hash item ∷ ids) items
  ]

  unfoldable pub ordered_evidence : List SourceItem → List SourceItem
  ordered_evidence evidence = sorted (compare_priority name_hash) (put_items [] evidence)

abbrev pub listed : Option SourceItem → List SourceItem
listed none = []
listed (some item) = item ∷ []

-- `tuple(evidence_key(item) for item in reversed(…))`
unfoldable pub reversed : List String → List String
reversed [] = []
reversed (key ∷ keys) = reversed keys ++ key ∷ []

abbrev pub missing_reasons_of : (retained exposures : List SourceItem) → List String
missing_reasons_of [] [] = "relationship_evidence_required" ∷ "authoritative_exposure_required" ∷ []
missing_reasons_of [] (item ∷ items) = "relationship_evidence_required" ∷ []
missing_reasons_of (item ∷ items) [] = "authoritative_exposure_required" ∷ []
missing_reasons_of (item ∷ items) (exposure ∷ exposures) = []

-- `bool(items)`
abbrev pub is_nonempty : List SourceItem → Bool
is_nonempty [] = false
is_nonempty (item ∷ items) = true

-- `str(security_id or ticker_value)`
unfoldable pub security_or_ticker : Option String → String → String
security_or_ticker none ticker = ticker
security_or_ticker (some id) ticker = if str_eq id "" then ticker else id

module _ (casefold name_hash : String → String) where
  -- The items by priority: the decisive exposure, then the adverse ones, then the others.
  unfoldable pub prioritized_evidence : List SourceItem → List SourceItem
  prioritized_evidence evidence =
      let ordered = ordered_evidence name_hash evidence in
      let decisive = find_first (is_exposure casefold) ordered in
      keep_new name_hash [] (listed decisive ++ (filter is_adverse ordered ++ ordered))

  unfoldable pub relation_of :
      (event_id ticker security role : String) (prioritized : List SourceItem) → EventRelationship
  relation_of event_id ticker security role prioritized =
      let retained = take 8 prioritized in
      let exposures = filter (is_exposure casefold) retained in
      let eligible = is_nonempty retained && is_nonempty exposures in
      record {
        event_id = event_id;
        source_kind = "event";
        source_key = event_id;
        target_kind = "security";
        target_key = security;
        security_id = security;
        ticker = ticker;
        role = role;
        relationship_type = if contains role direct_roles then "direct" else "second_order";
        evidence = retained;
        exposure_evidence = exposures;
        exposure_status = if eligible then "qualified" else "insufficient";
        eligible_for_ranking = eligible;
        hypothesis = not eligible;
        missing_reasons = missing_reasons_of retained exposures;
        dropped_evidence_keys = reversed (map (evidence_key name_hash) (drop 8 prioritized));
        dropped_exposure_fact_ids = [];
      }

unfoldable pub propose_relation :
    (casefold upper name_hash : String → String)
    → (event_id ticker : String) (security_id : Option String) (role : String)
      (evidence : List SourceItem)
    → Result RelationError EventRelationship
propose_relation casefold upper name_hash event_id ticker security_id role evidence = do
  let ticker_value = upper (strip ticker)
  guard (is_ticker (codes ticker_value)) ticker_not_canonical
  let role_value = first_chars 80 (underscored (split (casefold (strip role))))
  guard (not (str_eq role_value "")) role_required
  let security_value = strip (security_or_ticker security_id ticker_value)
  guard (not (str_eq security_value "") && leb (count security_value) 160) security_id_unbounded
  ok (
      relation_of casefold name_hash event_id ticker_value security_value role_value
        (prioritized_evidence casefold name_hash evidence))
