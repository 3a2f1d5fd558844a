-- ===== src/Cursor/Pages.antt =====
-- What `CollectionPage.__post_init__` and `source_outcome` accept.
use stocks_agent.Common.{
  ℕ, ◌≤◌, ◌≡◌, Bool, true, false, not, Option, none, some, List, [], String, arith, ok, raise, ◌↔◌,
  contains, all, all_distinct, length, str_eq→eq, str_eq, Bool-cases, inl, inr, if◌then◌else◌,
}
use stocks_agent.Cursor.Checks.{
  cursor_statuses, is_token, is_item_id, phase_allowed, bounded_token, item_ids, is_successful,
  max_accepted_item_ids, outcome_invalid,
}
use stocks_agent.Cursor.Page.{CollectionPage, check_page, source_outcome, answered_coverage}

-- How far a page went into its window, by its flags.
abbrev pub IsFlagged : (successful exhausted truncated : Bool) → Type 0
IsFlagged true exhausted truncated = truncated ≡ not exhausted
IsFlagged false exhausted truncated = exhausted ≡ false

abbrev pub IsTokenOf : (exhausted : Bool) → Option String → Type 0
IsTokenOf exhausted none = Unit
IsTokenOf exhausted (some token) = (exhausted ≡ false) × (is_token token ≡ true)

abbrev pub HasIds : (successful : Bool) → List String → Type 0
HasIds true ids = Unit
HasIds false ids = ids ≡ []

-- What holds of every `CollectionPage` object.
pub record IsPage (p : CollectionPage) : Type 0 where
  pub status : contains p.status cursor_statuses ≡ true
  pub flags : IsFlagged (is_successful p.status) p.exhausted p.truncated
  pub token : IsTokenOf p.exhausted p.backlog_token
  pub failed_ids : HasIds (is_successful p.status) p.accepted_item_ids
  pub ids_bounded : length p.accepted_item_ids ≤ max_accepted_item_ids
  pub ids_valid : all is_item_id p.accepted_item_ids ≡ true
  pub ids_distinct : all_distinct p.accepted_item_ids ≡ true
  pub phase : phase_allowed p.next_retry_phase ≡ true

check_page_complete : (p : CollectionPage) → IsPage p → check_page p ≡ ok p
unfolding check_page bounded_token item_ids
check_page_complete p h = ground arith

module _ (p q : CollectionPage) (e : check_page p ≡ ok q) where
  page_status :
      (contains p.status cursor_statuses ≡ true) × (phase_allowed p.next_retry_phase ≡ true)
  unfolding check_page
  page_status = ground arith

  page_flags : IsFlagged (is_successful p.status) p.exhausted p.truncated
  unfolding check_page
  page_flags = ground arith

  page_token : IsTokenOf p.exhausted p.backlog_token
  unfolding check_page bounded_token
  page_token = ground arith

  page_ids : HasIds (is_successful p.status) p.accepted_item_ids
  unfolding check_page
  page_ids = ground arith

  page_listed :
      (length p.accepted_item_ids ≤ max_accepted_item_ids)
      × (all is_item_id p.accepted_item_ids ≡ true)
      × (all_distinct p.accepted_item_ids ≡ true)
  unfolding check_page item_ids
  page_listed = ground arith

  page_same : q ≡ p
  unfolding check_page bounded_token item_ids
  page_same = ground arith

-- A page object is made exactly when its status is known; a successful page is either exhausted
-- or truncated; a failed page is not exhausted and has no item IDs; only a page that is not
-- exhausted has a token; and the IDs and the retry phase are valid. The object has the arguments.
pub check_page-eq-ok : (p q : CollectionPage) → (check_page p ≡ ok q) ↔ ((q ≡ p) × IsPage p)
check_page-eq-ok p q = (
  λ e. (
    page_same p q e,
    record {
      status = (page_status p q e).0;
      flags = page_flags p q e;
      token = page_token p q e;
      failed_ids = page_ids p q e;
      ids_bounded = (page_listed p q e).0;
      ids_valid = (page_listed p q e).1;
      ids_distinct = (page_listed p q e).2;
      phase = (page_status p q e).1;
    },
  ),
  λ h. rw h.0 (check_page_complete p h.1),
)

-- The coverage that the status of a page stands for.
abbrev pub coverage_of : (status : String) (returned : ℕ) → String
coverage_of status returned =
    if is_successful status
    then answered_coverage returned
    else if str_eq status "failed"
    then "source_failed"
    else status

-- `source_outcome` answers for exactly the statuses that a page may have, and keeps the status and
-- the count. Its coverage tells an empty success from another one, whether fresh or from the
-- cache, is `source_failed` after a failure, and otherwise the status.
pub source_outcome_lem :
    (status : String) (returned : ℕ)
    → source_outcome status returned ≡ (
        if contains status cursor_statuses
        then ok (record {
          status = status;
          returned = returned;
          coverage_status = coverage_of status returned;
        })
        else raise outcome_invalid)
unfolding source_outcome is_successful
source_outcome_lem status returned = elim (Bool-cases (str_eq status "cache_hit")) [
  | inl cached ↦ rw (str_eq→eq status "cache_hit" cached)
  | inr fresh ↦ rw fresh (ground arith)
]
