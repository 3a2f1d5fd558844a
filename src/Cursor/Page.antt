-- ===== src/Cursor/Page.antt =====
-- `CollectionPage`, `SourceOutcome` and `source_outcome` of lib/intelligence/cursors.py.
use stocks_agent.Common.{
  ℕ, zero, suc, Bool, true, false, not, ◌&&◌, ◌||◌, Option, List, [], ◌∷◌, String, is_some,
  if◌then◌else◌, str_eq, contains, ok, raise, ◌>>=◌, ◌>>◌, guard,
}
use stocks_agent.Cursor.Checks.{
  CursorResult, status_invalid, exhausted_and_truncated, success_not_truncated, failure_exhausted,
  failure_with_ids, exhausted_with_token, phase_invalid, outcome_invalid, cursor_statuses,
  bounded_token, item_ids, phase_allowed, is_successful,
}
use stocks_agent.Cursor.Window.{CollectionWindow}

pub record CollectionPage : Type 0 where
  pub window : CollectionWindow
  pub status : String
  pub exhausted : Bool
  pub truncated : Bool
  pub backlog_token : Option String
  pub accepted_item_ids : List String
  pub next_retry_phase : Option String

-- `not values`
abbrev pub is_empty : List String → Bool
is_empty [] = true
is_empty (_ ∷ _) = false

-- `CollectionPage.__post_init__`
unfoldable pub check_page : CollectionPage → CursorResult CollectionPage
check_page p = do
  guard (contains p.status cursor_statuses) status_invalid
  guard (not (p.exhausted && p.truncated)) exhausted_and_truncated
  let successful = is_successful p.status
  guard (not (successful && not p.exhausted && not p.truncated)) success_not_truncated
  guard (not (not successful && p.exhausted)) failure_exhausted
  guard (successful || is_empty p.accepted_item_ids) failure_with_ids
  token ← bounded_token p.backlog_token
  guard (not (p.exhausted && is_some token)) exhausted_with_token
  guard (phase_allowed p.next_retry_phase) phase_invalid
  ids ← item_ids p.accepted_item_ids
  ok (record p { backlog_token = token; accepted_item_ids = ids })

pub record SourceOutcome : Type 0 where
  pub status : String
  pub returned : ℕ
  pub coverage_status : String

-- The coverage of a source that answered.
abbrev pub answered_coverage : ℕ → String
answered_coverage zero = "success_empty"
answered_coverage (suc _) = "success_nonempty"

abbrev pub outcome : (status : String) (returned : ℕ) → String → CursorResult SourceOutcome
outcome status returned coverage =
    ok (record { status = status; returned = returned; coverage_status = coverage })

-- `returned` is a non-negative integer.
unfoldable pub source_outcome : (status : String) (returned : ℕ) → CursorResult SourceOutcome
source_outcome status returned =
    let normalized = if str_eq status "cache_hit" then "succeeded" else status in
    if str_eq normalized "succeeded"
    then outcome status returned (answered_coverage returned)
    else if str_eq normalized "failed"
    then outcome status returned "source_failed"
    else if contains normalized ("configuration_missing" ∷ "quota_blocked" ∷ "unsupported" ∷ [])
    then outcome status returned normalized
    else raise outcome_invalid
