-- ===== src/Cursor/Collected.antt =====
-- How lib/intelligence/pipeline.py turns a planned task and a collection result into cursor steps:
-- `_collection_window_for_task`, `_next_retry_phase`, `_cursor_status`, `_updated_source_cursor`.
use Prim.Native.Nat.{max}
use stocks_agent.Common.{
  ℕ, ◌-◌, ◌/◌, Bool, false, not, ◌&&◌, ◌||◌, Option, none, some, List, [], ◌∷◌, map, String, ltb,
  is_some, if◌then◌else◌, str_eq, contains, ok, raise, ◌>>=◌,
}
use stocks_agent.Cursor.Checks.{
  CursorResult, timestamp_invalid, planned_window_too_long, minimum_overlap, is_successful,
}
use stocks_agent.Cursor.Record.{SourceCursor}
use stocks_agent.Cursor.Window.{
  CollectionWindow, second, days_31, earlier, check_window, window_from_cursor,
}
use stocks_agent.Cursor.Page.{CollectionPage, check_page}
use stocks_agent.Cursor.Update.{first_occurrences, update_cursor}

-- `max(start, cursor.completed_through - overlap)`, where there is a watermark.
short_start : Option ℕ → ℕ → CursorResult ℕ
short_start none start = ok start
short_start (some completed) start = do
  overlapped ← earlier completed minimum_overlap
  ok (max start overlapped)

-- A planned window of less than two hours.
short_window : SourceCursor → Option ℕ → Option ℕ → (start end : ℕ) → CursorResult CollectionWindow
unfolding short_start
short_window cursor (some active_start) (some active_end) start end = check_window (record {
  start = active_start;
  end = active_end;
  overlap_seconds = minimum_overlap / second;
  backlog_token = cursor.backlog_token;
})
short_window cursor (some active_start) none start end = raise timestamp_invalid
short_window cursor none _ start end = do
  from ← short_start cursor.completed_through start
  check_window (record {
    start = from;
    end = end;
    overlap_seconds = minimum_overlap / second;
    backlog_token = none;
  })

-- `start` and `end` are the parsed bounds of `task.window`. Where the end is before the start the
-- duration is negative, so it is below two hours.
unfoldable pub collection_window_for_task :
    (start end : ℕ) → SourceCursor → CursorResult CollectionWindow
unfolding short_window
collection_window_for_task start end cursor =
    let duration = end - start in
    if ltb duration minimum_overlap
    then short_window cursor cursor.active_window_start cursor.active_window_end start end
    else if ltb days_31 duration
    then raise planned_window_too_long
    else window_from_cursor cursor end minimum_overlap duration

-- The keys of `receipt.metadata` that are read, as Python's truth values and optional texts.
pub record ReceiptMetadata : Type 0 where
  pub truncated : Bool
  pub backlog_remaining : Bool
  pub coverage_gap : Bool
  pub continuation_unavailable : Bool
  pub backlog_token : Option String
  pub next_retry_phase : Option String
  pub coverage_status : Option String

pub record CollectedItem : Type 0 where
  pub upstream_item_id : Option String
  pub content_hash : String

pub record CollectionResult : Type 0 where
  pub status : String
  pub metadata : ReceiptMetadata
  pub items : List CollectedItem

-- The status of a receipt that is none of its own three.
abbrev pub failed_status : Option String → String
failed_status none = "failed"
failed_status (some coverage) =
    if contains coverage ("configuration_missing" ∷ "unsupported" ∷ []) then coverage else "failed"

unfoldable pub cursor_status : CollectionResult → String
cursor_status result =
    if contains result.status ("succeeded" ∷ "cache_hit" ∷ "quota_blocked" ∷ [])
    then result.status
    else failed_status result.metadata.coverage_status

-- A text that is not empty.
abbrev pub nonempty : Option String → Option String
nonempty none = none
nonempty (some text) = if str_eq text "" then none else some text

-- `item.upstream_item_id or item.content_hash`
abbrev pub item_id : CollectedItem → String
item_id item = elim (nonempty item.upstream_item_id) [ none ↦ item.content_hash | some id ↦ id ]

-- The end of a rolling feed that overflowed and cannot be continued.
unfoldable pub is_terminal_gap : (successful : Bool) → ReceiptMetadata → Bool
is_terminal_gap successful m =
    successful
    && m.truncated
    && m.coverage_gap
    && m.continuation_unavailable
    && not m.backlog_remaining
    && not (is_some (nonempty m.backlog_token))

-- The arguments of the `CollectionPage` that a result makes.
unfoldable pub result_page : CollectionWindow → CollectionResult → CollectionPage
result_page window result =
    let m = result.metadata in
    let status = cursor_status result in
    let successful = is_successful status in
    let truncated = successful && m.truncated in
    let backlog_remaining = successful && m.backlog_remaining in
    let terminal_gap = is_terminal_gap successful m in
    record {
      window = window;
      status = status;
      exhausted = successful && (terminal_gap || (not truncated && not backlog_remaining));
      truncated = if terminal_gap then false else truncated || backlog_remaining;
      backlog_token = nonempty m.backlog_token;
      accepted_item_ids = first_occurrences [] (map item_id result.items);
      next_retry_phase = m.next_retry_phase;
    }

unfoldable pub updated_source_cursor :
    (String → String)
    → SourceCursor
    → CollectionWindow
    → CollectionResult
    → CursorResult SourceCursor
updated_source_cursor sha256_hex cursor window result = do
  page ← check_page (result_page window result)
  update_cursor sha256_hex cursor page
