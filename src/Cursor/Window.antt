-- ===== src/Cursor/Window.antt =====
-- `CollectionWindow` and `window_from_cursor` of lib/intelligence/cursors.py.
use Prim.Native.Nat.{max}
use stocks_agent.Common.{
  ℕ, ◌-◌, ◌/◌, ◌*◌, Option, none, some, String, ltb, leb, ◌&&◌, if◌then◌else◌, ok, raise, ◌>>=◌,
  ◌>>◌, guard,
}
use stocks_agent.Cursor.Checks.{
  CursorResult, timestamp_invalid, window_unordered, overlap_invalid, backfill_invalid,
  date_overflow, minimum_overlap, bounded_token,
}
use stocks_agent.Cursor.Record.{SourceCursor}

pub record CollectionWindow : Type 0 where
  pub start : ℕ
  pub end : ℕ
  pub overlap_seconds : ℕ
  pub backlog_token : Option String

abbrev pub second : ℕ
second = 1000000

-- `CollectionWindow.__post_init__`
unfoldable pub check_window : CollectionWindow → CursorResult CollectionWindow
check_window w = do
  guard (leb w.start w.end) window_unordered
  guard
      (leb (minimum_overlap / second) w.overlap_seconds
        && leb w.overlap_seconds (31 * 24 * 60 * 60))
      overlap_invalid
  token ← bounded_token w.backlog_token
  ok (record w { backlog_token = token })

-- `datetime - timedelta`, which raises before `datetime.min`.
unfoldable pub earlier : ℕ → ℕ → CursorResult ℕ
earlier time delta = if ltb time delta then raise date_overflow else ok (time - delta)

abbrev pub days_31 : ℕ
days_31 = 31 * 24 * 60 * 60 * second

-- The start of a new window: the backfill bound, or the watermark less the overlap.
unfoldable pub fresh_start : Option ℕ → ℕ → ℕ → CursorResult ℕ
fresh_start none earliest overlap = ok earliest
fresh_start (some completed) earliest overlap = do
  overlapped ← earlier completed overlap
  ok (max earliest overlapped)

unfoldable pub open_window :
    SourceCursor → (end overlap max_backfill : ℕ) → CursorResult CollectionWindow
open_window cursor end overlap max_backfill = do
  earliest ← earlier end max_backfill
  start ← fresh_start cursor.completed_through earliest overlap
  check_window (record {
    start = start;
    end = end;
    overlap_seconds = overlap / second;
    backlog_token = none;
  })

-- The window to resume. A checked cursor has both ends or neither.
unfoldable pub resume_window :
    SourceCursor
    → Option ℕ
    → Option ℕ
    → (run_at overlap max_backfill : ℕ) → CursorResult CollectionWindow
resume_window cursor (some start) (some end) run_at overlap max_backfill = check_window (record {
  start = start;
  end = end;
  overlap_seconds = overlap / second;
  backlog_token = cursor.backlog_token;
})
resume_window cursor (some start) none run_at overlap max_backfill = raise timestamp_invalid
resume_window cursor none _ run_at overlap max_backfill =
    open_window cursor run_at overlap max_backfill

unfoldable pub window_from_cursor :
    SourceCursor → (run_at overlap max_backfill : ℕ) → CursorResult CollectionWindow
window_from_cursor cursor run_at overlap max_backfill = do
  guard (leb minimum_overlap overlap) overlap_invalid
  guard (leb overlap max_backfill && leb max_backfill days_31) backfill_invalid
  resume_window cursor cursor.active_window_start cursor.active_window_end run_at overlap
      max_backfill
