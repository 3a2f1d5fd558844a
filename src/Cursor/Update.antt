-- ===== src/Cursor/Update.antt =====
-- `update_cursor` of lib/intelligence/cursors.py.
use stocks_agent.Common.{
  ℕ, ◌+◌, ◌-◌, Bool, true, false, not, ◌&&◌, ◌||◌, Option, none, some, List, [], ◌∷◌, ◌++◌, String,
  length, drop, leb, ◌==◌, is_some, or_default, if◌then◌else◌, str_eq, contains, ok, raise, ◌>>=◌,
  ◌>>◌, guard,
}
use stocks_agent.Cursor.Checks.{
  CursorResult, window_mismatch, window_not_overlapping, window_not_contiguous, token_repeated,
  max_token_identities, item_ids, is_successful,
}
use stocks_agent.Cursor.Record.{SourceCursor, check_cursor}
use stocks_agent.Cursor.Window.{CollectionWindow}
use stocks_agent.Cursor.Page.{CollectionPage}

-- `time == bound`, where `bound` may be `None`
abbrev pub is_time : ℕ → Option ℕ → Bool
is_time time none = false
is_time time (some bound) = time == bound

-- `not (active_start is not None and (window.start != active_start or window.end != active_end))`
unfoldable pub matches_active : SourceCursor → CollectionWindow → Bool
matches_active cursor w =
    not (is_some cursor.active_window_start)
    || (is_time w.start cursor.active_window_start && is_time w.end cursor.active_window_end)

-- `not (completed is not None and (window.start > completed or window.end < completed))`
abbrev pub around_watermark : Option ℕ → CollectionWindow → Bool
around_watermark none w = true
around_watermark (some completed) w = leb w.start completed && leb completed w.end

-- `token or other`: an empty text is falsy.
abbrev pub or_token : Option String → Option String → Option String
or_token none other = other
or_token (some token) other = if str_eq token "" then other else some token

-- `dict.fromkeys(values)`: the first occurrence of each value, in order; `seen` are the earlier.
unfoldable pub first_occurrences : List String → List String → List String
first_occurrences seen [] = []
first_occurrences seen (x ∷ xs) = elim (contains x seen) [
  | true ↦ first_occurrences seen xs
  | false ↦ x ∷ first_occurrences (x ∷ seen) xs
]

unfoldable pub merged_ids : List String → List String → CursorResult (List String)
merged_ids existing new = item_ids (first_occurrences [] (existing ++ new))

-- `values[-_MAX_TOKEN_IDENTITIES:]`
unfoldable pub last_identities : List String → List String
last_identities values = drop (length values - max_token_identities) values

-- The arguments of `replace` on each path of `update_cursor`.
abbrev pub retried : SourceCursor → CollectionPage → SourceCursor
retried cursor p = record cursor {
  active_window_start = some (or_default cursor.active_window_start p.window.start);
  active_window_end = some (or_default cursor.active_window_end p.window.end);
  backlog_token = or_token cursor.backlog_token p.backlog_token;
  next_retry_phase = p.next_retry_phase;
}

abbrev pub continued :
    SourceCursor → CollectionPage → (accepted history : List String) → SourceCursor
continued cursor p accepted history = record cursor {
  active_window_start = some p.window.start;
  active_window_end = some p.window.end;
  backlog_token = p.backlog_token;
  page = if is_some p.backlog_token then cursor.page + 1 else cursor.page;
  accepted_item_ids = accepted;
  next_retry_phase = p.next_retry_phase;
  continuation_token_history = history;
}

abbrev pub completed : SourceCursor → CollectionPage → SourceCursor
completed cursor p = record cursor {
  completed_through = some p.window.end;
  active_window_start = none;
  active_window_end = none;
  backlog_token = none;
  page = 1;
  accepted_item_ids = [];
  next_retry_phase = none;
  continuation_token_history = [];
}

module _ (sha256_hex : String → String) where
  unfoldable pub update_failed : SourceCursor → CollectionPage → CursorResult SourceCursor
  update_failed cursor p = do
    guard (matches_active cursor p.window) window_mismatch
    guard (around_watermark cursor.completed_through p.window) window_not_overlapping
    check_cursor sha256_hex (retried cursor p)

  -- The history that follows a page's continuation token.
  unfoldable pub next_history : Option String → List String → CursorResult (List String)
  next_history none history = ok history
  next_history (some token) history =
      if contains (sha256_hex token) history
      then raise token_repeated
      else ok (last_identities (history ++ sha256_hex token ∷ []))

  -- A successful page of a window that is not yet exhausted.
  unfoldable pub update_partial :
      SourceCursor → CollectionPage → List String → CursorResult SourceCursor
  update_partial cursor p accepted = do
    history ← next_history p.backlog_token cursor.continuation_token_history
    check_cursor sha256_hex (continued cursor p accepted history)

  unfoldable pub update_successful : SourceCursor → CollectionPage → CursorResult SourceCursor
  update_successful cursor p = do
    guard (matches_active cursor p.window) window_mismatch
    guard (around_watermark cursor.completed_through p.window) window_not_contiguous
    accepted ← merged_ids cursor.accepted_item_ids p.accepted_item_ids
    if p.exhausted
        then check_cursor sha256_hex (completed cursor p)
        else update_partial cursor p accepted

  unfoldable pub update_cursor : SourceCursor → CollectionPage → CursorResult SourceCursor
  update_cursor cursor p =
      if is_successful p.status then update_successful cursor p else update_failed cursor p

  -- The pages of successive runs, each applied to the cursor that the one before left.
  unfoldable pub update_all : SourceCursor → List CollectionPage → CursorResult SourceCursor
  update_all cursor [] = ok cursor
  update_all cursor (p ∷ ps) = do next ← update_cursor cursor p; update_all next ps
