-- ===== src/Cursor/Record.antt =====
-- `SourceCursor` of lib/intelligence/cursors.py. The constructor's arguments and the object have
-- the same fields; `check_cursor` is `__post_init__`, and `replace(cursor, …)` is `check_cursor` of
-- an updated record. SHA-256 is the parameter `sha256_hex`.
use stocks_agent.Common.{
  ℕ, Bool, true, false, not, ◌&&◌, ◌||◌, Option, none, some, List, [], ◌∷◌, String, leb, ◌==◌,
  is_some, if◌then◌else◌, contains, ok, raise, ◌>>=◌, ◌>>◌, guard,
}
use stocks_agent.Cursor.Checks.{
  CursorResult, provider_invalid, capability_invalid, window_half_open, window_unordered,
  window_off_watermark, token_without_window, page_invalid, phase_invalid, token_not_in_history,
  maximum_collection_page, bounded_token, item_ids, token_identities, is_name, phase_allowed,
}

pub record SourceCursor : Type 0 where
  pub provider : String
  pub capability_id : String
  pub completed_through : Option ℕ
  pub active_window_start : Option ℕ
  pub active_window_end : Option ℕ
  pub backlog_token : Option String
  pub page : ℕ
  pub accepted_item_ids : List String
  pub next_retry_phase : Option String
  pub continuation_token_history : List String

-- `(start is None) == (end is None)`
abbrev pub both_or_neither : Option ℕ → Option ℕ → Bool
both_or_neither none none = true
both_or_neither (some _) (some _) = true
both_or_neither _ _ = false

-- `not (start is not None and start > end)`
abbrev pub window_ordered : Option ℕ → Option ℕ → Bool
window_ordered (some start) (some end) = leb start end
window_ordered _ _ = true

-- `not (completed is not None and start is not None and start > completed)`
abbrev pub overlaps_watermark : Option ℕ → Option ℕ → Bool
overlaps_watermark (some completed) (some start) = leb start completed
overlaps_watermark _ _ = true

-- The history that an active backlog token needs.
unfoldable pub continued_history :
    (String → String) → Option String → List String → CursorResult (List String)
continued_history sha256_hex none history = ok history
continued_history sha256_hex (some token) [] = ok (sha256_hex token ∷ [])
continued_history sha256_hex (some token) (h ∷ hs) =
    if contains (sha256_hex token) (h ∷ hs) then ok (h ∷ hs) else raise token_not_in_history

unfoldable pub check_cursor : (String → String) → SourceCursor → CursorResult SourceCursor
check_cursor sha256_hex c = do
  guard (is_name 1 c.provider) provider_invalid
  guard (is_name 2 c.capability_id) capability_invalid
  guard (both_or_neither c.active_window_start c.active_window_end) window_half_open
  guard (window_ordered c.active_window_start c.active_window_end) window_unordered
  guard (overlaps_watermark c.completed_through c.active_window_start) window_off_watermark
  backlog ← bounded_token c.backlog_token
  guard (not (is_some backlog) || is_some c.active_window_start) token_without_window
  guard (leb 1 c.page && leb c.page (maximum_collection_page c.capability_id)) page_invalid
  let page = if is_some backlog && c.page == 1 then 2 else c.page
  ids ← item_ids c.accepted_item_ids
  history ← token_identities c.continuation_token_history
  history' ← continued_history sha256_hex backlog history
  guard (phase_allowed c.next_retry_phase) phase_invalid
  ok (record c {
    backlog_token = backlog;
    page = page;
    accepted_item_ids = ids;
    continuation_token_history = history';
  })
