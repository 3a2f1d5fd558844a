-- ===== src/Cursor/Examples.antt =====
-- Source cursors on small inputs, and the theorems at them.
use stocks_agent.Common.{
  ◌↔◌, ℕ, ◌+◌, ◌≤◌, ◌≡◌, ◌≢◌, refl, true, false, none, some, List, [], ◌∷◌, String, arith, ok,
  raise, ◌⊎◌, inl, inr, contains, if◌then◌else◌, Bool-cases,
}
use stocks_agent.Cursor.Checks.{
  is_name, is_token, is_identity, is_item_id, item_ids, token_identities, bounded_token,
  maximum_collection_page, phase_allowed, is_successful, token_repeated,
}
use stocks_agent.Cursor.Record.{SourceCursor, check_cursor, continued_history}
use stocks_agent.Cursor.Window.{
  CollectionWindow, check_window, window_from_cursor, earlier, fresh_start, open_window,
  resume_window,
}
use stocks_agent.Cursor.Page.{CollectionPage, check_page}
use stocks_agent.Cursor.Update.{
  update_cursor, update_all, update_failed, update_successful, update_partial, next_history,
  last_identities, merged_ids, first_occurrences, matches_active, around_watermark, completed,
}
use stocks_agent.Cursor.Validity.{IsValid, IsHex, check_cursor-IsValid}
use stocks_agent.Cursor.Watermark.{
  IsAround, IsClosed, IsOpen, update_cursor-cases, update_cursor-IsValid, IsCollected,
  update_all_collects,
}
use stocks_agent.Cursor.Progress.{continuations, update_all-page, update_cursor-token}
use stocks_agent.Cursor.Opening.{
  IsAligned, window_from_cursor-accepted, IsRecent, Reaches, window_from_cursor-stale,
  update_cursor-IsAligned,
}
use stocks_agent.Cursor.Given.{window_from_cursor-completes}
use stocks_agent.Cursor.Collected.{
  CollectionResult, result_page, updated_source_cursor, cursor_status, is_terminal_gap,
}
use stocks_agent.Cursor.Gaps.{Finishes, updated_source_cursor-cases}

-- A stand-in for SHA-256 in hexadecimal.
abbrev digest : String → String
digest token =
    if contains token ("next" ∷ [])
    then "00000000000000000000000000000000000000000000000000000000000000a1"
    else "00000000000000000000000000000000000000000000000000000000000000b2"

digest-IsHex : IsHex digest
unfolding is_identity
digest-IsHex token = elim (Bool-cases (contains token ("next" ∷ []))) [
  | inl next ↦ rw next
  | inr other ↦ rw other
]

abbrev idle : SourceCursor
idle = record {
  provider = "gdelt";
  capability_id = "gdelt_theme_search";
  completed_through = some 5000000000000;
  active_window_start = none;
  active_window_end = none;
  backlog_token = none;
  page = 1;
  accepted_item_ids = [];
  next_retry_phase = none;
  continuation_token_history = [];
}

abbrev window : CollectionWindow
window = record {
  start = 4992800000000;
  end = 5010000000000;
  overlap_seconds = 7200;
  backlog_token = none;
}

abbrev first_page : CollectionPage
first_page = record {
  window = window;
  status = "succeeded";
  exhausted = false;
  truncated = true;
  backlog_token = some "next";
  accepted_item_ids = "a" ∷ "b" ∷ [];
  next_retry_phase = some "intraday";
}

abbrev last_page : CollectionPage
last_page = record first_page {
  exhausted = true;
  truncated = false;
  backlog_token = none;
  accepted_item_ids = "b" ∷ "c" ∷ [];
  next_retry_phase = none;
}

abbrev failed_page : CollectionPage
failed_page = record last_page { status = "failed"; exhausted = false; accepted_item_ids = [] }

abbrev active : SourceCursor
active = record idle {
  active_window_start = some 4992800000000;
  active_window_end = some 5010000000000;
  backlog_token = some "next";
  page = 2;
  accepted_item_ids = "a" ∷ "b" ∷ [];
  next_retry_phase = some "intraday";
  continuation_token_history = digest "next" ∷ [];
}

abbrev collected : SourceCursor
collected = record idle { completed_through = some 5010000000000 }

program : Unit {0}
unfolding check_cursor continued_history is_name is_token is_identity is_item_id item_ids
    token_identities bounded_token maximum_collection_page phase_allowed is_successful check_window
    window_from_cursor earlier fresh_start open_window resume_window check_page update_cursor
    update_all update_failed update_successful update_partial next_history last_identities
    merged_ids first_occurrences matches_active updated_source_cursor result_page cursor_status
    is_terminal_gap
program = tt

idle-IsValid : IsValid digest idle
unfolding program
idle-IsValid = check_cursor-IsValid digest idle idle refl digest-IsHex

active-IsValid : IsValid digest active
unfolding program
active-IsValid = check_cursor-IsValid digest active active refl digest-IsHex

opened : window_from_cursor idle 5010000000000 7200000000 604800000000 ≡ ok window
unfolding program
opened = refl

paged : update_cursor digest idle first_page ≡ ok active
unfolding program
paged = refl

repeated : update_cursor digest active first_page ≡ raise token_repeated
unfolding program
repeated = refl

finished : update_all digest idle (first_page ∷ failed_page ∷ last_page ∷ []) ≡ ok collected
unfolding program
finished = refl

abbrev pages : List CollectionPage
pages = first_page ∷ failed_page ∷ last_page ∷ []

update_all_collects_example : IsCollected pages 5005000000000
update_all_collects_example =
    update_all_collects digest idle pages collected 5000000000000 5010000000000 5005000000000
      digest-IsHex idle-IsValid finished refl refl (omega arith) (omega arith)

update_cursor-IsValid_example : IsValid digest active
update_cursor-IsValid_example =
    update_cursor-IsValid digest idle first_page active digest-IsHex paged

update_cursor-cases_example :
    IsAround idle.completed_through first_page.window
    × (IsClosed first_page active ⊎ IsOpen idle first_page active)
update_cursor-cases_example = update_cursor-cases digest idle first_page active idle-IsValid paged

paged_all : update_all digest idle (first_page ∷ []) ≡ ok active
unfolding program
paged_all = refl

-- The failed page comes between two runs of the window, and takes no page number.
interrupted :
    update_all digest idle (first_page ∷ failed_page ∷ [])
    ≡ ok (record active { next_retry_phase = failed_page.next_retry_phase })
unfolding program
interrupted = refl

update_all-page_example :
    (idle.page + continuations (first_page ∷ failed_page ∷ []) ≤ active.page)
    × (active.page ≤ maximum_collection_page idle.capability_id)
unfolding program
update_all-page_example =
    update_all-page digest idle (first_page ∷ failed_page ∷ [])
      (record active { next_retry_phase = failed_page.next_retry_phase }) digest-IsHex idle-IsValid
      (refl, (refl, tt)) interrupted

update_cursor-token_example :
    (contains (digest "next") idle.continuation_token_history ≡ false)
    × (contains (digest "next") active.continuation_token_history ≡ true)
    × (active.backlog_token ≡ some "next")
unfolding program
update_cursor-token_example =
    update_cursor-token digest idle first_page active "next" digest-IsHex refl refl refl paged

recent :
    (a : ℕ)
    → idle.active_window_start ≡ none
    → idle.completed_through ≡ some a
    → (5010000000000 ≤ a + 604800000000) × (a ≤ 5010000000000)
recent a _ at = ground arith

window_from_cursor-accepted_example :
    ((matches_active idle window ≡ true) × (around_watermark idle.completed_through window ≡ true))
    ↔ (IsAligned idle × IsRecent idle 5010000000000 604800000000)
window_from_cursor-accepted_example =
    window_from_cursor-accepted digest idle 5010000000000 7200000000 604800000000 window opened
      idle-IsValid

-- The same cursor after eight days without a run, with seven days of backfill.
abbrev late_window : CollectionWindow
late_window = record window { start = 5086400000000; end = 5691200000000 }

late_opened : window_from_cursor idle 5691200000000 7200000000 604800000000 ≡ ok late_window
unfolding program
late_opened = refl

window_from_cursor-stale_example :
    update_cursor digest idle (record last_page { window = late_window }) ≢ ok collected
window_from_cursor-stale_example =
    window_from_cursor-stale digest idle 5691200000000 7200000000 604800000000 late_window
      late_opened 5000000000000 (record last_page { window = late_window }) collected refl refl
      (omega arith) refl

-- The cursor at a watermark of our time.
abbrev dated : SourceCursor
dated = record idle { completed_through = some 63900000000000000 }

dated-IsValid : IsValid digest dated
unfolding program
dated-IsValid = check_cursor-IsValid digest dated dated refl digest-IsHex

dated-IsRecent : IsRecent dated 63900010000000000 604800000000
dated-IsRecent a _ at = ground arith

window_from_cursor-completes_example :
    (w : CollectionWindow) × (window_from_cursor dated 63900010000000000 7200000000 604800000000
      ≡ ok w)
    × Reaches dated.completed_through (some w.end)
    × (update_cursor digest dated (record last_page { window = w })
        ≡ ok (record (completed dated last_page) { completed_through = some w.end }))
unfolding program
window_from_cursor-completes_example =
    window_from_cursor-completes digest dated 63900010000000000 7200000000 604800000000
      (omega arith) (omega arith) (omega arith) (omega arith) last_page dated-IsValid tt
      dated-IsRecent refl refl refl (omega arith)

update_cursor-IsAligned_example : IsAligned active
update_cursor-IsAligned_example =
    update_cursor-IsAligned digest idle first_page active idle-IsValid paged

-- A rolling feed that overflowed: it is cut off, and cannot be continued.
abbrev overflow : CollectionResult
overflow = record {
  status = "succeeded";
  metadata = record {
    truncated = true;
    backlog_remaining = false;
    coverage_gap = true;
    continuation_unavailable = true;
    backlog_token = none;
    next_retry_phase = none;
    coverage_status = none;
  };
  items = record { upstream_item_id = some "a"; content_hash = "h" } ∷ [];
}

overflowed : updated_source_cursor digest idle window overflow ≡ ok collected
unfolding program
overflowed = refl

updated_source_cursor-cases_example :
    Finishes overflow
      × (collected.completed_through ≡ some window.end)
      × (collected.active_window_start ≡ none)
    ⊎ (¬ Finishes overflow)
      × (collected.completed_through ≡ idle.completed_through)
      × (collected.active_window_start ≡ some window.start)
      × (collected.active_window_end ≡ some window.end)
updated_source_cursor-cases_example =
    updated_source_cursor-cases digest idle window overflow collected idle-IsValid overflowed
