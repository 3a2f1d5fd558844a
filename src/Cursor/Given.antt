-- ===== src/Cursor/Given.antt =====
-- `window_from_cursor` of lib/intelligence/cursors.py gives a window, and `update_cursor` completes it.
use Prim.Native.Nat.{max}
use stocks_agent.Common.{
  ◌*◌, ◌/◌, ℕ, ◌+◌, ◌-◌, ◌≤◌, ◌≡◌, refl, true, Option, none, some, [], ◌++◌, String, arith, ok, all,
  length,
}
use stocks_agent.Cursor.Checks.{
  is_successful, is_item_id, bounded_token, phase_allowed, minimum_overlap, max_accepted_item_ids,
}
use stocks_agent.Cursor.Record.{SourceCursor}
use stocks_agent.Cursor.Window.{
  CollectionWindow, check_window, earlier, fresh_start, open_window, resume_window,
  window_from_cursor, days_31, second,
}
use stocks_agent.Cursor.Page.{CollectionPage}
use stocks_agent.Cursor.Update.{
  update_cursor, update_successful, first_occurrences, completed, around_watermark,
}
use stocks_agent.Cursor.Validity.{IsValid, IsContinued, check_cursor-of_valid, maximum_ge_two}
use stocks_agent.Cursor.Merged.{merged_ids-fit}
use stocks_agent.Cursor.Opening.{IsAligned, IsRecent, Reaches, window_from_cursor-accepted}

completed-IsValid :
    (sha256_hex : String → String) (c : SourceCursor) (p : CollectionPage)
    → IsValid sha256_hex c
    → IsValid sha256_hex (completed c p)
unfolding phase_allowed
completed-IsValid sha256_hex c p v = record {
  provider_named = v.provider_named;
  capability_named = v.capability_named;
  window = tt;
  overlap = tt;
  continued = tt;
  page_pos = omega arith;
  page_bounded = omega (arith, maximum_ge_two c.capability_id);
  ids_bounded = omega arith;
  ids_valid = refl;
  ids_distinct = refl;
  history_bounded = omega arith;
  history_valid = refl;
  history_distinct = refl;
  phase = refl;
}

module _ (sha256_hex : String → String) (c : SourceCursor) (run_at overlap max_backfill : ℕ)
    (long : minimum_overlap ≤ overlap) (covered : overlap ≤ max_backfill)
    (bounded : max_backfill ≤ days_31) (dated : days_31 + days_31 ≤ run_at) where
  seconds : (minimum_overlap / second ≤ overlap / second) × (overlap / second ≤ 31 * 24 * 60 * 60)
  seconds = omega arith

  abbrev window_of : (start end : ℕ) → Option String → CollectionWindow
  window_of start end token = record {
    start = start;
    end = end;
    overlap_seconds = overlap / second;
    backlog_token = token;
  }

  checked :
      (start end : ℕ) (token : Option String)
      → start ≤ end
      → bounded_token token ≡ ok token
      → check_window (window_of start end token) ≡ ok (window_of start end token)
  unfolding check_window
  checked start end token ordered named = ground (arith, seconds)

  fresh_window :
      (completed : Option ℕ)
      → ((a : ℕ) → completed ≡ some a → (run_at ≤ a + max_backfill) × (a ≤ run_at))
      → (start : ℕ) × (fresh_start completed (run_at - max_backfill) overlap ≡ ok start)
        × (start ≤ run_at)
  unfolding fresh_start earlier
  fresh_window none recent = (run_at - max_backfill, refl, omega arith)
  fresh_window (some a) recent =
      let near = recent a refl in
      (max (run_at - max_backfill) (a - overlap), ground arith, ground arith)

  idle_window :
      IsRecent c run_at max_backfill
      → c.active_window_start ≡ none
      → (w : CollectionWindow) × (window_from_cursor c run_at overlap max_backfill ≡ ok w)
  unfolding window_from_cursor resume_window open_window earlier bounded_token
  idle_window recent idle =
      let (start, found, ordered) = fresh_window c.completed_through (λ a at. recent a idle at) in
      let passed = checked start run_at none ordered refl in
      (window_of start run_at none, ground arith)

  token_of :
      (token : Option String) → IsContinued sha256_hex c token → bounded_token token ≡ ok token
  unfolding bounded_token
  token_of none known = refl
  token_of (some token) known = rw known.0 refl

  active_window :
      IsValid sha256_hex c
      → (start end : ℕ) → c.active_window_start ≡ some start
      → c.active_window_end ≡ some end
      → (w : CollectionWindow) × (window_from_cursor c run_at overlap max_backfill ≡ ok w)
  unfolding window_from_cursor resume_window
  active_window v start end from to =
      let ordered : start ≤ end = ground (arith, v.window) in
      let passed =
        checked start end c.backlog_token ordered (token_of c.backlog_token v.continued) in
      (window_of start end c.backlog_token, ground arith)

  given :
      IsValid sha256_hex c
      → IsRecent c run_at max_backfill
      → (start end : Option ℕ) → c.active_window_start ≡ start
      → c.active_window_end ≡ end
      → (w : CollectionWindow) × (window_from_cursor c run_at overlap max_backfill ≡ ok w)
  given v recent none end from to = idle_window recent from
  given v recent (some start) (some end) from to = active_window v start end from to
  given v recent (some start) none from to = absurd (ground (arith, v.window))

  -- Collection makes progress. The cursor satisfies the invariant, is aligned, and is recent at the run (its
  -- watermark, where no window is active, is not after the run and at most the maximum backfill before it).
  -- The overlap is at least two hours and at most the maximum backfill, which is at most 31 days, and the run
  -- is at least 62 days after `datetime.min`. Then the cursor is given a window, which does not end before the
  -- watermark, and a successful page that exhausts it moves the watermark to its end and leaves the
  -- cursor idle at page 1, if the item IDs of the page are valid and those that differ, with the ones collected
  -- before, are at most 500.
  pub window_from_cursor-completes :
      (p : CollectionPage)
      → IsValid sha256_hex c
      → IsAligned c
      → IsRecent c run_at max_backfill
      → is_successful p.status ≡ true
      → p.exhausted ≡ true
      → all is_item_id p.accepted_item_ids ≡ true
      → length (first_occurrences [] (c.accepted_item_ids ++ p.accepted_item_ids))
        ≤ max_accepted_item_ids
      → (w : CollectionWindow) × (window_from_cursor c run_at overlap max_backfill ≡ ok w)
        × Reaches c.completed_through (some w.end)
        × (update_cursor sha256_hex c (record p { window = w })
            ≡ ok (record (completed c p) { completed_through = some w.end }))
  unfolding update_cursor update_successful
  window_from_cursor-completes p v aligned recent s x valid fit =
      let (w, found) = given v recent c.active_window_start c.active_window_end refl refl in
      let accepted =
        (window_from_cursor-accepted sha256_hex c run_at overlap max_backfill w found v).1
          (aligned, recent) in
      let merged = merged_ids-fit c.accepted_item_ids p.accepted_item_ids v.ids_valid valid fit in
      let q : CollectionPage = record p { window = w } in
      let checked_end =
        check_cursor-of_valid sha256_hex (completed c q) (completed-IsValid sha256_hex c q v) in
      (
        w,
        found,
        reaches c.completed_through w accepted.1,
        ground (arith, accepted, merged, checked_end),
      )
    where
      reaches :
          (completed : Option ℕ) (w : CollectionWindow)
          → around_watermark completed w ≡ true
          → Reaches completed (some w.end)
      reaches none w h = tt
      reaches (some a) w h = ground arith
