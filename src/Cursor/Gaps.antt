-- ===== src/Cursor/Gaps.antt =====
-- What the pipeline's results do to a cursor.
use stocks_agent.Common.{
  ◌≡◌, refl, true, false, Option, none, some, [], ◌∷◌, String, arith, ok, ◌⊎◌, inl, inr, contains,
  bind-eq-ok, Bool-cases, ◌↔◌,
}
use stocks_agent.Cursor.Checks.{cursor_statuses, is_successful}
use stocks_agent.Cursor.Record.{SourceCursor}
use stocks_agent.Cursor.Window.{CollectionWindow}
use stocks_agent.Cursor.Page.{check_page}
use stocks_agent.Cursor.Update.{update_cursor}
use stocks_agent.Cursor.Validity.{IsValid}
use stocks_agent.Cursor.Watermark.{IsOpen, update_cursor-cases}
use stocks_agent.Cursor.Pages.{IsFlagged, check_page-eq-ok}
use stocks_agent.Cursor.Collected.{
  CollectionResult, cursor_status, failed_status, is_terminal_gap, result_page,
  updated_source_cursor,
}

-- The flags of a page that is made from a result are consistent, whatever the metadata says.
pub result_page-IsFlagged :
    (w : CollectionWindow) (r : CollectionResult)
    → let p = result_page w r in IsFlagged (is_successful p.status) p.exhausted p.truncated
unfolding result_page is_terminal_gap
result_page-IsFlagged w r = ground arith

failed_status-known :
    (coverage : Option String) → contains (failed_status coverage) cursor_statuses ≡ true
failed_status-known none = refl
failed_status-known (some coverage) =
    elim (Bool-cases (contains coverage ("configuration_missing" ∷ "unsupported" ∷ []))) [
      | inl named ↦ rw named (ground arith)
      | inr other ↦ rw other
    ]

-- Every status that is derived from a receipt is one that a page may have.
pub cursor_status-known : (r : CollectionResult) → contains (cursor_status r) cursor_statuses ≡ true
unfolding cursor_status
cursor_status-known r =
    elim (Bool-cases (contains r.status ("succeeded" ∷ "cache_hit" ∷ "quota_blocked" ∷ []))) [
      | inl known ↦ rw known (ground arith)
      | inr other ↦ rw other (failed_status-known r.metadata.coverage_status)
    ]

-- When a result closes its window.
abbrev pub Finishes : CollectionResult → Type 0
Finishes r =
    (is_successful (cursor_status r) ≡ true)
    × ((is_terminal_gap true r.metadata ≡ true)
        ⊎ (r.metadata.truncated ≡ false) × (r.metadata.backlog_remaining ≡ false))

exhausted-Finishes :
    (w : CollectionWindow) (r : CollectionResult)
    → ((result_page w r).exhausted ≡ true) ↔ Finishes r
unfolding result_page
exhausted-Finishes w r = ground arith

module _ (sha256_hex : String → String) (c : SourceCursor) (w : CollectionWindow)
    (r : CollectionResult) (d : SourceCursor) where
  -- A result that is applied moves the watermark to the end of its window exactly when it
  -- succeeded and either left nothing behind or overflowed a feed that cannot be continued; any
  -- other result leaves the watermark and keeps the window active.
  pub updated_source_cursor-cases :
      IsValid sha256_hex c
      → updated_source_cursor sha256_hex c w r ≡ ok d
      → (Finishes r × (d.completed_through ≡ some w.end) × (d.active_window_start ≡ none))
        ⊎ ((¬ Finishes r)
            × (d.completed_through ≡ c.completed_through)
            × (d.active_window_start ≡ some w.start)
            × (d.active_window_end ≡ some w.end))
  unfolding updated_source_cursor result_page
  updated_source_cursor-cases v e =
      let (page, checked, updated) =
        bind-eq-ok (check_page (result_page w r)) (update_cursor sha256_hex c) e in
      let (same, _) = (check_page-eq-ok (result_page w r) page).0 checked in
      let (_, moved) =
        update_cursor-cases sha256_hex c (result_page w r) d v (rw same at updated) in
      elim moved [
        | inl closed ↦
            inl ((exhausted-Finishes w r).0 closed.exhausted, closed.watermark, closed.no_start)
        | inr kept ↦
            inr (λ finished. unfinished kept finished, kept.watermark, kept.start, kept.end)
      ]
    where
      unfinished : IsOpen c (result_page w r) d → Finishes r → ⊥
      unfinished kept finished =
          absurd (cc (kept.unfinished finished.0, (exhausted-Finishes w r).1 finished))
