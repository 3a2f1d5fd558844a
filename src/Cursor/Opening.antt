-- ===== src/Cursor/Opening.antt =====
-- `window_from_cursor` against `update_cursor`: which windows are opened, and which are accepted.
use stocks_agent.Common.{
  ℕ, ◌+◌, ◌-◌, ◌≤◌, ◌<◌, ◌≡◌, ◌≢◌, refl, true, Option, none, some, String, arith, ok, ◌⊎◌, ◌↔◌, inl,
  inr, Option-cases,
}
use stocks_agent.Cursor.Checks.{bounded_token}
use stocks_agent.Cursor.Record.{SourceCursor}
use stocks_agent.Cursor.Window.{
  CollectionWindow, check_window, earlier, fresh_start, open_window, resume_window,
  window_from_cursor,
}
use stocks_agent.Cursor.Page.{CollectionPage}
use stocks_agent.Cursor.Update.{update_cursor, matches_active, around_watermark, completed}
use stocks_agent.Cursor.Validity.{IsValid}
use stocks_agent.Cursor.Steps.{accepted_window}
use stocks_agent.Cursor.Watermark.{IsAround, update_cursor-cases}

-- The start of a window that reaches back from the watermark `completed`, or from `run_at`.
abbrev pub StartsAt : Option ℕ → (run_at overlap max_backfill start : ℕ) → Type 0
StartsAt none run_at overlap max_backfill start = start + max_backfill ≡ run_at
StartsAt (some completed) run_at overlap max_backfill start =
    (run_at ≤ start + max_backfill)
    × (completed ≤ start + overlap)
    × ((start + max_backfill ≡ run_at) ⊎ (start + overlap ≡ completed))

-- What a new window of an idle cursor is.
pub record IsOpened (c : SourceCursor) (run_at overlap max_backfill : ℕ) (w : CollectionWindow)
    : Type 0 where
  pub start : StartsAt c.completed_through run_at overlap max_backfill w.start
  pub end : w.end ≡ run_at
  pub ordered : w.start ≤ run_at
  pub no_token : w.backlog_token ≡ none

fresh_start-StartsAt :
    (completed : Option ℕ) (run_at overlap max_backfill start : ℕ)
    → max_backfill ≤ run_at
    → fresh_start completed (run_at - max_backfill) overlap ≡ ok start
    → StartsAt completed run_at overlap max_backfill start
unfolding fresh_start earlier
fresh_start-StartsAt none run_at overlap max_backfill start fits e = ground arith
fresh_start-StartsAt (some completed) run_at overlap max_backfill start fits e = ground arith

module _ (c : SourceCursor) (run_at overlap max_backfill : ℕ) (w : CollectionWindow)
    (e : window_from_cursor c run_at overlap max_backfill ≡ ok w) where
  opened_start :
      c.active_window_start ≡ none
      → (max_backfill ≤ run_at)
        × (fresh_start c.completed_through (run_at - max_backfill) overlap ≡ ok w.start)
  unfolding window_from_cursor resume_window open_window earlier check_window
  opened_start idle = ground arith

  opened_rest :
      c.active_window_start ≡ none
      → (w.end ≡ run_at) × (w.start ≤ run_at) × (w.backlog_token ≡ none)
  unfolding window_from_cursor resume_window open_window earlier check_window bounded_token
  opened_rest idle = ground arith

  -- An idle cursor gets a window that ends at the run, and that reaches back either to the
  -- watermark less the overlap or, if that is nearer, by the maximum backfill.
  pub window_from_cursor-IsOpened :
      c.active_window_start ≡ none → IsOpened c run_at overlap max_backfill w
  window_from_cursor-IsOpened idle =
      let (fits, found) = opened_start idle in
      let (ends, ordered, no_token) = opened_rest idle in
      record {
        start =
            fresh_start-StartsAt c.completed_through run_at overlap max_backfill w.start fits found;
        end = ends;
        ordered = ordered;
        no_token = no_token;
      }

  -- A cursor with an active window gets that window and its backlog token, whenever it runs.
  pub window_from_cursor-resumes :
      (start end : ℕ)
      → c.active_window_start ≡ some start
      → c.active_window_end ≡ some end
      → (w.start ≡ start) × (w.end ≡ end) × (w.backlog_token ≡ c.backlog_token)
  unfolding window_from_cursor resume_window check_window bounded_token
  window_from_cursor-resumes start end from to = ground arith

-- The active window, where there is one, reaches up to the watermark.
abbrev pub Reaches : Option ℕ → Option ℕ → Type 0
Reaches (some completed) (some end) = completed ≤ end
Reaches _ _ = Unit

abbrev pub IsAligned : SourceCursor → Type 0
IsAligned c = Reaches c.completed_through c.active_window_end

-- Every cursor that `update_cursor` returns is aligned.
pub update_cursor-IsAligned :
    (sha256_hex : String → String) (c : SourceCursor) (p : CollectionPage) (d : SourceCursor)
    → IsValid sha256_hex c
    → update_cursor sha256_hex c p ≡ ok d
    → IsAligned d
update_cursor-IsAligned sha256_hex c p d v e =
    let (around, moved) = update_cursor-cases sha256_hex c p d v e in
    elim moved [
      | inl closed ↦ rw (closed.watermark, closed.no_end) tt
      | inr kept ↦ rw (kept.watermark, kept.end) (reach c.completed_through around)
    ]
  where
    reach : (a : Option ℕ) → IsAround a p.window → Reaches a (some p.window.end)
    reach none h = tt
    reach (some a) h = h.1

-- The watermark of an idle cursor lies between the earliest start that the run allows and the run.
abbrev pub IsRecent : SourceCursor → (run_at max_backfill : ℕ) → Type 0
IsRecent c run_at max_backfill =
    (a : ℕ)
    → c.active_window_start ≡ none
    → c.completed_through ≡ some a
    → (run_at ≤ a + max_backfill) × (a ≤ run_at)

module _ (sha256_hex : String → String) (c : SourceCursor) (run_at overlap max_backfill : ℕ)
    (w : CollectionWindow) (e : window_from_cursor c run_at overlap max_backfill ≡ ok w) where
  opened_matches : matches_active c w ≡ true
  unfolding window_from_cursor resume_window check_window matches_active
  opened_matches = ground arith

  opened_around :
      (a : ℕ) (start end : Option ℕ)
      → c.active_window_start ≡ start
      → c.active_window_end ≡ end
      → c.completed_through ≡ some a
      → IsValid sha256_hex c
      → IsAligned c
      → IsRecent c run_at max_backfill
      → (w.start ≤ a) × (a ≤ w.end)
  opened_around a none end from to at v aligned recent =
      let opened = window_from_cursor-IsOpened c run_at overlap max_backfill w e from in
      let start = rw at at opened.start in
      let near = recent a from at in ground (arith, opened.end, start, near)
  opened_around a (some start) (some end) from to at v aligned recent = ground (
    arith,
    window_from_cursor-resumes c run_at overlap max_backfill w e start end from to,
    v.overlap,
  )
  opened_around a (some start) none from to at v aligned recent = ground (arith, v.window)

  opened_back :
      (a : ℕ) (start end : Option ℕ)
      → c.active_window_start ≡ start
      → c.active_window_end ≡ end
      → c.completed_through ≡ some a
      → IsValid sha256_hex c
      → w.start ≤ a
      → a ≤ w.end
      → Reaches (some a) end × (start ≡ none → (run_at ≤ a + max_backfill) × (a ≤ run_at))
  opened_back a none none from to at v before behind =
      let opened = window_from_cursor-IsOpened c run_at overlap max_backfill w e from in
      let start = rw at at opened.start in (tt, λ idle. ground (arith, opened.end, start))
  opened_back a none (some end) from to at v before behind = absurd (ground (arith, v.window))
  opened_back a (some start) (some end) from to at v before behind =
      let resumed =
        window_from_cursor-resumes c run_at overlap max_backfill w e start end from to in
      (ground (arith, resumed), λ idle. absurd cc)
  opened_back a (some start) none from to at v before behind = absurd (ground (arith, v.window))

  -- The window that a cursor is given passes the two guards that `update_cursor` has for windows exactly if
  -- the cursor is aligned and recent. The cursor satisfies the invariant. It is aligned if its active
  -- window, where it has one, reaches up to its watermark, and it is recent if its watermark, where it has
  -- one and no window is active, is not after the run and older than the run by at most the maximum backfill.
  pub window_from_cursor-accepted :
      IsValid sha256_hex c
      → ((matches_active c w ≡ true) × (around_watermark c.completed_through w ≡ true))
        ↔ (IsAligned c × IsRecent c run_at max_backfill)
  window_from_cursor-accepted v = (
    λ accepted. (aligned accepted.1, recent accepted.1),
    λ fits. (opened_matches, around fits.0 fits.1),
  )
    where
      lies_around :
          (a : ℕ)
          → c.completed_through ≡ some a
          → around_watermark c.completed_through w ≡ true
          → (w.start ≤ a) × (a ≤ w.end)
      lies_around a at h = let h' = rw at at h in ground (arith, h')

      aligned : around_watermark c.completed_through w ≡ true → IsAligned c
      aligned h = elim (Option-cases c.completed_through) [
        | inl fresh ↦ rw fresh tt
        | inr (a, at) ↦
            let (before, behind) = lies_around a at h in
            rw at
              (opened_back a c.active_window_start c.active_window_end refl refl at v before
                behind).0
      ]

      recent : around_watermark c.completed_through w ≡ true → IsRecent c run_at max_backfill
      recent h a idle at =
          let (before, behind) = lies_around a at h in
          (opened_back a c.active_window_start c.active_window_end refl refl at v before behind).1
            idle

      around :
          IsAligned c
          → IsRecent c run_at max_backfill
          → around_watermark c.completed_through w ≡ true
      around aligned recent = elim (Option-cases c.completed_through) [
        | inl fresh ↦ rw fresh
        | inr (a, at) ↦ rw at (
            ground (
              arith,
              opened_around a c.active_window_start c.active_window_end refl refl at v aligned
                  recent,
            ))
      ]

  -- An idle cursor whose watermark is older than the maximum backfill gets a window that starts
  -- behind the watermark, and no page of that window is ever applied to it.
  pub window_from_cursor-stale :
      (a : ℕ) (p : CollectionPage) (d : SourceCursor)
      → c.active_window_start ≡ none
      → c.completed_through ≡ some a
      → a + max_backfill < run_at
      → p.window ≡ w
      → update_cursor sha256_hex c p ≢ ok d
  window_from_cursor-stale a p d idle at old same updated =
      let opened = window_from_cursor-IsOpened c run_at overlap max_backfill w e idle in
      let start = rw at at opened.start in
      let (_, around) = accepted_window sha256_hex c p d updated in
      let around' = rw (at, same) at around in ground (arith, start, around')
