-- ===== src/Cursor/Watermark.antt =====
-- What `update_cursor` does to the watermark and the active window.
use native.Mathlib.Nat.{le_refl}
use native.Mathlib.Decide.{dec_le}
use stocks_agent.Common.{
  ◌∙◌, ◌<◌, bind-eq-ok, ℕ, ◌≤◌, ◌≡◌, true, false, Option, none, some, List, [], ◌∷◌, String, arith,
  ok, ◌⊎◌, inl, inr,
}
use stocks_agent.Cursor.Checks.{is_successful, bounded_token, item_ids, token_identities}
use stocks_agent.Cursor.Record.{SourceCursor, check_cursor, continued_history}
use stocks_agent.Cursor.Window.{CollectionWindow}
use stocks_agent.Cursor.Page.{CollectionPage}
use stocks_agent.Cursor.Update.{
  update_cursor, update_all, retried, continued, completed, matches_active, around_watermark,
}
use stocks_agent.Cursor.Validity.{
  IsValid, IsHex, IsWindow, check_cursor-IsValid, check_cursor-fields,
}
use stocks_agent.Cursor.Steps.{
  Replaces, failed, partial, exhausted, accepted_window, update_cursor-path,
}

-- The watermark, if there is one, lies in the window.
abbrev pub IsAround : Option ℕ → CollectionWindow → Type 0
IsAround none w = Unit
IsAround (some time) w = (w.start ≤ time) × (time ≤ w.end)

around_watermark-IsAround :
    (time : Option ℕ) (w : CollectionWindow) → around_watermark time w ≡ true → IsAround time w
around_watermark-IsAround none w h = tt
around_watermark-IsAround (some time) w h = ground arith

-- The window of page `p` was completed in `d`.
pub record IsClosed (p : CollectionPage) (d : SourceCursor) : Type 0 where
  pub successful : is_successful p.status ≡ true
  pub exhausted : p.exhausted ≡ true
  pub watermark : d.completed_through ≡ some p.window.end
  pub no_start : d.active_window_start ≡ none
  pub no_end : d.active_window_end ≡ none
  pub no_token : d.backlog_token ≡ none
  pub first_page : d.page ≡ 1
  pub no_ids : d.accepted_item_ids ≡ []
  pub no_history : d.continuation_token_history ≡ []

-- The window of page `p` stays open in `d`, and the watermark of `c` stays.
pub record IsOpen (c : SourceCursor) (p : CollectionPage) (d : SourceCursor) : Type 0 where
  pub watermark : d.completed_through ≡ c.completed_through
  pub start : d.active_window_start ≡ some p.window.start
  pub end : d.active_window_end ≡ some p.window.end
  pub page : c.page ≤ d.page
  pub retry : d.next_retry_phase ≡ p.next_retry_phase
  pub unfinished : is_successful p.status ≡ true → p.exhausted ≡ false

module _ (sha256_hex : String → String) (c : SourceCursor) (p : CollectionPage)
    (d : SourceCursor) where
  retried-IsOpen :
      is_successful p.status ≡ false
      → IsWindow c.active_window_start c.active_window_end
      → matches_active c p.window ≡ true
      → check_cursor sha256_hex (retried c p) ≡ ok d
      → IsOpen c p d
  unfolding matches_active
  retried-IsOpen f w m e = ground (arith, check_cursor-fields sha256_hex (retried c p) d e)

  continued-IsOpen :
      (accepted history : List String)
      → p.exhausted ≡ false
      → check_cursor sha256_hex (continued c p accepted history) ≡ ok d
      → IsOpen c p d
  continued-IsOpen accepted history x e =
      ground (arith, check_cursor-fields sha256_hex (continued c p accepted history) d e)

  completed-IsClosed :
      is_successful p.status ≡ true
      → p.exhausted ≡ true
      → check_cursor sha256_hex (completed c p) ≡ ok d
      → IsClosed p d
  unfolding check_cursor bounded_token item_ids token_identities continued_history
  completed-IsClosed s x e = ground arith

  Replaces-cases :
      {r : SourceCursor}
      → IsWindow c.active_window_start c.active_window_end
      → matches_active c p.window ≡ true
      → Replaces sha256_hex c p r
      → check_cursor sha256_hex r ≡ ok d
      → IsClosed p d ⊎ IsOpen c p d
  Replaces-cases w m (failed f) e = inr (retried-IsOpen f w m e)
  Replaces-cases w m (partial accepted history s x _ _) e =
      inr (continued-IsOpen accepted history x e)
  Replaces-cases w m (exhausted s x) e = inl (completed-IsClosed s x e)

  -- A page is applied only to a window around the watermark. Either it closes its window, as a
  -- successful and exhausted page does, and the watermark is the window's end; or the watermark
  -- stays, and the window of the page is the active window.
  pub update_cursor-cases :
      IsValid sha256_hex c
      → update_cursor sha256_hex c p ≡ ok d
      → IsAround c.completed_through p.window × (IsClosed p d ⊎ IsOpen c p d)
  update_cursor-cases v e =
      let (matched, around) = accepted_window sha256_hex c p d e in
      let (r, replaces, checked) = update_cursor-path sha256_hex c p d e in
      (around_watermark-IsAround _ _ around, Replaces-cases v.window matched replaces checked)

  -- Whatever page is applied, the cursor that is returned satisfies the whole invariant.
  pub update_cursor-IsValid :
      IsHex sha256_hex → update_cursor sha256_hex c p ≡ ok d → IsValid sha256_hex d
  update_cursor-IsValid hex e =
      let (r, _, checked) = update_cursor-path sha256_hex c p d e in
      check_cursor-IsValid sha256_hex r d checked hex

-- The watermark never moves back, and a cursor that has one keeps one.
pub update_cursor_monotone :
    (sha256_hex : String → String) (c : SourceCursor) (p : CollectionPage) (d : SourceCursor)
    (a : ℕ)
    → IsValid sha256_hex c
    → update_cursor sha256_hex c p ≡ ok d
    → c.completed_through ≡ some a
    → (b : ℕ) × (d.completed_through ≡ some b) × (a ≤ b)
update_cursor_monotone sha256_hex c p d a v e was =
    let (around, moved) = update_cursor-cases sha256_hex c p d v e in
    elim moved [
      | inl closed ↦ (p.window.end, closed.watermark, (rw was at around).1)
      | inr open' ↦ (a, open'.watermark ∙ was, le_refl a)
    ]

-- The time lies in the window of a page that was successful and exhausted.
abbrev pub IsCollected : List CollectionPage → ℕ → Type 0
IsCollected [] time = ⊥
IsCollected (p ∷ ps) time =
    (is_successful p.status ≡ true)
      × (p.exhausted ≡ true)
      × (p.window.start ≤ time)
      × (time ≤ p.window.end)
    ⊎ IsCollected ps time

-- No interval is skipped: whenever a sequence of pages takes the watermark from `a` to `b`, every
-- instant between them lies in the window of one of the pages that succeeded and were exhausted.
pub update_all_collects :
    (sha256_hex : String → String) (c : SourceCursor) (ps : List CollectionPage) (d : SourceCursor)
    (a b time : ℕ)
    → IsHex sha256_hex
    → IsValid sha256_hex c
    → update_all sha256_hex c ps ≡ ok d
    → c.completed_through ≡ some a
    → d.completed_through ≡ some b
    → a < time
    → time ≤ b
    → IsCollected ps time
unfolding update_all
update_all_collects sha256_hex c [] d a b time hex v e from to low high = absurd (ground arith)
update_all_collects sha256_hex c (p ∷ ps) d a b time hex v e from to low high =
    let (next, first, rest) =
      bind-eq-ok (update_cursor sha256_hex c p) (λ n. update_all sha256_hex n ps) e in
    let valid = update_cursor-IsValid sha256_hex c p next hex first in
    let (around, moved) = update_cursor-cases sha256_hex c p next v first in
    elim moved [
      | inl closed ↦ elim (dec_le time p.window.end) [
        | yes within ↦
            inl
              (closed.successful, closed.exhausted, (omega (arith, (rw from at around).0)), within)
        | no beyond ↦ inr (
            update_all_collects sha256_hex next ps d p.window.end b time hex valid rest
              closed.watermark to (omega arith) high)
      ]
      | inr kept ↦ inr (
          update_all_collects sha256_hex next ps d a b time hex valid rest (kept.watermark ∙ from)
            to low high)
    ]

-- The same sequence of pages leaves a valid cursor.
pub update_all-IsValid :
    (sha256_hex : String → String) (c : SourceCursor) (ps : List CollectionPage) (d : SourceCursor)
    → IsHex sha256_hex
    → IsValid sha256_hex c
    → update_all sha256_hex c ps ≡ ok d
    → IsValid sha256_hex d
unfolding update_all
update_all-IsValid sha256_hex c [] d hex v e = ground arith
update_all-IsValid sha256_hex c (p ∷ ps) d hex v e =
    let (next, first, rest) =
      bind-eq-ok (update_cursor sha256_hex c p) (λ n. update_all sha256_hex n ps) e in
    update_all-IsValid sha256_hex next ps d hex
      (update_cursor-IsValid sha256_hex c p next hex first) rest
