-- ===== src/Cursor/Steps.antt =====
-- The transitions of a source cursor: what `update_cursor` may do to the watermark, the active
-- window and the token history, with the validators and `replace` left out.
use stocks_agent.Common.{
  ◌≡◌, true, false, List, String, arith, ok, Result-cases, Bool-cases, inl, inr,
}
use stocks_agent.Cursor.Checks.{is_successful}
use stocks_agent.Cursor.Record.{SourceCursor, check_cursor}
use stocks_agent.Cursor.Page.{CollectionPage}
use stocks_agent.Cursor.Update.{
  update_cursor, update_successful, update_failed, update_partial, retried, continued, completed,
  matches_active, around_watermark, merged_ids, next_history,
}

-- Where `update_cursor` returns: the arguments of the `replace` that it ends in.
pub data Replaces (sha256_hex : String → String) (c : SourceCursor) (p : CollectionPage)
    : SourceCursor → Type 0 where
  failed : is_successful p.status ≡ false → Replaces sha256_hex c p (retried c p)
  partial :
      (accepted history : List String)
      → is_successful p.status ≡ true
      → p.exhausted ≡ false
      → merged_ids c.accepted_item_ids p.accepted_item_ids ≡ ok accepted
      → next_history sha256_hex p.backlog_token c.continuation_token_history ≡ ok history
      → Replaces sha256_hex c p (continued c p accepted history)
  exhausted :
      is_successful p.status ≡ true → p.exhausted ≡ true → Replaces sha256_hex c p (completed c p)

module _ (sha256_hex : String → String) (c : SourceCursor) (p : CollectionPage)
    (d : SourceCursor) where
  failed-replace :
      update_failed sha256_hex c p ≡ ok d → check_cursor sha256_hex (retried c p) ≡ ok d
  unfolding update_failed
  failed-replace e = ground arith

  pub accepted_window :
      update_cursor sha256_hex c p ≡ ok d
      → (matches_active c p.window ≡ true) × (around_watermark c.completed_through p.window ≡ true)
  unfolding update_cursor update_failed update_successful
  accepted_window e = ground arith

  pub update_cursor-path :
      update_cursor sha256_hex c p ≡ ok d
      → (r : SourceCursor) × Replaces sha256_hex c p r × (check_cursor sha256_hex r ≡ ok d)
  unfolding update_cursor update_successful update_partial
  update_cursor-path e = elim (Bool-cases (is_successful p.status)) [
    | inr f ↦ (retried c p, failed f, failed-replace (rw f at e))
    | inl s ↦ elim (Bool-cases p.exhausted) [
      | inl x ↦ (completed c p, exhausted s x, ground arith)
      | inr x ↦ elim (Result-cases (merged_ids c.accepted_item_ids p.accepted_item_ids)) [
        | inr (_, bad) ↦ absurd (ground arith)
        | inl (accepted, merged) ↦
            elim (Result-cases
              (next_history sha256_hex p.backlog_token c.continuation_token_history)) [
                | inr (_, bad) ↦ absurd (ground arith)
                | inl (history, found) ↦ (
                  continued c p accepted history,
                  partial accepted history s x merged found,
                  ground arith,
                )
              ]
      ]
    ]
  ]
