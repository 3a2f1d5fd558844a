-- ===== src/Cursor/Progress.antt =====
-- Paging through one window: page numbers and continuation tokens.
use stocks_agent.Common.{
  ℕ, Bool, not, ◌&&◌, is_some, if◌then◌else◌, ◌+◌, ◌≤◌, ◌≡◌, true, false, some, List, [], ◌∷◌,
  String, arith, ok, bind-eq-ok, contains, All, subst, ◌++◌,
}
use stocks_agent.Cursor.Checks.{is_successful, maximum_collection_page}
use stocks_agent.Cursor.Record.{SourceCursor, check_cursor}
use stocks_agent.Cursor.Page.{CollectionPage}
use stocks_agent.Cursor.Update.{
  update_cursor, update_all, retried, continued, next_history, last_identities,
}
use stocks_agent.Cursor.Validity.{
  IsValid, IsHex, IsContinued, check_cursor-IsValid, check_cursor-fields,
}
use stocks_agent.Cursor.Steps.{Replaces, failed, partial, exhausted, update_cursor-path}
use stocks_agent.Cursor.Watermark.{update_cursor-IsValid}

-- A successful page that is not exhausted and names its continuation.
abbrev pub is_continuation : CollectionPage → Bool
is_continuation p = is_successful p.status && not p.exhausted && is_some p.backlog_token

-- How many of the pages are continuations, whatever comes between them.
abbrev pub continuations : List CollectionPage → ℕ
continuations [] = 0
continuations (p ∷ ps) = if is_continuation p then continuations ps + 1 else continuations ps

-- A page that does not finish its window: it failed, or it is not exhausted.
abbrev pub IsUnfinished : CollectionPage → Type 0
IsUnfinished p = (is_successful p.status && p.exhausted) ≡ false

module _ (sha256_hex : String → String) (c : SourceCursor) (p : CollectionPage)
    (d : SourceCursor) where
  -- The last token joins the history at its end, and only if it was not there.
  next_history-fresh :
      (token : String) (history history' : List String)
      → next_history sha256_hex (some token) history ≡ ok history'
      → (contains (sha256_hex token) history ≡ false)
        × (history' ≡ last_identities (history ++ sha256_hex token ∷ []))
  unfolding next_history
  next_history-fresh token history history' e = ground arith

  replaced-page :
      {r : SourceCursor}
      → IsUnfinished p
      → Replaces sha256_hex c p r
      → check_cursor sha256_hex r ≡ ok d
      → (c.page + continuations (p ∷ []) ≤ d.page) × (d.capability_id ≡ c.capability_id)
  replaced-page unfinished (failed f) e =
      ground (arith, check_cursor-fields sha256_hex (retried c p) d e)
  replaced-page unfinished (exhausted s x) e = absurd (ground arith)
  replaced-page unfinished (partial accepted history _ _ _ _) e =
      ground (arith, check_cursor-fields sha256_hex (continued c p accepted history) d e)

  replaced-token :
      {r : SourceCursor} (token : String)
      → is_successful p.status ≡ true
      → p.exhausted ≡ false
      → p.backlog_token ≡ some token
      → Replaces sha256_hex c p r
      → contains (sha256_hex token) c.continuation_token_history ≡ false
  replaced-token token s x found (failed f) = ground arith
  replaced-token token s x found (exhausted _ y) = ground arith
  replaced-token token s x found (partial accepted history _ _ _ named) =
      (next_history-fresh token c.continuation_token_history history (rw found at named)).0

  replaced-backlog :
      {r : SourceCursor} (token : String)
      → is_successful p.status ≡ true
      → p.exhausted ≡ false
      → p.backlog_token ≡ some token
      → Replaces sha256_hex c p r
      → check_cursor sha256_hex r ≡ ok d
      → d.backlog_token ≡ some token
  replaced-backlog token s x found (failed f) e = ground arith
  replaced-backlog token s x found (exhausted _ y) e = ground arith
  replaced-backlog token s x found (partial accepted history _ _ _ _) e =
      ground (arith, check_cursor-fields sha256_hex (continued c p accepted history) d e)

  -- A successful page that is not exhausted is refused if the identity of its token is in the cursor's
  -- history, which keeps the last 64 of the window. If it is accepted, the history and the backlog token of
  -- the new cursor hold its token.
  pub update_cursor-token :
      (token : String)
      → IsHex sha256_hex
      → is_successful p.status ≡ true
      → p.exhausted ≡ false
      → p.backlog_token ≡ some token
      → update_cursor sha256_hex c p ≡ ok d
      → (contains (sha256_hex token) c.continuation_token_history ≡ false)
        × (contains (sha256_hex token) d.continuation_token_history ≡ true)
        × (d.backlog_token ≡ some token)
  update_cursor-token token hex s x found e =
      let (r, replaces, checked) = update_cursor-path sha256_hex c p d e in
      let valid = check_cursor-IsValid sha256_hex r d checked hex in
      let kept = replaced-backlog token s x found replaces checked in
      (
        replaced-token token s x found replaces,
        (subst (λ b. IsContinued sha256_hex d b) kept valid.continued).3,
        kept,
      )

  update_cursor-page :
      IsUnfinished p
      → update_cursor sha256_hex c p ≡ ok d
      → (c.page + continuations (p ∷ []) ≤ d.page) × (d.capability_id ≡ c.capability_id)
  update_cursor-page unfinished e =
      let (r, replaces, checked) = update_cursor-path sha256_hex c p d e in
      replaced-page unfinished replaces checked

-- From a cursor that satisfies the invariant, before its window is finished, each continuation is at least one more page, whatever failed pages and
-- pages without a token come between: the continuations that are accepted and the page before them are
-- together at most the page bound of the capability. Pages that fail or name no token are not bounded.
pub update_all-page :
    (sha256_hex : String → String) (c : SourceCursor) (ps : List CollectionPage) (d : SourceCursor)
    → IsHex sha256_hex
    → IsValid sha256_hex c
    → All IsUnfinished ps
    → update_all sha256_hex c ps ≡ ok d
    → (c.page + continuations ps ≤ d.page) × (d.page ≤ maximum_collection_page c.capability_id)
unfolding update_all
update_all-page sha256_hex c [] d hex v unfinished e = ground (arith, v.page_bounded)
update_all-page sha256_hex c (p ∷ ps) d hex v unfinished e =
    let (next, first, rest) =
      bind-eq-ok (update_cursor sha256_hex c p) (λ n. update_all sha256_hex n ps) e in
    let valid = update_cursor-IsValid sha256_hex c p next hex first in
    let (later, capability) = update_cursor-page sha256_hex c p next unfinished.0 first in
    let (last, bound) = update_all-page sha256_hex next ps d hex valid unfinished.1 rest in
    ground (arith, later, capability, last, bound)
