-- ===== src/Cursor/Validity.antt =====
-- What every `SourceCursor` object satisfies after `__post_init__`.
use stocks_agent.Common.{
  ℕ, ◌≤◌, ◌≡◌, refl, true, Option, none, some, List, [], ◌∷◌, String, arith, length, all, is_some,
  contains, all_distinct, ok, str_eq_self,
}
use stocks_agent.Cursor.Checks.{
  maximum_collection_page, max_accepted_item_ids, max_token_identities, is_token, is_item_id,
  is_identity, is_name, phase_allowed, bounded_token, item_ids, token_identities,
}
use stocks_agent.Cursor.Record.{SourceCursor, check_cursor, continued_history}

-- Both ends or neither, in order.
abbrev pub IsWindow : Option ℕ → Option ℕ → Type 0
IsWindow none none = Unit
IsWindow (some start) (some end) = start ≤ end
IsWindow _ _ = ⊥

-- A window starts at the watermark or before it.
abbrev pub Overlaps : Option ℕ → Option ℕ → Type 0
Overlaps (some completed) (some start) = start ≤ completed
Overlaps _ _ = Unit

-- A backlog token is bounded, belongs to an active window, and is never on the first page; its
-- identity is in the history.
abbrev pub IsContinued : (String → String) → SourceCursor → Option String → Type 0
IsContinued sha256_hex c none = Unit
IsContinued sha256_hex c (some token) =
    (is_token token ≡ true)
    × (is_some c.active_window_start ≡ true)
    × (2 ≤ c.page)
    × (contains (sha256_hex token) c.continuation_token_history ≡ true)

pub record IsValid (sha256_hex : String → String) (c : SourceCursor) : Type 0 where
  pub provider_named : is_name 1 c.provider ≡ true
  pub capability_named : is_name 2 c.capability_id ≡ true
  pub window : IsWindow c.active_window_start c.active_window_end
  pub overlap : Overlaps c.completed_through c.active_window_start
  pub continued : IsContinued sha256_hex c c.backlog_token
  pub page_pos : 1 ≤ c.page
  pub page_bounded : c.page ≤ maximum_collection_page c.capability_id
  pub ids_bounded : length c.accepted_item_ids ≤ max_accepted_item_ids
  pub ids_valid : all is_item_id c.accepted_item_ids ≡ true
  pub ids_distinct : all_distinct c.accepted_item_ids ≡ true
  pub history_bounded : length c.continuation_token_history ≤ max_token_identities
  pub history_valid : all is_identity c.continuation_token_history ≡ true
  pub history_distinct : all_distinct c.continuation_token_history ≡ true
  pub phase : phase_allowed c.next_retry_phase ≡ true

-- `SHA-256` in hexadecimal is 64 hexadecimal digits.
abbrev pub IsHex : (String → String) → Type 0
IsHex sha256_hex = (token : String) → is_identity (sha256_hex token) ≡ true

pub maximum_ge_two : (capability : String) → 2 ≤ maximum_collection_page capability
unfolding maximum_collection_page
maximum_ge_two capability = ground arith

-- A cursor that has passed the check keeps its value under a second one.
pub check_cursor-of_valid :
    (sha256_hex : String → String) (c : SourceCursor)
    → IsValid sha256_hex c
    → check_cursor sha256_hex c ≡ ok c
unfolding check_cursor continued_history bounded_token item_ids token_identities
check_cursor-of_valid sha256_hex c v = ground arith

abbrev HasIdentity : (String → String) → Option String → List String → Type 0
HasIdentity sha256_hex none history = Unit
HasIdentity sha256_hex (some token) history = contains (sha256_hex token) history ≡ true

continued_history_sound :
    (sha256_hex : String → String) (backlog : Option String) (history h' : List String)
    → IsHex sha256_hex
    → continued_history sha256_hex backlog history ≡ ok h'
    → length history ≤ max_token_identities
    → all is_identity history ≡ true
    → all_distinct history ≡ true
    → HasIdentity sha256_hex backlog h'
      × (length h' ≤ max_token_identities)
      × (all is_identity h' ≡ true)
      × (all_distinct h' ≡ true)
unfolding continued_history
continued_history_sound sha256_hex none history h' hex e bound valid distinct = ground arith
continued_history_sound sha256_hex (some token) [] h' hex e bound valid distinct =
    ground (arith, hex token, str_eq_self (sha256_hex token))
continued_history_sound sha256_hex (some token) (h ∷ hs) h' hex e bound valid distinct =
    ground arith

bounded_token_sound :
    (token token' : Option String)
    → bounded_token token ≡ ok token'
    → (token ≡ token') × ((t : String) → token' ≡ some t → is_token t ≡ true)
unfolding bounded_token
bounded_token_sound none token' e = ground arith
bounded_token_sound (some t) token' e = (ground arith, λ u same. ground arith)

item_ids_sound :
    (values values' : List String)
    → item_ids values ≡ ok values'
    → (values ≡ values')
      × (length values ≤ max_accepted_item_ids)
      × (all is_item_id values ≡ true)
      × (all_distinct values ≡ true)
unfolding item_ids
item_ids_sound values values' e = ground arith

token_identities_sound :
    (values values' : List String)
    → token_identities values ≡ ok values'
    → (values ≡ values')
      × (length values ≤ max_token_identities)
      × (all is_identity values ≡ true)
      × (all_distinct values ≡ true)
unfolding token_identities
token_identities_sound values values' e = ground arith

module _ (sha256_hex : String → String) (c d : SourceCursor)
    (e : check_cursor sha256_hex c ≡ ok d) where
  checked_window :
      IsWindow d.active_window_start d.active_window_end
      × Overlaps d.completed_through d.active_window_start
  unfolding check_cursor
  checked_window = ground arith

  checked_names :
      (is_name 1 d.provider ≡ true)
      × (is_name 2 d.capability_id ≡ true)
      × (phase_allowed d.next_retry_phase ≡ true)
  unfolding check_cursor
  checked_names = ground arith

  checked_page : (1 ≤ d.page) × (d.page ≤ maximum_collection_page d.capability_id)
  unfolding check_cursor
  checked_page = ground (arith, maximum_ge_two c.capability_id)

  checked_ids :
      (length d.accepted_item_ids ≤ max_accepted_item_ids)
      × (all is_item_id d.accepted_item_ids ≡ true)
      × (all_distinct d.accepted_item_ids ≡ true)
  unfolding check_cursor item_ids
  checked_ids = ground arith

  checked_token :
      (d.backlog_token ≡ c.backlog_token)
      × (continued_history sha256_hex d.backlog_token c.continuation_token_history
          ≡ ok d.continuation_token_history)
  unfolding check_cursor bounded_token token_identities
  checked_token = ground arith

  checked_history :
      (length c.continuation_token_history ≤ max_token_identities)
      × (all is_identity c.continuation_token_history ≡ true)
      × (all_distinct c.continuation_token_history ≡ true)
  unfolding check_cursor token_identities
  checked_history = ground arith

  -- A token's own conditions, for the token `token`.
  checked_backlog :
      (token : String)
      → c.backlog_token ≡ some token
      → (is_token token ≡ true) × (is_some d.active_window_start ≡ true) × (2 ≤ d.page)
  unfolding check_cursor bounded_token
  checked_backlog token found = ground arith

  -- The other fields stay as they are given.
  pub check_cursor-fields :
      (d.provider ≡ c.provider)
      × (d.capability_id ≡ c.capability_id)
      × (d.completed_through ≡ c.completed_through)
      × (d.active_window_start ≡ c.active_window_start)
      × (d.active_window_end ≡ c.active_window_end)
      × (d.accepted_item_ids ≡ c.accepted_item_ids)
      × (d.next_retry_phase ≡ c.next_retry_phase)
      × (d.backlog_token ≡ c.backlog_token)
      × (c.page ≤ d.page)
      × (2 ≤ c.page → d.page ≡ c.page)
      × (c.backlog_token ≡ none → d.page ≡ c.page)
  unfolding check_cursor bounded_token item_ids
  check_cursor-fields = ground arith

  checked_continued :
      IsHex sha256_hex → (b : Option String) → b ≡ d.backlog_token → IsContinued sha256_hex d b
  checked_continued hex none same = tt
  checked_continued hex (some token) same =
      let sound =
        continued_history_sound sha256_hex (some token) c.continuation_token_history
          d.continuation_token_history hex in
      ground (arith, checked_token, checked_history, sound, checked_backlog token)

  -- Every object satisfies the invariant.
  pub check_cursor-IsValid : IsHex sha256_hex → IsValid sha256_hex d
  check_cursor-IsValid hex =
      let h = checked_history in
      let known =
        continued_history_sound sha256_hex d.backlog_token c.continuation_token_history
          d.continuation_token_history hex checked_token.1 h.0 h.1 h.2 in
      record {
        provider_named = checked_names.0;
        capability_named = checked_names.1;
        window = checked_window.0;
        overlap = checked_window.1;
        continued = checked_continued hex d.backlog_token refl;
        page_pos = checked_page.0;
        page_bounded = checked_page.1;
        ids_bounded = checked_ids.0;
        ids_valid = checked_ids.1;
        ids_distinct = checked_ids.2;
        history_bounded = known.1;
        history_valid = known.2;
        history_distinct = known.3;
        phase = checked_names.2;
      }
