-- ===== src/Quota/Session.antt =====
-- `QuotaSession` of lib/intelligence/quota.py. A method returns the session that it leaves, or raises
-- before it changes anything. The counters are functions: a key that the constructor did not
-- set to zero is never read.
use stocks_agent.Common.{
  ℕ, ◌+◌, not, ◌&&◌, Option, none, some, List, [], ◌∷◌, String, ltb, leb, if◌then◌else◌, str_eq,
  contains, ok, raise, Result, ◌>>=◌, ◌>>◌, guard,
}

-- `ValueError`s of the constructor, and `QuotaExceeded` with its provider.
pub data QuotaError : Type 0 where
  invalid_reservation duplicate_reservation : QuotaError
  quota_exceeded : (provider : String) → QuotaError

pub record Reservation : Type 0 where
  pub reservation_id : String
  pub reserved_requests : ℕ

-- An entry of the constructor's argument: a bare ID, a mapping with exactly the two keys and values
-- of the right types, or anything else. (An integer below one is given here as zero.)
pub data Entry : Type 0 where
  bare : (reservation_id : String) → Entry
  counted : (reservation_id : String) (reserved_requests : ℕ) → Entry
  malformed : Entry

-- Reservations by provider, in the order of the mapping.
abbrev pub Book : Type 0
Book = List (String × List Reservation)

unfoldable pub parse_entry : Entry → Result QuotaError Reservation
parse_entry (bare id) = do
  guard (not (str_eq id "")) invalid_reservation
  ok (record { reservation_id = id; reserved_requests = 1 })
parse_entry (counted id n) = do
  guard (not (str_eq id "") && leb 1 n && leb n 100) invalid_reservation
  ok (record { reservation_id = id; reserved_requests = n })
parse_entry malformed = raise invalid_reservation

-- The inner loop; `all_ids` is threaded through.
unfoldable pub add_entries :
    List String → List Entry → Result QuotaError (List Reservation × List String)
add_entries all_ids [] = ok ([], all_ids)
add_entries all_ids (entry ∷ entries) = do
  reservation ← parse_entry entry
  guard (not (contains reservation.reservation_id all_ids)) duplicate_reservation
  (ordered, all_ids') ← add_entries (reservation.reservation_id ∷ all_ids) entries
  ok (reservation ∷ ordered, all_ids')

-- The outer loop.
unfoldable pub add_providers :
    List String → List (String × List Entry) → Result QuotaError (Book × List String)
add_providers all_ids [] = ok ([], all_ids)
add_providers all_ids ((provider, entries) ∷ reservations) = do
  guard (not (str_eq provider "")) invalid_reservation
  (ordered, all_ids') ← add_entries all_ids entries
  (available, all_ids'') ← add_providers all_ids' reservations
  ok ((provider, ordered) ∷ available, all_ids'')

pub record QuotaSession : Type 0 where
  pub available : Book
  pub consumed : String → ℕ
  pub actual_requests : String → ℕ
  pub cache_hits : String → ℕ

-- `QuotaSession.__init__`. The keys of a mapping are distinct.
unfoldable pub open_session : List (String × List Entry) → Result QuotaError QuotaSession
open_session reservations = do
  (available, all_ids) ← add_providers [] reservations
  ok (record {
    available = available;
    consumed = λ _. 0;
    actual_requests = λ _. 0;
    cache_hits = λ _. 0;
  })

-- `self._available.get(provider, ())`
unfoldable pub reservations_of : String → Book → List Reservation
reservations_of provider [] = []
reservations_of provider ((p, reservations) ∷ available) =
    if str_eq p provider then reservations else reservations_of provider available

-- `counters[key] += 1`
abbrev pub increment : String → (String → ℕ) → String → ℕ
increment key counters k = if str_eq k key then counters k + 1 else counters k

-- The first reservation with the ID.
unfoldable pub find_reservation : String → List Reservation → Option Reservation
find_reservation id [] = none
find_reservation id (r ∷ rs) = if str_eq r.reservation_id id then some r else find_reservation id rs

abbrev pub spend : QuotaSession → (provider reservation_id : String) → QuotaSession
spend s provider id = record s {
  consumed = increment id s.consumed;
  actual_requests = increment provider s.actual_requests;
}

unfoldable pub spend_found :
    QuotaSession
    → (provider reservation_id : String) → Option Reservation
    → Result QuotaError QuotaSession
spend_found s provider id none = raise (quota_exceeded provider)
spend_found s provider id (some r) =
    if leb r.reserved_requests (s.consumed id)
    then raise (quota_exceeded provider)
    else ok (spend s provider id)

-- `consume` is another name of it.
unfoldable pub record_actual_request :
    QuotaSession → (provider reservation_id : String) → Result QuotaError QuotaSession
record_actual_request s provider id =
    spend_found s provider id (find_reservation id (reservations_of provider s.available))

unfoldable pub record_cache_hit :
    QuotaSession → (provider reservation_id : String) → Result QuotaError QuotaSession
record_cache_hit s provider id = elim (find_reservation id (reservations_of provider s.available)) [
  | none ↦ raise (quota_exceeded provider)
  | some _ ↦ ok (record s { cache_hits = increment provider s.cache_hits })
]

-- The loop that `consume_next` and `next_reservation_id` share.
unfoldable pub first_open : (String → ℕ) → List Reservation → Option String
first_open consumed [] = none
first_open consumed (r ∷ rs) =
    if ltb (consumed r.reservation_id) r.reserved_requests
    then some r.reservation_id
    else first_open consumed rs

unfoldable pub next_reservation_id : QuotaSession → String → Result QuotaError String
next_reservation_id s provider =
    elim (first_open s.consumed (reservations_of provider s.available)) [
      | none ↦ raise (quota_exceeded provider)
      | some id ↦ ok id
    ]

unfoldable pub consume_next : QuotaSession → String → Result QuotaError (String × QuotaSession)
consume_next s provider = elim (first_open s.consumed (reservations_of provider s.available)) [
  | none ↦ raise (quota_exceeded provider)
  | some id ↦ do s' ← record_actual_request s provider id; ok (id, s')
]

unfoldable pub receipt_reservation_id : QuotaSession → String → String
receipt_reservation_id s provider = elim (reservations_of provider s.available) [
  | [] ↦ ""
  | r ∷ _ ↦ r.reservation_id
]
