-- ===== src/Quota/Examples.antt =====
-- A session of two providers, and the theorems at it.
use stocks_agent.Common.{◌≤◌, ◌<◌, ◌≡◌, refl, ◌⊎◌, List, [], ◌∷◌, String, ok, raise}
use stocks_agent.Quota.Session.{
  invalid_reservation, duplicate_reservation, quota_exceeded, Entry, bare, counted, Book,
  QuotaSession, parse_entry, add_entries, add_providers, open_session, reservations_of,
  find_reservation, spend, spend_found, record_actual_request, first_open, next_reservation_id,
  consume_next, record_cache_hit, receipt_reservation_id,
}
use stocks_agent.Quota.Capacity.{capacity, IsSession, open_session-IsSession}
use stocks_agent.Quota.Exhaustion.{
  Call, request, hit, next, run, run-IsSession, run-le_capacity, consume_next-total,
}

abbrev given : List (String × List Entry)
given = ("gdelt", counted "r1" 2 ∷ bare "r2" ∷ []) ∷ ("yahoo", bare "r3" ∷ []) ∷ []

abbrev book : Book
book =
    (
      "gdelt",
      record { reservation_id = "r1"; reserved_requests = 2 }
          ∷ record { reservation_id = "r2"; reserved_requests = 1 }
          ∷ [],
    )
    ∷ ("yahoo", record { reservation_id = "r3"; reserved_requests = 1 } ∷ [])
    ∷ []

abbrev session : QuotaSession
session = record {
  available = book;
  consumed = λ _. 0;
  actual_requests = λ _. 0;
  cache_hits = λ _. 0;
}

program : Unit {0}
unfolding open_session add_providers add_entries parse_entry reservations_of find_reservation
    spend_found record_actual_request record_cache_hit first_open next_reservation_id consume_next
    receipt_reservation_id
program = tt

opened : open_session given ≡ ok session
unfolding program
opened = refl

duplicated :
    open_session (("gdelt", bare "r1" ∷ []) ∷ ("yahoo", bare "r1" ∷ []) ∷ [])
    ≡ raise duplicate_reservation
unfolding program
duplicated = refl

oversized : open_session (("gdelt", counted "r1" 101 ∷ []) ∷ []) ≡ raise invalid_reservation
unfolding program
oversized = refl

foreign : record_actual_request session "yahoo" "r1" ≡ raise (quota_exceeded "yahoo")
unfolding program
foreign = refl

session-IsSession : IsSession session
session-IsSession = open_session-IsSession given session opened

abbrev calls : List Call
calls =
    next "gdelt"
    ∷ request "gdelt" "r1"
    ∷ request "gdelt" "r1"
    ∷ hit "gdelt" "r2"
    ∷ next "gdelt"
    ∷ next "gdelt"
    ∷ []

run-le_capacity_example :
    (run session calls).actual_requests "gdelt" ≤ capacity (reservations_of "gdelt" book)
run-le_capacity_example = run-le_capacity given session calls "gdelt" opened

run-IsSession_example : IsSession (run session calls) × ((run session calls).available ≡ book)
run-IsSession_example = run-IsSession session calls session-IsSession

consume_next-total_example :
    (consume_next session "yahoo" ≡ raise (quota_exceeded "yahoo"))
      × (session.actual_requests "yahoo" ≡ capacity (reservations_of "yahoo" session.available))
    ⊎ (id : String) × (next_reservation_id session "yahoo" ≡ ok id)
      × (consume_next session "yahoo" ≡ ok (id, spend session "yahoo" id))
      × (session.actual_requests "yahoo" < capacity (reservations_of "yahoo" session.available))
consume_next-total_example = consume_next-total session "yahoo" session-IsSession

spent : record_actual_request session "gdelt" "r1" ≡ ok (spend session "gdelt" "r1")
unfolding program
spent = refl
