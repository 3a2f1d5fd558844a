-- ===== src/Quota/Exhaustion.antt =====
-- How many requests a session admits, by `consume_next` and over any sequence of calls.
use stocks_agent.Common.{
  ◌≤◌, ◌<◌, ◌≡◌, refl, none, some, List, [], ◌∷◌, String, arith, ok, raise, Result, Result-cases,
  Option-cases, inl, inr, ◌⊎◌, ap, ◌∙◌,
}
use stocks_agent.Quota.Session.{
  QuotaError, quota_exceeded, Entry, QuotaSession, open_session, reservations_of, increment,
  find_reservation, spend, spend_found, record_actual_request, record_cache_hit, first_open,
  next_reservation_id, consume_next,
}
use stocks_agent.Quota.Capacity.{
  capacity, IsSession, used_le, find-of_first_open, first_open-none, record_actual_request-spends,
  record_actual_request-IsSession, open_session-IsSession,
}

module _ (s : QuotaSession) (provider : String) where
  -- Once a reservation with room is found, the call goes through.
  consume_next-found :
      (id : String)
      → IsSession s
      → first_open s.consumed (reservations_of provider s.available) ≡ some id
      → consume_next s provider ≡ ok (id, spend s provider id)
  unfolding consume_next record_actual_request spend_found
  consume_next-found id v found =
      let (r, listed, room) =
        find-of_first_open s.consumed id (reservations_of provider s.available)
          (v.separate.own provider) found in
      ground (arith, listed, room)

  consume_next-exhausted :
      first_open s.consumed (reservations_of provider s.available) ≡ none
      → consume_next s provider ≡ raise (quota_exceeded provider)
  unfolding consume_next
  consume_next-exhausted e = rw (e, consume_next)

  consume_next-request :
      (id : String) (s' : QuotaSession)
      → consume_next s provider ≡ ok (id, s')
      → record_actual_request s provider id ≡ ok s'
  unfolding consume_next
  consume_next-request id s' e = ground arith

  -- `consume_next` is refused exactly when the provider has made all the requests that it reserved.
  -- Otherwise it spends one request of the reservation that `next_reservation_id` names.
  pub consume_next-total :
      IsSession s
      → (consume_next s provider ≡ raise (quota_exceeded provider))
          × (s.actual_requests provider ≡ capacity (reservations_of provider s.available))
        ⊎ (id : String) × (next_reservation_id s provider ≡ ok id)
          × (consume_next s provider ≡ ok (id, spend s provider id))
          × (s.actual_requests provider < capacity (reservations_of provider s.available))
  unfolding next_reservation_id
  consume_next-total v =
      let rs = reservations_of provider s.available in
      let full = first_open-none s.consumed rs (v.within provider) in
      let most = used_le s.consumed rs (v.within provider) in
      elim (Option-cases (first_open s.consumed rs)) [
        | inl exhausted ↦
            inl (consume_next-exhausted exhausted, v.balanced provider ∙ full.0 exhausted)
        | inr (id, found) ↦ inr (
          id,
          rw (found, next_reservation_id),
          consume_next-found id v found,
          ground (arith, full, most, v.balanced provider, found),
        )
      ]

-- The calls that a collection run makes.
pub data Call : Type 0 where
  request : (provider reservation_id : String) → Call
  hit : (provider reservation_id : String) → Call
  next : (provider : String) → Call

-- A call that raises leaves the session as it was.
abbrev pub settle : QuotaSession → Result QuotaError QuotaSession → QuotaSession
settle s (raise _) = s
settle s (ok s') = s'

abbrev pub forget : Result QuotaError (String × QuotaSession) → Result QuotaError QuotaSession
forget (raise e) = raise e
forget (ok (id, s')) = ok s'

pub step : QuotaSession → Call → QuotaSession
step s (request provider id) = settle s (record_actual_request s provider id)
step s (hit provider id) = settle s (record_cache_hit s provider id)
step s (next provider) = settle s (forget (consume_next s provider))

pub run : QuotaSession → List Call → QuotaSession
run s [] = s
run s (call ∷ calls) = run (step s call) calls

hit-same :
    (s s' : QuotaSession) (provider id : String)
    → record_cache_hit s provider id ≡ ok s'
    → IsSession s
    → IsSession s' × (s'.available ≡ s.available)
unfolding record_cache_hit
hit-same s s' provider id e v =
    elim (Option-cases (find_reservation id (reservations_of provider s.available))) [
      | inl absent ↦ absurd (ground arith)
      | inr (r, found) ↦
          let same : s' ≡ record s { cache_hits = increment provider s.cache_hits } =
            ground arith in
          rw same (record { separate = v.separate; within = v.within; balanced = v.balanced }, refl)
    ]

step-IsSession :
    (s : QuotaSession) (call : Call)
    → IsSession s
    → IsSession (step s call) × ((step s call).available ≡ s.available)
unfolding step
step-IsSession s (request provider id) v =
    elim (Result-cases (record_actual_request s provider id)) [
      | inr (_, refused) ↦ rw refused (v, refl)
      | inl (s', done) ↦
          let (r, found, room, same) = record_actual_request-spends s provider id s' done in
          rw done
            (record_actual_request-IsSession s provider id s' v done, ap (λ t. t.available) same)
    ]
step-IsSession s (hit provider id) v = elim (Result-cases (record_cache_hit s provider id)) [
  | inr (_, refused) ↦ rw refused (v, refl)
  | inl (s', done) ↦ rw done (hit-same s s' provider id done v)
]
step-IsSession s (next provider) v = elim (Result-cases (consume_next s provider)) [
  | inr (_, refused) ↦ rw refused (v, refl)
  | inl ((id, s'), done) ↦
      let requested = consume_next-request s provider id s' done in
      let (r, found, room, same) = record_actual_request-spends s provider id s' requested in
      rw done
        (record_actual_request-IsSession s provider id s' v requested, ap (λ t. t.available) same)
]

-- If a session keeps its books, so does the session that any sequence of calls leaves, which reserves
-- what it did.
pub run-IsSession :
    (s : QuotaSession) (calls : List Call)
    → IsSession s
    → IsSession (run s calls) × ((run s calls).available ≡ s.available)
unfolding run
run-IsSession s [] v = (v, refl)
run-IsSession s (call ∷ calls) v =
    let (v', same) = step-IsSession s call v in
    let (v'', same') = run-IsSession (step s call) calls v' in (v'', same' ∙ same)

-- Whatever calls are made, in any order and with any IDs, no provider makes more requests than the
-- gateway reserved for it.
pub run-le_capacity :
    (reservations : List (String × List Entry)) (s : QuotaSession) (calls : List Call) (p : String)
    → open_session reservations ≡ ok s
    → (run s calls).actual_requests p ≤ capacity (reservations_of p s.available)
run-le_capacity reservations s calls p e =
    let (v, same) = run-IsSession s calls (open_session-IsSession reservations s e) in
    let most =
      used_le (run s calls).consumed (reservations_of p (run s calls).available) (v.within p) in
    rw same at (rw (← v.balanced p) at most)
