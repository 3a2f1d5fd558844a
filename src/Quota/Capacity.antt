-- ===== src/Quota/Capacity.antt =====
-- What the methods of `QuotaSession` keep: no reservation is spent beyond its room, and a provider's
-- requests are those of its reservations.
use stocks_agent.Common.{
  ℕ, ◌+◌, ◌≤◌, ◌<◌, ◌≡◌, refl, true, false, none, some, List, [], ◌∷◌, String, arith, str_eq,
  eq_iff, contains, all_distinct, All, ok, Option-cases, Bool-cases, inl, inr, ◌↔◌, ltb, sym, ◌∙◌,
}
use stocks_agent.Quota.Session.{
  Reservation, Entry, QuotaSession, open_session, reservations_of, increment, find_reservation,
  spend, spend_found, record_actual_request, first_open,
}
use stocks_agent.Quota.Opening.{ids, IsSeparate, open_session-IsSeparate}

-- The requests made, and the requests reserved, under a list of reservations.
abbrev pub used : (String → ℕ) → List Reservation → ℕ
used consumed [] = 0
used consumed (r ∷ rs) = consumed r.reservation_id + used consumed rs

abbrev pub capacity : List Reservation → ℕ
capacity [] = 0
capacity (r ∷ rs) = r.reserved_requests + capacity rs

abbrev pub IsWithin : (String → ℕ) → Reservation → Type 0
IsWithin consumed r = consumed r.reservation_id ≤ r.reserved_requests

pub record IsSession (s : QuotaSession) : Type 0 where
  pub separate : IsSeparate s.available
  pub within : (p : String) → All (IsWithin s.consumed) (reservations_of p s.available)
  pub balanced :
      (p : String) → s.actual_requests p ≡ used s.consumed (reservations_of p s.available)

module _ (consumed : String → ℕ) where
  pub used_le :
      (rs : List Reservation) → All (IsWithin consumed) rs → used consumed rs ≤ capacity rs
  used_le [] h = omega arith
  used_le (r ∷ rs) h = omega (arith, used_le rs h.1)

  module _ (id : String) where
    used-increment_ne :
        (rs : List Reservation)
        → contains id (ids rs) ≡ false
        → used (increment id consumed) rs ≡ used consumed rs
    used-increment_ne [] h = refl
    used-increment_ne (r ∷ rs) h =
        ground (arith, used-increment_ne rs, eq_iff r.reservation_id id, eq_iff id r.reservation_id)

    IsWithin-increment_ne :
        (rs : List Reservation)
        → contains id (ids rs) ≡ false
        → All (IsWithin consumed) rs
        → All (IsWithin (increment id consumed)) rs
    IsWithin-increment_ne [] h w = tt
    IsWithin-increment_ne (r ∷ rs) h w = (
      ground (arith, eq_iff r.reservation_id id, eq_iff id r.reservation_id),
      IsWithin-increment_ne rs (ground arith) w.1,
    )

    used-increment :
        (rs : List Reservation)
        → all_distinct (ids rs) ≡ true
        → contains id (ids rs) ≡ true
        → used (increment id consumed) rs ≡ used consumed rs + 1
    used-increment [] d h = cc
    used-increment (r ∷ rs) d h = ground (
      arith,
      used-increment rs,
      used-increment_ne rs,
      eq_iff r.reservation_id id,
      eq_iff id r.reservation_id,
    )

    found-contains :
        (rs : List Reservation) (r : Reservation)
        → find_reservation id rs ≡ some r
        → contains id (ids rs) ≡ true
    unfolding find_reservation
    found-contains [] r e = cc
    found-contains (q ∷ rs) r e =
        ground (arith, found-contains rs r, eq_iff q.reservation_id id, eq_iff id q.reservation_id)

    IsWithin-increment :
        (rs : List Reservation) (r : Reservation)
        → all_distinct (ids rs) ≡ true
        → find_reservation id rs ≡ some r
        → consumed id < r.reserved_requests
        → All (IsWithin consumed) rs
        → All (IsWithin (increment id consumed)) rs
    unfolding find_reservation
    IsWithin-increment [] r d e room w = tt
    IsWithin-increment (q ∷ rs) r d e room w = elim (Bool-cases (str_eq q.reservation_id id)) [
      | inl same ↦ (
        ground (arith, eq_iff q.reservation_id id),
        IsWithin-increment_ne rs (ground (arith, eq_iff q.reservation_id id)) w.1,
      )
      | inr other ↦ (ground arith, IsWithin-increment rs r (ground arith) (ground arith) room w.1)
    ]

    first_open-contains :
        (rs : List Reservation) → first_open consumed rs ≡ some id → contains id (ids rs) ≡ true
    unfolding first_open
    first_open-contains [] e = cc
    first_open-contains (q ∷ rs) e =
        ground (arith, first_open-contains rs, eq_iff id q.reservation_id)

    pub find-of_first_open :
        (rs : List Reservation)
        → all_distinct (ids rs) ≡ true
        → first_open consumed rs ≡ some id
        → (r : Reservation) × (find_reservation id rs ≡ some r)
          × (consumed id < r.reserved_requests)
    unfolding first_open find_reservation
    find-of_first_open [] d e = absurd (ground arith)
    find-of_first_open (q ∷ rs) d e =
        elim (Bool-cases (ltb (consumed q.reservation_id) q.reserved_requests)) [
          | inl room ↦
              let same : q.reservation_id ≡ id = ground arith in
              (q, ground (arith, eq_iff q.reservation_id id), rw (← same) (ground arith))
          | inr full ↦
              let rest : first_open consumed rs ≡ some id = ground arith in
              let (r, found, room) = find-of_first_open rs (ground arith) rest in
              let known = first_open-contains rs rest in
              (r, ground (arith, eq_iff q.reservation_id id, found, known), room)
        ]

  pub first_open-none :
      (rs : List Reservation)
      → All (IsWithin consumed) rs
      → (first_open consumed rs ≡ none) ↔ (used consumed rs ≡ capacity rs)
  unfolding first_open
  first_open-none [] w = (λ _. refl, λ _. refl)
  first_open-none (r ∷ rs) w = ground (arith, first_open-none rs w.1, used_le rs w.1)

-- A session that has just been opened keeps the books.
pub open_session-IsSession :
    (reservations : List (String × List Entry)) (s : QuotaSession)
    → open_session reservations ≡ ok s
    → IsSession s
open_session-IsSession reservations s e =
    let (separate, formed, unspent) = open_session-IsSeparate reservations s e in
    record {
      separate = separate;
      within = λ p. unspent_within s.consumed (λ k. (unspent k).0) (reservations_of p s.available);
      balanced = λ p.
          (unspent p).1
          ∙ sym (unspent_used s.consumed (λ k. (unspent k).0) (reservations_of p s.available));
    }
  where
    unspent_within :
        (consumed : String → ℕ)
        → ((k : String) → consumed k ≡ 0)
        → (rs : List Reservation) → All (IsWithin consumed) rs
    unspent_within consumed zero' [] = tt
    unspent_within consumed zero' (r ∷ rs) =
        (omega (arith, zero' r.reservation_id), unspent_within consumed zero' rs)

    unspent_used :
        (consumed : String → ℕ)
        → ((k : String) → consumed k ≡ 0)
        → (rs : List Reservation) → used consumed rs ≡ 0
    unspent_used consumed zero' [] = refl
    unspent_used consumed zero' (r ∷ rs) =
        omega (arith, zero' r.reservation_id, unspent_used consumed zero' rs)

module _ (s : QuotaSession) (provider id : String) where
  spend-IsSession :
      (r : Reservation)
      → IsSession s
      → find_reservation id (reservations_of provider s.available) ≡ some r
      → s.consumed id < r.reserved_requests
      → IsSession (spend s provider id)
  spend-IsSession r v found room =
      let known = found-contains s.consumed id (reservations_of provider s.available) r found in
      record {
        separate = v.separate;
        within = λ p. elim (Bool-cases (str_eq p provider)) [
          | inl same ↦ rw ((eq_iff p provider).0 same) (
              IsWithin-increment s.consumed id (reservations_of provider s.available) r
                (v.separate.own provider) found room (v.within provider))
          | inr other ↦
              IsWithin-increment_ne s.consumed id (reservations_of p s.available)
                (v.separate.apart provider p id
                  (ground (arith, eq_iff p provider, eq_iff provider p)) known)
                (v.within p)
        ];
        balanced = λ p. elim (Bool-cases (str_eq p provider)) [
          | inl same ↦ ground (
            arith,
            eq_iff p provider,
            v.balanced p,
            used-increment s.consumed id (reservations_of p s.available),
            v.separate.own p,
            known,
          )
          | inr other ↦ ground (
            arith,
            v.balanced p,
            used-increment_ne s.consumed id (reservations_of p s.available) (
                v.separate.apart provider p id
                  (ground (arith, eq_iff p provider, eq_iff provider p)) known),
          )
        ];
      }

  -- A request that is admitted is one of a listed reservation with room, and the only one that
  -- changes: its ID and its provider count one more.
  pub record_actual_request-spends :
      (s' : QuotaSession)
      → record_actual_request s provider id ≡ ok s'
      → (r : Reservation) × (find_reservation id (reservations_of provider s.available) ≡ some r)
        × (s.consumed id < r.reserved_requests)
        × (s' ≡ spend s provider id)
  unfolding record_actual_request spend_found
  record_actual_request-spends s' e =
      elim (Option-cases (find_reservation id (reservations_of provider s.available))) [
        | inl absent ↦ absurd (ground arith)
        | inr (r, found) ↦ (r, found, ground arith, ground arith)
      ]

  -- Recording a request keeps the books.
  pub record_actual_request-IsSession :
      (s' : QuotaSession) → IsSession s → record_actual_request s provider id ≡ ok s' → IsSession s'
  record_actual_request-IsSession s' v e =
      let (r, found, room, same) = record_actual_request-spends s' e in
      rw same (spend-IsSession r v found room)
