-- ===== src/Quota/Opening.antt =====
-- What `QuotaSession.__init__` admits: IDs are unique over all providers.
use stocks_agent.Common.{
  ◌≤◌, ◌≡◌, refl, true, false, ◌||◌, List, [], ◌∷◌, map, String, arith, str_eq, eq_iff, contains,
  all_distinct, All, ok, Result-cases, Bool-cases, inl, inr,
}
use stocks_agent.Quota.Session.{
  Reservation, Entry, bare, counted, malformed, Book, parse_entry, add_entries, add_providers,
  QuotaSession, open_session, reservations_of,
}

abbrev pub ids : List Reservation → List String
ids reservations = map (λ r. r.reservation_id) reservations

-- An ID belongs to one provider, and is listed there once.
pub record IsSeparate (available : Book) : Type 0 where
  pub own : (p : String) → all_distinct (ids (reservations_of p available)) ≡ true
  pub apart :
      (p q id : String)
      → str_eq p q ≡ false
      → contains id (ids (reservations_of p available)) ≡ true
      → contains id (ids (reservations_of q available)) ≡ false

-- Each reservation has a name and room for one to a hundred requests.
abbrev pub IsReservation : Reservation → Type 0
IsReservation r =
    (str_eq r.reservation_id "" ≡ false) × (1 ≤ r.reserved_requests) × (r.reserved_requests ≤ 100)

parse_entry-IsReservation :
    (entry : Entry) (r : Reservation) → parse_entry entry ≡ ok r → IsReservation r
unfolding parse_entry
parse_entry-IsReservation (bare id) r e = ground arith
parse_entry-IsReservation (counted id n) r e = ground arith
parse_entry-IsReservation malformed r e = ground arith

-- The new IDs are distinct and were not seen before, and join the seen ones.
pub record IsAdded (seen : List String) (reservations : List Reservation) (seen' : List String)
    : Type 0 where
  pub distinct : all_distinct (ids reservations) ≡ true
  pub fresh : (id : String) → contains id (ids reservations) ≡ true → contains id seen ≡ false
  pub joined :
      (id : String) → contains id seen' ≡ (contains id (ids reservations) || contains id seen)
  pub formed : All IsReservation reservations

module _ (seen : List String) (entry : Entry) (entries : List Entry)
    (reservations : List Reservation) (seen' : List String) where
  -- What one round of the inner loop was given and leaves to the next.
  abbrev Round : Type 0
  Round =
      (r : Reservation) × (rest : List Reservation) × (parse_entry entry ≡ ok r)
      × (contains r.reservation_id seen ≡ false)
      × (add_entries (r.reservation_id ∷ seen) entries ≡ ok (rest, seen'))
      × (reservations ≡ r ∷ rest)

  add_entries-Round : add_entries seen (entry ∷ entries) ≡ ok (reservations, seen') → Round
  unfolding add_entries
  add_entries-Round e = elim (Result-cases (parse_entry entry)) [
    | inr (_, bad) ↦ absurd (ground arith)
    | inl (r, parsed) ↦ elim (Bool-cases (contains r.reservation_id seen)) [
      | inl known ↦ absurd (ground arith)
      | inr new ↦ elim (Result-cases (add_entries (r.reservation_id ∷ seen) entries)) [
        | inr (_, bad) ↦ absurd (ground arith)
        | inl (more, added) ↦ (r, more.0, parsed, new, ground arith, ground arith)
      ]
    ]
  ]

  Round-IsAdded :
      (round : Round)
      → IsAdded (round.0.reservation_id ∷ seen) round.1 seen'
      → IsAdded seen reservations seen'
  Round-IsAdded (r, rest, parsed, new, added, same) h = rw same (record {
    distinct =
        ground
          (arith, h.distinct, h.fresh r.reservation_id, eq_iff r.reservation_id r.reservation_id);
    fresh = λ id found. ground (arith, h.fresh id, new, eq_iff id r.reservation_id, found);
    joined = λ id. ground (arith, h.joined id);
    formed = (parse_entry-IsReservation entry r parsed, h.formed);
  })

add_entries-IsAdded :
    (seen : List String) (entries : List Entry) (reservations : List Reservation)
    (seen' : List String)
    → add_entries seen entries ≡ ok (reservations, seen')
    → IsAdded seen reservations seen'
unfolding add_entries
add_entries-IsAdded seen [] reservations seen' e = record {
  distinct = ground arith;
  fresh = λ id h. ground arith;
  joined = λ id. ground arith;
  formed = ground arith;
}
add_entries-IsAdded seen (entry ∷ entries) reservations seen' e =
    let round = add_entries-Round seen entry entries reservations seen' e in
    Round-IsAdded seen entry entries reservations seen' round
      (add_entries-IsAdded (round.0.reservation_id ∷ seen) entries round.1 seen' round.4)

-- The IDs of a whole mapping, provider by provider.
pub record IsBook (seen : List String) (available : Book) : Type 0 where
  pub separate : IsSeparate available
  pub fresh :
      (p id : String)
      → contains id (ids (reservations_of p available)) ≡ true
      → contains id seen ≡ false
  pub formed : (p : String) → All IsReservation (reservations_of p available)

module _ (seen : List String) (provider : String) (entries : List Entry)
    (others : List (String × List Entry)) (available : Book) (seen' : List String) where
  abbrev Turn : Type 0
  Turn =
      (rs : List Reservation) × (between : List String) × (rest : Book) × (add_entries seen entries
        ≡ ok (rs, between))
      × (add_providers between others ≡ ok (rest, seen'))
      × (available ≡ (provider, rs) ∷ rest)

  add_providers-Turn :
      add_providers seen ((provider, entries) ∷ others) ≡ ok (available, seen') → Turn
  unfolding add_providers
  add_providers-Turn e = elim (Result-cases (add_entries seen entries)) [
    | inr (_, bad) ↦ absurd (ground arith)
    | inl (mine, added) ↦ elim (Result-cases (add_providers mine.1 others)) [
      | inr (_, bad) ↦ absurd (ground arith)
      | inl (more, left) ↦ (mine.0, mine.1, more.0, ground arith, ground arith, ground arith)
    ]
  ]

  Turn-IsBook :
      (turn : Turn) → IsAdded seen turn.0 turn.1 → IsBook turn.1 turn.2 → IsBook seen available
  unfolding reservations_of
  Turn-IsBook (rs, between, rest, added, left, same) mine others = rw same (record {
    separate = record {
      own = λ p. ground (arith, mine.distinct, others.separate.own p);
      apart = λ p q id different found. ground (
        arith,
        others.separate.apart p q id,
        others.fresh p id,
        others.fresh q id,
        mine.joined id,
        eq_iff provider p,
        eq_iff provider q,
        eq_iff p q,
        found,
      );
    };
    fresh = λ p id found. ground (arith, mine.fresh id, others.fresh p id, mine.joined id);
    formed = λ p. ground (arith, mine.formed, others.formed p);
  })

add_providers-IsBook :
    (seen : List String) (reservations : List (String × List Entry)) (available : Book)
    (seen' : List String)
    → add_providers seen reservations ≡ ok (available, seen')
    → IsBook seen available
unfolding add_providers reservations_of
add_providers-IsBook seen [] available seen' e =
    let empty : available ≡ [] = ground arith in
    rw empty (record {
      separate = record { own = λ p. refl; apart = λ p q id d found. refl };
      fresh = λ p id found. ground arith;
      formed = λ p. tt;
    })
add_providers-IsBook seen ((provider, entries) ∷ others) available seen' e =
    let turn = add_providers-Turn seen provider entries others available seen' e in
    Turn-IsBook seen provider entries others available seen' turn
      (add_entries-IsAdded seen entries turn.0 turn.1 turn.3)
      (add_providers-IsBook turn.1 others turn.2 seen' turn.4)

-- What the constructor admits has unique IDs over all providers and reserves one to a hundred
-- requests under each, and nothing is spent.
pub open_session-IsSeparate :
    (reservations : List (String × List Entry)) (s : QuotaSession)
    → open_session reservations ≡ ok s
    → IsSeparate s.available
      × ((p : String) → All IsReservation (reservations_of p s.available))
      × ((k : String) → (s.consumed k ≡ 0) × (s.actual_requests k ≡ 0) × (s.cache_hits k ≡ 0))
unfolding open_session
open_session-IsSeparate reservations s e = elim (Result-cases (add_providers [] reservations)) [
  | inr (_, bad) ↦ absurd (ground arith)
  | inl ((available, seen'), added) ↦
      let book = add_providers-IsBook [] reservations available seen' added in
      let opened : s ≡ record {
        available = available;
        consumed = λ _. 0;
        actual_requests = λ _. 0;
        cache_hits = λ _. 0;
      } =
        ground arith in
      rw opened (book.separate, book.formed, λ k. (refl, refl, refl))
]
