-- ===== src/Queue/Reservation.antt =====
-- `adaptive_provider_reservations` of lib/intelligence/research_queue.py, and the budget of the policy.
use stocks_agent.Common.{
  ℕ, ◌≡◌, refl, List, [], ◌∷◌, String, str_eq, if◌then◌else◌, Bool-cases, inl, inr, Result, ok,
  raise, ok_injective, subst,
}
use stocks_agent.Policy.Budget.{Budget, count_of, total, max_adaptive_enrichment_budget}

pub data ReservationError : Type 0 where
  phase_not_approved : ReservationError

abbrev pub envelope : (submissions document quote reverse : ℕ) → Budget
envelope a b c d =
    ("sec_issuer_submissions", a)
    ∷ ("sec_filing_document", b)
    ∷ ("yahoo_security_quote", c)
    ∷ ("gdelt_reverse", d)
    ∷ []

-- `_PHASE_ENVELOPES`
abbrev pub phase_envelopes : List (String × Budget)
phase_envelopes =
    ("pre-market", envelope 3 3 4 2)
    ∷ ("intraday", envelope 1 1 1 1)
    ∷ ("post-market", envelope 2 2 2 2)
    ∷ ("on-demand", envelope 1 1 1 1)
    ∷ []

unfoldable pub envelope_in : String → List (String × Budget) → Result ReservationError Budget
envelope_in phase [] = raise phase_not_approved
envelope_in phase ((p, reservations) ∷ envelopes) =
    if str_eq p phase then ok reservations else envelope_in phase envelopes

unfoldable pub adaptive_provider_reservations : String → Result ReservationError Budget
adaptive_provider_reservations phase = envelope_in phase phase_envelopes

abbrev entries_total : List (String × Budget) → Budget
entries_total [] = []
entries_total ((phase, reservations) ∷ entries) =
    (phase, total reservations) ∷ entries_total entries

envelope_in-total :
    (phase : String) (entries : List (String × Budget)) (reservations : Budget)
    → envelope_in phase entries ≡ ok reservations
    → total reservations ≡ count_of phase (entries_total entries)
unfolding envelope_in
envelope_in-total phase [] reservations e = cc
envelope_in-total phase ((p, first) ∷ entries) reservations e = elim (Bool-cases (str_eq p phase)) [
  | inl same ↦ rw same (subst (λ r. total r ≡ total first) (ok_injective (rw same at e)) refl)
  | inr other ↦ rw other (envelope_in-total phase entries reservations (rw other at e))
]

-- If a phase has reservations, they sum up to the most that the policy approves for it.
pub adaptive_provider_reservations-total :
    (phase : String) (reservations : Budget)
    → adaptive_provider_reservations phase ≡ ok reservations
    → total reservations ≡ count_of phase max_adaptive_enrichment_budget
unfolding adaptive_provider_reservations
adaptive_provider_reservations-total phase reservations e =
    envelope_in-total phase phase_envelopes reservations e
