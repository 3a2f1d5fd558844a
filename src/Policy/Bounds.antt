-- ===== src/Policy/Bounds.antt =====
-- The bounds that the parts of lib/intelligence/policy.py check.
use stocks_agent.Common.{
  both, ℕ, ◌≤◌, ◌≡◌, sym, arith, true, false, ◌&&◌, List, [], ◌∷◌, String, all, leb, leb→le, str_eq,
  eq_iff, contains, ok, after_guard, ok_injective, after_call, after_test, Bool-cases, inl, inr,
  subst,
}
use stocks_agent.Policy.Value.{
  Value, mapping, Fields, phases_not_approved, packet_keys, packet_too_large, has_exactly, required,
}
use stocks_agent.Policy.Budget.{
  Budget, phases, count_of, total, phase_budget, is_within, max_provider_phase_budgets, budget_in,
  PacketLimits, limit_in, packet_limits, counts_of-unlisted,
}
use stocks_agent.Policy.Load.{budgets_of, are_within}

-- A phase that is not approved has no budget.
pub phase_budget-unlisted :
    (value : Value) (budget : Budget) (phase : String)
    → phase_budget value ≡ ok budget
    → contains phase phases ≡ false
    → count_of phase budget ≡ 0
unfolding phase_budget
phase_budget-unlisted (mapping fields) budget phase e other =
    counts_of-unlisted fields phases budget phase
      (after_guard (has_exactly phases fields) phases_not_approved _ e) other
phase_budget-unlisted _ budget phase e other = cc

-- So a budget within a maximum is within it for every text.
pub is_within-le :
    (maximum budget : Budget) (phase : String)
    → is_within maximum budget ≡ true
    → (contains phase phases ≡ false → count_of phase budget ≡ 0)
    → count_of phase budget ≤ count_of phase maximum
unfolding is_within
is_within-le maximum budget phase within unlisted = elim (Bool-cases (contains phase phases)) [
  | inr other ↦ omega (arith, unlisted other)
  | inl here ↦ listed phases within here
]
  where
    listed :
        (names : List String)
        → all (λ p. leb (count_of p budget) (count_of p maximum)) names ≡ true
        → contains phase names ≡ true
        → count_of phase budget ≤ count_of phase maximum
    listed [] h c = cc
    listed (name ∷ names) h c = elim (Bool-cases (str_eq phase name)) [
      | inl same ↦
          subst (λ p. count_of p budget ≤ count_of p maximum) (sym ((eq_iff phase name).0 same))
            (leb→le (count_of name budget) (count_of name maximum) (ground arith))
      | inr other ↦ listed names (ground arith) (ground arith)
    ]

pub budgets_of-le :
    (raw : Fields) (names : List String) (budgets : List (String × Budget))
    (provider phase : String)
    → budgets_of raw names ≡ ok budgets
    → are_within budgets ≡ true
    → count_of phase (budget_in provider budgets)
      ≤ count_of phase (budget_in provider max_provider_phase_budgets)
unfolding budgets_of are_within
budgets_of-le raw [] budgets provider phase e within =
    subst
      (λ b.
        count_of phase (budget_in provider b)
        ≤ count_of phase (budget_in provider max_provider_phase_budgets))
      (ok_injective e) (omega arith)
budgets_of-le raw (name ∷ names) budgets provider phase e within =
    after_call (required raw name) _ e (λ value found e1.
      after_call (phase_budget value) _ e1 (λ budget parsed e2.
        after_call (budgets_of raw names) _ e2 (λ rest listed e3.
          subst
            (λ b.
              are_within b ≡ true
              → count_of phase (budget_in provider b)
                ≤ count_of phase (budget_in provider max_provider_phase_budgets))
            (ok_injective e3)
            (λ w.
              first value budget rest parsed
                (λ w'. budgets_of-le raw names rest provider phase listed w') w)
            within)))
  where
    first :
        (value : Value) (budget : Budget) (rest : List (String × Budget))
        → phase_budget value ≡ ok budget
        → (are_within rest ≡ true
            → count_of phase (budget_in provider rest)
              ≤ count_of phase (budget_in provider max_provider_phase_budgets))
        → are_within ((name, budget) ∷ rest) ≡ true
        → count_of phase (budget_in provider ((name, budget) ∷ rest))
          ≤ count_of phase (budget_in provider max_provider_phase_budgets)
    first value budget rest parsed later w = elim (Bool-cases (str_eq name provider)) [
      | inr other ↦ rw other (
          later
            (both {a = is_within (budget_in name max_provider_phase_budgets) budget}
              {b = are_within rest} w).1)
      | inl same ↦ rw same (
          subst
            (λ p. count_of phase budget ≤ count_of phase (budget_in p max_provider_phase_budgets))
            ((eq_iff name provider).0 same)
            (is_within-le (budget_in name max_provider_phase_budgets) budget phase
              (both {a = is_within (budget_in name max_provider_phase_budgets) budget}
                {b = are_within rest} w).0
              (phase_budget-unlisted value budget phase parsed)))
    ]

-- No limit of a packet exceeds the default.
abbrev pub IsBoundedPacket : PacketLimits → Type 0
IsBoundedPacket packet =
    (packet.max_candidates ≤ 12)
    × (packet.max_evidence_per_candidate ≤ 8)
    × (packet.max_item_characters ≤ 2000)
    × (packet.max_serialized_bytes ≤ 98304)

pub packet_limits-IsBoundedPacket :
    (value : Value) (packet : PacketLimits)
    → packet_limits value ≡ ok packet
    → IsBoundedPacket packet
unfolding packet_limits
packet_limits-IsBoundedPacket (mapping fields) packet e0 =
    after_test
      (has_exactly
        ("max_candidates" ∷ "max_evidence_per_candidate" ∷ "max_item_characters"
          ∷ "max_serialized_bytes" ∷ [])
        fields)
      packet_keys _ e0
      (λ exact e1. after_call (limit_in fields "max_candidates") _ e1 (λ candidates f1 e2.
        after_call (limit_in fields "max_evidence_per_candidate") _ e2 (λ evidence f2 e3.
          after_call (limit_in fields "max_item_characters") _ e3 (λ characters f3 e4.
            after_call (limit_in fields "max_serialized_bytes") _ e4 (λ bytes f4 e5.
              after_test
                (leb candidates 12 && leb evidence 8 && leb characters 2000 && leb bytes 98304)
                packet_too_large _ e5
                (λ small e6.
                  subst IsBoundedPacket (ok_injective e6)
                    (bounded candidates evidence characters bytes small)))))))
  where
    bounded :
        (a b c d : ℕ)
        → (leb a 12 && leb b 8 && leb c 2000 && leb d 98304) ≡ true
        → (a ≤ 12) × (b ≤ 8) × (c ≤ 2000) × (d ≤ 98304)
    bounded a b c d h = (
      leb→le a 12 (ground arith),
      leb→le b 8 (ground arith),
      leb→le c 2000 (ground arith),
      leb→le d 98304 (ground arith),
    )
packet_limits-IsBoundedPacket _ packet e = cc

pub count_of-le_total : (phase : String) (budget : Budget) → count_of phase budget ≤ total budget
count_of-le_total phase [] = omega arith
count_of-le_total phase ((p, n) ∷ budget) = ground (arith, count_of-le_total phase budget)
