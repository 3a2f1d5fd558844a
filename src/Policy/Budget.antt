-- ===== src/Policy/Budget.antt =====
-- Budgets by phase, and the maxima that lib/intelligence/policy.py approves.
use stocks_agent.Common.{
  ℕ, ◌+◌, ◌≡◌, refl, arith, Bool, false, ◌&&◌, List, [], ◌∷◌, String, all, leb, if◌then◌else◌,
  str_eq, eq_iff, contains, Result, ok, raise, ◌>>=◌, ◌>>◌, guard, bind-eq-ok, ok_injective, subst,
}
use stocks_agent.Policy.Value.{
  Value, Fields, mapping, PolicyError, phases_not_approved, packet_not_an_object, packet_keys,
  packet_too_large, has_exactly, required, nonnegative_int,
}

abbrev pub phases : List String
phases = "pre-market" ∷ "intraday" ∷ "post-market" ∷ "on-demand" ∷ []

-- A mapping from phases to counts.
abbrev pub Budget : Type 0
Budget = List (String × ℕ)

-- `budget.get(phase, 0)`
abbrev pub count_of : String → Budget → ℕ
count_of phase [] = 0
count_of phase ((p, n) ∷ budget) = if str_eq p phase then n else count_of phase budget

-- `sum(budget.values())`
abbrev pub total : Budget → ℕ
total [] = 0
total ((p, n) ∷ budget) = n + total budget

-- `{phase: _nonnegative_int(value[phase], …) for phase in _PHASES}`
unfoldable pub counts_of : Fields → List String → Result PolicyError Budget
counts_of fields [] = ok []
counts_of fields (phase ∷ names) = do
  value ← required fields phase
  n ← nonnegative_int phase value
  rest ← counts_of fields names
  ok ((phase, n) ∷ rest)

-- `_phase_budget`
unfoldable pub phase_budget : Value → Result PolicyError Budget
phase_budget (mapping fields) = do
  guard (has_exactly phases fields) phases_not_approved
  counts_of fields phases
phase_budget _ = raise phases_not_approved

-- No phase is above its maximum.
unfoldable pub is_within : Budget → Budget → Bool
is_within maximum budget =
    all (λ phase. leb (count_of phase budget) (count_of phase maximum)) phases

abbrev pub four : (pre_market intraday post_market on_demand : ℕ) → Budget
four a b c d = ("pre-market", a) ∷ ("intraday", b) ∷ ("post-market", c) ∷ ("on-demand", d) ∷ []

abbrev pub max_adaptive_enrichment_budget : Budget
max_adaptive_enrichment_budget = four 12 4 8 4

abbrev pub max_provider_phase_budgets : List (String × Budget)
max_provider_phase_budgets =
    ("gdelt", four 80 20 40 20)
    ∷ ("finnhub", four 6 3 4 2)
    ∷ ("yahoo", four 12 6 8 4)
    ∷ ("sec_edgar", four 7 3 5 3)
    ∷ ("federal_register", four 4 1 2 2)
    ∷ ("white_house", four 4 1 2 2)
    ∷ ("doe", four 4 1 2 2)
    ∷ ("dod", four 4 1 2 2)
    ∷ ("eia", four 4 1 2 2)
    ∷ ("fred", four 4 1 2 2)
    ∷ ("bls", four 4 1 2 2)
    ∷ ("bea", four 4 1 2 2)
    ∷ []

-- `budgets.get(provider, {})`
abbrev pub budget_in : String → List (String × Budget) → Budget
budget_in provider [] = []
budget_in provider ((p, budget) ∷ budgets) =
    if str_eq p provider then budget else budget_in provider budgets

-- `PacketLimits` of lib/intelligence/types.py, with its defaults, which are the maxima.
pub record PacketLimits : Type 0 where
  pub max_candidates : ℕ
  pub max_evidence_per_candidate : ℕ
  pub max_item_characters : ℕ
  pub max_serialized_bytes : ℕ

abbrev pub max_packet_limits : PacketLimits
max_packet_limits = record {
  max_candidates = 12;
  max_evidence_per_candidate = 8;
  max_item_characters = 2000;
  max_serialized_bytes = 98304;
}

unfoldable pub limit_in : Fields → String → Result PolicyError ℕ
limit_in fields name = do value ← required fields name; nonnegative_int name value

-- `_packet_limits`
unfoldable pub packet_limits : Value → Result PolicyError PacketLimits
packet_limits (mapping fields) = do
  guard
      (has_exactly
        ("max_candidates" ∷ "max_evidence_per_candidate" ∷ "max_item_characters"
          ∷ "max_serialized_bytes" ∷ [])
        fields)
      packet_keys
  candidates ← limit_in fields "max_candidates"
  evidence ← limit_in fields "max_evidence_per_candidate"
  characters ← limit_in fields "max_item_characters"
  bytes ← limit_in fields "max_serialized_bytes"
  guard
      (leb candidates max_packet_limits.max_candidates
        && leb evidence max_packet_limits.max_evidence_per_candidate
        && leb characters max_packet_limits.max_item_characters
        && leb bytes max_packet_limits.max_serialized_bytes)
      packet_too_large
  ok (record {
    max_candidates = candidates;
    max_evidence_per_candidate = evidence;
    max_item_characters = characters;
    max_serialized_bytes = bytes;
  })
packet_limits _ = raise packet_not_an_object

-- A phase that is not listed has no budget.
pub counts_of-unlisted :
    (fields : Fields) (names : List String) (budget : Budget) (phase : String)
    → counts_of fields names ≡ ok budget
    → contains phase names ≡ false
    → count_of phase budget ≡ 0
unfolding counts_of
counts_of-unlisted fields [] budget phase e other =
    subst (λ b. count_of phase b ≡ 0) (ok_injective e) refl
counts_of-unlisted fields (name ∷ names) budget phase e other =
    let (value, found, e1) = bind-eq-ok (required fields name) _ e in
    let (n, counted, e2) = bind-eq-ok (nonnegative_int name value) _ e1 in
    let (rest, listed, e3) = bind-eq-ok (counts_of fields names) _ e2 in
    subst (λ b. count_of phase b ≡ 0) (ok_injective e3)
      (ground (
        arith,
        counts_of-unlisted fields names rest phase listed,
        eq_iff name phase,
        eq_iff phase name,
      ))
