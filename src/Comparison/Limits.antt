-- ===== src/Comparison/Limits.antt =====
-- When lib/intelligence/comparison.py notes no limitation.
use stocks_agent.Common.{
  ◌≡◌, refl, ap, ◌∙◌, inl, inr, Bool, true, false, not, ◌&&◌, ◌||◌, List, [], ◌∷◌, ◌++◌, String,
  arith, if◌then◌else◌, str_eq, Bool-cases,
}
use stocks_agent.Cursor.Update.{first_occurrences}
use stocks_agent.Comparison.Candidate.{
  EvidenceStatus, supported, missing, conflicting, veto, Entries, ComparisonCandidate, has_ids,
}
use stocks_agent.Comparison.Compare.{
  drawdown_evidence, scenarios_of, unavailable, factors_of, unavailable_entries, set_default,
  set_defaults, scenario_limitations, limitations_of_comparison,
}

-- A value that is there: neither missing nor conflicting.
abbrev pub is_available : EvidenceStatus → Bool
is_available supported = true
is_available veto = true
is_available missing = false
is_available conflicting = false

abbrev pub is_veto : EvidenceStatus → Bool
is_veto veto = true
is_veto supported = false
is_veto missing = false
is_veto conflicting = false

abbrev pub all_available : Entries → Bool
all_available [] = true
all_available ((name, value) ∷ entries) = is_available value.status && all_available entries

abbrev pub has_key : String → Entries → Bool
has_key key [] = false
has_key key ((k, value) ∷ entries) = str_eq k key || has_key key entries

abbrev pub have_keys : List String → Entries → Bool
have_keys [] entries = true
have_keys (key ∷ keys) entries = has_key key entries && have_keys keys entries

abbrev pub has_evidence : Entries → Bool
has_evidence [] = false
has_evidence ((name, value) ∷ entries) = has_ids value.evidence_ids || has_evidence entries

pub has_ids_append : (xs ys : List String) → has_ids (xs ++ ys) ≡ (has_ids xs || has_ids ys)
has_ids_append [] ys = refl
has_ids_append (x ∷ xs) ys = refl

unavailable-is_available :
    (name : String) (status : EvidenceStatus)
    → has_ids (unavailable name status) ≡ not (is_available status)
unavailable-is_available name supported = refl
unavailable-is_available name missing = refl
unavailable-is_available name conflicting = refl
unavailable-is_available name veto = refl

unavailable_entries-all_available :
    (prefix : String) (entries : Entries)
    → has_ids (unavailable_entries prefix entries) ≡ not (all_available entries)
unfolding unavailable_entries
unavailable_entries-all_available prefix [] = refl
unavailable_entries-all_available prefix ((name, value) ∷ entries) = ground (
  arith,
  has_ids_append (unavailable _ value.status) (unavailable_entries prefix entries),
  unavailable-is_available _ value.status,
  unavailable_entries-all_available prefix entries,
)

set_default-all_available :
    (key : String) (entries : Entries)
    → all_available (set_default key entries) ≡ (all_available entries && has_key key entries)
unfolding set_default
set_default-all_available key [] = refl
set_default-all_available key ((k, value) ∷ entries) =
    ground (arith, set_default-all_available key entries)

set_default_present :
    (key : String) (entries : Entries)
    → has_key key entries ≡ true
    → set_default key entries ≡ entries
unfolding set_default
set_default_present key [] h = cc
set_default_present key ((k, value) ∷ entries) h = elim (Bool-cases (str_eq k key)) [
  | inl same ↦ rw same refl
  | inr differs ↦
      rw differs
        (ap (λ rest. (k, value) ∷ rest) (set_default_present key entries (rw differs at h)))
]

set_defaults-all_available :
    (keys : List String) (entries : Entries)
    → all_available (set_defaults keys entries) ≡ (all_available entries && have_keys keys entries)
unfolding set_defaults
set_defaults-all_available [] entries = ground arith
set_defaults-all_available (key ∷ keys) entries = elim (Bool-cases (has_key key entries)) [
  | inl present ↦
      ap (λ e. all_available (set_defaults keys e)) (set_default_present key entries present)
      ∙ ground (arith, set_defaults-all_available keys entries, present)
  | inr absent ↦ ground (
    arith,
    set_defaults-all_available keys (set_default key entries),
    set_default-all_available key entries,
    absent,
  )
]

drawdown_evidence-has_evidence :
    (entries : Entries) → has_ids (drawdown_evidence entries) ≡ has_evidence entries
unfolding drawdown_evidence
drawdown_evidence-has_evidence [] = refl
drawdown_evidence-has_evidence ((name, value) ∷ entries) = ground (
  arith,
  has_ids_append value.evidence_ids (drawdown_evidence entries),
  drawdown_evidence-has_evidence entries,
)

has_ids-first_occurrences : (ids : List String) → has_ids (first_occurrences [] ids) ≡ has_ids ids
unfolding first_occurrences
has_ids-first_occurrences [] = refl
has_ids-first_occurrences (id ∷ ids) = refl

-- Each case has evidence; that of a drawdown is evidence of the bear case.
abbrev pub has_scenarios : ComparisonCandidate → Bool
has_scenarios c =
    (has_ids c.scenario_evidence_ids.bear || has_evidence c.drawdowns)
    && has_ids c.scenario_evidence_ids.base
    && has_ids c.scenario_evidence_ids.bull

scenario_limitations-has_scenarios :
    (c : ComparisonCandidate)
    → has_ids (scenario_limitations (scenarios_of c)) ≡ not (has_scenarios c)
unfolding scenario_limitations scenarios_of
scenario_limitations-has_scenarios c = ground (
  arith,
  has_ids-first_occurrences (c.scenario_evidence_ids.bear ++ drawdown_evidence c.drawdowns),
  has_ids_append c.scenario_evidence_ids.bear (drawdown_evidence c.drawdowns),
  drawdown_evidence-has_evidence c.drawdowns,
)

-- The owner has an anchor, every factor is available, the candidate and every anchor have a drawdown, all
-- drawdowns are available, and each case has evidence.
abbrev pub is_complete : (anchors : List String) → ComparisonCandidate → Bool
is_complete anchors c =
    has_ids anchors
    && all_available (factors_of c)
    && all_available c.drawdowns
    && have_keys (c.ticker ∷ anchors) c.drawdowns
    && has_scenarios c

four_lists :
    (a b c d : List String)
    → has_ids (a ++ (b ++ (c ++ d))) ≡ (has_ids a || (has_ids b || (has_ids c || has_ids d)))
four_lists a b c d =
    ground (arith, has_ids_append a (b ++ (c ++ d)), has_ids_append b (c ++ d), has_ids_append c d)

de_morgan :
    (a f d k s : Bool) → (not a || (not f || (not (d && k) || not s))) ≡ not (a && f && d && k && s)
de_morgan a f d k s = ground arith

anchor_limitations :
    (anchors : List String)
    → has_ids (if has_ids anchors then [] else "anchor:missing" ∷ []) ≡ not (has_ids anchors)
anchor_limitations [] = refl
anchor_limitations (anchor ∷ anchors) = refl

pub limitations_of_comparison-is_complete :
    (anchors : List String) (c : ComparisonCandidate)
    → has_ids (limitations_of_comparison anchors c (set_defaults (c.ticker ∷ anchors) c.drawdowns))
      ≡ not (is_complete anchors c)
unfolding limitations_of_comparison
limitations_of_comparison-is_complete anchors c =
    four_lists (if has_ids anchors then [] else "anchor:missing" ∷ [])
      (unavailable_entries "" (factors_of c))
      (unavailable_entries "drawdown:" (set_defaults (c.ticker ∷ anchors) c.drawdowns))
      (scenario_limitations (scenarios_of c))
    ∙ (λ i.
        anchor_limitations anchors i
        || (unavailable_entries-all_available "" (factors_of c) i
            || (drawdowns i || scenario_limitations-has_scenarios c i)))
    ∙ de_morgan (has_ids anchors) (all_available (factors_of c)) (all_available c.drawdowns)
        (have_keys (c.ticker ∷ anchors) c.drawdowns) (has_scenarios c)
  where
    drawdowns :
        has_ids (unavailable_entries "drawdown:" (set_defaults (c.ticker ∷ anchors) c.drawdowns))
        ≡ not (all_available c.drawdowns && have_keys (c.ticker ∷ anchors) c.drawdowns)
    drawdowns =
        unavailable_entries-all_available "drawdown:"
          (set_defaults (c.ticker ∷ anchors) c.drawdowns)
        ∙ ap not (set_defaults-all_available (c.ticker ∷ anchors) c.drawdowns)
