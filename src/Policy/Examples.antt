-- ===== src/Policy/Examples.antt =====
-- Settings that are accepted, some that are refused, and the theorem at the accepted ones.
use stocks_agent.Common.{ℕ, ◌≡◌, refl, Bool, true, false, List, [], ◌∷◌, String, ok, raise}
use stocks_agent.Policy.Value.{
  Value, boolean, integer, text, sequence, mapping, Values, end, item, Fields, no_field, field,
  keys_not_approved, must_be_false, adaptive_too_large, lookup, keys_of, all_in, has_exactly,
  are_texts, is_text_list, equals_one, is_boolean, required_in, required, mapping_in, mapping_of,
  nonnegative_int,
}
use stocks_agent.Policy.Budget.{
  Budget, four, counts_of, phase_budget, is_within, max_packet_limits, limit_in, packet_limits,
}
use stocks_agent.Policy.Load.{
  budgeted_providers, providers, seed_domains, required_baseline_capability_ids, IntelligencePolicy,
  check_optional_identifiers, check_fixed_settings, check_flag, check_flags, budgets_of, are_within,
  has_approved_keys, load_budgets, load_intelligence_policy, budget_for,
}
use stocks_agent.Policy.Approved.{IsApproved, load_intelligence_policy-IsApproved}

abbrev texts : List String → Values
texts [] = end
texts (t ∷ ts) = item (text t) (texts ts)

abbrev budget : (pre_market intraday post_market on_demand : ℕ) → Value
budget a b c d = mapping (
    field "on-demand" (integer d) (
      field "pre-market" (integer a)
        (field "intraday" (integer b) (field "post-market" (integer c) no_field))))

abbrev same_budgets : List String → Fields
same_budgets [] = no_field
same_budgets (name ∷ names) = field name (budget 2 1 2 2) (same_budgets names)

abbrev same_parsed : List String → List (String × Budget)
same_parsed [] = []
same_parsed (name ∷ names) = (name, four 2 1 2 2) ∷ same_parsed names

abbrev packet : Value
packet = mapping (
    field "max_candidates" (integer 12) (
      field "max_evidence_per_candidate" (integer 8) (
        field "max_item_characters" (integer 2000)
          (field "max_serialized_bytes" (integer 98304) no_field))))

abbrev intelligence : (adaptive : ℕ) → (paid_fallback : Bool) → Fields
intelligence adaptive paid_fallback = field "providers" (sequence (texts providers)) (
    field "seed_domains" (sequence (texts seed_domains)) (
      field "source_capability_version" (integer 1) (
        field "theme_taxonomy_version" (integer 1) (
          field "required_baseline_capability_ids"
            (sequence (texts required_baseline_capability_ids))
            (field "adaptive_enrichment_budget" (budget adaptive 4 8 4) (
              field "alpha_vantage_daily_ceiling" (integer 20) (
                field "alpha_vantage_phase_budget" (budget 8 2 6 2) (
                  field "provider_phase_budgets" (mapping (same_budgets budgeted_providers)) (
                    field "packet" packet (
                      field "paid_fallback_enabled" (boolean paid_fallback) (
                        field "runtime_model_api_enabled" (boolean false) (
                          field "automatic_policy_changes_enabled" (boolean false) (
                            field "suggestion_only" (boolean true)
                              (field "execution_allowed" (boolean false) no_field))))))))))))))

abbrev settings : Fields → Fields
settings given =
    field "guardrails" (mapping (field "execution_allowed" (boolean false) no_field))
      (field "intelligence" (mapping given) no_field)

abbrev policy : IntelligencePolicy
policy = record {
  providers = providers;
  seed_domains = seed_domains;
  source_capability_version = 1;
  theme_taxonomy_version = 1;
  required_baseline_capability_ids = required_baseline_capability_ids;
  adaptive_enrichment_budget = four 12 4 8 4;
  alpha_vantage_daily_ceiling = 20;
  alpha_vantage_phase_budget = four 8 2 6 2;
  provider_phase_budgets = same_parsed budgeted_providers;
  packet = max_packet_limits;
  suggestion_only = true;
  execution_allowed = false;
}

program : Unit {0}
unfolding lookup keys_of all_in has_exactly are_texts is_text_list equals_one is_boolean required_in
    required mapping_in mapping_of nonnegative_int counts_of phase_budget is_within limit_in
    packet_limits check_optional_identifiers check_fixed_settings check_flag check_flags budgets_of
    are_within has_approved_keys load_budgets load_intelligence_policy budget_for
program = tt

loaded : load_intelligence_policy (settings (intelligence 12 false)) ≡ ok policy
unfolding program
loaded = refl

oversized : load_intelligence_policy (settings (intelligence 13 false)) ≡ raise adaptive_too_large
unfolding program
oversized = refl

paid :
    load_intelligence_policy (settings (intelligence 12 true))
    ≡ raise (must_be_false "paid_fallback_enabled")
unfolding program
paid = refl

unknown :
    load_intelligence_policy (settings (field "model" (text "x") (intelligence 12 false)))
    ≡ raise keys_not_approved
unfolding program
unknown = refl

load_intelligence_policy-IsApproved_example : IsApproved policy
load_intelligence_policy-IsApproved_example =
    load_intelligence_policy-IsApproved (settings (intelligence 12 false)) policy loaded
