-- ===== src/Policy/Load.antt =====
-- `load_intelligence_policy` of lib/intelligence/policy.py.
use Prim.Native.String.{count}
use stocks_agent.Common.{
  ℕ, Bool, true, false, ◌&&◌, List, [], ◌∷◌, String, suc, all, leb, if◌then◌else◌, str_eq, contains,
  Result, ok, ◌>>=◌, ◌>>◌, guard,
}
use stocks_agent.Policy.Value.{
  Value, text, Fields, no_field, field, PolicyError, keys_not_approved, identifiers_not_reviewed,
  identifiers_too_large, providers_not_approved, domains_not_approved, capability_version,
  theme_version, baseline_not_reviewed, adaptive_too_large, must_be_false, must_be_true,
  ceiling_too_large, alpha_too_large, ceiling_too_small, budget_providers, budget_too_large,
  keys_of, all_in, has_exactly, is_text_list, equals_one, is_boolean, required, mapping_of,
  nonnegative_int,
}
use stocks_agent.Policy.Budget.{
  Budget, count_of, total, phase_budget, is_within, max_adaptive_enrichment_budget,
  max_provider_phase_budgets, budget_in, PacketLimits, packet_limits,
}

-- `_PROVIDERS` without "alpha_vantage", whose budget is given apart.
abbrev pub budgeted_providers : List String
budgeted_providers =
    "gdelt" ∷ "finnhub" ∷ "yahoo" ∷ "sec_edgar" ∷ "federal_register" ∷ "white_house" ∷ "doe" ∷ "dod"
    ∷ "eia" ∷ "fred" ∷ "bls" ∷ "bea" ∷ []

abbrev pub providers : List String
providers =
    "gdelt" ∷ "alpha_vantage" ∷ "finnhub" ∷ "yahoo" ∷ "sec_edgar" ∷ "federal_register"
    ∷ "white_house" ∷ "doe" ∷ "dod" ∷ "eia" ∷ "fred" ∷ "bls" ∷ "bea" ∷ []

abbrev pub seed_domains : List String
seed_domains =
    "macro_and_policy" ∷ "technology_ai_and_semiconductors"
    ∷ "energy_nuclear_and_grid_infrastructure" ∷ "industrial_infrastructure"
    ∷ "critical_minerals_and_magnets" ∷ "healthcare" ∷ "consumer" ∷ "defense_trade_and_geopolitics"
    ∷ "earnings_and_mergers_and_acquisitions" ∷ []

abbrev pub required_baseline_capability_ids : List String
required_baseline_capability_ids = "sec_company_tickers_universe" ∷ "gdelt_theme_search" ∷ []

abbrev pub intelligence_keys : List String
intelligence_keys =
    "providers" ∷ "seed_domains" ∷ "source_capability_version" ∷ "theme_taxonomy_version"
    ∷ "required_baseline_capability_ids" ∷ "adaptive_enrichment_budget"
    ∷ "alpha_vantage_daily_ceiling" ∷ "alpha_vantage_phase_budget" ∷ "provider_phase_budgets"
    ∷ "packet" ∷ "paid_fallback_enabled" ∷ "runtime_model_api_enabled"
    ∷ "automatic_policy_changes_enabled" ∷ "suggestion_only" ∷ "execution_allowed" ∷ []

pub record IntelligencePolicy : Type 0 where
  pub providers : List String
  pub seed_domains : List String
  pub source_capability_version : ℕ
  pub theme_taxonomy_version : ℕ
  pub required_baseline_capability_ids : List String
  pub adaptive_enrichment_budget : Budget
  pub alpha_vantage_daily_ceiling : ℕ
  pub alpha_vantage_phase_budget : Budget
  pub provider_phase_budgets : List (String × Budget)
  pub packet : PacketLimits
  pub suggestion_only : Bool
  pub execution_allowed : Bool

-- `budget_for` of lib/intelligence/types.py
unfoldable pub budget_for : IntelligencePolicy → (provider phase : String) → ℕ
budget_for policy provider phase =
    if str_eq provider "alpha_vantage"
    then count_of phase policy.alpha_vantage_phase_budget
    else count_of phase (budget_in provider policy.provider_phase_budgets)

-- `len(values)`, and every value a text of at most 160 characters.
unfoldable pub size : Fields → ℕ
size no_field = 0
size (field key value fields) = suc (size fields)

abbrev pub is_short_text : Value → Bool
is_short_text (text s) = leb (count s) 160
is_short_text _ = false

unfoldable pub are_short_texts : Fields → Bool
are_short_texts no_field = true
are_short_texts (field key value fields) = is_short_text value && are_short_texts fields

unfoldable pub check_identifier_map : Fields → String → Result PolicyError (Unit {0})
check_identifier_map identifiers name = do
  values ← mapping_of identifiers name
  guard (leb (size values) 100 && are_short_texts values) identifiers_too_large

unfoldable pub check_identifiers : Fields → Result PolicyError (Unit {0})
check_identifiers identifiers = do
  guard (has_exactly ("version" ∷ "cik_by_symbol" ∷ "series_by_provider" ∷ []) identifiers)
      identifiers_not_reviewed
  version ← required identifiers "version"
  guard (equals_one version) identifiers_not_reviewed
  check_identifier_map identifiers "cik_by_symbol"
  check_identifier_map identifiers "series_by_provider"

unfoldable pub check_optional_identifiers : Fields → Result PolicyError (Unit {0})
check_optional_identifiers intelligence =
    if contains "provider_query_identifiers" (keys_of intelligence)
    then (do
      identifiers ← mapping_of intelligence "provider_query_identifiers"
      check_identifiers identifiers)
    else ok tt

-- The settings that have one approved value.
unfoldable pub check_fixed_settings : Fields → Result PolicyError (Unit {0})
check_fixed_settings intelligence = do
  given_providers ← required intelligence "providers"
  guard (is_text_list given_providers providers) providers_not_approved
  domains ← required intelligence "seed_domains"
  guard (is_text_list domains seed_domains) domains_not_approved
  capability ← required intelligence "source_capability_version"
  guard (equals_one capability) capability_version
  taxonomy ← required intelligence "theme_taxonomy_version"
  guard (equals_one taxonomy) theme_version
  baseline ← required intelligence "required_baseline_capability_ids"
  guard (is_text_list baseline required_baseline_capability_ids) baseline_not_reviewed

unfoldable pub check_flag : Fields → String → Bool → PolicyError → Result PolicyError (Unit {0})
check_flag parent name expected exception = do
  value ← required parent name
  guard (is_boolean expected value) exception

unfoldable pub check_flags : (intelligence guardrails : Fields) → Result PolicyError (Unit {0})
check_flags intelligence guardrails = do
  check_flag intelligence "paid_fallback_enabled" false (must_be_false "paid_fallback_enabled")
  check_flag intelligence "runtime_model_api_enabled" false
      (must_be_false "runtime_model_api_enabled")
  check_flag intelligence "automatic_policy_changes_enabled" false
      (must_be_false "automatic_policy_changes_enabled")
  check_flag intelligence "suggestion_only" true (must_be_true "suggestion_only")
  check_flag intelligence "execution_allowed" false (must_be_false "execution_allowed")
  check_flag guardrails "execution_allowed" false (must_be_false "execution_allowed")

-- `{provider: _phase_budget(raw_provider_budgets[provider], …) for provider in …}`
unfoldable pub budgets_of : Fields → List String → Result PolicyError (List (String × Budget))
budgets_of raw [] = ok []
budgets_of raw (provider ∷ names) = do
  value ← required raw provider
  budget ← phase_budget value
  rest ← budgets_of raw names
  ok ((provider, budget) ∷ rest)

unfoldable pub are_within : List (String × Budget) → Bool
are_within budgets =
    all (λ entry. is_within (budget_in entry.0 max_provider_phase_budgets) entry.1) budgets

-- `set(intelligence)` has the approved keys, and perhaps the identifiers.
unfoldable pub has_approved_keys : Fields → Bool
has_approved_keys intelligence =
    all_in ("provider_query_identifiers" ∷ intelligence_keys) (keys_of intelligence)
    && all_in (keys_of intelligence) intelligence_keys

-- The budgets, the flags and the packet, and the policy of them.
unfoldable pub load_budgets :
    (intelligence guardrails : Fields) → Result PolicyError IntelligencePolicy
load_budgets intelligence guardrails = do
  adaptive_value ← required intelligence "adaptive_enrichment_budget"
  adaptive ← phase_budget adaptive_value
  guard (is_within max_adaptive_enrichment_budget adaptive) adaptive_too_large
  check_flags intelligence guardrails
  ceiling_value ← required intelligence "alpha_vantage_daily_ceiling"
  daily_ceiling ← nonnegative_int "alpha_vantage_daily_ceiling" ceiling_value
  guard (leb daily_ceiling 20) ceiling_too_large
  alpha_value ← required intelligence "alpha_vantage_phase_budget"
  alpha ← phase_budget alpha_value
  guard (leb (total alpha) 18) alpha_too_large
  guard (leb (total alpha) daily_ceiling) ceiling_too_small
  raw ← mapping_of intelligence "provider_phase_budgets"
  guard (has_exactly budgeted_providers raw) budget_providers
  budgets ← budgets_of raw budgeted_providers
  guard (are_within budgets) budget_too_large
  packet_value ← required intelligence "packet"
  packet ← packet_limits packet_value
  ok (record {
    providers = providers;
    seed_domains = seed_domains;
    source_capability_version = 1;
    theme_taxonomy_version = 1;
    required_baseline_capability_ids = required_baseline_capability_ids;
    adaptive_enrichment_budget = adaptive;
    alpha_vantage_daily_ceiling = daily_ceiling;
    alpha_vantage_phase_budget = alpha;
    provider_phase_budgets = budgets;
    packet = packet;
    suggestion_only = true;
    execution_allowed = false;
  })

unfoldable pub load_intelligence_policy : Fields → Result PolicyError IntelligencePolicy
load_intelligence_policy settings = do
  intelligence ← mapping_of settings "intelligence"
  guardrails ← mapping_of settings "guardrails"
  guard (has_approved_keys intelligence) keys_not_approved
  check_optional_identifiers intelligence
  check_fixed_settings intelligence
  load_budgets intelligence guardrails
