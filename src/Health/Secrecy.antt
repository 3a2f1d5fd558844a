-- ===== src/Health/Secrecy.antt =====
-- The health of the capabilities in lib/intelligence/health.py says nothing of a configured value but
-- whether there is one.
use stocks_agent.Common.{
  ◌≡◌, refl, inl, inr, not, Option, none, some, List, [], ◌∷◌, String, if◌then◌else◌, str_eq,
  Bool-cases, ok, ◌>>=◌,
}
use stocks_agent.Health.Probe.{Configuration, ProbeRequest, routes, route_of, static_probe}
use stocks_agent.Health.Record.{
  SourceCapability, configuration_name, is_configured, route_text, capability_record,
  needs_identifier, probed_status, health_of, records_of, record_status, baseline_of,
  build_capability_health,
}

-- The route of a probe does not depend on the configured values.
static_probe-route_text :
    (id : String) (values values' : Configuration)
    → route_text (static_probe id values) ≡ route_text (static_probe id values')
unfolding static_probe route_of routes
static_probe-route_text id values values' =
    elim (Bool-cases (str_eq id "alpha_vantage_topic_news")) [
      | inl alpha ↦ rw alpha refl
      | inr other ↦ rw other (elim (Bool-cases (str_eq "sec_company_tickers_universe" id)) [
        | inl universe ↦ rw universe refl
        | inr another ↦ rw another refl
      ])
    ]

module _ (values values' : Configuration) (probe probe' : ProbeRequest → Option String)
    (same_names : (name : String)
      → is_configured values (some name) ≡ is_configured values' (some name))
    (same_answers : (id : String)
      → probed_status probe (static_probe id values)
        ≡ probed_status probe' (static_probe id values')) where
  is_configured_same :
      (name : Option String) → is_configured values name ≡ is_configured values' name
  unfolding is_configured
  is_configured_same none = refl
  is_configured_same (some name) = same_names name

  health_of_same :
      (id : String) (capability : SourceCapability)
      → health_of values probe id capability ≡ health_of values' probe' id capability
  unfolding health_of capability_record
  health_of_same id capability = λ i.
      let configured = is_configured_same (configuration_name capability) i in
      if not capability.enabled
      then capability_record capability capability.health configured none
      else if not configured
      then capability_record capability "configuration_missing" configured none
      else if needs_identifier capability
      then capability_record capability "ready_requires_identifier" configured none
      else record {
        provider = capability.provider;
        enabled = capability.enabled;
        declared_health = capability.health;
        allowed_hosts = (capability_record capability "" configured none).allowed_hosts;
        allowed_path_patterns = capability.allowed_path_patterns;
        required_configuration = configuration_name capability;
        configuration_status =
            (capability_record capability "" configured none).configuration_status;
        status = same_answers id i;
        route = static_probe-route_text id values values' i;
      }

  records_of_same :
      (capabilities : List (String × SourceCapability))
      → records_of values probe capabilities ≡ records_of values' probe' capabilities
  unfolding records_of
  records_of_same [] = refl
  records_of_same ((id, capability) ∷ capabilities) =
      λ i. (id, health_of_same id capability i) ∷ records_of_same capabilities i

  -- If two configurations have values for the same names, and the reviewed probes made with them have the
  -- same outcomes, the whole health is the same.
  pub build_capability_health_same :
      (capabilities : List (String × SourceCapability))
      → build_capability_health capabilities values probe
        ≡ build_capability_health capabilities values' probe'
  unfolding build_capability_health
  build_capability_health_same capabilities = λ i.
      let entries = records_of_same capabilities i in
      record_status "sec_company_tickers_universe" entries >>= λ universe.
      record_status "gdelt_theme_search" entries >>= λ theme.
      ok (record { zero_key_baseline = baseline_of universe theme; capabilities = entries })
