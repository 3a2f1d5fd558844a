-- ===== src/Health/Examples.antt =====
-- The health of two capabilities by lib/intelligence/health.py, and the theorem at them.
use stocks_agent.Common.{
  ◌≡◌, refl, true, false, Option, none, some, List, [], ◌∷◌, String, str_eq, insert_sorted, sorted,
  inl, inr, Bool-cases, raise,
}
use stocks_agent.Relation.Text.{lstrip, rstrip, strip}
use stocks_agent.Health.Probe.{
  Configuration, ProbeRequest, routes, route_of, static_probe, before_char, after_char, route_host,
  route_path,
}
use stocks_agent.Health.Record.{
  SourceCapability, capability_missing, configuration_name, is_configured, needs_identifier,
  probed_status, capability_record, health_of, records_of, record_status, build_capability_health,
}
use stocks_agent.Health.Meaning.{IsReached, health_of-IsReached}
use stocks_agent.Health.Secrecy.{build_capability_health_same}

abbrev capability : (provider query_kind : String) → SourceCapability
capability provider query_kind = record {
  provider = provider;
  enabled = true;
  health = "ready";
  query_kind = query_kind;
  required_credential = none;
  allowed_hosts = [];
  allowed_path_patterns = [];
}

abbrev capabilities : List (String × SourceCapability)
capabilities =
    ("sec_company_tickers_universe", capability "sec_edgar" "universe")
    ∷ ("gdelt_theme_search", capability "gdelt" "theme")
    ∷ []

-- Every name is configured with the same contact.
abbrev with_contact : String → Configuration
with_contact contact name = some contact

abbrev arrives : ProbeRequest → Option String
arrives request = some request.url

program : Unit {0}
unfolding insert_sorted sorted lstrip rstrip strip routes route_of static_probe before_char
    after_char route_host route_path configuration_name is_configured capability_record health_of
    records_of record_status build_capability_health
program = tt

universe_record :
    health_of
      (with_contact "a@b.example")
      arrives
      "sec_company_tickers_universe"
      (capability "sec_edgar" "universe")
    ≡ record {
      provider = "sec_edgar";
      enabled = true;
      declared_health = "ready";
      allowed_hosts = [];
      allowed_path_patterns = [];
      required_configuration = some "SEC_USER_AGENT_CONTACT";
      configuration_status = "present";
      status = "ok";
      route = some ("www.sec.gov", "/files/company_tickers.json");
    }
unfolding program
universe_record = refl

no_capability :
    build_capability_health [] (with_contact "a@b.example") arrives ≡ raise capability_missing
unfolding program
no_capability = refl

same_names :
    (name : String)
    → is_configured (with_contact "a@b.example") (some name)
      ≡ is_configured (with_contact "c@d.example") (some name)
unfolding program
same_names name = refl

same_answers :
    (id : String)
    → probed_status arrives (static_probe id (with_contact "a@b.example"))
      ≡ probed_status arrives (static_probe id (with_contact "c@d.example"))
unfolding program
same_answers id = elim (Bool-cases (str_eq id "alpha_vantage_topic_news")) [
  | inl alpha ↦ rw alpha refl
  | inr other ↦ rw other (elim (Bool-cases (str_eq "sec_company_tickers_universe" id)) [
    | inl universe ↦ rw universe refl
    | inr another ↦ rw another refl
  ])
]

build_capability_health_same_example :
    build_capability_health capabilities (with_contact "a@b.example") arrives
    ≡ build_capability_health capabilities (with_contact "c@d.example") arrives
build_capability_health_same_example =
    build_capability_health_same (with_contact "a@b.example") (with_contact "c@d.example") arrives
      arrives same_names same_answers capabilities

universe_status :
    str_eq
      (health_of
        (with_contact "a@b.example")
        arrives
        "sec_company_tickers_universe"
        (capability "sec_edgar" "universe")).status
      "ok"
    ≡ true
unfolding program
universe_status = refl

health_of-IsReached_example :
    (is_configured
        (with_contact "a@b.example")
        (configuration_name (capability "sec_edgar" "universe"))
      ≡ true)
    × (needs_identifier (capability "sec_edgar" "universe") ≡ false)
    × IsReached (with_contact "a@b.example") arrives "sec_company_tickers_universe"
health_of-IsReached_example =
    health_of-IsReached (with_contact "a@b.example") arrives "sec_company_tickers_universe"
      (capability "sec_edgar" "universe") refl universe_status
