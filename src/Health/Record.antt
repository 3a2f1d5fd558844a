-- ===== src/Health/Record.antt =====
-- `build_capability_health` of lib/intelligence/health.py, on the capabilities that
-- `load_source_capabilities` gives. A probe gives the final url, or none where it raises.
use Prim.Native.String.{compare as compare_texts}
use stocks_agent.Common.{
  Bool, true, not, ◌&&◌, ◌||◌, Option, none, some, List, [], ◌∷◌, String, if◌then◌else◌, str_eq,
  contains, sorted, Result, ok, raise, ◌>>=◌,
}
use stocks_agent.Relation.Text.{strip}
use stocks_agent.Health.Probe.{
  Configuration, configured_value, ProbeRequest, sec_contact, static_probe, route_host, route_path,
}

-- What is read of a `SourceCapability` (lib/intelligence/types.py).
pub record SourceCapability : Type 0 where
  pub provider : String
  pub enabled : Bool
  pub health : String
  pub query_kind : String
  pub required_credential : Option String
  pub allowed_hosts : List String
  pub allowed_path_patterns : List String

pub record CapabilityRecord : Type 0 where
  pub provider : String
  pub enabled : Bool
  pub declared_health : String
  pub allowed_hosts : List String
  pub allowed_path_patterns : List String
  pub required_configuration : Option String
  pub configuration_status : String
  pub status : String
  pub route : Option (String × String)

pub data HealthError : Type 0 where
  capability_missing : HealthError

-- `_configuration_name`
unfoldable pub configuration_name : SourceCapability → Option String
configuration_name capability =
    if str_eq capability.provider "sec_edgar"
    then some sec_contact
    else capability.required_credential

unfoldable pub is_configured : Configuration → Option String → Bool
is_configured values none = true
is_configured values (some name) = not (str_eq (strip (configured_value values name)) "")

abbrev pub configuration_status_of : Option String → (configured : Bool) → String
configuration_status_of none configured = "not_required"
configuration_status_of (some name) configured = if configured then "present" else "missing"

abbrev pub route_text : Option ProbeRequest → Option (String × String)
route_text none = none
route_text (some request) = some (route_host request.url, route_path request.url)

-- `_capability_record`
unfoldable pub capability_record :
    SourceCapability
    → (status : String) → (configured : Bool) → Option ProbeRequest
    → CapabilityRecord
capability_record capability status configured request = record {
  provider = capability.provider;
  enabled = capability.enabled;
  declared_health = capability.health;
  allowed_hosts = sorted compare_texts capability.allowed_hosts;
  allowed_path_patterns = capability.allowed_path_patterns;
  required_configuration = configuration_name capability;
  configuration_status = configuration_status_of (configuration_name capability) configured;
  status = status;
  route = route_text request;
}

abbrev pub needs_identifier : SourceCapability → Bool
needs_identifier capability =
    contains capability.query_kind ("issuer_submissions" ∷ "filing_document" ∷ "quote" ∷ [])

-- The status by the final url, if the probe returned.
abbrev pub final_status : (allowed : List String) → Option String → String
final_status allowed none = "source_failed"
final_status allowed (some url) = if contains url allowed then "ok" else "source_failed"

abbrev pub probed_status : (ProbeRequest → Option String) → Option ProbeRequest → String
probed_status probe none = "unsupported"
probed_status probe (some request) = final_status request.allowed_final_urls (probe request)

-- The body of the loop over the capabilities.
unfoldable pub health_of :
    Configuration
    → (probe : ProbeRequest → Option String) → (capability_id : String) → SourceCapability
    → CapabilityRecord
health_of values probe id capability =
    let configured = is_configured values (configuration_name capability) in
    if not capability.enabled
    then capability_record capability capability.health configured none
    else if not configured
    then capability_record capability "configuration_missing" configured none
    else if needs_identifier capability
    then capability_record capability "ready_requires_identifier" configured none
    else capability_record capability (probed_status probe (static_probe id values)) configured
        (static_probe id values)

unfoldable pub records_of :
    Configuration
    → (probe : ProbeRequest → Option String) → List (String × SourceCapability)
    → List (String × CapabilityRecord)
records_of values probe [] = []
records_of values probe ((id, capability) ∷ capabilities) =
    (id, health_of values probe id capability) ∷ records_of values probe capabilities

-- `records[capability_id]["status"]`
unfoldable pub record_status : String → List (String × CapabilityRecord) → Result HealthError String
record_status id [] = raise capability_missing
record_status id ((key, entry) ∷ entries) =
    if str_eq key id then ok entry.status else record_status id entries

abbrev pub baseline_of : (universe theme : String) → String
baseline_of universe theme =
    if str_eq universe "ok" && str_eq theme "ok"
    then "ok"
    else if str_eq universe "configuration_missing" || str_eq theme "configuration_missing"
    then "configuration_missing"
    else "source_failed"

pub record CapabilityHealth : Type 0 where
  pub zero_key_baseline : String
  pub capabilities : List (String × CapabilityRecord)

unfoldable pub build_capability_health :
    List (String × SourceCapability)
    → Configuration
    → (probe : ProbeRequest → Option String) → Result HealthError CapabilityHealth
build_capability_health capabilities values probe = do
  let entries = records_of values probe capabilities
  universe ← record_status "sec_company_tickers_universe" entries
  theme ← record_status "gdelt_theme_search" entries
  ok (record { zero_key_baseline = baseline_of universe theme; capabilities = entries })
