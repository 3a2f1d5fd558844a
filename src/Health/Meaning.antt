-- ===== src/Health/Meaning.antt =====
-- What it means that lib/intelligence/health.py finds a capability or the baseline in order.
use stocks_agent.Common.{
  ◌≡◌, refl, inl, inr, true, false, Option, none, some, List, String, arith, str_eq, contains,
  Bool-cases,
}
use stocks_agent.Health.Probe.{Configuration, ProbeRequest, static_probe}
use stocks_agent.Health.Record.{
  SourceCapability, configuration_name, is_configured, capability_record, needs_identifier,
  final_status, probed_status, health_of,
}

-- A reviewed probe of the capability ended at an allowed url.
abbrev pub IsReached : Configuration → (ProbeRequest → Option String) → String → Type 0
IsReached values probe id =
    (request : ProbeRequest) × (static_probe id values ≡ some request)
    × ((url : String) × (probe request ≡ some url)
        × (contains url request.allowed_final_urls ≡ true))

final_status-ok :
    (allowed : List String) (url : Option String)
    → str_eq (final_status allowed url) "ok" ≡ true
    → (u : String) × (url ≡ some u) × (contains u allowed ≡ true)
final_status-ok allowed none h = absurd (ground arith)
final_status-ok allowed (some u) h = elim (Bool-cases (contains u allowed)) [
  | inl inside ↦ (u, refl, inside)
  | inr outside ↦ absurd (refused (rw outside at h))
]
  where
    refused : false ≡ true → ⊥
    refused e = cc

probed_status-IsReached :
    (values : Configuration) (probe : ProbeRequest → Option String) (id : String)
    (request : Option ProbeRequest)
    → static_probe id values ≡ request
    → str_eq (probed_status probe request) "ok" ≡ true
    → IsReached values probe id
probed_status-IsReached values probe id none same h = absurd (ground arith)
probed_status-IsReached values probe id (some request) same h =
    (request, same, final_status-ok request.allowed_final_urls (probe request) h)

-- If the status of an enabled capability is "ok", what it needs is configured, it needs no identifier, and
-- its reviewed probe ended at an allowed url.
pub health_of-IsReached :
    (values : Configuration) (probe : ProbeRequest → Option String) (id : String)
    (capability : SourceCapability)
    → capability.enabled ≡ true
    → str_eq (health_of values probe id capability).status "ok" ≡ true
    → (is_configured values (configuration_name capability) ≡ true)
      × (needs_identifier capability ≡ false)
      × IsReached values probe id
unfolding health_of capability_record is_configured configuration_name
health_of-IsReached values probe id capability enabled h =
    elim (Bool-cases (is_configured values (configuration_name capability))) [
      | inr absent ↦ absurd (refused (rw (enabled, absent) at h))
      | inl configured ↦ elim (Bool-cases (needs_identifier capability)) [
        | inl identified ↦ absurd (refused (rw (enabled, configured, identified) at h))
        | inr free ↦ (
          configured,
          free,
          probed_status-IsReached values probe id (static_probe id values) refl
              (rw (enabled, configured, free) at h),
        )
      ]
    ]
  where
    refused : false ≡ true → ⊥
    refused e = cc
