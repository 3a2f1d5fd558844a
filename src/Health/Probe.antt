-- ===== src/Health/Probe.antt =====
-- `ProbeRequest` and the reviewed routes of lib/intelligence/health.py. The configured values are a function
-- from their names.
use Prim.Native.Char.{code}
use Prim.Native.String.{◌++◌ as append_text}
use stocks_agent.Common.{ℕ, Option, none, some, List, [], ◌∷◌, String, ◌==◌, if◌then◌else◌, str_eq}
use stocks_agent.Relation.Text.{strip}

abbrev pub Configuration : Type 0
Configuration = String → Option String

-- `configured_values.get(name, "")`
abbrev pub configured_value : Configuration → String → String
configured_value values name = elim (values name) [ none ↦ "" | some value ↦ value ]

abbrev pub Pairs : Type 0
Pairs = List (String × String)

pub record ProbeRequest : Type 0 where
  pub capability_id : String
  pub provider : String
  pub url : String
  pub allowed_final_urls : List String
  pub headers : Pairs
  pub query : Pairs

-- `_request`, with the final urls that are given, if any.
abbrev pub request :
    (capability_id provider url : String)
    → (final_urls : List String) → (headers query : Pairs) → ProbeRequest
request capability_id provider url final_urls headers query = record {
  capability_id = capability_id;
  provider = provider;
  url = url;
  allowed_final_urls = elim final_urls [ [] ↦ url ∷ [] | ◌∷◌ first rest ↦ first ∷ rest ];
  headers = headers;
  query = query;
}

abbrev pub sec_contact : String
sec_contact = "SEC_USER_AGENT_CONTACT"

-- `_defense_request`
abbrev pub defense_request : (capability_id content_type : String) → ProbeRequest
defense_request capability_id content_type =
    let suffix =
      append_text "/DesktopModules/ArticleCS/RSS.ashx?ContentType="
        (append_text content_type "&Site=945&max=10") in
    request capability_id "dod" (append_text "https://www.defense.gov" suffix)
      (append_text "https://www.defense.gov" suffix ∷ append_text "https://www.war.gov" suffix ∷ [])
      [] []

abbrev pub plain_request : (capability_id provider url : String) → ProbeRequest
plain_request capability_id provider url = request capability_id provider url [] [] []

-- The routes by capability, with the contact that is configured.
unfoldable pub routes : (capability_id contact : String) → List (String × ProbeRequest)
routes id contact =
    (
      "sec_company_tickers_universe",
      request id "sec_edgar" "https://www.sec.gov/files/company_tickers.json" []
          (("User-Agent", append_text "stocks-agent owner research contact=" contact)
            ∷ ("Accept", "application/json")
            ∷ [])
          [],
    )
    ∷ (
      "gdelt_theme_search",
      request id "gdelt" "https://data.gdeltproject.org/gdeltv3/gal/feed.rss" []
          (("Accept", "application/rss+xml, application/xml;q=0.9")
            ∷ ("User-Agent", "stocks-agent owner research")
            ∷ [])
          [],
    )
    ∷ (
      "federal_register_document_search",
      request id "federal_register" "https://www.federalregister.gov/api/v1/documents.json" [] []
          (("per_page", "1") ∷ ("conditions[term]", "economic policy") ∷ []),
    )
    ∷ (
      "white_house_fact_sheets",
      plain_request id "white_house" "https://www.whitehouse.gov/fact-sheets/",
    )
    ∷ (
      "white_house_presidential_actions",
      plain_request id "white_house" "https://www.whitehouse.gov/presidential-actions/",
    )
    ∷ (
      "white_house_briefings_statements",
      plain_request id "white_house" "https://www.whitehouse.gov/briefings-statements/",
    )
    ∷ (
      "white_house_sitemap",
      plain_request id "white_house" "https://www.whitehouse.gov/sitemap_index.xml",
    )
    ∷ ("doe_energy_news_rss", plain_request id "doe" "https://www.energy.gov/rss/energygov/2193718")
    ∷ (
      "eia_today_in_energy_rss",
      plain_request id "eia" "https://www.eia.gov/rss/todayinenergy.xml",
    )
    ∷ ("eia_press_releases_rss", plain_request id "eia" "https://www.eia.gov/rss/press_rss.xml")
    ∷ ("defense_releases_rss", defense_request id "9")
    ∷ ("defense_news_rss", defense_request id "1")
    ∷ []

unfoldable pub route_of : String → List (String × ProbeRequest) → Option ProbeRequest
route_of id [] = none
route_of id ((key, route) ∷ entries) = if str_eq key id then some route else route_of id entries

-- `_static_probe`
unfoldable pub static_probe : (capability_id : String) → Configuration → Option ProbeRequest
static_probe id values =
    if str_eq id "alpha_vantage_topic_news"
    then some (
        request id "alpha_vantage" "https://www.alphavantage.co/query" [] [] (
          ("function", "NEWS_SENTIMENT")
          ∷ ("topics", "technology")
          ∷ ("limit", "1")
          ∷ ("apikey", configured_value values "ALPHAVANTAGE_API_KEY")
          ∷ []))
    else route_of id (routes id (strip (configured_value values sec_contact)))

-- What is before the first such character, or everything; and what is after it.
unfoldable pub before_char : ℕ → String → String
before_char c String.[] = ""
before_char c (String.◌∷◌ d text) =
    let rest = before_char c text in if code d == c then "" else String.◌∷◌ d rest

unfoldable pub after_char : ℕ → String → String
after_char c String.[] = ""
after_char c (String.◌∷◌ d text) = if code d == c then text else after_char c text

-- `url.split("/", 3)[2]`
unfoldable pub route_host : String → String
route_host url = before_char 47 (after_char 47 (after_char 47 url))

-- `"/" + url.split("/", 3)[3].split("?", 1)[0]`
unfoldable pub route_path : String → String
route_path url =
    append_text "/" (before_char 63 (after_char 47 (after_char 47 (after_char 47 url))))
