-- ===== src/Effective/Hosts.antt =====
-- lib/config.js and lib/effective-config.js: the host of a built-in provider with regions.
use view_limits.Base.{
  Bool, false, not, ◌&&◌, ◌||◌, Option, none, some, List, [], ◌∷◌, String, str_eq, if◌then◌else◌,
}
use Prim.Native.String
use view_limits.Base.Text.{Engine, is_blank}
use view_limits.Value.{Value, null, str, obj, Fields, end, field, get}
use view_limits.Monitor.{is_region_capable, normalize_region}

-- The parts of a URL that `urlHost` reads.
pub record Location : Type 0 where
  pub protocol : String
  pub username : String
  pub password : String
  pub search : String
  pub hash : String
  pub pathname : String
  pub host : String

-- The URL parser of the engine: none where it throws.
pub record Locator : Type 0 where
  pub locate : String → Option Location

pub record RegionHost : Type 0 where
  pub region : String
  pub host : String

-- `PROVIDER_REGIONS[provider].hosts`.
unfoldable pub region_hosts : String → List RegionHost
region_hosts provider =
    if str_eq provider "kimi"
    then record { region = "global"; host = "https://api.kimi.ai" }
      ∷ record { region = "china"; host = "https://api.kimi.com" }
      ∷ []
    else if str_eq provider "glm"
    then record { region = "international"; host = "https://api.z.ai" }
      ∷ record { region = "china"; host = "https://open.bigmodel.cn" }
      ∷ []
    else []

-- `defaultRegion(provider)`.
unfoldable pub default_region : String → Option String
default_region provider =
    if str_eq provider "kimi"
    then some "global"
    else if str_eq provider "glm"
    then some "international"
    else none

unfoldable pub host_in : String → List RegionHost → Option String
host_in region [] = none
host_in region (r ∷ rs) =
    let rest = host_in region rs in if str_eq r.region region then some r.host else rest

-- `regionHost(provider, region)`.
unfoldable pub region_host : String → Option String → Option String
unfolding region_hosts host_in
region_host provider none = none
region_host provider (some region) = host_in region (region_hosts provider)

module _ ⦃e : Engine⦄ ⦃l : Locator⦄ where
  abbrev origin_of : Option Location → Option String
  origin_of none = none
  origin_of (some u) =
      if not
        (is_blank u.username && (is_blank u.password && (is_blank u.search && is_blank u.hash)))
      then none
      else if not (is_blank u.pathname || str_eq u.pathname "/")
      then none
      else some (e.to_lower_case (String.◌++◌ u.protocol (String.◌++◌ "//" u.host)))

  -- `urlHost(url)`.
  unfoldable pub url_host : String → Option String
  url_host url = if is_blank url then none else origin_of (l.locate url)

  abbrev pub is_origin : Option String → String → Bool
  is_origin none target = false
  is_origin (some o) target = str_eq o target

  unfoldable pub region_with_host : String → List RegionHost → Option String
  unfolding url_host
  region_with_host target [] = none
  region_with_host target (r ∷ rs) =
      let rest = region_with_host target rs in
      if is_origin (url_host r.host) target then some r.region else rest

  unfoldable pub region_at : Option String → String → Option String
  unfolding region_with_host
  region_at none provider = none
  region_at (some target) provider =
      if is_blank target then none else region_with_host target (region_hosts provider)

  -- `regionForBaseUrl(provider, baseUrl)`.
  unfoldable pub region_for_base_url : String → String → Option String
  unfolding url_host region_at
  region_for_base_url provider base = region_at (url_host base) provider

  -- What `resolveBuiltInHost` returns.
  pub record Resolved : Type 0 where
    pub region : Option String
    pub host : Option String

  -- `DEFAULTS.providers[provider].baseUrl`, which is the host of the default region.
  unfoldable pub default_base : String → Option String
  unfolding region_host default_region
  default_base provider = region_host provider (default_region provider)

  abbrev same_text : Option String → String → Bool
  same_text none s = false
  same_text (some t) s = str_eq t s

  abbrev pub by_default : String → Resolved
  by_default provider = record {
    region = default_region provider;
    host = region_host provider (default_region provider);
  }

  unfoldable pub by_override : String → Value → Resolved
  unfolding default_base region_for_base_url
  by_override provider (str base) =
      if same_text (default_base provider) base
      then by_default provider
      else record { region = region_for_base_url provider base; host = some base }
  by_override provider _ = by_default provider

  unfoldable pub by_region : Option String → String → Value → Resolved
  unfolding by_override
  by_region (some region) provider cfg = record {
    region = some region;
    host = region_host provider (some region);
  }
  by_region none provider cfg = by_override provider (get "baseUrl" cfg)

  -- `resolveBuiltInHost(provider, monitorRegion, providerCfg)`, for a provider with regions.
  unfoldable pub resolve_built_in_host : String → Value → Value → Resolved
  unfolding by_override by_region
  resolve_built_in_host provider region cfg =
      by_region (normalize_region (str provider) region) provider cfg

  abbrev members_of : Value → Fields
  members_of (obj fs) = fs
  members_of _ = end

  abbrev text_or_null : Option String → Value
  text_or_null none = null
  text_or_null (some s) = str s

  -- `builtInProviderCfg(provider, monitorRegion, providerCfg)`.
  unfoldable pub built_in_provider_cfg : Value → Value → Value → Value
  unfolding resolve_built_in_host
  built_in_provider_cfg (str provider) region cfg =
      if is_region_capable (str provider)
      then obj (
          field "baseUrl" (text_or_null (resolve_built_in_host provider region cfg).host) (
            field "region" (text_or_null (resolve_built_in_host provider region cfg).region)
              (members_of cfg)))
      else cfg
  built_in_provider_cfg _ region cfg = cfg
