-- ===== src/Examples/Configs.antt =====
-- The theorems on lib/effective-config.js and lib/cache.js at concrete inputs.
use view_limits.Base.{refl, true, some}
use view_limits.Base.Text.{trim}
use view_limits.Value.{Value, Fields, str, obj, arr, cons, nil, field, end, get}
use view_limits.Cache.{attach_revisions, route_by_id}
use view_limits.Cache.Tagged.{IsFilled, IsTagged, attach_revisions-IsTagged}
use view_limits.Monitor.{normalize_region, is_built_in_recipe}
use view_limits.Monitor.Validate.{validate_monitor}
use view_limits.Monitor.Secrets.{is_secret_field}
use view_limits.Monitor.Options.{validate_recipe_options}
use view_limits.Monitor.Labels.{classify_capability}
use view_limits.Effective.Recipes.{get_recipe, recipes, known_recipes}
use view_limits.Effective.{Hash, Adapters, resolve_effective_config}
use view_limits.Effective.Sound.{IsSound, resolve_effective_config-IsSound}
use view_limits.Effective.Hosts.{
  Locator, resolve_built_in_host, by_region, by_override, default_base, region_host, default_region,
  region_hosts, host_in, region_for_base_url, region_at, url_host, region_with_host,
}
use view_limits.Effective.Regions.{IsPlaced, resolve_built_in_host-IsPlaced}
use view_limits.Examples.{lower_case, silent, https_only, one_digest, one_field}

abbrev one_hash : Hash
one_hash = record { sha1 = λ s. s }

-- Every URL is the bare origin of the Kimi host in China.
abbrev kimi_china : Locator
kimi_china = record {
  locate = λ s. some (record {
    protocol = "https:";
    username = "";
    password = "";
    search = "";
    hash = "";
    pathname = "/";
    host = "api.kimi.com";
  });
}

abbrev all_adapters : Adapters
all_adapters = record { get_adapter = some (λ v. true) }

abbrev route : Value
route = obj (
    field "id" (str "r1") (
      field "provider" (str "alibaba")
        (field "monitor" (obj (field "recipe" (str "alibaba-coding-plan") end)) end)))

resolve_effective_config-IsSound_example :
    IsSound ⦃e = lower_case⦄ ⦃u = https_only⦄ ⦃l = kimi_china⦄ ⦃d = one_digest⦄ ⦃h = one_hash⦄
      ⦃p = silent⦄ route
      (obj end)
      all_adapters
unfolding resolve_effective_config validate_monitor is_secret_field is_built_in_recipe trim
    validate_recipe_options get_recipe recipes classify_capability known_recipes
resolve_effective_config-IsSound_example =
    resolve_effective_config-IsSound ⦃e = lower_case⦄ ⦃u = https_only⦄ ⦃l = kimi_china⦄
      ⦃d = one_digest⦄ ⦃h = one_hash⦄ ⦃p = silent⦄ route (obj end) all_adapters refl

resolve_built_in_host-IsPlaced_example :
    IsPlaced ⦃e = lower_case⦄ ⦃l = kimi_china⦄ "kimi" "global" (
      resolve_built_in_host ⦃e = lower_case⦄ ⦃l = kimi_china⦄ "kimi"
        (str "mars")
        (one_field "baseUrl" (str "https://API.kimi.com/")))
unfolding resolve_built_in_host by_region by_override default_base region_host default_region
    region_hosts host_in region_for_base_url region_at url_host region_with_host normalize_region
    trim
resolve_built_in_host-IsPlaced_example =
    resolve_built_in_host-IsPlaced ⦃e = lower_case⦄ ⦃l = kimi_china⦄ "kimi" (str "mars")
      (one_field "baseUrl" (str "https://API.kimi.com/")) "global" refl

one_digest-IsFilled : IsFilled one_digest
one_digest-IsFilled = record { filled = λ v. refl }

abbrev exhausted : Fields
exhausted = field "status" (one_field "state" (str "exhausted")) end

abbrev route_one : Fields
route_one = field "id" (str "r1") (field "provider" (str "kimi") end)

abbrev options : Value
options = one_field "routes" (arr (cons (obj route_one) nil))

attach_revisions-IsTagged_example : IsTagged ⦃e = lower_case⦄ ⦃d = one_digest⦄ route_one exhausted (
    get "r1" (
      attach_revisions ⦃e = lower_case⦄ ⦃d = one_digest⦄
        (obj (field "r1" (obj exhausted) end))
        options))
unfolding route_by_id
attach_revisions-IsTagged_example =
    attach_revisions-IsTagged ⦃e = lower_case⦄ ⦃d = one_digest⦄ one_digest-IsFilled
      (field "r1" (obj exhausted) end) options (cons (obj route_one) nil) "r1" exhausted route_one
      refl refl refl
