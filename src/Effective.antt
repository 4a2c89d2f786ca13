-- ===== src/Effective.antt =====
-- lib/effective-config.js: one result for each route, whatever is wrong with it.
pub mod Recipes
pub mod Hosts
pub mod Sound
pub mod Regions
use view_limits.Base.{
  Bool, true, false, not, ◌&&◌, ◌||◌, Option, none, some, List, [], ◌∷◌, String, str_eq,
  if◌then◌else◌,
}
use Prim.Native.String
use view_limits.Base.Text.{Engine}
use view_limits.Value.{
  Value, undefined, null, str, obj, Fields, end, field, get, get_field, truthy, is_nullish, Printer,
  text_or_empty,
}
use view_limits.Facts.{is_the_text}
use view_limits.Monitor.Validate.{Url, MonitorError, validate_monitor}
use view_limits.Monitor.Revision.{Digest, config_revision}
use view_limits.Monitor.Labels.{Capability, classify_capability}
use view_limits.Effective.Recipes.{Recipe, get_recipe, known_recipes}
use view_limits.Effective.Hosts.{Locator, built_in_provider_cfg}

-- The hash of a text: `sha1Hex`.
pub record Hash : Type 0 where
  pub sha1 : String → String

-- Why a route is not monitored.
pub data Reason : Type 0 where
  invalid_route no_adapter_factory monitor_recipe_required recipe_family_mismatch : Reason
  invalid_monitor : MonitorError → Reason
  unknown_provider : (provider : Value) → Reason
  unsupported_recipe : (recipe : Value) → Reason
  unmonitored : (recipe : String) → Reason

-- `adapterFn`: a fetch that always answers unknown, the built-in one, or that of a recipe.
pub data Fetch : Type 0 where
  stable_unknown : Reason → Fetch
  built_in_fetch : Fetch
  recipe_fetch : Recipe → Fetch

-- `capability`: by what the route is monitorable, or why it is not.
pub data Monitorable : Type 0 where
  monitorable : Capability → Monitorable
  unmonitorable : Reason → Monitorable

-- `cfg`: nothing, the entry of the provider, that of a built-in adapter, or what a recipe reads.
pub data Config : Type 0 where
  no_config : Config
  provider_config adapter_config : (provider_cfg : Value) → Config
  recipe_config : (monitor : Fields) → Config

pub record Effective : Type 0 where
  pub fetch : Fetch
  pub cfg : Config
  pub monitor : Value
  pub pool_identity : Option String
  pub config_revision : Option String
  pub capability : Monitorable

abbrev text_or_blank : Value → String
text_or_blank (str s) = s
text_or_blank _ = ""

abbrev joined : String → String → String
joined a b = String.◌++◌ a (String.◌++◌ "|" b)

-- `poolIdentity(route)`.
unfoldable pub pool_identity : ⦃h : Hash⦄ → ⦃p : Printer⦄ → Fields → Option String
pool_identity ⦃h⦄ route =
    let m = get_field "monitor" route in
    if truthy (get "recipe" m)
    then some (
        h.sha1 (
          joined (text_or_empty (get "recipe" m)) (
            joined (text_or_blank (get "account" m))
              (joined (text_or_blank (get "profile" m)) (text_or_blank (get "region" m))))))
    else none

abbrev pub is_family : Option String → Value → Bool
is_family none provider = true
is_family (some f) provider = is_the_text provider f

-- `classifyCapability` as a capability of the result.
abbrev pub capability_of : Capability → Monitorable
capability_of Capability.built_in_adapter = monitorable Capability.built_in_adapter
capability_of Capability.recipe_required = unmonitorable monitor_recipe_required
capability_of (Capability.unsupported_recipe r) = unmonitorable (unsupported_recipe r)
capability_of (Capability.known_recipe r) = monitorable (Capability.known_recipe r)

-- `ctx.getAdapter`, when it is a function: whether it returns for a provider, or throws.
pub record Adapters : Type 0 where
  pub get_adapter : Option (Value → Bool)

module _ ⦃e : Engine⦄ ⦃u : Url⦄ ⦃l : Locator⦄ ⦃d : Digest⦄ ⦃h : Hash⦄ ⦃p : Printer⦄ where
  -- `cfg.providers[route.provider] || {}`.
  abbrev provider_cfg : Value → Value → Value
  provider_cfg (str provider) cfg =
      let entry = get provider (get "providers" cfg) in if truthy entry then entry else obj end
  provider_cfg _ cfg = obj end

  -- `makeResult` for a route with an accepted monitor.
  abbrev result : Fields → Value → Fetch → Config → Monitorable → Effective
  result route monitor fetch cfg capability = record {
    fetch = fetch;
    cfg = cfg;
    monitor = monitor;
    pool_identity = pool_identity route;
    config_revision = some (config_revision route);
    capability = capability;
  }

  abbrev refused : Fields → Value → Reason → Config → Effective
  refused route monitor why cfg = result route monitor (stable_unknown why) cfg (unmonitorable why)

  -- The branches of a built-in adapter.
  unfoldable pub built_in : Option (Value → Bool) → Fields → Value → Value → Value → Effective
  unfolding pool_identity
  built_in none route monitor region cfg =
      refused route monitor no_adapter_factory
        (provider_config (provider_cfg (get_field "provider" route) cfg))
  built_in (some adapter) route monitor region cfg =
      if adapter (get_field "provider" route)
      then result route monitor built_in_fetch
          (adapter_config (
            built_in_provider_cfg (get_field "provider" route) region
              (provider_cfg (get_field "provider" route) cfg)))
          (capability_of (classify_capability monitor known_recipes))
      else refused route monitor (unknown_provider (get_field "provider" route))
          (provider_config (provider_cfg (get_field "provider" route) cfg))

  -- The branch of a recipe that is not built in.
  unfoldable pub custom : Option Recipe → Fields → Fields → Effective
  unfolding pool_identity
  custom none route monitor =
      result route (obj monitor) (stable_unknown (unsupported_recipe (get_field "recipe" monitor)))
        no_config (capability_of (classify_capability (obj monitor) known_recipes))
  custom (some r) route monitor =
      if is_family r.family (get_field "provider" route)
      then result route (obj monitor) (recipe_fetch r) (recipe_config monitor) (
          if r.is_monitorable
          then capability_of (classify_capability (obj monitor) known_recipes)
          else unmonitorable (unmonitored r.id))
      else refused route (obj monitor) recipe_family_mismatch no_config

  unfoldable pub with_monitor : Option (Value → Bool) → Fields → Value → Value → Effective
  unfolding built_in custom
  with_monitor adapter route (obj m) cfg =
      if not (truthy (get_field "recipe" m))
      then refused route (obj m) monitor_recipe_required no_config
      else if is_the_text (get_field "recipe" m) "built-in"
      then built_in adapter route (obj m) (get_field "region" m) cfg
      else custom (get_recipe (get_field "recipe" m)) route m
  with_monitor adapter route monitor cfg = built_in adapter route null undefined cfg

  unfoldable pub when_valid :
      Option MonitorError → Option (Value → Bool) → Fields → Value → Effective
  unfolding with_monitor
  when_valid (some err) adapter route cfg = record {
    fetch = stable_unknown (invalid_monitor err);
    cfg = no_config;
    monitor = null;
    pool_identity = none;
    config_revision = some (config_revision route);
    capability = unmonitorable (invalid_monitor err);
  }
  when_valid none adapter route cfg = with_monitor adapter route (get_field "monitor" route) cfg

  -- `resolveEffectiveConfig(route, cfg, ctx)`.
  unfoldable pub resolve_effective_config : Value → Value → Adapters → Effective
  unfolding when_valid
  resolve_effective_config (obj route) cfg ctx =
      when_valid (validate_monitor (obj route)) ctx.get_adapter route cfg
  resolve_effective_config _ cfg ctx = record {
    fetch = stable_unknown invalid_route;
    cfg = no_config;
    monitor = null;
    pool_identity = none;
    config_revision = none;
    capability = unmonitorable invalid_route;
  }
