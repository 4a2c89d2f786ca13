-- ===== src/Monitor.antt =====
-- lib/monitor-schema.js, with the region table of lib/config.js and the option table of
-- lib/recipes/option-specs.js: which `route.monitor` is acceptable, and which revision it has.

pub mod Options
pub mod Secrets
pub mod Accepted
pub mod Validate
pub mod Safe
pub mod Revision
pub mod Stable
pub mod Edits
pub mod Labels
use Prim.Native.String
use view_limits.Base.{
  Bool, true, false, ◌&&◌, ◌||◌, Option, none, some, List, [], ◌∷◌, String, str_eq, includes,
  if◌then◌else◌,
}
use view_limits.Base.Text.{Engine, trim, fold}
use view_limits.Value.{Value, str, Fields, end, field}

-- `Object.keys(PROVIDER_REGIONS[provider].hosts)`: none for a provider without regions.
abbrev pub region_list : String → Option (List String)
region_list provider =
    if str_eq provider "kimi"
    then some ("global" ∷ "china" ∷ [])
    else if str_eq provider "glm"
    then some ("international" ∷ "china" ∷ [])
    else none

-- `REGION_CAPABLE_PROVIDERS.has(provider)`.
abbrev pub is_region_capable : Value → Bool
is_region_capable (str p) = includes ("kimi" ∷ "glm" ∷ []) p
is_region_capable _ = false

-- `isBuiltInRecipe(provider, recipe)`.
unfoldable pub is_built_in_recipe : Value → Value → Bool
is_built_in_recipe provider (str r) = is_region_capable provider && str_eq r "built-in"
is_built_in_recipe provider _ = false

abbrev pub member_of : Option (List String) → String → Option String
member_of none key = none
member_of (some names) key = if includes names key then some key else none

-- `normalizeRegion(provider, region)`.
unfoldable pub normalize_region : ⦃e : Engine⦄ → Value → Value → Option String
normalize_region ⦃e⦄ (str provider) (str region) =
    member_of (region_list provider) (e.to_lower_case (trim region))
normalize_region _ _ = none

-- `Object.keys(o)`.
abbrev pub field_names : Fields → List String
field_names end = []
field_names (field k v fs) = k ∷ field_names fs
