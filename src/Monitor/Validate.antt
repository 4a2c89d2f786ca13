-- ===== src/Monitor/Validate.antt =====
-- `validateMonitor` and `httpsEndpointError` of lib/monitor-schema.js.
use view_limits.Base.{
  Bool, true, false, not, ◌&&◌, ◌||◌, Option, none, some, List, [], ◌∷◌, String, str_eq,
  if◌then◌else◌, includes,
}
use view_limits.Base.Text.{Engine, trim, is_blank}
use view_limits.Value.{Value, undefined, null, str, obj, Fields, end, get_field, has_field}
use view_limits.Monitor.{is_built_in_recipe, normalize_region, field_names}
use view_limits.Monitor.Secrets.{is_secret_field}
use view_limits.Monitor.Options.{OptionError, validate_recipe_options, get_option_spec}

-- The parts of a URL that `new URL(url)` gives.
pub record UrlParts : Type 0 where
  pub protocol : String
  pub username : String
  pub password : String
  pub search : String
  pub hash : String

-- The URL parser of the engine: none where it throws.
pub record Url : Type 0 where
  pub parse_url : String → Option UrlParts

abbrev pub allowed_monitor_fields : List String
allowed_monitor_fields =
    "endpoint" ∷ "model" ∷ "recipe" ∷ "account" ∷ "profile" ∷ "region" ∷ "recipeOptions" ∷ []

pub data MonitorError : Type 0 where
  route_not_an_object monitor_not_an_object : MonitorError
  secret_field unsupported_field : (name : String) → MonitorError
  built_in_endpoint_refused unknown_region bad_endpoint : MonitorError
  not_a_text : (name : String) → MonitorError
  bad_options : OptionError → MonitorError

abbrev pub is_bare : UrlParts → Bool
is_bare u =
    str_eq u.protocol "https:"
    && (is_blank u.username && (is_blank u.password && (is_blank u.search && is_blank u.hash)))

-- `httpsEndpointError(url) === null`.
unfoldable pub is_https_endpoint : ⦃u : Url⦄ → Value → Bool
is_https_endpoint ⦃u⦄ (str s) =
    not (is_blank s) && elim (u.parse_url s) [ none ↦ false | some parts ↦ is_bare parts ]
is_https_endpoint _ = false

-- `typeof v === 'string' && v.trim()`.
abbrev pub is_word : Value → Bool
is_word (str s) = not (is_blank (trim s))
is_word _ = false

-- The loop over `Object.keys(route.monitor)`.
unfoldable pub check_fields : ⦃e : Engine⦄ → List String → Option MonitorError
check_fields [] = none
check_fields (k ∷ ks) =
    if is_secret_field k
    then some (secret_field k)
    else if includes allowed_monitor_fields k
    then check_fields ks
    else some (unsupported_field k)

abbrev pub is_known : Option String → Bool
is_known none = false
is_known (some r) = true

abbrev pub given : String → Fields → Value → Bool
given k m v = has_field k m && not (is_word v)

module _ ⦃e : Engine⦄ ⦃u : Url⦄ where
  -- The rules of a built-in recipe with regions.
  unfoldable pub check_region : Value → Fields → Option MonitorError
  check_region provider m =
      if is_built_in_recipe provider (get_field "recipe" m)
      then (if has_field "endpoint" m
          then some built_in_endpoint_refused
          else if has_field "region" m
              && not (is_known (normalize_region provider (get_field "region" m)))
          then some unknown_region
          else none)
      else none

  unfoldable pub check_texts : List String → Fields → Option MonitorError
  check_texts [] m = none
  check_texts (k ∷ ks) m =
      if given k m (get_field k m) then some (not_a_text k) else check_texts ks m

  unfoldable pub check_endpoint : Fields → Option MonitorError
  unfolding is_https_endpoint
  check_endpoint m =
      if has_field "endpoint" m && not (is_https_endpoint (get_field "endpoint" m))
      then some bad_endpoint
      else none

  abbrev pub has_spec : Fields → Bool
  has_spec m = elim (get_option_spec (get_field "recipe" m)) [ none ↦ false | some s ↦ true ]

  abbrev pub options_of : Fields → Value
  options_of m = if has_field "recipeOptions" m then get_field "recipeOptions" m else obj end

  abbrev pub wrap : Option OptionError → Option MonitorError
  wrap none = none
  wrap (some err) = some (bad_options err)

  unfoldable pub check_options : Fields → Option MonitorError
  unfolding get_option_spec
  check_options m =
      if has_field "recipeOptions" m || has_spec m
      then wrap (validate_recipe_options (get_field "recipe" m) (options_of m))
      else none

  abbrev pub or_else : Option MonitorError → Option MonitorError → Option MonitorError
  or_else none b = b
  or_else (some a) b = some a

  unfoldable pub validate_object : Value → Fields → Option MonitorError
  unfolding check_fields check_region check_texts check_endpoint check_options
  validate_object provider m = or_else (check_fields (field_names m)) (
      or_else (check_region provider m) (
        or_else (check_endpoint m) (
          or_else (check_texts ("model" ∷ "recipe" ∷ "account" ∷ "profile" ∷ "region" ∷ []) m)
            (check_options m))))

  -- `route.monitor` is absent, a plain object, or anything else.
  unfoldable pub validate_present : Value → Value → Option MonitorError
  unfolding validate_object
  validate_present provider undefined = none
  validate_present provider null = none
  validate_present provider (obj m) = validate_object provider m
  validate_present provider _ = some monitor_not_an_object

  -- `validateMonitor(route)`: none where `ok` is true.
  unfoldable pub validate_monitor : Value → Option MonitorError
  unfolding validate_present
  validate_monitor (obj route) =
      validate_present (get_field "provider" route) (get_field "monitor" route)
  validate_monitor _ = some route_not_an_object
