-- ===== src/Monitor/Options.antt =====
-- The declared options of each recipe: lib/recipes/option-specs.js, and the functions of
-- lib/monitor-schema.js that read the table.
use view_limits.Base.{
  ℕ, ◌^◌, ◌%◌, ◌/◌, Bool, true, false, not, ◌&&◌, ◌||◌, Option, none, some, List, [], ◌∷◌, String,
  str_eq, if◌then◌else◌, leb, ◌==◌, includes, map,
}
use view_limits.Base.Text.{Engine}
use view_limits.Value.{
  Value, Number, finite, undefined, num, str, arr, obj, Fields, end, field, get_field,
}
use view_limits.Monitor.{field_names}
use view_limits.Monitor.Secrets.{
  is_secret_field, is_secret_option_name, looks_like_secret_value, is_path,
}

pub data Shape : Type 0 where
  path : Shape
  enum : (values : List String) → Shape
  integer : (min max : ℕ) → Shape

pub record Spec : Type 0 where
  pub shape : Shape
  pub is_required : Bool
  pub default_value : Value
  pub revision : Bool

pub record Declared : Type 0 where
  pub key : String
  pub spec : Spec

abbrev number : ℕ → Value
number n = num (finite false n 0)

abbrev choice : List String → String → Bool → Spec
choice values initial revision = record {
  shape = enum values;
  is_required = false;
  default_value = str initial;
  revision = revision;
}

abbrev timeout : ℕ → ℕ → Spec
timeout max initial = record {
  shape = integer 1000 max;
  is_required = false;
  default_value = number initial;
  revision = false;
}

abbrev compat_path : Spec
compat_path = record {
  shape = path;
  is_required = true;
  default_value = undefined;
  revision = true;
}

abbrev compat_scope : Spec
compat_scope = choice ("diagnostic" ∷ "account" ∷ "model" ∷ "organization" ∷ []) "diagnostic" true

abbrev declare : String → Spec → Declared
declare k s = record { key = k; spec = s }

-- `OPTION_SPECS`.
abbrev pub option_specs : List (String × List Declared)
option_specs =
    ("built-in", [])
    ∷ (
      "openai-compat",
      declare "path" compat_path
          ∷ declare "scope" compat_scope
          ∷ declare "resetEncoding"
              (choice ("duration" ∷ "epoch-seconds" ∷ "rfc3339" ∷ []) "duration" true)
          ∷ declare "timeoutMs" (timeout 15000 8000)
          ∷ [],
    )
    ∷ ("stepfun-plan", [])
    ∷ (
      "anthropic-compat",
      declare "path" compat_path
          ∷ declare "scope" compat_scope
          ∷ declare "anthropicVersion" (choice ("2023-06-01" ∷ []) "2023-06-01" true)
          ∷ declare "timeoutMs" (timeout 15000 8000)
          ∷ [],
    )
    ∷ (
      "alibaba-coding-plan",
      declare "site" (choice ("domestic" ∷ "international" ∷ []) "domestic" true)
          ∷ declare "binary" (choice ("bl" ∷ "bailian" ∷ []) "bl" false)
          ∷ declare "timeoutMs" (timeout 30000 10000)
          ∷ [],
    )
    ∷ []

unfoldable pub find_spec : String → List (String × List Declared) → Option (List Declared)
find_spec id [] = none
find_spec id ((k, s) ∷ specs) = if str_eq k id then some s else find_spec id specs

-- `getOptionSpec(recipeId)`.
unfoldable pub get_option_spec : Value → Option (List Declared)
unfolding find_spec
get_option_spec (str id) = find_spec id option_specs
get_option_spec _ = none

-- `Number.isInteger(v)`, with the integer: none for a negative one other than zero, which is below
-- every minimum of the table.
abbrev natural : Number → Option ℕ
natural (finite negative m k) =
    if m % (2 ^ k) == 0
    then (if negative && not (m == 0) then none else some (m / (2 ^ k)))
    else none
natural _ = none

abbrev in_range : ℕ → ℕ → Option ℕ → Bool
in_range min max none = false
in_range min max (some n) = leb min n && leb n max

-- Whether a value that is there has the declared shape.
unfoldable pub fits : Shape → Value → Bool
fits path v = is_path v
fits (enum values) (str s) = includes values s
fits (enum values) _ = false
fits (integer min max) (num n) = in_range min max (natural n)
fits (integer min max) _ = false

-- What `validateRecipeOptions` reports: its message, one constructor for each.
pub data OptionError : Type 0 where
  not_an_object : OptionError
  secret_name not_primitive secret_value : (name : String) → OptionError
  not_an_option missing_option ill_shaped : (name : String) → OptionError

abbrev pub is_object : Value → Bool
is_object (arr vs) = true
is_object (obj fs) = true
is_object _ = false

-- The loop over `Object.entries(opts)`.
unfoldable pub check_entries : ⦃e : Engine⦄ → Fields → Option OptionError
check_entries end = none
check_entries (field k v fs) =
    if is_secret_field k || is_secret_option_name k
    then some (secret_name k)
    else if is_object v
    then some (not_primitive k)
    else if looks_like_secret_value v
    then some (secret_value k)
    else check_entries fs

abbrev pub keys : List Declared → List String
keys = map (λ d. d.key)

-- The loop over `Object.keys(opts)`.
unfoldable pub check_names : List Declared → List String → Option OptionError
check_names spec [] = none
check_names spec (k ∷ ks) =
    if includes (keys spec) k then check_names spec ks else some (not_an_option k)

abbrev pub check_option : Declared → Value → Option OptionError
check_option d undefined = if d.spec.is_required then some (missing_option d.key) else none
check_option d v = if fits d.spec.shape v then none else some (ill_shaped d.key)

abbrev pub or_else {ℓ} : {A : Type ℓ} → Option A → Option A → Option A
or_else none b = b
or_else (some a) b = some a

-- The loop over `Object.entries(spec)`.
unfoldable pub check_spec : List Declared → Fields → Option OptionError
check_spec [] opts = none
check_spec (d ∷ ds) opts = or_else (check_option d (get_field d.key opts)) (check_spec ds opts)

abbrev pub check_declared : Option (List Declared) → Fields → Option OptionError
check_declared none opts = none
check_declared (some spec) opts =
    or_else (check_names spec (field_names opts)) (check_spec spec opts)

-- `validateRecipeOptions(recipeId, opts)`: none where the options are well formed.
unfoldable pub validate_recipe_options : ⦃e : Engine⦄ → Value → Value → Option OptionError
unfolding check_entries check_names check_spec get_option_spec
validate_recipe_options recipe (obj opts) =
    or_else (check_entries opts) (check_declared (get_option_spec recipe) opts)
validate_recipe_options recipe _ = some not_an_object

-- `out[k]` where the value is there, and the default where there is one.
abbrev pub resolved_value : Spec → Value → Value
resolved_value s undefined = s.default_value
resolved_value s v = v

-- `isPlainObject(opts) ? opts : {}`.
abbrev pub plain : Value → Fields
plain (obj fs) = fs
plain _ = end

unfoldable pub resolve_options : List Declared → Fields → Fields
resolve_options [] src = end
resolve_options (d ∷ ds) src = elim (resolved_value d.spec (get_field d.key src)) [
  | undefined ↦ resolve_options ds src
  | v ↦ field d.key v (resolve_options ds src)
]

-- `resolvedRecipeOptions(recipeId, opts)`.
unfoldable pub resolved_recipe_options : Value → Value → Fields
unfolding resolve_options get_option_spec
resolved_recipe_options recipe opts = elim (get_option_spec recipe) [
  | none ↦ end
  | some spec ↦ resolve_options spec (plain opts)
]
