-- ===== src/Collector/Plan.antt =====
-- lib/collector.js: the effects that a collection uses, and `planRoutes`.
use view_limits.Base.{
  ℕ, Bool, true, false, not, ◌&&◌, ◌||◌, Option, none, some, List, [], ◌∷◌, String, if◌then◌else◌,
  includes,
}
use view_limits.Base.Text.{Engine, is_space, trim}
use view_limits.Value.{
  Value, str, obj, Fields, get, get_field, has_field, items, arr, truthy, text_of, is_nullish,
}
use view_limits.Monitor.Validate.{Url, MonitorError, validate_monitor}
use view_limits.Effective.Recipes.{route_needs_vault_credential}
use view_limits.Gate.Decide.{is_state}
use Prim.Native.Char.{code}

-- `ROUTE_OUTCOME`.
pub data RouteOutcome : Type 0 where
  completed failed pending skipped : RouteOutcome

-- What the collection says of a route; `is_unreadable` is the reason `vault-unreadable`.
pub record State : Type 0 where
  pub id : String
  pub outcome : RouteOutcome
  pub error : Option String
  pub is_unreadable : Bool
  pub retained : Bool

pub record Planned : Type 0 where
  pub state : State
  pub route : Fields

pub data Credential : Type 0 where
  held missing unreadable : Credential

-- A promise that is settled: an error is its message.
pub data Fetched : Type 0 where
  returned : (status : Value) → Fetched
  threw : (message : String) → Fetched

pub data Acquired : Type 0 where
  owned in_progress : Acquired
  refused : (message : String) → Acquired

-- `resolveDeps(io)`: the effects of a collection, by what they answer. `cached` is the document of
-- the cache file, if it is there and is JSON; `now` the clock when the entry of a route is made.
-- `property_key` is the name under which the engine looks up a value that is no text.
pub record Deps : Type 0 where
  pub has_credential : String → Credential
  pub fetch : Fields → Fetched
  pub fetch_xiaomi : Value → Fetched
  pub error_status : Value
  pub default_error : String
  pub acquire : Acquired
  pub cached : Option Value
  pub write_error : Option String
  pub now : String → ℕ
  pub updated_at : String
  pub property_key : Value → String

-- `String.prototype.replace(/\s+/g, ' ')`, where `after` says that the text follows white space.
unfoldable pub collapse : Bool → String → String
collapse after String.[] = String.[]
collapse after (String.◌∷◌ c s) =
    let rest = collapse (is_space (code c)) s in
    if is_space (code c) then (if after then rest else String.◌∷◌ " " rest) else String.◌∷◌ c rest

-- `oneLine(value)`.
unfoldable pub one_line : String → String
unfolding collapse
one_line s = trim (collapse false s)

-- `isXiaomiRoute(route)`.
unfoldable pub is_xiaomi_route : Value → Bool
is_xiaomi_route route = is_state (get "provider" route) "xiaomi"

abbrev provider_key : Deps → Value → String
provider_key d (str k) = k
provider_key d v = d.property_key v

-- The members of `Object.prototype`, all of which are truthy.
abbrev inherited : List String
inherited =
    "constructor" ∷ "toString" ∷ "valueOf" ∷ "hasOwnProperty" ∷ "isPrototypeOf"
    ∷ "propertyIsEnumerable" ∷ "toLocaleString" ∷ "__proto__" ∷ "__defineGetter__"
    ∷ "__defineSetter__" ∷ "__lookupGetter__" ∷ "__lookupSetter__" ∷ []

-- `cfg.providers && cfg.providers[key]` as a test, for a `cfg.providers` that is an object if it is
-- there: a member of its own, or an inherited one.
abbrev is_provider : Value → String → Bool
is_provider (obj fs) k = if has_field k fs then truthy (get_field k fs) else includes inherited k
is_provider _ k = false

abbrev is_valid : Option MonitorError → Bool
is_valid none = true
is_valid (some x) = false

abbrev pub seed : String → RouteOutcome → State
seed id o = record { id = id; outcome = o; error = none; is_unreadable = false; retained = false }

-- What a look into the credential store makes of a route: `isConfiguredRoute` throws an error of
-- its own where the store does.
abbrev pub by_credential : String → Credential → State
by_credential id held = seed id pending
by_credential id missing = seed id skipped
by_credential id unreadable = record {
  id = id;
  outcome = failed;
  error = some "credential store could not be read";
  is_unreadable = true;
  retained = false;
}

-- A plain object with an id.
abbrev pub identified : Value → Option String
identified (obj route) = text_of (get_field "id" route)
identified _ = none

abbrev pub fields_of : Value → Fields
fields_of (obj fs) = fs
fields_of _ = Fields.end

-- `cfg.routes` where it is an array.
abbrev pub configured : Value → List Value
configured cfg = elim (get "routes" cfg) [ arr vs ↦ items vs | _ ↦ [] ]

module _ ⦃e : Engine⦄ ⦃u : Url⦄ where
  -- `isCustomMonitored(route)`.
  unfoldable pub is_custom_monitored : Value → Bool
  is_custom_monitored route =
      not (is_nullish (get "monitor" route)) && is_valid (validate_monitor route)

  -- `(cfg.providers && cfg.providers[route.provider]) || isCustomMonitored(route)`.
  unfoldable pub has_source : Deps → Value → Value → Bool
  unfolding is_custom_monitored
  has_source d cfg route =
      is_provider (get "providers" cfg) (provider_key d (get "provider" route))
      || is_custom_monitored route

  -- The seed of a route: the body of the loop of `planRoutes`.
  unfoldable pub plan_route : Deps → Value → String → Value → State
  unfolding is_xiaomi_route has_source one_line
  plan_route d cfg id route =
      if is_xiaomi_route route
      then seed id pending
      else if not (has_source d cfg route)
      then seed id skipped
      else if not (route_needs_vault_credential route)
      then seed id pending
      else by_credential id (d.has_credential id)

  unfoldable pub plan_from : Deps → Value → List Value → List Planned
  unfolding plan_route
  plan_from d cfg [] = []
  plan_from d cfg (r ∷ rs) =
      let rest = plan_from d cfg rs in
      elim (identified r) [
        | none ↦ rest
        | some id ↦ record { state = plan_route d cfg id r; route = fields_of r } ∷ rest
      ]

  -- `planRoutes(cfg, deps)`: the states, each with the route that it was made for.
  unfoldable pub plan_routes : Deps → Value → List Planned
  unfolding plan_from
  plan_routes d cfg = plan_from d cfg (configured cfg)

abbrev pub is_pending : RouteOutcome → Bool
is_pending pending = true
is_pending _ = false

-- `eligible`: the routes that are pending.
unfoldable pub eligible : List Planned → List Planned
eligible [] = []
eligible (p ∷ ps) = let rest = eligible ps in if is_pending p.state.outcome then p ∷ rest else rest
