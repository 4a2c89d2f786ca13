-- ===== src/Monitor/Revision.antt =====
-- `normalizedMonitor`, `configRevision` and `isConfigObsolete` of lib/monitor-schema.js.
use view_limits.Base.{
  Bool, true, false, not, ◌&&◌, Option, none, some, List, [], ◌∷◌, String, str_eq, if◌then◌else◌,
}
use view_limits.Base.Text.{Engine, is_blank, text_le}
use view_limits.Base.Sort.{sort_by}
use view_limits.Value.{
  Value, undefined, null, str, obj, Fields, end, field, get_field, has_field, truthy,
}
use view_limits.Monitor.{is_built_in_recipe, normalize_region}
use view_limits.Monitor.Options.{Declared, get_option_spec, resolved_recipe_options}

-- `sha1Hex(JSON.stringify(v))`: the serialisation and the hash are the platform's.
pub record Digest : Type 0 where
  pub digest : Value → String

abbrev pub canonical : Value → Option String → Value
canonical raw none = raw
canonical raw (some region) = if is_blank region then raw else str region

module _ ⦃e : Engine⦄ where
  -- `out[k]`: the canonical region of a built-in recipe, and any other field as it is.
  unfoldable pub kept_value : Value → Fields → String → Value
  kept_value provider m k =
      if str_eq k "region" && is_built_in_recipe provider (get_field "recipe" m)
      then canonical (get_field k m) (normalize_region provider (get_field k m))
      else get_field k m

  -- The loop over `ALLOWED_MONITOR_FIELDS`, without `recipeOptions`, followed by `rest`.
  unfoldable pub kept_fields : Value → Fields → List String → Fields → Fields
  unfolding kept_value
  kept_fields provider m [] rest = rest
  kept_fields provider m (k ∷ ks) rest =
      let others = kept_fields provider m ks rest in
      if has_field k m then field k (kept_value provider m k) others else others

abbrev pub plain_fields : List String
plain_fields = "endpoint" ∷ "model" ∷ "recipe" ∷ "account" ∷ "profile" ∷ "region" ∷ []

abbrev pub key_le : Declared → Declared → Bool
key_le a b = text_le a.key b.key

-- The loop over `Object.keys(spec).sort()`.
unfoldable pub revisioned : List Declared → Fields → Fields
revisioned [] resolved = end
revisioned (d ∷ ds) resolved =
    let rest = revisioned ds resolved in
    if d.spec.revision
    then elim (get_field d.key resolved) [ undefined ↦ rest | v ↦ field d.key v rest ]
    else rest

abbrev pub options_field : Fields → Fields
options_field end = end
options_field (field k v fs) = field "recipeOptions" (obj (field k v fs)) end

-- `out.recipeOptions`, where there is one.
unfoldable pub revisioned_options : Fields → Fields
unfolding revisioned
revisioned_options m = elim (get_option_spec (get_field "recipe" m)) [
  | none ↦ end
  | some spec ↦ options_field (
      revisioned (sort_by key_le spec)
        (resolved_recipe_options (get_field "recipe" m) (get_field "recipeOptions" m)))
]

module _ ⦃e : Engine⦄ where
  -- `normalizedMonitor(m, provider)`.
  unfoldable pub normalized_monitor : Value → Value → Value
  unfolding kept_fields revisioned_options
  normalized_monitor (obj m) provider =
      obj (kept_fields provider m plain_fields (revisioned_options m))
  normalized_monitor _ provider = null

  -- The object that `configRevision` hashes.
  unfoldable pub identity : Fields → Value
  unfolding normalized_monitor
  identity route =
      let monitor = get_field "monitor" route in
      let provider = get_field "provider" route in
      obj (
        field "id" (get_field "id" route) (
          field "provider" provider (
            field "monitor" (if truthy monitor then normalized_monitor monitor provider else null)
              end)))

  -- `configRevision(route)` of a plain object.
  unfoldable pub config_revision : ⦃d : Digest⦄ → Fields → String
  unfolding identity
  config_revision ⦃d⦄ route = d.digest (identity route)

  abbrev pub differs : String → String → Bool
  differs cached current = if is_blank current then true else not (str_eq cached current)

  unfoldable pub obsolete_under : ⦃d : Digest⦄ → Value → Value → Bool
  unfolding config_revision
  obsolete_under (str cached) (obj route) =
      if is_blank cached then false else differs cached (config_revision route)
  obsolete_under (str cached) route = not (is_blank cached)
  obsolete_under _ route = false

  -- `isConfigObsolete(entry, route)`.
  unfoldable pub is_config_obsolete : ⦃d : Digest⦄ → Value → Value → Bool
  unfolding obsolete_under
  is_config_obsolete (obj entry) route = obsolete_under (get_field "configRevision" entry) route
  is_config_obsolete _ route = false
