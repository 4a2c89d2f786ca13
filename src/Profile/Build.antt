-- ===== src/Profile/Build.antt =====
-- lib/task-profile.js: `buildProfile` and `fallbackProfile`.
use view_limits.Base.{
  Bool, true, false, not, ◌&&◌, Option, none, some, List, [], ◌∷◌, String, str_eq, if◌then◌else◌,
  is_empty, map,
}
use view_limits.Base.Text.{Engine}
use view_limits.Value.{
  Value, undefined, str, arr, obj, Fields, end, field, get, items, is_plain_object, truthy, text_of,
  cons, nil,
}
use view_limits.Profile.Dimensions.{
  Dimension, dimensions, Finding, unresolved, field_absent, is_resolved, or_text, dimension_fact,
}

-- An element of `unresolved`.
pub record Gap : Type 0 where
  pub dimension : String
  pub reason : Option String

pub record Entry : Type 0 where
  pub name : String
  pub finding : Finding

pub record Profile : Type 0 where
  pub findings : List Entry
  pub resolved : List String
  pub gaps : List Gap
  pub is_complete : Bool

-- `(Array.isArray(layers) ? layers : [layers]).filter(isPlainObject)`.
abbrev as_list : Value → List Value
as_list (arr vs) = items vs
as_list v = v ∷ []

abbrev plain : List Value → List Value
plain [] = []
plain (v ∷ vs) = if is_plain_object v then v ∷ plain vs else plain vs

unfoldable pub layers_of : Value → List Value
layers_of v = plain (as_list v)

-- `layer.values && layer.values[name]`.
abbrev pub value_in : String → Value → Value
value_in name layer =
    if truthy (get "values" layer) then get name (get "values" layer) else get "values" layer

-- A reason that says more than that the field is absent.
unfoldable pub is_informative : Finding → Bool
is_informative f = not (elim f.reason [ none ↦ false | some r ↦ str_eq r field_absent ])

-- One turn of the loop over the layers.
unfoldable pub refine : Finding → Finding → Finding
unfolding is_resolved is_informative
refine f candidate =
    if is_resolved candidate
    then candidate
    else if not (is_resolved f) && is_informative candidate
    then candidate
    else f

unfoldable pub refine_all : Finding → List Finding → Finding
unfolding refine
refine_all f [] = f
refine_all f (c ∷ cs) = refine_all (refine f c) cs

module _ ⦃e : Engine⦄ where
  -- What one layer says of one dimension.
  unfoldable pub candidate_in : String → Dimension → Value → Finding
  unfolding dimension_fact
  candidate_in source d layer =
      dimension_fact (value_in d.name layer) d.words
        (or_text (text_of (get "provenance" layer)) "observed")
        (or_text (text_of (get "source" layer)) source)

  unfoldable pub find_dimension : List Value → String → Dimension → Finding
  unfolding refine_all candidate_in
  find_dimension layers source d =
      refine_all (unresolved field_absent) (map (candidate_in source d) layers)

  unfoldable pub entries : List Value → String → List Dimension → List Entry
  unfolding find_dimension
  entries layers source [] = []
  entries layers source (d ∷ ds) =
      record { name = d.name; finding = find_dimension layers source d } ∷ entries layers source ds

  unfoldable pub resolved_of : List Entry → List String
  unfolding is_resolved
  resolved_of [] = []
  resolved_of (x ∷ xs) = if is_resolved x.finding then x.name ∷ resolved_of xs else resolved_of xs

  unfoldable pub gaps_of : List Entry → List Gap
  unfolding is_resolved
  gaps_of [] = []
  gaps_of (x ∷ xs) =
      if is_resolved x.finding
      then gaps_of xs
      else record { dimension = x.name; reason = x.finding.reason } ∷ gaps_of xs

  -- `buildProfile(layers, { source })`.
  unfoldable pub build_profile : Value → String → Profile
  unfolding layers_of entries resolved_of gaps_of
  build_profile layers source =
      let found = entries (layers_of layers) source dimensions in
      record {
        findings = found;
        resolved = resolved_of found;
        gaps = gaps_of found;
        is_complete = is_empty (gaps_of found);
      }

  abbrev is_undefined : Value → Bool
  is_undefined undefined = true
  is_undefined _ = false

  -- `isPlainObject(v) ? { ...v } : {}`.
  abbrev members_of : Value → Fields
  members_of (obj fs) = fs
  members_of _ = end

  -- `meta`: `task.profile`, with `task.kind` for a task kind that it does not give.
  unfoldable pub metadata_of : Value → Value
  metadata_of task =
      let profile = get "profile" task in
      let meta = members_of profile in
      if is_undefined (get "taskKind" (obj meta)) && not (is_undefined (get "kind" task))
      then obj (field "taskKind" (get "kind" task) meta)
      else obj meta

  unfoldable pub defaults_of : Value → Value
  defaults_of policy = obj (members_of (get "taskProfile" (get "defaults" policy)))

  abbrev pub layer : Value → String → String → Value
  layer values provenance source = obj (
      field "values" values (field "provenance" (str provenance) (field "source" (str source) end)))

  -- `fallbackProfile(task, policy)`.
  unfoldable pub fallback_profile : Value → Value → Profile
  unfolding build_profile metadata_of defaults_of
  fallback_profile task policy =
      build_profile
        (arr (
          cons (layer (defaults_of policy) "configured" "default-policy")
            (cons (layer (metadata_of task) "observed" "task-metadata") nil)))
        "deterministic-fallback"
