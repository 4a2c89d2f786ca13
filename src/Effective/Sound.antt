-- ===== src/Effective/Sound.antt =====
-- lib/effective-config.js: what stands behind a monitorable route.
use view_limits.Base.{
  Bool, true, false, not, Option, none, some, List, [], ◌∷◌, String, map, includes, ◌≡◌, refl, ◌∙◌,
  sym, arith, inl, inr, ◌⊎◌, if◌then◌else◌,
}
use view_limits.Base.Text.{Engine, is_blank}
use view_limits.Value.{
  Value, undefined, null, bool, num, str, arr, obj, Fields, get, get_field, truthy, Printer,
}
use view_limits.Monitor.Validate.{Url, MonitorError, validate_monitor}
use view_limits.Monitor.Revision.{Digest}
use view_limits.Monitor.Labels.{classify_capability}
use view_limits.Facts.{is_the_text}
use view_limits.Effective.Recipes.{Recipe, recipes, find_recipe, get_recipe, known_recipes}
use view_limits.Effective.Hosts.{Locator}
use view_limits.Effective.{
  Hash, Adapters, Effective, built_in_fetch, recipe_fetch, Monitorable, Reason, monitorable,
  unmonitorable, is_family, capability_of, built_in, custom, with_monitor, when_valid,
  resolve_effective_config,
}

abbrev pub is_monitored : Monitorable → Bool
is_monitored (monitorable c) = true
is_monitored (unmonitorable why) = false

-- The built-in fetch, for a provider that has an adapter.
pub record IsBuiltIn (adapter : Option (Value → Bool)) (route : Fields) (out : Effective)
    : Type 0 where
  pub get_adapter : Value → Bool
  pub given : adapter ≡ some get_adapter
  pub accepted : get_adapter (get_field "provider" route) ≡ true
  pub fetch : out.fetch ≡ built_in_fetch

-- The fetch of a registered recipe that is monitorable and of the route's family.
pub record IsRecipe (recipe : Value) (route : Fields) (out : Effective) : Type 0 where
  pub entry : Recipe
  pub known : get_recipe recipe ≡ some entry
  pub can_monitor : entry.is_monitorable ≡ true
  pub family : is_family entry.family (get_field "provider" route) ≡ true
  pub fetch : out.fetch ≡ recipe_fetch entry

find_recipe-none :
    (id : String) (rs : List Recipe)
    → find_recipe id rs ≡ none
    → includes (map Recipe.id rs) id ≡ false
unfolding find_recipe
find_recipe-none id [] h = refl
find_recipe-none id (r ∷ rs) h = ground (arith, find_recipe-none id rs)

known_of :
    (s : String) → is_blank s ≡ false → get_recipe (str s) ≡ none → includes known_recipes s ≡ false
unfolding get_recipe known_recipes
known_of s b h = find_recipe-none s recipes (ground arith)

-- A recipe that is not registered is not monitorable.
unknown_recipe :
    (m : Fields) (recipe : Value)
    → get_field "recipe" m ≡ recipe
    → truthy recipe ≡ true
    → get_recipe recipe ≡ none
    → is_monitored (capability_of (classify_capability (obj m) known_recipes)) ≡ false
unfolding classify_capability
unknown_recipe m (str s) q t h = rw (q) (ground (arith, known_of s))
unknown_recipe m v q t h = rw (q) (ground arith)

false≢true : false ≡ true → ⊥
false≢true h = absurd (ground arith)

-- Which branch a monitored result comes from.
either :
    (b : Bool) (x y : Effective)
    → is_monitored (if b then x else y).capability ≡ true
    → ((b ≡ true) × (is_monitored x.capability ≡ true))
      ⊎ ((b ≡ false) × (is_monitored y.capability ≡ true))
either true x y c = inl (refl, c)
either false x y c = inr (refl, c)

refined :
    (b : Bool) (x : Monitorable) (why : Reason)
    → is_monitored (if b then x else unmonitorable why) ≡ true
    → b ≡ true
refined true x why c = refl
refined false x why c = absurd (ground arith)

module _ ⦃e : Engine⦄ ⦃u : Url⦄ ⦃l : Locator⦄ ⦃d : Digest⦄ ⦃h : Hash⦄ ⦃p : Printer⦄ where
  built_in-IsBuiltIn :
      (adapter : Option (Value → Bool)) (route : Fields) (monitor region cfg : Value)
      → is_monitored (built_in adapter route monitor region cfg).capability ≡ true
      → IsBuiltIn adapter route (built_in adapter route monitor region cfg)
  unfolding built_in
  built_in-IsBuiltIn none route monitor region cfg c = absurd (ground arith)
  built_in-IsBuiltIn (some a) route monitor region cfg c =
      elim (either (a (get_field "provider" route)) _ _ c) [
        | inl (t, m) ↦ record { get_adapter = a; given = refl; accepted = t; fetch = rw (t) refl }
        | inr (f, m) ↦ absurd (false≢true m)
      ]

  -- What stands behind a monitored route.
  abbrev pub IsBehind : Option (Value → Bool) → Fields → Value → Effective → Type 0
  IsBehind adapter route recipe out = IsBuiltIn adapter route out ⊎ IsRecipe recipe route out

  custom-IsRecipe :
      (o : Option Recipe) (route m : Fields)
      → get_recipe (get_field "recipe" m) ≡ o
      → truthy (get_field "recipe" m) ≡ true
      → is_monitored (custom o route m).capability ≡ true
      → IsRecipe (get_field "recipe" m) route (custom o route m)
  unfolding custom
  custom-IsRecipe none route m q t c =
      absurd (false≢true (sym (unknown_recipe m (get_field "recipe" m) refl t q) ∙ c))
  custom-IsRecipe (some r) route m q t c =
      elim (either (is_family r.family (get_field "provider" route)) _ _ c) [
        | inl (f, k) ↦ record {
          entry = r;
          known = q;
          can_monitor = refined r.is_monitorable _ _ k;
          family = f;
          fetch = rw (f) refl;
        }
        | inr (f, k) ↦ absurd (false≢true k)
      ]

  with_monitor-IsBehind :
      (adapter : Option (Value → Bool)) (route : Fields) (monitor cfg : Value)
      → is_monitored (with_monitor adapter route monitor cfg).capability ≡ true
      → IsBehind adapter route (get "recipe" monitor) (with_monitor adapter route monitor cfg)
  unfolding with_monitor
  with_monitor-IsBehind adapter route (obj m) cfg c =
      elim (either (not (truthy (get_field "recipe" m))) _ _ c) [
        | inl (t, k) ↦ absurd (false≢true k)
        | inr (t, k) ↦ elim (either (is_the_text (get_field "recipe" m) "built-in") _ _ k) [
          | inl (b, n) ↦
              rw (t, b)
                (inl (built_in-IsBuiltIn adapter route (obj m) (get_field "region" m) cfg n))
          | inr (b, n) ↦
              rw (t, b)
                (inr (
                  custom-IsRecipe (get_recipe (get_field "recipe" m)) route m refl (ground arith)
                    n))
        ]
      ]
  with_monitor-IsBehind adapter route undefined cfg c =
      inl (built_in-IsBuiltIn adapter route null undefined cfg c)
  with_monitor-IsBehind adapter route null cfg c =
      inl (built_in-IsBuiltIn adapter route null undefined cfg c)
  with_monitor-IsBehind adapter route (bool b) cfg c =
      inl (built_in-IsBuiltIn adapter route null undefined cfg c)
  with_monitor-IsBehind adapter route (num n) cfg c =
      inl (built_in-IsBuiltIn adapter route null undefined cfg c)
  with_monitor-IsBehind adapter route (str s) cfg c =
      inl (built_in-IsBuiltIn adapter route null undefined cfg c)
  with_monitor-IsBehind adapter route (arr vs) cfg c =
      inl (built_in-IsBuiltIn adapter route null undefined cfg c)

  when_valid-IsBehind :
      (o : Option MonitorError) (adapter : Option (Value → Bool)) (route : Fields) (cfg : Value)
      → is_monitored (when_valid o adapter route cfg).capability ≡ true
      → (o ≡ none)
        × IsBehind adapter route
            (get "recipe" (get_field "monitor" route))
            (when_valid o adapter route cfg)
  unfolding when_valid
  when_valid-IsBehind (some err) adapter route cfg c = absurd (false≢true c)
  when_valid-IsBehind none adapter route cfg c =
      (refl, with_monitor-IsBehind adapter route (get_field "monitor" route) cfg c)

  -- What a monitored route has.
  pub record IsSound (route cfg : Value) (ctx : Adapters) : Type 0 where
    pub members : Fields
    pub document : route ≡ obj members
    pub valid : validate_monitor (obj members) ≡ none
    pub behind :
        IsBehind ctx.get_adapter members
          (get "recipe" (get_field "monitor" members))
          (resolve_effective_config (obj members) cfg ctx)

  -- A route is called monitorable only when it is an object with an accepted monitor, and its fetch
  -- is the built-in one for a provider that has an adapter, or that of the registered recipe which
  -- its monitor names, where the recipe can be monitored and serves the family of the route.
  pub resolve_effective_config-IsSound :
      (route cfg : Value) (ctx : Adapters)
      → is_monitored (resolve_effective_config route cfg ctx).capability ≡ true
      → IsSound route cfg ctx
  unfolding resolve_effective_config
  resolve_effective_config-IsSound (obj fs) cfg ctx c =
      let (v, b) = when_valid-IsBehind (validate_monitor (obj fs)) ctx.get_adapter fs cfg c in
      record { members = fs; document = refl; valid = v; behind = b }
  resolve_effective_config-IsSound undefined cfg ctx c = absurd (false≢true c)
  resolve_effective_config-IsSound null cfg ctx c = absurd (false≢true c)
  resolve_effective_config-IsSound (bool b) cfg ctx c = absurd (false≢true c)
  resolve_effective_config-IsSound (num n) cfg ctx c = absurd (false≢true c)
  resolve_effective_config-IsSound (str s) cfg ctx c = absurd (false≢true c)
  resolve_effective_config-IsSound (arr vs) cfg ctx c = absurd (false≢true c)
