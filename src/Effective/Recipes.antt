-- ===== src/Effective/Recipes.antt =====
-- lib/recipes/index.js: the registry of recipes, with what the resolver reads of each.
use view_limits.Base.{
  Bool, true, false, not, ◌&&◌, Option, none, some, List, [], ◌∷◌, String, str_eq, if◌then◌else◌,
  map,
}
use view_limits.Base.Text.{is_blank}
use view_limits.Value.{Value, str, obj, get, get_field, is_plain_object, is_text}

pub record Recipe : Type 0 where
  pub id : String
  pub family : Option String
  pub is_monitorable : Bool
  pub has_vault_credential : Bool

-- `compatRecipe(id, adapter)`.
abbrev compat_recipe : String → Recipe
compat_recipe id = record {
  id = id;
  family = some id;
  is_monitorable = true;
  has_vault_credential = true;
}

-- `unmonitoredRecipe(id, reason)`.
abbrev unmonitored_recipe : String → Recipe
unmonitored_recipe id = record {
  id = id;
  family = none;
  is_monitorable = false;
  has_vault_credential = false;
}

-- `RECIPES`.
unfoldable pub recipes : List Recipe
recipes =
    record { id = "built-in"; family = none; is_monitorable = true; has_vault_credential = true }
    ∷ compat_recipe "openai-compat"
    ∷ compat_recipe "anthropic-compat"
    ∷ unmonitored_recipe "stepfun-plan"
    ∷ record {
      id = "alibaba-coding-plan";
      family = none;
      is_monitorable = true;
      has_vault_credential = false;
    }
    ∷ []

unfoldable pub find_recipe : String → List Recipe → Option Recipe
find_recipe id [] = none
find_recipe id (r ∷ rs) = let rest = find_recipe id rs in if str_eq r.id id then some r else rest

-- `getRecipe(id)`.
unfoldable pub get_recipe : Value → Option Recipe
unfolding find_recipe
get_recipe (str id) = if is_blank id then none else find_recipe id recipes
get_recipe _ = none

-- `knownRecipes()`.
unfoldable pub known_recipes : List String
unfolding recipes
known_recipes = map Recipe.id recipes

abbrev needs : Option Recipe → Bool
needs none = true
needs (some r) = r.has_vault_credential

-- `routeNeedsVaultCredential(route)`.
unfoldable pub route_needs_vault_credential : Value → Bool
route_needs_vault_credential (obj route) =
    let m = get_field "monitor" route in
    if not (is_plain_object m && is_text (get "recipe" m))
    then true
    else needs (get_recipe (get "recipe" m))
route_needs_vault_credential _ = true
