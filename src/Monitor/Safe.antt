-- ===== src/Monitor/Safe.antt =====
-- `validateMonitor` of lib/monitor-schema.js: what an accepted monitor cannot hold.
use mathlib.Core.List.{Memᴰ}
use view_limits.Base.{
  true, false, Option, none, some, List, [], ◌∷◌, String, includes, ◌≡◌, inl, inr, refl, sym, ap,
  ◌∙◌, arith, eq_iff, Option-cases, includes-Memᴰ,
}
use view_limits.Base.Text.{Engine, is_blank}
use view_limits.Value.{
  Value, undefined, null, bool, num, str, arr, obj, Fields, end, get_field, has_field,
}
use view_limits.Monitor.{is_built_in_recipe, normalize_region, field_names}
use view_limits.Monitor.Secrets.{is_secret_field}
use view_limits.Monitor.Options.{validate_recipe_options, OptionError, get_option_spec}
use view_limits.Monitor.Accepted.{IsAccepted, validate_recipe_options-none_iff}
use view_limits.Monitor.Validate.{
  Url, UrlParts, allowed_monitor_fields, is_https_endpoint, is_word, check_fields, check_region,
  check_texts, check_endpoint, check_options, validate_object, validate_present, validate_monitor,
  wrap,
}

-- An absolute https URL without credentials, query or fragment.
pub record IsBareEndpoint ⦃u : Url⦄ (v : Value) : Type 0 where
  pub text : String
  pub parts : UrlParts
  pub is_text : v ≡ str text
  pub parses : u.parse_url text ≡ some parts
  pub https : parts.protocol ≡ "https:"
  pub no_username : parts.username ≡ ""
  pub no_password : parts.password ≡ ""
  pub no_query : parts.search ≡ ""
  pub no_fragment : parts.hash ≡ ""

-- The fields whose value is a text.
abbrev pub text_fields : List String
text_fields = "model" ∷ "recipe" ∷ "account" ∷ "profile" ∷ "region" ∷ []

pub record IsSafe ⦃e : Engine⦄ ⦃u : Url⦄ (provider : Value) (m : Fields) : Type 0 where
  pub allowed : (k : String) → Memᴰ k (field_names m) → Memᴰ k allowed_monitor_fields
  pub no_secret : (k : String) → Memᴰ k (field_names m) → is_secret_field k ≡ false
  pub no_endpoint :
      is_built_in_recipe provider (get_field "recipe" m) ≡ true → has_field "endpoint" m ≡ false
  pub known_region :
      is_built_in_recipe provider (get_field "recipe" m) ≡ true
      → has_field "region" m ≡ true
      → (r : String) × (normalize_region provider (get_field "region" m) ≡ some r)
  pub endpoint : has_field "endpoint" m ≡ true → IsBareEndpoint (get_field "endpoint" m)
  pub texts :
      (k : String) → Memᴰ k text_fields → has_field k m ≡ true → is_word (get_field k m) ≡ true
  pub options :
      has_field "recipeOptions" m ≡ true
      → (opts : Fields) × (get_field "recipeOptions" m ≡ obj opts)
        × IsAccepted (get_field "recipe" m) opts
  pub defaults :
      (spec : _)
      → get_option_spec (get_field "recipe" m) ≡ some spec
      → has_field "recipeOptions" m ≡ false
      → IsAccepted (get_field "recipe" m) end

blank_empty : (s : String) → is_blank s ≡ true → s ≡ ""
blank_empty String.[] h = refl
blank_empty (String.◌∷◌ c s) h = ground arith

module _ ⦃e : Engine⦄ ⦃u : Url⦄ where
  fields-allowed :
      (ks : List String) (k : String)
      → Memᴰ k ks
      → check_fields ks ≡ none
      → (includes allowed_monitor_fields k ≡ true) × (is_secret_field k ≡ false)
  unfolding check_fields
  fields-allowed [] k m h = elim m [ ]
  fields-allowed (j ∷ ks) k (Memᴰ.head q) h = (
    ap (includes allowed_monitor_fields) q ∙ ground (arith, h),
    ap is_secret_field q ∙ ground (arith, h),
  )
  fields-allowed (j ∷ ks) k (Memᴰ.tail m) h = fields-allowed ks k m (ground (arith, h))

  texts-words :
      (m : Fields) (ks : List String) (k : String)
      → Memᴰ k ks
      → check_texts ks m ≡ none
      → has_field k m ≡ true
      → is_word (get_field k m) ≡ true
  unfolding check_texts
  texts-words m [] k n h = elim n [ ]
  texts-words m (j ∷ ks) k (Memᴰ.head q) h = rw q (λ t. ground (arith, h, t))
  texts-words m (j ∷ ks) k (Memᴰ.tail n) h = texts-words m ks k n (ground (arith, h))

  endpoint-IsBareEndpoint : (v : Value) → is_https_endpoint v ≡ true → IsBareEndpoint v
  unfolding is_https_endpoint
  endpoint-IsBareEndpoint (str s) h = elim (Option-cases (u.parse_url s)) [
    | inl n ↦ ground (arith, h, n)
    | inr (parts, q) ↦ record {
      text = s;
      parts = parts;
      is_text = refl;
      parses = q;
      https = (eq_iff parts.protocol "https:").0 (ground (arith, h, q));
      no_username = blank_empty parts.username (ground (arith, h, q));
      no_password = blank_empty parts.password (ground (arith, h, q));
      no_query = blank_empty parts.search (ground (arith, h, q));
      no_fragment = blank_empty parts.hash (ground (arith, h, q));
    }
  ]
  endpoint-IsBareEndpoint undefined h = ground arith
  endpoint-IsBareEndpoint null h = ground arith
  endpoint-IsBareEndpoint (bool b) h = ground arith
  endpoint-IsBareEndpoint (num n) h = ground arith
  endpoint-IsBareEndpoint (arr vs) h = ground arith
  endpoint-IsBareEndpoint (obj fs) h = ground arith

  options-accepted :
      (recipe v : Value)
      → validate_recipe_options recipe v ≡ none
      → (opts : Fields) × (v ≡ obj opts) × IsAccepted recipe opts
  unfolding validate_recipe_options
  options-accepted recipe (obj opts) h =
      (opts, refl, (validate_recipe_options-none_iff recipe opts).0 h)
  options-accepted recipe undefined h = ground arith
  options-accepted recipe null h = ground arith
  options-accepted recipe (bool b) h = ground arith
  options-accepted recipe (num n) h = ground arith
  options-accepted recipe (str s) h = ground arith
  options-accepted recipe (arr vs) h = ground arith

  wrap-none : (o : Option OptionError) → wrap o ≡ none → o ≡ none
  wrap-none none h = refl
  wrap-none (some err) h = ground arith

  object-IsSafe :
      (provider : Value) (m : Fields) → validate_object provider m ≡ none → IsSafe provider m
  unfolding validate_object
  object-IsSafe provider m h =
      let fields : check_fields (field_names m) ≡ none = ground (arith, h) in
      let region : check_region provider m ≡ none = ground (arith, h) in
      let endpoint : check_endpoint m ≡ none = ground (arith, h) in
      let texts : check_texts text_fields m ≡ none = ground (arith, h) in
      let options : check_options m ≡ none = ground (arith, h) in
      record {
        allowed = λ k n.
            includes-Memᴰ allowed_monitor_fields k (fields-allowed (field_names m) k n fields).0;
        no_secret = λ k n. (fields-allowed (field_names m) k n fields).1;
        no_endpoint = λ b. ground (arith, region, b);
        known_region = λ b has.
            elim (Option-cases (normalize_region provider (get_field "region" m))) [
              | inl n ↦ ground (arith, region, b, has, n)
              | inr found ↦ found
            ];
        endpoint =
            λ has. endpoint-IsBareEndpoint (get_field "endpoint" m) (ground (arith, endpoint, has));
        texts = λ k n. texts-words m text_fields k n texts;
        options = λ has.
            options-accepted (get_field "recipe" m) (get_field "recipeOptions" m)
              (wrap-none _ (ground (arith, options, has)));
        defaults = λ spec q has.
            (validate_recipe_options-none_iff (get_field "recipe" m) end).0
              (wrap-none _ (ground (arith, options, has, q)));
      }

  -- A monitor that `validateMonitor` accepts has only allowed fields and none named like a
  -- credential; its endpoint is an https URL without credentials, query or fragment, and a built-in
  -- recipe with regions has none and a known region; its texts are not blank; and its options are
  -- those the recipe accepts.
  pub validate_monitor-IsSafe :
      (route m : Fields)
      → get_field "monitor" route ≡ obj m
      → validate_monitor (obj route) ≡ none
      → IsSafe (get_field "provider" route) m
  unfolding validate_monitor
  validate_monitor-IsSafe route m q h =
      object-IsSafe (get_field "provider" route) m
        (ap (validate_present (get_field "provider" route)) (sym q) ∙ h)
