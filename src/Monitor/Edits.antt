-- ===== src/Monitor/Edits.antt =====
-- `configRevision` of lib/monitor-schema.js: the edits of a route that leave its revision alone.
use mathlib.Core.List.{Memᴰ}
use view_limits.Base.{
  true, false, Option, none, some, List, [], ◌∷◌, String, str_eq, ◌≡◌, ◌≢◌, ◌⊎◌, inl, inr, refl,
  sym, ap, ◌∙◌, arith, eq_iff, Bool-cases, Option-cases, includes,
}
use view_limits.Base.Sort.{sort_by, sort_by-Memᴰ}
use view_limits.Base.Text.{Engine, is_blank, trim}
use view_limits.Value.{
  Value, undefined, null, bool, num, str, arr, obj, Fields, get_field, has_field,
}
use view_limits.Monitor.{normalize_region, is_built_in_recipe, member_of, region_list}
use view_limits.Monitor.Options.{Declared, get_option_spec, resolved_recipe_options, plain}
use view_limits.Monitor.Revision.{
  Digest, kept_value, kept_fields, plain_fields, revisioned, revisioned_options, normalized_monitor,
  config_revision, key_le, options_field, identity,
}
use view_limits.Monitor.Stable.{
  AgreeOn, AgreeOn-resolved, same_bearing, revisioned_stable, resolve_stable, resolved_lem,
}

options_stable :
    (recipe : Value) (old new : Value)
    → ((spec : List Declared)
        → get_option_spec recipe ≡ some spec
        → AgreeOn spec (plain old) (plain new))
    → (spec : List Declared) → get_option_spec recipe ≡ some spec
    → revisioned (sort_by key_le spec) (resolved_recipe_options recipe old)
      ≡ revisioned (sort_by key_le spec) (resolved_recipe_options recipe new)
unfolding resolved_recipe_options
options_stable recipe old new h spec q = revisioned_stable (sort_by key_le spec) _ _ (λ d m r.
    let there = sort_by-Memᴰ key_le d spec m in
    ap (get_field d.key) (resolved_lem recipe old spec q)
    ∙ resolve_stable spec d.key (plain old) (plain new) (λ c n e.
      AgreeOn-resolved spec (plain old) (plain new) (h spec q) c n
        (same_bearing recipe spec q d c there n e r))
    ∙ sym (ap (get_field d.key) (resolved_lem recipe new spec q)))

-- Both texts name the same region of the provider.
unfoldable pub SameRegion : ⦃e : Engine⦄ → (provider old new : Value) → Type 0
SameRegion provider old new =
    (r : String) × (normalize_region provider old ≡ some r)
    × (normalize_region provider new ≡ some r)

-- Two monitors of a provider that stand for one configuration.
pub record IsSameConfig ⦃e : Engine⦄ (provider : Value) (old new : Fields) : Type 0 where
  pub has : (k : String) → Memᴰ k plain_fields → has_field k old ≡ has_field k new
  pub same : (k : String) → Memᴰ k plain_fields → k ≢ "region" → get_field k old ≡ get_field k new
  pub region :
      (get_field "region" old ≡ get_field "region" new)
      ⊎ ((is_built_in_recipe provider (get_field "recipe" old) ≡ true)
          × SameRegion provider (get_field "region" old) (get_field "region" new))
  pub options :
      (spec : List Declared)
      → get_option_spec (get_field "recipe" old) ≡ some spec
      → AgreeOn spec (plain (get_field "recipeOptions" old)) (plain (get_field "recipeOptions" new))

module _ ⦃e : Engine⦄ where
  blank_empty : (s : String) → is_blank s ≡ true → s ≡ ""
  blank_empty String.[] h = refl
  blank_empty (String.◌∷◌ c s) h = ground arith

  member_same : (o : Option (List String)) (key r : String) → member_of o key ≡ some r → key ≡ r
  member_same none key r h = ground arith
  member_same (some names) key r h = elim (Bool-cases (includes names key)) [
    | inl t ↦ ground (arith, h, t)
    | inr f ↦ ground (arith, h, f)
  ]

  member_named : (p key : String) → ¬ (member_of (region_list p) key ≡ some "")
  member_named p key h = elim (Bool-cases (is_blank key)) [
    | inl t ↦ ground (arith, ap (member_of (region_list p)) (sym (blank_empty key t)) ∙ h)
    | inr f ↦ ground (arith, f, ap is_blank (member_same (region_list p) key "" h))
  ]

  region_named :
      (provider v : Value) (r : String) → normalize_region provider v ≡ some r → is_blank r ≡ false
  unfolding normalize_region
  region_named (str p) (str s) (String.◌∷◌ c r) h = refl
  region_named (str p) (str s) String.[] h = absurd (member_named p (e.to_lower_case (trim s)) h)
  region_named (str p) undefined r h = ground arith
  region_named (str p) null r h = ground arith
  region_named (str p) (bool b) r h = ground arith
  region_named (str p) (num n) r h = ground arith
  region_named (str p) (arr vs) r h = ground arith
  region_named (str p) (obj fs) r h = ground arith
  region_named undefined v r h = ground arith
  region_named null v r h = ground arith
  region_named (bool b) v r h = ground arith
  region_named (num n) v r h = ground arith
  region_named (arr vs) v r h = ground arith
  region_named (obj fs) v r h = ground arith

  kept_region :
      (provider : Value) (old new : Fields)
      → IsSameConfig provider old new
      → kept_value provider old "region" ≡ kept_value provider new "region"
  unfolding kept_value SameRegion
  kept_region provider old new s =
      let recipe =
        s.same "recipe" (Memᴰ.tail (Memᴰ.tail (Memᴰ.head refl)))
          (λ q. ground (arith, ap (λ x. str_eq x "region") q)) in
      elim s.region [
        | inl q ↦ rw (recipe, q) refl
        | inr (b, (r, p, q)) ↦
            rw (← recipe, b, p, q, region_named provider (get_field "region" old) r p) refl
      ]

  kept_stable :
      (provider : Value) (old new : Fields) (k : String)
      → IsSameConfig provider old new
      → Memᴰ k plain_fields
      → kept_value provider old k ≡ kept_value provider new k
  unfolding kept_value
  kept_stable provider old new k s m = elim (Bool-cases (str_eq k "region")) [
    | inl t ↦ rw ((eq_iff k "region").0 t) (kept_region provider old new s)
    | inr f ↦ rw (f, s.same k m (λ q. ground (arith, f, ap (λ x. str_eq x "region") q))) refl
  ]

  fields_stable :
      (provider : Value) (old new : Fields) (ks : List String) (rest : Fields)
      → ((k : String) → Memᴰ k ks → has_field k old ≡ has_field k new)
      → ((k : String) → Memᴰ k ks → kept_value provider old k ≡ kept_value provider new k)
      → kept_fields provider old ks rest ≡ kept_fields provider new ks rest
  unfolding kept_fields
  fields_stable provider old new [] rest has same = refl
  fields_stable provider old new (k ∷ ks) rest has same =
      rw
        (
          has k (Memᴰ.head refl),
          same k (Memᴰ.head refl),
          fields_stable provider old new ks rest (λ j m. has j (Memᴰ.tail m))
              (λ j m. same j (Memᴰ.tail m)),
        )
        refl

  options_spec :
      (m : Fields) (spec : List Declared)
      → get_option_spec (get_field "recipe" m) ≡ some spec
      → revisioned_options m
        ≡ options_field (
            revisioned
              (sort_by key_le spec)
              (resolved_recipe_options (get_field "recipe" m) (get_field "recipeOptions" m)))
  unfolding revisioned_options
  options_spec m spec q = rw (q, revisioned_options) refl

  options_field_stable :
      (provider : Value) (old new : Fields)
      → IsSameConfig provider old new
      → revisioned_options old ≡ revisioned_options new
  unfolding revisioned_options
  options_field_stable provider old new s =
      let recipe =
        s.same "recipe" (Memᴰ.tail (Memᴰ.tail (Memᴰ.head refl)))
          (λ q. ground (arith, ap (λ x. str_eq x "region") q)) in
      elim (Option-cases (get_option_spec (get_field "recipe" old))) [
        | inl n ↦ rw (← recipe, n, revisioned_options) refl
        | inr (spec, q) ↦
            options_spec old spec q
            ∙ ap options_field (
                options_stable (get_field "recipe" old) (get_field "recipeOptions" old)
                  (get_field "recipeOptions" new) s.options spec q
                ∙ ap
                    (λ v.
                      revisioned (sort_by key_le spec)
                        (resolved_recipe_options v (get_field "recipeOptions" new)))
                    recipe)
            ∙ sym (options_spec new spec (ap get_option_spec (sym recipe) ∙ q))
      ]

  normalized_stable :
      (provider : Value) (old new : Fields)
      → IsSameConfig provider old new
      → normalized_monitor (obj old) provider ≡ normalized_monitor (obj new) provider
  unfolding normalized_monitor
  normalized_stable provider old new s = ap obj (
      ap (kept_fields provider old plain_fields) (options_field_stable provider old new s)
      ∙ fields_stable provider old new plain_fields (revisioned_options new) s.has
          (λ k m. kept_stable provider old new k s m))

  -- A route whose monitor is edited without changing what it stands for (the spelling of a region
  -- of a built-in recipe, an option that is left out instead of given its default or the reverse,
  -- an option that does not bear on the revision, a field outside the allowed ones) keeps its
  -- revision.
  pub config_revision_stable :
      ⦃d : Digest⦄
      → (route other old new : Fields) → get_field "id" route ≡ get_field "id" other
      → get_field "provider" route ≡ get_field "provider" other
      → get_field "monitor" route ≡ obj old
      → get_field "monitor" other ≡ obj new
      → IsSameConfig (get_field "provider" route) old new
      → config_revision route ≡ config_revision other
  unfolding config_revision identity
  config_revision_stable ⦃d⦄ route other old new id provider monitor monitor_other s = ap d.digest (
      rw
        (
          id,
          monitor,
          monitor_other,
          ← provider,
          normalized_stable (get_field "provider" route) old new s,
        )
        refl)
