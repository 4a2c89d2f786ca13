-- ===== src/Examples/Monitors.antt =====
-- The theorems on lib/monitor-schema.js at concrete inputs.
use view_limits.Base.{
  ap, includes, Memᴰ-includes, List, some, false, ◌≡◌, refl, arith, inl, inr, str_eq, eq_iff,
  Bool-cases,
}
use view_limits.Value.{finite, num, str, obj, Fields, field, end}
use view_limits.Base.Text.{trim}
use view_limits.Monitor.{is_built_in_recipe}
use view_limits.Monitor.Secrets.{
  is_secret_field, is_secret_option_name, looks_like_secret_value, is_path,
}
use mathlib.Core.Path.{subst}
use view_limits.Score.Bounds.{some_injective}
use view_limits.Monitor.Stable.{AgreeOn, unchanged, now_given}
use view_limits.Monitor.Options.{
  Declared, find_spec, get_option_spec, fits, validate_recipe_options,
}
use view_limits.Monitor.Accepted.{IsAccepted, validate_recipe_options-none_iff}
use view_limits.Monitor.Validate.{validate_monitor}
use view_limits.Monitor.Safe.{IsSafe, validate_monitor-IsSafe}
use view_limits.Monitor.Revision.{plain_fields, config_revision}
use view_limits.Monitor.Edits.{IsSameConfig, config_revision_stable}
use view_limits.Examples.{lower_case, https_only, one_digest}

abbrev options : Fields
options = field "path" (str "/v1/models") (field "timeoutMs" (num (finite false 2000 0)) end)

validate_recipe_options-none_iff_example : IsAccepted ⦃e = lower_case⦄ (str "openai-compat") options
unfolding validate_recipe_options is_secret_field is_secret_option_name looks_like_secret_value fits
    is_path
validate_recipe_options-none_iff_example =
    (validate_recipe_options-none_iff ⦃e = lower_case⦄ (str "openai-compat") options).0 refl

abbrev compat : Fields
compat =
    field "endpoint" (str "https://relay.example")
      (field "recipe" (str "openai-compat") (field "recipeOptions" (obj options) end))

abbrev compat_route : Fields
compat_route = field "provider" (str "relay") (field "monitor" (obj compat) end)

validate_monitor-IsSafe_example : IsSafe ⦃e = lower_case⦄ ⦃u = https_only⦄ (str "relay") compat
unfolding validate_monitor is_built_in_recipe trim validate_recipe_options is_secret_field
    is_secret_option_name looks_like_secret_value fits is_path
validate_monitor-IsSafe_example =
    validate_monitor-IsSafe ⦃e = lower_case⦄ ⦃u = https_only⦄ compat_route compat refl refl

abbrev kept : Fields → Fields
kept opts =
    field "endpoint" (str "https://relay.example")
      (field "recipe" (str "openai-compat") (field "recipeOptions" (obj opts) end))

-- The defaults written out, and another time limit.
abbrev spelled_out : Fields
spelled_out = field "scope" (str "diagnostic") (
    field "path" (str "/v1/models")
      (field "resetEncoding" (str "duration") (field "timeoutMs" (num (finite false 9000 0)) end)))

abbrev relay : Fields → Fields
relay opts =
    field "id" (str "r1") (field "provider" (str "relay") (field "monitor" (obj (kept opts)) end))

options_agree :
    (spec : List Declared)
    → get_option_spec (str "openai-compat") ≡ some spec
    → AgreeOn spec options spelled_out
unfolding AgreeOn get_option_spec find_spec
options_agree spec q =
    subst (λ s. AgreeOn s options spelled_out) (some_injective q)
      (
        λ r. unchanged refl,
        (
          λ r. now_given refl refl,
          (λ r. now_given refl refl, (λ r. absurd (ground (arith, r)), tt)),
        ),
      )

same_relay : IsSameConfig ⦃e = lower_case⦄ (str "relay") (kept options) (kept spelled_out)
same_relay = record {
  has = λ k m. refl;
  same = λ k m n. elim (Bool-cases (str_eq "recipeOptions" k)) [
    | inl t ↦ absurd (
        ground
          (arith, ap (includes plain_fields) ((eq_iff "recipeOptions" k).0 t), Memᴰ-includes m))
    | inr f ↦ ground (arith, f)
  ];
  region = inl refl;
  options = options_agree;
}

config_revision_stable_example :
    config_revision ⦃e = lower_case⦄ ⦃d = one_digest⦄ (relay options)
    ≡ config_revision ⦃e = lower_case⦄ ⦃d = one_digest⦄ (relay spelled_out)
config_revision_stable_example =
    config_revision_stable ⦃e = lower_case⦄ ⦃d = one_digest⦄ (relay options) (relay spelled_out)
      (kept options) (kept spelled_out) refl refl refl refl same_relay
