-- ===== src/Examples/Dispatches.antt =====
-- The theorems on lib/routes.js at concrete inputs.
use view_limits.Base.{refl}
use view_limits.Base.Text.{trim}
use view_limits.Value.{Value, text_or_empty, str, arr, cons, nil, obj, field, end, get}
use view_limits.Routes.{
  resolve_route, identity_text, route_list, is_model_hit, signal, match_text, includes_text,
  is_harness_hit, pick_by_specificity,
}
use view_limits.Routes.Resolve.{IsCharged, resolve_route_iff}
use view_limits.Examples.{lower_case, silent, one_field, empty}

abbrev opus_route : Value
opus_route = obj (field "id" (str "r1") (field "match" (one_field "model" (str "opus")) end))

abbrev routes : Value
routes = arr (cons opus_route nil)

resolve_route_iff_example :
    IsCharged ⦃e = lower_case⦄ ⦃p = silent⦄
      (identity_text ⦃e = lower_case⦄ ⦃p = silent⦄ (str "opus"))
      (identity_text ⦃e = lower_case⦄ ⦃p = silent⦄ (get "harness" empty))
      (route_list ⦃e = lower_case⦄ ⦃p = silent⦄ routes)
      opus_route
unfolding resolve_route is_model_hit signal match_text text_or_empty trim includes_text
    is_harness_hit pick_by_specificity
resolve_route_iff_example =
    (resolve_route_iff ⦃e = lower_case⦄ ⦃p = silent⦄ (str "opus") empty routes opus_route).0 refl
