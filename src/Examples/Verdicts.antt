-- ===== src/Examples/Verdicts.antt =====
-- The theorems on lib/eligibility.js at concrete inputs.
use mathlib.Core.List.{Pairwise}
use view_limits.Base.{true, ◌≡◌, ◌↔◌, refl}
use view_limits.Value.{Value, bool, str, cons, nil, obj, field, end, Items}
use view_limits.Eligibility.Inputs.{read_inputs, req_list}
use view_limits.Eligibility.Verdict.{is_eligible, is_ineligible, evaluate}
use view_limits.Eligibility.Spec.{Violation, Unproven}
use view_limits.Eligibility.Meaning.{evaluate-ineligible_iff, evaluate-eligible_iff}
use view_limits.Eligibility.Order.{Precedes, evaluate-reasons}
use view_limits.Eligibility.Checks.{
  check_allowed_harnesses, check_allowed_models, check_forbid_harnesses, check_forbid_models,
  check_forbid_profiles, check_forbid_routes, check_harness_availability, check_harness_unavailable,
  check_review, check_route_exhausted, check_route_identity, check_route_state, each,
  harness_is_unavailable, route_is_exhausted,
}
use view_limits.Base.Sort.{sort_by}
use view_limits.Facts.{candidate_fact}
use view_limits.Examples.{lower_case, one_model, one_field, empty}

abbrev candidate : Value
candidate =
    obj (field "route" (obj (field "id" (str "r1") (field "state" (str "exhausted") end))) end)

abbrev usable_route : Value
usable_route = one_field "require" (one_field "usableRoute" (bool true))

abbrev model_policy : Value
model_policy = one_field "require" (one_field "models" (str "opus"))

evaluate-ineligible_iff_example :
    ((evaluate ⦃e = lower_case⦄ candidate empty one_model).result ≡ is_ineligible)
    ↔ Violation ⦃e = lower_case⦄ (read_inputs ⦃e = lower_case⦄ candidate empty one_model)
evaluate-ineligible_iff_example = evaluate-ineligible_iff ⦃e = lower_case⦄ candidate empty one_model

evaluate-eligible_iff_example :
    ((evaluate ⦃e = lower_case⦄ candidate usable_route one_model).result ≡ is_eligible) ↔ (
      (¬ Violation ⦃e = lower_case⦄ (read_inputs ⦃e = lower_case⦄ candidate usable_route one_model))
      × (¬ Unproven ⦃e = lower_case⦄
          (read_inputs ⦃e = lower_case⦄ candidate usable_route one_model)))
evaluate-eligible_iff_example =
    evaluate-eligible_iff ⦃e = lower_case⦄ candidate usable_route one_model

evaluate-reasons_example :
    Pairwise Precedes (evaluate ⦃e = lower_case⦄ candidate model_policy one_model).reasons
evaluate-reasons_example = evaluate-reasons ⦃e = lower_case⦄ candidate model_policy one_model

abbrev two_names : Items
two_names = cons (str "opus") (cons (str "sonnet") nil)

abbrev names_turned : Items
names_turned = cons (str "sonnet") (cons (str "opus") nil)

-- A policy that asks for a usable route with a truthy value other than `true` asks for nothing.
asked_by_text :
    (evaluate ⦃e = lower_case⦄ empty
      (one_field "require" (one_field "usableRoute" (str "yes")))
      one_model).result
    ≡ is_eligible
unfolding evaluate check_forbid_routes read_inputs req_list sort_by check_forbid_profiles
    check_forbid_models check_forbid_harnesses check_route_exhausted route_is_exhausted
    candidate_fact check_harness_unavailable harness_is_unavailable check_allowed_models
    check_allowed_harnesses check_route_identity check_route_state each check_harness_availability
    check_review
asked_by_text = refl
