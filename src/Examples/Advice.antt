-- ===== src/Examples/Advice.antt =====
-- The theorems on lib/recommend.js at concrete inputs.
use view_limits.Base.{◌≡◌, refl, true, none, some, ◌↔◌}
use view_limits.Value.{Value, str, arr, cons, nil, undefined}
use view_limits.Recommend.{Request}
use view_limits.Recommend.Outcome.{Advice, applied}
use view_limits.Recommend.Ranked.{IsAdvised, recommend-IsAdvised}
use view_limits.Recommend.Applied.{recommend-attempted, IsApplied, recommend-IsApplied}
use view_limits.Readiness.Opening.{IsReady}
use view_limits.Examples.{lower_case, one_model, empty, no_clockwork, one_field}
use view_limits.Examples.Profiles.{
  lower_case-IsLowering, all_pass, no_json, jev_config, jev_answer, jev_catalog,
}
use view_limits.Eligibility.Inputs.{
  req_list, name_set, proven_positive, canonical_family, candidate_family, subject_family,
  read_inputs,
}
use view_limits.Eligibility.Checks.{
  each, has_skill, check_forbid_routes, check_forbid_profiles, route_is_exhausted,
  route_proven_usable, harness_is_unavailable, harness_proven_available, check_route_exhausted,
  check_harness_unavailable, check_route_state, check_harness_availability, declared_capability,
  check_task_capability, check_execution_capability, check_skill, check_forbid_models,
  check_forbid_harnesses, check_allowed_models, check_allowed_harnesses, check_route_identity,
  check_review,
}
use view_limits.Eligibility.Verdict.{
  same_reason, add_reason, push, push_all, pushes, conclude, judge, evaluate,
}
use view_limits.Facts.{
  unknown, observed_fact, field_fact, candidate_fact, fact_is_known, known_string, norm, add_name,
  add_names, known_string_set,
}
use view_limits.Base.Text.{trim, fold}
use view_limits.Base.Sort.{sort_by}
use view_limits.Recommend.Candidates.{
  id_or_index, candidate_id, with_ids, count_id, is_duplicate, find_judged, find_candidate,
  documents_in, documents, judgement_of, judge_all, dispose,
}
use view_limits.Recommend.{
  policy_of, model_verified_flag, is_verified, gate_of, heard_of, profile_of, suggestion_of,
  section_of, disposed_of, scored_of, advice_of, recommend,
}
use view_limits.Recommend.Outcome.{profile_value, param_fact, parameters_of, top_of, missing_of}
use view_limits.Score.{
  scored_of as scored_of_in_score, weighted, dimension_of, total, total_weight, max_total, turns_of,
  scored_with, score_candidate, score_all, score_candidates,
}
use view_limits.Readiness.{
  readiness_items, has_number, is_required, find_item, extras_of, required_items, not_pass,
  norm_item, items_of, normalized, evaluate_readiness,
}
use view_limits.Jev.{
  num_lt, floor_of, is_timeout, is_malformed, is_http_error, accept, judge_response, classify,
  find_row, is_supported, verify_model_support,
}
use view_limits.Profile.Dimensions.{dimensions, is_resolved, word_of, dimension_fact}
use view_limits.Profile.Build.{
  layers_of, is_informative, refine, refine_all, candidate_in, find_dimension, entries, resolved_of,
  gaps_of, build_profile, metadata_of, defaults_of, fallback_profile,
}
use view_limits.Profile.Response.{
  is_confidence, is_named, invalid_dimensions, violations_of, collect, validate_classifier_response,
}
use view_limits.Profile.FromJev.{jev_profile}
use view_limits.Score.Facets.{
  read_evidence, is_known_value, known_name, needs_of, count_covered, share, covers, fit_with,
  fit_of, fit_needing, fit_for, score_task_fit,
}
use view_limits.Score.Scorers.{
  score_harness_affinity, discount, pressure_of, pressure_at, score_resource_pressure, cost_tiers,
  speed_tiers, mean_of, combine, score_cost_speed, score_continuity, compare_families,
  score_review_independence,
}

abbrev two_candidates : Value
two_candidates = arr (cons (one_field "id" (str "a")) (cons (one_field "harness" (str "cli")) nil))

-- Every item passes, the catalog lists the model, and the classifier suggests candidate `a`.
abbrev request : Request
request = record {
  task = empty;
  candidates = two_candidates;
  policy = empty;
  registry = one_model;
  caller = empty;
  readiness = all_pass;
  model_verification = undefined;
  config = jev_config;
  catalog = some jev_catalog;
  transport = some jev_answer;
  now = none;
}

there :
    (out : Advice) × (recommend ⦃e = lower_case⦄ ⦃k = no_clockwork⦄ ⦃j = no_json⦄ request
      ≡ some out)
    × (out.jev.status ≡ applied)
unfolding req_list name_set proven_positive canonical_family candidate_family subject_family
    read_inputs each has_skill check_forbid_routes check_forbid_profiles route_is_exhausted
    route_proven_usable harness_is_unavailable harness_proven_available check_route_exhausted
    check_harness_unavailable check_route_state check_harness_availability declared_capability
    check_task_capability check_execution_capability check_skill check_forbid_models
    check_forbid_harnesses check_allowed_models check_allowed_harnesses check_route_identity
    check_review same_reason add_reason push push_all pushes conclude judge evaluate unknown
    observed_fact field_fact candidate_fact fact_is_known known_string norm add_name add_names
    known_string_set trim fold sort_by id_or_index candidate_id with_ids count_id is_duplicate
    find_judged find_candidate documents_in documents judgement_of judge_all dispose policy_of
    model_verified_flag profile_value param_fact parameters_of top_of missing_of is_verified gate_of
    heard_of profile_of suggestion_of section_of disposed_of scored_of scored_of_in_score advice_of
    recommend readiness_items has_number is_required find_item extras_of required_items not_pass
    norm_item items_of normalized evaluate_readiness num_lt floor_of is_timeout is_malformed
    is_http_error accept judge_response classify find_row is_supported verify_model_support
    dimensions is_resolved word_of dimension_fact layers_of is_informative refine refine_all
    candidate_in find_dimension entries resolved_of gaps_of build_profile metadata_of defaults_of
    fallback_profile is_confidence is_named invalid_dimensions violations_of collect
    validate_classifier_response jev_profile weighted dimension_of total total_weight max_total
    turns_of scored_with score_candidate score_all score_candidates read_evidence is_known_value
    known_name needs_of count_covered share covers fit_with fit_of fit_needing fit_for
    score_task_fit score_harness_affinity discount pressure_of pressure_at score_resource_pressure
    cost_tiers speed_tiers mean_of combine score_cost_speed score_continuity compare_families
    score_review_independence
there = (_, refl, refl)

recommend-IsAdvised_example :
    IsAdvised ⦃e = lower_case⦄ ⦃k = no_clockwork⦄ ⦃j = no_json⦄ request there.0
recommend-IsAdvised_example =
    recommend-IsAdvised ⦃e = lower_case⦄ ⦃k = no_clockwork⦄ ⦃j = no_json⦄ request there.0 there.1

recommend-attempted_example : there.0.jev.attempted ≡ true ↔ (
    (is_verified ⦃e = lower_case⦄ ⦃k = no_clockwork⦄ ⦃j = no_json⦄ request ≡ true)
    × IsReady ⦃e = lower_case⦄ (items_of ⦃e = lower_case⦄ all_pass))
recommend-attempted_example =
    recommend-attempted ⦃e = lower_case⦄ ⦃k = no_clockwork⦄ ⦃j = no_json⦄ request there.0 there.1

recommend-IsApplied_example :
    IsApplied ⦃e = lower_case⦄ ⦃k = no_clockwork⦄ ⦃j = no_json⦄ request there.0
recommend-IsApplied_example =
    recommend-IsApplied ⦃e = lower_case⦄ ⦃k = no_clockwork⦄ ⦃j = no_json⦄ lower_case-IsLowering
      request there.0 there.1 there.2
