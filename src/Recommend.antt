-- ===== src/Recommend.antt =====
-- lib/recommend.js: the readiness gate, the task profile, hard eligibility and the scores composed
-- into one advisory result.
pub mod Candidates
pub mod Outcome
pub mod Sound
pub mod Names
pub mod Ranked
pub mod Applied
use view_limits.Base.{
  ℕ, suc, Bool, true, false, not, ◌&&◌, ◌||◌, Option, none, some, List, [], ◌∷◌, ◌++◌, String,
  str_eq, if◌then◌else◌, is_empty, map, leb,
}
use Prim.Native.String
use view_limits.Base.Sort.{sort_by}
use view_limits.Base.Text.{Engine, text_le}
use view_limits.Value.{
  Value, undefined, null, str, bool, arr, obj, Fields, end, field, get, is_plain_object, is_true,
  Items, cons, nil,
}
use view_limits.Facts.{Fact, candidate_fact, is_the_text}
use view_limits.Registry.{Registry}
use view_limits.Eligibility.Verdict.{Verdict, Result, is_eligible, is_ineligible, is_unresolved}
use view_limits.Gate.Time.{Clockwork}
use view_limits.Score.{Scored, score_candidates}
use view_limits.Score as Scores
use view_limits.Score.Reasons.{Reason, Code, rank}
use view_limits.Profile.Dimensions.{Finding}
use view_limits.Profile.Build.{Profile, Entry, Gap, fallback_profile}
use view_limits.Profile.FromJev.{jev_profile}
use view_limits.Readiness.{Readiness, evaluate_readiness}
use view_limits.Jev.{
  Json, Answer, Classified, classified, unavailable, classify, Verification, verified, unverified,
  verify_model_support,
}
use view_limits.Recommend.Candidates.{
  Candidate, Judged, Disposed, dispose, find_judged, is_eligible_judgement, find_candidate,
  documents,
}
use view_limits.Recommend.Outcome.{
  JevStatus, Suggestion, JevSection, Parameters, Recommendation, MissingCode, Missing, Advice,
  profile_value, param_fact, parameters_of, source_of, top_of, missing_of, dormant, unreachable,
  applied, no_suggestion, unknown_candidate, ineligible_candidate, advisory, dimension_unresolved,
  facet_unresolved,
}

-- The arguments of `recommend`; a transport is given by what it answers.
pub record Request : Type 0 where
  pub task : Value
  pub candidates : Value
  pub policy : Value
  pub registry : Registry
  pub caller : Value
  pub readiness : Value
  pub model_verification : Value
  pub config : Value
  pub catalog : Option Answer
  pub transport : Option Answer
  pub now : Option ℕ

-- A missing or malformed policy is the strict default.
unfoldable pub policy_of : Value → Value
policy_of policy =
    if is_plain_object policy
    then policy
    else obj (
        field "require" (obj (field "route" (bool true) (field "usableRoute" (bool true) end))) end)

-- `isPlainObject(v) ? v : {}`.
abbrev plain_or_empty : Value → Value
plain_or_empty v = if is_plain_object v then v else obj end

-- `modelVerifiedFlag(v)`.
unfoldable pub model_verified_flag : Value → Bool
model_verified_flag v =
    is_true v
    || is_plain_object v && (is_true (get "verified" v) || is_the_text (get "status" v) "verified")

abbrev is_undefined : Value → Bool
is_undefined undefined = true
is_undefined _ = false

abbrev flag_of : Verification → Bool
flag_of (verified model) = true
flag_of (unverified why) = false

module _ ⦃e : Engine⦄ ⦃k : Clockwork⦄ ⦃j : Json⦄ where
  abbrev pub items_pass : Value → Bool
  items_pass readiness = is_empty (evaluate_readiness readiness false).not_passed

  -- Whether the model is verified: by the caller's evidence, or by the catalog when there is none
  -- and every item passes.
  unfoldable pub is_verified : Request → Bool
  unfolding model_verified_flag
  is_verified r =
      if is_undefined r.model_verification && items_pass r.readiness
      then flag_of (verify_model_support r.config r.catalog)
      else model_verified_flag r.model_verification

  unfoldable pub gate_of : Request → Readiness
  unfolding is_verified
  gate_of r = evaluate_readiness r.readiness (is_verified r)

  -- The outcome of the classification: none when the gate is closed.
  unfoldable pub heard_of : Request → Option Classified
  unfolding gate_of
  heard_of r = if (gate_of r).is_open then some (classify r.config r.transport) else none

  unfoldable pub profile_of : Option Classified → Request → Profile
  unfolding policy_of
  profile_of (some (classified fs c s)) r = jev_profile fs
  profile_of _ r = fallback_profile r.task (policy_of r.policy)

  abbrev judged_suggestion : String → Option Judged → Suggestion
  judged_suggestion id none = unknown_candidate id
  judged_suggestion id (some v) =
      if is_eligible_judgement v.judgement then advisory id else ineligible_candidate id

  unfoldable pub suggestion_of : Option Classified → List Judged → Suggestion
  suggestion_of (some (classified fs c (some id))) all = judged_suggestion id (find_judged id all)
  suggestion_of _ all = no_suggestion

  unfoldable pub section_of : Option Classified → Request → List Judged → JevSection
  unfolding suggestion_of
  section_of none r all = record {
    attempted = false;
    status = dormant;
    reason =
        some
          (if items_pass r.readiness then "jev-model-unverified" else "jev-readiness-gate-closed");
    suggestion = no_suggestion;
  }
  section_of (some (unavailable why)) r all = record {
    attempted = true;
    status = unreachable;
    reason = some why;
    suggestion = no_suggestion;
  }
  section_of (some (classified fs c s)) r all = record {
    attempted = true;
    status = applied;
    reason = none;
    suggestion = suggestion_of (some (classified fs c s)) all;
  }

  unfoldable pub disposed_of : Request → Disposed
  unfolding policy_of
  disposed_of r = dispose (policy_of r.policy) r.registry (Scores.candidate_list r.candidates)

  unfoldable pub scored_of : Request → Option (List Scored)
  unfolding heard_of profile_of disposed_of
  scored_of r =
      score_candidates (documents (disposed_of r).eligible)
        (profile_value (profile_of (heard_of r) r)) (policy_of r.policy) r.registry
        (plain_or_empty r.caller) r.now

  unfoldable pub advice_of : Option (List Scored) → Request → Option Advice
  unfolding heard_of profile_of disposed_of gate_of section_of top_of missing_of
  advice_of none r = none
  advice_of (some ss) r = some (record {
    readiness = gate_of r;
    jev = section_of (heard_of r) r (disposed_of r).all;
    task_profile = profile_of (heard_of r) r;
    recommendation = top_of ss (disposed_of r).eligible;
    scored = ss;
    undecided = (disposed_of r).undecided;
    rejected = (disposed_of r).rejected;
    missing = missing_of (profile_of (heard_of r) r) ss;
  })

  -- `recommend(…)`: none where `scoreCandidates` throws.
  unfoldable pub recommend : Request → Option Advice
  unfolding advice_of
  recommend r = advice_of (scored_of r) r
