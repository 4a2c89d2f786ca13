-- ===== src/Examples/Profiles.antt =====
-- The theorems on lib/task-profile.js, lib/jev-readiness.js and lib/jev-client.js at concrete inputs.
use mathlib.Core.List.{Memᴰ}
use view_limits.Base.{ℕ, ◌≡◌, refl, true, false, none, some, List, [], ◌∷◌, String, map, ◌↔◌}
use view_limits.Base.Text.{trim, fold}
use view_limits.Value.{Value, str, num, obj, field, end, arr, cons, nil, get, finite, Fields, bool}
use view_limits.Facts.{norm}
use view_limits.Profile.Dimensions.{
  Dimension, dimensions, unresolved, field_absent, is_resolved, word_of,
}
use view_limits.Profile.Build.{
  build_profile, find_dimension, candidate_in, is_informative, layer, layers_of,
}
use view_limits.Profile.Layers.{
  or_else, last_that, find_dimension_lem, IsBuilt, build_profile-IsBuilt,
}
use view_limits.Profile.Response.{
  validate_classifier_response, accepted, violations_of, is_named, invalid_dimensions,
  is_confidence, collect,
}
use view_limits.Profile.Words.{IsLowering}
use view_limits.Profile.Accepted.{Fits, is_accepted, validate_classifier_response_iff}
use view_limits.Profile.FromJev.{jev_profile, from_jev, jev_profile_complete}
use view_limits.Jev.{
  Json, Answer, answered, classified, classify, verified, verify_model_support, floor_of,
  judge_response, is_malformed, is_http_error, accept, num_lt, find_row, is_supported,
}
use view_limits.Jev.Verified.{Heard, classify-Heard}
use view_limits.Examples.{lower_case}

abbrev risk : Dimension
risk = record { name = "risk"; words = "low" ∷ "moderate" ∷ "high" ∷ [] }

-- The defaults give a risk, and the task itself gives one that no vocabulary has.
abbrev two_layers : List Value
two_layers =
    layer ⦃e = lower_case⦄ (obj (field "risk" (str " high ") end)) "configured" "default-policy"
    ∷ layer ⦃e = lower_case⦄ (obj (field "risk" (str "extreme") end)) "observed" "task-metadata"
    ∷ []

find_dimension_lem_example :
    find_dimension ⦃e = lower_case⦄ two_layers "task-profile" risk
    ≡ or_else
        (last_that is_resolved (map (candidate_in ⦃e = lower_case⦄ "task-profile" risk) two_layers))
        (or_else
          (last_that is_informative
            (map (candidate_in ⦃e = lower_case⦄ "task-profile" risk) two_layers))
          (unresolved field_absent))
find_dimension_lem_example = find_dimension_lem ⦃e = lower_case⦄ two_layers "task-profile" risk

build_profile-IsBuilt_example : IsBuilt ⦃e = lower_case⦄ (
    build_profile ⦃e = lower_case⦄
      (obj (field "values" (obj (field "risk" (str "low") end)) end))
      "task-profile")
build_profile-IsBuilt_example =
    build_profile-IsBuilt ⦃e = lower_case⦄
      (obj (field "values" (obj (field "risk" (str "low") end)) end)) "task-profile"

abbrev eight_words : Value
eight_words = obj (
    field "taskKind" (str "review") (
      field "exploration" (str "open") (
        field "specification" (str "vague") (
          field "reasoning" (str "deep") (
            field "risk" (str "low") (
              field "autonomy" (str "standard") (
                field "verification" (str "self-check")
                  (field "executionStyle" (str " batch") end))))))))

-- 0.75, in a response that suggests candidate `a`.
abbrev pub response : Value
response = obj (
    field "confidence" (num (finite false 3 2))
      (field "profile" eight_words (field "suggestedCandidateId" (str "a") end)))

validate_classifier_response_iff_example :
    is_accepted (validate_classifier_response ⦃e = lower_case⦄ response) ≡ true
    ↔ Fits ⦃e = lower_case⦄ response
validate_classifier_response_iff_example =
    validate_classifier_response_iff ⦃e = lower_case⦄ response

abbrev pub collected : Fields
collected = field "taskKind" (str "review") (
    field "exploration" (str "open") (
      field "specification" (str "vague") (
        field "reasoning" (str "deep") (
          field "risk" (str "low") (
            field "autonomy" (str "standard") (
              field "verification" (str "self-check")
                (field "executionStyle" (str "batch") end)))))))

pub lower_case-IsLowering : IsLowering lower_case
lower_case-IsLowering = record { keeps = λ s h. refl }

response_accepted :
    validate_classifier_response ⦃e = lower_case⦄ response
    ≡ accepted collected (num (finite false 3 2)) (some "a")
unfolding validate_classifier_response violations_of is_named invalid_dimensions is_confidence
    collect word_of norm fold trim dimensions
response_accepted = refl

jev_profile_complete_example :
    ((jev_profile ⦃e = lower_case⦄ collected).is_complete ≡ true)
    × ((d : Dimension)
        → Memᴰ d dimensions
        → (w : String) × (word_of ⦃e = lower_case⦄ d.words (get d.name (get "profile" response))
            ≡ some w)
          × (find_dimension ⦃e = lower_case⦄
                (layers_of
                  (arr (cons (layer ⦃e = lower_case⦄ (obj collected) "observed" "jev") nil)))
                "jev"
                d
              ≡ from_jev ⦃e = lower_case⦄ w))
jev_profile_complete_example =
    jev_profile_complete ⦃e = lower_case⦄ lower_case-IsLowering response collected
      (num (finite false 3 2)) (some "a") response_accepted

abbrev item : ℕ → Value
item n = obj (field "id" (num (finite false n 0)) (field "verdict" (str " pass") end))

-- The eleven items, all passed.
abbrev pub all_pass : Value
all_pass = arr (
    cons (item 1) (
      cons (item 2) (
        cons (item 3) (
          cons (item 4) (
            cons (item 5) (
              cons (item 6) (
                cons (item 7)
                  (cons (item 8) (cons (item 9) (cons (item 10) (cons (item 11) nil)))))))))))

abbrev pub no_json : Json
no_json = record { parse = λ s. none }

abbrev pub jev_config : Value
jev_config = obj (
    field "model" (str "jev-1")
      (field "baseUrl" (str "https://jev") (field "catalogUrl" (str "https://catalog") end)))

abbrev pub jev_answer : Answer
jev_answer = answered (obj (field "body" response end))

abbrev pub jev_catalog : Answer
jev_catalog = answered (
    obj (
      field "data"
        (arr
          (cons (obj (field "id" (str " jev-1") (field "structured_outputs" (bool true) end))) nil))
        end))

jev_heard :
    classify ⦃e = lower_case⦄ ⦃j = no_json⦄ jev_config (some jev_answer)
    ≡ classified collected (num (finite false 3 2)) (some "a")
unfolding classify floor_of judge_response is_malformed is_http_error accept num_lt
    validate_classifier_response violations_of is_named invalid_dimensions is_confidence collect
    word_of norm fold trim dimensions
jev_heard = refl

classify-Heard_example :
    Heard ⦃e = lower_case⦄ ⦃j = no_json⦄ jev_config
      (some jev_answer)
      collected
      (num (finite false 3 2))
      (some "a")
classify-Heard_example =
    classify-Heard ⦃e = lower_case⦄ ⦃j = no_json⦄ jev_config (some jev_answer) collected
      (num (finite false 3 2)) (some "a") jev_heard

jev_listed :
    verify_model_support ⦃e = lower_case⦄ jev_config (some jev_catalog) ≡ verified (str " jev-1")
unfolding verify_model_support find_row is_supported norm fold trim
jev_listed = refl
