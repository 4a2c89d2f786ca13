-- ===== src/Profile/Response.antt =====
-- lib/task-profile.js: `validateClassifierResponse`.
use view_limits.Base.{
  ◌^◌, Bool, true, false, not, ◌||◌, Option, none, some, List, [], ◌∷◌, ◌++◌, String, if◌then◌else◌,
  is_empty, leb, ◌==◌,
}
use Prim.Native.String
use view_limits.Base.Sort.{sort_by}
use view_limits.Base.Text.{Engine, text_le}
use view_limits.Value.{
  Value, undefined, str, num, Fields, end, field, get, is_plain_object, is_text, text_of, finite,
}
use view_limits.Profile.Dimensions.{Dimension, dimensions, word_of, or_text}

-- `typeof conf === 'number' && Number.isFinite(conf) && !(conf < 0 || conf > 1)`.
unfoldable pub is_confidence : Value → Bool
is_confidence (num (finite negative m k)) = if negative then m == 0 else leb m (2 ^ k)
is_confidence _ = false

abbrev is_undefined : Value → Bool
is_undefined undefined = true
is_undefined _ = false

-- `raw.suggestedCandidateId !== undefined && !nonEmptyString(raw.suggestedCandidateId)`, negated.
abbrev pub is_suggestion : Value → Bool
is_suggestion v = is_undefined v || is_text v

pub data Response : Type 0 where
  accepted : (profile : Fields) → (confidence : Value) → (suggested : Option String) → Response
  refused : (violations : List String) → Response

abbrev pub is_there : Option String → Bool
is_there none = false
is_there (some s) = true

abbrev when : Bool → String → List String
when b s = if b then s ∷ [] else []

module _ ⦃e : Engine⦄ where
  unfoldable pub is_named : Value → Dimension → Bool
  is_named profile d = is_there (word_of d.words (get d.name profile))

  unfoldable pub invalid_dimensions : Value → List Dimension → List String
  unfolding is_named
  invalid_dimensions profile [] = []
  invalid_dimensions profile (d ∷ ds) =
      when (not (is_named profile d)) (String.◌++◌ "profile." (String.◌++◌ d.name "-invalid"))
      ++ invalid_dimensions profile ds

  -- The pushes onto `violations`.
  unfoldable pub violations_of : Value → List String
  unfolding is_confidence invalid_dimensions
  violations_of raw =
      when (not (is_confidence (get "confidence" raw))) "confidence-invalid"
      ++ (if is_plain_object (get "profile" raw)
          then invalid_dimensions (get "profile" raw) dimensions
          else "profile-not-object" ∷ [])
      ++ when (not (is_suggestion (get "suggestedCandidateId" raw))) "suggestedCandidateId-invalid"

  -- `dimensions[name] = prof[name].trim().toLowerCase()`.
  unfoldable pub collect : Value → List Dimension → Fields
  collect profile [] = end
  collect profile (d ∷ ds) =
      field d.name (str (or_text (word_of d.words (get d.name profile)) "")) (collect profile ds)

  -- `validateClassifierResponse(raw)`.
  unfoldable pub validate_classifier_response : Value → Response
  unfolding violations_of collect
  validate_classifier_response raw =
      if not (is_plain_object raw)
      then refused ("response-not-object" ∷ [])
      else if not (is_empty (violations_of raw))
      then refused (sort_by text_le (violations_of raw))
      else accepted (collect (get "profile" raw) dimensions) (get "confidence" raw)
          (text_of (get "suggestedCandidateId" raw))
