-- ===== src/Jev.antt =====
-- lib/jev-client.js: what the classifier and the model catalog answer, read into a classification
-- and a verification. The transports are parameters: an answer, or the error that was thrown.
pub mod Verified
use view_limits.Base.{
  ℕ, ◌^◌, ◌*◌, Bool, true, false, not, ◌&&◌, ◌||◌, Option, none, some, List, [], ◌∷◌, String,
  str_eq, if◌then◌else◌, ltb, ◌==◌, any, includes,
}
use view_limits.Base.Text.{Engine, fold}
use view_limits.Value.{
  Value, str, num, arr, obj, undefined, null, Fields, items, get, has_field, is_plain_object,
  is_text, text_of, is_true, truthy, Number, finite, nan,
}
use view_limits.Facts.{is_the_text, norm}
use view_limits.Profile.Response.{Response, accepted, refused, validate_classifier_response}

-- `JSON.parse`: none where it throws.
pub record Json : Type 0 where
  pub parse : String → Option Value

-- What `await transport(…)` gives.
pub data Answer : Type 0 where
  threw : (error : Value) → Answer
  answered : (response : Value) → Answer

-- What `classify` resolves to.
pub data Classified : Type 0 where
  classified : (profile : Fields) → (confidence : Value) → (suggested : Option String) → Classified
  unavailable : (reason : String) → Classified

-- `a < b` for finite numbers: m / 2 ^ k with a sign.
unfoldable pub num_lt : Number → Number → Bool
num_lt (finite false m k) (finite false n l) = ltb (m * 2 ^ l) (n * 2 ^ k)
num_lt (finite false m k) (finite true n l) = false
num_lt (finite true m k) (finite false n l) = not (m == 0 && n == 0)
num_lt (finite true m k) (finite true n l) = ltb (n * 2 ^ k) (m * 2 ^ l)
num_lt a b = false

-- `Number.isFinite(v) ? v : null`.
abbrev pub finite_of : Value → Option Number
finite_of (num (finite s m k)) = some (finite s m k)
finite_of _ = none

abbrev whole : ℕ → Number
whole n = finite false n 0

-- `MIN_CONFIDENCE`, the double nearest to 0.6.
abbrev pub min_confidence : Number
min_confidence = finite false 5404319552844595 53

abbrev number_or : Option Number → Number → Number
number_or none n = n
number_or (some n) other = n

unfoldable pub floor_of : Value → Number
floor_of config = number_or (finite_of (get "minConfidence" config)) min_confidence

-- The tests of the two `catch` clauses for an error of a timeout.
unfoldable pub is_timeout : Value → Bool
is_timeout e =
    truthy e
    && (is_true (get "timedOut" e)
        || (is_the_text (get "code" e) "JEV_TIMEOUT" || is_the_text (get "name" e) "TimeoutError"))

abbrev has_member : String → Value → Bool
has_member name (obj fs) = has_field name fs
has_member name _ = false

-- A response with none of `body`, `statusCode` and `status`.
unfoldable pub is_malformed : Value → Bool
is_malformed res =
    not (is_plain_object res)
    || not (has_member "body" res)
      && (not (has_member "statusCode" res) && not (has_member "status" res))

abbrev first_of : Option Number → Option Number → Option Number
first_of none b = b
first_of (some a) b = some a

abbrev is_outside : Option Number → Bool
is_outside none = false
is_outside (some n) = num_lt n (whole 200) || not (num_lt n (whole 300))

-- `statusCode !== null && (statusCode < 200 || statusCode >= 300)`.
unfoldable pub is_http_error : Value → Bool
unfolding num_lt
is_http_error res =
    is_outside (first_of (finite_of (get "statusCode" res)) (finite_of (get "status" res)))

abbrev pub below : Value → Number → Bool
below (num n) floor = num_lt n floor
below _ floor = false

module _ ⦃e : Engine⦄ ⦃j : Json⦄ where
  abbrev pub parsed : Value → Option Value
  parsed (str s) = j.parse s
  parsed v = some v

  -- `validated.confidence < floor`, and the result when it is not.
  unfoldable pub accept : Response → Number → Classified
  unfolding num_lt
  accept (refused vs) floor = unavailable "jev-response-schema-invalid"
  accept (accepted profile confidence suggested) floor =
      if below confidence floor
      then unavailable "jev-low-confidence"
      else classified profile confidence suggested

  abbrev pub judge_payload : Option Value → Number → Classified
  judge_payload none floor = unavailable "jev-response-malformed"
  judge_payload (some v) floor =
      if is_plain_object v
      then accept (validate_classifier_response v) floor
      else unavailable "jev-response-malformed"

  unfoldable pub judge_response : Value → Number → Classified
  unfolding is_malformed is_http_error accept
  judge_response res floor =
      if is_plain_object res && is_true (get "timedOut" res)
      then unavailable "jev-timeout"
      else if is_malformed res
      then unavailable "jev-response-malformed"
      else if is_http_error res
      then unavailable "jev-http-error"
      else judge_payload (parsed (get "body" res)) floor

  abbrev judge_answer : Option Answer → Number → Classified
  unfolding is_timeout judge_response
  judge_answer none floor = unavailable "jev-transport-absent"
  judge_answer (some (threw e)) floor =
      if is_timeout e then unavailable "jev-timeout" else unavailable "jev-unreachable"
  judge_answer (some (answered res)) floor = judge_response res floor

  -- `classify({ task, config, io })`, given what its transport answers.
  unfoldable pub classify : Value → Option Answer → Classified
  unfolding floor_of judge_response is_timeout
  classify config transport =
      if not (is_text (get "model" config))
      then unavailable "jev-model-unconfigured"
      else if not (is_text (get "baseUrl" config))
      then unavailable "jev-endpoint-unconfigured"
      else judge_answer transport (floor_of config)

-- What `verifyModelSupport` resolves to.
pub data Verification : Type 0 where
  verified : (model : Value) → Verification
  unverified : (reason : String) → Verification

module _ ⦃e : Engine⦄ where
  abbrev pub same_name : Option String → Option String → Bool
  same_name (some a) (some b) = str_eq a b
  same_name _ _ = false

  -- The test of `rows.find`, and `rows.find` itself.
  unfoldable pub find_row : Option String → List Value → Option Value
  find_row wanted [] = none
  find_row wanted (r ∷ rs) =
      let rest = find_row wanted rs in
      if is_plain_object r && same_name (norm (get "id" r)) wanted then some r else rest

  abbrev supports : Option String → Bool
  supports none = false
  supports (some p) = includes ("response_format" ∷ "structured_outputs" ∷ "json_schema" ∷ []) p

  abbrev list_of : Value → List Value
  list_of (arr vs) = items vs
  list_of _ = []

  unfoldable pub is_supported : Value → Bool
  is_supported entry =
      is_true (get "structured_outputs" entry)
      || any (λ p. supports (norm p)) (list_of (get "supported_parameters" entry))

  abbrev pub judge_row : Option Value → Verification
  judge_row none = unverified "jev-model-not-in-catalog"
  judge_row (some entry) =
      if is_supported entry
      then verified (get "id" entry)
      else unverified "jev-structured-output-unverified"

  abbrev pub rows_of : Value → Option (List Value)
  rows_of (arr vs) = some (items vs)
  rows_of _ = none

  abbrev pub judge_rows : Option (List Value) → Option String → Verification
  judge_rows none wanted = unverified "jev-catalog-malformed"
  judge_rows (some rows) wanted = judge_row (find_row wanted rows)

  abbrev judge_catalog : Option Answer → Option String → Verification
  judge_catalog none wanted = unverified "jev-catalog-transport-absent"
  judge_catalog (some (threw e)) wanted =
      if is_timeout e
      then unverified "jev-catalog-timeout"
      else unverified "jev-catalog-unreachable"
  judge_catalog (some (answered catalog)) wanted = judge_rows (rows_of (get "data" catalog)) wanted

  -- `verifyModelSupport({ config, io })`, given what its transport answers.
  unfoldable pub verify_model_support : Value → Option Answer → Verification
  unfolding is_timeout find_row is_supported
  verify_model_support config catalog =
      if not (is_text (get "model" config))
      then unverified "jev-model-unconfigured"
      else if not (is_text (get "catalogUrl" config))
      then unverified "jev-endpoint-unconfigured"
      else judge_catalog catalog (norm (get "model" config))
