-- ===== src/Score/Facets.antt =====
-- lib/score-candidates.js: the six scorers. Each gives a facet; contributions are whole
-- milli-points, so a rounded quotient is written with integers.
use Prim.Native.String
use view_limits.Base.{
  ℕ, zero, suc, ◌+◌, ◌*◌, ◌/◌, Bool, false, not, ◌&&◌, ◌||◌, Option, none, some, List, [], ◌∷◌,
  ◌++◌, String, str_eq, if◌then◌else◌, includes, length,
}
use view_limits.Base.Sort.{sort_by}
use view_limits.Base.Text.{Engine, is_blank, text_le}
use view_limits.Value.{Value, get, is_plain_object, is_nullish, text_of}
use view_limits.Facts.{Fact, field_fact, fact_is_known, known_string_set, norm, is_the_text}
use view_limits.Registry.{Registry, ModelEntry}
use view_limits.Score.Reasons.{
  Code, Reason, task_kind_unproven, model_capabilities_unproven, task_capability_covered,
  task_capability_uncovered,
}

pub data Status : Type 0 where
  scored unresolved : Status

-- What a scorer returns.
pub record Facet : Type 0 where
  pub status : Status
  pub contribution : ℕ
  pub reasons : List Reason

abbrev pub because : Code → String → Reason
because code scope = record { code = code; scope = scope }

abbrev pub gives : ℕ → List Reason → Facet
gives n rs = record { status = scored; contribution = n; reasons = rs }

abbrev pub open_with : List Reason → Facet
open_with rs = record { status = unresolved; contribution = 0; reasons = rs }

-- `ctx`.
pub record Evidence : Type 0 where
  pub profile : Value
  pub preferences : Value
  pub review : Value
  pub model_entry : Option ModelEntry
  pub declared_task_caps : Fact
  pub declared_family : Fact
  pub harness : Fact
  pub caller_harness : Fact
  pub route_id : Fact
  pub route_state : Fact
  pub route_fresh : Fact
  pub now : Option ℕ
  pub cost : Fact
  pub speed : Fact
  pub candidate_profile : Fact
  pub caller_profile : Fact
  pub caller_account : Fact

abbrev entry_of : Registry → Fact → Option ModelEntry
entry_of reg model = if fact_is_known model then reg.lookup_model model.value else none

unfoldable pub read_evidence : Value → Value → Value → Registry → Value → Option ℕ → Evidence
read_evidence candidate profile policy reg caller now =
    let route = get "route" candidate in
    record {
      profile = profile;
      preferences = get "preferences" policy;
      review = get "review" policy;
      model_entry = entry_of reg (field_fact (get "model" candidate) "candidate");
      declared_task_caps = field_fact (get "taskCapabilities" candidate) "candidate";
      declared_family = field_fact (get "family" candidate) "candidate";
      harness = field_fact (get "harness" candidate) "candidate";
      caller_harness = field_fact (get "harness" caller) "caller";
      route_id = field_fact (get "id" route) "candidate";
      route_state = field_fact (get "state" route) "candidate";
      route_fresh = field_fact (get "freshUntil" route) "candidate";
      now = now;
      cost = field_fact (get "costTier" candidate) "candidate";
      speed = field_fact (get "speedTier" candidate) "candidate";
      candidate_profile = field_fact (get "profile" candidate) "candidate";
      caller_profile = field_fact (get "selectedProfile" caller) "caller";
      caller_account = field_fact (get "selectedAccount" caller) "caller";
    }

-- `nonEmptyString(fact.reason) ? fact.reason : other`.
abbrev pub why_of : Fact → String → String
why_of f other = elim f.reason [ none ↦ other | some r ↦ if is_blank r then other else r ]

-- `prefix:rest`.
abbrev pub scope_of : String → String → String
scope_of prefix rest = String.◌++◌ prefix (String.◌++◌ ":" rest)

-- `factIsKnown(f)` of a value that may be any document.
unfoldable pub is_known_value : Value → Bool
is_known_value f =
    is_plain_object f
    && (not (is_the_text (get "provenance" f) "unknown") && not (is_nullish (get "value" f)))

module _ ⦃e : Engine⦄ where
  unfoldable pub known_name : Value → Option String
  unfolding is_known_value norm
  known_name f = if is_known_value f then norm (get "value" f) else none

  abbrev reads : Value → String → Bool
  reads f name = elim (known_name f) [ none ↦ false | some n ↦ str_eq n name ]

-- `TASK_CAPABILITY_MAP[kind] || []` as the argument of `new Set`: none where that throws, which it
-- does for the two lowercase names that every object inherits, since neither value is iterable.
unfoldable pub needs_of : String → Option (List String)
needs_of kind =
    if str_eq kind "constructor" || str_eq kind "__proto__"
    then none
    else if str_eq kind "code" || str_eq kind "documentation"
    then some ("code" ∷ [])
    else if str_eq kind "review"
    then some ("review" ∷ [])
    else if str_eq kind "planning"
    then some ("planning" ∷ [])
    else if str_eq kind "research"
    then some ("long-context" ∷ [])
    else if str_eq kind "operations"
    then some ("tool-use" ∷ [])
    else if str_eq kind "mixed"
    then some ("code" ∷ "tool-use" ∷ [])
    else some []

-- `needed.add(name)`.
abbrev add_need : Bool → String → List String → List String
add_need wanted name needed =
    if wanted && not (includes needed name) then needed ++ name ∷ [] else needed

unfoldable pub count_covered : List String → List String → ℕ
count_covered caps [] = 0
count_covered caps (n ∷ ns) = (if includes caps n then 1 else 0) + count_covered caps ns

abbrev coverage_reasons : List String → List String → List Reason
coverage_reasons caps [] = []
coverage_reasons caps (n ∷ ns) =
    because (if includes caps n then task_capability_covered else task_capability_uncovered)
      (scope_of "capability" n)
    ∷ coverage_reasons caps ns

-- `Math.round((covered / size) * 1000)`: at most four capabilities are needed, so no half occurs.
unfoldable pub share : ℕ → ℕ → ℕ
share covered zero = 1000
share covered (suc n) = (2000 * covered + suc n) / (2 * suc n)

unfoldable pub covers : List String → List String → Facet
unfolding share count_covered
covers caps needed =
    gives (share (count_covered caps needed) (length needed)) (coverage_reasons caps needed)

abbrev reason_text : Value → String → String
reason_text f other = elim (text_of (get "reason" f)) [ none ↦ other | some r ↦ r ]

module _ ⦃e : Engine⦄ where
  abbrev pub caps_of : Evidence → Option (List String)
  caps_of x = elim x.model_entry [
    | none ↦ known_string_set x.declared_task_caps
    | some m ↦ some m.task_capabilities
  ]

  abbrev pub all_needs : Value → List String → List String
  all_needs dimensions needed = sort_by text_le (
      add_need (reads (get "verification" dimensions) "independent-review") "review"
        (add_need (reads (get "reasoning" dimensions) "deep") "reasoning" needed))

  unfoldable pub fit_with : Evidence → List String → Option (List String) → Facet
  unfolding covers
  fit_with x needed none = open_with (because model_capabilities_unproven "model" ∷ [])
  fit_with x needed (some caps) = covers caps (all_needs (get "dimensions" x.profile) needed)

  unfoldable pub fit_of : Evidence → List String → Facet
  unfolding fit_with
  fit_of x needed = fit_with x needed (caps_of x)

  unfoldable pub fit_needing : Evidence → Option (List String) → Option Facet
  unfolding fit_of
  fit_needing x none = none
  fit_needing x (some needed) = some (fit_of x needed)

  unfoldable pub fit_for : Evidence → Value → Option String → Option Facet
  unfolding needs_of fit_needing
  fit_for x fact none = some (
      open_with (
        because task_kind_unproven
          (scope_of "profile" (reason_text fact "task-profile-field-absent"))
        ∷ []))
  fit_for x fact (some kind) = fit_needing x (needs_of kind)

  -- `scoreTaskFit`: none where it throws.
  unfoldable pub score_task_fit : Evidence → Option Facet
  unfolding fit_for
  score_task_fit x =
      let fact = get "taskKind" (get "dimensions" x.profile) in fit_for x fact (known_name fact)
