-- ===== src/Eligibility/Checks.antt =====
-- lib/eligibility.js: the checks of `evaluate`, one function for each section of it, in order.
-- A check is the list of its calls of `push`.
use Prim.Native.String
use view_limits.Base.{
  ℕ, Bool, true, false, not, ◌&&◌, ◌||◌, Option, none, some, List, [], ◌∷◌, ◌++◌, String, str_eq,
  if◌then◌else◌, is_empty, any, includes,
}
use view_limits.Base.Text.{fold, Engine}
use view_limits.Value.{is_false}
use view_limits.Facts.{Fact, fact_is_known, known_string, known_string_set, norm}
use view_limits.Eligibility.Inputs.{Inputs, proven_positive}

-- The codes of `REASON_ORDER`: violated hard constraints, then evidence that is not proven.
pub data Code : Type 0 where
  route_forbidden profile_forbidden model_forbidden harness_forbidden : Code
  route_exhausted harness_unavailable harness_not_allowed model_not_allowed : Code
  model_capability_missing execution_capability_missing required_skill_missing : Code
  review_same_family : Code
  route_identity_unproven route_state_unproven profile_identity_unproven : Code
  model_identity_unproven model_capability_unproven harness_identity_unproven : Code
  harness_availability_unproven execution_capability_unproven required_skill_unproven : Code
  family_unproven : Code

-- `REASON_RANK`.
abbrev pub rank : Code → ℕ
rank route_forbidden = 0
rank profile_forbidden = 1
rank model_forbidden = 2
rank harness_forbidden = 3
rank route_exhausted = 4
rank harness_unavailable = 5
rank harness_not_allowed = 6
rank model_not_allowed = 7
rank model_capability_missing = 8
rank execution_capability_missing = 9
rank required_skill_missing = 10
rank review_same_family = 11
rank route_identity_unproven = 12
rank route_state_unproven = 13
rank profile_identity_unproven = 14
rank model_identity_unproven = 15
rank model_capability_unproven = 16
rank harness_identity_unproven = 17
rank harness_availability_unproven = 18
rank execution_capability_unproven = 19
rank required_skill_unproven = 20
rank family_unproven = 21

-- `push(ineligible, code, scope)` and `push(unresolved, code, scope)`.
pub data Push : Type 0 where
  ineligible : Code → String → Push
  unresolved : Code → String → Push

abbrev pub scoped : String → String → String
scoped kind name = String.◌++◌ kind name

-- The literal name that a scope shows; read only where the name is known.
abbrev pub literal : Fact → String
literal f = elim (known_string f) [ none ↦ "" | some s ↦ s ]

abbrev pub or_candidate : Option String → String
or_candidate none = "candidate"
or_candidate (some id) = id

-- A `for` loop over names.
unfoldable pub each : (String → List Push) → List String → List Push
each f [] = []
each f (x ∷ xs) = f x ++ each f xs

-- `USABLE_ROUTE_STATES` and `AVAILABLE_VOCAB`.
abbrev pub usable_route_states : List String
usable_route_states = "healthy" ∷ "constrained" ∷ []

abbrev pub available_vocab : List String
available_vocab = "available" ∷ []

-- `intersects(setA, listB)`.
abbrev pub intersects : List String → List String → Bool
intersects set list = any (includes set) list

-- `norm(v) === s`.
abbrev pub is_norm : Option String → String → Bool
is_norm none s = false
is_norm (some n) s = str_eq n s

unfoldable pub has_skill : Option (List String) → String → Bool
has_skill none skill = false
has_skill (some skills) skill = includes skills skill

abbrev pub harness_skills : Inputs → Option (List String)
harness_skills i = elim i.harness_entry [ none ↦ none | some h ↦ some h.skills ]

abbrev pub is_known_list : Option (List String) → Bool
is_known_list none = false
is_known_list (some skills) = true

module _ ⦃e : Engine⦄ where
  unfoldable pub check_forbid_routes : Inputs → List Push
  check_forbid_routes i = if is_empty i.forbid_routes then [] else elim (known_string i.route_id) [
    | none ↦ []
    | some id ↦
        if includes i.forbid_routes (fold id)
        then ineligible route_forbidden (scoped "route:" id) ∷ []
        else []
  ]

  unfoldable pub check_forbid_profiles : Inputs → List Push
  check_forbid_profiles i =
      if is_empty i.forbid_profiles then [] else elim (known_string i.profile) [
        | none ↦ unresolved profile_identity_unproven "profile" ∷ []
        | some id ↦
            if includes i.forbid_profiles (fold id)
            then ineligible profile_forbidden (scoped "profile:" id) ∷ []
            else []
      ]

  unfoldable pub route_is_exhausted : Inputs → Bool
  unfolding fact_is_known norm
  route_is_exhausted i =
      fact_is_known i.route_state && is_norm (norm i.route_state.value) "exhausted"

  unfoldable pub route_proven_usable : Inputs → Bool
  unfolding fact_is_known proven_positive
  route_proven_usable i =
      fact_is_known i.route_state && proven_positive i.route_state.value usable_route_states

  unfoldable pub harness_is_unavailable : Inputs → Bool
  unfolding fact_is_known norm
  harness_is_unavailable i =
      fact_is_known i.harness_available
      && (is_false i.harness_available.value
          || is_norm (norm i.harness_available.value) "unavailable")

  unfoldable pub harness_proven_available : Inputs → Bool
  unfolding fact_is_known proven_positive
  harness_proven_available i =
      fact_is_known i.harness_available && proven_positive i.harness_available.value available_vocab

  unfoldable pub check_route_exhausted : Inputs → List Push
  check_route_exhausted i =
      if route_is_exhausted i
      then ineligible route_exhausted (scoped "route:" (or_candidate (known_string i.route_id)))
        ∷ []
      else []

  unfoldable pub check_harness_unavailable : Inputs → List Push
  check_harness_unavailable i =
      if harness_is_unavailable i
      then ineligible harness_unavailable
          (scoped "harness:" (or_candidate (known_string i.harness)))
        ∷ []
      else []

  unfoldable pub check_route_state : Inputs → List Push
  check_route_state i =
      if i.need_route_state && not (route_is_exhausted i) && not (route_proven_usable i)
      then unresolved route_state_unproven "route" ∷ []
      else []

  unfoldable pub check_harness_availability : Inputs → List Push
  check_harness_availability i =
      if not (is_empty i.req_harnesses && is_empty i.req_exec_caps)
        && not (harness_is_unavailable i)
        && not (harness_proven_available i)
      then unresolved harness_availability_unproven "harness" ∷ []
      else []

  -- A capability of an unregistered model or harness: only a declared list can prove it.
  unfoldable pub declared_capability : Fact → Code → String → List Push
  declared_capability declared code cap =
      let missing = unresolved code (scoped "capability:" cap) ∷ [] in
      elim (known_string_set declared) [
        | none ↦ missing
        | some caps ↦ if includes caps cap then [] else missing
      ]

  unfoldable pub check_task_capability : Inputs → String → List Push
  unfolding declared_capability
  check_task_capability i cap = elim i.model_entry [
    | none ↦ declared_capability i.task_capabilities model_capability_unproven cap
    | some m ↦
        if includes m.task_capabilities cap
        then []
        else ineligible model_capability_missing (scoped "capability:" cap) ∷ []
  ]

  unfoldable pub check_execution_capability : Inputs → String → List Push
  unfolding declared_capability
  check_execution_capability i cap = elim i.harness_entry [
    | none ↦ declared_capability i.execution_capabilities execution_capability_unproven cap
    | some h ↦
        if includes h.execution_capabilities cap
        then []
        else ineligible execution_capability_missing (scoped "capability:" cap) ∷ []
  ]

  unfoldable pub check_skill : Inputs → String → List Push
  unfolding has_skill
  check_skill i skill =
      let observed = known_string_set i.skills in
      if has_skill (harness_skills i) skill || has_skill observed skill
      then []
      else if is_known_list (harness_skills i) && is_known_list observed
      then ineligible required_skill_missing (scoped "skill:" skill) ∷ []
      else unresolved required_skill_unproven (scoped "skill:" skill) ∷ []

-- The four checks of an identity against a list: a forbidden one is in it, an allowed one is not.
unfoldable pub check_forbid_models : Inputs → List Push
check_forbid_models i = if is_empty i.forbid_models then [] else elim i.model_names [
  | none ↦ unresolved model_identity_unproven "model" ∷ []
  | some names ↦
      if intersects names i.forbid_models
      then ineligible model_forbidden (scoped "model:" (literal i.model)) ∷ []
      else []
]

unfoldable pub check_forbid_harnesses : Inputs → List Push
check_forbid_harnesses i = if is_empty i.forbid_harnesses then [] else elim i.harness_names [
  | none ↦ unresolved harness_identity_unproven "harness" ∷ []
  | some names ↦
      if intersects names i.forbid_harnesses
      then ineligible harness_forbidden (scoped "harness:" (literal i.harness)) ∷ []
      else []
]

unfoldable pub check_allowed_models : Inputs → List Push
check_allowed_models i = if is_empty i.req_models then [] else elim i.model_names [
  | none ↦ unresolved model_identity_unproven "model" ∷ []
  | some names ↦
      if intersects names i.req_models
      then []
      else ineligible model_not_allowed (scoped "model:" (literal i.model)) ∷ []
]

unfoldable pub check_allowed_harnesses : Inputs → List Push
check_allowed_harnesses i = if is_empty i.req_harnesses then [] else elim i.harness_names [
  | none ↦ unresolved harness_identity_unproven "harness" ∷ []
  | some names ↦
      if intersects names i.req_harnesses
      then []
      else ineligible harness_not_allowed (scoped "harness:" (literal i.harness)) ∷ []
]

unfoldable pub check_route_identity : Inputs → List Push
check_route_identity i =
    if i.need_route_id
    then elim (known_string i.route_id) [
      | none ↦ unresolved route_identity_unproven "route" ∷ []
      | some id ↦ []
    ]
    else []

-- The comparison of two proven families.
abbrev pub same_family : Option String → Option String → List Push
same_family none s = []
same_family (some c) none = []
same_family (some c) (some s) =
    if str_eq c s then ineligible review_same_family "review" ∷ [] else []

abbrev pub unproven_family : Option String → String → List Push
unproven_family none side = unresolved family_unproven side ∷ []
unproven_family (some family) side = []

unfoldable pub check_review : Inputs → List Push
check_review i =
    if i.require_different_family
    then unproven_family i.cand_fam "family:candidate"
      ++ (unproven_family i.subj_fam "family:subject" ++ same_family i.cand_fam i.subj_fam)
    else []
