-- ===== src/Eligibility/Spec.antt =====
-- What the verdict of lib/eligibility.js is supposed to mean: which hard constraints count as
-- violated, and which evidence as missing, stated without the checks, their order or `push`.
use mathlib.Core.List.{Memᴰ}
use view_limits.Base.{true, false, Option, none, some, List, [], String, ◌≡◌, ◌≢◌, ◌⊎◌}
use view_limits.Base.Text.{fold, Engine}
use view_limits.Facts.{Fact, fact_is_known, known_string, known_string_set, norm}
use view_limits.Value.{bool}
use view_limits.Registry.{ModelEntry, HarnessEntry}
use view_limits.Eligibility.Inputs.{Inputs}
use view_limits.Eligibility.Checks.{
  route_is_exhausted, route_proven_usable, harness_is_unavailable, harness_proven_available,
}

-- Two lists have a name in common.
abbrev pub Meets : List String → List String → Type 0
Meets xs ys = (n : String) × Memᴰ n xs × Memᴰ n ys

-- Names that are known and of which the list names none.
abbrev pub IsOutside : Option (List String) → List String → Type 0
IsOutside known list =
    (names : List String) × (known ≡ some names) × (list ≢ []) × (¬ Meets names list)

abbrev pub IsForbidden : Option (List String) → List String → Type 0
IsForbidden known list = (names : List String) × (known ≡ some names) × Meets names list

-- No known list holds the name.
abbrev pub IsUndeclared : Option (List String) → String → Type 0
IsUndeclared known name = (names : List String) → known ≡ some names → ¬ Memᴰ name names

module _ ⦃e : Engine⦄ where
  -- A known fact whose value reads as the name.
  abbrev pub IsNamed : Fact → String → Type 0
  IsNamed f name = (fact_is_known f ≡ true) × (norm f.value ≡ some name)

  -- A known availability that is `false` or 'unavailable'.
  abbrev pub IsDown : Fact → Type 0
  IsDown f =
      (fact_is_known f ≡ true) × ((f.value ≡ bool false) ⊎ (norm f.value ≡ some "unavailable"))

  pub data Violation (i : Inputs) : Type 0 where
    route_named :
        (id : String)
        → known_string i.route_id ≡ some id
        → Memᴰ (fold id) i.forbid_routes
        → Violation i
    profile_named :
        (id : String)
        → known_string i.profile ≡ some id
        → Memᴰ (fold id) i.forbid_profiles
        → Violation i
    model_named : IsForbidden i.model_names i.forbid_models → Violation i
    harness_named : IsForbidden i.harness_names i.forbid_harnesses → Violation i
    exhausted : IsNamed i.route_state "exhausted" → Violation i
    unavailable : IsDown i.harness_available → Violation i
    model_outside : IsOutside i.model_names i.req_models → Violation i
    harness_outside : IsOutside i.harness_names i.req_harnesses → Violation i
    task_capability :
        (m : ModelEntry) (cap : String)
        → i.model_entry ≡ some m
        → Memᴰ cap i.req_task_caps
        → ¬ Memᴰ cap m.task_capabilities
        → Violation i
    execution_capability :
        (h : HarnessEntry) (cap : String)
        → i.harness_entry ≡ some h
        → Memᴰ cap i.req_exec_caps
        → ¬ Memᴰ cap h.execution_capabilities
        → Violation i
    skill :
        (h : HarnessEntry) (observed : List String) (s : String)
        → i.harness_entry ≡ some h
        → known_string_set i.skills ≡ some observed
        → Memᴰ s i.req_skills
        → ¬ Memᴰ s h.skills
        → ¬ Memᴰ s observed
        → Violation i
    one_family :
        (family : String)
        → i.require_different_family ≡ true
        → i.cand_fam ≡ some family
        → i.subj_fam ≡ some family
        → Violation i

  pub data Unproven (i : Inputs) : Type 0 where
    profile_identity : i.forbid_profiles ≢ [] → known_string i.profile ≡ none → Unproven i
    model_identity :
        (i.forbid_models ≢ []) ⊎ (i.req_models ≢ []) → i.model_names ≡ none → Unproven i
    harness_identity :
        (i.forbid_harnesses ≢ []) ⊎ (i.req_harnesses ≢ []) → i.harness_names ≡ none → Unproven i
    route_identity : i.need_route_id ≡ true → known_string i.route_id ≡ none → Unproven i
    route_state :
        i.need_route_state ≡ true
        → route_is_exhausted i ≡ false
        → route_proven_usable i ≡ false
        → Unproven i
    task_capability :
        (cap : String)
        → i.model_entry ≡ none
        → Memᴰ cap i.req_task_caps
        → IsUndeclared (known_string_set i.task_capabilities) cap
        → Unproven i
    execution_capability :
        (cap : String)
        → i.harness_entry ≡ none
        → Memᴰ cap i.req_exec_caps
        → IsUndeclared (known_string_set i.execution_capabilities) cap
        → Unproven i
    skill :
        (s : String)
        → Memᴰ s i.req_skills
        → (i.harness_entry ≡ none) ⊎ (known_string_set i.skills ≡ none)
        → ((h : HarnessEntry) → i.harness_entry ≡ some h → ¬ Memᴰ s h.skills)
        → IsUndeclared (known_string_set i.skills) s
        → Unproven i
    harness_availability :
        (i.req_harnesses ≢ []) ⊎ (i.req_exec_caps ≢ [])
        → harness_is_unavailable i ≡ false
        → harness_proven_available i ≡ false
        → Unproven i
    families :
        i.require_different_family ≡ true → (i.cand_fam ≡ none) ⊎ (i.subj_fam ≡ none) → Unproven i
