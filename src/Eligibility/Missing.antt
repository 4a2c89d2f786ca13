-- ===== src/Eligibility/Missing.antt =====
-- All missing evidence pushes into `unresolved`.
use mathlib.Core.List.{Memᴰ}
use view_limits.Base.{
  true, false, none, some, [], String, ◌≡◌, ◌≢◌, ◌⊎◌, inl, inr, any, Option-cases, arith,
}
use view_limits.Base.Text.{Engine}
use view_limits.Facts.{known_string, known_string_set}
use view_limits.Registry.{HarnessEntry}
use view_limits.Eligibility.Inputs.{Inputs}
use view_limits.Eligibility.Checks.{
  each, check_forbid_profiles, check_forbid_models, check_forbid_harnesses, check_allowed_models,
  check_allowed_harnesses, check_route_identity, check_route_state, check_task_capability,
  check_execution_capability, check_skill, check_harness_availability, check_review,
  route_is_exhausted, route_proven_usable, harness_is_unavailable, harness_proven_available,
}
use view_limits.Eligibility.Spec.{Unproven, IsUndeclared}
use view_limits.Eligibility.Verdict.{pushes}
use view_limits.Eligibility.Signals.{is_unproven}
use view_limits.Eligibility.Complete.{any-pushes, Signals-each, ne_nil-is_empty, not-Memᴰ-includes}

module _ ⦃e : Engine⦄ (i : Inputs) where
  profile_identity_signals :
      i.forbid_profiles ≢ []
      → known_string i.profile ≡ none
      → any is_unproven (check_forbid_profiles i) ≡ true
  unfolding check_forbid_profiles
  profile_identity_signals p k = ground (arith, ne_nil-is_empty _ p)

  model_forbidden_signals :
      i.forbid_models ≢ [] → i.model_names ≡ none → any is_unproven (check_forbid_models i) ≡ true
  unfolding check_forbid_models
  model_forbidden_signals p k = ground (arith, ne_nil-is_empty _ p)

  model_required_signals :
      i.req_models ≢ [] → i.model_names ≡ none → any is_unproven (check_allowed_models i) ≡ true
  unfolding check_allowed_models
  model_required_signals p k = ground (arith, ne_nil-is_empty _ p)

  harness_forbidden_signals :
      i.forbid_harnesses ≢ []
      → i.harness_names ≡ none
      → any is_unproven (check_forbid_harnesses i) ≡ true
  unfolding check_forbid_harnesses
  harness_forbidden_signals p k = ground (arith, ne_nil-is_empty _ p)

  harness_required_signals :
      i.req_harnesses ≢ []
      → i.harness_names ≡ none
      → any is_unproven (check_allowed_harnesses i) ≡ true
  unfolding check_allowed_harnesses
  harness_required_signals p k = ground (arith, ne_nil-is_empty _ p)

  route_identity_signals :
      i.need_route_id ≡ true
      → known_string i.route_id ≡ none
      → any is_unproven (check_route_identity i) ≡ true
  unfolding check_route_identity
  route_identity_signals p k = ground arith

  route_state_signals :
      i.need_route_state ≡ true
      → route_is_exhausted i ≡ false
      → route_proven_usable i ≡ false
      → any is_unproven (check_route_state i) ≡ true
  unfolding check_route_state
  route_state_signals p q r = ground arith

  task_capability_signals :
      (cap : String)
      → i.model_entry ≡ none
      → Memᴰ cap i.req_task_caps
      → IsUndeclared (known_string_set i.task_capabilities) cap
      → any is_unproven (each (check_task_capability i) i.req_task_caps) ≡ true
  unfolding check_task_capability
  task_capability_signals cap k c n =
      Signals-each is_unproven (check_task_capability i) cap c
        (elim (Option-cases (known_string_set i.task_capabilities)) [
          | inl none_known ↦ ground arith
          | inr (names, known) ↦ ground (arith, not-Memᴰ-includes names cap (n names known))
        ])

  execution_capability_signals :
      (cap : String)
      → i.harness_entry ≡ none
      → Memᴰ cap i.req_exec_caps
      → IsUndeclared (known_string_set i.execution_capabilities) cap
      → any is_unproven (each (check_execution_capability i) i.req_exec_caps) ≡ true
  unfolding check_execution_capability
  execution_capability_signals cap k c n =
      Signals-each is_unproven (check_execution_capability i) cap c
        (elim (Option-cases (known_string_set i.execution_capabilities)) [
          | inl none_known ↦ ground arith
          | inr (names, known) ↦ ground (arith, not-Memᴰ-includes names cap (n names known))
        ])

  skill_signals :
      (s : String)
      → Memᴰ s i.req_skills
      → (i.harness_entry ≡ none) ⊎ (known_string_set i.skills ≡ none)
      → ((h : HarnessEntry) → i.harness_entry ≡ some h → ¬ Memᴰ s h.skills)
      → IsUndeclared (known_string_set i.skills) s
      → any is_unproven (each (check_skill i) i.req_skills) ≡ true
  unfolding check_skill
  skill_signals s c m n p = elim (Option-cases i.harness_entry) [
    | inl unregistered ↦ elim (Option-cases (known_string_set i.skills)) [
      | inl unseen ↦ Signals-each is_unproven (check_skill i) s c (ground arith)
      | inr (names, seen) ↦
          Signals-each is_unproven (check_skill i) s c
            (ground (arith, not-Memᴰ-includes names s (p names seen)))
    ]
    | inr (h, registered) ↦ elim (Option-cases (known_string_set i.skills)) [
      | inl unseen ↦
          Signals-each is_unproven (check_skill i) s c
            (ground (arith, not-Memᴰ-includes h.skills s (n h registered)))
      | inr (names, seen) ↦ absurd (ground arith)
    ]
  ]

  harness_availability_signals :
      (i.req_harnesses ≢ []) ⊎ (i.req_exec_caps ≢ [])
      → harness_is_unavailable i ≡ false
      → harness_proven_available i ≡ false
      → any is_unproven (check_harness_availability i) ≡ true
  unfolding check_harness_availability
  harness_availability_signals a q r = elim a [
    | inl p ↦ ground (arith, ne_nil-is_empty i.req_harnesses p)
    | inr p ↦ ground (arith, ne_nil-is_empty i.req_exec_caps p)
  ]

  families_signals :
      i.require_different_family ≡ true
      → (i.cand_fam ≡ none) ⊎ (i.subj_fam ≡ none)
      → any is_unproven (check_review i) ≡ true
  unfolding check_review
  families_signals p q = ground arith

  -- All missing evidence pushes into `unresolved`.
  pub Unproven-pushes : Unproven i → any is_unproven (pushes i) ≡ true
  Unproven-pushes (Unproven.profile_identity p k) =
      ground (arith, any-pushes i is_unproven, profile_identity_signals p k)
  Unproven-pushes (Unproven.route_identity p k) =
      ground (arith, any-pushes i is_unproven, route_identity_signals p k)
  Unproven-pushes (Unproven.route_state p q r) =
      ground (arith, any-pushes i is_unproven, route_state_signals p q r)
  Unproven-pushes (Unproven.task_capability cap k c n) =
      ground (arith, any-pushes i is_unproven, task_capability_signals cap k c n)
  Unproven-pushes (Unproven.execution_capability cap k c n) =
      ground (arith, any-pushes i is_unproven, execution_capability_signals cap k c n)
  Unproven-pushes (Unproven.skill s c m n p) =
      ground (arith, any-pushes i is_unproven, skill_signals s c m n p)
  Unproven-pushes (Unproven.harness_availability a q r) =
      ground (arith, any-pushes i is_unproven, harness_availability_signals a q r)
  Unproven-pushes (Unproven.families p q) =
      ground (arith, any-pushes i is_unproven, families_signals p q)
  Unproven-pushes (Unproven.model_identity (inl p) k) =
      ground (arith, any-pushes i is_unproven, model_forbidden_signals p k)
  Unproven-pushes (Unproven.model_identity (inr p) k) =
      ground (arith, any-pushes i is_unproven, model_required_signals p k)
  Unproven-pushes (Unproven.harness_identity (inl p) k) =
      ground (arith, any-pushes i is_unproven, harness_forbidden_signals p k)
  Unproven-pushes (Unproven.harness_identity (inr p) k) =
      ground (arith, any-pushes i is_unproven, harness_required_signals p k)
