-- ===== src/Eligibility/Unproven.antt =====
-- A push into `unresolved` comes from missing evidence.
use mathlib.Core.List.{Memᴰ}
use view_limits.Base.{String, inl, inr, Bool-cases, Option-cases, is_empty, arith}
use view_limits.Base.Text.{Engine}
use view_limits.Facts.{known_string}
use view_limits.Eligibility.Inputs.{Inputs}
use view_limits.Eligibility.Checks.{
  check_forbid_routes, check_forbid_profiles, check_forbid_models, check_forbid_harnesses,
  check_route_exhausted, check_harness_unavailable, check_allowed_models, check_allowed_harnesses,
  check_route_identity, check_route_state, check_task_capability, check_execution_capability,
  check_skill, check_harness_availability, check_review,
}
use view_limits.Eligibility.Spec.{Unproven}
use view_limits.Eligibility.Verdict.{pushes}
use view_limits.Eligibility.Signals.{is_unproven, Gives, Gives-append, Gives-each, not-Memᴰ}

module _ ⦃e : Engine⦄ (i : Inputs) where
  forbid_routes_sound : Gives is_unproven (Unproven i) (check_forbid_routes i)
  unfolding check_forbid_routes
  forbid_routes_sound = record {
    apply = λ h. elim (Option-cases (known_string i.route_id)) [
      | inl u ↦ absurd (ground arith)
      | inr (id, k) ↦ absurd (ground arith)
    ];
  }

  forbid_profiles_sound : Gives is_unproven (Unproven i) (check_forbid_profiles i)
  unfolding check_forbid_profiles
  forbid_profiles_sound = record {
    apply = λ h. Unproven.profile_identity (λ p. ground arith) (ground arith);
  }

  forbid_models_sound : Gives is_unproven (Unproven i) (check_forbid_models i)
  unfolding check_forbid_models
  forbid_models_sound = record {
    apply = λ h. Unproven.model_identity (inl (λ p. ground arith)) (ground arith);
  }

  forbid_harnesses_sound : Gives is_unproven (Unproven i) (check_forbid_harnesses i)
  unfolding check_forbid_harnesses
  forbid_harnesses_sound = record {
    apply = λ h. Unproven.harness_identity (inl (λ p. ground arith)) (ground arith);
  }

  route_exhausted_sound : Gives is_unproven (Unproven i) (check_route_exhausted i)
  unfolding check_route_exhausted
  route_exhausted_sound = record { apply = λ h. absurd (ground arith) }

  harness_unavailable_sound : Gives is_unproven (Unproven i) (check_harness_unavailable i)
  unfolding check_harness_unavailable
  harness_unavailable_sound = record { apply = λ h. absurd (ground arith) }

  allowed_models_sound : Gives is_unproven (Unproven i) (check_allowed_models i)
  unfolding check_allowed_models
  allowed_models_sound = record {
    apply = λ h. Unproven.model_identity (inr (λ p. ground arith)) (ground arith);
  }

  allowed_harnesses_sound : Gives is_unproven (Unproven i) (check_allowed_harnesses i)
  unfolding check_allowed_harnesses
  allowed_harnesses_sound = record {
    apply = λ h. Unproven.harness_identity (inr (λ p. ground arith)) (ground arith);
  }

  route_identity_sound : Gives is_unproven (Unproven i) (check_route_identity i)
  unfolding check_route_identity
  route_identity_sound = record {
    apply = λ h. Unproven.route_identity (ground arith) (ground arith);
  }

  route_state_sound : Gives is_unproven (Unproven i) (check_route_state i)
  unfolding check_route_state
  route_state_sound = record {
    apply = λ h. Unproven.route_state (ground arith) (ground arith) (ground arith);
  }

  harness_availability_sound : Gives is_unproven (Unproven i) (check_harness_availability i)
  unfolding check_harness_availability
  harness_availability_sound = record {
    apply = λ h.
        Unproven.harness_availability
          (elim (Bool-cases (is_empty i.req_harnesses)) [
            | inl a ↦ inr (λ p. ground arith)
            | inr b ↦ inl (λ p. ground arith)
          ])
          (ground arith) (ground arith);
  }

  review_sound : Gives is_unproven (Unproven i) (check_review i)
  unfolding check_review
  review_sound = record { apply = λ h. Unproven.families (ground arith) (ground arith) }

  task_capability_sound :
      (cap : String)
      → Memᴰ cap i.req_task_caps
      → Gives is_unproven (Unproven i) (check_task_capability i cap)
  unfolding check_task_capability
  task_capability_sound cap m = record {
    apply = λ h.
        Unproven.task_capability cap (ground arith) m
          (λ names k. not-Memᴰ names cap (ground arith));
  }

  execution_capability_sound :
      (cap : String)
      → Memᴰ cap i.req_exec_caps
      → Gives is_unproven (Unproven i) (check_execution_capability i cap)
  unfolding check_execution_capability
  execution_capability_sound cap m = record {
    apply = λ h.
        Unproven.execution_capability cap (ground arith) m
          (λ names k. not-Memᴰ names cap (ground arith));
  }

  skill_sound :
      (cap : String) → Memᴰ cap i.req_skills → Gives is_unproven (Unproven i) (check_skill i cap)
  unfolding check_skill
  skill_sound cap m = record {
    apply = λ h.
        Unproven.skill cap m (ground arith) (λ e k. not-Memᴰ e.skills cap (ground arith))
          (λ names k. not-Memᴰ names cap (ground arith));
  }

  pub pushes-Unproven : Gives is_unproven (Unproven i) (pushes i)
  unfolding pushes
  pushes-Unproven = Gives-append forbid_routes_sound (
      Gives-append forbid_profiles_sound (
        Gives-append forbid_models_sound (
          Gives-append forbid_harnesses_sound (
            Gives-append route_exhausted_sound (
              Gives-append harness_unavailable_sound (
                Gives-append allowed_models_sound (
                  Gives-append allowed_harnesses_sound (
                    Gives-append route_identity_sound (
                      Gives-append route_state_sound (
                        Gives-append (Gives-each task_capability_sound) (
                          Gives-append (Gives-each execution_capability_sound) (
                            Gives-append (Gives-each skill_sound)
                              (Gives-append harness_availability_sound review_sound)))))))))))))
