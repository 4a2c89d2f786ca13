-- ===== src/Eligibility/Sound.antt =====
-- A push into `ineligible` comes from a violated constraint.
use mathlib.Core.List.{Memᴰ}
use view_limits.Base.{
  true, false, Option, none, some, String, ◌≡◌, inl, inr, Bool-cases, Option-cases, arith,
  includes-Memᴰ, refl, eq_iff,
}
use view_limits.Base.Text.{fold, Engine}
use view_limits.Facts.{known_string, known_string_set, norm}
use view_limits.Value.{Value, bool, is_false}
use view_limits.Eligibility.Inputs.{Inputs}
use view_limits.Eligibility.Checks.{
  check_forbid_routes, check_forbid_profiles, check_forbid_models, check_forbid_harnesses,
  check_route_exhausted, check_harness_unavailable, check_allowed_models, check_allowed_harnesses,
  check_route_identity, check_route_state, check_task_capability, check_execution_capability,
  check_skill, check_harness_availability, check_review, is_norm, route_is_exhausted,
  harness_is_unavailable,
}
use view_limits.Eligibility.Spec.{Violation, IsNamed, IsDown}
use view_limits.Eligibility.Verdict.{pushes}
use view_limits.Eligibility.Signals.{
  is_violation, Gives, Gives-append, Gives-each, IsForbidden-of_intersects, IsOutside-of_intersects,
  not-Memᴰ,
}

is_norm-eq : (o : Option String) (s : String) → is_norm o s ≡ true → o ≡ some s
is_norm-eq none s h = absurd (ground arith)
is_norm-eq (some t) s h = ground (arith, eq_iff t s)

is_false-eq : (v : Value) → is_false v ≡ true → v ≡ bool false
is_false-eq (bool true) h = absurd (ground arith)
is_false-eq (bool false) h = refl
is_false-eq _ h = absurd (ground arith)

module _ ⦃e : Engine⦄ (i : Inputs) where
  route_is_exhausted-IsNamed : route_is_exhausted i ≡ true → IsNamed i.route_state "exhausted"
  unfolding route_is_exhausted
  route_is_exhausted-IsNamed h =
      (ground arith, is_norm-eq (norm i.route_state.value) "exhausted" (ground arith))

  harness_is_unavailable-IsDown : harness_is_unavailable i ≡ true → IsDown i.harness_available
  unfolding harness_is_unavailable
  harness_is_unavailable-IsDown h = (
    ground arith,
    elim (Bool-cases (is_false i.harness_available.value)) [
      | inl t ↦ inl (is_false-eq i.harness_available.value t)
      | inr f ↦ inr (is_norm-eq (norm i.harness_available.value) "unavailable" (ground arith))
    ],
  )

module _ ⦃e : Engine⦄ (i : Inputs) where
  forbid_routes_sound : Gives is_violation (Violation i) (check_forbid_routes i)
  unfolding check_forbid_routes
  forbid_routes_sound = record {
    apply = λ h. elim (Option-cases (known_string i.route_id)) [
      | inl unknown ↦ absurd (ground arith)
      | inr (id, known) ↦
          Violation.route_named id known (includes-Memᴰ i.forbid_routes (fold id) (ground arith))
    ];
  }

  forbid_profiles_sound : Gives is_violation (Violation i) (check_forbid_profiles i)
  unfolding check_forbid_profiles
  forbid_profiles_sound = record {
    apply = λ h. elim (Option-cases (known_string i.profile)) [
      | inl unknown ↦ absurd (ground arith)
      | inr (id, known) ↦
          Violation.profile_named id known
            (includes-Memᴰ i.forbid_profiles (fold id) (ground arith))
    ];
  }

  forbid_models_sound : Gives is_violation (Violation i) (check_forbid_models i)
  unfolding check_forbid_models
  forbid_models_sound = record {
    apply = λ h. elim (Option-cases i.model_names) [
      | inl unknown ↦ absurd (ground arith)
      | inr (names, known) ↦
          Violation.model_named
            (IsForbidden-of_intersects i.model_names i.forbid_models names known (ground arith))
    ];
  }

  forbid_harnesses_sound : Gives is_violation (Violation i) (check_forbid_harnesses i)
  unfolding check_forbid_harnesses
  forbid_harnesses_sound = record {
    apply = λ h. elim (Option-cases i.harness_names) [
      | inl unknown ↦ absurd (ground arith)
      | inr (names, known) ↦
          Violation.harness_named (
            IsForbidden-of_intersects i.harness_names i.forbid_harnesses names known (ground arith))
    ];
  }

  allowed_models_sound : Gives is_violation (Violation i) (check_allowed_models i)
  unfolding check_allowed_models
  allowed_models_sound = record {
    apply = λ h. elim (Option-cases i.model_names) [
      | inl unknown ↦ absurd (ground arith)
      | inr (names, known) ↦ Violation.model_outside (
          IsOutside-of_intersects i.model_names i.req_models names known (ground arith)
            (ground arith))
    ];
  }

  allowed_harnesses_sound : Gives is_violation (Violation i) (check_allowed_harnesses i)
  unfolding check_allowed_harnesses
  allowed_harnesses_sound = record {
    apply = λ h. elim (Option-cases i.harness_names) [
      | inl unknown ↦ absurd (ground arith)
      | inr (names, known) ↦ Violation.harness_outside (
          IsOutside-of_intersects i.harness_names i.req_harnesses names known (ground arith)
            (ground arith))
    ];
  }

  route_exhausted_sound : Gives is_violation (Violation i) (check_route_exhausted i)
  unfolding check_route_exhausted
  route_exhausted_sound = record {
    apply = λ h. Violation.exhausted (route_is_exhausted-IsNamed i (ground arith));
  }

  harness_unavailable_sound : Gives is_violation (Violation i) (check_harness_unavailable i)
  unfolding check_harness_unavailable
  harness_unavailable_sound = record {
    apply = λ h. Violation.unavailable (harness_is_unavailable-IsDown i (ground arith));
  }

  route_identity_sound : Gives is_violation (Violation i) (check_route_identity i)
  unfolding check_route_identity
  route_identity_sound = record { apply = λ h. absurd (ground arith) }

  route_state_sound : Gives is_violation (Violation i) (check_route_state i)
  unfolding check_route_state
  route_state_sound = record { apply = λ h. absurd (ground arith) }

  harness_availability_sound : Gives is_violation (Violation i) (check_harness_availability i)
  unfolding check_harness_availability
  harness_availability_sound = record { apply = λ h. absurd (ground arith) }

  task_capability_sound :
      (cap : String)
      → Memᴰ cap i.req_task_caps
      → Gives is_violation (Violation i) (check_task_capability i cap)
  unfolding check_task_capability
  task_capability_sound cap m = record {
    apply = λ h. elim (Option-cases i.model_entry) [
      | inl unregistered ↦ absurd (ground arith)
      | inr (entry, known) ↦
          Violation.task_capability entry cap known m
            (not-Memᴰ entry.task_capabilities cap (ground arith))
    ];
  }

  execution_capability_sound :
      (cap : String)
      → Memᴰ cap i.req_exec_caps
      → Gives is_violation (Violation i) (check_execution_capability i cap)
  unfolding check_execution_capability
  execution_capability_sound cap m = record {
    apply = λ h. elim (Option-cases i.harness_entry) [
      | inl unregistered ↦ absurd (ground arith)
      | inr (entry, known) ↦
          Violation.execution_capability entry cap known m
            (not-Memᴰ entry.execution_capabilities cap (ground arith))
    ];
  }

  skill_sound :
      (s : String) → Memᴰ s i.req_skills → Gives is_violation (Violation i) (check_skill i s)
  unfolding check_skill
  skill_sound s m = record {
    apply = λ h. elim (Option-cases i.harness_entry) [
      | inl unregistered ↦ absurd (ground arith)
      | inr (entry, known) ↦ elim (Option-cases (known_string_set i.skills)) [
        | inl unobserved ↦ absurd (ground arith)
        | inr (observed, seen) ↦
            Violation.skill entry observed s known seen m (not-Memᴰ entry.skills s (ground arith))
              (not-Memᴰ observed s (ground arith))
      ]
    ];
  }

  review_sound : Gives is_violation (Violation i) (check_review i)
  unfolding check_review
  review_sound = record {
    apply = λ h. elim (Option-cases i.cand_fam) [
      | inl unknown ↦ absurd (ground arith)
      | inr (family, known) ↦ elim (Option-cases i.subj_fam) [
        | inl unknown ↦ absurd (ground arith)
        | inr (subject, subject_known) ↦
            Violation.one_family family (ground arith) known (ground (arith, eq_iff family subject))
      ]
    ];
  }

  pub pushes-Violation : Gives is_violation (Violation i) (pushes i)
  unfolding pushes
  pushes-Violation = Gives-append forbid_routes_sound (
      Gives-append forbid_profiles_sound (
        Gives-append forbid_models_sound (
          Gives-append forbid_harnesses_sound (
            Gives-append route_exhausted_sound (
              Gives-append harness_unavailable_sound (
                Gives-append allowed_models_sound (
                  Gives-append allowed_harnesses_sound (
                    Gives-append route_identity_sound (
                      Gives-append route_state_sound (
                        Gives-append (Gives-each task_capability_sound) (
                          Gives-append (Gives-each execution_capability_sound) (
                            Gives-append (Gives-each skill_sound)
                              (Gives-append harness_availability_sound review_sound)))))))))))))
