-- ===== src/Eligibility/Complete.antt =====
-- Every violated constraint pushes into `ineligible`, and all missing evidence into `unresolved`.
use mathlib.Core.List.{Memᴰ}
use view_limits.Base.{
  Bool, true, false, ◌||◌, some, List, [], ◌∷◌, String, ◌≡◌, ◌≢◌, inl, inr, any, includes,
  Bool-cases, is_empty, arith, Memᴰ-includes, includes-Memᴰ, refl, ap, eq_iff,
}
use view_limits.Base.Text.{fold, Engine}
use view_limits.Facts.{known_string, known_string_set}
use view_limits.Registry.{ModelEntry, HarnessEntry}
use view_limits.Eligibility.Inputs.{Inputs}
use view_limits.Eligibility.Checks.{
  Push, each, intersects, check_forbid_routes, check_forbid_profiles, check_forbid_models,
  check_forbid_harnesses, check_route_exhausted, check_harness_unavailable, check_allowed_models,
  check_allowed_harnesses, check_route_identity, check_route_state, check_task_capability,
  check_execution_capability, check_skill, check_harness_availability, check_review,
  route_is_exhausted, harness_is_unavailable,
}
use view_limits.Eligibility.Spec.{Violation, Meets, IsForbidden, IsOutside, IsNamed, IsDown}
use view_limits.Eligibility.Verdict.{pushes}
use view_limits.Eligibility.Signals.{is_violation, any-append, Meets-intersects, intersects-Meets}

pub Signals-each :
    (test : Push → Bool) (f : String → List Push) (x : String) {xs : List String}
    → Memᴰ x xs
    → any test (f x) ≡ true
    → any test (each f xs) ≡ true
unfolding each
Signals-each test f x (Memᴰ.head {x = y} {xs = ys} e) h =
    ground (arith, any-append test (f y) (each f ys), ap (λ z. any test (f z)) e)
Signals-each test f x (Memᴰ.tail {x = y} {xs = ys} m) h =
    ground (arith, any-append test (f y) (each f ys), Signals-each test f x m h)

-- A list that holds something is not empty.
pub Memᴰ-is_empty : (x : String) {xs : List String} → Memᴰ x xs → is_empty xs ≡ false
Memᴰ-is_empty x (Memᴰ.head e) = refl
Memᴰ-is_empty x (Memᴰ.tail m) = refl

pub ne_nil-is_empty : (xs : List String) → xs ≢ [] → is_empty xs ≡ false
ne_nil-is_empty [] h = absurd (h refl)
ne_nil-is_empty (x ∷ xs) h = refl

pub not-Memᴰ-includes : (xs : List String) (s : String) → ¬ Memᴰ s xs → includes xs s ≡ false
not-Memᴰ-includes xs s h = elim (Bool-cases (includes xs s)) [
  | inl t ↦ absurd (h (includes-Memᴰ xs s t))
  | inr f ↦ f
]

not-Meets : (xs ys : List String) → ¬ Meets xs ys → intersects xs ys ≡ false
not-Meets xs ys h = elim (Bool-cases (intersects xs ys)) [
  | inl t ↦ absurd (h (intersects-Meets xs ys t))
  | inr f ↦ f
]

module _ ⦃e : Engine⦄ (i : Inputs) where
  pub any-pushes :
      (test : Push → Bool)
      → any test (pushes i) ≡ (
          any test (check_forbid_routes i)
          || (any test (check_forbid_profiles i)
              || (any test (check_forbid_models i)
                  || (any test (check_forbid_harnesses i)
                      || (any test (check_route_exhausted i)
                          || (any test (check_harness_unavailable i)
                              || (any test (check_allowed_models i)
                                  || (any test (check_allowed_harnesses i)
                                      || (any test (check_route_identity i)
                                          || (any test (check_route_state i)
                                              || (any test
                                                    (each (check_task_capability i) i.req_task_caps)
                                                  || (any test (
                                                        each
                                                          (check_execution_capability i)
                                                          i.req_exec_caps)
                                                      || (any test
                                                            (each (check_skill i) i.req_skills)
                                                          || (any test
                                                            (check_harness_availability i)
                                                            || (any test
                                                            (check_review i))))))))))))))))
  unfolding pushes
  any-pushes test = simp any-append

  route_named_signals :
      (id : String)
      → known_string i.route_id ≡ some id
      → Memᴰ (fold id) i.forbid_routes
      → any is_violation (check_forbid_routes i) ≡ true
  unfolding check_forbid_routes
  route_named_signals id k m = ground (arith, Memᴰ-includes m, Memᴰ-is_empty _ m)

  profile_named_signals :
      (id : String)
      → known_string i.profile ≡ some id
      → Memᴰ (fold id) i.forbid_profiles
      → any is_violation (check_forbid_profiles i) ≡ true
  unfolding check_forbid_profiles
  profile_named_signals id k m = ground (arith, Memᴰ-includes m, Memᴰ-is_empty _ m)

  model_named_signals :
      IsForbidden i.model_names i.forbid_models → any is_violation (check_forbid_models i) ≡ true
  unfolding check_forbid_models
  model_named_signals (names, k, (n, a, b)) =
      ground (arith, Meets-intersects n a b, Memᴰ-is_empty n b)

  model_outside_signals :
      IsOutside i.model_names i.req_models → any is_violation (check_allowed_models i) ≡ true
  unfolding check_allowed_models
  model_outside_signals (names, k, p, q) =
      ground (arith, ne_nil-is_empty i.req_models p, not-Meets names i.req_models q)

  harness_named_signals :
      IsForbidden i.harness_names i.forbid_harnesses
      → any is_violation (check_forbid_harnesses i) ≡ true
  unfolding check_forbid_harnesses
  harness_named_signals (names, k, (n, a, b)) =
      ground (arith, Meets-intersects n a b, Memᴰ-is_empty n b)

  harness_outside_signals :
      IsOutside i.harness_names i.req_harnesses
      → any is_violation (check_allowed_harnesses i) ≡ true
  unfolding check_allowed_harnesses
  harness_outside_signals (names, k, p, q) =
      ground (arith, ne_nil-is_empty i.req_harnesses p, not-Meets names i.req_harnesses q)

  exhausted_signals :
      IsNamed i.route_state "exhausted" → any is_violation (check_route_exhausted i) ≡ true
  unfolding check_route_exhausted route_is_exhausted
  exhausted_signals (known, named) = ground (arith, eq_iff "exhausted" "exhausted")

  unavailable_signals :
      IsDown i.harness_available → any is_violation (check_harness_unavailable i) ≡ true
  unfolding check_harness_unavailable harness_is_unavailable
  unavailable_signals (known, down) = ground (arith, eq_iff "unavailable" "unavailable")

  task_capability_signals :
      (m : ModelEntry) (cap : String)
      → i.model_entry ≡ some m
      → Memᴰ cap i.req_task_caps
      → ¬ Memᴰ cap m.task_capabilities
      → any is_violation (each (check_task_capability i) i.req_task_caps) ≡ true
  unfolding check_task_capability
  task_capability_signals m cap k c n =
      Signals-each is_violation (check_task_capability i) cap c
        (ground (arith, not-Memᴰ-includes m.task_capabilities cap n))

  execution_capability_signals :
      (m : HarnessEntry) (cap : String)
      → i.harness_entry ≡ some m
      → Memᴰ cap i.req_exec_caps
      → ¬ Memᴰ cap m.execution_capabilities
      → any is_violation (each (check_execution_capability i) i.req_exec_caps) ≡ true
  unfolding check_execution_capability
  execution_capability_signals m cap k c n =
      Signals-each is_violation (check_execution_capability i) cap c
        (ground (arith, not-Memᴰ-includes m.execution_capabilities cap n))

  skill_signals :
      (h : HarnessEntry) (observed : List String) (s : String)
      → i.harness_entry ≡ some h
      → known_string_set i.skills ≡ some observed
      → Memᴰ s i.req_skills
      → ¬ Memᴰ s h.skills
      → ¬ Memᴰ s observed
      → any is_violation (each (check_skill i) i.req_skills) ≡ true
  unfolding check_skill
  skill_signals h observed s k q c n p =
      Signals-each is_violation (check_skill i) s c
        (ground (arith, not-Memᴰ-includes h.skills s n, not-Memᴰ-includes observed s p))

  one_family_signals :
      (family : String)
      → i.require_different_family ≡ true
      → i.cand_fam ≡ some family
      → i.subj_fam ≡ some family
      → any is_violation (check_review i) ≡ true
  unfolding check_review
  one_family_signals family r c d = ground (arith, eq_iff family family)

  -- Every violated constraint pushes into `ineligible`.
  pub Violation-pushes : Violation i → any is_violation (pushes i) ≡ true
  Violation-pushes (Violation.route_named id k m) =
      ground (arith, any-pushes is_violation, route_named_signals id k m)
  Violation-pushes (Violation.profile_named id k m) =
      ground (arith, any-pushes is_violation, profile_named_signals id k m)
  Violation-pushes (Violation.model_named f) =
      ground (arith, any-pushes is_violation, model_named_signals f)
  Violation-pushes (Violation.harness_named f) =
      ground (arith, any-pushes is_violation, harness_named_signals f)
  Violation-pushes (Violation.exhausted h) =
      ground (arith, any-pushes is_violation, exhausted_signals h)
  Violation-pushes (Violation.unavailable h) =
      ground (arith, any-pushes is_violation, unavailable_signals h)
  Violation-pushes (Violation.model_outside f) =
      ground (arith, any-pushes is_violation, model_outside_signals f)
  Violation-pushes (Violation.harness_outside f) =
      ground (arith, any-pushes is_violation, harness_outside_signals f)
  Violation-pushes (Violation.task_capability m cap k c n) =
      ground (arith, any-pushes is_violation, task_capability_signals m cap k c n)
  Violation-pushes (Violation.execution_capability h cap k c n) =
      ground (arith, any-pushes is_violation, execution_capability_signals h cap k c n)
  Violation-pushes (Violation.skill h o s k q c n p) =
      ground (arith, any-pushes is_violation, skill_signals h o s k q c n p)
  Violation-pushes (Violation.one_family f r c d) =
      ground (arith, any-pushes is_violation, one_family_signals f r c d)
