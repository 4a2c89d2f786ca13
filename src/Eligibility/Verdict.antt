-- ===== src/Eligibility/Verdict.antt =====
-- lib/eligibility.js: the state of `evaluate`, its result, and the order of its reasons.
use view_limits.Base.{
  Bool, true, false, ◌&&◌, List, [], ◌∷◌, ◌++◌, String, str_eq, if◌then◌else◌, is_empty, any, ltb,
  ◌==◌,
}
use view_limits.Base.Sort.{sort_by}
use view_limits.Base.Text.{Engine, text_le}
use view_limits.Value.{Value}
use view_limits.Registry.{Registry}
use view_limits.Eligibility.Inputs.{Inputs, read_inputs}
use view_limits.Eligibility.Checks.{
  Code, rank, Push, ineligible, unresolved, each, check_forbid_routes, check_forbid_profiles,
  check_forbid_models, check_forbid_harnesses, check_route_exhausted, check_harness_unavailable,
  check_allowed_models, check_allowed_harnesses, check_route_identity, check_route_state,
  check_task_capability, check_execution_capability, check_skill, check_harness_availability,
  check_review,
}

-- A reason; its summary is looked up by its code.
pub record Reason : Type 0 where
  pub code : Code
  pub scope : String

pub data Result : Type 0 where
  is_eligible is_ineligible is_unresolved : Result

pub record Verdict : Type 0 where
  pub result : Result
  pub reasons : List Reason

-- The lists `ineligible` and `unresolved`.
pub record Lists : Type 0 where
  pub violated : List Reason
  pub unproven : List Reason

unfoldable pub same_reason : Reason → Reason → Bool
same_reason r q = rank r.code == rank q.code && str_eq r.scope q.scope

unfoldable pub add_reason : Reason → List Reason → List Reason
unfolding same_reason
add_reason r rs = if any (λ q. same_reason q r) rs then rs else rs ++ r ∷ []

-- `push(list, code, scope)`.
unfoldable pub push : Push → Lists → Lists
unfolding add_reason
push (ineligible code scope) s = record s {
  violated = add_reason (record { code = code; scope = scope }) s.violated;
}
push (unresolved code scope) s = record s {
  unproven = add_reason (record { code = code; scope = scope }) s.unproven;
}

unfoldable pub push_all : List Push → Lists → Lists
unfolding push
push_all [] s = s
push_all (p ∷ ps) s = push_all ps (push p s)

-- The comparator of `sortReasons`: by rank, then by scope.
abbrev pub reason_le : Reason → Reason → Bool
reason_le r q =
    if ltb (rank r.code) (rank q.code)
    then true
    else if ltb (rank q.code) (rank r.code)
    then false
    else text_le r.scope q.scope

module _ ⦃e : Engine⦄ where
  -- Every call of `push`, in the order of the sections.
  unfoldable pub pushes : Inputs → List Push
  pushes i =
      check_forbid_routes i
      ++ (check_forbid_profiles i
          ++ (check_forbid_models i
              ++ (check_forbid_harnesses i
                  ++ (check_route_exhausted i
                      ++ (check_harness_unavailable i
                          ++ (check_allowed_models i
                              ++ (check_allowed_harnesses i
                                  ++ (check_route_identity i
                                      ++ (check_route_state i
                                          ++ (each (check_task_capability i) i.req_task_caps
                                              ++ (each (check_execution_capability i)
                                                    i.req_exec_caps
                                                  ++ (each (check_skill i) i.req_skills
                                                      ++ (check_harness_availability i
                                                          ++ check_review i)))))))))))))

abbrev pub no_reasons : Lists
no_reasons = record { violated = []; unproven = [] }

abbrev pub result_of : Lists → Result
result_of s =
    if is_empty s.violated
    then (if is_empty s.unproven then is_eligible else is_unresolved)
    else is_ineligible

unfoldable pub conclude : Lists → Verdict
conclude s = record {
  result = result_of s;
  reasons = sort_by reason_le s.violated ++ sort_by reason_le s.unproven;
}

module _ ⦃e : Engine⦄ where
  unfoldable pub judge : Inputs → Verdict
  unfolding conclude push_all pushes
  judge i = conclude (push_all (pushes i) no_reasons)

  -- `evaluate(candidate, policy, registry)`.
  unfoldable pub evaluate : Value → Value → Registry → Verdict
  unfolding judge
  evaluate candidate policy reg = judge (read_inputs candidate policy reg)
