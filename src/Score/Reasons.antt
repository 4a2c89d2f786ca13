-- ===== src/Score/Reasons.antt =====
-- lib/score-candidates.js: reasons and their canonical order.
use view_limits.Base.{ℕ, Bool, ◌&&◌, List, [], ◌∷◌, String, str_eq, if◌then◌else◌, ltb, ◌==◌, any}
use view_limits.Base.Sort.{sort_by}
use view_limits.Base.Text.{text_le}

-- `REASON_ORDER`.
pub data Code : Type 0 where
  task_kind_unproven model_capabilities_unproven caller_harness_unproven : Code
  candidate_harness_unproven route_binding_absent route_state_unproven : Code
  cost_signal_unproven speed_signal_unproven selected_profile_unproven : Code
  candidate_profile_unproven family_unproven : Code
  task_capability_covered task_capability_uncovered same_harness different_harness : Code
  route_healthy route_constrained route_state_negative route_evidence_stale : Code
  route_freshness_unproven route_freshness_not_evaluated preference_absent cost_tier speed_tier :
      Code
  continuity_match continuity_different independence_proven independence_violated : Code
  independence_not_required : Code

-- `REASON_RANK`.
unfoldable pub rank : Code → ℕ
rank task_kind_unproven = 0
rank model_capabilities_unproven = 1
rank caller_harness_unproven = 2
rank candidate_harness_unproven = 3
rank route_binding_absent = 4
rank route_state_unproven = 5
rank cost_signal_unproven = 6
rank speed_signal_unproven = 7
rank selected_profile_unproven = 8
rank candidate_profile_unproven = 9
rank family_unproven = 10
rank task_capability_covered = 11
rank task_capability_uncovered = 12
rank same_harness = 13
rank different_harness = 14
rank route_healthy = 15
rank route_constrained = 16
rank route_state_negative = 17
rank route_evidence_stale = 18
rank route_freshness_unproven = 19
rank route_freshness_not_evaluated = 20
rank preference_absent = 21
rank cost_tier = 22
rank speed_tier = 23
rank continuity_match = 24
rank continuity_different = 25
rank independence_proven = 26
rank independence_violated = 27
rank independence_not_required = 28

-- `reason(code, scope)`; the summary is a function of the code.
pub record Reason : Type 0 where
  pub code : Code
  pub scope : String

unfoldable pub same_reason : Reason → Reason → Bool
unfolding rank
same_reason a b = rank a.code == rank b.code && str_eq a.scope b.scope

-- The filter of `sortReasons`: the first reason of each code and scope stays.
unfoldable pub drop_seen : List Reason → List Reason → List Reason
unfolding same_reason
drop_seen seen [] = []
drop_seen seen (r ∷ rs) =
    let rest = drop_seen (r ∷ seen) rs in
    if any (same_reason r) seen then drop_seen seen rs else r ∷ rest

-- The comparator of `sortReasons`.
unfoldable pub reason_le : Reason → Reason → Bool
unfolding rank
reason_le a b =
    if rank a.code == rank b.code then text_le a.scope b.scope else ltb (rank a.code) (rank b.code)

-- `sortReasons(list)`.
unfoldable pub sort_reasons : List Reason → List Reason
unfolding drop_seen reason_le
sort_reasons list = sort_by reason_le (drop_seen [] list)
