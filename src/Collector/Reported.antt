-- ===== src/Collector/Reported.antt =====
-- lib/collector.js: the one word that `collect` says of itself.
use view_limits.Base.{
  Bool, true, false, Option, none, some, List, [], ◌∷◌, String, ltb, ◌≡◌, ◌≢◌, ◌↔◌, refl, subst,
  arith, any,
}
use view_limits.Base.Text.{Engine}
use view_limits.Value.{Value, null}
use view_limits.Gate.Time.{◌>>=◌}
use view_limits.Monitor.Validate.{Url}
use view_limits.Monitor.Revision.{Digest}
use view_limits.Cache.Entry.{Dates}
use view_limits.Collector.Plan.{
  RouteOutcome, State, Planned, Deps, Acquired, owned, in_progress, refused, plan_routes, eligible,
}
use view_limits.Collector.Passes.{Published}
use view_limits.Collector.Collect.{
  Outcome, Result, nothing_for, collect_nothing, vault_failure, states_of, count_outcome,
  outcome_of, is_failed, is_completed, has_outcome, publish_result, collect_owned, collect_locked,
  collect_plan, collect,
}
use view_limits.Collector.Runs.{some_result}

-- Some route failed, and some route completed.
abbrev pub any_failed : List State → Bool
any_failed = any (has_outcome is_failed)

abbrev pub any_completed : List State → Bool
any_completed = any (has_outcome is_completed)

-- What the outcome says.
pub record IsReported (r : Result) : Type 0 where
  pub completed_iff :
      (r.outcome ≡ Outcome.completed) ↔ ((r.published ≡ true) × (any_failed r.routes ≡ false))
  pub partial_iff :
      (r.outcome ≡ Outcome.partial)
      ↔ ((r.published ≡ true) × (any_failed r.routes ≡ true) × (any_completed r.routes ≡ true))
  pub unpublished : r.published ≡ false → r.cache ≡ null

count-any :
    (f : RouteOutcome → Bool) (ss : List State)
    → ltb 0 (count_outcome f ss) ≡ any (has_outcome f) ss
unfolding count_outcome
count-any f [] = refl
count-any f (s ∷ ss) = ground (arith, count-any f ss)

idle-IsReported :
    (r : Result)
    → r.published ≡ false
    → r.cache ≡ null
    → r.outcome ≢ Outcome.completed
    → r.outcome ≢ Outcome.partial
    → IsReported r
idle-IsReported r p c a b = record {
  completed_iff = (λ h. absurd (a h), λ (h, _). absurd (ground (arith, h, p)));
  partial_iff = (λ h. absurd (b h), λ (h, _, _). absurd (ground (arith, h, p)));
  unpublished = λ h. c;
}

module _ ⦃e : Engine⦄ ⦃u : Url⦄ ⦃g : Digest⦄ ⦃t : Dates⦄ where
  publish-IsReported :
      (d : Deps) (observed : List (String × Value)) (a : Published) (o : Option String)
      → IsReported (publish_result d observed a o)
  unfolding publish_result outcome_of
  publish-IsReported d observed a (some m) = idle-IsReported _ refl refl (λ h. cc) (λ h. cc)
  publish-IsReported d observed a none = record {
    completed_iff = ground (arith, count-any is_failed a.states, count-any is_completed a.states);
    partial_iff = ground (arith, count-any is_failed a.states, count-any is_completed a.states);
    unpublished = λ h. absurd (ground arith);
  }

  owned-IsReported :
      (d : Deps) (observed : List (String × Value)) (o : Option Published) (r : Result)
      → (o >>= λ a. some (publish_result d observed a d.write_error)) ≡ some r
      → IsReported r
  owned-IsReported d observed none r h = absurd (ground (arith, h))
  owned-IsReported d observed (some a) r h =
      subst IsReported (some_result h) (publish-IsReported d observed a d.write_error)

  locked-IsReported :
      (d : Deps) (cfg : Value) (c : Acquired) (r : Result)
      → collect_locked d cfg (plan_routes d cfg) c ≡ some r
      → IsReported r
  unfolding collect_locked collect_owned
  locked-IsReported d cfg owned r h = owned-IsReported d _ _ r h
  locked-IsReported d cfg in_progress r h =
      subst IsReported (some_result h) (idle-IsReported _ refl refl (λ q. cc) (λ q. cc))
  locked-IsReported d cfg (refused m) r h =
      subst IsReported (some_result h) (idle-IsReported _ refl refl (λ q. cc) (λ q. cc))

  nothing-IsReported : (ss : List State) (o : Option State) → IsReported (nothing_for ss o)
  nothing-IsReported ss (some s) = idle-IsReported _ refl refl (λ q. cc) (λ q. cc)
  nothing-IsReported ss none = idle-IsReported _ refl refl (λ q. cc) (λ q. cc)

  plan-IsReported :
      (d : Deps) (cfg : Value) (ps : List Planned) (r : Result)
      → collect_plan d cfg (plan_routes d cfg) ps ≡ some r
      → IsReported r
  unfolding collect_plan collect_nothing
  plan-IsReported d cfg [] r h =
      subst IsReported (some_result h)
        (nothing-IsReported _ (vault_failure (states_of (plan_routes d cfg))))
  plan-IsReported d cfg (q ∷ ps) r h = locked-IsReported d cfg d.acquire r h

  -- Whatever happens, a collection says completed exactly when it is published and no route failed,
  -- and partial exactly when it is published, some route failed and some route completed; one that
  -- is not published has written no cache.
  pub collect-IsReported :
      (d : Deps) (cfg : Value) (r : Result) → collect d cfg ≡ some r → IsReported r
  unfolding collect
  collect-IsReported d cfg r h = plan-IsReported d cfg (eligible (plan_routes d cfg)) r h
