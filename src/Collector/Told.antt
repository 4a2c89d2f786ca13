-- ===== src/Collector/Told.antt =====
-- lib/collector.js: the outcome of each route of a collection, by what its provider answered.
use view_limits.Base.{
  true, false, Option, none, some, List, [], ◌∷◌, ◌++◌, String, ◌≡◌, refl, ap, ◌∙◌, arith,
  Bool-cases, inl, inr, if◌then◌else◌,
}
use view_limits.Base.Text.{Engine, is_blank}
use view_limits.Value.{Value, undefined, obj, Fields}
use view_limits.Monitor.Validate.{Url}
use view_limits.Cache.{route_by_id}
use view_limits.Collector.Plan.{
  RouteOutcome, completed, failed, State, Planned, Deps, Fetched, returned, threw, is_pending,
  is_xiaomi_route, plan_route, plan_routes, eligible, configured,
}
use view_limits.Collector.Fetches.{
  find, session_for, project_fetched, xiaomi_live_statuses, xiaomi_routes, project, fetch_all,
}
use view_limits.Collector.Passes.{mark, failure_of, or_undefined}
use view_limits.Collector.Collect.{states_of, observed_of, round_of}
use view_limits.Collector.States.{state_of, configured_ids, is_distinct, plan_route-id}
use view_limits.Collector.Plans.{
  plan_at, plan_ids, plan_at-eligible, eligible-distinct, state_of-states_of, status_in, message_in,
  fetch_all-own, fetch_all-xiaomi,
}
use view_limits.Collector.Rounds.{pass_one-own, pass_one-other}
use view_limits.Collector.Sessions.{find-xiaomi, find-other, plan_at-plan_from, plan_ids-plan_from}

abbrev status_or : Deps → Fetched → Value
status_or d (returned v) = v
status_or d (threw m) = d.error_status

abbrev one_status : Deps → List Value → Value
one_status d [] = undefined
one_status d (r ∷ rs) = status_or d (d.fetch_xiaomi r)

-- The one status of the Xiaomi session.
unfoldable pub session_status : Deps → Value → Value
session_status d cfg = one_status d (xiaomi_routes (configured cfg))

abbrev outcome_in : Fetched → RouteOutcome
outcome_in (returned v) = completed
outcome_in (threw m) = failed

-- The outcome that the answer of the provider gives to an eligible route.
unfoldable pub answered : Deps → Value → Fields → RouteOutcome
answered d cfg route =
    if is_xiaomi_route (obj route)
    then (if (xiaomi_live_statuses d cfg).is_failed then failed else completed)
    else outcome_in (d.fetch route)

-- The status that the provider of the route answered.
unfoldable pub status_for : Deps → Value → Fields → Value
status_for d cfg route =
    if is_xiaomi_route (obj route)
    then session_status d cfg
    else or_undefined (status_in (d.fetch route))

fetched-project :
    (d : Deps) (rs : List Value) (f : Fetched)
    → (project_fetched d rs f).status_by_id ≡ project (status_or d f) rs
fetched-project d rs (returned v) = refl
fetched-project d rs (threw m) = refl

session-project :
    (d : Deps) (rs : List Value) → (session_for d rs).status_by_id ≡ project (one_status d rs) rs
unfolding project
session-project d [] = refl
session-project d (r ∷ rs) = fetched-project d (r ∷ rs) (d.fetch_xiaomi r)

find-append :
    (id : String) (a b : List (String × Value))
    → find id (a ++ b) ≡ elim (find id a) [ some v ↦ some v | none ↦ find id b ]
find-append id [] b = refl
find-append id ((k, v) ∷ a) b = ground (arith, find-append id a b)

mark_outcome :
    (o : Option String) (s : State)
    → (mark o s).outcome ≡ elim o [ none ↦ completed | some m ↦ failed ]
mark_outcome none s = refl
mark_outcome (some m) s = refl

module _ ⦃e : Engine⦄ ⦃u : Url⦄ where
  module _ (d : Deps) (cfg : Value) (id : String) (route : Fields) (b : is_blank id ≡ false)
      (distinct : is_distinct (configured_ids (configured cfg)) ≡ true)
      (at : route_by_id id (configured cfg) ≡ some route) where
    abbrev own : Planned
    own = record { state = plan_route d cfg id (obj route); route = route }

    planned_here : plan_at id (plan_routes d cfg) ≡ some own
    unfolding plan_routes
    planned_here = plan_at-plan_from d cfg (configured cfg) id route b distinct at

    plans_distinct : is_distinct (plan_ids (plan_routes d cfg)) ≡ true
    unfolding plan_routes
    plans_distinct = ap is_distinct (plan_ids-plan_from d cfg (configured cfg)) ∙ distinct

    eligible_here :
        plan_at id (eligible (plan_routes d cfg))
        ≡ (if is_pending own.state.outcome then some own else none)
    eligible_here = plan_at-eligible id (plan_routes d cfg) own plans_distinct planned_here

    session_find :
        find id (xiaomi_live_statuses d cfg).status_by_id
        ≡ (if is_xiaomi_route (obj route) then some (session_status d cfg) else none)
    unfolding xiaomi_live_statuses session_status
    session_find = elim (Bool-cases (is_xiaomi_route (obj route))) [
      | inl t ↦ ground (
        arith,
        t,
        ap (find id) (session-project d (xiaomi_routes (configured cfg))),
        find-xiaomi id (one_status d (xiaomi_routes (configured cfg))) (configured cfg) route at t,
      )
      | inr f ↦ ground (
        arith,
        f,
        ap (find id) (session-project d (xiaomi_routes (configured cfg))),
        find-other id (one_status d (xiaomi_routes (configured cfg))) (configured cfg) route b
            distinct at f,
      )
    ]

    pub status_found :
        is_pending own.state.outcome ≡ true
        → find id (observed_of d cfg (plan_routes d cfg)) ≡ (
            if is_xiaomi_route (obj route)
            then some (session_status d cfg)
            else status_in (d.fetch route))
    unfolding observed_of
    status_found p =
        find-append id (xiaomi_live_statuses d cfg).status_by_id _
        ∙ elim (Bool-cases (is_xiaomi_route (obj route))) [
          | inl t ↦ ground (arith, t, session_find)
          | inr f ↦ ground (
            arith,
            f,
            session_find,
            (fetch_all-own d id (eligible (plan_routes d cfg)) own
                (eligible-distinct (plan_routes d cfg) plans_distinct) (eligible_here ∙ rw (p) refl)
                f).0,
          )
        ]

    failure_found :
        is_pending own.state.outcome ≡ true
        → find id (fetch_all d (eligible (plan_routes d cfg))).failures
          ≡ (if is_xiaomi_route (obj route) then none else message_in (d.fetch route))
    failure_found p = elim (Bool-cases (is_xiaomi_route (obj route))) [
      | inl t ↦ ground (
        arith,
        t,
        (fetch_all-xiaomi d id (eligible (plan_routes d cfg)) own
            (eligible-distinct (plan_routes d cfg) plans_distinct) (eligible_here ∙ rw (p) refl)
            t).1,
      )
      | inr f ↦ ground (
        arith,
        f,
        (fetch_all-own d id (eligible (plan_routes d cfg)) own
            (eligible-distinct (plan_routes d cfg) plans_distinct) (eligible_here ∙ rw (p) refl)
            f).1,
      )
    ]

    state_here : state_of id (states_of (plan_routes d cfg)) ≡ some own.state
    state_here = state_of-states_of id (plan_routes d cfg) own planned_here

    own-id : own.state.id ≡ id
    own-id = plan_route-id d cfg id (obj route)

    own_failure : Option String
    own_failure =
        failure_of d (xiaomi_live_statuses d cfg) (observed_of d cfg (plan_routes d cfg)) own
          (fetch_all d (eligible (plan_routes d cfg))).failures

    failed_outcome :
        is_pending own.state.outcome ≡ true
        → (mark own_failure own.state).outcome ≡ answered d cfg route
    unfolding own_failure failure_of answered
    failed_outcome p =
        mark_outcome own_failure own.state
        ∙ ground (
          arith,
          ap (λ k. find k (fetch_all d (eligible (plan_routes d cfg))).failures) own-id
              ∙ failure_found p,
          ap (λ k. find k (observed_of d cfg (plan_routes d cfg))) own-id ∙ status_found p,
          d.fetch route,
        )

    -- After the first pass a route that took part has the outcome of its provider's answer.
    pub round-pending :
        is_pending own.state.outcome ≡ true
        → (s : State) × (state_of id (round_of d cfg (plan_routes d cfg)).states ≡ some s)
          × (s.outcome ≡ answered d cfg route)
    unfolding round_of own_failure
    round-pending p = (
      mark own_failure own.state,
      pass_one-own d _ _ (eligible (plan_routes d cfg)) _ id own own.state
          (eligible-distinct (plan_routes d cfg) plans_distinct) (eligible_here ∙ rw (p) refl)
          state_here,
      failed_outcome p,
    )

    -- A route that took no part keeps its seed.
    pub round-planned :
        is_pending own.state.outcome ≡ false
        → state_of id (round_of d cfg (plan_routes d cfg)).states ≡ some own.state
    unfolding round_of
    round-planned p =
        pass_one-other d _ _ (eligible (plan_routes d cfg)) _ id (eligible_here ∙ rw (p) refl)
        ∙ state_here
