-- ===== src/Collector/Collected.antt =====
-- lib/collector.js: what a published collection has for each configured route, by what the
-- providers answered and what the cache had before.
use view_limits.Base.{
  Bool, true, false, not, some, String, ◌≡◌, ◌≢◌, sym, ap, ◌∙◌, arith, includes, Bool-cases, inl,
  inr, if◌then◌else◌,
}
use view_limits.Base.Text.{Engine}
use view_limits.Value.{Value, obj, Fields, get, get_field}
use view_limits.Monitor.Validate.{Url}
use view_limits.Monitor.Revision.{Digest}
use view_limits.Cache.{route_by_id, tagged}
use view_limits.Cache.Entry.{Dates, entry_for}
use view_limits.Collector.Plan.{
  State, Deps, Credential, held, missing, unreadable, by_credential, is_pending, plan_route,
  configured, RouteOutcome, completed, pending, skipped, seed, has_source, is_xiaomi_route,
}
use view_limits.Effective.Recipes.{route_needs_vault_credential}
use view_limits.Collector.Collect.{Result, prior_of, collect}
use view_limits.Collector.States.{state_of, configured_ids, is_distinct}
use view_limits.Collector.Ids.{blank_unnamed}
use view_limits.Collector.Told.{answered, status_for, status_found, round-pending, round-planned}
use view_limits.Collector.Kept.{IsPublished, collect-IsPublished}

by_credential-outcome : (id : String) (c : Credential) → (by_credential id c).outcome ≢ completed
by_credential-outcome id held h = ground (arith, h)
by_credential-outcome id missing h = ground (arith, h)
by_credential-outcome id unreadable h = ground (arith, h)

planned-outcome :
    (is_xiaomi is_known is_stored : Bool) (id : String) (c : Credential)
    → (if is_xiaomi
        then seed id pending
        else if not is_known
        then seed id skipped
        else if not is_stored
        then seed id pending
        else by_credential id c).outcome
      ≢ completed
planned-outcome true b c id w h = ground (arith, h)
planned-outcome false false c id w h = ground (arith, h)
planned-outcome false true false id w h = ground (arith, h)
planned-outcome false true true id w h = by_credential-outcome id w h

module _ ⦃e : Engine⦄ ⦃u : Url⦄ where
  -- The outcome of a route: its provider's answer if the plan lets it take part, else the plan's.
  unfoldable pub final_outcome : Deps → Value → String → Fields → RouteOutcome
  final_outcome d cfg id route =
      let planned = (plan_route d cfg id (obj route)).outcome in
      if is_pending planned then answered d cfg route else planned

  plan_route-outcome :
      (d : Deps) (cfg : Value) (id : String) (r : Value)
      → (plan_route d cfg id r).outcome ≢ completed
  unfolding plan_route
  plan_route-outcome d cfg id r h =
      planned-outcome (is_xiaomi_route r) (has_source d cfg r) (route_needs_vault_credential r) id
        (d.has_credential id) h

module _ ⦃e : Engine⦄ ⦃u : Url⦄ ⦃g : Digest⦄ ⦃t : Dates⦄ where
  pub record IsCollected (d : Deps) (cfg : Value) (r : Result) (id : String) : Type 0 where
    pub state : State
    pub is_state : state_of id r.routes ≡ some state
    pub route : Fields
    pub is_route : route_by_id id (configured cfg) ≡ some route
    pub told : state.outcome ≡ final_outcome d cfg id route
    pub made :
        state.outcome ≡ completed
        → (entry : Fields) × (entry_for route
              (status_for d cfg route)
              (get_field "provider" route)
              (d.now id)
            ≡ some (obj entry))
          × (get id (get "routes" r.cache) ≡ obj (tagged route entry))
    pub kept :
        (old : Fields)
        → state.outcome ≢ completed
        → get_field id (prior_of d) ≡ obj old
        → get id (get "routes" r.cache) ≡ obj old

  module _ (d : Deps) (cfg : Value) (id : String) (r : Result)
      (distinct : is_distinct (configured_ids (configured cfg)) ≡ true)
      (named : includes (configured_ids (configured cfg)) id ≡ true)
      (p : IsPublished d cfg r id) where
    abbrev planned : RouteOutcome
    planned = (plan_route d cfg id (obj p.route)).outcome

    told_outcome : p.state.outcome ≡ final_outcome d cfg id p.route
    unfolding final_outcome
    told_outcome = elim (Bool-cases (is_pending planned)) [
      | inl w ↦
          let (s, q, a) =
            round-pending d cfg id p.route (blank_unnamed (configured cfg) id named) distinct
              p.is_route w in
          ground
            (arith, w, a, p.same, ap State.outcome (same_state s p.planned (sym q ∙ p.is_planned)))
      | inr f ↦ ground (
        arith,
        f,
        p.same,
        ap State.outcome (
            same_state _ p.planned (
              sym (
                round-planned d cfg id p.route (blank_unnamed (configured cfg) id named) distinct
                  p.is_route f)
              ∙ p.is_planned)),
      )
    ]
      where
        same_state : (s v : State) → some s ≡ some v → s ≡ v
        same_state s v h = ground (arith, h)

    completed_pending : p.state.outcome ≡ completed → is_pending planned ≡ true
    unfolding final_outcome
    completed_pending c = elim (Bool-cases (is_pending planned)) [
      | inl w ↦ w
      | inr f ↦
          absurd (plan_route-outcome d cfg id (obj p.route) (ground (arith, f, c, told_outcome)))
    ]

    told_status : p.state.outcome ≡ completed → p.status ≡ status_for d cfg p.route
    unfolding status_for
    told_status c =
        p.is_status
        ∙ ground (
          arith,
          status_found d cfg id p.route (blank_unnamed (configured cfg) id named) distinct
              p.is_route (completed_pending c),
        )

    collected : IsCollected d cfg r id
    collected = record {
      state = p.state;
      is_state = p.is_state;
      route = p.route;
      is_route = p.is_route;
      told = told_outcome;
      made = λ c.
          let (entry, m, w) = p.made c in
          (
            entry,
            ap (λ v. entry_for p.route v (get_field "provider" p.route) (d.now id))
                  (sym (told_status c))
                ∙ m,
            w,
          );
      kept = p.kept;
    }

  -- In a configuration whose ids are distinct, after a collection that is published, each configured
  -- route has the outcome of its provider's answer, or of the plan where it took no part. A route
  -- that completed has in the cache an entry of this round with the status that its provider
  -- answered, tagged with the revision of its own configuration. A route that did not, because its
  -- fetch failed, its credential could not be read or it was skipped, has the very entry of the
  -- prior cache, if there is one.
  pub collect-IsCollected :
      (d : Deps) (cfg : Value) (r : Result) (id : String)
      → is_distinct (configured_ids (configured cfg)) ≡ true
      → includes (configured_ids (configured cfg)) id ≡ true
      → collect d cfg ≡ some r
      → r.published ≡ true
      → IsCollected d cfg r id
  collect-IsCollected d cfg r id v m h p =
      collected d cfg id r v m (collect-IsPublished d cfg r id v m h p)
