-- ===== src/Collector/Kept.antt =====
-- lib/collector.js with lib/cache.js: what a collection that is published has in its cache.
use view_limits.Base.{
  Bool, true, false, Option, none, some, List, [], ◌∷◌, String, str_eq, ◌≡◌, ◌≢◌, refl, sym, ap,
  subst, ◌∙◌, arith, eq_iff, includes, Bool-cases, inl, inr, if◌then◌else◌,
}
use view_limits.Base.Text.{Engine}
use view_limits.Value.{Value, undefined, obj, Fields, end, get, get_field, items, field}
use view_limits.Monitor.Validate.{Url}
use view_limits.Monitor.Revision.{Digest}
use view_limits.Cache.{route_by_id, tag, tagged, attach_all, attach_revisions}
use view_limits.Cache.Entry.{Dates, entry_for}
use view_limits.Cache.Tagged.{get_field-attach_all}
use view_limits.Cache.Denied.{entry_for-IsEntry}
use view_limits.Collector.Plan.{completed, State, Deps, configured, plan_routes}
use view_limits.Collector.Fetches.{find}
use view_limits.Collector.Passes.{or_undefined}
use view_limits.Collector.Collect.{
  Result, prior_of, to_items, write_cache, collect, observed_of, round_of,
}
use view_limits.Collector.States.{state_of, ids, configured_ids, is_distinct, route_by_id-some}
use view_limits.Collector.Entries.{View, view}
use view_limits.Collector.Steps.{IsNew, IsStep, pass_two-IsStep, pass_two-other}
use view_limits.Collector.Runs.{nothing, IsRun, collect-IsRun}

first_undefined :
    (b : Bool) (v w : Value) → b ≡ true → (if b then v else w) ≡ undefined → v ≡ undefined
first_undefined true v w q h = h
first_undefined false v w q h = absurd (ground arith)

state_of-some :
    (k : String) (ss : List State)
    → includes (ids ss) k ≡ true
    → (s : State) × (state_of k ss ≡ some s) × (s.id ≡ k)
unfolding state_of
state_of-some k [] h = absurd (ground arith)
state_of-some k (s ∷ ss) h = elim (Bool-cases (str_eq s.id k)) [
  | inl t ↦ (s, ground (arith, t), (eq_iff s.id k).0 t)
  | inr f ↦
      let (x, q, same) = state_of-some k ss (ground (arith, h, f)) in
      (x, ground (arith, q, f), same)
]

nothing-IsNew : {k : String} → IsNew k nothing
unfolding route_by_id state_of
nothing-IsNew = record { no_fetch = refl; no_state = refl }

module _ ⦃e : Engine⦄ ⦃u : Url⦄ ⦃g : Digest⦄ ⦃t : Dates⦄ where
  items-to_items : (vs : List Value) → items (to_items vs) ≡ vs
  items-to_items [] = refl
  items-to_items (v ∷ vs) = ap (◌∷◌ v) (items-to_items vs)

  -- An entry in the document is the entry of the pass, tagged where its route was fetched.
  get-write_cache :
      (d : Deps) (entries : Fields) (fetched : List Value) (id : String) (entry : Fields)
      → get_field id entries ≡ obj entry
      → get id (get "routes" (write_cache d entries fetched))
        ≡ tag (route_by_id id fetched) (obj entry)
  unfolding write_cache attach_revisions
  get-write_cache d entries fetched id entry h =
      get_field-attach_all (items (to_items fetched)) id entries entry h
      ∙ ap (λ rs. tag (route_by_id id rs) (obj entry)) (items-to_items fetched)

  tag-undefined : (o : Option Fields) → tag o undefined ≡ undefined
  tag-undefined none = refl
  tag-undefined (some route) = refl

  attach_all-absent :
      (routes : List Value) (id : String) (fs : Fields)
      → get_field id fs ≡ undefined
      → get_field id (attach_all routes fs) ≡ undefined
  unfolding attach_all
  attach_all-absent routes id end h = refl
  attach_all-absent routes id (field k v fs) h = elim (Bool-cases (str_eq k id)) [
    | inl a ↦ ground (
      arith,
      a,
      ap (tag (route_by_id k routes)) (first_undefined (str_eq k id) v (get_field id fs) a h),
      tag-undefined (route_by_id k routes),
    )
    | inr f ↦ ground (arith, f, attach_all-absent routes id fs (ground (arith, h, f)))
  ]

  -- What the cache has for a configured route after a collection.
  pub record IsPublished (d : Deps) (cfg : Value) (r : Result) (id : String) : Type 0 where
    pub state : State
    pub is_state : state_of id r.routes ≡ some state
    pub route : Fields
    pub is_route : route_by_id id (configured cfg) ≡ some route
    pub status : Value
    pub is_status : status ≡ or_undefined (find id (observed_of d cfg (plan_routes d cfg)))
    pub planned : State
    pub is_planned : state_of id (round_of d cfg (plan_routes d cfg)).states ≡ some planned
    pub same : state.outcome ≡ planned.outcome
    pub made :
        state.outcome ≡ completed
        → (entry : Fields) × (entry_for route status (get_field "provider" route) (d.now id)
            ≡ some (obj entry))
          × (get id (get "routes" r.cache) ≡ obj (tagged route entry))
    pub kept :
        (old : Fields)
        → state.outcome ≢ completed
        → get_field id (prior_of d) ≡ obj old
        → get id (get "routes" r.cache) ≡ obj old

  step-IsPublished :
      (d : Deps) (cfg : Value) (r : Result) (run : IsRun d cfg r) (s : State) (route : Fields)
      → route_by_id s.id (configured cfg) ≡ some route
      → state_of s.id run.states ≡ some s
      → IsStep d run.observed (prior_of d) route s (view s.id run.done)
      → IsPublished d cfg r s.id
  step-IsPublished d cfg r run s route q at w = record {
    state = w.state;
    is_state = ap (state_of s.id) run.is_routes ∙ w.is_state;
    route = route;
    is_route = q;
    status = or_undefined (find s.id run.observed);
    is_status = ap (λ o. or_undefined (find s.id o)) run.is_observed;
    planned = s;
    is_planned = ap (state_of s.id) (sym run.is_states) ∙ at;
    same = w.same;
    made = λ c.
        let (m, f) = w.made (sym w.same ∙ c) in
        let i = entry_for-IsEntry route _ (get_field "provider" route) (d.now s.id) _ m in
        (
          i.members,
          m ∙ ap some i.is_members,
          ap (λ v. get s.id (get "routes" v)) run.is_cache
              ∙ get-write_cache d run.done.entries run.done.fetched s.id i.members i.is_members
              ∙ ap (λ o. tag o (obj i.members)) f,
        );
    kept = λ old c p.
        let (m, f) = w.kept old (λ x. c (w.same ∙ x)) p in
        ap (λ v. get s.id (get "routes" v)) run.is_cache
        ∙ get-write_cache d run.done.entries run.done.fetched s.id old m
        ∙ ap (λ o. tag o (obj old)) f;
  }

  run-IsPublished :
      (d : Deps) (cfg : Value) (r : Result) (id : String)
      → is_distinct (configured_ids (configured cfg)) ≡ true
      → includes (configured_ids (configured cfg)) id ≡ true
      → IsRun d cfg r
      → IsPublished d cfg r id
  run-IsPublished d cfg r id u m run =
      let (s, q, same) = state_of-some id run.states (ap (λ ks. includes ks id) run.same_ids ∙ m) in
      let (route, at) = route_by_id-some id (configured cfg) m in
      subst (IsPublished d cfg r) same (
        step-IsPublished d cfg r run s route (ap (λ k. route_by_id k (configured cfg)) same ∙ at)
          (ap (λ k. state_of k run.states) same ∙ q)
          (pass_two-IsStep d run.observed run.failures (prior_of d) (configured cfg) run.states
            nothing run.done s.id s route (ap is_distinct run.same_ids ∙ u)
            (ap (λ k. state_of k run.states) same ∙ q)
            (ap (λ k. route_by_id k (configured cfg)) same ∙ at) nothing-IsNew run.passes))

  -- In a configuration whose ids are distinct, after a collection that is published: a route that
  -- was observed has in the cache an entry of this round, tagged with the revision of its own
  -- configuration; a route that was not, because its fetch failed, its credential could not be read
  -- or it was skipped, has the very entry of the prior cache, if there is one.
  pub collect-IsPublished :
      (d : Deps) (cfg : Value) (r : Result) (id : String)
      → is_distinct (configured_ids (configured cfg)) ≡ true
      → includes (configured_ids (configured cfg)) id ≡ true
      → collect d cfg ≡ some r
      → r.published ≡ true
      → IsPublished d cfg r id
  collect-IsPublished d cfg r id u m h p =
      run-IsPublished d cfg r id u m (collect-IsRun d cfg r h p)

  -- After a collection that is published, an id that the configuration does not name has no entry
  -- in the cache.
  pub collect-unconfigured :
      (d : Deps) (cfg : Value) (r : Result) (id : String)
      → includes (configured_ids (configured cfg)) id ≡ false
      → collect d cfg ≡ some r
      → r.published ≡ true
      → get id (get "routes" r.cache) ≡ undefined
  unfolding write_cache attach_revisions
  collect-unconfigured d cfg r id m h p =
      let run = collect-IsRun d cfg r h p in
      ap (λ v. get id (get "routes" v)) run.is_cache
      ∙ attach_all-absent (items (to_items run.done.fetched)) id run.done.entries (
          ap View.entry (
            pass_two-other d run.observed run.failures (prior_of d) (configured cfg) run.states
              nothing run.done id (ap (λ ks. includes ks id) run.same_ids ∙ m) run.passes))
