-- ===== src/Collector/Collect.antt =====
-- lib/collector.js: `collect`, with `writeCache` of lib/cache.js.
use view_limits.Base.{
  ℕ, Bool, true, false, Option, none, some, List, [], ◌∷◌, String, ltb, map, if◌then◌else◌,
}
use view_limits.Base.Text.{Engine, is_blank}
use view_limits.Value.{Value, null, str, arr, obj, Items, nil, cons, Fields, end, field, get}
use view_limits.Gate.Time.{◌>>=◌}
use view_limits.Monitor.Validate.{Url}
use view_limits.Monitor.Revision.{Digest}
use view_limits.Cache.{attach_revisions}
use view_limits.Cache.Entry.{Dates, read_cache}
use view_limits.Collector.Plan.{
  RouteOutcome, State, Planned, Deps, Acquired, owned, refused, one_line, configured, plan_routes,
  eligible, fields_of,
}
use view_limits.Collector.Fetches.{fetch_all, xiaomi_live_statuses, all_observed}
use view_limits.Collector.Passes.{Round, Published, pass_one, pass_two}

-- `OUTCOME`.
pub data Outcome : Type 0 where
  completed partial in_progress failed no_credentials : Outcome

-- `REASON`.
pub data Reason : Type 0 where
  lock_unavailable publish_failed vault_unreadable native_unavailable : Reason

-- `result(partial)`; the native observation belongs to `collectView`.
pub record Result : Type 0 where
  pub outcome : Outcome
  pub reason : Option Reason
  pub error : Option String
  pub published : Bool
  pub routes : List State
  pub statuses : List (String × Value)
  pub entries : Fields
  pub cache : Value

abbrev pub idle : Outcome → Option Reason → Option String → List State → Result
idle o r e ss = record {
  outcome = o;
  reason = r;
  error = e;
  published = false;
  routes = ss;
  statuses = [];
  entries = end;
  cache = null;
}

unfoldable pub states_of : List Planned → List State
states_of [] = []
states_of (p ∷ ps) = p.state ∷ states_of ps

-- `states.find((s) => s.reason === REASON.VAULT_UNREADABLE)`.
unfoldable pub vault_failure : List State → Option State
vault_failure [] = none
vault_failure (s ∷ ss) = let rest = vault_failure ss in if s.is_unreadable then some s else rest

abbrev pub nothing_for : List State → Option State → Result
nothing_for ss (some s) = idle Outcome.failed (some vault_unreadable) s.error ss
nothing_for ss none = idle Outcome.no_credentials none none ss

-- The collection that has nothing to collect.
unfoldable pub collect_nothing : List State → Result
unfolding vault_failure
collect_nothing ss = nothing_for ss (vault_failure ss)

abbrev pub or_error : Option String → String → Option String
or_error none message = some (one_line message)
or_error (some e) message = if is_blank e then some (one_line message) else some e

abbrev pub kept_text : Option String → Option String
kept_text none = none
kept_text (some e) = if is_blank e then none else some e

abbrev pub is_skipped : RouteOutcome → Bool
is_skipped RouteOutcome.skipped = true
is_skipped _ = false

-- A state that another owner leaves pending.
abbrev pub leave : State → State
leave s =
    if is_skipped s.outcome
    then s
    else record s { outcome = RouteOutcome.pending; error = kept_text s.error }

-- A state that fails with the lock.
abbrev pub fail_with : String → State → State
fail_with message s =
    if is_skipped s.outcome
    then s
    else record s { outcome = RouteOutcome.failed; error = or_error s.error message }

abbrev pub has_outcome : (RouteOutcome → Bool) → State → Bool
has_outcome f s = f s.outcome

abbrev pub is_failed : RouteOutcome → Bool
is_failed RouteOutcome.failed = true
is_failed _ = false

abbrev pub is_completed : RouteOutcome → Bool
is_completed RouteOutcome.completed = true
is_completed _ = false

-- `states.filter((s) => s.outcome === ...).length`.
unfoldable pub count_outcome : (RouteOutcome → Bool) → List State → ℕ
count_outcome f [] = 0
count_outcome f (s ∷ ss) = if f s.outcome then ℕ.suc (count_outcome f ss) else count_outcome f ss

unfoldable pub outcome_of : List State → Outcome
unfolding count_outcome
outcome_of ss =
    if ltb 0 (count_outcome is_failed ss)
    then (if ltb 0 (count_outcome is_completed ss) then Outcome.partial else Outcome.failed)
    else Outcome.completed

abbrev pub to_items : List Value → Items
to_items [] = nil
to_items (v ∷ vs) = cons v (to_items vs)

-- `prior.routes` of the cache that was read.
abbrev pub prior_of : Deps → Fields
prior_of d = fields_of (get "routes" (read_cache d.cached))

-- `observed` once every fetch has settled.
unfoldable pub observed_of : Deps → Value → List Planned → List (String × Value)
unfolding fetch_all xiaomi_live_statuses
observed_of d cfg plan = all_observed (xiaomi_live_statuses d cfg) (fetch_all d (eligible plan))

-- What pass 1 leaves.
unfoldable pub round_of : Deps → Value → List Planned → Round
unfolding observed_of pass_one
round_of d cfg plan =
    pass_one d (xiaomi_live_statuses d cfg) (observed_of d cfg plan) (eligible plan)
      (record { failures = (fetch_all d (eligible plan)).failures; states = states_of plan })

module _ ⦃e : Engine⦄ ⦃u : Url⦄ ⦃g : Digest⦄ ⦃t : Dates⦄ where
  -- The document that `writeCache(entries, { routes: fetched })` writes.
  unfoldable pub write_cache : Deps → Fields → List Value → Value
  write_cache d entries fetched = obj (
      field "updatedAt" (str d.updated_at) (
        field "routes"
          (attach_revisions (obj entries) (obj (field "routes" (arr (to_items fetched)) end))) end))

  unfoldable pub publish_result : Deps → List (String × Value) → Published → Option String → Result
  unfolding write_cache outcome_of
  publish_result d observed a (some message) = record {
    outcome = Outcome.failed;
    reason = some publish_failed;
    error = some (one_line message);
    published = false;
    routes = a.states;
    statuses = observed;
    entries = end;
    cache = null;
  }
  publish_result d observed a none = record {
    outcome = outcome_of a.states;
    reason = none;
    error = none;
    published = true;
    routes = a.states;
    statuses = observed;
    entries = a.entries;
    cache = write_cache d a.entries a.fetched;
  }

  -- What the owner of the lock does; `none` is a throw.
  unfoldable pub collect_owned : Deps → Value → List Planned → Option Result
  unfolding publish_result round_of
  collect_owned d cfg plan =
      let r = round_of d cfg plan in
      do
        a ←
            pass_two d (observed_of d cfg plan) r.failures (prior_of d) (configured cfg) r.states
              (record { entries = end; fetched = []; states = [] })
        some (publish_result d (observed_of d cfg plan) a d.write_error)

  unfoldable pub collect_locked : Deps → Value → List Planned → Acquired → Option Result
  unfolding collect_owned
  collect_locked d cfg plan owned = collect_owned d cfg plan
  collect_locked d cfg plan Acquired.in_progress =
      some (idle Outcome.in_progress none none (map leave (states_of plan)))
  collect_locked d cfg plan (refused message) = some (
      idle Outcome.failed (some lock_unavailable) (some (one_line message))
        (map (fail_with message) (states_of plan)))

  unfoldable pub collect_plan : Deps → Value → List Planned → List Planned → Option Result
  unfolding collect_nothing collect_locked
  collect_plan d cfg plan [] = some (collect_nothing (states_of plan))
  collect_plan d cfg plan (p ∷ ps) = collect_locked d cfg plan d.acquire

  -- `collect({ cfg, io })`.
  unfoldable pub collect : Deps → Value → Option Result
  unfolding collect_plan
  collect d cfg = let plan = plan_routes d cfg in collect_plan d cfg plan (eligible plan)
