-- ===== src/Collector/Fetches.antt =====
-- lib/collector.js: what the providers answer, and the Xiaomi session that serves every alias.
use view_limits.Base.{
  Bool, true, false, Option, none, some, List, [], ◌∷◌, ◌++◌, String, str_eq, if◌then◌else◌,
}
use view_limits.Value.{Value, str, get}
use view_limits.Value.Value.{obj}
use view_limits.Collector.Plan.{
  Planned, Fetched, returned, threw, Deps, is_xiaomi_route, configured,
}

-- A Map: the last value that was set under a key stands first.
abbrev pub find {ℓ} : {A : Type ℓ} → String → List (String × A) → Option A
find id [] = none
find id ((k, v) ∷ l) = if str_eq k id then some v else find id l

-- `observed` and `failures`.
pub record Fetches : Type 0 where
  pub observed : List (String × Value)
  pub failures : List (String × String)

abbrev pub settle_fetch : String → Fetched → Fetches → Fetches
settle_fetch id (returned status) f = record {
  observed = (id, status) ∷ f.observed;
  failures = f.failures;
}
settle_fetch id (threw message) f = record {
  observed = f.observed;
  failures = (id, message) ∷ f.failures;
}

-- The fetch of every eligible route but the Xiaomi ones; the fetches settle in some order, which
-- matters only to routes that share an id: here it is the order of the list from its end.
unfoldable pub fetch_all : Deps → List Planned → Fetches
fetch_all d [] = record { observed = []; failures = [] }
fetch_all d (p ∷ ps) =
    let rest = fetch_all d ps in
    if is_xiaomi_route (obj p.route) then rest else settle_fetch p.state.id (d.fetch p.route) rest

unfoldable pub xiaomi_routes : List Value → List Value
xiaomi_routes [] = []
xiaomi_routes (r ∷ rs) = let rest = xiaomi_routes rs in if is_xiaomi_route r then r ∷ rest else rest

-- `statusById[route.id] = status`.
unfoldable pub project : Value → List Value → List (String × Value)
project status [] = []
project status (r ∷ rs) =
    let rest = project status rs in elim (get "id" r) [ str id ↦ (id, status) ∷ rest | _ ↦ rest ]

pub record Session : Type 0 where
  pub status_by_id : List (String × Value)
  pub is_failed : Bool

-- The one call of the session.
abbrev pub project_fetched : Deps → List Value → Fetched → Session
project_fetched d routes (returned status) = record {
  status_by_id = project status routes;
  is_failed = false;
}
project_fetched d routes (threw message) = record {
  status_by_id = project d.error_status routes;
  is_failed = true;
}

abbrev pub session_for : Deps → List Value → Session
session_for d [] = record { status_by_id = []; is_failed = false }
session_for d (r ∷ rs) = project_fetched d (r ∷ rs) (d.fetch_xiaomi r)

-- `xiaomiLiveStatuses(cfg, sessionCtx, deps)`.
unfoldable pub xiaomi_live_statuses : Deps → Value → Session
unfolding xiaomi_routes
xiaomi_live_statuses d cfg = session_for d (xiaomi_routes (configured cfg))

-- `observed` with the statuses of the session, which are set last.
abbrev pub all_observed : Session → Fetches → List (String × Value)
all_observed s f = s.status_by_id ++ f.observed
