-- ===== src/Examples/Collections.antt =====
-- The theorems on lib/collector.js at concrete inputs.
use view_limits.Base.{
  ℕ, ◌≤◌, true, false, none, some, [], ◌∷◌, String, str_eq, if◌then◌else◌, ◌≡◌, refl, arith,
}
use view_limits.Value.{
  Value, Fields, undefined, str, obj, arr, cons, nil, field, end, get, get_field, null,
}
use view_limits.Base.Text.{trim}
use view_limits.Monitor.Revision.{config_revision}
use view_limits.Effective.Recipes.{route_needs_vault_credential}
use view_limits.Cache.{route_by_id, attach_revisions}
use view_limits.Cache.Entry.{Dates, expiry_of, entry_for, read_cache}
use view_limits.Collector.Fetches.{project}
use view_limits.Collector.Passes.{pass_two, settle, set_field}
use view_limits.Collector.Plan.{
  eligible, plan_routes, configured, seed, Deps, RouteOutcome, Acquired, Fetched, held, returned,
  threw,
}
use view_limits.Collector.Collect.{Result, Outcome, collect, states_of}
use view_limits.Collector.States.{is_distinct, configured_ids}
use view_limits.Collector.Collected.{IsCollected, collect-IsCollected}
use view_limits.Collector.Reported.{IsReported, collect-IsReported}
use view_limits.Collector.View.{Native, NativeOutcome, View, collect_view}
use view_limits.Collector.Viewed.{IsViewed, collect_view-IsViewed}
use view_limits.Collector.Total.{IsInRange, collect-some}
use view_limits.Collector.Kept.{collect-unconfigured}
use view_limits.Examples.{lower_case, https_only, one_digest, one_field}

-- Every date is the start of 2026.
abbrev one_date : Dates
one_date = record {
  parse_date = λ v. none;
  to_iso_string = λ n. some "2026-01-01T00:00:00Z";
  shift = λ now ttl. some now;
}

abbrev healthy : Value
healthy = one_field "state" (str "healthy")

abbrev kimi : Fields
kimi = field "id" (str "r1") (field "provider" (str "kimi") end)

abbrev glm : Fields
glm = field "id" (str "r2") (field "provider" (str "glm") end)

abbrev xiaomi : Fields
xiaomi = field "id" (str "r3") (field "provider" (str "xiaomi") end)

abbrev config : Value
config = obj (
    field "providers" (obj (field "kimi" (obj end) (field "glm" (obj end) end)))
      (field "routes" (arr (cons (obj kimi) (cons (obj glm) (cons (obj xiaomi) nil)))) end))

abbrev old_entry : Fields
old_entry = field "source" (str "glm") end

abbrev answer : Value → Fetched
answer (str s) = if str_eq s "kimi" then returned healthy else threw "no answer"
answer _ = threw "no provider"

-- The fetch of glm fails; it has an entry from before.
abbrev deps : Deps
deps = record {
  has_credential = λ id. held;
  fetch = λ route. answer (get_field "provider" route);
  fetch_xiaomi = λ route. returned healthy;
  error_status = null;
  default_error = "session failed";
  acquire = Acquired.owned;
  cached = some (one_field "routes" (one_field "r2" (obj old_entry)));
  write_error = none;
  now = λ id. 0;
  updated_at = "2026-01-01T00:00:00Z";
  property_key = λ v. "undefined";
}

abbrev made : String → String → Fields
made id source = field "routeId" (str id) (
    field "observedAt" (str "2026-01-01T00:00:00Z") (
      field "freshUntil" (str "2026-01-01T00:00:00Z")
        (field "source" (str source) (field "status" healthy end))))

abbrev tagged : String → String → Value
tagged id source = obj (field "configRevision" (str "d1") (made id source))

abbrev done : Result
done = record {
  outcome = Outcome.partial;
  reason = none;
  error = none;
  published = true;
  routes =
      seed "r1" RouteOutcome.completed
      ∷ record {
        id = "r2";
        outcome = RouteOutcome.failed;
        error = some "no answer";
        is_unreadable = false;
        retained = true;
      }
      ∷ seed "r3" RouteOutcome.completed
      ∷ [];
  statuses = ("r3", healthy) ∷ ("r1", healthy) ∷ [];
  entries =
      field "r1" (obj (made "r1" "kimi"))
        (field "r2" (obj old_entry) (field "r3" (obj (made "r3" "xiaomi")) end));
  cache = obj (
      field "updatedAt" (str "2026-01-01T00:00:00Z") (
        field "routes"
          (obj (
            field "r1" (tagged "r1" "kimi")
              (field "r2" (obj old_entry) (field "r3" (tagged "r3" "xiaomi") end))))
          end));
}

collected :
    collect ⦃e = lower_case⦄ ⦃u = https_only⦄ ⦃g = one_digest⦄ ⦃t = one_date⦄ deps config
    ≡ some done
unfolding collect eligible plan_routes route_needs_vault_credential pass_two settle states_of
    project route_by_id entry_for read_cache trim set_field attach_revisions config_revision
collected = refl

collect-IsCollected_example :
    IsCollected ⦃e = lower_case⦄ ⦃u = https_only⦄ ⦃g = one_digest⦄ ⦃t = one_date⦄ deps config done
      "r2"
unfolding is_distinct configured_ids
collect-IsCollected_example =
    collect-IsCollected ⦃e = lower_case⦄ ⦃u = https_only⦄ ⦃g = one_digest⦄ ⦃t = one_date⦄ deps
      config done "r2" refl refl collected refl

collect-unconfigured_example : get "r9" (get "routes" done.cache) ≡ undefined
unfolding configured_ids
collect-unconfigured_example =
    collect-unconfigured ⦃e = lower_case⦄ ⦃u = https_only⦄ ⦃g = one_digest⦄ ⦃t = one_date⦄ deps
      config done "r9" refl collected refl

collect-IsReported_example : IsReported done
collect-IsReported_example =
    collect-IsReported ⦃e = lower_case⦄ ⦃u = https_only⦄ ⦃g = one_digest⦄ ⦃t = one_date⦄ deps config
      done collected

-- Traycer is not installed.
abbrev no_traycer : Result → Native
no_traycer external = record {
  snapshot =
      one_field "diagnostics" (arr (cons (one_field "code" (str "traycer-cli-missing")) nil));
  is_observed = false;
}

abbrev viewed : View
viewed = record {
  decided = record { outcome = Outcome.partial; reason = none; error = none };
  external = done;
  verdict = record {
    outcome = NativeOutcome.unavailable;
    codes = "traycer-cli-missing" ∷ [];
    error = none;
  };
}

collect_view-IsViewed_example : IsViewed viewed (no_traycer done)
unfolding collect_view collect eligible plan_routes route_needs_vault_credential pass_two settle
    states_of project route_by_id entry_for read_cache trim set_field attach_revisions
    config_revision
collect_view-IsViewed_example =
    collect_view-IsViewed ⦃e = lower_case⦄ ⦃u = https_only⦄ ⦃g = one_digest⦄ ⦃t = one_date⦄ deps
      config no_traycer viewed refl

seconds_from :
    (route : Fields)
    → get_field "ttlSeconds" route ≡ undefined
    → (m : ℕ) × (expiry_of ⦃d = one_date⦄ 0 (get_field "ttlSeconds" route) ≡ some m) × (m ≤ 180000)
unfolding expiry_of
seconds_from route q = (180000, rw (q) refl, omega arith)

no_ttl :
    (id : String) (route : Fields)
    → route_by_id id (configured config) ≡ some route
    → get_field "ttlSeconds" route ≡ undefined
unfolding route_by_id
no_ttl id route h = ground (arith, h)

deps-IsInRange : IsInRange one_date deps config
deps-IsInRange = record {
  last = 180000;
  writes = λ n below. ("2026-01-01T00:00:00Z", refl);
  present = λ id. omega arith;
  expires = λ id route h. seconds_from route (no_ttl id route h);
}

collect-some_example :
    (r : Result) × (collect ⦃e = lower_case⦄ ⦃u = https_only⦄ ⦃g = one_digest⦄ ⦃t = one_date⦄ deps
        config
      ≡ some r)
collect-some_example =
    collect-some ⦃t = one_date⦄ deps config deps-IsInRange ⦃e = lower_case⦄ ⦃u = https_only⦄
      ⦃g = one_digest⦄
