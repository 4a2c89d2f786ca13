-- ===== src/Collector/Total.antt =====
-- lib/collector.js: a collection ends with a result.
use view_limits.Base.{ℕ, ◌≤◌, Option, none, some, List, [], ◌∷◌, String, ◌≡◌, ◌≢◌, refl, arith}
use view_limits.Base.Text.{Engine}
use view_limits.Value.{Value, obj, Fields, get_field}
use view_limits.Monitor.Validate.{Url}
use view_limits.Monitor.Revision.{Digest}
use view_limits.Cache.{route_by_id}
use view_limits.Cache.Entry.{Dates, expiry_of, recovery_bounded_fresh_until, entry_for}
use view_limits.Collector.Plan.{
  State, Planned, Deps, Acquired, owned, in_progress, refused, plan_routes, eligible, configured,
}
use view_limits.Collector.Fetches.{find}
use view_limits.Collector.Passes.{
  Published, publish_observed, publish_unknown, publish_state, publish_for, pass_two, or_undefined,
  unknown_status, message_of,
}
use view_limits.Collector.Collect.{
  Result, collect_owned, collect_locked, collect_plan, collect, prior_of, observed_of, round_of,
}

-- The dates that the entries of the configured routes hold are in the range of a Date.
pub record IsInRange (t : Dates) (d : Deps) (cfg : Value) : Type 0 where
  pub last : ℕ
  pub writes : (n : ℕ) → n ≤ last → (s : String) × (t.to_iso_string n ≡ some s)
  pub present : (id : String) → d.now id ≤ last
  pub expires :
      (id : String) (route : Fields)
      → route_by_id id (configured cfg) ≡ some route
      → (m : ℕ) × (expiry_of ⦃d = t⦄ (d.now id) (get_field "ttlSeconds" route) ≡ some m)
        × (m ≤ last)

abbrev nothing : Published
nothing = record { entries = Fields.end; fetched = []; states = [] }

given {ℓ} : {A : Type ℓ} (o : Option A) → o ≢ none → (a : A) × (o ≡ some a)
given none h = absurd (h refl)
given (some a) h = (a, refl)

observed-given :
    (o : Option Value) (route : Fields) (s : State) (a : Published)
    → o ≢ none
    → publish_observed o route s a ≢ none
observed-given none route s a h q = h refl
observed-given (some w) route s a h q = ground (arith, q)

unknown-given :
    (o : Option Value) (s : State) (a : Published) → o ≢ none → publish_unknown o s a ≢ none
unknown-given none s a h q = h refl
unknown-given (some w) s a h q = ground (arith, q)

recovery_bounded-≤ :
    ⦃t : Dates⦄ (route status : Value) (m : ℕ) → recovery_bounded_fresh_until route status m ≤ m
unfolding recovery_bounded_fresh_until
recovery_bounded-≤ route status m = ground arith

module _ ⦃t : Dates⦄ (d : Deps) (cfg : Value) (in_range : IsInRange t d cfg) where
  entry_for-given :
      (id : String) (route : Fields) (status source : Value)
      → route_by_id id (configured cfg) ≡ some route
      → entry_for route status source (d.now id) ≢ none
  unfolding entry_for
  entry_for-given id route status source at h =
      let (a, p) = in_range.writes (d.now id) (in_range.present id) in
      let (m, q, below) = in_range.expires id route at in
      let (b, r) =
        in_range.writes (recovery_bounded_fresh_until (obj route) status m)
          (omega (arith, recovery_bounded-≤ (obj route) status m, below)) in
      ground (arith, h, p, q, r)

  module _ (observed : List (String × Value)) (failures : List (String × String))
      (prior : Fields) where
    publish_state-given :
        (route : Fields) (s : State) (a : Published)
        → route_by_id s.id (configured cfg) ≡ some route
        → publish_state d observed failures prior route s a ≢ none
    unfolding publish_state
    publish_state-given route s a at h = ground (
      arith,
      h,
      observed-given
          (entry_for route (or_undefined (find s.id observed)) (get_field "provider" route)
            (d.now s.id))
          route s a (entry_for-given s.id route _ _ at),
      unknown-given
          (entry_for route (unknown_status (message_of failures s)) (get_field "provider" route)
            (d.now s.id))
          s a (entry_for-given s.id route _ _ at),
    )

    publish_for-given :
        (o : Option Fields) (s : State) (a : Published)
        → route_by_id s.id (configured cfg) ≡ o
        → publish_for d observed failures prior o s a ≢ none
    unfolding publish_for
    publish_for-given none s a at h = ground (arith, h)
    publish_for-given (some route) s a at h = publish_state-given route s a at h

    pass_two-given :
        (ss : List State) (a : Published)
        → pass_two d observed failures prior (configured cfg) ss a ≢ none
    unfolding pass_two
    pass_two-given [] a h = ground (arith, h)
    pass_two-given (s ∷ ss) a h =
        let (b, q) =
          given (publish_for d observed failures prior (route_by_id s.id (configured cfg)) s a)
            (publish_for-given (route_by_id s.id (configured cfg)) s a refl) in
        pass_two-given ss b (ground (arith, h, q))

  module _ ⦃e : Engine⦄ ⦃u : Url⦄ ⦃g : Digest⦄ where
    owned-given : (plan : List Planned) → collect_owned d cfg plan ≢ none
    unfolding collect_owned
    owned-given plan h =
        let (a, q) = given _ (
          pass_two-given (observed_of d cfg plan) (round_of d cfg plan).failures (prior_of d)
            (round_of d cfg plan).states nothing) in
        ground (arith, h, q)

    locked-given : (plan : List Planned) (c : Acquired) → collect_locked d cfg plan c ≢ none
    unfolding collect_locked
    locked-given plan owned h = owned-given plan h
    locked-given plan in_progress h = ground (arith, h)
    locked-given plan (refused m) h = ground (arith, h)

    plan-given : (plan ps : List Planned) → collect_plan d cfg plan ps ≢ none
    unfolding collect_plan
    plan-given plan [] h = ground (arith, h)
    plan-given plan (p ∷ ps) h = locked-given plan d.acquire h

    -- Where the clock and the times to live of the configured routes keep the dates of the entries
    -- in the range of a Date, a collection ends with a result, whatever the credential store, the
    -- providers, the lock, the cache file and the writing of it answer.
    pub collect-some : (r : Result) × (collect d cfg ≡ some r)
    unfolding collect
    collect-some =
        given (collect d cfg) (plan-given (plan_routes d cfg) (eligible (plan_routes d cfg)))
