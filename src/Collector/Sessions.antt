-- ===== src/Collector/Sessions.antt =====
-- lib/collector.js: the plan and the Xiaomi session, by the routes of the configuration.
use view_limits.Base.{
  true, false, none, some, List, [], ◌∷◌, String, str_eq, ◌≡◌, refl, sym, ap, ◌∙◌, arith,
  Option-cases, eq_iff, includes, Bool-cases, inl, inr, if◌then◌else◌,
}
use view_limits.Base.Text.{Engine, is_blank}
use view_limits.Value.{Value, undefined, null, bool, num, str, arr, obj, Fields, get}
use view_limits.Monitor.Validate.{Url}
use view_limits.Cache.{route_by_id, route_at, has_id}
use view_limits.Collector.Plan.{
  Planned, Deps, identified, fields_of, plan_route, plan_from, is_xiaomi_route,
}
use view_limits.Collector.Fetches.{find, project, xiaomi_routes}
use view_limits.Collector.States.{configured_ids, is_distinct, plan_route-id}
use view_limits.Collector.Plans.{plan_at, plan_ids}
use view_limits.Collector.Ids.{
  is_of, route_at_lem, is_of-obj, names, identified_lem, configured_first, distinct_rest,
  distinct_first, route_by_id-absent,
}

find-project-cons :
    (id : String) (st : Value) (r : Value) (rs : List Value)
    → find id (project st (r ∷ rs)) ≡ (if is_of id r then some st else find id (project st rs))
unfolding project
find-project-cons id st r rs = by_id (get "id" r)
  where
    by_id :
        (v : Value)
        → find id (elim v as (λ x. List (String × Value)) [
          | str k ↦ (k, st) ∷ project st rs
          | _ ↦ project st rs
        ])
          ≡ (if has_id id v then some st else find id (project st rs))
    by_id (str k) = refl
    by_id undefined = refl
    by_id null = refl
    by_id (bool b) = refl
    by_id (num n) = refl
    by_id (arr vs) = refl
    by_id (obj fs) = refl

own_route :
    (id : String) (r : Value) (route : Fields)
    → is_of id r ≡ true
    → route_at id r ≡ some route
    → r ≡ obj route
own_route id r route t h = sym (is_of-obj id r t) ∙ ap obj (ground (arith, route_at_lem id r, t, h))

-- The status of the session reaches every alias.
pub find-xiaomi :
    (id : String) (st : Value) (rs : List Value) (route : Fields)
    → route_by_id id rs ≡ some route
    → is_xiaomi_route (obj route) ≡ true
    → find id (project st (xiaomi_routes rs)) ≡ some st
unfolding route_by_id xiaomi_routes project
find-xiaomi id st [] route h x = absurd (ground arith)
find-xiaomi id st (r ∷ rs) route h x =
    let c = find-project-cons id st r (xiaomi_routes rs) in
    elim (Option-cases (route_by_id id rs)) [
      | inr (l, q) ↦ ground (arith, c, find-xiaomi id st rs route (ground (arith, h, q)) x)
      | inl n ↦ elim (Bool-cases (is_of id r)) [
        | inl t ↦ ground (
          arith,
          c,
          t,
          x,
          is_of-obj id r t,
          ap is_xiaomi_route (own_route id r route t (ground (arith, h, n))),
        )
        | inr f ↦ absurd (ground (arith, h, n, f, route_at_lem id r))
      ]
    ]

absent-xiaomi :
    (id : String) (st : Value) (rs : List Value)
    → is_blank id ≡ false
    → includes (configured_ids rs) id ≡ false
    → find id (project st (xiaomi_routes rs)) ≡ none
unfolding xiaomi_routes project
absent-xiaomi id st [] b h = refl
absent-xiaomi id st (r ∷ rs) b h =
    let c = configured_first id r rs b in
    ground (
      arith,
      h,
      c,
      find-project-cons id st r (xiaomi_routes rs),
      absent-xiaomi id st rs b (ground (arith, h, c)),
    )

-- The session has no status for a route of another provider.
pub find-other :
    (id : String) (st : Value) (rs : List Value) (route : Fields)
    → is_blank id ≡ false
    → is_distinct (configured_ids rs) ≡ true
    → route_by_id id rs ≡ some route
    → is_xiaomi_route (obj route) ≡ false
    → find id (project st (xiaomi_routes rs)) ≡ none
unfolding route_by_id xiaomi_routes project
find-other id st [] route b u h x = absurd (ground arith)
find-other id st (r ∷ rs) route b u h x =
    let c = find-project-cons id st r (xiaomi_routes rs) in
    elim (Bool-cases (is_of id r)) [
      | inl t ↦
          let fresh = distinct_first id r rs b u t in
          let n = route_by_id-absent id rs b fresh in
          ground (
            arith,
            x,
            absent-xiaomi id st rs b fresh,
            ap is_xiaomi_route (own_route id r route t (ground (arith, h, n))),
          )
      | inr f ↦ ground (
        arith,
        c,
        f,
        find-other id st rs route b (distinct_rest r rs u) (ground (arith, h, f, route_at_lem id r))
            x,
      )
    ]

module _ ⦃e : Engine⦄ ⦃u : Url⦄ where
  pub plan_ids-plan_from :
      (d : Deps) (cfg : Value) (rs : List Value) → plan_ids (plan_from d cfg rs) ≡ configured_ids rs
  unfolding plan_from configured_ids
  plan_ids-plan_from d cfg [] = refl
  plan_ids-plan_from d cfg (r ∷ rs) = elim (Option-cases (identified r)) [
    | inl n ↦ ground (arith, n, plan_ids-plan_from d cfg rs)
    | inr (id, q) ↦ ground (arith, q, plan_route-id d cfg id r, plan_ids-plan_from d cfg rs)
  ]

  abbrev planned : Deps → Value → String → Value → Planned
  planned d cfg id r = record { state = plan_route d cfg id r; route = fields_of r }

  same_plan :
      (d : Deps) (cfg : Value) (k id : String) (r v : Value)
      → k ≡ id
      → r ≡ v
      → planned d cfg k r ≡ planned d cfg id v
  same_plan d cfg k id r v p q = ap (λ j. planned d cfg j r) p ∙ ap (λ w. planned d cfg id w) q

  -- The plan of a configured route.
  pub plan_at-plan_from :
      (d : Deps) (cfg : Value) (rs : List Value) (id : String) (route : Fields)
      → is_blank id ≡ false
      → is_distinct (configured_ids rs) ≡ true
      → route_by_id id rs ≡ some route
      → plan_at id (plan_from d cfg rs)
        ≡ some (record { state = plan_route d cfg id (obj route); route = route })
  unfolding plan_from route_by_id plan_at names
  plan_at-plan_from d cfg [] id route b v h = absurd (ground arith)
  plan_at-plan_from d cfg (r ∷ rs) id route b v h = elim (Option-cases (identified r)) [
    | inl n ↦
        let f : is_of id r ≡ false = ground (arith, identified_lem id r b, n) in
        ground (
          arith,
          n,
          plan_at-plan_from d cfg rs id route b (distinct_rest r rs v)
              (ground (arith, h, route_at_lem id r, f)),
        )
    | inr (k, q) ↦ elim (Bool-cases (str_eq k id)) [
      | inl t ↦
          let own : is_of id r ≡ true = ground (arith, identified_lem id r b, q, t) in
          let n = route_by_id-absent id rs b (distinct_first id r rs b v own) in
          let same = own_route id r route own (ground (arith, h, n)) in
          ground (
            arith,
            q,
            t,
            plan_route-id d cfg k r,
            ap some (same_plan d cfg k id r (obj route) ((eq_iff k id).0 t) same),
          )
      | inr f ↦
          let other : is_of id r ≡ false = ground (arith, identified_lem id r b, q, f) in
          ground (
            arith,
            q,
            f,
            plan_route-id d cfg k r,
            plan_at-plan_from d cfg rs id route b (distinct_rest r rs v)
                (ground (arith, h, route_at_lem id r, other)),
          )
    ]
  ]
