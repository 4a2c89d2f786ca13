-- ===== src/Gate/Open.antt =====
-- lib/gate.js: when `decide` denies a dispatch and when it asks for a refresh.
use view_limits.Base.{
  ℕ, Bool, true, false, not, ◌&&◌, some, String, str_eq, ◌≡◌, ◌↔◌, ◌⊎◌, inl, inr, ap, arith, eq_iff,
  Bool-cases, Option-cases,
}
use view_limits.Base.Text.{Engine}
use view_limits.Value.{Value, undefined, null, bool, num, str, arr, obj, get, truthy}
use view_limits.Monitor.Validate.{Url}
use view_limits.Monitor.Revision.{Digest}
use view_limits.Gate.Time.{Clockwork}
use view_limits.Gate.Decide.{
  Mode, advisory, deny_mode, Decision, allow, deny, mode_of, is_refused, is_usable, safe_status,
  decide_exhausted, decide_fresh, decide_in, decide, is_state,
}
use view_limits.Gate.Usable.{
  IsFresh, IsCurrent, IsRefused, object_truthy, refused-from, refused-not, usable_iff,
}

unfoldable pub Denies : Decision → Type 0
Denies (allow refresh context) = false ≡ true
Denies (deny id reset) = true ≡ true

unfoldable pub AsksRefresh : Decision → Type 0
AsksRefresh (allow refresh context) = refresh ≡ true
AsksRefresh (deny id reset) = false ≡ true

pub is_state-to : (v : Value) (n : String) → is_state v n ≡ true → v ≡ str n
is_state-to (str s) n h = ap str ((eq_iff s n).0 h)
is_state-to undefined n h = ground arith
is_state-to null n h = ground arith
is_state-to (bool b) n h = ground arith
is_state-to (num m) n h = ground arith
is_state-to (arr vs) n h = ground arith
is_state-to (obj fs) n h = ground arith

module _ ⦃e : Engine⦄ ⦃u : Url⦄ ⦃d : Digest⦄ ⦃k : Clockwork⦄ where
  -- What it takes to deny.
  pub record Blocks (route entry : Value) (now : ℕ) (config : Value) : Type 0 where
    pub has_route : truthy route ≡ true
    pub mode : get "mode" (get "gate" config) ≡ str "deny"
    pub accepted : ¬ IsRefused route
    pub fresh : IsFresh entry now
    pub current : IsCurrent entry route
    pub exhausted : get "state" (get "status" entry) ≡ str "exhausted"

  deny_mode-to : (v : Value) → mode_of v ≡ some deny_mode → v ≡ str "deny"
  unfolding mode_of
  deny_mode-to (str s) h = ap str ((eq_iff s "deny").0 (ground arith))
  deny_mode-to undefined h = ground arith
  deny_mode-to null h = ground arith
  deny_mode-to (bool b) h = ground arith
  deny_mode-to (num m) h = ground arith
  deny_mode-to (arr vs) h = ground arith
  deny_mode-to (obj fs) h = ground arith

  -- The tests of `decide` on the way to a denial.
  passes : (route entry : Value) → ℕ → (config : Value) → Bool
  passes route entry now config =
      truthy route
      && (not (is_refused route)
          && (truthy entry
              && (is_usable route entry now
                  && is_state (get "state" (safe_status entry)) "exhausted")))

  Denies-passes :
      (route entry : Value) (now : ℕ) (config : Value)
      → Denies (decide route entry now config)
      → (mode_of (get "mode" (get "gate" config)) ≡ some deny_mode)
        × (passes route entry now config ≡ true)
  unfolding decide decide_in decide_fresh decide_exhausted Denies passes
  Denies-passes route entry now config h = elim (Bool-cases (truthy route)) [
    | inr f ↦ ground arith
    | inl t ↦ ground arith
  ]

  passes-Denies :
      (route entry : Value) (now : ℕ) (config : Value)
      → mode_of (get "mode" (get "gate" config)) ≡ some deny_mode
      → passes route entry now config ≡ true
      → Denies (decide route entry now config)
  unfolding decide decide_in decide_fresh decide_exhausted Denies passes
  passes-Denies route entry now config m h = ground (arith, m, h)

  Blocks-to :
      (route entry : Value) (now : ℕ) (config : Value)
      → Denies (decide route entry now config)
      → Blocks route entry now config
  unfolding passes safe_status
  Blocks-to route entry now config h =
      let (m, p) = Denies-passes route entry now config h in
      let (f, c) = (usable_iff route entry now).0 (ground (arith, p)) in
      record {
        has_route = ground (arith, p);
        mode = deny_mode-to (get "mode" (get "gate" config)) m;
        accepted = λ r. ground (arith, p, refused-from route r);
        fresh = f;
        current = c;
        exhausted = is_state-to (get "state" (get "status" entry)) "exhausted" (ground (arith, p));
      }

  Blocks-from :
      (route entry : Value) (now : ℕ) (config : Value)
      → Blocks route entry now config
      → Denies (decide route entry now config)
  unfolding passes safe_status mode_of
  Blocks-from route entry now config b = passes-Denies route entry now config (ap mode_of b.mode) (
      ground (
        arith,
        b.has_route,
        refused-not route b.accepted,
        object_truthy entry b.fresh.is_object,
        (usable_iff route entry now).1 (b.fresh, b.current),
        ap (λ v. is_state v "exhausted") b.exhausted,
      ))

  -- A dispatch is denied exactly when the gate is in deny mode, there is a route that the region
  -- rules do not refuse, and the cached entry holds at that instant, is about the configuration of
  -- that route and says that the route is exhausted.
  pub decide-Denies_iff :
      (route entry : Value) (now : ℕ) (config : Value)
      → Denies (decide route entry now config) ↔ Blocks route entry now config
  decide-Denies_iff route entry now config =
      (Blocks-to route entry now config, Blocks-from route entry now config)

  -- The gate has work to do: it has a route that the region rules do not refuse, and a mode.
  pub record IsActive (route config : Value) : Type 0 where
    pub has_route : truthy route ≡ true
    pub mode :
        (get "mode" (get "gate" config) ≡ str "advisory")
        ⊎ (get "mode" (get "gate" config) ≡ str "deny")
    pub accepted : ¬ IsRefused route

  has_mode : (v : Value) (m : Mode) → mode_of v ≡ some m → (v ≡ str "advisory") ⊎ (v ≡ str "deny")
  unfolding mode_of
  has_mode (str s) m h = elim (Bool-cases (str_eq s "advisory")) [
    | inl t ↦ inl (ap str ((eq_iff s "advisory").0 t))
    | inr f ↦ inr (ap str ((eq_iff s "deny").0 (ground (arith, h, f))))
  ]
  has_mode undefined m h = ground arith
  has_mode null m h = ground arith
  has_mode (bool b) m h = ground arith
  has_mode (num n) m h = ground arith
  has_mode (arr vs) m h = ground arith
  has_mode (obj fs) m h = ground arith

  refresh-to :
      (route entry : Value) (now : ℕ) (config : Value)
      → AsksRefresh (decide route entry now config)
      → IsActive route config × ¬ (IsFresh entry now × IsCurrent entry route)
  unfolding decide decide_in decide_fresh decide_exhausted AsksRefresh
  refresh-to route entry now config h =
      elim (Option-cases (mode_of (get "mode" (get "gate" config)))) [
        | inl n ↦ ground arith
        | inr (m, q) ↦ (
          record {
            has_route = ground arith;
            mode = has_mode (get "mode" (get "gate" config)) m q;
            accepted = λ r. ground (arith, refused-from route r);
          },
          λ (f, c).
              ground (
                arith,
                h,
                q,
                (usable_iff route entry now).1 (f, c),
                object_truthy entry f.is_object,
              ),
        )
      ]

  active-mode :
      (route config : Value)
      → IsActive route config
      → (m : Mode) × (mode_of (get "mode" (get "gate" config)) ≡ some m)
  unfolding mode_of
  active-mode route config a = elim a.mode [
    | inl q ↦ (advisory, ap mode_of q)
    | inr q ↦ (deny_mode, ap mode_of q)
  ]

  refresh-from :
      (route entry : Value) (now : ℕ) (config : Value)
      → IsActive route config
      → ¬ (IsFresh entry now × IsCurrent entry route)
      → AsksRefresh (decide route entry now config)
  unfolding decide decide_in AsksRefresh
  refresh-from route entry now config a stale =
      let (m, q) = active-mode route config a in
      elim (Bool-cases (is_usable route entry now)) [
        | inl t ↦ absurd (stale ((usable_iff route entry now).0 t))
        | inr f ↦ ground (arith, q, f, a.has_route, refused-not route a.accepted)
      ]

  -- A refresh is asked for exactly when the gate is active for the route and the cached entry
  -- has expired or is about another configuration of the route.
  pub decide-refresh_iff :
      (route entry : Value) (now : ℕ) (config : Value)
      → AsksRefresh (decide route entry now config)
        ↔ (IsActive route config × ¬ (IsFresh entry now × IsCurrent entry route))
  decide-refresh_iff route entry now config =
      (refresh-to route entry now config, λ (a, stale). refresh-from route entry now config a stale)
