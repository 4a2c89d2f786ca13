-- ===== src/Collector/Viewed.antt =====
-- lib/collector.js: when a view says that it is complete, partial or failed.
use view_limits.Base.{
  Bool, true, false, not, ◌&&◌, ◌||◌, Option, none, some, List, [], ◌∷◌, ◌++◌, String, ◌≡◌, ◌↔◌,
  ◌⊎◌, refl, ap, subst, arith, any, includes, is_empty, Bool-cases, inl, inr, eq_iff,
}
use view_limits.Base.Text.{Engine}
use view_limits.Value.{Value, undefined, null, bool, num, str, arr, obj, get, is_plain_object}
use view_limits.Gate.Time.{◌>>=◌}
use view_limits.Monitor.Validate.{Url}
use view_limits.Monitor.Revision.{Digest}
use view_limits.Cache.Entry.{Dates}
use view_limits.Collector.Plan.{Deps}
use view_limits.Collector.Collect.{Outcome, Result, collect}
use view_limits.Collector.View.{
  NativeOutcome, completed, failed, Verdict, Native, View, native_failure_codes, add_code,
  codes_from, diagnostics_of, failures_in, verdict_from, classify_native, apply_native_verdict,
  collect_view,
}

-- A diagnostic whose code is in the list.
abbrev pub names_code : List String → Value → Bool
names_code cs (str s) = includes cs s
names_code cs _ = false

abbrev pub has_code : List String → Value → Bool
has_code cs d = names_code cs (get "code" d)

abbrev pub has_diagnostic : List String → Value → Bool
has_diagnostic cs snap = any (has_code cs) (diagnostics_of snap)

abbrev pub missing_codes : List String
missing_codes = "traycer-cli-missing" ∷ []

-- No native observation, or one whose diagnostics name a source that failed.
abbrev pub is_native_failure : Native → Bool
is_native_failure n =
    not (is_plain_object n.snapshot) || has_diagnostic native_failure_codes n.snapshot

-- A native observation of this run, from sources of which none failed or is absent.
abbrev pub is_native_success : Native → Bool
is_native_success n =
    not (is_native_failure n) && (not (has_diagnostic missing_codes n.snapshot) && n.is_observed)

-- When the view says what.
pub record IsViewed (v : View) (n : Native) : Type 0 where
  pub completed_iff : (v.decided.outcome ≡ Outcome.completed) ↔ (
      ((v.external.outcome ≡ Outcome.completed) × (is_native_failure n ≡ false))
      ⊎ ((v.external.outcome ≡ Outcome.no_credentials) × (is_native_success n ≡ true)))
  pub partial_iff : (v.decided.outcome ≡ Outcome.partial) ↔ (
      (v.external.outcome ≡ Outcome.partial)
      ⊎ ((v.external.outcome ≡ Outcome.completed) × (is_native_failure n ≡ true)))
  pub failed_iff : (v.decided.outcome ≡ Outcome.failed) ↔ (
      (v.external.outcome ≡ Outcome.failed)
      ⊎ ((v.external.outcome ≡ Outcome.no_credentials)
          × (is_native_failure n ≡ true)
          × (is_empty v.external.routes ≡ false)))

-- A list has an element that the other includes.
abbrev meets : List String → List String → Bool
meets cs [] = false
meets cs (k ∷ ks) = includes cs k || meets cs ks

meets-includes :
    (cs ks : List String) (s : String)
    → includes ks s ≡ true
    → includes cs s ≡ true
    → meets cs ks ≡ true
meets-includes cs [] s h i = absurd (ground arith)
meets-includes cs (k ∷ ks) s h i =
    ground (arith, h, i, eq_iff k s, meets-includes cs ks s, ap (includes cs))

meets-append :
    (cs ks : List String) (s : String) → meets cs (ks ++ s ∷ []) ≡ (meets cs ks || includes cs s)
meets-append cs [] s = ground arith
meets-append cs (k ∷ ks) s = ground (arith, meets-append cs ks s)

meets-add_code :
    (cs ks : List String) (v : Value) → meets cs (add_code v ks) ≡ (names_code cs v || meets cs ks)
meets-add_code cs ks (str s) = elim (Bool-cases (includes ks s)) [
  | inl t ↦ ground (arith, t, meets-includes cs ks s t)
  | inr f ↦ ground (arith, f, meets-append cs ks s)
]
meets-add_code cs ks undefined = refl
meets-add_code cs ks null = refl
meets-add_code cs ks (bool b) = refl
meets-add_code cs ks (num n) = refl
meets-add_code cs ks (arr vs) = refl
meets-add_code cs ks (obj fs) = refl

meets-codes_from :
    (cs ks : List String) (ds : List Value)
    → meets cs (codes_from ks ds) ≡ (any (has_code cs) ds || meets cs ks)
unfolding codes_from
meets-codes_from cs ks [] = refl
meets-codes_from cs ks (d ∷ ds) = ground (
  arith,
  meets-codes_from cs (add_code (get "code" d) ks) ds,
  meets-add_code cs ks (get "code" d),
)

failures_in-meets :
    (ks : List String) → is_empty (failures_in ks) ≡ not (meets native_failure_codes ks)
unfolding failures_in
failures_in-meets [] = refl
failures_in-meets (k ∷ ks) = ground (arith, failures_in-meets ks)

meets-missing : (ks : List String) → meets missing_codes ks ≡ includes ks "traycer-cli-missing"
meets-missing [] = refl
meets-missing (k ∷ ks) =
    ground (arith, meets-missing ks, eq_iff k "traycer-cli-missing", eq_iff "traycer-cli-missing" k)

-- What a verdict says.
abbrev is_failed_verdict : NativeOutcome → Bool
is_failed_verdict failed = true
is_failed_verdict _ = false

abbrev is_completed_verdict : NativeOutcome → Bool
is_completed_verdict completed = true
is_completed_verdict _ = false

verdict_failed :
    (n : Native)
    → is_failed_verdict (classify_native n.snapshot n.is_observed).outcome ≡ is_native_failure n
unfolding classify_native verdict_from
verdict_failed n =
    let ks = codes_from [] (diagnostics_of n.snapshot) in
    ground (
      arith,
      failures_in-meets ks,
      meets-codes_from native_failure_codes [] (diagnostics_of n.snapshot),
    )

verdict_completed :
    (n : Native)
    → is_completed_verdict (classify_native n.snapshot n.is_observed).outcome ≡ is_native_success n
unfolding classify_native verdict_from
verdict_completed n =
    let ks = codes_from [] (diagnostics_of n.snapshot) in
    ground (
      arith,
      failures_in-meets ks,
      meets-missing ks,
      meets-codes_from native_failure_codes [] (diagnostics_of n.snapshot),
      meets-codes_from missing_codes [] (diagnostics_of n.snapshot),
    )

applied-IsViewed :
    (x : Result) (n : Native) (v : Verdict)
    → is_failed_verdict v.outcome ≡ is_native_failure n
    → is_completed_verdict v.outcome ≡ is_native_success n
    → IsViewed (record { decided = apply_native_verdict x v; external = x; verdict = v }) n
unfolding apply_native_verdict
applied-IsViewed x n v f c = record {
  completed_iff = ground (arith, f, c);
  partial_iff = ground (arith, f, c);
  failed_iff = ground (arith, f, c);
}

module _ ⦃e : Engine⦄ ⦃u : Url⦄ ⦃g : Digest⦄ ⦃t : Dates⦄ where
  view-IsViewed :
      (o : Option Result) (native : Result → Native) (v : View)
      → (o >>= λ x. some (record {
        decided =
            apply_native_verdict x (classify_native (native x).snapshot (native x).is_observed);
        external = x;
        verdict = classify_native (native x).snapshot (native x).is_observed;
      }))
        ≡ some v
      → IsViewed v (native v.external)
  view-IsViewed none native v h = absurd (ground (arith, h))
  view-IsViewed (some x) native v h =
      subst (λ w. IsViewed w (native w.external)) (some_view h)
        (applied-IsViewed x (native x) (classify_native (native x).snapshot (native x).is_observed)
          (verdict_failed (native x)) (verdict_completed (native x)))
    where
      some_view : {w : View} → some w ≡ some v → w ≡ v
      some_view q = ground (arith, q)

  -- A view is complete exactly when the collection was complete and the native observation did not
  -- fail, or no route was eligible and the native observation succeeded; partial exactly when the
  -- collection was, or was complete beside a native failure; failed exactly when the collection
  -- was, or no route was eligible, some are configured and the native observation failed. The
  -- native observation fails where there is no snapshot or a diagnostic has a failure code; it
  -- succeeds where it does not fail, its CLI is there and a source of this run returned rows.
  pub collect_view-IsViewed :
      (d : Deps) (cfg : Value) (native : Result → Native) (v : View)
      → collect_view d cfg native ≡ some v
      → IsViewed v (native v.external)
  unfolding collect_view
  collect_view-IsViewed d cfg native v h = view-IsViewed (collect d cfg) native v h
