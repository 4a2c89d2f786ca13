-- ===== src/Routes/Resolve.antt =====
-- `resolveRoute`: which route it returns, and when it returns none.
use view_limits.Base.{
  ℕ, Bool, true, false, ◌&&◌, List, [], ◌∷◌, ◌++◌, ◌≡◌, ◌↔◌, some, none, String, if◌then◌else◌,
  arith, refl, ap, inl, inr, ◌∙◌, sym, Option-cases, Bool-cases, is_empty,
}
use mathlib.Core.List.{append-nil, append_assoc}
use view_limits.Base.Text.{Engine, is_blank}
use view_limits.Value.{Value, Printer, get, str}
use view_limits.Routes.{
  by_model, by_harness, combined, specificity, Hits, is_model_hit, is_harness_hit, push_if, signal,
  collect, choose, no_hits, route_list, identity_text, resolve_route, pick_by_specificity,
  is_identity,
}
use view_limits.Routes.Pick.{IsStrictBest, pick_iff}

-- The elements that pass the test, in order.
abbrev pub keep : (Value → Bool) → List Value → List Value
keep p [] = []
keep p (x ∷ xs) = if p x then x ∷ keep p xs else keep p xs

module _ ⦃e : Engine⦄ ⦃p : Printer⦄ where
  abbrev pub both : String → String → Value → Bool
  both m h r = is_model_hit m r && is_harness_hit h r

  -- A route is charged when both signals hit it and none ties with it, or when one signal alone
  -- has hits and it is the best of those.
  pub data IsCharged (m h : String) (rs : List Value) (r : Value) : Type 0 where
    by_both : IsStrictBest (specificity combined) r (keep (both m h) rs) → IsCharged m h rs r
    by_model_alone :
        keep (is_harness_hit h) rs ≡ []
        → IsStrictBest (specificity by_model) r (keep (is_model_hit m) rs)
        → IsCharged m h rs r
    by_harness_alone :
        keep (is_model_hit m) rs ≡ []
        → IsStrictBest (specificity by_harness) r (keep (is_harness_hit h) rs)
        → IsCharged m h rs r

  push_if-keep :
      (test : Value → Bool) (r : Value) (rs out : List Value)
      → push_if (test r) r out ++ keep test rs ≡ out ++ keep test (r ∷ rs)
  push_if-keep test r rs out = elim (Bool-cases (test r)) [
    | inl t ↦ rw t (append_assoc out (r ∷ []) (keep test rs))
    | inr f ↦ rw f refl
  ]

  collect_lem :
      (m h : String) (rs : List Value) (s : Hits)
      → collect m h rs s ≡ record {
        model_hits = s.model_hits ++ keep (is_model_hit m) rs;
        harness_hits = s.harness_hits ++ keep (is_harness_hit h) rs;
        combined_hits = s.combined_hits ++ keep (both m h) rs;
      }
  unfolding collect
  collect_lem m h [] s = simp append-nil
  collect_lem m h (r ∷ rs) s = collect_lem m h rs _ ∙ λ i. record {
    model_hits = push_if-keep (is_model_hit m) r rs s.model_hits i;
    harness_hits = push_if-keep (is_harness_hit h) r rs s.harness_hits i;
    combined_hits = push_if-keep (both m h) r rs s.combined_hits i;
  }

  keep_none :
      (test : Value → Bool) (r : Value) (rs : List Value)
      → keep test (r ∷ rs) ≡ []
      → (test r ≡ false) × (keep test rs ≡ [])
  keep_none test r rs h = (ground arith, ground arith)

  no_both_of_no_harness :
      (m h : String) (rs : List Value) → keep (is_harness_hit h) rs ≡ [] → keep (both m h) rs ≡ []
  no_both_of_no_harness m h [] e = refl
  no_both_of_no_harness m h (r ∷ rs) e =
      let (miss, less) = keep_none (is_harness_hit h) r rs e in
      ground (arith, no_both_of_no_harness m h rs less)

  no_both_of_no_model :
      (m h : String) (rs : List Value) → keep (is_model_hit m) rs ≡ [] → keep (both m h) rs ≡ []
  no_both_of_no_model m h [] e = refl
  no_both_of_no_model m h (r ∷ rs) e =
      let (miss, less) = keep_none (is_model_hit m) r rs e in
      ground (arith, no_both_of_no_model m h rs less)

  -- What is the strict best of a list is in it.
  best_not_nil :
      (score : Value → ℕ) (r : Value) (rs : List Value)
      → IsStrictBest score r rs
      → is_empty rs ≡ false
  best_not_nil score r rs ([], after, e, lb, la) = rw e refl
  best_not_nil score r rs (x ∷ before, after, e, lb, la) = rw e refl

  nil_of_is_empty : (rs : List Value) → is_empty rs ≡ true → rs ≡ []
  nil_of_is_empty [] h = refl
  nil_of_is_empty (r ∷ rs) h = absurd (ground arith)

  module _ (m h : String) (rs : List Value) (r : Value) where
    abbrev found : Hits
    found = record {
      model_hits = keep (is_model_hit m) rs;
      harness_hits = keep (is_harness_hit h) rs;
      combined_hits = keep (both m h) rs;
    }

    choose_sound : choose found ≡ some r → IsCharged m h rs r
    unfolding choose pick_by_specificity
    choose_sound c = elim (Bool-cases (is_empty (keep (both m h) rs))) [
      | inr some_both ↦ by_both ((pick_iff _ _ r).0 (ground arith))
      | inl no_both ↦ elim (Bool-cases (is_empty (keep (is_model_hit m) rs))) [
        | inl no_model ↦
            by_harness_alone (nil_of_is_empty _ no_model) ((pick_iff _ _ r).0 (ground arith))
        | inr some_model ↦ elim (Bool-cases (is_empty (keep (is_harness_hit h) rs))) [
          | inl no_harness ↦
              by_model_alone (nil_of_is_empty _ no_harness) ((pick_iff _ _ r).0 (ground arith))
          | inr some_harness ↦ absurd (ground arith)
        ]
      ]
    ]

    choose_complete : IsCharged m h rs r → choose found ≡ some r
    unfolding choose pick_by_specificity
    choose_complete (by_both best) = ground (
      arith,
      best_not_nil (specificity combined) r (keep (both m h) rs) best,
      (pick_iff (specificity combined) (keep (both m h) rs) r).1 best,
    )
    choose_complete (by_model_alone none_h best) = ground (
      arith,
      best_not_nil (specificity by_model) r (keep (is_model_hit m) rs) best,
      no_both_of_no_harness m h rs none_h,
      (pick_iff (specificity by_model) (keep (is_model_hit m) rs) r).1 best,
    )
    choose_complete (by_harness_alone none_m best) = ground (
      arith,
      best_not_nil (specificity by_harness) r (keep (is_harness_hit h) rs) best,
      no_both_of_no_model m h rs none_m,
      (pick_iff (specificity by_harness) (keep (is_harness_hit h) rs) r).1 best,
    )

  -- A dispatch resolves to a route exactly when that route is the one charged: both its signals
  -- hit and no other such route is as specific, or one signal alone has hits and the route is
  -- strictly the most specific of them. In every other case the answer is none.
  pub resolve_route_iff :
      (model context routes r : Value)
      → (resolve_route model context routes ≡ some r)
        ↔ IsCharged
            (identity_text model)
            (identity_text (get "harness" context))
            (route_list routes)
            r
  unfolding resolve_route
  resolve_route_iff model context routes r =
      let m = identity_text model in
      let h = identity_text (get "harness" context) in
      let rs = route_list routes in
      let e = ap choose (collect_lem m h rs no_hits) in
      (λ c. choose_sound m h rs r (sym e ∙ c), λ c. e ∙ choose_complete m h rs r c)

  identity_text_blank : (v : Value) → is_identity v ≡ false → identity_text v ≡ ""
  unfolding identity_text
  identity_text_blank (str s) h = ground arith
  identity_text_blank _ h = refl

  no_model_hits : (m : String) (rs : List Value) → m ≡ "" → keep (is_model_hit m) rs ≡ []
  unfolding is_model_hit signal
  no_model_hits m [] e = refl
  no_model_hits m (r ∷ rs) e =
      let blank : is_blank m ≡ true = rw e refl in ground (arith, no_model_hits m rs e)

  no_harness_hits : (h : String) (rs : List Value) → h ≡ "" → keep (is_harness_hit h) rs ≡ []
  unfolding is_harness_hit signal
  no_harness_hits h [] e = refl
  no_harness_hits h (r ∷ rs) e =
      let blank : is_blank h ≡ true = rw e refl in ground (arith, no_harness_hits h rs e)

  none-IsCharged :
      (m h : String) (rs : List Value) (r : Value)
      → keep (is_model_hit m) rs ≡ []
      → keep (is_harness_hit h) rs ≡ []
      → ¬ IsCharged m h rs r
  none-IsCharged m h rs r em eh (by_both best) =
      ground (arith, best_not_nil _ r _ best, no_both_of_no_model m h rs em)
  none-IsCharged m h rs r em eh (by_model_alone n best) = ground (arith, best_not_nil _ r _ best)
  none-IsCharged m h rs r em eh (by_harness_alone n best) = ground (arith, best_not_nil _ r _ best)

  -- A dispatch whose model and harness are no identities (absent, blank, or no text at all) is
  -- charged to no route, whatever the configuration.
  pub unidentified_unresolved :
      (model context routes : Value)
      → is_identity model ≡ false
      → is_identity (get "harness" context) ≡ false
      → resolve_route model context routes ≡ none
  unidentified_unresolved model context routes hm hh =
      let rs = route_list routes in
      elim (Option-cases (resolve_route model context routes)) [
        | inl e ↦ e
        | inr (r, e) ↦ absurd (
            none-IsCharged (identity_text model) (identity_text (get "harness" context)) rs r
              (no_model_hits _ rs (identity_text_blank model hm))
              (no_harness_hits _ rs (identity_text_blank (get "harness" context) hh))
              ((resolve_route_iff model context routes r).0 e))
      ]
