-- ===== src/Score/Bounds.antt =====
-- lib/score-candidates.js: how large a score can be and what an unresolved dimension adds to it.
use view_limits.Base.{
  ℕ, zero, suc, ◌+◌, ◌*◌, ◌≤◌, Bool, true, false, ◌&&◌, ◌||◌, Option, none, some, List, [], ◌∷◌,
  String, leb, ◌==◌, length, ◌≡◌, refl, ap, arith, Bool-cases, inl, inr,
}
use native.Mathlib.Nat.{div-lt_iff_lt-mul}
use view_limits.Base.Text.{Engine}
use view_limits.Value.{get}
use view_limits.Facts.{Fact, known_string, norm, fact_is_known}
use view_limits.Registry.{Registry}
use view_limits.Gate.Time.{Clockwork}
use view_limits.Score.Reasons.{Reason, Code, route_healthy, route_constrained, route_state_negative}
use view_limits.Eligibility.Inputs.{candidate_family, subject_family}
use view_limits.Score.Facets.{
  Facet, Evidence, score_task_fit, share, count_covered, fit_of, covers, gives, because, fit_with,
  fit_needing, fit_for, caps_of, known_name, needs_of,
}
use view_limits.Score.Scorers.{
  score_harness_affinity, score_resource_pressure, score_cost_speed, score_continuity,
  score_review_independence, discount, combine, cost_tiers, speed_tiers, part, single, mean_of,
  compare_families, tier_of, tier_named, with_tier, pressure_of, pressure_at,
}
use view_limits.Score.{is_scored}

pub some_injective : {A : Type 0} {a b : A} → some a ≡ some b → a ≡ b
some_injective {a} q = ap (λ o. elim o [ none ↦ a | some c ↦ c ]) q

-- A facet of at most a thousand points, and of none where it is unresolved.
unfoldable pub within : Facet → Bool
within f = leb f.contribution 1000 && (is_scored f.status || f.contribution == 0)

count_covered-length : (caps needed : List String) → count_covered caps needed ≤ length needed
unfolding count_covered
count_covered-length caps [] = ground arith
count_covered-length caps (n ∷ ns) = ground (arith, count_covered-length caps ns)

share_le : (c n : ℕ) → c ≤ n → share c n ≤ 1000
unfolding share
share_le c zero h = ground arith
share_le c (suc n) h = ground (
  arith,
  (div-lt_iff_lt-mul {k = 2 * suc n} {x = 2000 * c + suc n} {y = 1001} (ground arith)).1
      (ground (arith, h)),
)

gives-within : (n : ℕ) (rs : List Reason) → n ≤ 1000 → within (gives n rs) ≡ true
unfolding within
gives-within n rs h = ground (arith, h)

covers-within : (caps needed : List String) → within (covers caps needed) ≡ true
unfolding covers
covers-within caps needed =
    gives-within _ _
      (share_le (count_covered caps needed) (length needed) (count_covered-length caps needed))

-- A part of the cost and speed score.
Within : Option ℕ → Type 0
Within o = (n : ℕ) → o ≡ some n → n ≤ 1000

tier-Within :
    (missing found : Code) (label : String) (t : Option (String × ℕ))
    → ((s : String) (n : ℕ) → t ≡ some (s, n) → n ≤ 1000)
    → Within (part missing found label t).0
unfolding Within
tier-Within missing found label none h n q = ground (arith, q)
tier-Within missing found label (some (s, m)) h n q = rw (← some_injective q) (h s m refl)

single-within : (p : Option ℕ × Reason) → Within p.0 → within (single p) ≡ true
unfolding Within within
single-within (none, r) h = refl
single-within (some n, r) h = gives-within n (r ∷ []) (h n refl)

mean-within :
    (a b : Option ℕ) (rs : List Reason) → Within a → Within b → within (mean_of a b rs) ≡ true
unfolding mean_of Within within
mean-within (some a) (some b) rs h j = gives-within _ rs (ground (arith, h a refl, j b refl))
mean-within none none rs h j = refl
mean-within none (some b) rs h j = refl
mean-within (some a) none rs h j = refl

combine-within :
    (c s : Bool) (cost speed : Option ℕ × Reason)
    → Within cost.0
    → Within speed.0
    → within (combine c s cost speed) ≡ true
unfolding combine
combine-within false false cost speed h j = gives-within 1000 _ (ground arith)
combine-within true false cost speed h j = single-within cost h
combine-within false true cost speed h j = single-within speed j
combine-within true true cost speed h j = mean-within cost.0 speed.0 _ h j

module _ ⦃e : Engine⦄ where
  table-Within :
      (table : String → Option ℕ)
      → ((s : String) → Within (table s))
      → (f : Fact) (s : String) (n : ℕ) → tier_of table f ≡ some (s, n)
      → n ≤ 1000
  unfolding Within
  table-Within table h f s n q = elim (Bool-cases (fact_is_known f)) [
    | inl t ↦ named (norm f.value) (ground (arith, q, t))
    | inr no_fact ↦ ground (arith, q, no_fact)
  ]
    where
      with_value :
          (tier : String) (o : Option ℕ)
          → table tier ≡ o
          → with_tier tier o ≡ some (s, n)
          → n ≤ 1000
      with_value tier none p r = ground (arith, r)
      with_value tier (some m) p r = rw (← ap (λ x. x.1) (some_injective r)) (h tier m p)

      named : (o : Option String) → tier_named table o ≡ some (s, n) → n ≤ 1000
      named none r = ground (arith, r)
      named (some tier) r = with_value tier (table tier) refl r

  cost-Within : (s : String) → Within (cost_tiers s)
  unfolding Within cost_tiers
  cost-Within s n q = ground (arith, q)

  speed-Within : (s : String) → Within (speed_tiers s)
  unfolding Within speed_tiers
  speed-Within s n q = ground (arith, q)

  pub cost_speed-within : (x : Evidence) → within (score_cost_speed x) ≡ true
  unfolding score_cost_speed
  cost_speed-within x =
      combine-within _ _ _ _ (tier-Within _ _ _ _ (table-Within cost_tiers cost-Within x.cost))
        (tier-Within _ _ _ _ (table-Within speed_tiers speed-Within x.speed))

module _ ⦃e : Engine⦄ ⦃k : Clockwork⦄ where
  pub task_fit-within : (x : Evidence) (f : Facet) → score_task_fit x ≡ some f → within f ≡ true
  unfolding score_task_fit within fit_of fit_with fit_for fit_needing
  task_fit-within x f h = named (known_name (get "taskKind" (get "dimensions" x.profile))) h
    where
      fit :
          (needed : List String) (caps : Option (List String))
          → within (fit_with x needed caps) ≡ true
      fit needed none = refl
      fit needed (some caps) = covers-within caps _

      needing : (o : Option (List String)) → fit_needing x o ≡ some f → within f ≡ true
      needing none r = ground (arith, r)
      needing (some needed) r = rw (← some_injective r) (fit needed (caps_of x))

      named :
          (o : Option String)
          → fit_for x (get "taskKind" (get "dimensions" x.profile)) o ≡ some f
          → within f ≡ true
      named none r = rw (← some_injective r) refl
      named (some kind) r = needing (needs_of kind) r

  pub harness-within :
      (reg : Registry) (x : Evidence) → within (score_harness_affinity reg x) ≡ true
  unfolding score_harness_affinity within
  harness-within reg x = ground arith

  discount-within :
      (now : Option ℕ) (fresh : Fact) (n : ℕ) (why : Reason)
      → n ≤ 1000
      → within (discount now fresh n why) ≡ true
  unfolding discount within
  discount-within none fresh n why h = ground (arith, h)
  discount-within (some now) fresh n why h = ground (arith, h)

  pressure_of-within : (x : Evidence) (o : Option String) → within (pressure_of x o) ≡ true
  unfolding pressure_of within
  pressure_of-within x none = refl
  pressure_of-within x (some state) = ground (
    arith,
    discount-within x.now x.route_fresh 1000 (because route_healthy "route") (ground arith),
    discount-within x.now x.route_fresh 400 (because route_constrained "route") (ground arith),
    discount-within x.now x.route_fresh 0 (because route_state_negative "route:exhausted")
        (ground arith),
  )

  pub pressure-within : (x : Evidence) → within (score_resource_pressure x) ≡ true
  unfolding score_resource_pressure within pressure_at
  pressure-within x = go (known_string x.route_id)
    where
      go : (o : Option String) → within (pressure_at x o) ≡ true
      go none = refl
      go (some id) = ground (arith, pressure_of-within x (norm x.route_state.value))

  pub continuity-within : (x : Evidence) → within (score_continuity x) ≡ true
  unfolding score_continuity within
  continuity-within x = ground arith

  families-within : (c s : Option String) → within (compare_families c s) ≡ true
  unfolding compare_families within
  families-within none none = refl
  families-within none (some s) = refl
  families-within (some c) none = refl
  families-within (some c) (some s) = ground arith

  pub independence-within :
      (reg : Registry) (x : Evidence) → within (score_review_independence reg x) ≡ true
  unfolding score_review_independence within
  independence-within reg x = ground (
    arith,
    families-within (candidate_family reg x.model_entry x.declared_family)
        (subject_family reg (get "subject" x.review)),
  )
