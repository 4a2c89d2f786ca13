-- ===== src/Score/Scorers.antt =====
-- lib/score-candidates.js: the scorers of harness affinity, resource pressure, cost and speed,
-- continuity, and review independence.
use view_limits.Base.{
  ℕ, ◌+◌, ◌/◌, Bool, true, false, ◌&&◌, ◌||◌, Option, none, some, List, [], ◌∷◌, String, str_eq,
  if◌then◌else◌, ltb,
}
use view_limits.Base.Text.{Engine, is_blank, fold}
use view_limits.Value.{Value, get, truthy}
use view_limits.Facts.{Fact, fact_is_known, known_string, norm}
use view_limits.Registry.{Registry}
use view_limits.Eligibility.Inputs.{candidate_family, subject_family}
use view_limits.Gate.Time.{Clockwork}
use view_limits.Gate.Decide.{instant_of}
use view_limits.Score.Reasons.{
  Code, Reason, caller_harness_unproven, candidate_harness_unproven, route_binding_absent,
  route_state_unproven, cost_signal_unproven, speed_signal_unproven, selected_profile_unproven,
  candidate_profile_unproven, family_unproven, same_harness, different_harness, route_healthy,
  route_constrained, route_state_negative, route_evidence_stale, route_freshness_unproven,
  route_freshness_not_evaluated, preference_absent, cost_tier, speed_tier, continuity_match,
  continuity_different, independence_proven, independence_violated, independence_not_required,
}
use view_limits.Score.Facets.{Facet, Evidence, because, gives, open_with, why_of, scope_of}

module _ ⦃e : Engine⦄ where
  -- `reg.canonicalHarnessId(name) || norm(name)`.
  abbrev harness_id : Registry → String → String
  harness_id reg name = elim (reg.canonical_harness_id name) [
    | none ↦ fold name
    | some id ↦ if is_blank id then fold name else id
  ]

  -- `scoreHarnessAffinity`.
  unfoldable pub score_harness_affinity : Registry → Evidence → Facet
  score_harness_affinity reg x = elim (known_string x.caller_harness) [
    | none ↦ open_with (
        because caller_harness_unproven
          (scope_of "caller" (why_of x.caller_harness "caller-fact-absent"))
        ∷ [])
    | some caller ↦ elim (known_string x.harness) [
      | none ↦ open_with (
          because candidate_harness_unproven
            (scope_of "harness" (why_of x.harness "candidate-fact-absent"))
          ∷ [])
      | some own ↦
          if str_eq (harness_id reg own) (harness_id reg caller)
          then gives 1000 (because same_harness (scope_of "harness" own) ∷ [])
          else gives 300 (because different_harness (scope_of "harness" own) ∷ [])
    ]
  ]

  -- The freshness discount of `scoreResourcePressure`: `Math.round(contribution / 2)`.
  unfoldable pub discount : ⦃k : Clockwork⦄ → Option ℕ → Fact → ℕ → Reason → Facet
  discount none fresh n why = gives n (why ∷ because route_freshness_not_evaluated "route" ∷ [])
  discount (some now) fresh n why =
      if fact_is_known fresh
      then elim (instant_of fresh.value) [
        | none ↦ gives ((n + 1) / 2) (why ∷ because route_evidence_stale "route" ∷ [])
        | some t ↦
            if ltb t now
            then gives ((n + 1) / 2) (why ∷ because route_evidence_stale "route" ∷ [])
            else gives n (why ∷ [])
      ]
      else gives ((n + 1) / 2) (why ∷ because route_freshness_unproven "route" ∷ [])

  -- `scoreResourcePressure` of a known state.
  unfoldable pub pressure_of : ⦃k : Clockwork⦄ → Evidence → Option String → Facet
  unfolding discount
  pressure_of x none = open_with (because route_state_unproven "route:unrecognized" ∷ [])
  pressure_of x (some state) =
      if str_eq state "healthy"
      then discount x.now x.route_fresh 1000 (because route_healthy "route")
      else if str_eq state "constrained"
      then discount x.now x.route_fresh 400 (because route_constrained "route")
      else if str_eq state "exhausted"
      then discount x.now x.route_fresh 0 (because route_state_negative "route:exhausted")
      else open_with (because route_state_unproven (scope_of "route" state) ∷ [])

  unfoldable pub pressure_at : ⦃k : Clockwork⦄ → Evidence → Option String → Facet
  unfolding pressure_of
  pressure_at x none = open_with (because route_binding_absent "route" ∷ [])
  pressure_at x (some id) =
      if fact_is_known x.route_state
      then pressure_of x (norm x.route_state.value)
      else open_with (
          because route_state_unproven
            (scope_of "route" (why_of x.route_state "cached-state-absent"))
          ∷ [])

  -- `scoreResourcePressure`.
  unfoldable pub score_resource_pressure : ⦃k : Clockwork⦄ → Evidence → Facet
  unfolding pressure_at
  score_resource_pressure x = pressure_at x (known_string x.route_id)

  -- The tier of a fact, where the table has it.
  abbrev pub with_tier : String → Option ℕ → Option (String × ℕ)
  with_tier tier none = none
  with_tier tier (some n) = some (tier, n)

  abbrev pub tier_named : (String → Option ℕ) → Option String → Option (String × ℕ)
  tier_named table none = none
  tier_named table (some tier) = with_tier tier (table tier)

  abbrev pub tier_of : (String → Option ℕ) → Fact → Option (String × ℕ)
  tier_of table f = if fact_is_known f then tier_named table (norm f.value) else none

  abbrev wants : Value → String → String → Bool
  wants preference a b = elim (norm preference) [ none ↦ false | some p ↦ str_eq p a || str_eq p b ]

-- `COST_TIERS` and `SPEED_TIERS`, by own property.
unfoldable pub cost_tiers : String → Option ℕ
cost_tiers tier =
    if str_eq tier "low"
    then some 1000
    else if str_eq tier "medium"
    then some 500
    else if str_eq tier "high"
    then some 100
    else none

unfoldable pub speed_tiers : String → Option ℕ
speed_tiers tier =
    if str_eq tier "fast"
    then some 1000
    else if str_eq tier "standard"
    then some 600
    else if str_eq tier "slow"
    then some 200
    else none

-- A preference that is asked for: its part of the score, or none where it is unproven.
abbrev pub part : Code → Code → String → Option (String × ℕ) → Option ℕ × Reason
part missing found label none = (none, because missing "candidate")
part missing found label (some (tier, n)) = (some n, because found (scope_of label tier))

-- `Math.round` of the mean of the parts.
unfoldable pub mean_of : Option ℕ → Option ℕ → List Reason → Facet
mean_of (some a) (some b) rs = gives ((a + b + 1) / 2) rs
mean_of _ _ rs = open_with rs

abbrev pub single : Option ℕ × Reason → Facet
single (none, r) = open_with (r ∷ [])
single (some n, r) = gives n (r ∷ [])

-- The parts that are asked for, cost before speed.
unfoldable pub combine : Bool → Bool → Option ℕ × Reason → Option ℕ × Reason → Facet
unfolding mean_of
combine false false cost speed = gives 1000 (because preference_absent "preferences" ∷ [])
combine true false cost speed = single cost
combine false true cost speed = single speed
combine true true cost speed = mean_of cost.0 speed.0 (cost.1 ∷ speed.1 ∷ [])

module _ ⦃e : Engine⦄ where
  -- `scoreCostSpeed`.
  unfoldable pub score_cost_speed : Evidence → Facet
  unfolding combine cost_tiers speed_tiers
  score_cost_speed x =
      combine (wants (get "cost" x.preferences) "minimize" "low")
        (wants (get "speed" x.preferences) "maximize" "fast")
        (part cost_signal_unproven cost_tier "cost" (tier_of cost_tiers x.cost))
        (part speed_signal_unproven speed_tier "speed" (tier_of speed_tiers x.speed))

  abbrev matches : Option String → String → Bool
  matches none own = false
  matches (some s) own = str_eq (fold s) (fold own)

  abbrev caller_why : Fact → Fact → String
  caller_why profile account = why_of profile (why_of account "caller-fact-absent")

  abbrev is_absent : Option String → Bool
  is_absent none = true
  is_absent (some s) = false

  -- `scoreContinuity`.
  unfoldable pub score_continuity : Evidence → Facet
  score_continuity x =
      let profile = known_string x.caller_profile in
      let account = known_string x.caller_account in
      if is_absent profile && is_absent account
      then open_with (
          because selected_profile_unproven
            (scope_of "caller" (caller_why x.caller_profile x.caller_account))
          ∷ [])
      else elim (known_string x.candidate_profile) [
        | none ↦ open_with (
            because candidate_profile_unproven
              (scope_of "profile" (why_of x.candidate_profile "candidate-fact-absent"))
            ∷ [])
        | some own ↦
            if matches profile own || matches account own
            then gives 1000 (because continuity_match (scope_of "profile" own) ∷ [])
            else gives 200 (because continuity_different (scope_of "profile" own) ∷ [])
      ]

  -- The families of the candidate and of the subject.
  unfoldable pub compare_families : Option String → Option String → Facet
  compare_families none none =
      open_with
        (because family_unproven "family:candidate" ∷ because family_unproven "family:subject" ∷ [])
  compare_families none (some s) = open_with (because family_unproven "family:candidate" ∷ [])
  compare_families (some c) none = open_with (because family_unproven "family:subject" ∷ [])
  compare_families (some c) (some s) =
      if str_eq c s
      then gives 0 (because independence_violated (scope_of "family" c) ∷ [])
      else gives 1000 (because independence_proven (scope_of "family" c) ∷ [])

  -- `scoreReviewIndependence`.
  unfoldable pub score_review_independence : Registry → Evidence → Facet
  unfolding compare_families
  score_review_independence reg x =
      if truthy (get "requireDifferentFamily" x.review)
      then compare_families (candidate_family reg x.model_entry x.declared_family)
          (subject_family reg (get "subject" x.review))
      else gives 1000 (because independence_not_required "review" ∷ [])
