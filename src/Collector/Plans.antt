-- ===== src/Collector/Plans.antt =====
-- lib/collector.js: the plan and the fetches, seen at one route.
use view_limits.Base.{
  true, false, Option, none, some, List, [], ◌∷◌, String, str_eq, ◌≡◌, refl, sym, ap, ◌∙◌, arith,
  eq_iff, includes, Bool-cases, inl, inr, map, if◌then◌else◌,
}
use view_limits.Value.{Value, obj}
use view_limits.Collector.Plan.{
  Planned, Deps, Fetched, returned, threw, eligible, is_pending, is_xiaomi_route,
}
use view_limits.Collector.Fetches.{find, fetch_all}
use view_limits.Collector.Collect.{states_of}
use view_limits.Collector.States.{state_of, is_distinct}

-- The first plan for the id.
unfoldable pub plan_at : String → List Planned → Option Planned
plan_at id [] = none
plan_at id (p ∷ ps) = let rest = plan_at id ps in if str_eq p.state.id id then some p else rest

abbrev pub plan_ids : List Planned → List String
plan_ids = map (λ (p : Planned). p.state.id)

pub plan_at-none :
    (id : String) (ps : List Planned) → includes (plan_ids ps) id ≡ false → plan_at id ps ≡ none
unfolding plan_at
plan_at-none id [] h = refl
plan_at-none id (p ∷ ps) h = ground (arith, h, plan_at-none id ps)

includes-eligible :
    (id : String) (ps : List Planned)
    → includes (plan_ids ps) id ≡ false
    → includes (plan_ids (eligible ps)) id ≡ false
unfolding eligible
includes-eligible id [] h = refl
includes-eligible id (p ∷ ps) h = ground (arith, h, includes-eligible id ps)

pub eligible-distinct :
    (ps : List Planned)
    → is_distinct (plan_ids ps) ≡ true
    → is_distinct (plan_ids (eligible ps)) ≡ true
unfolding is_distinct eligible
eligible-distinct [] h = refl
eligible-distinct (p ∷ ps) h =
    ground (arith, h, eligible-distinct ps, includes-eligible p.state.id ps)

pub head_same :
    (id : String) (q p : Planned) (ps : List Planned)
    → str_eq q.state.id id ≡ true
    → plan_at id (q ∷ ps) ≡ some p
    → q ≡ p
unfolding plan_at
head_same id q p ps t h = ground (arith, h, t)

pub head_fresh :
    (id : String) (q : Planned) (ps : List Planned)
    → is_distinct (plan_ids (q ∷ ps)) ≡ true
    → str_eq q.state.id id ≡ true
    → includes (plan_ids ps) id ≡ false
unfolding is_distinct
head_fresh id q ps u t = ground (arith, u, ap (includes (plan_ids ps)) ((eq_iff q.state.id id).0 t))

pub plan_at-id :
    (id : String) (ps : List Planned) (p : Planned) → plan_at id ps ≡ some p → p.state.id ≡ id
unfolding plan_at
plan_at-id id [] p h = absurd (ground arith)
plan_at-id id (q ∷ ps) p h = elim (Bool-cases (str_eq q.state.id id)) [
  | inl t ↦
      ap (λ (o : Planned). o.state.id) (sym (head_same id q p ps t h)) ∙ (eq_iff q.state.id id).0 t
  | inr f ↦ plan_at-id id ps p (ground (arith, h, f))
]

pub at_id :
    (f g : List (String × String)) {i j : String}
    → i ≡ j
    → find j f ≡ find j g
    → find i f ≡ find i g
at_id f g q h = ap (λ k. find k f) q ∙ h ∙ ap (λ k. find k g) (sym q)

-- An eligible route keeps its plan, and the plan of another route is not among the eligible ones.
pub plan_at-eligible :
    (id : String) (ps : List Planned) (p : Planned)
    → is_distinct (plan_ids ps) ≡ true
    → plan_at id ps ≡ some p
    → plan_at id (eligible ps) ≡ (if is_pending p.state.outcome then some p else none)
unfolding plan_at eligible is_distinct
plan_at-eligible id [] p u h = absurd (ground arith)
plan_at-eligible id (q ∷ ps) p u h = elim (Bool-cases (str_eq q.state.id id)) [
  | inl t ↦
      let same = head_same id q p ps t h in
      let fresh =
        plan_at-none id (eligible ps) (includes-eligible id ps (head_fresh id q ps u t)) in
      ground (arith, t, fresh, ap some same, ap (λ (o : Planned). is_pending o.state.outcome) same)
  | inr f ↦ ground (arith, f, plan_at-eligible id ps p (ground (arith, u)) (ground (arith, h, f)))
]

pub state_of-states_of :
    (id : String) (ps : List Planned) (p : Planned)
    → plan_at id ps ≡ some p
    → state_of id (states_of ps) ≡ some p.state
unfolding plan_at state_of states_of
state_of-states_of id [] p h = absurd (ground arith)
state_of-states_of id (q ∷ ps) p h = ground (arith, h, state_of-states_of id ps p)

-- A fetch of another route leaves the answers for the id alone.
pub fetch_all-other :
    (d : Deps) (id : String) (ps : List Planned)
    → plan_at id ps ≡ none
    → (find id (fetch_all d ps).observed ≡ none) × (find id (fetch_all d ps).failures ≡ none)
unfolding fetch_all plan_at
fetch_all-other d id [] h = (refl, refl)
fetch_all-other d id (p ∷ ps) h = ground (arith, h, fetch_all-other d id ps, d.fetch p.route)

-- The answer of a fetch.
abbrev pub status_in : Fetched → Option Value
status_in (returned v) = some v
status_in (threw m) = none

abbrev pub message_in : Fetched → Option String
message_in (returned v) = none
message_in (threw m) = some m

pub fetch_all-own :
    (d : Deps) (id : String) (ps : List Planned) (p : Planned)
    → is_distinct (plan_ids ps) ≡ true
    → plan_at id ps ≡ some p
    → is_xiaomi_route (obj p.route) ≡ false
    → (find id (fetch_all d ps).observed ≡ status_in (d.fetch p.route))
      × (find id (fetch_all d ps).failures ≡ message_in (d.fetch p.route))
unfolding fetch_all plan_at is_distinct
fetch_all-own d id [] p u h x = absurd (ground arith)
fetch_all-own d id (q ∷ ps) p u h x = elim (Bool-cases (str_eq q.state.id id)) [
  | inl t ↦
      let same = head_same id q p ps t h in
      ground (
        arith,
        t,
        ap (λ (o : Planned). is_xiaomi_route (obj o.route)) same,
        ap (λ (o : Planned). d.fetch o.route) same,
        x,
        fetch_all-other d id ps (plan_at-none id ps (head_fresh id q ps u t)),
        d.fetch q.route,
      )
  | inr f ↦ ground (
    arith,
    f,
    fetch_all-own d id ps p (ground (arith, u)) (ground (arith, h, f)) x,
    d.fetch q.route,
  )
]

-- No fetch is made for a Xiaomi route.
pub fetch_all-xiaomi :
    (d : Deps) (id : String) (ps : List Planned) (p : Planned)
    → is_distinct (plan_ids ps) ≡ true
    → plan_at id ps ≡ some p
    → is_xiaomi_route (obj p.route) ≡ true
    → (find id (fetch_all d ps).observed ≡ none) × (find id (fetch_all d ps).failures ≡ none)
unfolding fetch_all plan_at is_distinct
fetch_all-xiaomi d id [] p u h x = absurd (ground arith)
fetch_all-xiaomi d id (q ∷ ps) p u h x = elim (Bool-cases (str_eq q.state.id id)) [
  | inl t ↦ ground (
    arith,
    ap (λ (o : Planned). is_xiaomi_route (obj o.route)) (head_same id q p ps t h),
    x,
    fetch_all-other d id ps (plan_at-none id ps (head_fresh id q ps u t)),
  )
  | inr f ↦ ground (
    arith,
    f,
    fetch_all-xiaomi d id ps p (ground (arith, u)) (ground (arith, h, f)) x,
    d.fetch q.route,
  )
]
