-- ===== src/Collector/Rounds.antt =====
-- lib/collector.js: the first pass of `collect`, seen at one route.
use view_limits.Base.{
  true, false, Option, none, some, List, [], ◌∷◌, String, str_eq, ◌≡◌, refl, ap, ◌∙◌, arith, eq_iff,
  Bool-cases, inl, inr, if◌then◌else◌,
}
use view_limits.Value.{Value}
use view_limits.Collector.Plan.{State, Planned, Deps}
use view_limits.Collector.Fetches.{find, Session}
use view_limits.Collector.Passes.{
  Round, mark, change_state, settle, add_failure, failure_of, pass_one,
}
use view_limits.Collector.States.{state_of, is_distinct, mark-id}
use view_limits.Collector.Plans.{
  plan_at, plan_ids, plan_at-none, head_same, head_fresh, plan_at-id, at_id,
}

state_of-change :
    (k id : String) (f : Option String) (ss : List State)
    → state_of k (change_state id (mark f) ss)
      ≡ elim (state_of k ss) [ none ↦ none | some s ↦ some (if str_eq id k then mark f s else s) ]
unfolding state_of change_state
state_of-change k id f [] = refl
state_of-change k id f (s ∷ ss) =
    ground
      (arith, mark-id f s, state_of-change k id f ss, eq_iff s.id k, eq_iff s.id id, eq_iff id k)

other_round :
    (o : Option String) (p : Planned) (r : Round) (id : String)
    → str_eq p.state.id id ≡ false
    → (find id (add_failure p.state.id o r.failures) ≡ find id r.failures)
      × (state_of id (change_state p.state.id (mark o) r.states) ≡ state_of id r.states)
other_round none p r id f =
    (refl, ground (arith, state_of-change id p.state.id none r.states, f, state_of id r.states))
other_round (some m) p r id f = (
  ground (arith, f),
  ground (arith, state_of-change id p.state.id (some m) r.states, f, state_of id r.states),
)

module _ (d : Deps) (x : Session) (observed : List (String × Value)) where
  settle-other :
      (p : Planned) (r : Round) (id : String)
      → str_eq p.state.id id ≡ false
      → (find id (settle d x observed p r).failures ≡ find id r.failures)
        × (state_of id (settle d x observed p r).states ≡ state_of id r.states)
  unfolding settle
  settle-other p r id f = other_round (failure_of d x observed p r.failures) p r id f

  settle-own :
      (p : Planned) (r : Round) (id : String) (s : State)
      → str_eq p.state.id id ≡ true
      → state_of id r.states ≡ some s
      → state_of id (settle d x observed p r).states
        ≡ some (mark (failure_of d x observed p r.failures) s)
  unfolding settle
  settle-own p r id s t q =
      state_of-change id p.state.id (failure_of d x observed p r.failures) r.states ∙ rw (q, t) refl

  failure_of-same :
      (p : Planned) (f g : List (String × String))
      → find p.state.id f ≡ find p.state.id g
      → failure_of d x observed p f ≡ failure_of d x observed p g
  unfolding failure_of
  failure_of-same p f g h = ground (arith, h)

  pub pass_one-other :
      (ps : List Planned) (r : Round) (id : String)
      → plan_at id ps ≡ none
      → state_of id (pass_one d x observed ps r).states ≡ state_of id r.states
  unfolding pass_one plan_at
  pass_one-other [] r id h = refl
  pass_one-other (p ∷ ps) r id h =
      pass_one-other ps (settle d x observed p r) id (ground (arith, h))
      ∙ (settle-other p r id (ground (arith, h))).1

  -- The first pass marks an eligible route by its own failure.
  pub pass_one-own :
      (ps : List Planned) (r : Round) (id : String) (p : Planned) (s : State)
      → is_distinct (plan_ids ps) ≡ true
      → plan_at id ps ≡ some p
      → state_of id r.states ≡ some s
      → state_of id (pass_one d x observed ps r).states
        ≡ some (mark (failure_of d x observed p r.failures) s)
  unfolding pass_one plan_at is_distinct
  pass_one-own [] r id p s u h q = absurd (ground arith)
  pass_one-own (o ∷ ps) r id p s u h q = elim (Bool-cases (str_eq o.state.id id)) [
    | inl t ↦
        let fresh = plan_at-none id ps (head_fresh id o ps u t) in
        let same = head_same id o p ps t h in
        pass_one-other ps (settle d x observed o r) id fresh
        ∙ settle-own o r id s t q
        ∙ ap (λ (k : Planned). some (mark (failure_of d x observed k r.failures) s)) same
    | inr f ↦
        let (same, state) = settle-other o r id f in
        pass_one-own ps (settle d x observed o r) id p s (ground (arith, u)) (ground (arith, h, f))
          (state ∙ q)
        ∙ ap (λ k. some (mark k s))
            (failure_of-same p _ r.failures
              (at_id _ r.failures (plan_at-id id ps p (ground (arith, h, f))) same))
  ]
