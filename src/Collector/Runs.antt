-- ===== src/Collector/Runs.antt =====
-- lib/collector.js: the second pass behind a collection that is published.
use view_limits.Base.{
  true, Option, none, some, List, [], ◌∷◌, String, ◌≡◌, refl, sym, ap, ◌∙◌, arith,
}
use view_limits.Base.Text.{Engine}
use view_limits.Value.{Value, end}
use view_limits.Gate.Time.{◌>>=◌}
use view_limits.Monitor.Validate.{Url}
use view_limits.Monitor.Revision.{Digest}
use view_limits.Cache.Entry.{Dates}
use view_limits.Collector.Plan.{
  State, Planned, Deps, Acquired, owned, in_progress, refused, configured, plan_routes, eligible,
}
use view_limits.Collector.Passes.{Published, pass_two}
use view_limits.Collector.Collect.{
  Result, states_of, prior_of, write_cache, publish_result, collect_owned, collect_locked,
  collect_plan, collect_nothing, vault_failure, collect, observed_of, round_of,
}
use view_limits.Collector.States.{ids, ids-pass_one, ids-plan_from, configured_ids}

abbrev pub nothing : Published
nothing = record { entries = end; fetched = []; states = [] }

pub some_result : {r s : Result} → some r ≡ some s → r ≡ s
some_result h = ground (arith, h)

module _ ⦃e : Engine⦄ ⦃u : Url⦄ ⦃g : Digest⦄ ⦃t : Dates⦄ where
  -- The second pass behind a collection that is published.
  pub record IsRun (d : Deps) (cfg : Value) (r : Result) : Type 0 where
    pub observed : List (String × Value)
    pub failures : List (String × String)
    pub states : List State
    pub done : Published
    pub passes :
        pass_two d observed failures (prior_of d) (configured cfg) states nothing ≡ some done
    pub is_observed : observed ≡ observed_of d cfg (plan_routes d cfg)
    pub is_states : states ≡ (round_of d cfg (plan_routes d cfg)).states
    pub same_ids : ids states ≡ configured_ids (configured cfg)
    pub is_routes : r.routes ≡ done.states
    pub is_cache : r.cache ≡ write_cache d done.entries done.fetched

  write-IsRun :
      (d : Deps) (cfg : Value) (r : Result) (o : Option String) (a : Published)
      → pass_two d
          (observed_of d cfg (plan_routes d cfg))
          (round_of d cfg (plan_routes d cfg)).failures
          (prior_of d)
          (configured cfg)
          (round_of d cfg (plan_routes d cfg)).states
          nothing
        ≡ some a
      → publish_result d (observed_of d cfg (plan_routes d cfg)) a o ≡ r
      → r.published ≡ true
      → IsRun d cfg r
  unfolding publish_result round_of plan_routes
  write-IsRun d cfg r (some m) a h q p = absurd (ground (arith, q, p))
  write-IsRun d cfg r none a h q p = record {
    observed = observed_of d cfg (plan_routes d cfg);
    failures = (round_of d cfg (plan_routes d cfg)).failures;
    states = (round_of d cfg (plan_routes d cfg)).states;
    done = a;
    passes = h;
    is_observed = refl;
    is_states = refl;
    same_ids =
        ids-pass_one d _ _ (eligible (plan_routes d cfg)) _ ∙ ids-plan_from d cfg (configured cfg);
    is_routes = ap Result.routes (sym q);
    is_cache = ap Result.cache (sym q);
  }

  owned-IsRun :
      (d : Deps) (cfg : Value) (r : Result) (o : Option Published)
      → pass_two d
          (observed_of d cfg (plan_routes d cfg))
          (round_of d cfg (plan_routes d cfg)).failures
          (prior_of d)
          (configured cfg)
          (round_of d cfg (plan_routes d cfg)).states
          nothing
        ≡ o
      → (o >>= λ a. some (publish_result d (observed_of d cfg (plan_routes d cfg)) a d.write_error))
        ≡ some r
      → r.published ≡ true
      → IsRun d cfg r
  owned-IsRun d cfg r none q h p = absurd (ground (arith, h))
  owned-IsRun d cfg r (some a) q h p = write-IsRun d cfg r d.write_error a q (some_result h) p

  locked-IsRun :
      (d : Deps) (cfg : Value) (c : Acquired) (r : Result)
      → collect_locked d cfg (plan_routes d cfg) c ≡ some r
      → r.published ≡ true
      → IsRun d cfg r
  unfolding collect_locked collect_owned
  locked-IsRun d cfg owned r h p = owned-IsRun d cfg r _ refl h p
  locked-IsRun d cfg in_progress r h p = absurd (ground (arith, h, p))
  locked-IsRun d cfg (refused m) r h p = absurd (ground (arith, h, p))

  plan-IsRun :
      (d : Deps) (cfg : Value) (ps : List Planned) (r : Result)
      → collect_plan d cfg (plan_routes d cfg) ps ≡ some r
      → r.published ≡ true
      → IsRun d cfg r
  unfolding collect_plan collect_nothing
  plan-IsRun d cfg [] r h p =
      absurd (ground (arith, h, p, vault_failure (states_of (plan_routes d cfg))))
  plan-IsRun d cfg (q ∷ ps) r h p = locked-IsRun d cfg d.acquire r h p

  pub collect-IsRun :
      (d : Deps) (cfg : Value) (r : Result)
      → collect d cfg ≡ some r
      → r.published ≡ true
      → IsRun d cfg r
  unfolding collect
  collect-IsRun d cfg r h p = plan-IsRun d cfg (eligible (plan_routes d cfg)) r h p
