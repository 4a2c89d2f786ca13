-- ===== src/Collector/Steps.antt =====
-- lib/collector.js: the steps of the second pass of `collect`, one for each id.
use view_limits.Base.{
  true, false, Option, none, some, List, [], ◌∷◌, ◌++◌, String, str_eq, ◌≡◌, ◌≢◌, refl, sym, ap,
  subst, ◌∙◌, arith, Option-cases, eq_iff, eq_refl, includes, Bool-cases, inl, inr, if◌then◌else◌,
}
use view_limits.Value.{Value, str, obj, Fields, get_field, is_plain_object}
use view_limits.Cache.{route_by_id}
use view_limits.Cache.Entry.{Dates, entry_for}
use view_limits.Collector.Plan.{RouteOutcome, completed, failed, pending, skipped, State, Deps}
use view_limits.Collector.Fetches.{find}
use view_limits.Collector.Passes.{
  Published, with_state, retain, publish_state, publish_for, publish_observed, publish_unknown,
  pass_two, or_undefined, unknown_status, message_of, set_field,
}
use view_limits.Collector.States.{
  state_of, state_of-append, get_field-set_field, route_by_id-append, ids, is_distinct,
  route_by_id-has_id,
}
use view_limits.Collector.Entries.{View, view, other_state, publish_state-other}

new_state :
    (ss : List State) (s : State) → state_of s.id ss ≡ none → state_of s.id (ss ++ s ∷ []) ≡ some s
new_state ss s n = ground (arith, state_of-append s.id ss s, n, eq_refl s.id)

new_entry : (id : String) (v : Value) (fs : Fields) → get_field id (set_field id v fs) ≡ v
new_entry id v fs = ground (arith, get_field-set_field id id v fs, eq_refl id)

new_route :
    (id : String) (rs : List Value) (route : Fields)
    → get_field "id" route ≡ str id
    → route_by_id id (rs ++ obj route ∷ []) ≡ some route
new_route id rs route q = rw (route_by_id-append id rs route, q, eq_refl id) refl

-- Nothing is published for the id.
pub record IsNew (k : String) (a : Published) : Type 0 where
  pub no_fetch : route_by_id k a.fetched ≡ none
  pub no_state : state_of k a.states ≡ none

module _ ⦃t : Dates⦄ where
  -- What the second pass makes of a route: an observation of this round with its route, or the
  -- prior entry as it was.
  pub record IsStep (d : Deps) (observed : List (String × Value)) (prior route : Fields) (s : State)
      (w : View) : Type 0 where
    pub state : State
    pub is_state : w.state ≡ some state
    pub same : state.outcome ≡ s.outcome
    pub made :
        s.outcome ≡ completed
        → (entry_for route
              (or_undefined (find s.id observed))
              (get_field "provider" route)
              (d.now s.id)
            ≡ some w.entry)
          × (w.fetched ≡ some route)
    pub kept :
        (old : Fields)
        → s.outcome ≢ completed
        → get_field s.id prior ≡ obj old
        → (w.entry ≡ obj old) × (w.fetched ≡ none)

  module _ (d : Deps) (observed : List (String × Value)) (prior route : Fields) (s : State)
      (a : Published) (n : IsNew s.id a) where
    observed-IsStep :
        (o : Option Value) (b : Published)
        → s.outcome ≡ completed
        → get_field "id" route ≡ str s.id
        → entry_for route
            (or_undefined (find s.id observed))
            (get_field "provider" route)
            (d.now s.id)
          ≡ o
        → publish_observed o route s a ≡ some b
        → IsStep d observed prior route s (view s.id b)
    observed-IsStep none b c q m h = absurd (ground arith)
    observed-IsStep (some v) b c q m h = record {
      state = s;
      is_state = ground (arith, h, new_state a.states s n.no_state);
      same = refl;
      made = λ c. (
        ground (arith, h, m, new_entry s.id v a.entries),
        ground (arith, h, new_route s.id a.fetched route q),
      );
      kept = λ old other p. absurd (other c);
    }

    retained-IsStep :
        (b : Published)
        → s.outcome ≢ completed
        → retain (get_field s.id prior) s a ≡ b
        → IsStep d observed prior route s (view s.id b)
    retained-IsStep b c h = record {
      state = record s { retained = true };
      is_state = ground (arith, h, new_state a.states (record s { retained = true }) n.no_state);
      same = refl;
      made = λ x. absurd (c x);
      kept = λ old other p. (
        ground (arith, h, p, new_entry s.id (get_field s.id prior) a.entries),
        ground (arith, h, n.no_fetch),
      );
    }

    left-IsStep :
        (s' : State) (b : Published)
        → s.outcome ≢ completed
        → is_plain_object (get_field s.id prior) ≡ false
        → state_of s.id b.states ≡ some s'
        → s'.outcome ≡ s.outcome
        → IsStep d observed prior route s (view s.id b)
    left-IsStep s' b c f q same = record {
      state = s';
      is_state = q;
      same = same;
      made = λ x. absurd (c x);
      kept = λ old other p. absurd (ground (arith, f, p));
    }

    failed-IsStep :
        (o : Option Value) (b : Published)
        → s.outcome ≢ completed
        → (if is_plain_object (get_field s.id prior)
            then some (retain (get_field s.id prior) s a)
            else publish_unknown o s a)
          ≡ some b
        → IsStep d observed prior route s (view s.id b)
    failed-IsStep o b c h = elim (Bool-cases (is_plain_object (get_field s.id prior))) [
      | inl p ↦ retained-IsStep b c (ground (arith, p, h))
      | inr f ↦ elim (Option-cases o) [
        | inl x ↦ absurd (ground (arith, f, h, x))
        | inr (v, x) ↦
            left-IsStep (record s { retained = false }) b c f
              (ground
                (arith, f, h, x, new_state a.states (record s { retained = false }) n.no_state))
              refl
      ]
    ]

    skipped-IsStep :
        (b : Published)
        → s.outcome ≢ completed
        → (if is_plain_object (get_field s.id prior)
            then retain (get_field s.id prior) s a
            else with_state s a)
          ≡ b
        → IsStep d observed prior route s (view s.id b)
    skipped-IsStep b c h = elim (Bool-cases (is_plain_object (get_field s.id prior))) [
      | inl p ↦ retained-IsStep b c (ground (arith, p, h))
      | inr f ↦ left-IsStep s b c f (ground (arith, f, h, new_state a.states s n.no_state)) refl
    ]

    publish_state-IsStep :
        (failures : List (String × String)) (o : RouteOutcome) (b : Published)
        → s.outcome ≡ o
        → get_field "id" route ≡ str s.id
        → publish_state d observed failures prior route s a ≡ some b
        → IsStep d observed prior route s (view s.id b)
    unfolding publish_state
    publish_state-IsStep failures completed b c q h =
        observed-IsStep _ b c q refl (ground (arith, c, h))
    publish_state-IsStep failures skipped b c q h =
        skipped-IsStep b (λ x. ground (arith, c, x)) (ground (arith, c, h))
    publish_state-IsStep failures failed b c q h =
        failed-IsStep
          (entry_for route (unknown_status (message_of failures s)) (get_field "provider" route)
            (d.now s.id))
          b (λ x. ground (arith, c, x)) (ground (arith, c, h))
    publish_state-IsStep failures pending b c q h =
        failed-IsStep
          (entry_for route (unknown_status (message_of failures s)) (get_field "provider" route)
            (d.now s.id))
          b (λ x. ground (arith, c, x)) (ground (arith, c, h))

  module _ (d : Deps) (observed : List (String × Value)) (failures : List (String × String))
      (prior : Fields) (routes : List Value) where
    publish_for-other :
        (o : Option Fields) (s : State) (a b : Published) (k : String)
        → route_by_id s.id routes ≡ o
        → str_eq s.id k ≡ false
        → publish_for d observed failures prior o s a ≡ some b
        → view k b ≡ view k a
    unfolding publish_for
    publish_for-other none s a b k q f h = ground (arith, h, other_state k a.states s f)
    publish_for-other (some route) s a b k q f h =
        publish_state-other d observed failures prior route s a b k
          (route_by_id-has_id s.id routes route q) f h

    -- An id that no state has is left as it was.
    pub pass_two-other :
        (ss : List State) (a b : Published) (k : String)
        → includes (ids ss) k ≡ false
        → pass_two d observed failures prior routes ss a ≡ some b
        → view k b ≡ view k a
    unfolding pass_two
    pass_two-other [] a b k f h = ground (arith, h)
    pass_two-other (s ∷ ss) a b k f h =
        elim (Option-cases (publish_for d observed failures prior (route_by_id s.id routes) s a)) [
          | inl n ↦ absurd (ground (arith, h, n))
          | inr (c, q) ↦
              pass_two-other ss c b k (ground (arith, f)) (ground (arith, h, q))
              ∙ publish_for-other (route_by_id s.id routes) s a c k refl (ground (arith, f)) q
        ]

    still-IsNew : (k : String) (a b : Published) → IsNew k a → view k b ≡ view k a → IsNew k b
    still-IsNew k a b n q = record {
      no_fetch = ap View.fetched q ∙ n.no_fetch;
      no_state = ap View.state q ∙ n.no_state;
    }

    first_same :
        (s x : State) (ss : List State) (k : String)
        → str_eq x.id k ≡ true
        → state_of k (x ∷ ss) ≡ some s
        → x ≡ s
    unfolding state_of
    first_same s x ss k t h = ground (arith, h, t)

    first-IsStep :
        (o : Option Fields) (s : State) (a b : Published) (route : Fields)
        → o ≡ some route
        → get_field "id" route ≡ str s.id
        → IsNew s.id a
        → publish_for d observed failures prior o s a ≡ some b
        → IsStep d observed prior route s (view s.id b)
    unfolding publish_for
    first-IsStep none s a b route r q n h = absurd (ground arith)
    first-IsStep (some l) s a b route r q n h =
        publish_state-IsStep d observed prior route s a n failures s.outcome b refl q
          (ground (arith, r, h))

    -- The pass makes one step for each id.
    pub pass_two-IsStep :
        (ss : List State) (a b : Published) (k : String) (s : State) (route : Fields)
        → is_distinct (ids ss) ≡ true
        → state_of k ss ≡ some s
        → route_by_id k routes ≡ some route
        → IsNew k a
        → pass_two d observed failures prior routes ss a ≡ some b
        → IsStep d observed prior route s (view k b)
    unfolding pass_two state_of is_distinct
    pass_two-IsStep [] a b k s route u st r n h = absurd (ground arith)
    pass_two-IsStep (x ∷ ss) a b k s route u st r n h =
        elim (Option-cases (publish_for d observed failures prior (route_by_id x.id routes) x a)) [
          | inl z ↦ absurd (ground (arith, h, z))
          | inr (c, q) ↦
              let later : pass_two d observed failures prior routes ss c ≡ some b =
                ground (arith, h, q) in
              elim (Bool-cases (str_eq x.id k)) [
                | inr f ↦
                    pass_two-IsStep ss c b k s route (ground (arith, u)) (ground (arith, st, f)) r
                      (still-IsNew k a c n
                        (publish_for-other (route_by_id x.id routes) x a c k refl f q))
                      later
                | inl e ↦
                    let id = (eq_iff x.id k).0 e in
                    let last = pass_two-other ss c b x.id (ground (arith, u)) later in
                    let same = first_same s x ss k e st in
                    let start =
                      first-IsStep (route_by_id x.id routes) x a c route
                        (ap (λ j. route_by_id j routes) id ∙ r)
                        (route_by_id-has_id x.id routes route
                          (ap (λ j. route_by_id j routes) id ∙ r))
                        (subst (λ j. IsNew j a) (sym id) n) q in
                    subst (λ y. IsStep d observed prior route y (view k b)) same
                      (subst (λ j. IsStep d observed prior route x (view j b)) id
                        (subst (IsStep d observed prior route x) (sym last) start))
              ]
        ]
