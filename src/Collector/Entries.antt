-- ===== src/Collector/Entries.antt =====
-- lib/collector.js: what the second pass of `collect` publishes for each route.
use view_limits.Base.{
  true, false, Option, none, some, List, [], ◌∷◌, ◌++◌, String, str_eq, ◌≡◌, refl, arith,
  Option-cases, inl, inr,
}
use view_limits.Value.{Value, str, obj, Fields, get_field}
use view_limits.Cache.{route_by_id}
use view_limits.Cache.Entry.{Dates, entry_for}
use view_limits.Collector.Plan.{State, Deps}
use view_limits.Collector.Fetches.{find}
use view_limits.Collector.Passes.{
  Published, with_state, with_entry, publish_state, publish_observed, publish_unknown, or_undefined,
  unknown_status, message_of, set_field,
}
use view_limits.Collector.States.{
  state_of, state_of-append, get_field-set_field, route_by_id-append,
}

-- What is published for one id: its entry, its route if it was fetched, and its state.
pub record View : Type 0 where
  pub entry : Value
  pub fetched : Option Fields
  pub state : Option State

abbrev pub view : String → Published → View
view k a = record {
  entry = get_field k a.entries;
  fetched = route_by_id k a.fetched;
  state = state_of k a.states;
}

pub other_state :
    (k : String) (ss : List State) (s : State)
    → str_eq s.id k ≡ false
    → state_of k (ss ++ s ∷ []) ≡ state_of k ss
other_state k ss s f = elim (Option-cases (state_of k ss)) [
  | inl n ↦ ground (arith, state_of-append k ss s, n, f)
  | inr (x, q) ↦ ground (arith, state_of-append k ss s, q)
]

other_entry :
    (k id : String) (v : Value) (fs : Fields)
    → str_eq id k ≡ false
    → get_field k (set_field id v fs) ≡ get_field k fs
other_entry k id v fs f = ground (arith, get_field-set_field k id v fs, f)

other_route :
    (k id : String) (rs : List Value) (route : Fields)
    → get_field "id" route ≡ str id
    → str_eq id k ≡ false
    → route_by_id k (rs ++ obj route ∷ []) ≡ route_by_id k rs
other_route k id rs route q f = rw (route_by_id-append k rs route, q, f) refl

kept_view :
    (k : String) (s : State) (v : Value) (a : Published)
    → str_eq s.id k ≡ false
    → view k (with_state s (with_entry s.id v a)) ≡ view k a
kept_view k s v a f = ground (arith, other_state k a.states s f, other_entry k s.id v a.entries f)

publish_observed-other :
    (k : String) (o : Option Value) (route : Fields) (s : State) (a b : Published)
    → get_field "id" route ≡ str s.id
    → str_eq s.id k ≡ false
    → publish_observed o route s a ≡ some b
    → view k b ≡ view k a
publish_observed-other k none route s a b q f h = absurd (ground arith)
publish_observed-other k (some v) route s a b q f h = ground (
  arith,
  h,
  other_state k a.states s f,
  other_entry k s.id v a.entries f,
  other_route k s.id a.fetched route q f,
)

publish_unknown-other :
    (k : String) (o : Option Value) (s : State) (a b : Published)
    → str_eq s.id k ≡ false
    → publish_unknown o s a ≡ some b
    → view k b ≡ view k a
publish_unknown-other k none s a b f h = absurd (ground arith)
publish_unknown-other k (some v) s a b f h =
    ground (arith, h, kept_view k (record s { retained = false }) v a f)

module _ ⦃t : Dates⦄ where
  pub publish_state-other :
      (d : Deps) (observed : List (String × Value)) (failures : List (String × String))
      (prior route : Fields) (s : State) (a b : Published) (k : String)
      → get_field "id" route ≡ str s.id
      → str_eq s.id k ≡ false
      → publish_state d observed failures prior route s a ≡ some b
      → view k b ≡ view k a
  unfolding publish_state
  publish_state-other d observed failures prior route s a b k q f h = ground (
    arith,
    h,
    kept_view k (record s { retained = true }) (get_field s.id prior) a f,
    other_state k a.states s f,
    publish_observed-other k
        (entry_for route (or_undefined (find s.id observed)) (get_field "provider" route)
          (d.now s.id))
        route s a b q f,
    publish_unknown-other k
        (entry_for route (unknown_status (message_of failures s)) (get_field "provider" route)
          (d.now s.id))
        s a b f,
  )
