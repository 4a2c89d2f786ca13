-- ===== src/Collector/Passes.antt =====
-- lib/collector.js: the two passes of `collect`: the outcome of every eligible route, then the
-- entry of every configured route.
use view_limits.Base.{
  true, false, ◌&&◌, Option, none, some, List, [], ◌∷◌, ◌++◌, String, str_eq, if◌then◌else◌,
}
use view_limits.Base.Text.{is_blank}
use view_limits.Value.{
  Value, undefined, null, str, arr, obj, nil, Fields, end, field, get_field, is_plain_object,
}
use view_limits.Gate.Time.{◌>>=◌}
use view_limits.Cache.{route_by_id}
use view_limits.Cache.Entry.{Dates, entry_for}
use view_limits.Collector.Plan.{
  completed, failed, skipped, State, Planned, Deps, is_xiaomi_route, one_line,
}
use view_limits.Collector.Fetches.{find, Session}

abbrev pub no_status : String
no_status = "provider returned no status"

-- The states and the failures that the first pass works on.
pub record Round : Type 0 where
  pub failures : List (String × String)
  pub states : List State

abbrev pub missing_status : Option Value → Option String
missing_status none = some no_status
missing_status (some v) = none

-- Why the route failed in this round, if it did.
unfoldable pub failure_of :
    Deps → Session → List (String × Value) → Planned → List (String × String) → Option String
failure_of d x observed p failures = elim (find p.state.id failures) [
  | some message ↦ some message
  | none ↦
      if x.is_failed && is_xiaomi_route (obj p.route)
      then some d.default_error
      else missing_status (find p.state.id observed)
]

abbrev pub mark : Option String → State → State
mark none s = record s { outcome = completed; error = none }
mark (some message) s = record s { outcome = failed; error = some (one_line message) }

-- `stateOf(states, id)`, changed in place.
unfoldable pub change_state : String → (State → State) → List State → List State
change_state id f [] = []
change_state id f (s ∷ ss) =
    let rest = change_state id f ss in if str_eq s.id id then f s ∷ ss else s ∷ rest

abbrev pub add_failure : String → Option String → List (String × String) → List (String × String)
add_failure id none failures = failures
add_failure id (some message) failures = (id, message) ∷ failures

unfoldable pub settle : Deps → Session → List (String × Value) → Planned → Round → Round
unfolding failure_of change_state
settle d x observed p r =
    let failure = failure_of d x observed p r.failures in
    record {
      failures = add_failure p.state.id failure r.failures;
      states = change_state p.state.id (mark failure) r.states;
    }

-- Pass 1, over the eligible routes.
unfoldable pub pass_one : Deps → Session → List (String × Value) → List Planned → Round → Round
pass_one d x observed [] r = r
pass_one d x observed (p ∷ ps) r = pass_one d x observed ps (settle d x observed p r)

-- `entries[id] = v`.
unfoldable pub set_field : String → Value → Fields → Fields
set_field id v end = field id v end
set_field id v (field k w fs) =
    let rest = set_field id v fs in if str_eq k id then field k v fs else field k w rest

-- What pass 2 has published so far.
pub record Published : Type 0 where
  pub entries : Fields
  pub fetched : List Value
  pub states : List State

abbrev pub with_state : State → Published → Published
with_state s a = record { entries = a.entries; fetched = a.fetched; states = a.states ++ s ∷ [] }

abbrev pub with_entry : String → Value → Published → Published
with_entry id v a = record {
  entries = set_field id v a.entries;
  fetched = a.fetched;
  states = a.states;
}

abbrev pub with_fetched : Fields → Published → Published
with_fetched route a = record {
  entries = a.entries;
  fetched = a.fetched ++ obj route ∷ [];
  states = a.states;
}

abbrev pub retain : Value → State → Published → Published
retain old s a = with_state (record s { retained = true }) (with_entry s.id old a)

-- `unknownStatus({ error: message })`.
abbrev pub unknown_status : String → Value
unknown_status message = obj (
    field "state" (str "unknown") (
      field "windows" (arr nil) (
        field "balance" null
          (field "resetAt" null (field "detail" (obj (field "error" (str message) end)) end)))))

abbrev or_text : Option String → String → String
or_text none other = other
or_text (some s) other = if is_blank s then other else s

-- `failures.get(id) || state.error || 'collection failed'`.
unfoldable pub message_of : List (String × String) → State → String
message_of failures s = or_text (find s.id failures) (or_text s.error "collection failed")

abbrev pub or_undefined : Option Value → Value
or_undefined none = undefined
or_undefined (some v) = v

-- The entry of an observation; `none` is a date out of range, which throws.
abbrev pub publish_observed : Option Value → Fields → State → Published → Option Published
publish_observed none route s a = none
publish_observed (some v) route s a = some (with_state s (with_fetched route (with_entry s.id v a)))

-- The entry of a failure that has no prior fact to keep.
abbrev pub publish_unknown : Option Value → State → Published → Option Published
publish_unknown none s a = none
publish_unknown (some v) s a =
    some (with_state (record s { retained = false }) (with_entry s.id v a))

module _ ⦃t : Dates⦄ where
  -- The body of the loop of pass 2.
  unfoldable pub publish_state :
      Deps
      → List (String × Value)
      → List (String × String)
      → Fields
      → Fields
      → State
      → Published
      → Option Published
  unfolding message_of
  publish_state d observed failures prior route s a =
      let old = get_field s.id prior in
      elim s.outcome [
        | completed ↦
            publish_observed
              (entry_for route (or_undefined (find s.id observed)) (get_field "provider" route)
                (d.now s.id))
              route s a
        | skipped ↦ some (if is_plain_object old then retain old s a else with_state s a)
        | _ ↦
            if is_plain_object old
            then some (retain old s a)
            else publish_unknown
                (entry_for route (unknown_status (message_of failures s))
                  (get_field "provider" route) (d.now s.id))
                s a
      ]

  unfoldable pub publish_for :
      Deps
      → List (String × Value)
      → List (String × String)
      → Fields
      → Option Fields
      → State
      → Published
      → Option Published
  unfolding publish_state
  publish_for d observed failures prior none s a = some (with_state s a)
  publish_for d observed failures prior (some route) s a =
      publish_state d observed failures prior route s a

  -- Pass 2, over the states of all configured routes.
  unfoldable pub pass_two :
      Deps
      → List (String × Value)
      → List (String × String)
      → Fields
      → List Value
      → List State
      → Published
      → Option Published
  unfolding publish_for
  pass_two d observed failures prior routes [] a = some a
  pass_two d observed failures prior routes (s ∷ ss) a = do
    b ← publish_for d observed failures prior (route_by_id s.id routes) s a
    pass_two d observed failures prior routes ss b
