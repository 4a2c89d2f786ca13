-- ===== src/Routes.antt =====
-- lib/routes.js: which configured route a dispatch is charged to. A route is a JavaScript value,
-- as the configuration document gives it; no route is `none`.

pub mod Pick
pub mod Resolve
use Prim.Native.String
use view_limits.Base.{
  ℕ, ◌+◌, Bool, true, false, not, ◌&&◌, ◌||◌, Option, none, some, List, [], ◌∷◌, ◌++◌, String,
  str_eq, if◌then◌else◌, ltb, ◌==◌, is_empty, length,
}
use view_limits.Base.Text.{Engine, trim, is_blank, units}
use view_limits.Value.{Value, null, str, arr, get, items, Printer, text_or_empty}

-- `isModelIdentity(v)` and `isHarnessIdentity(v)`.
unfoldable pub is_identity : Value → Bool
is_identity (str s) = not (is_blank (trim s))
is_identity _ = false

-- `text.includes(part)`, over code units.
unfoldable pub starts_units : List ℕ → List ℕ → Bool
starts_units text [] = true
starts_units [] (p ∷ ps) = false
starts_units (c ∷ cs) (p ∷ ps) = c == p && starts_units cs ps

unfoldable pub has_units : List ℕ → List ℕ → Bool
unfolding starts_units
has_units [] part = starts_units [] part
has_units (c ∷ cs) part = starts_units (c ∷ cs) part || has_units cs part

unfoldable pub includes_text : String → String → Bool
unfolding has_units units
includes_text text part = has_units (units text) (units part)

-- The axis on which routes are compared.
pub data Mode : Type 0 where
  by_model by_harness combined : Mode

abbrev counts_model : Mode → Bool
counts_model by_harness = false
counts_model _ = true

abbrev counts_harness : Mode → Bool
counts_harness by_model = false
counts_harness _ = true

module _ ⦃e : Engine⦄ ⦃p : Printer⦄ where
  -- `String(match.model || '').toLowerCase()`, and so for the harness.
  unfoldable pub match_text : String → Value → String
  match_text name r = e.to_lower_case (text_or_empty (get name (get "match" r)))

  -- The score of `pickBySpecificity`.
  unfoldable pub specificity : Mode → Value → ℕ
  specificity mode r =
      let mm = match_text "model" r in
      let mh = match_text "harness" r in
      (if counts_model mode && not (is_blank mm) then 1000 + length (units mm) else 0)
      + (if counts_harness mode && not (is_blank mh) then 500 + length (units mh) else 0)

-- The variables of the loop: the best route with its score, none while `bestScore` is -1.
pub record Best : Type 0 where
  pub best : Option (Value × ℕ)
  pub tied : Bool

module _ (score : Value → ℕ) where
  unfoldable pub consider : Value → Best → Best
  consider r s = elim s.best [
    | none ↦ record { best = some (r, score r); tied = false }
    | some (b, top) ↦
        if ltb top (score r)
        then record { best = some (r, score r); tied = false }
        else if score r == top
        then record { best = some (b, top); tied = true }
        else s
  ]

  unfoldable pub pick_loop : List Value → Best → Best
  unfolding consider
  pick_loop [] s = s
  pick_loop (r ∷ rs) s = pick_loop rs (consider r s)

  abbrev winner : Best → Option Value
  winner s = if s.tied then none else elim s.best [ none ↦ none | some (r, top) ↦ some r ]

  unfoldable pub pick : List Value → Option Value
  unfolding pick_loop
  pick routes = winner (pick_loop routes (record { best = none; tied = false }))

-- `pickBySpecificity(routes, mode)`.
unfoldable pub pick_by_specificity : ⦃e : Engine⦄ → ⦃p : Printer⦄ → List Value → Mode → Option Value
unfolding pick specificity
pick_by_specificity routes mode = pick (specificity mode) routes

-- The three lists of `resolveRoute`.
pub record Hits : Type 0 where
  pub model_hits : List Value
  pub harness_hits : List Value
  pub combined_hits : List Value

module _ ⦃e : Engine⦄ ⦃p : Printer⦄ where
  -- `modelOk ? model.toLowerCase() : ''`.
  unfoldable pub identity_text : Value → String
  unfolding is_identity
  identity_text (str s) = if is_identity (str s) then e.to_lower_case s else ""
  identity_text _ = ""

  -- `!!(mm && m && m.includes(mm))`.
  unfoldable pub signal : String → String → Bool
  signal wanted given = not (is_blank wanted) && not (is_blank given) && includes_text given wanted

  unfoldable pub is_model_hit : String → Value → Bool
  is_model_hit m r = signal (match_text "model" r) m

  unfoldable pub is_harness_hit : String → Value → Bool
  is_harness_hit h r = signal (match_text "harness" r) h

  abbrev push_if : Bool → Value → List Value → List Value
  push_if b r rs = if b then rs ++ r ∷ [] else rs

  -- The loop over the routes. Where neither signal hits, nothing is pushed.
  unfoldable pub collect : String → String → List Value → Hits → Hits
  collect m h [] s = s
  collect m h (r ∷ rs) s = collect m h rs (record {
    model_hits = push_if (is_model_hit m r) r s.model_hits;
    harness_hits = push_if (is_harness_hit h r) r s.harness_hits;
    combined_hits = push_if (is_model_hit m r && is_harness_hit h r) r s.combined_hits;
  })

  -- The decision over the three lists.
  unfoldable pub choose : Hits → Option Value
  choose s =
      if not (is_empty s.combined_hits)
      then pick_by_specificity s.combined_hits combined
      else if not (is_empty s.model_hits) && not (is_empty s.harness_hits)
      then none
      else if not (is_empty s.model_hits)
      then pick_by_specificity s.model_hits by_model
      else if not (is_empty s.harness_hits)
      then pick_by_specificity s.harness_hits by_harness
      else none

  abbrev no_hits : Hits
  no_hits = record { model_hits = []; harness_hits = []; combined_hits = [] }

  abbrev pub route_list : Value → List Value
  route_list (arr rs) = items rs
  route_list _ = []

  -- `resolveRoute(model, context, routes)`.
  unfoldable pub resolve_route : Value → Value → Value → Option Value
  unfolding choose collect identity_text
  resolve_route model context routes = choose (
      collect (identity_text model) (identity_text (get "harness" context)) (route_list routes)
        no_hits)

-- What `dispatchContext` derives from a hook event.
pub data Surface : Type 0 where
  claude traycer unknown_surface : Surface

pub record Context : Type 0 where
  pub surface : Surface
  pub harness : Value
  pub model : Value

abbrev pub identity_or_null : Value → Value
unfolding is_identity
identity_or_null v = if is_identity v then v else null

-- `dispatchContext(evt)`.
unfoldable pub dispatch_context : ⦃p : Printer⦄ → Value → Context
dispatch_context evt =
    let tool = text_or_empty (get "tool_name" evt) in
    let input = get "tool_input" evt in
    let model = identity_or_null (get "model" input) in
    if str_eq tool "Agent" || str_eq tool "Task"
    then record { surface = claude; harness = str "claude"; model = model }
    else if starts_units (units tool) (units "mcp__traycer_a2a__")
    then record {
      surface = traycer;
      harness = identity_or_null (get "harnessId" input);
      model = model;
    }
    else record { surface = unknown_surface; harness = null; model = model }
