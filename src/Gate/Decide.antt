-- ===== src/Gate/Decide.antt =====
-- lib/gate.js: `decide`. Messages are data: what they are about, not their English text.
use view_limits.Base.{
  ℕ, Bool, true, false, not, ◌&&◌, Option, none, some, List, [], ◌∷◌, ◌++◌, String, str_eq,
  if◌then◌else◌, leb,
}
use view_limits.Base.Text.{Engine, is_blank}
use view_limits.Value.{Value, str, arr, get, items, is_true, truthy, is_nullish, is_plain_object}
use view_limits.Monitor.Validate.{
  Url, MonitorError, built_in_endpoint_refused, unknown_region, validate_monitor,
}
use view_limits.Monitor.Revision.{Digest, is_config_obsolete}
use view_limits.Gate.Time.{Clockwork, parse_strict_iso_timestamp}

pub data Mode : Type 0 where
  advisory deny_mode : Mode

-- A part of a summary: the balance, or a window with its label, its limit and what remains of it.
pub data Part : Type 0 where
  balance : (available currency : Value) → Part
  window : (label limit remaining : Value) → Part

pub data Context : Type 0 where
  no_fresh_status : (id : Value) → Context
  is_exhausted : (id : Value) → Context
  summary : (id state : Value) → List Part → Context

pub data Decision : Type 0 where
  allow : (refresh : Bool) → (context : Option Context) → Decision
  deny : (id : Value) → (reset : Option ℕ) → Decision

-- `['advisory', 'deny'].includes(mode)`.
unfoldable pub mode_of : Value → Option Mode
mode_of (str s) =
    if str_eq s "advisory" then some advisory else if str_eq s "deny" then some deny_mode else none
mode_of _ = none

abbrev pub is_region_error : Option MonitorError → Bool
is_region_error (some built_in_endpoint_refused) = true
is_region_error (some unknown_region) = true
is_region_error _ = false

-- `safeStatus(entry)`.
unfoldable pub safe_status : Value → Value
safe_status entry = get "status" entry

module _ ⦃k : Clockwork⦄ where
  -- The instant of a text that is there and parses.
  unfoldable pub instant_of : Value → Option ℕ
  instant_of (str s) = if is_blank s then none else parse_strict_iso_timestamp s
  instant_of _ = none

  abbrev pub reaches : ℕ → Option ℕ → Bool
  reaches now none = false
  reaches now (some t) = leb now t

  -- `isFreshEntry(entry, now)`.
  unfoldable pub is_fresh_entry : Value → ℕ → Bool
  unfolding instant_of
  is_fresh_entry entry now =
      is_plain_object entry && reaches now (instant_of (get "freshUntil" entry))

-- `safeBalance(b)`, as the part it gives.
abbrev balance_part : Value → List Part
balance_part b =
    if is_plain_object b && not (is_nullish (get "available" b))
    then balance (get "available" b) (get "currency" b) ∷ []
    else []

abbrev window_part : Value → List Part
window_part w =
    if is_plain_object w && (truthy (get "limit" w) && not (is_nullish (get "remaining" w)))
    then window (get "type" w) (get "limit" w) (get "remaining" w) ∷ []
    else []

unfoldable pub window_parts : List Value → List Part
window_parts [] = []
window_parts (w ∷ ws) = window_part w ++ window_parts ws

-- `safeWindows(windows)`.
abbrev pub safe_windows : Value → List Value
safe_windows (arr ws) = items ws
safe_windows _ = []

-- `summarize(route, st)`.
unfoldable pub summarize : Value → Value → Context
unfolding window_parts
summarize route st =
    summary (get "id" route) (get "state" st)
      (balance_part (get "balance" st) ++ window_parts (safe_windows (get "windows" st)))

abbrev pub when : Bool → Context → Option Context
when b c = if b then some c else none

abbrev pub is_deny : Mode → Bool
is_deny advisory = false
is_deny deny_mode = true

abbrev pub is_state : Value → String → Bool
is_state (str s) name = str_eq s name
is_state _ name = false

module _ ⦃e : Engine⦄ ⦃u : Url⦄ ⦃d : Digest⦄ ⦃k : Clockwork⦄ where
  -- `validation.code` is one of the two region codes.
  unfoldable pub is_refused : Value → Bool
  is_refused route = is_region_error (validate_monitor route)

  -- `fresh` of `decide`.
  unfoldable pub is_usable : Value → Value → ℕ → Bool
  unfolding is_fresh_entry
  is_usable route entry now = is_fresh_entry entry now && not (is_config_obsolete entry route)

  -- A fresh entry that says `exhausted`.
  unfoldable pub decide_exhausted : Mode → Bool → Value → Value → Decision
  unfolding instant_of
  decide_exhausted advisory inject route st =
      allow false (when inject (is_exhausted (get "id" route)))
  decide_exhausted deny_mode inject route st = deny (get "id" route) (instant_of (get "resetAt" st))

  unfoldable pub decide_fresh : Mode → Bool → Value → Value → Decision
  unfolding decide_exhausted summarize
  decide_fresh mode inject route st =
      if is_state (get "state" st) "exhausted"
      then decide_exhausted mode inject route st
      else allow false (when (is_deny mode && inject) (summarize route st))

  unfoldable pub decide_in : Mode → Bool → Value → Value → ℕ → Decision
  unfolding is_refused is_usable safe_status decide_fresh
  decide_in mode inject route entry now =
      if is_refused route
      then allow false none
      else if truthy entry && is_usable route entry now
      then decide_fresh mode inject route (safe_status entry)
      else allow true (when (is_deny mode && inject) (no_fresh_status (get "id" route)))

  -- `decide({ route, entry, now, config })`.
  unfoldable pub decide : Value → Value → ℕ → Value → Decision
  unfolding mode_of decide_in
  decide route entry now config =
      let gate = get "gate" config in
      if truthy route
      then elim (mode_of (get "mode" gate)) [
        | none ↦ allow false none
        | some mode ↦ decide_in mode (is_true (get "injectContext" gate)) route entry now
      ]
      else allow false none
