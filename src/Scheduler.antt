-- ===== src/Scheduler.antt =====
-- lib/dashboard/scheduler.js: the collection loop of the daemon. A collection is injected code, so
-- its answer is an argument of the step in which it settles; instants are milliseconds.

pub mod History
pub mod Reports
pub mod Stopping
use Prim.Native.String
use view_limits.Base.{
  ℕ, zero, suc, ◌+◌, ◌-◌, ◌/◌, Bool, true, false, not, ◌&&◌, ◌||◌, Option, none, some, List, [],
  ◌∷◌, String, str_eq, if◌then◌else◌, includes,
}
use view_limits.Base.Text.{is_blank}
use view_limits.Value.{Value, null, str, get, is_true, truthy, Printer}

-- `trigger`.
pub data Trigger : Type 0 where
  at_start tick : Trigger
  refresh : (who : String) → Trigger

-- `record`.
pub record Attempt : Type 0 where
  pub trigger : Trigger
  pub started_at : ℕ
  pub finished_at : ℕ
  pub outcome : String
  pub reason : Value
  pub error : Value
  pub good : Bool

-- `inFlight`: the collection runs, or it has settled and `finally` has not run yet.
pub data Flight : Type 0 where
  collecting : (trigger : Trigger) → (started_at : ℕ) → Flight
  settled : Flight

pub record Times : Type 0 where
  pub started_at : ℕ
  pub finished_at : ℕ

-- The variables of `createScheduler`.
pub record Scheduler : Type 0 where
  pub view : Option Value
  pub last_attempt : Option Attempt
  pub last_good : Option Times
  pub in_flight : Option Flight
  pub skipped_ticks : ℕ
  pub coalesced_refreshes : ℕ
  pub attempts : ℕ
  pub has_timer : Bool
  pub stopped : Bool

abbrev pub created : Scheduler
created = record {
  view = none;
  last_attempt = none;
  last_good = none;
  in_flight = none;
  skipped_ticks = 0;
  coalesced_refreshes = 0;
  attempts = 0;
  has_timer = false;
  stopped = false;
}

-- What `await collect()` gives: a value, or the error that it throws.
pub data Collected : Type 0 where
  resolved : Value → Collected
  threw : Value → Collected

-- `v || null`.
abbrev or_null : Value → Value
or_null v = if truthy v then v else null

abbrev is_failure : String → Bool
is_failure s = str_eq s "timeout" || str_eq s "error"

abbrev failure_of : Value → String
failure_of (str s) = if is_failure s then s else "error"
failure_of _ = "error"

abbrev message_of : Value → Value
message_of (str s) = if is_blank s then str "no result" else str s
message_of _ = str "no result"

-- `GOOD_OUTCOMES.has(outcome)`.
abbrev pub is_good_outcome : String → Bool
is_good_outcome outcome = includes ("completed" ∷ "partial" ∷ []) outcome

-- The test of `attempt` for a valid envelope.
unfoldable pub has_envelope : Value → Bool
has_envelope res =
    truthy res
    && (is_true (get "ok" res)
        && (truthy (get "envelope" res) && truthy (get "collection" (get "envelope" res))))

module _ ⦃p : Printer⦄ where
  -- `String(v)`.
  abbrev shown : Value → String
  shown (str s) = s
  shown v = p.to_text v

  unfoldable pub adopted_attempt : Trigger → ℕ → ℕ → Value → Attempt
  adopted_attempt trigger started finished c = record {
    trigger = trigger;
    started_at = started;
    finished_at = finished;
    outcome = shown (get "outcome" c);
    reason = or_null (get "reason" c);
    error = or_null (get "error" c);
    good = is_good_outcome (shown (get "outcome" c));
  }

  abbrev failed : Trigger → ℕ → ℕ → String → Value → Attempt
  failed trigger started finished outcome error = record {
    trigger = trigger;
    started_at = started;
    finished_at = finished;
    outcome = outcome;
    reason = null;
    error = error;
    good = false;
  }

  -- `e && e.message ? String(e.message) : 'collection threw'`.
  abbrev thrown_text : Value → Value
  thrown_text e =
      if truthy e && truthy (get "message" e)
      then str (shown (get "message" e))
      else str "collection threw"

  -- The record of an attempt.
  unfoldable pub attempt_of : Trigger → ℕ → ℕ → Collected → Attempt
  unfolding has_envelope adopted_attempt
  attempt_of trigger started finished (resolved res) =
      if has_envelope res
      then adopted_attempt trigger started finished (get "collection" (get "envelope" res))
      else failed trigger started finished (failure_of (get "outcome" res))
          (message_of (get "error" res))
  attempt_of trigger started finished (threw e) =
      failed trigger started finished "error" (message_of (thrown_text e))

-- The envelope that an attempt adopts.
unfoldable pub envelope_of : Collected → Option Value
unfolding has_envelope
envelope_of (resolved res) = if has_envelope res then some (get "envelope" res) else none
envelope_of (threw e) = none

abbrev pub or_keep {ℓ} : {A : Type ℓ} → Option A → Option A → Option A
or_keep none old = old
or_keep (some new) old = some new

-- `attempt(trigger)` after `await`: the collection has settled at `finished`.
unfoldable pub settle : ⦃p : Printer⦄ → Trigger → ℕ → ℕ → Collected → Scheduler → Scheduler
unfolding attempt_of envelope_of
settle trigger started finished c s =
    let rec = attempt_of trigger started finished c in
    record s {
      view = or_keep (envelope_of c) s.view;
      last_good =
          if rec.good
          then some (record { started_at = started; finished_at = finished })
          else s.last_good;
      last_attempt = some rec;
      in_flight = some settled;
    }

-- Joining the collection in flight.
abbrev pub join : Trigger → Scheduler → Scheduler
join tick s = record s { skipped_ticks = suc s.skipped_ticks }
join _ s = record s { coalesced_refreshes = suc s.coalesced_refreshes }

abbrev pub begun : Trigger → ℕ → Scheduler → Scheduler
begun trigger now s = record s {
  attempts = suc s.attempts;
  in_flight = some (collecting trigger now);
}

-- `run(trigger)` at an instant; `attempt` runs up to its `await`.
abbrev pub run_flight : Option Flight → Trigger → ℕ → Scheduler → Scheduler
run_flight none trigger now s = if s.stopped then s else begun trigger now s
run_flight (some f) trigger now s = join trigger s

unfoldable pub run : Trigger → ℕ → Scheduler → Scheduler
run trigger now s = run_flight s.in_flight trigger now s

-- What happens to a scheduler: calls of its methods, its timer, and the collection it waits for.
pub data Event : Type 0 where
  starts : (now : ℕ) → Event
  timer_fires : (now : ℕ) → Event
  requested : (who : String) → (now : ℕ) → Event
  collected : (now : ℕ) → Collected → Event
  released : Event
  stops : Event

abbrev pub settle_flight : ⦃p : Printer⦄ → Option Flight → ℕ → Collected → Scheduler → Scheduler
unfolding settle
settle_flight (some (collecting trigger started)) now c s = settle trigger started now c s
settle_flight _ now c s = s

abbrev pub release_flight : Option Flight → Scheduler → Scheduler
release_flight (some settled) s = record s { in_flight = none }
release_flight _ s = s

unfoldable pub step : ⦃p : Printer⦄ → Event → Scheduler → Scheduler
unfolding run settle
step (starts now) s = record (run at_start now s) { has_timer = true }
step (timer_fires now) s = if s.has_timer && not s.stopped then run tick now s else s
step (requested who now) s = run (refresh who) now s
step (collected now c) s = settle_flight s.in_flight now c s
step released s = release_flight s.in_flight s
step stops s = record s { stopped = true; has_timer = false }

pub data Status : Type 0 where
  pending unavailable ok stale : Status

abbrev pub status_from : Option Attempt → Option Value → Status
status_from none view = pending
status_from (some a) none = unavailable
status_from (some a) (some v) = if a.good then ok else stale

unfoldable pub status_of : Scheduler → Status
status_of s = status_from s.last_attempt s.view

-- The part of `snapshot()` that is computed.
pub record Snapshot : Type 0 where
  pub status : Status
  pub is_collecting : Bool
  pub last_good_at : Option ℕ
  pub observation_age_seconds : Option ℕ
  pub is_stale : Bool

abbrev pub is_stale_status : Status → Bool
is_stale_status stale = true
is_stale_status _ = false

abbrev is_there {ℓ} : {A : Type ℓ} → Option A → Bool
is_there none = false
is_there (some a) = true

abbrev pub start_of : Option Times → Option ℕ
start_of none = none
start_of (some g) = some g.started_at

-- `Math.max(0, Math.round((t - good) / 1000))`.
abbrev pub age_of : ℕ → Option ℕ → Option ℕ
age_of now none = none
age_of now (some t) = some ((now - t + 500) / 1000)

unfoldable pub snapshot : ℕ → Scheduler → Snapshot
unfolding status_of
snapshot now s = record {
  status = status_of s;
  is_collecting = is_there s.in_flight;
  last_good_at = start_of s.last_good;
  observation_age_seconds = age_of now (start_of s.last_good);
  is_stale = is_stale_status (status_of s);
}
