-- ===== src/Scheduler/History.antt =====
-- lib/dashboard/scheduler.js: the variables of the scheduler against the log of its collections.
use view_limits.Base.{
  ℕ, ◌+◌, Bool, true, false, not, ◌&&◌, Option, none, some, List, [], ◌∷◌, if◌then◌else◌, length,
  ◌≡◌, refl, ap, arith,
}
use view_limits.Value.{Value, Printer}
use view_limits.Scheduler.{
  Scheduler, Trigger, at_start, tick, refresh, Attempt, Flight, collecting, settled, Times,
  Collected, Event, starts, timer_fires, requested, collected, released, stops, created, attempt_of,
  envelope_of, or_keep, settle, run, run_flight, begun, step, settle_flight, release_flight,
}

-- A collection that has settled.
pub record Entry : Type 0 where
  pub trigger : Trigger
  pub started_at : ℕ
  pub finished_at : ℕ
  pub result : Collected

abbrev logged_flight : Option Flight → ℕ → Collected → List Entry → List Entry
logged_flight (some (collecting trigger started)) now c log =
    record { trigger = trigger; started_at = started; finished_at = now; result = c } ∷ log
logged_flight _ now c log = log

-- The log after an event, newest first: only a collection that settles is added.
unfoldable pub logged : Event → Scheduler → List Entry → List Entry
logged (collected now c) s log = logged_flight s.in_flight now c log
logged _ s log = log

-- The schedulers that some sequence of events leads to, with the log of that sequence.
pub data Reaches ⦃p : Printer⦄ : List Entry → Scheduler → Type 0 where
  initial : Reaches [] created
  happens :
      {log : List Entry} {s : Scheduler}
      → Reaches log s
      → (e : Event) → Reaches (logged e s log) (step e s)

module _ ⦃p : Printer⦄ where
  abbrev pub attempt : Entry → Attempt
  attempt x = attempt_of x.trigger x.started_at x.finished_at x.result

  abbrev pub newest : List Entry → Option Attempt
  newest [] = none
  newest (x ∷ log) = some (attempt x)

  -- The times of the newest good collection.
  abbrev pub newest_good : List Entry → Option Times
  newest_good [] = none
  newest_good (x ∷ log) =
      if (attempt x).good
      then some (record { started_at = x.started_at; finished_at = x.finished_at })
      else newest_good log

-- The envelope of the newest collection that had one.
abbrev pub newest_view : List Entry → Option Value
newest_view [] = none
newest_view (x ∷ log) = or_keep (envelope_of x.result) (newest_view log)

abbrev pub running : Option Flight → ℕ
running (some (collecting trigger started)) = 1
running _ = 0

pub record IsLogged ⦃p : Printer⦄ (log : List Entry) (s : Scheduler) : Type 0 where
  pub view : s.view ≡ newest_view log
  pub last_attempt : s.last_attempt ≡ newest log
  pub last_good : s.last_good ≡ newest_good log
  pub attempts : s.attempts ≡ length log + running s.in_flight

module _ ⦃p : Printer⦄ where
  run-IsLogged :
      (f : Option Flight) (t : Trigger) (now : ℕ) (log : List Entry) (s : Scheduler)
      → s.in_flight ≡ f
      → IsLogged log s
      → IsLogged log (run_flight f t now s)
  run-IsLogged none t now log s q h =
      elim s.stopped as (λ b. IsLogged log (if b then s else begun t now s)) [
        | true ↦ h
        | false ↦ record {
          view = h.view;
          last_attempt = h.last_attempt;
          last_good = h.last_good;
          attempts = ground (arith, h.attempts, ap running q);
        }
      ]
  run-IsLogged (some f) at_start now log s q h = record {
    view = h.view;
    last_attempt = h.last_attempt;
    last_good = h.last_good;
    attempts = h.attempts;
  }
  run-IsLogged (some f) tick now log s q h = record {
    view = h.view;
    last_attempt = h.last_attempt;
    last_good = h.last_good;
    attempts = h.attempts;
  }
  run-IsLogged (some f) (refresh who) now log s q h = record {
    view = h.view;
    last_attempt = h.last_attempt;
    last_good = h.last_good;
    attempts = h.attempts;
  }

  settled-IsLogged :
      (f : Option Flight) (now : ℕ) (c : Collected) (log : List Entry) (s : Scheduler)
      → s.in_flight ≡ f
      → IsLogged log s
      → IsLogged (logged_flight f now c log) (settle_flight f now c s)
  unfolding settle
  settled-IsLogged none now c log s q h = h
  settled-IsLogged (some settled) now c log s q h = h
  settled-IsLogged (some (collecting t started)) now c log s q h = record {
    view = ap (or_keep (envelope_of c)) h.view;
    last_attempt = refl;
    last_good =
        ap
          (λ old.
            if (attempt_of t started now c).good
            then some (record { started_at = started; finished_at = now })
            else old)
          h.last_good;
    attempts = ground (arith, h.attempts, ap running q);
  }

  released-IsLogged :
      (f : Option Flight) (log : List Entry) (s : Scheduler)
      → s.in_flight ≡ f
      → IsLogged log s
      → IsLogged log (release_flight f s)
  released-IsLogged none log s q h = h
  released-IsLogged (some (collecting t started)) log s q h = h
  released-IsLogged (some settled) log s q h = record {
    view = h.view;
    last_attempt = h.last_attempt;
    last_good = h.last_good;
    attempts = ground (arith, h.attempts, ap running q);
  }

  with_timer :
      (b : Bool) (log : List Entry) (s : Scheduler)
      → IsLogged log s
      → IsLogged log (record s { has_timer = b })
  with_timer b log s h = record {
    view = h.view;
    last_attempt = h.last_attempt;
    last_good = h.last_good;
    attempts = h.attempts;
  }

  step-logged :
      (e : Event) (log : List Entry) (s : Scheduler)
      → IsLogged log s
      → IsLogged (logged e s log) (step e s)
  unfolding step logged run
  step-logged (starts now) log s h =
      with_timer true log _ (run-IsLogged s.in_flight at_start now log s refl h)
  step-logged (timer_fires now) log s h =
      elim (s.has_timer && not s.stopped)
        as (λ b. IsLogged log (if b then run_flight s.in_flight tick now s else s)) [
          | true ↦ run-IsLogged s.in_flight tick now log s refl h
          | false ↦ h
        ]
  step-logged (requested who now) log s h = run-IsLogged s.in_flight (refresh who) now log s refl h
  step-logged (collected now c) log s h = settled-IsLogged s.in_flight now c log s refl h
  step-logged released log s h = released-IsLogged s.in_flight log s refl h
  step-logged stops log s h = record {
    view = h.view;
    last_attempt = h.last_attempt;
    last_good = h.last_good;
    attempts = h.attempts;
  }

  -- Whatever happened to a scheduler, its view is the envelope of the newest collection that had
  -- one, its last attempt is the newest collection, its last good time is that of the newest good
  -- collection, and it began as many collections as have settled, and one more while one runs.
  pub Reaches-IsLogged : {log : List Entry} {s : Scheduler} → Reaches log s → IsLogged log s
  Reaches-IsLogged initial = record {
    view = refl;
    last_attempt = refl;
    last_good = refl;
    attempts = refl;
  }
  Reaches-IsLogged (happens {log} {s} r e) = step-logged e log s (Reaches-IsLogged r)
