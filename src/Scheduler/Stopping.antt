-- ===== src/Scheduler/Stopping.antt =====
-- lib/dashboard/scheduler.js: what `stop()` promises.
use view_limits.Base.{
  ℕ, true, false, not, ◌&&◌, Option, none, some, List, [], ◌∷◌, if◌then◌else◌, ◌≡◌, refl, arith,
}
use view_limits.Value.{Printer}
use view_limits.Scheduler.{
  Scheduler, Trigger, at_start, tick, refresh, Flight, collecting, settled, Collected, Event,
  starts, timer_fires, requested, collected, released, stops, settle, run, run_flight, step,
  settle_flight, release_flight,
}

unfoldable pub steps : ⦃p : Printer⦄ → List Event → Scheduler → Scheduler
unfolding step
steps [] s = s
steps (e ∷ es) s = steps es (step e s)

-- The scheduler is stopped and has begun `n` collections.
record IsIdleAt (n : ℕ) (s : Scheduler) : Type 0 where
  stopped : s.stopped ≡ true
  attempts : s.attempts ≡ n

module _ ⦃p : Printer⦄ where
  run_idle :
      (f : Option Flight) (t : Trigger) (now n : ℕ) (s : Scheduler)
      → IsIdleAt n s
      → IsIdleAt n (run_flight f t now s)
  run_idle none t now n s h = record {
    stopped = ground (arith, h.stopped);
    attempts = ground (arith, h.stopped, h.attempts);
  }
  run_idle (some f) at_start now n s h = record { stopped = h.stopped; attempts = h.attempts }
  run_idle (some f) tick now n s h = record { stopped = h.stopped; attempts = h.attempts }
  run_idle (some f) (refresh who) now n s h = record { stopped = h.stopped; attempts = h.attempts }

  settle_idle :
      (f : Option Flight) (now n : ℕ) (c : Collected) (s : Scheduler)
      → IsIdleAt n s
      → IsIdleAt n (settle_flight f now c s)
  unfolding settle
  settle_idle none now n c s h = h
  settle_idle (some settled) now n c s h = h
  settle_idle (some (collecting t started)) now n c s h = record {
    stopped = h.stopped;
    attempts = h.attempts;
  }

  release_idle :
      (f : Option Flight) (n : ℕ) (s : Scheduler) → IsIdleAt n s → IsIdleAt n (release_flight f s)
  release_idle none n s h = h
  release_idle (some (collecting t started)) n s h = h
  release_idle (some settled) n s h = record { stopped = h.stopped; attempts = h.attempts }

  step_idle : (e : Event) (n : ℕ) (s : Scheduler) → IsIdleAt n s → IsIdleAt n (step e s)
  unfolding step run
  step_idle (starts now) n s h =
      let i = run_idle s.in_flight at_start now n s h in
      record { stopped = i.stopped; attempts = i.attempts }
  step_idle (timer_fires now) n s h =
      elim (s.has_timer && not s.stopped)
        as (λ b. IsIdleAt n (if b then run_flight s.in_flight tick now s else s)) [
          | true ↦ run_idle s.in_flight tick now n s h
          | false ↦ h
        ]
  step_idle (requested who now) n s h = run_idle s.in_flight (refresh who) now n s h
  step_idle (collected now c) n s h = settle_idle s.in_flight now n c s h
  step_idle released n s h = release_idle s.in_flight n s h
  step_idle stops n s h = record { stopped = refl; attempts = h.attempts }

  steps_idle : (es : List Event) (n : ℕ) (s : Scheduler) → IsIdleAt n s → IsIdleAt n (steps es s)
  unfolding steps
  steps_idle [] n s h = h
  steps_idle (e ∷ es) n s h = steps_idle es n (step e s) (step_idle e n s h)

  -- After `stop()` no sequence of ticks, refresh requests, settling collections and further calls
  -- of `start()` begins another collection.
  pub steps-stops :
      (es : List Event) (s : Scheduler) → (steps es (step stops s)).attempts ≡ s.attempts
  unfolding step
  steps-stops es s =
      (steps_idle es s.attempts (step stops s)
        (record { stopped = refl; attempts = refl })).attempts
