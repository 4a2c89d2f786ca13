-- ===== src/Examples/Schedules.antt =====
-- The theorems on lib/dashboard/scheduler.js at concrete inputs.
use view_limits.Base.{true, List, [], ◌∷◌, ◌≡◌}
use view_limits.Value.{str, bool, obj, field, end}
use view_limits.Scheduler.{
  Scheduler, at_start, refresh, Collected, resolved, threw, starts, timer_fires, requested,
  collected, released, stops, created, step, snapshot,
}
use view_limits.Scheduler.History.{
  Entry, Reaches, initial, happens, logged, IsLogged, Reaches-IsLogged,
}
use view_limits.Scheduler.Reports.{IsReported, snapshot-IsReported}
use view_limits.Scheduler.Stopping.{steps, steps-stops}
use view_limits.Examples.{silent, empty, one_field}

abbrev good_result : Collected
good_result = resolved (
    obj (
      field "ok" (bool true)
        (field "envelope" (one_field "collection" (one_field "outcome" (str "completed"))) end)))

-- A good collection, and a second one that throws while a tick is skipped.
abbrev first : Scheduler
first = step ⦃p = silent⦄ (starts 1000) created

abbrev second : Scheduler
second = step ⦃p = silent⦄ (collected 2000 good_result) first

abbrev third : Scheduler
third = step ⦃p = silent⦄ released second

abbrev fourth : Scheduler
fourth = step ⦃p = silent⦄ (requested "cli" 3000) third

abbrev fifth : Scheduler
fifth = step ⦃p = silent⦄ (collected 4000 (threw empty)) fourth

abbrev two_entries : List Entry
two_entries =
    record { trigger = refresh "cli"; started_at = 3000; finished_at = 4000; result = threw empty }
    ∷ record { trigger = at_start; started_at = 1000; finished_at = 2000; result = good_result }
    ∷ []

five_events : Reaches ⦃p = silent⦄ two_entries fifth
unfolding logged step
five_events =
    happens
      (happens
        (happens (happens (happens initial (starts 1000)) (collected 2000 good_result)) released)
        (requested "cli" 3000))
      (collected 4000 (threw empty))

Reaches-IsLogged_example : IsLogged ⦃p = silent⦄ two_entries fifth
Reaches-IsLogged_example = Reaches-IsLogged ⦃p = silent⦄ five_events

snapshot-IsReported_example : IsReported ⦃p = silent⦄ two_entries 9000 (snapshot 9000 fifth)
snapshot-IsReported_example = snapshot-IsReported ⦃p = silent⦄ 9000 five_events

steps-stops_example :
    (steps ⦃p = silent⦄
      (timer_fires 5000 ∷ requested "cli" 6000 ∷ released ∷ requested "cli" 7000 ∷ [])
      (step ⦃p = silent⦄ stops fifth)).attempts
    ≡ fifth.attempts
steps-stops_example =
    steps-stops ⦃p = silent⦄
      (timer_fires 5000 ∷ requested "cli" 6000 ∷ released ∷ requested "cli" 7000 ∷ []) fifth
