-- ===== src/Tests/Registering.antt =====
-- A service with one registered worker, healthy, silent or on its way out.
use hermeshooks.Prelude.{
  ◌≡◌, ◌≢◌, refl, String, Bool, true, false, none, some, List, [], ◌∷◌, arith,
}
use hermeshooks.Entities.{Time}
use hermeshooks.Workers.Registry.{Map, lookup}
use hermeshooks.Workers.{
  up_since, WorkerMeta, Monitor, Service, ok, err, context_done, not_found, blocked, returns, new,
  register, un_register, health, active_workers,
}
use hermeshooks.Workers.Events.{
  Event, registers, un_registers, reports, observes, cleans, takes, is_watching, is_stopping,
  find_monitor, clean, tick, run,
}
use hermeshooks.Workers.Entries.{Inv}
use hermeshooks.Workers.Invariant.{run-new-Inv}
use hermeshooks.Workers.Faults.{register_done_deadlocks, silent_worker_removed, reregister_lost}

abbrev events : List Event
events =
    registers false "ada" 0
    ∷ registers false "bob" 1
    ∷ un_registers "ada"
    ∷ observes "ada"
    ∷ takes
    ∷ cleans "ada"
    ∷ reports "bob" 9
    ∷ registers false "ada" 10
    ∷ []

run-new-Inv_example : Inv (run (new 5 0) events)
run-new-Inv_example = run-new-Inv 5 0 events

abbrev worker : WorkerMeta
worker = record { name = "ada"; partition = 1; last_health_check = 0; context = 1 }

abbrev monitor : Bool → Monitor
monitor stopping = record { worker = worker; stopping = stopping }

abbrev service : Bool → Service
service stopping = record {
  registry = ("ada", worker) ∷ [];
  pnum = 1;
  signal = false;
  health_freq = 5;
  start_time = 0;
  locked = false;
  cancelled = [];
  monitors = monitor stopping ∷ [];
}

looked_up : lookup "ada" (service false).registry ≡ some worker
unfolding lookup
looked_up = refl

watching : find_monitor (is_watching "ada") (service false).monitors ≡ some (monitor false)
unfolding find_monitor
watching = refl

stopping : find_monitor (is_stopping "ada") (service true).monitors ≡ some (monitor true)
unfolding find_monitor
stopping = refl

started : up_since (new 5 0) ≡ 0
unfolding up_since new
started = refl

register_done_deadlocks_example :
    (t : Service) × (register true "ada" 3 (service false) ≡ returns (err context_done) t)
    × ((run t events).registry ≡ (service false).registry)
    × ((d : Bool) (k : String) (at : Time)
        → (register d k at (run t events) ≡ blocked)
          × (health k at (run t events) ≡ blocked)
          × (un_register k (run t events) ≡ blocked)
          × (active_workers (run t events) ≡ blocked))
register_done_deadlocks_example = register_done_deadlocks (service false) "ada" 3 events refl

silent_worker_removed_example :
    let t = clean "ada" (tick "ada" 20 (service false)) in
    (lookup "ada" t.registry ≡ none)
    × ((k : String) → k ≢ "ada" → lookup k t.registry ≡ lookup k (service false).registry)
    × (t.signal ≡ true)
silent_worker_removed_example =
    silent_worker_removed (service false) "ada" 20 worker (monitor false) refl looked_up watching
      (omega arith)

reregister_lost_example :
    (t : Service) × (v : WorkerMeta) × (register false "ada" 7 (service true) ≡ returns (ok v) t)
    × (lookup "ada" (clean "ada" t).registry ≡ none)
    × (health "ada" 8 (clean "ada" t) ≡ returns (err not_found) (clean "ada" t))
reregister_lost_example =
    reregister_lost (service true) "ada" 7 8 worker (monitor true) refl looked_up stopping

abbrev two : Map WorkerMeta
two = ("ada", worker) ∷ ("bob", record worker { name = "bob"; partition = 2; context = 2 }) ∷ []
