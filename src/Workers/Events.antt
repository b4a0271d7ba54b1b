-- ===== src/Workers/Events.antt =====
-- A history of the worker service: the calls of the API, the goroutines' turns, and the rebalancer's.
-- A call that is blocked never returns, and changes nothing.
use hermeshooks.Prelude.{
  String, Bool, true, false, Option, none, some, List, [], ◌∷◌, ◌&&◌, not, contains, if◌then◌else◌,
}
use text.Mathlib.Text.{◌==◌ as str_eq}
use hermeshooks.Entities.{Time}
use hermeshooks.Workers.{
  Monitor, Service, Call, blocked, returns, register, un_register, health, worker_health_check,
  worker_clean_up,
}

-- `ticks`, `observes` and `cleans` are turns of the goroutine that watches a worker: its ticker fires,
-- its context is done, and its deferred workerCleanUp runs. `takes` is StartReBalancer taking the
-- message out of the channel.
pub data Event : Type 0 where
  registers : Bool → String → Time → Event
  un_registers : String → Event
  reports : String → Time → Event
  ticks : String → Time → Event
  observes : String → Event
  cleans : String → Event
  takes : Event

abbrev pub left_by : {A : Type 0} → Service → Call A → Service
left_by s blocked = s
left_by s (returns a s') = s'

abbrev pub is_watching : String → Monitor → Bool
is_watching name m = str_eq m.worker.name name && not m.stopping

abbrev pub is_stopping : String → Monitor → Bool
is_stopping name m = str_eq m.worker.name name && m.stopping

abbrev pub stopped : Monitor → Monitor
stopped m = record m { stopping = true }

-- The first monitor that a test selects.
unfoldable pub find_monitor : (Monitor → Bool) → List Monitor → Option Monitor
find_monitor p [] = none
find_monitor p (m ∷ ms) = if p m then some m else find_monitor p ms

-- The monitors of a worker's name whose loop ends.
unfoldable pub stop_monitors : String → List Monitor → List Monitor
stop_monitors name [] = []
stop_monitors name (m ∷ ms) = (if is_watching name m then stopped m else m) ∷ stop_monitors name ms

-- The goroutine of a worker's name that has run its cleanup is gone.
unfoldable pub drop_monitors : String → List Monitor → List Monitor
drop_monitors name [] = []
drop_monitors name (m ∷ ms) =
    let rest = drop_monitors name ms in if is_stopping name m then rest else m ∷ rest

-- The ticker of a watching monitor fires: its loop ends if the health check fails.
unfoldable pub tick : String → Time → Service → Service
tick name now s = elim (find_monitor (is_watching name) s.monitors) [
  | none ↦ s
  | some m ↦ elim (worker_health_check name now s) [
    | blocked ↦ s
    | returns (w, healthy) s' ↦
        if healthy then s' else record s' { monitors = stop_monitors name s'.monitors }
  ]
]

unfoldable pub observe : String → Service → Service
observe name s = elim (find_monitor (is_watching name) s.monitors) [
  | none ↦ s
  | some m ↦
      if contains s.cancelled m.worker.context
      then record s { monitors = stop_monitors name s.monitors }
      else s
]

unfoldable pub clean : String → Service → Service
clean name s = elim (find_monitor (is_stopping name) s.monitors) [
  | none ↦ s
  | some m ↦ elim (worker_clean_up m.worker s) [
    | blocked ↦ s
    | returns done s' ↦ record s' { monitors = drop_monitors name s'.monitors }
  ]
]

unfoldable pub step : Service → Event → Service
unfolding tick observe clean
step s (registers context_is_done name now) = left_by s (register context_is_done name now s)
step s (un_registers name) = left_by s (un_register name s)
step s (reports name now) = left_by s (health name now s)
step s (ticks name now) = tick name now s
step s (observes name) = observe name s
step s (cleans name) = clean name s
step s takes = record s { signal = false }

unfoldable pub run : Service → List Event → Service
run s [] = s
run s (e ∷ es) = run (step s e) es
