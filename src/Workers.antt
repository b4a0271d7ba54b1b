-- ===== src/Workers.antt =====
-- internal/services/workers/workers.go: the registry of workers, and a goroutine for each that
-- watches its heartbeats. The lock is modelled where it matters: a call that finds the write lock held
-- by a call that has returned waits for ever (`blocked`). A context is numbered by the partition of
-- the worker that it was made for, as both are new at a registration.
pub mod Registry
pub mod Events
pub mod Entries
pub mod Invariant
pub mod Faults
pub mod Leaving
pub mod Rebalance
pub mod Balancer
use hermeshooks.Prelude.{
  ℕ, zero, suc, ◌+◌, ◌-◌, ◌*◌, String, Bool, true, false, not, Option, none, some, List, [], ◌∷◌,
  map, leb, ◌==◌, if◌then◌else◌, length, contains,
}
use hermeshooks.Entities.{Time}
use Registry.{Map, lookup, insert, delete}

-- internal/entities/worker.go. RegisteredAt and Healthy are never set or read.
pub record WorkerMeta : Type 0 where
  pub name : String
  pub partition : ℕ
  pub last_health_check : Time
  pub context : ℕ

abbrev pub zero_meta : WorkerMeta
zero_meta = record { name = ""; partition = 0; last_health_check = 0; context = 0 }

-- A goroutine in StartWorkerMonitor; it is `stopping` from the moment that its loop has ended until
-- workerCleanUp has run.
pub record Monitor : Type 0 where
  pub worker : WorkerMeta
  pub stopping : Bool

-- `signal`: the channel `ch` of capacity one holds a message. `cancelled`: the contexts cancelled.
pub record Service : Type 0 where
  pub registry : Map WorkerMeta
  pub pnum : ℕ
  pub signal : Bool
  pub health_freq : ℕ
  pub start_time : Time
  pub locked : Bool
  pub cancelled : List ℕ
  pub monitors : List Monitor

pub data Error : Type 0 where
  context_done not_found : Error

pub data Result (A : Type 0) : Type 0 where
  ok : A → Result A
  err : Error → Result A

pub data Call (A : Type 0) : Type 0 where
  blocked : Call A
  returns : A → Service → Call A

abbrev pub ten_seconds : ℕ
ten_seconds = 10_000_000_000

unfoldable pub new : ℕ → Time → Service
new health_freq now = record {
  registry = [];
  pnum = 0;
  signal = false;
  health_freq = if health_freq == 0 then ten_seconds else health_freq;
  start_time = now;
  locked = false;
  cancelled = [];
  monitors = [];
}

unfoldable pub up_since : Service → Time
up_since s = s.start_time

-- getCurrentPartitions, over the registry in the order in which Go ranges over it.
unfoldable pub get_current_partitions : Map WorkerMeta → List ℕ
get_current_partitions = map λ (name, w). w.partition

pub active_workers : Service → Call ℕ
unfolding get_current_partitions
active_workers s =
    if s.locked then blocked else returns (length (get_current_partitions s.registry)) s

-- The boolean says whether the message went into the channel.
unfoldable pub trigger_rebalance : Service → Service × Bool
trigger_rebalance s = (record s { signal = true }, not s.signal)

pub pick_from : ℕ → Map WorkerMeta → ℕ
pick_from r [] = 0
pick_from zero ((name, w) ∷ rest) = w.partition
pick_from (suc r) ((name, w) ∷ rest) = pick_from r rest

-- `visit` is the registry in the order in which Go ranges over it, `r` the random number below its
-- length. Pick takes no lock: its caller holds it.
pub pick : ℕ → Map WorkerMeta → ℕ
unfolding pick_from
pick r visit = if length visit == 0 then 0 else pick_from r visit

-- The registration of a new name.
pub enroll : String → Time → Service → Call (Result WorkerMeta)
enroll name now s = returns (ok w) (trigger_rebalance t).0
  where
    w : WorkerMeta
    w = record {
      name = name;
      partition = suc s.pnum;
      last_health_check = now;
      context = suc s.pnum;
    }

    t : Service
    t = record s {
      registry = insert name w s.registry;
      pnum = suc s.pnum;
      monitors = record { worker = w; stopping = false } ∷ s.monitors;
    }

pub refresh : String → WorkerMeta → Time → Service → Call (Result WorkerMeta)
refresh name w now s = returns (ok w') (record s { registry = insert name w' s.registry })
  where
    w' : WorkerMeta
    w' = record w { last_health_check = now }

-- Register. If the caller's context is done it returns with the lock held.
unfoldable pub register : Bool → String → Time → Service → Call (Result WorkerMeta)
unfolding enroll refresh trigger_rebalance
register context_is_done name now s =
    if s.locked
    then blocked
    else if context_is_done
    then returns (err context_done) (record s { locked = true })
    else elim (lookup name s.registry) [ some w ↦ refresh name w now s | none ↦ enroll name now s ]

-- UnRegister cancels the worker's context; the monitor does the rest.
unfoldable pub un_register : String → Service → Call WorkerMeta
un_register name s = if s.locked then blocked else elim (lookup name s.registry) [
  | none ↦ returns zero_meta s
  | some w ↦ returns w (record s { cancelled = w.context ∷ s.cancelled })
]

unfoldable pub health : String → Time → Service → Call (Result (Unit {0}))
health name now s = if s.locked then blocked else elim (lookup name s.registry) [
  | none ↦ returns (err not_found) s
  | some w ↦
      returns (ok tt)
        (record s { registry = insert name (record w { last_health_check = now }) s.registry })
]

-- now.Sub(w.LastHealthCheck) <= 2*o.healthFreq
abbrev pub is_recent : Service → WorkerMeta → Time → Bool
is_recent s w now = leb (now - w.last_health_check) (2 * s.health_freq)

pub worker_health_check : String → Time → Service → Call (WorkerMeta × Bool)
worker_health_check name now s = if s.locked then blocked else elim (lookup name s.registry) [
  | none ↦ returns (zero_meta, false) s
  | some w ↦ returns (w, is_recent s w now) s
]

pub worker_clean_up : WorkerMeta → Service → Call (Unit {0})
unfolding trigger_rebalance
worker_clean_up w s =
    if s.locked
    then blocked
    else returns tt (trigger_rebalance (record s { registry = delete w.name s.registry })).0
