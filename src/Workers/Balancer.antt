-- ===== src/Workers/Balancer.antt =====
-- StartReBalancer of internal/services/workers/workers.go, beside the calls of the service: a goroutine
-- that rebalances once when it starts, and again for every message in the channel of capacity one. A call
-- that asks for a rebalance sends its message after it has given the lock back, so other goroutines may
-- have their turn in between.
pub mod Calls
pub mod Told
pub mod Settles
pub mod Alone
pub mod First
use hermeshooks.Prelude.{ℕ, suc, ◌≡◌, Bool, true, false, List, [], Permᴰ, if◌then◌else◌}
use hermeshooks.Entities.{Time}
use hermeshooks.Storage.Sql.{Server, World, Result, ok, err}
use hermeshooks.Storage.Balance.{MapRange}
use hermeshooks.Workers.{WorkerMeta, Service, new, trigger_rebalance, get_current_partitions}
use hermeshooks.Workers.Registry.{Map}
use hermeshooks.Workers.Events.{
  Event, registers, un_registers, reports, ticks, observes, cleans, takes, step,
}
use hermeshooks.Workers.Rebalance.{rebalance}

-- `reading`: a rebalance has begun, and has not read the registry. `working`: it has, in the order given,
-- and its transaction is to come. `waiting`: at the channel. `dead`: the error of a rebalance was a panic.
pub data Phase : Type 0 where
  reading : Phase
  working : Map WorkerMeta → Phase
  waiting : Phase
  dead : Phase

-- `senders` are the goroutines that have still to send their message; `last` are the partitions for which
-- the last rebalance that was committed has dealt out the jobs.
pub record State : Type 0 where
  pub service : Service
  pub senders : ℕ
  pub phase : Phase
  pub last : List ℕ
  pub db : World

unfoldable pub start : ℕ → Time → World → State
start health_freq now w = record {
  service = new health_freq now;
  senders = 0;
  phase = reading;
  last = [];
  db = w;
}

-- `takes` is the rebalancer's turn; all other events are calls of the service.
abbrev pub IsCall : Event → Type 0
IsCall takes = ⊥
IsCall e = Unit {0}

abbrev pub hushed : Service → Service
hushed s = record s { signal = false }

-- What a call does while it has the lock; whether it asks for a rebalance shows in the channel.
abbrev during : Event → Service → Service
during e s = step (hushed s) e

unfoldable pub call : Event → State → State
call e s = record s {
  service = record (during e s.service) { signal = s.service.signal };
  senders = if (during e s.service).signal then suc s.senders else s.senders;
}

-- `if err := o.rebalance(ctx); err != nil { panic(err) }`
unfoldable pub finish : Map WorkerMeta → Result (Unit {0}) × World → State → State
finish visit (ok u, w) s = record s { phase = waiting; last = get_current_partitions visit; db = w }
finish visit (err e, w) s = record s { phase = dead; db = w }

abbrev pub IsAlive : Phase → Type 0
IsAlive dead = ⊥
IsAlive p = Unit {0}

-- One turn of a goroutine with a message to send, or of the rebalancer, whose database server is `srv`.
pub data Turn (srv : Server) (range : MapRange) : State → State → Type 0 where
  sends :
      (s : State) (n : ℕ)
      → s.senders ≡ suc n
      → IsAlive s.phase
      → Turn srv range s (record s { service = (trigger_rebalance s.service).0; senders = n })
  receives :
      (s : State)
      → s.phase ≡ waiting
      → s.service.signal ≡ true
      → Turn srv range s (record s { service = hushed s.service; phase = reading })
  reads :
      (s : State) (visit : Map WorkerMeta)
      → s.phase ≡ reading
      → s.service.locked ≡ false
      → Permᴰ visit s.service.registry
      → Turn srv range s (record s { phase = working visit })
  rebalances :
      (s : State) (visit : Map WorkerMeta)
      → s.phase ≡ working visit
      → Turn srv range s (finish visit (rebalance srv range visit s.db) s)

-- One turn of anyone: of a call, of those above, or of someone else at the database. What the server does,
-- and the order of a map, may differ from turn to turn.
pub data Step : State → State → Type 0 where
  calls : (s : State) (e : Event) → IsCall e → IsAlive s.phase → Step s (call e s)
  turns : (srv : Server) (range : MapRange) {s t : State} → Turn srv range s t → Step s t
  others : (s : State) (w : World) → IsAlive s.phase → Step s (record s { db = w })

pub data Reach (s : State) : State → Type 0 where
  here : Reach s s
  next : {t u : State} → Reach s t → Step t u → Reach s u

-- The turns of the senders and of the rebalancer alone.
pub data Goes (srv : Server) (range : MapRange) (s : State) : State → Type 0 where
  rests : Goes srv range s s
  then_turn : {t u : State} → Goes srv range s t → Turn srv range t u → Goes srv range s u
