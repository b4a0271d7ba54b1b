-- ===== src/Workers/Balancer/Settles.antt =====
-- The rebalancer catches up with the registry.
use mathlib.Core.List.Permᴰ
use hermeshooks.Prelude.{
  ℕ, zero, suc, ◌≡◌, refl, true, false, inl, inr, Permᴰ, arith, Memᴰ, ◌∷◌, contains,
}
use hermeshooks.Storage.Models.{ScheduledJob}
use hermeshooks.Storage.Sql.{Server, World, Result, ok}
use hermeshooks.Storage.Sql.Returns.{Live}
use hermeshooks.Storage.Balance.{MapRange, is_live}
use hermeshooks.Workers.{WorkerMeta, trigger_rebalance, get_current_partitions}
use hermeshooks.Workers.Registry.{Map}
use hermeshooks.Workers.Rebalance.{rebalance, rebalance_completes}
use hermeshooks.Workers.Balancer.Told.{Told, Owed, KnowsOf, Reach-Told, start-Told}
use hermeshooks.Workers.Balancer.{
  Phase, reading, working, waiting, dead, State, start, IsAlive, hushed, finish, Turn, sends,
  receives, reads, rebalances, Reach, Goes, rests, then_turn,
}

-- Whatever calls have come, and whatever the turns: when the rebalancer waits, no message is in the
-- channel and none has still to be sent, the last rebalance that was committed dealt the jobs out to just
-- the partitions that are registered now.
pub no_lost_rebalance :
    (freq now : ℕ) (w : World) {s : State}
    → Reach (start freq now w) s
    → s.phase ≡ waiting
    → s.senders ≡ 0
    → s.service.signal ≡ false
    → Permᴰ s.last (get_current_partitions s.service.registry)
no_lost_rebalance freq now w {s} r e quiet empty =
    knows (rw e at (Reach-Told (start-Told freq now w) r))
  where
    knows : Told waiting s → KnowsOf s.last s
    knows (inl (inl n)) = absurd (omega arith)
    knows (inl (inr full)) = absurd (cc)
    knows (inr k) = k

module _ {srv : Server} {range : MapRange} where
  pub trans : {s t u : State} → Goes srv range s t → Goes srv range t u → Goes srv range s u
  trans r rests = r
  trans r (then_turn q turn) = then_turn (trans r q) turn

-- A rebalance for all that is registered has just been committed, and nothing is left to do.
abbrev pub Settled : Map WorkerMeta → State → Type 0
Settled registry u =
    (u.phase ≡ waiting)
    × (u.senders ≡ 0)
    × (u.service.signal ≡ false)
    × (u.service.registry ≡ registry)
    × (u.last ≡ get_current_partitions registry)
    × ((j : ScheduledJob)
        → Memᴰ j u.db.tables.jobs
        → is_live j.status ≡ true
        → contains (0 ∷ get_current_partitions registry) j.partition ≡ true)

module _ (srv : Server) (range : MapRange) (live : Live srv) where
  abbrev Catches : State → Type 0
  Catches s = (u : State) × Goes srv range s u × Settled s.service.registry u

  abbrev pub dealt : Map WorkerMeta → State → State
  dealt visit s = record s {
    phase = waiting;
    last = get_current_partitions visit;
    db = (rebalance srv range visit s.db).1;
  }

  finish_ok :
      (visit : Map WorkerMeta) (s : State) (r : Result (Unit {0})) (w : World)
      → r ≡ ok tt
      → finish visit (r, w) s
        ≡ record s { phase = waiting; last = get_current_partitions visit; db = w }
  unfolding finish
  finish_ok visit s r w e = rw e refl

  pub rebalanced :
      (visit : Map WorkerMeta) (s : State)
      → s.phase ≡ working visit
      → Turn srv range s (dealt visit s)
  rebalanced visit s e =
      let done =
        finish_ok visit s (rebalance srv range visit s.db).0 (rebalance srv range visit s.db).1
          (rebalance_completes srv range visit s.db live).0 in
      let turn : Turn srv range s (finish visit (rebalance srv range visit s.db) s) =
        rebalances s visit e in
      rw done at turn

  -- From a rebalance that has begun, with nobody left to ask for another.
  from_reading :
      (s : State)
      → s.phase ≡ reading
      → s.senders ≡ 0
      → s.service.signal ≡ false
      → s.service.locked ≡ false
      → Catches s
  from_reading s e quiet empty free =
      let visit = s.service.registry in
      let one : State = record s { phase = working visit } in
      (
        dealt visit one,
        then_turn (then_turn rests (reads s visit e free (Permᴰ.refl visit)))
            (rebalanced visit one refl),
        (refl, quiet, empty, refl, refl, (rebalance_completes srv range visit s.db live).2),
      )

  -- From the channel, with a message in it.
  from_waiting :
      (s : State)
      → s.phase ≡ waiting
      → s.senders ≡ 0
      → s.service.signal ≡ true
      → s.service.locked ≡ false
      → Catches s
  from_waiting s e quiet full free =
      let one : State = record s { service = hushed s.service; phase = reading } in
      let (u, r, settled) = from_reading one refl quiet refl free in
      (u, trans (then_turn rests (receives s e full)) r, settled)

  -- From any turn of the rebalancer, with a message in the channel.
  from_signal :
      (s : State) (p : Phase)
      → s.phase ≡ p
      → IsAlive p
      → s.senders ≡ 0
      → s.service.signal ≡ true
      → s.service.locked ≡ false
      → Catches s
  from_signal s waiting e alive quiet full free = from_waiting s e quiet full free
  from_signal s (working visit) e alive quiet full free =
      let (u, r, settled) = from_waiting (dealt visit s) refl quiet full free in
      (u, trans (then_turn rests (rebalanced visit s e)) r, settled)
  from_signal s reading e alive quiet full free =
      let visit = s.service.registry in
      let one : State = record s { phase = working visit } in
      let (u, r, settled) = from_waiting (dealt visit one) refl quiet full free in
      (
        u,
        trans
            (then_turn (then_turn rests (reads s visit e free (Permᴰ.refl visit)))
              (rebalanced visit one refl))
            r,
        settled,
      )
  from_signal s dead e alive quiet full free = absurd alive

  abbrev pub sent : ℕ → State → State
  sent n s = record s { service = (trigger_rebalance s.service).0; senders = n }

  -- The messages are sent first.
  from_senders :
      (n : ℕ) (s : State)
      → s.senders ≡ suc n
      → IsAlive s.phase
      → s.service.locked ≡ false
      → Catches s
  unfolding trigger_rebalance
  from_senders zero s e alive free =
      let (u, r, settled) = from_signal (sent 0 s) s.phase refl alive refl refl free in
      (u, trans (then_turn rests (sends s 0 e alive)) r, settled)
  from_senders (suc n) s e alive free =
      let (u, r, settled) = from_senders n (sent (suc n) s) refl alive free in
      (u, trans (then_turn rests (sends s (suc n) e alive)) r, settled)

  from_Owed :
      (n : ℕ) (s : State)
      → s.senders ≡ n
      → IsAlive s.phase
      → Owed s
      → s.service.locked ≡ false
      → Catches s
  from_Owed (suc n) s e alive owed free = from_senders n s e alive free
  from_Owed zero s e alive (inl some_sender) free = absurd (omega arith)
  from_Owed zero s e alive (inr full) free = from_signal s s.phase refl alive e full free

  -- When no round trip fails, the rebalancer is alive, the lock is free, and a message is in the channel or
  -- has still to be sent: some turns of the senders and of the rebalancer alone lead to a state in which
  -- nothing is left to do, a rebalance for just the registered partitions has been committed, and every job
  -- that is still to be run is in one of them or in partition 0.
  pub rebalancer_settles :
      (s : State)
      → IsAlive s.phase
      → Owed s
      → s.service.locked ≡ false
      → (u : State) × Goes srv range s u × Settled s.service.registry u
  rebalancer_settles s alive owed free = from_Owed s.senders s refl alive owed free
