-- ===== src/Workers/Balancer/First.antt =====
-- The first worker of a service, and what the rebalancer then does.
use mathlib.Core.List.Permᴰ
use mathlib.Core.Path.{subst}
use text.Mathlib.TextEquality.{eq_iff}
use hermeshooks.Prelude.{ℕ, ◌<◌, ◌≡◌, refl, String, true, false, some, [], ◌∷◌, arith}
use hermeshooks.Entities.{Time}
use hermeshooks.Storage.Sql.{Server, World}
use hermeshooks.Storage.Sql.Returns.{Live}
use hermeshooks.Storage.Balance.{MapRange}
use hermeshooks.Storage.Balance.Kept.{AllMoved-trans}
use hermeshooks.Workers.{
  WorkerMeta, Service, ok, returns, new, register, trigger_rebalance, get_current_partitions,
}
use hermeshooks.Workers.Registry.{Map, lookup, insert}
use hermeshooks.Workers.Events.{registers, step}
use hermeshooks.Workers.Rebalance.{rebalance, rebalance_completes}
use hermeshooks.Workers.Balancer.{
  State, reading, working, start, call, hushed, sends, receives, reads, Goes, rests, then_turn,
}
use hermeshooks.Workers.Balancer.Settles.{Settled, dealt, sent, rebalanced}
use hermeshooks.Workers.Balancer.Alone.{AllWait, AllIn, alone-AllIn, alone-AllWait}

module _ (freq : ℕ) (now : Time) (db : World) (name : String) (time : Time) where
  abbrev pub begun : State
  begun = call (registers false name time) (start freq now db)

  pub first_joins :
      (m : WorkerMeta) × (t : Service) × (register false name time (new freq now)
        ≡ returns (ok m) t)
      × (lookup name t.registry ≡ some m)
      × (begun.service.registry ≡ t.registry)
      × (get_current_partitions t.registry ≡ m.partition ∷ [])
      × (0 < m.partition)
  unfolding new start call step register trigger_rebalance lookup insert get_current_partitions
  first_joins =
      let m : WorkerMeta = record {
        name = name;
        partition = 1;
        last_health_check = time;
        context = 1;
      } in
      (
        m,
        record (new freq now) {
          registry = (name, m) ∷ [];
          pnum = 1;
          signal = true;
          monitors = record { worker = m; stopping = false } ∷ [];
        },
        refl,
        ground (arith, eq_iff name name),
        refl,
        refl,
        omega arith,
      )

  module _ (srv : Server) (range : MapRange) (live : Live srv) where
    abbrev served : Map WorkerMeta → World
    served visit = (rebalance srv range visit db).1

    abbrev after_first : Map WorkerMeta → State
    after_first visit =
        dealt srv range live visit (record (sent srv range live 0 begun) { phase = working visit })

    abbrev after_second : Map WorkerMeta → State
    after_second visit = dealt srv range live visit (record (after_first visit) {
      service = hushed (after_first visit).service;
      phase = working visit;
    })

    -- The message is sent, and there are two rebalances: the one that has begun, and one for the message.
    path : Goes srv range begun (after_second begun.service.registry)
    unfolding start call new step register lookup insert trigger_rebalance
    path =
        let visit = begun.service.registry in
        let one = sent srv range live 0 begun in
        let two : State = record one { phase = working visit } in
        let three = after_first visit in
        let four : State = record three { service = hushed three.service; phase = reading } in
        let five : State = record four { phase = working visit } in
        then_turn
          (then_turn
            (then_turn
              (then_turn
                (then_turn (then_turn rests (sends begun 0 refl tt))
                  (reads one visit refl refl (Permᴰ.refl visit)))
                (rebalanced srv range live visit two refl))
              (receives three refl refl))
            (reads four visit refl refl (Permᴰ.refl visit)))
          (rebalanced srv range live visit five refl)

    settled : Settled begun.service.registry (after_second begun.service.registry)
    unfolding start call new step register lookup insert trigger_rebalance
    settled =
        let visit = begun.service.registry in
        (refl, refl, refl, refl, refl, (rebalance_completes srv range visit (served visit) live).2)

    -- The rebalancer leaves all jobs to the worker, and nothing to do.
    pub first_served :
        (m : WorkerMeta) (t : Service)
        → begun.service.registry ≡ t.registry
        → get_current_partitions t.registry ≡ m.partition ∷ []
        → 0 < m.partition
        → AllWait db
        → (u : State) × Goes srv range begun u × Settled t.registry u × AllIn m.partition db u.db
    unfolding start call
    first_served m t same one positive waits =
        let visit = begun.service.registry in
        let here : get_current_partitions visit ≡ m.partition ∷ [] = rw same one in
        let first = alone-AllIn srv range live visit m.partition here positive db waits in
        let left = alone-AllWait srv range live visit m.partition here positive db waits in
        let again =
          alone-AllIn srv range live visit m.partition here positive (served visit) left in
        (
          after_second visit,
          path,
          subst (λ r. Settled r (after_second visit)) same settled,
          record {
            moved = AllMoved-trans db.tables.jobs _ _ first.moved again.moved;
            placed = again.placed;
          },
        )
