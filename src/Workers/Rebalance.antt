-- ===== src/Workers/Rebalance.antt =====
-- rebalance of internal/services/workers/workers.go: ReBalance for the workers registered, in a
-- transaction. `visit` is the registry in the order in which Go ranges over it, read under the lock.
use hermeshooks.Prelude.{◌≡◌, true, Memᴰ, ◌∷◌, contains}
use hermeshooks.Storage.Models.{ScheduledJob}
use hermeshooks.Storage.Sql.{Server, World, Sql, ok, transact}
use hermeshooks.Storage.Sql.Transact.{transact-ok, begun}
use hermeshooks.Storage.Sql.Returns.{Live, transact-Returns}
use hermeshooks.Storage.Balance.{MapRange, is_live, re_balance}
use hermeshooks.Storage.Balance.Kept.{Kept, re_balance_keeps_jobs}
use hermeshooks.Storage.Balance.Targets.{re_balance_places}
use hermeshooks.Storage.Balance.Ends.{re_balance-Returns}
use hermeshooks.Workers.Registry.{Map}
use hermeshooks.Workers.{WorkerMeta, get_current_partitions}

unfoldable pub rebalance : Server → MapRange → Map WorkerMeta → Sql (Unit {0})
rebalance srv range visit = transact srv (re_balance srv range (get_current_partitions visit))

-- If no round trip fails, a rebalance returns without an error; every job that is still to be run is
-- then in the partition of a registered worker or in partition 0, and no job is lost or changed but
-- in its partition and from pending to scheduled.
pub rebalance_completes :
    (srv : Server) (range : MapRange) (visit : Map WorkerMeta) (w : World)
    → Live srv
    → ((rebalance srv range visit w).0 ≡ ok tt)
      × Kept w.tables (rebalance srv range visit w).1.tables
      × ((j : ScheduledJob)
          → Memᴰ j (rebalance srv range visit w).1.tables.jobs
          → is_live j.status ≡ true
          → contains (0 ∷ get_current_partitions visit) j.partition ≡ true)
unfolding rebalance
rebalance_completes srv range visit w live =
    let active = get_current_partitions visit in
    let (u, e) = (transact-Returns srv live _ (re_balance-Returns srv live range active)).at w in
    let (inner, kept) = transact-ok srv (re_balance srv range active) w e in
    (
      e,
      rw kept (re_balance_keeps_jobs srv range active (begun srv w)),
      λ j. rw kept (re_balance_places srv range active (begun srv w) j inner),
    )
