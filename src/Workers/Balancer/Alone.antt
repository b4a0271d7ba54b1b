-- ===== src/Workers/Balancer/Alone.antt =====
-- A rebalance for one worker gives it every job.
use hermeshooks.Prelude.{
  ℕ, ◌<◌, ◌≡◌, true, List, [], ◌∷◌, Memᴰ, All, All-mem, arith, contains, ap, select_where, refl,
}
use hermeshooks.Storage.Models.{ScheduledJob}
use hermeshooks.Storage.Sql.{Server, World}
use hermeshooks.Storage.Sql.Returns.{Live, transact-Returns}
use hermeshooks.Storage.Sql.Transact.{transact-ok, begun}
use hermeshooks.Storage.Balance.{MapRange, is_live, re_balance}
use hermeshooks.Storage.Balance.Ends.{re_balance-Returns}
use hermeshooks.Storage.Balance.Groups.{count_in}
use hermeshooks.Storage.Balance.Kept.{AllMoved, AllMoved-times, AllMoved-live}
use hermeshooks.Storage.Balance.Even.Moves.{IsUnique}
use hermeshooks.Storage.Balance.Even.Shares.{re_balance_even}
use hermeshooks.Workers.{WorkerMeta, get_current_partitions}
use hermeshooks.Workers.Registry.{Map}
use hermeshooks.Workers.Rebalance.{rebalance, rebalance_completes}

-- All jobs are still to be run, and have ids of their own.
pub record AllWait (w : World) : Type 0 where
  pub live : All (λ j. is_live j.status ≡ true) w.tables.jobs
  pub unique : IsUnique w.tables.jobs

-- Every job is in the partition, and none is lost, or changed but in its partition and status.
pub record AllIn (p : ℕ) (before after : World) : Type 0 where
  pub moved : AllMoved before.tables.jobs after.tables.jobs
  pub placed : (j : ScheduledJob) → Memᴰ j after.tables.jobs → j.partition ≡ p

counted :
    (p : ℕ) (rows : List ScheduledJob) (j : ScheduledJob)
    → Memᴰ j rows
    → j.partition ≡ p
    → 0 < count_in p rows
unfolding select_where
counted p [] j m e = elim m [ ]
counted p (x ∷ rows) j (Memᴰ.head same) e =
    ground (arith, ap (λ (y : ScheduledJob). y.partition) same)
counted p (x ∷ rows) j (Memᴰ.tail m) e = ground (arith, counted p rows j m e)

module _ (srv : Server) (range : MapRange) (live : Live srv) (visit : Map WorkerMeta) (p : ℕ)
    (one : get_current_partitions visit ≡ p ∷ []) (positive : 0 < p) where
  none_left : (w : World) → AllWait w → count_in 0 (rebalance srv range visit w).1.tables.jobs ≡ 0
  unfolding rebalance contains
  none_left w h =
      let (u, e) =
        (transact-Returns srv live _ (re_balance-Returns srv live range (p ∷ []))).at w in
      let (inner, kept) = transact-ok srv (re_balance srv range (p ∷ [])) w e in
      let (l, allowed, shared) =
        re_balance_even srv range (p ∷ []) (begun srv w) (positive, refl, tt) (omega arith) h.live
          h.unique inner in
      rw (one, kept) (ground (arith, shared 0))

  pub alone-AllIn : (w : World) → AllWait w → AllIn p w (rebalance srv range visit w).1
  unfolding contains
  alone-AllIn w h =
      let rows = (rebalance srv range visit w).1.tables.jobs in
      let (done, kept, placed) = rebalance_completes srv range visit w live in
      let waits = AllMoved-live w.tables.jobs rows kept.jobs h.live in
      record {
        moved = kept.jobs;
        placed = λ j m.
            let there : contains (0 ∷ p ∷ []) j.partition ≡ true =
              rw one at (
                placed j m
                  (All-mem (λ (x : ScheduledJob). is_live x.status ≡ true) rows waits m)) in
            ground (arith, counted 0 rows j m, none_left w h);
      }

  pub alone-AllWait : (w : World) → AllWait w → AllWait (rebalance srv range visit w).1
  alone-AllWait w h =
      let rows = (rebalance srv range visit w).1.tables.jobs in
      let (done, kept, placed) = rebalance_completes srv range visit w live in
      record {
        live = AllMoved-live w.tables.jobs rows kept.jobs h.live;
        unique = λ id. omega (arith, AllMoved-times id w.tables.jobs rows kept.jobs, h.unique id);
      }
