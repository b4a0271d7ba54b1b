-- ===== src/Tests/Reaching.antt =====
-- A job that is scheduled for partition 2 is heard of there.
use hermeshooks.Prelude.{
  ℕ, ◌≡◌, ◌≢◌, ◌≤◌, ◌⊎◌, refl, ap, Bool, true, false, some, List, ◌++◌, map, Memᴰ, arith, length,
}
use hermeshooks.Entities
use hermeshooks.Entities.{scheduled}
use hermeshooks.Storage.Models.{from_scheduled_job_entity}
use hermeshooks.Storage.Sql.{ok}
use hermeshooks.Storage.Columns.{with_times, admit_job, has_uid, has_user}
use hermeshooks.Storage.Due.{to_pending_entity}
use hermeshooks.Storage.Listen.{listen}
use hermeshooks.ScheduledJobs.{schedule}
use hermeshooks.ScheduledJobs.Lookups.{row_of}
use hermeshooks.Monitor.{Round, round, buff_size}
use hermeshooks.Worker.Reached.{scheduled_job_reached}
use hermeshooks.Tests.Data.{server, world}
use hermeshooks.Tests.Serving.{new_job}
use hermeshooks.Tests.Joining.{tally, len-tally, decode}

abbrev the_job : Entities.ScheduledJob
the_job = record new_job { status = scheduled; run_at = 7_500 }

admitted :
    admit_job server world.tables (row_of 2 the_job) ≡ some (with_times server (row_of 2 the_job))
unfolding admit_job has_uid has_user from_scheduled_job_entity
admitted = refl

scheduled_job_reached_example :
    let w1 = (schedule server 2 the_job world).1 in
    (ms : List ℕ) × (w1.tables.notified ≡ world.tables.notified ++ ms)
    × ((token : Bool)
        → listen decode 2 (map tally ms) token ≡ record { token = true; failed = false })
    × ((q : ℕ) (token : Bool)
        → q ≢ 2
        → listen decode q (map tally ms) token ≡ record { token = token; failed = false })
    × ((r : Round) × ((round server 2 9_000 w1).0 ≡ ok r)
        × (Memᴰ
              (to_pending_entity (record (with_times server (row_of 2 the_job)) { id = 10 }))
              r.jobs
            ⊎ ((length r.jobs ≡ buff_size)
                × ((e : Entities.ScheduledJob) → Memᴰ e r.jobs → e.run_at ≤ 7_500))))
scheduled_job_reached_example =
    scheduled_job_reached server tally decode 2 the_job 9_000 world (λ n. refl)
      (λ n. ap some (len-tally n)) admitted refl (omega arith)
