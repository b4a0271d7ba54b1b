-- ===== src/Monitor/Wakes.antt =====
-- A worker wakes up in time for the jobs that are waiting.
use hermeshooks.Prelude.{ℕ, ◌+◌, ◌≤◌, ◌<◌, ◌≡◌, ◌⊎◌, inl, inr, Memᴰ, arith}
use hermeshooks.Entities.{Time, scheduled}
use hermeshooks.Storage.Models.{ScheduledJob, to_scheduled_job_entity}
use hermeshooks.Storage.Sql.{Server, World, ok}
use hermeshooks.Storage.Sql.Returns.{Live}
use hermeshooks.Storage.Due.Run.{select_succeeds}
use hermeshooks.Storage.Due.Next.{select_next_earliest}
use hermeshooks.Monitor.{Round, wait_time, round, buff_size}

-- The wait is set to the time of a job, or to a nanosecond if that has come.
wait_time-le :
    (i : ScheduledJob) (now t : Time)
    → 0 < i.run_at
    → i.run_at ≤ t
    → (now + wait_time (to_scheduled_job_entity i) now ≤ t)
      ⊎ ((wait_time (to_scheduled_job_entity i) now ≡ 1) × (i.run_at ≤ now))
unfolding wait_time to_scheduled_job_entity
wait_time-le i now t pos le = ground arith

-- If no round trip fails, a round of the monitor's loop returns; and then, no stored job having Go's
-- zero time, for every job of the partition that is still scheduled either the worker's wait ends no
-- later than that job's time, or the wait is one nanosecond and a job of the partition that is still
-- scheduled is due.
pub round_wakes :
    (srv : Server) (partition : ℕ) (now : Time) (w : World)
    → Live srv
    → ((k : ScheduledJob) → Memᴰ k (round srv partition now w).1.tables.jobs → 0 < k.run_at)
    → (r : Round) × ((round srv partition now w).0 ≡ ok r)
      × ((j : ScheduledJob)
          → Memᴰ j (round srv partition now w).1.tables.jobs
          → j.status ≡ scheduled
          → j.partition ≡ partition
          → (now + r.wait ≤ j.run_at)
            ⊎ ((r.wait ≡ 1)
                × ((i : ScheduledJob) × Memᴰ i (round srv partition now w).1.tables.jobs
                    × (i.status ≡ scheduled)
                    × (i.partition ≡ partition)
                    × (i.run_at ≤ now))))
unfolding round
round_wakes srv partition now w live pos =
    let (items, next, e) = select_succeeds srv partition buff_size now live w in
    (
      record { jobs = items; wait = wait_time next now },
      ground arith,
      λ j m st pa.
          let (i, mi, si, pi, le, same) =
            select_next_earliest srv partition buff_size now w j e m st pa in
          elim (wait_time-le i now j.run_at (pos i mi) le) [
            | inl soon ↦ inl (rw same soon)
            | inr (one, due) ↦ inr (rw same one, (i, mi, si, pi, due))
          ],
    )
