-- ===== src/Monitor.antt =====
-- internal/worker/monitor.go: the loop in which a worker selects the jobs that are due and waits for
-- the next. A round is a selection and the time that the timer is set to; the loop ends on an error.
pub mod Wakes
use hermeshooks.Prelude.{ℕ, ◌-◌, ◌*◌, Option, none, some, List, ltb, ◌==◌, if◌then◌else◌}
use hermeshooks.Entities
use hermeshooks.Entities.{Time}
use hermeshooks.Storage.Sql.{Server, World, Error, Result, ok, err}
use hermeshooks.Storage.Due.{select_jobs_for_execution}

abbrev pub buff_size : ℕ
buff_size = 100

-- 5 * time.Minute
abbrev pub default_wait : ℕ
default_wait = 300_000_000_000

unfoldable pub wait_time : Entities.ScheduledJob → Time → ℕ
wait_time next now =
    if next.run_at == 0 then default_wait else if ltb now next.run_at then next.run_at - now else 1

-- The jobs that are pushed to the executor, and how long the worker waits if nobody wakes it.
pub record Round : Type 0 where
  pub jobs : List Entities.ScheduledJob
  pub wait : ℕ

abbrev pub round_of :
    Time → Result (List Entities.ScheduledJob × Entities.ScheduledJob) → Result Round
round_of now (err e) = err e
round_of now (ok (jobs, next)) = ok (record { jobs = jobs; wait = wait_time next now })

unfoldable pub round : Server → ℕ → Time → World → Result Round × World
round srv partition now w =
    let (r, w') = select_jobs_for_execution srv partition buff_size now w in (round_of now r, w')
