-- ===== src/ScheduledJobs.antt =====
-- internal/services/scheduledjobs/scheduled_jobs.go: the jobs service of the API. The partitioner is
-- the worker service, whose read lock Schedule holds for the whole of the call; `partition` is what
-- its Pick returned.
pub mod Lookups
use hermeshooks.Prelude.{ℕ, String, ◌≡◌, Option, none, some, List, []}
use hermeshooks.Entities
use hermeshooks.Entities.{zero_job}
use hermeshooks.Storage.Sql.{Server, World, Error, Result, ok, err, Sql, begin, commit, rollback}
use hermeshooks.Storage.Queries.{insert_scheduled_job, get_scheduled_job, select_executions}

-- Get's results: the job, the executions and the error.
pub record Found : Type 0 where
  pub job : Entities.ScheduledJob
  pub executions : List Entities.Execution
  pub error : Option Error

abbrev pub error_of : Result (Unit {0}) → Option Error
error_of (ok a) = none
error_of (err e) = some e

abbrev pub nothing_found : Error → Found
nothing_found e = record { job = zero_job; executions = []; error = some e }

module _ (srv : Server) where
  unfoldable pub schedule : ℕ → Entities.ScheduledJob → Sql Entities.ScheduledJob
  schedule partition job = insert_scheduled_job srv (record job { partition = partition })

  -- What follows GetScheduledJob, under its `defer tx.Rollback()`.
  pub get_executions : Entities.ScheduledJob → World → Found × World
  get_executions job w =
      let (selected, w') = select_executions srv job.id w in
      elim selected [
        | err e ↦ (record { job = job; executions = []; error = some e }, rollback w')
        | ok items ↦
            let (r, w'') = commit srv w' in
            (record { job = job; executions = items; error = error_of r }, rollback w'')
      ]

  -- GetScheduledJob's error returns before the rollback is deferred.
  pub get_lookup : String → ℕ → World → Found × World
  unfolding get_executions
  get_lookup uid user_id w =
      let (found, w') = get_scheduled_job srv uid user_id w in
      elim found [ err e ↦ (nothing_found e, w') | ok job ↦ get_executions job w' ]

  pub get : Entities.User → String → World → Found × World
  unfolding get_lookup
  get u uid w =
      let (begun, w') = begin srv w in
      elim begun [ err e ↦ (nothing_found e, w') | ok done ↦ get_lookup uid u.id w' ]
