-- ===== src/Storage/Due.antt =====
-- SelectJobsForExecution of internal/storage/db.go: a worker takes the jobs that are due in its
-- partition, and learns which job comes next. Children: what is claimed, and what comes next.
pub mod Run
pub mod Claims
pub mod Next
pub mod Complete
use hermeshooks.Prelude.{
  ℕ, String, ◌≡◌, Bool, Option, none, some, List, [], ◌∷◌, map, ◌&&◌, leb, ◌==◌, if◌then◌else◌,
  contains, select_where, update_where, sort_by, limit, head?, last?,
}
use hermeshooks.Entities
use hermeshooks.Entities.{Time, scheduled, pending, zero_job}
use hermeshooks.Storage.Models.{ScheduledJob, to_scheduled_job_entity}
use hermeshooks.Storage.Sql.{Server, Tables, Sql, pure, ◌>>=◌, ◌>>◌, read, write, transact}

-- WHERE status = ? AND partition = ? AND run_at <= ?
abbrev pub is_due : ℕ → Time → ScheduledJob → Bool
is_due partition now j = j.status == scheduled && (j.partition == partition && leb j.run_at now)

-- WHERE status = ? AND partition = ? AND run_at >= ?
abbrev pub is_later : ℕ → Time → ScheduledJob → Bool
is_later partition t j = j.status == scheduled && (j.partition == partition && leb t j.run_at)

unfoldable pub ids : List ScheduledJob → List ℕ
ids = map λ j. j.id

abbrev pub mark_pending : ScheduledJob → ScheduledJob
mark_pending j = record j { status = pending }

-- The rows of the first query, by the order in which the server met them.
unfoldable pub current_rows : List ScheduledJob → ℕ → ℕ → Time → List ScheduledJob
current_rows rows partition n now =
    limit n (sort_by (λ j. j.run_at) (select_where (is_due partition now) rows))

-- The rows of the second query.
unfoldable pub next_rows : List ScheduledJob → ℕ → Time → List ScheduledJob
next_rows rows partition t =
    limit 1 (sort_by (λ j. j.run_at) (select_where (is_later partition t) rows))

-- UPDATE scheduled_jobs SET status = ? WHERE id IN (?)
unfoldable pub set_pending : List ℕ → Tables → Tables
set_pending taken t = record t {
  jobs = update_where (λ j. contains taken j.id) mark_pending t.jobs;
}

unfoldable pub after_time : List ScheduledJob → Time → Time
after_time current now = elim (last? current) [ none ↦ now | some j ↦ j.run_at ]

unfoldable pub next_entity : List ScheduledJob → Entities.ScheduledJob
next_entity nexts = elim (head? nexts) [ none ↦ zero_job | some j ↦ to_scheduled_job_entity j ]

unfoldable pub to_pending_entity : ScheduledJob → Entities.ScheduledJob
to_pending_entity j = record (to_scheduled_job_entity j) { status = pending }

-- `if len(toUpdate) > 0`
unfoldable pub claim : Server → List ScheduledJob → Sql (Unit {0})
claim srv [] = pure tt
claim srv (j ∷ js) = write srv (λ _. set_pending (ids (j ∷ js)))

module _ (srv : Server) (partition n : ℕ) (now : Time) where
  unfoldable pub select_current : Sql (List ScheduledJob)
  select_current = read srv (λ k t. current_rows (srv.row_order k t.jobs) partition n now)

  unfoldable pub select_next : List ScheduledJob → Sql (List ScheduledJob)
  select_next current =
      read srv (λ k t. next_rows (srv.row_order k t.jobs) partition (after_time current now))

  -- The statements between `Begin` and `Commit`.
  unfoldable pub selection : Sql (List Entities.ScheduledJob × Entities.ScheduledJob)
  selection = do
    current ← select_current
    claim srv current
    nexts ← select_next current
    pure (map to_pending_entity current, next_entity nexts)

  unfoldable pub select_jobs_for_execution :
      Sql (List Entities.ScheduledJob × Entities.ScheduledJob)
  unfolding selection
  select_jobs_for_execution = transact srv selection
