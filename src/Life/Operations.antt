-- ===== src/Life/Operations.antt =====
-- What the operations on the tables of jobs preserve.
use hermeshooks.Prelude.{
  ℕ, ◌≡◌, refl, ◌∙◌, String, true, Option, none, some, List, [], ◌∷◌, ◌++◌, arith, ◌==◌, Bool-cases,
  inl, inr,
}
use hermeshooks.Entities
use hermeshooks.Entities.{Time, scheduled, pending, success, fail}
use hermeshooks.Storage.Models.{
  ScheduledJob, Execution, from_scheduled_job_entity, to_scheduled_job_entity,
  from_entities_execution, to_entities_execution,
}
use hermeshooks.Storage.Sql.{Server, World, Tables, pure}
use hermeshooks.Storage.Sql.Holds.{
  Holds, Preserves, Preserves-pure, Preserves-bind, Preserves-write, Preserves-statement,
  Preserves-transact,
}
use hermeshooks.Storage.Columns.{admit_job, admit_execution}
use hermeshooks.Storage.Queries.{
  insert_job, insert_scheduled_job, update_job_status, insert_execution_row, insert_execution,
}
use hermeshooks.Storage.Balance.{
  MapRange, is_live, is_orphan, reset_to, move_to, update_jobs_partitions, assign_jobs_to_partition,
  removes_jobs_from_partition, notify,
}
use hermeshooks.Storage.Balance.Kept.{orphan-live}
use hermeshooks.Storage.Balance.Preserved.{re_balance-Preserves}
use hermeshooks.Storage.Ids.Operations.{job_inserted, execution_inserted}
use hermeshooks.ScheduledJobs.{schedule}
use hermeshooks.Executor.{final_status, save}
use hermeshooks.Workers.{WorkerMeta}
use hermeshooks.Workers.Registry.{Map}
use hermeshooks.Workers.Rebalance.{rebalance}
use hermeshooks.Life.{waiting, Card, stays, is_given_back, finishes}
use hermeshooks.Life.Updates.{Moves, Lives, Lives-update, Lives-same, Lives-append, Lives-draw}

Moves-final :
    (error : Option String) (j : ScheduledJob) (now : Time)
    → Moves j (record j { status = final_status error; updated_at = now })
Moves-final none j now = record { same = refl; move = finishes _ }
Moves-final (some e) j now = record { same = refl; move = finishes _ }

Moves-reset :
    (target : ℕ) (j : ScheduledJob) → is_live j.status ≡ true → Moves j (reset_to target j)
Moves-reset target j h = elim (Bool-cases (j.status == scheduled)) [
  | inl e ↦ record { same = refl; move = rw e (stays waiting) }
  | inr e ↦
      let pends : (j.status == pending) ≡ true = ground arith in
      record { same = refl; move = rw (e, pends) is_given_back }
]

Moves-move : (target : ℕ) (j : ScheduledJob) → Moves j (move_to target j)
Moves-move target j = record { same = refl; move = stays _ }

admit_job-status :
    (srv : Server) (t : Tables) (j row : ScheduledJob)
    → admit_job srv t j ≡ some row
    → row.status ≡ j.status
unfolding admit_job
admit_job-status srv t j row e = ground arith

module _ (b : List Card) (srv : Server) where
  notify-Preserves : (p : ℕ) → Preserves (Lives b) (notify srv p)
  unfolding notify
  notify-Preserves p =
      Preserves-write srv (λ _ t. record t { notified = t.notified ++ p ∷ [] })
        λ k n t. Lives-same b n t _ refl

  updates-Preserves :
      (active : List ℕ) (target : ℕ)
      → Preserves (Lives b) (update_jobs_partitions srv active target)
  unfolding update_jobs_partitions
  updates-Preserves active target = Preserves-write srv _ λ k n t.
      Lives-update b n t _ (is_orphan active) (reset_to target) refl (λ j. refl)
        λ j m e. Moves-reset target j (orphan-live active j e)

  assigns-Preserves : (target n : ℕ) → Preserves (Lives b) (assign_jobs_to_partition srv target n)
  unfolding assign_jobs_to_partition
  assigns-Preserves target n = Preserves-write srv _ λ k n' t.
      Lives-update b n' t _ _ (move_to target) refl (λ j. refl) λ j m e. Moves-move target j

  removes-Preserves :
      (current n : ℕ) → Preserves (Lives b) (removes_jobs_from_partition srv current n)
  unfolding removes_jobs_from_partition
  removes-Preserves current n =
      Preserves-write srv _
        λ k n' t. Lives-update b n' t _ _ (move_to 0) refl (λ j. refl) λ j m e. Moves-move 0 j

  pub rebalance-Preserves :
      (range : MapRange) (visit : Map WorkerMeta) → Preserves (Lives b) (rebalance srv range visit)
  unfolding rebalance
  rebalance-Preserves range visit = Preserves-transact srv _ (
      re_balance-Preserves srv (Lives b) updates-Preserves assigns-Preserves removes-Preserves
        notify-Preserves range _)

  insert_job-Preserves :
      (j : ScheduledJob) → j.status ≡ scheduled → Preserves (Lives b) (insert_job srv j)
  unfolding insert_job
  insert_job-Preserves j waits =
      Preserves-statement srv (λ w. job_inserted w (admit_job srv w.tables j))
        (record {
          at = λ w h.
              go w (admit_job srv w.tables j)
                (λ row e. admit_job-status srv w.tables j row e ∙ waits) h;
        })
    where
      go :
          (w : World) (o : Option ScheduledJob)
          → ((row : ScheduledJob) → o ≡ some row → row.status ≡ scheduled)
          → Holds (Lives b) w
          → Holds (Lives b) (job_inserted w o).1
      go w none k h = record {
        now = Lives-draw b _ w.tables h.now;
        before = λ t e. Lives-draw b _ t (h.before t e);
      }
      go w (some row) k h = record {
        now = Lives-append b w.job_seq w.tables _ _ refl (k row refl) refl h.now;
        before = λ t e. Lives-draw b _ t (h.before t e);
      }

  pub schedule-Preserves :
      (partition : ℕ) (job : Entities.ScheduledJob)
      → job.status ≡ scheduled
      → Preserves (Lives b) (schedule srv partition job)
  unfolding schedule insert_scheduled_job from_scheduled_job_entity
  schedule-Preserves partition job waits =
      let j = from_scheduled_job_entity (record job { partition = partition }) in
      Preserves-bind _ _ (insert_job-Preserves j waits) λ id.
        Preserves-bind _ (λ _. pure (to_scheduled_job_entity (record j { id = id })))
          (notify-Preserves partition) λ _. Preserves-pure _

  insert_row-Preserves : (e : Execution) → Preserves (Lives b) (insert_execution_row srv e)
  unfolding insert_execution_row
  insert_row-Preserves e =
      Preserves-statement srv (λ w. execution_inserted w (admit_execution srv w.tables e))
        (record { at = λ w h. go w (admit_execution srv w.tables e) h })
    where
      go :
          (w : World) (o : Option Execution)
          → Holds (Lives b) w
          → Holds (Lives b) (execution_inserted w o).1
      go w none h = record { now = h.now; before = h.before }
      go w (some row) h = record {
        now = Lives-same b w.job_seq w.tables _ refl h.now;
        before = h.before;
      }

  insert_execution-Preserves :
      (e : Entities.Execution) → Preserves (Lives b) (insert_execution srv e)
  unfolding insert_execution
  insert_execution-Preserves e =
      Preserves-bind _ _ (insert_row-Preserves _) λ id.
        Preserves-pure (to_entities_execution (record (from_entities_execution e) { id = id }))

  settles-Preserves :
      (job : Entities.ScheduledJob) (error : Option String) (now : Time)
      → Preserves
          (Lives b)
          (update_job_status srv (record job { updated_at = now; status = final_status error }))
  unfolding update_job_status
  settles-Preserves job error now = Preserves-write srv _ λ k n t.
      Lives-update b n t _ _ _ refl (λ j. refl) λ j m e. Moves-final error j (srv.timestamp now)

  pub save-Preserves :
      (job : Entities.ScheduledJob) (code : ℕ) (error : Option String) (now : Time)
      → Preserves (Lives b) (save srv job code error now)
  unfolding save
  save-Preserves job code error now = Preserves-transact srv _ (
      Preserves-bind _ _ (settles-Preserves job error now)
        λ _. Preserves-bind _ _ (insert_execution-Preserves _) λ _. Preserves-pure tt)
