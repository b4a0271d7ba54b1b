-- ===== src/Storage/Ids/Operations.antt =====
-- What the operations on the tables do to the ids of jobs.
use hermeshooks.Prelude.{
  ℕ, String, suc, ◌≡◌, ◌≢◌, refl, Option, none, some, List, [], ◌∷◌, ◌++◌, arith,
}
use hermeshooks.Entities
use hermeshooks.Entities.{Time, scheduled, pending, success, fail}
use hermeshooks.Storage.Models.{
  ScheduledJob, Execution, from_scheduled_job_entity, from_entities_execution,
  to_entities_execution, to_scheduled_job_entity,
}
use hermeshooks.Storage.Sql.{Server, World, pure, Result, rejected, ok, err}
use hermeshooks.Storage.Sql.Holds.{
  Holds, Preserves, Preserves-pure, Preserves-bind, Preserves-write, Preserves-statement,
  Preserves-transact, holds_rules,
}
use hermeshooks.Storage.Sql.Transact.{
  KeepsTx, KeepsTx-pure, KeepsTx-bind, KeepsTx-statement, KeepsTx-write,
}
use hermeshooks.Storage.Columns.{admit_job, admit_execution}
use hermeshooks.Storage.Due.{
  mark_pending, set_pending, claim, select_current, select_next, selection,
  select_jobs_for_execution,
}
use hermeshooks.Storage.Balance.{notify}
use hermeshooks.Storage.Queries.{
  insert_job, insert_scheduled_job, update_job_status, insert_execution_row, insert_execution,
}
use hermeshooks.ScheduledJobs.{schedule}
use hermeshooks.Executor.{final_status, save}
use hermeshooks.Storage.Ids.{Ids, pending-not, Ids-update, Ids-same, Ids-draw, Ids-append}

-- What inserting a row gives, by the row that the schema takes, if it does.
abbrev pub job_inserted : World → Option ScheduledJob → Result ℕ × World
job_inserted w none = (err rejected, record w { job_seq = suc w.job_seq })
job_inserted w (some row) = (
  ok w.job_seq,
  record w {
    tables = record (w.tables) { jobs = w.tables.jobs ++ record row { id = w.job_seq } ∷ [] };
    job_seq = suc w.job_seq;
  },
)

abbrev pub execution_inserted : World → Option Execution → Result ℕ × World
execution_inserted w none = (err rejected, record w { execution_seq = suc w.execution_seq })
execution_inserted w (some row) = (
  ok w.execution_seq,
  record w {
    tables = record (w.tables) {
      executions = w.tables.executions ++ record row { id = w.execution_seq } ∷ [];
    };
    execution_seq = suc w.execution_seq;
  },
)

final-not : (error : Option String) → final_status error ≢ scheduled
final-not none e = omega arith
final-not (some m) e = omega arith

module _ {Gone : ℕ → Type 0} where
  module _ (srv : Server) where
    claim-Preserves : (rows : List ScheduledJob) → Preserves (Ids Gone) (claim srv rows)
    unfolding claim set_pending
    claim-Preserves [] = Preserves-pure tt
    claim-Preserves (j ∷ js) =
        Preserves-write srv _
          λ k n t. Ids-update n t _ _ mark_pending refl (λ x. refl) (λ x. pending-not)

    pub select-Preserves :
        (partition n : ℕ) (now : Time)
        → Preserves (Ids Gone) (select_jobs_for_execution srv partition n now)
    unfolding select_jobs_for_execution selection select_current select_next
    select-Preserves partition n now =
        Preserves-transact srv _ (search (holds_rules, claim-Preserves))

    insert_job-Preserves : (j : ScheduledJob) → Preserves (Ids Gone) (insert_job srv j)
    unfolding insert_job
    insert_job-Preserves j =
        Preserves-statement srv (λ w. job_inserted w (admit_job srv w.tables j))
          (record { at = λ w h. go w (admit_job srv w.tables j) h })
      where
        go :
            (w : World) (o : Option ScheduledJob)
            → Holds (Ids Gone) w
            → Holds (Ids Gone) (job_inserted w o).1
        go w none h = record {
          now = Ids-draw _ w.tables h.now;
          before = λ t e. Ids-draw _ t (h.before t e);
        }
        go w (some row) h = record {
          now = Ids-append w.job_seq w.tables _ _ refl refl h.now;
          before = λ t e. Ids-draw _ t (h.before t e);
        }

    notify-Preserves : (p : ℕ) → Preserves (Ids Gone) (notify srv p)
    unfolding notify
    notify-Preserves p =
        Preserves-write srv (λ _ t. record t { notified = t.notified ++ p ∷ [] })
          λ k n t. Ids-same n t _ refl

    pub schedule-Preserves :
        (partition : ℕ) (job : Entities.ScheduledJob)
        → Preserves (Ids Gone) (schedule srv partition job)
    unfolding schedule insert_scheduled_job
    schedule-Preserves partition job =
        let j = from_scheduled_job_entity (record job { partition = partition }) in
        Preserves-bind _ _ (insert_job-Preserves j) λ id.
          Preserves-bind _ (λ _. pure (to_scheduled_job_entity (record j { id = id })))
            (notify-Preserves partition) λ _. Preserves-pure _

    update_job_status-Preserves :
        (job : Entities.ScheduledJob)
        → job.status ≢ scheduled
        → Preserves (Ids Gone) (update_job_status srv job)
    unfolding update_job_status
    update_job_status-Preserves job off =
        Preserves-write srv _ λ k n t. Ids-update n t _ _ _ refl (λ x. refl) (λ x. off)

    insert_row-Preserves : (e : Execution) → Preserves (Ids Gone) (insert_execution_row srv e)
    unfolding insert_execution_row
    insert_row-Preserves e =
        Preserves-statement srv (λ w. execution_inserted w (admit_execution srv w.tables e))
          (record { at = λ w h. go w (admit_execution srv w.tables e) h })
      where
        go :
            (w : World) (o : Option Execution)
            → Holds (Ids Gone) w
            → Holds (Ids Gone) (execution_inserted w o).1
        go w none h = record { now = h.now; before = h.before }
        go w (some row) h = record {
          now = Ids-same w.job_seq w.tables _ refl h.now;
          before = h.before;
        }

    insert_execution-Preserves :
        (e : Entities.Execution) → Preserves (Ids Gone) (insert_execution srv e)
    unfolding insert_execution
    insert_execution-Preserves e = Preserves-bind _ _ (insert_row-Preserves _) λ id.
        Preserves-pure (to_entities_execution (record (from_entities_execution e) { id = id }))

    pub save-Preserves :
        (job : Entities.ScheduledJob) (code : ℕ) (error : Option String) (now : Time)
        → Preserves (Ids Gone) (save srv job code error now)
    unfolding save
    save-Preserves job code error now = Preserves-transact srv _ (
        Preserves-bind _ _ (update_job_status-Preserves _ (final-not error))
          λ _. Preserves-bind _ _ (insert_execution-Preserves _) λ _. Preserves-pure tt)

module _ (srv : Server) where
  insert_job-KeepsTx : (j : ScheduledJob) → KeepsTx (insert_job srv j)
  unfolding insert_job
  insert_job-KeepsTx j =
      KeepsTx-statement srv (λ w. job_inserted w (admit_job srv w.tables j))
        (record { at = λ w. go w (admit_job srv w.tables j) })
    where
      go : (w : World) (o : Option ScheduledJob) → (job_inserted w o).1.open_tx ≡ w.open_tx
      go w none = refl
      go w (some row) = refl

  notify-KeepsTx : (p : ℕ) → KeepsTx (notify srv p)
  unfolding notify
  notify-KeepsTx p = KeepsTx-write srv (λ _ t. record t { notified = t.notified ++ p ∷ [] })

  -- Schedule opens no transaction.
  pub schedule-KeepsTx :
      (partition : ℕ) (job : Entities.ScheduledJob) → KeepsTx (schedule srv partition job)
  unfolding schedule insert_scheduled_job
  schedule-KeepsTx partition job =
      let j = from_scheduled_job_entity (record job { partition = partition }) in
      KeepsTx-bind _ _ (insert_job-KeepsTx j) λ id.
        KeepsTx-bind _ (λ _. pure (to_scheduled_job_entity (record j { id = id })))
          (notify-KeepsTx partition) λ _. KeepsTx-pure _
