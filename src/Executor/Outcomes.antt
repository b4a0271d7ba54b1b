-- ===== src/Executor/Outcomes.antt =====
-- How a job ends: what `process` leaves in the tables.
use Prim.Native.String.{count}
use hermeshooks.Prelude.{
  ℕ, suc, ◌+◌, ◌≤◌, ◌≡◌, ◌⊎◌, inl, inr, refl, ◌∙◌, true, false, String, Option, none, some, List,
  [], ◌∷◌, ◌++◌, ◌==◌, arith, update_where,
}
use hermeshooks.Entities
use hermeshooks.Entities.{Time, success, fail}
use hermeshooks.Storage.Models.{ScheduledJob, from_entities_execution}
use hermeshooks.Storage.Sql.{Server, World, ok, err, rejected, statement, transact, begin, commit}
use hermeshooks.Storage.Columns.{admit_execution, has_job}
use hermeshooks.Storage.Queries.{update_job_status, insert_execution, insert_execution_row}
use hermeshooks.Common.Retry.{Request, Reply}
use hermeshooks.Executor.{delivered, processed, deliver, process, save, final_status, message}

abbrev pub settled : Entities.ScheduledJob → ℕ → Time → List ScheduledJob → List ScheduledJob
settled job status now =
    update_where (λ j. j.id == job.id) (λ j. record j { status = status; updated_at = now })

-- An update that leaves ids alone leaves a job of every id there was.
has_job-settled :
    (id : ℕ) (job : Entities.ScheduledJob) (status : ℕ) (now : Time) (js : List ScheduledJob)
    → has_job id (settled job status now js) ≡ has_job id js
unfolding has_job update_where
has_job-settled id job status now [] = refl
has_job-settled id job status now (j ∷ js) = ground (arith, has_job-settled id job status now js)

-- The tables that a job's outcome leaves.
abbrev after_save : Entities.ScheduledJob → ℕ → Option String → Time → World → World
after_save job code error now w = record w {
  tables = record (w.tables) {
    jobs = settled job (final_status error) now w.tables.jobs;
    executions =
        w.tables.executions
        ++ record {
          id = w.execution_seq;
          scheduled_job_id = job.id;
          status_code = code;
          msg = message error;
          created_at = now;
        }
          ∷ [];
  };
  open_tx = none;
  trips = 4 + w.trips;
  execution_seq = suc w.execution_seq;
}

-- The job has a status, and there is one execution more, with a code and a message.
abbrev pub Stored : Entities.ScheduledJob → Time → World → World → ℕ → ℕ → String → Type 0
Stored job now w w' status code msg =
    (w'.tables.jobs ≡ settled job status now w.tables.jobs)
    × (w'.tables.executions
        ≡ w.tables.executions
          ++ record {
            id = w.execution_seq;
            scheduled_job_id = job.id;
            status_code = code;
            msg = msg;
            created_at = now;
          }
            ∷ [])

after_save-Stored :
    (job : Entities.ScheduledJob) (now : Time) (w : World) (code : ℕ) (error : Option String)
    → ((error ≡ none) × Stored job now w (after_save job code error now w) success code "")
      ⊎ ((e : String) × (error ≡ some e)
          × Stored job now w (after_save job code error now w) fail code e)
after_save-Stored job now w code none = inl (refl, (refl, refl))
after_save-Stored job now w code (some e) = inr (e, refl, (refl, refl))

save_lem :
    (srv : Server) (job : Entities.ScheduledJob) (now : Time) (w : World) (code : ℕ)
    (error : Option String)
    → ((n : ℕ) → srv.fails n ≡ false)
    → srv.varchar 255 (message error) ≡ some (message error)
    → has_job job.id (settled job (final_status error) (srv.timestamp now) w.tables.jobs) ≡ true
    → save srv job code error now w ≡ (ok tt, after_save job code error (srv.timestamp now) w)
unfolding save update_job_status insert_execution insert_execution_row from_entities_execution
    statement transact begin commit admit_execution
save_lem srv job now w code error live fits stored =
    ground (arith, live w.trips, live (1 + w.trips), live (2 + w.trips), live (3 + w.trips))

save_rejected :
    (srv : Server) (job : Entities.ScheduledJob) (now : Time) (w : World) (code : ℕ)
    (error : Option String)
    → ((n : ℕ) → srv.fails n ≡ false)
    → w.open_tx ≡ none
    → srv.varchar 255 (message error) ≡ none
    → ((save srv job code error now w).0 ≡ err rejected)
      × ((save srv job code error now w).1.tables ≡ w.tables)
unfolding save update_job_status insert_execution insert_execution_row from_entities_execution
    statement transact begin commit admit_execution
save_rejected srv job now w code error live closed long = (
  ground (arith, live w.trips, live (1 + w.trips), live (2 + w.trips)),
  ground (arith, live w.trips, live (1 + w.trips), live (2 + w.trips)),
)

module _ (srv : Server) {S : Type 0} (send : S → Request → Reply × S)
    (url_error : String → Option String) where
  -- If the delivery is over, no round trip fails, no transaction is open, the message has at most
  -- 255 characters and the job is stored, then `process` returns without an error and leaves no
  -- transaction open. If the delivery had no error, the job is `success`, and otherwise `fail`;
  -- no other job changes, and one execution is added, with the status code and the text of the
  -- error, or no text. Both have the time of the call, as the columns keep it.
  pub process_records :
      (job : Entities.ScheduledJob) (now : Time) (s : S) (w : World) (code : ℕ)
      (error : Option String)
      → deliver srv send url_error job s ≡ delivered code error
      → ((n : ℕ) → srv.fails n ≡ false)
      → w.open_tx ≡ none
      → has_job job.id w.tables.jobs ≡ true
      → count (message error) ≤ 255
      → (w' : World) × (process srv send url_error job now s w ≡ processed (ok tt) w')
        × (w'.open_tx ≡ none)
        × (((error ≡ none) × Stored job (srv.timestamp now) w w' success code "")
            ⊎ ((e : String) × (error ≡ some e) × Stored job (srv.timestamp now) w w' fail code e))
  unfolding process
  process_records job now s w code error d live closed stored fits =
      let f = srv.varchar_fits 255 (message error) fits in
      let h = has_job-settled job.id job (final_status error) (srv.timestamp now) w.tables.jobs in
      let saved = save_lem srv job now w code error live f (h ∙ stored) in
      (
        after_save job code error (srv.timestamp now) w,
        ground arith,
        refl,
        after_save-Stored job (srv.timestamp now) w code error,
      )

  -- If the delivery is over, no round trip fails, no transaction is open and the message does not
  -- fit its column, `process` returns the error of the INSERT, and the tables are as before.
  process_long_message :
      (job : Entities.ScheduledJob) (now : Time) (s : S) (w : World) (code : ℕ)
      (error : Option String)
      → deliver srv send url_error job s ≡ delivered code error
      → ((n : ℕ) → srv.fails n ≡ false)
      → w.open_tx ≡ none
      → srv.varchar 255 (message error) ≡ none
      → (w' : World) × (process srv send url_error job now s w ≡ processed (err rejected) w')
        × (w'.tables ≡ w.tables)
  unfolding process
  process_long_message job now s w code error d live closed long =
      let (e, t) = save_rejected srv job now w code error live closed long in
      ((save srv job code error now w).1, ground arith, t)
