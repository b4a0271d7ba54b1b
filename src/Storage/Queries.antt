-- ===== src/Storage/Queries.antt =====
-- The remaining functions of internal/storage/db.go: one row inserted, updated or looked up.
-- Outside a transaction every statement commits by itself.
use hermeshooks.Prelude.{
  ℕ, suc, String, Bool, ◌&&◌, Option, none, some, List, [], ◌∷◌, ◌++◌, map, ◌==◌, head?,
  select_where, update_where, sort_by,
}
use mathlib.Core.List.{reverse}
use text.Mathlib.Text.{◌==◌ as str_eq}
use hermeshooks.Entities
use hermeshooks.Storage.Models.{
  ScheduledJob, Execution, User, from_scheduled_job_entity, to_scheduled_job_entity,
  from_entities_execution, to_entities_execution, from_entities_user, to_entities_user,
}
use hermeshooks.Storage.Sql.{
  Server, Sql, ok, err, no_rows, rejected, pure, raise, ◌>>=◌, ◌>>◌, statement, read, write,
}
use hermeshooks.Storage.Columns.{admit_job, admit_execution, admit_user, has_username, key_is}
use hermeshooks.Storage.Balance.{notify}

-- A query for one row that finds none is sql.ErrNoRows.
abbrev pub one_row : {A : Type 0} → Option A → Sql A
one_row none = raise no_rows
one_row (some a) = pure a

module _ (srv : Server) where
  -- INSERT ... RETURNING id. The sequence moves on even if the row is rejected.
  unfoldable pub insert_job : ScheduledJob → Sql ℕ
  unfolding statement
  insert_job j = statement srv λ w. elim (admit_job srv w.tables j) [
    | none ↦ (err rejected, record w { job_seq = suc w.job_seq })
    | some row ↦ (
      ok w.job_seq,
      record w {
        tables = record (w.tables) { jobs = w.tables.jobs ++ record row { id = w.job_seq } ∷ [] };
        job_seq = suc w.job_seq;
      },
    )
  ]

  unfoldable pub insert_scheduled_job : Entities.ScheduledJob → Sql Entities.ScheduledJob
  unfolding insert_job
  insert_scheduled_job job = do
    let j = from_scheduled_job_entity job
    id ← insert_job j
    notify srv job.partition
    pure (to_scheduled_job_entity (record j { id = id }))

  unfoldable pub get_scheduled_job : String → ℕ → Sql Entities.ScheduledJob
  get_scheduled_job uid user_id = do
    found ← read srv λ k t.
        head?
          (select_where (λ j. str_eq j.uid uid && j.user_id == user_id) (srv.row_order k t.jobs))
    j ← one_row found
    pure (to_scheduled_job_entity j)

  unfoldable pub update_scheduled_jobs_partitions : Entities.ScheduledJob → Sql (Unit {0})
  update_scheduled_jobs_partitions job = write srv λ _ t. record t {
    jobs = update_where (λ j. j.id == job.id) (λ j. record j { partition = job.partition }) t.jobs;
  }

  unfoldable pub update_job_status : Entities.ScheduledJob → Sql (Unit {0})
  update_job_status job = write srv λ _ t. record t {
    jobs =
        update_where (λ j. j.id == job.id)
          (λ j. record j { status = job.status; updated_at = srv.timestamp job.updated_at }) t.jobs;
  }

  -- ORDER BY created_at DESC
  unfoldable pub select_executions : ℕ → Sql (List Entities.Execution)
  select_executions job_id = do
    items ← read srv λ k t. reverse (
        sort_by (λ e. e.created_at)
          (select_where (λ e. e.scheduled_job_id == job_id) (srv.execution_order k t.executions)))
    pure (map to_entities_execution items)

  unfoldable pub insert_execution_row : Execution → Sql ℕ
  unfolding statement
  insert_execution_row e = statement srv λ w. elim (admit_execution srv w.tables e) [
    | none ↦ (err rejected, record w { execution_seq = suc w.execution_seq })
    | some row ↦ (
      ok w.execution_seq,
      record w {
        tables = record (w.tables) {
          executions = w.tables.executions ++ record row { id = w.execution_seq } ∷ [];
        };
        execution_seq = suc w.execution_seq;
      },
    )
  ]

  unfoldable pub insert_execution : Entities.Execution → Sql Entities.Execution
  unfolding insert_execution_row
  insert_execution execution = do
    let e = from_entities_execution execution
    id ← insert_execution_row e
    pure (to_entities_execution (record e { id = id }))

  unfoldable pub insert_user_row : User → Sql ℕ
  unfolding statement
  insert_user_row u = statement srv λ w. elim (admit_user srv w.tables u) [
    | none ↦ (err rejected, record w { user_seq = suc w.user_seq })
    | some row ↦ (
      ok w.user_seq,
      record w {
        tables = record (w.tables) {
          users = w.tables.users ++ record row { id = w.user_seq } ∷ [];
        };
        user_seq = suc w.user_seq;
      },
    )
  ]

  module _ (sha256 : String → String) where
    unfoldable pub insert_user : Entities.User → Sql Entities.User
    unfolding insert_user_row
    insert_user user = do
      let u = from_entities_user sha256 user
      id ← insert_user_row u
      pure (to_entities_user (record u { id = id }))

    unfoldable pub get_user_by_api_key : String → Sql Entities.User
    get_user_by_api_key api_key = do
      found ← read srv λ _ t. head? (select_where (λ u. key_is u.api_key (sha256 api_key)) t.users)
      u ← one_row found
      pure (to_entities_user u)

  unfoldable pub user_exists : String → Sql Bool
  user_exists username = read srv λ _ t. has_username username t.users

  unfoldable pub get_user_by_user_name : String → Sql Entities.User
  get_user_by_user_name username = do
    found ← read srv λ _ t. head? (select_where (λ u. str_eq u.username username) t.users)
    u ← one_row found
    pure (to_entities_user u)
