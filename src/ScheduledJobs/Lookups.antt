-- ===== src/ScheduledJobs/Lookups.antt =====
-- What a user finds of a job that was scheduled.
use text.Mathlib.TextEquality.{eq_iff}
use text.Mathlib.Text.{◌==◌ as str_eq}
use hermeshooks.Prelude.{
  ℕ, suc, ◌+◌, ◌≡◌, ◌∙◌, refl, Bool, true, false, ◌&&◌, String, none, some, List, [], ◌∷◌, ◌++◌,
  ◌==◌, arith, select_where, select_where-perm,
}
use hermeshooks.Entities
use hermeshooks.Storage.Models.{ScheduledJob, to_scheduled_job_entity, from_scheduled_job_entity}
use hermeshooks.Storage.Sql.{Server, World, Tables, ok, no_rows, statement, begin, commit}
use hermeshooks.Storage.Columns.{admit_job, has_uid, with_times, IsCut}
use hermeshooks.Storage.Queries.{
  insert_scheduled_job, insert_job, get_scheduled_job, select_executions,
}
use hermeshooks.Storage.Balance.{notify}
use hermeshooks.ScheduledJobs.{nothing_found, schedule, get, get_lookup, get_executions}

abbrev pub asked_for : String → ℕ → ScheduledJob → Bool
asked_for uid user_id j = str_eq j.uid uid && j.user_id == user_id

-- If no round trip fails, a user who asks for a job that is not there, or is another user's, is
-- told that there is none; but the transaction that Get began for the question stays open.
pub get_leaks :
    (srv : Server) (u : Entities.User) (uid : String) (w : World)
    → ((n : ℕ) → srv.fails n ≡ false)
    → select_where (asked_for uid u.id) w.tables.jobs ≡ []
    → (w' : World) × (get srv u uid w ≡ (nothing_found no_rows, w')) × (w'.open_tx ≡ some w.tables)
unfolding get get_lookup get_scheduled_job begin statement
get_leaks srv u uid w live missing =
    let same =
      select_where-perm (asked_for uid u.id) (srv.row_order-Permᴰ (2 + w.trips) w.tables.jobs)
        (rw missing (omega arith)) in
    (
      record w { open_tx = some w.tables; trips = 2 + w.trips },
      ground (arith, live w.trips, live (1 + w.trips), same, missing),
      refl,
    )

-- A uid that no row has: only an appended row can be asked for by it.
asked-append :
    (uid : String) (user_id : ℕ) (js : List ScheduledJob) (j : ScheduledJob)
    → has_uid uid js ≡ false
    → asked_for uid user_id j ≡ true
    → select_where (asked_for uid user_id) (js ++ j ∷ []) ≡ j ∷ []
unfolding has_uid select_where
asked-append uid user_id [] j h a = ground arith
asked-append uid user_id (x ∷ js) j h a = ground (arith, asked-append uid user_id js j)

-- The row of a job that Schedule puts into a partition.
abbrev pub row_of : ℕ → Entities.ScheduledJob → ScheduledJob
row_of partition job = from_scheduled_job_entity (record job { partition = partition })

-- `row` is the row as it is stored.
abbrev pub scheduled_world : ℕ → ScheduledJob → World → World
scheduled_world partition row w = record w {
  tables = record (w.tables) {
    jobs = w.tables.jobs ++ record row { id = w.job_seq } ∷ [];
    notified = w.tables.notified ++ partition ∷ [];
  };
  trips = 2 + w.trips;
  job_seq = suc w.job_seq;
}

pub schedule_lem :
    (srv : Server) (partition : ℕ) (job : Entities.ScheduledJob) (w : World) {row : ScheduledJob}
    → ((n : ℕ) → srv.fails n ≡ false)
    → admit_job srv w.tables (row_of partition job) ≡ some row
    → schedule srv partition job w
      ≡ (ok (record job { partition = partition; id = w.job_seq }), scheduled_world partition row w)
unfolding schedule insert_scheduled_job insert_job statement notify from_scheduled_job_entity
    to_scheduled_job_entity
schedule_lem srv partition job w live admitted = ground (arith, live w.trips, live (1 + w.trips))

-- What the schema leaves of a row that it takes.
pub record Admitted (srv : Server) (t : Tables) (j row : ScheduledJob) : Type 0 where
  pub new_uid : has_uid j.uid t.jobs ≡ false
  pub same_uid : row.uid ≡ j.uid
  pub same_user : row.user_id ≡ j.user_id
  pub same_status : row.status ≡ j.status
  pub same_partition : row.partition ≡ j.partition
  pub cut_time : row.run_at ≡ srv.timestamp j.run_at

pub admit_job-Admitted :
    (srv : Server) (t : Tables) (j : ScheduledJob) {row : ScheduledJob}
    → admit_job srv t j ≡ some row
    → Admitted srv t j row
unfolding admit_job
admit_job-Admitted srv t j h = record {
  new_uid = ground arith;
  same_uid = ground arith;
  same_user = ground arith;
  same_status = ground arith;
  same_partition = ground arith;
  cut_time = ground arith;
}

-- Get of the only row that its user may ask for by a uid.
pub get_stored :
    (srv : Server) (u : Entities.User) (uid : String) (j : ScheduledJob) (w : World)
    → ((n : ℕ) → srv.fails n ≡ false)
    → select_where (asked_for uid u.id) w.tables.jobs ≡ j ∷ []
    → ((get srv u uid w).0.job ≡ to_scheduled_job_entity j)
      × ((get srv u uid w).0.error ≡ none)
      × ((get srv u uid w).1.open_tx ≡ none)
unfolding get get_lookup get_scheduled_job get_executions select_executions begin commit statement
get_stored srv u uid j w live one =
    let same =
      select_where-perm (asked_for uid u.id) (srv.row_order-Permᴰ (2 + w.trips) w.tables.jobs)
        (rw one (omega arith)) in
    let found = same ∙ one in
    (
      ground (arith, live w.trips, live (1 + w.trips), live (2 + w.trips), live (3 + w.trips)),
      ground (arith, live w.trips, live (1 + w.trips), live (2 + w.trips), live (3 + w.trips)),
      ground (arith, live w.trips, live (1 + w.trips), live (2 + w.trips), live (3 + w.trips)),
    )

-- After Schedule, the row of the job is the only one that its user may ask for by its uid.
pub scheduled_one :
    (srv : Server) (partition : ℕ) (job : Entities.ScheduledJob) (user_id : ℕ) (w : World)
    {row : ScheduledJob}
    → admit_job srv w.tables (row_of partition job) ≡ some row
    → user_id ≡ job.user_id
    → select_where (asked_for job.uid user_id) (scheduled_world partition row w).tables.jobs
      ≡ record row { id = w.job_seq } ∷ []
unfolding from_scheduled_job_entity
scheduled_one srv partition job user_id w {row} admitted mine =
    let a = admit_job-Admitted srv w.tables (row_of partition job) admitted in
    asked-append job.uid user_id w.tables.jobs (record row { id = w.job_seq }) a.new_uid
      (ground (arith, eq_iff row.uid job.uid, a.same_uid, a.same_user))

-- If no round trip fails and the schema takes the job, its texts as they are, Schedule stores it in the
-- partition picked, under the next id, its times cut by less than a microsecond and all else as it is, and
-- notifies that partition; and then its user finds it by its uid, without an error, as it is stored and
-- with no transaction left open.
pub schedule-get :
    (srv : Server) (partition : ℕ) (job : Entities.ScheduledJob) (u : Entities.User) (w : World)
    → ((n : ℕ) → srv.fails n ≡ false)
    → admit_job srv w.tables (row_of partition job) ≡ some (with_times srv (row_of partition job))
    → u.id ≡ job.user_id
    → let returned : Entities.ScheduledJob = record job { partition = partition; id = w.job_seq } in
      let stored : Entities.ScheduledJob = record returned {
        run_at = srv.timestamp job.run_at;
        created_at = srv.timestamp job.created_at;
        updated_at = srv.timestamp job.updated_at;
      } in
      (w1 : World) × (schedule srv partition job w ≡ (ok returned, w1))
      × (w1.tables.jobs ≡ w.tables.jobs ++ from_scheduled_job_entity stored ∷ [])
      × (w1.tables.notified ≡ w.tables.notified ++ partition ∷ [])
      × ((get srv u job.uid w1).0.job ≡ stored)
      × ((get srv u job.uid w1).0.error ≡ none)
      × ((get srv u job.uid w1).1.open_tx ≡ none)
      × IsCut job.run_at stored.run_at
      × IsCut job.created_at stored.created_at
      × IsCut job.updated_at stored.updated_at
unfolding from_scheduled_job_entity to_scheduled_job_entity
schedule-get srv partition job u w live admitted mine =
    let kept = with_times srv (row_of partition job) in
    let row : ScheduledJob = record kept { id = w.job_seq } in
    let (found, no_error, closed) =
      get_stored srv u job.uid row (scheduled_world partition kept w) live
        (scheduled_one srv partition job u.id w admitted mine) in
    (
      scheduled_world partition kept w,
      schedule_lem srv partition job w live admitted,
      refl,
      refl,
      found,
      no_error,
      closed,
      srv.timestamp_cuts job.run_at,
      srv.timestamp_cuts job.created_at,
      srv.timestamp_cuts job.updated_at,
    )
