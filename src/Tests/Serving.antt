-- ===== src/Tests/Serving.antt =====
-- A job is scheduled, looked up and carried out; users sign up and get in.
use Prim.Native.String.{◌++◌ as append}
use hermeshooks.Prelude.{
  ℕ, zero, suc, ◌≤◌, ◌≡◌, ◌⊎◌, inr, refl, String, true, false, Option, none, some, [], ◌∷◌, ◌++◌,
  arith, select_where, update_where,
}
use hermeshooks.Entities
use hermeshooks.Entities.{Time, to_string, success, fail, zero_job}
use hermeshooks.Storage.Models.{
  from_scheduled_job_entity, to_scheduled_job_entity, from_entities_user,
}
use hermeshooks.Storage.Queries.{update_scheduled_jobs_partitions}
use hermeshooks.Storage.Sql.{statement, World, ok, no_rows}
use hermeshooks.Storage.Columns.{
  with_times, IsCut, admit_job, admit_user, has_uid, has_user, has_job, has_username, has_key,
}
use hermeshooks.Common.Retry.{Request, Reply, retry_do, attempts, backoff}
use hermeshooks.Common.Power.{exp_squaring, exp_from, exp_loop}
use hermeshooks.Executor.{processed, delivered, deliver, prepare_req, delivery_of, process}
use hermeshooks.Executor.Outcomes.{process_records, Stored}
use hermeshooks.Executor.Deliveries.{failures_delivered}
use hermeshooks.ScheduledJobs.{schedule, get, nothing_found}
use hermeshooks.ScheduledJobs.Lookups.{row_of, asked_for, schedule-get, get_leaks}
use hermeshooks.Auth.{internal_api, AuthService, Headers, auth_middleware, next, new_user}
use hermeshooks.Auth.Access.{rapid_same_user}
use hermeshooks.Tests.Data.{server, world, due_one, due_later, due_elsewhere, claimed}

abbrev answer : ℕ → Reply
answer code = record {
  resp = some (record { status_code = code; body = "answer"; closed = false });
  err = none;
  body_left = none;
}

-- A client whose requests are answered with 503 until the first that is answered with 200.
abbrev client : ℕ → Request → Reply × ℕ
client zero q = (answer 200, zero)
client (suc n) q = (answer 503, n)

abbrev no_url_error : String → Option String
no_url_error url = none

abbrev the_job : Entities.ScheduledJob
the_job = to_scheduled_job_entity due_one

abbrev no_error : Option String
no_error = none

retried : deliver server client no_url_error the_job 2 ≡ delivered 200 no_error
unfolding deliver prepare_req delivery_of retry_do attempts backoff exp_squaring exp_from exp_loop
    to_scheduled_job_entity
retried = refl

stored : has_job the_job.id world.tables.jobs ≡ true
unfolding has_job to_scheduled_job_entity
stored = refl

process_records_example :
    (w' : World) × (process server client no_url_error the_job 30_500 2 world
      ≡ processed (ok tt) w')
    × (w'.open_tx ≡ none)
    × (((no_error ≡ none) × Stored the_job 30_000 world w' success 200 "")
        ⊎ ((e : String) × (no_error ≡ some e) × Stored the_job 30_000 world w' fail 200 e))
process_records_example =
    process_records server client no_url_error the_job 30_500 2 world 200 no_error retried
      (λ n. refl) refl stored (omega arith)

-- The error of a URL that is longer than the column for messages.
abbrev long_error : String
long_error = long_eighty
  where
    eighty : String
    eighty = "01234567890123456789012345678901234567890123456789012345678901234567890123456789"

    long_eighty : String
    long_eighty = append eighty (append eighty (append eighty eighty))

abbrev bad_url : String → Option String
bad_url url = some long_error

unfit_job :
    deliver server client bad_url the_job 0
    ≡ delivered 0 (some (append "fail to prepare req error: " long_error))
unfolding deliver prepare_req
unfit_job = refl

abbrev the_user : Entities.User
the_user = record { id = 1; username = "alice"; api_key = ""; created_at = 1 }

abbrev pub new_job : Entities.ScheduledJob
new_job = record zero_job { uid = "new"; user_id = 1; name = "new job"; run_at = 7_500 }

admitted_job :
    admit_job server world.tables (row_of 2 new_job) ≡ some (with_times server (row_of 2 new_job))
unfolding admit_job has_uid has_user from_scheduled_job_entity
admitted_job = refl

schedule-get_example :
    let returned : Entities.ScheduledJob = record new_job { partition = 2; id = 10 } in
    let kept : Entities.ScheduledJob = record returned { run_at = 7_000 } in
    (w1 : World) × (schedule server 2 new_job world ≡ (ok returned, w1))
    × (w1.tables.jobs ≡ world.tables.jobs ++ from_scheduled_job_entity kept ∷ [])
    × (w1.tables.notified ≡ 2 ∷ [])
    × ((get server the_user "new" w1).0.job ≡ kept)
    × ((get server the_user "new" w1).0.error ≡ none)
    × ((get server the_user "new" w1).1.open_tx ≡ none)
    × IsCut 7_500 7_000
    × IsCut 0 0
    × IsCut 0 0
schedule-get_example = schedule-get server 2 new_job the_user world (λ n. refl) admitted_job refl

missing : select_where (asked_for "new" 1) world.tables.jobs ≡ []
unfolding select_where
missing = refl

get_leaks_example :
    (w' : World) × (get server the_user "new" world ≡ (nothing_found no_rows, w'))
    × (w'.open_tx ≡ some world.tables)
get_leaks_example = get_leaks server the_user "new" world (λ n. refl) missing

abbrev auth_service : AuthService
auth_service = record { rapid_api_key = "rapid"; internal_api_key = "internal" }

-- A hash, for the tests.
abbrev hash : String → String
hash s = append "#" s

abbrev key_headers : Headers
key_headers = record { rapid_proxy_secret = ""; rapid_user = ""; api_key = "key" }

abbrev rapid_headers : Headers
rapid_headers = record { rapid_proxy_secret = "rapid"; rapid_user = "bob"; api_key = "" }

admitted_bob :
    admit_user server world.tables (from_entities_user hash (new_user "rapid_api_bob" "" 40_500))
    ≡ some (from_entities_user hash (new_user "rapid_api_bob" "" 40_000))
unfolding admit_user has_username has_key from_entities_user
admitted_bob = refl

rapid_same_user_example :
    (u : Entities.User) × (w1 : World) × (auth_middleware server hash auth_service rapid_headers
        40_500 world
      ≡ (next u, w1))
    × ((kept : Time) × ((auth_middleware server hash auth_service rapid_headers 50_000 w1).0
          ≡ next (record u { created_at = kept }))
        × IsCut u.created_at kept)
    × ((auth_middleware server hash auth_service rapid_headers 50_000 w1).1.tables ≡ w1.tables)
rapid_same_user_example =
    rapid_same_user server hash auth_service rapid_headers 40_500 50_000 world (λ n. refl) refl refl
      refl (inr admitted_bob)

-- A client that always answers 503.
abbrev down : ℕ → Request → Reply × ℕ
down n q = (answer 503, n)

failures_delivered_example :
    (code : ℕ) × (500 ≤ code) × (deliver server down no_url_error the_job 0 ≡ delivered code none)
failures_delivered_example =
    failures_delivered server down no_url_error the_job 0 refl λ t q.
      (record { status_code = 503; body = "answer"; closed = false }, refl, refl, omega arith)

-- A request with a user's key is not let in by InternalApi, and one with the internal key is.
internal_only :
    (internal_api auth_service key_headers ≡ some 401)
    × (internal_api auth_service (record key_headers { api_key = "internal" }) ≡ none)
unfolding internal_api
internal_only = (refl, refl)

statuses : (to_string success ≡ "success") × (to_string fail ≡ "fail") × (to_string 6 ≡ "unknown")
unfolding to_string
statuses = (refl, refl, refl)

-- Only the partition of the job with the id changes.
moved :
    (update_scheduled_jobs_partitions server
      (record the_job { partition = 7; status = fail })
      world).1.tables.jobs
    ≡ record due_one { partition = 7 } ∷ due_later ∷ due_elsewhere ∷ claimed ∷ []
unfolding update_scheduled_jobs_partitions statement update_where to_scheduled_job_entity
moved = refl
