-- ===== src/Rest/Jobs.antt =====
-- internal/rest/scheduled_jobs_handler.go: the payload of a new job, its validation, and the handlers
-- that schedule a job and look one up. `len` counts bytes, as Go's does.
pub mod Validation
pub mod Fits
pub mod Requests
pub mod RoundTrip
use Prim.Native.String.{len, ◌++◌ as append}
use text.Mathlib.Text.{◌==◌ as str_eq}
use hermeshooks.Prelude.{
  ℕ, ◌+◌, ◌*◌, ◌/◌, String, Bool, true, false, ◌||◌, Option, none, some, List, [], ◌∷◌, map, ltb,
  ◌==◌, if◌then◌else◌, length,
}
use hermeshooks.Prelude.Int.{ℤ, pos, ltb_ℤ}
use hermeshooks.Entities
use hermeshooks.Entities.{Time, zero_job, scheduled, to_string}
use hermeshooks.Storage.Sql.{Server, World, Error, Result, ok, err}
use hermeshooks.ScheduledJobs.{Found, schedule, get}
use hermeshooks.Workers.{pick}
use hermeshooks.Rest.{
  ScheduledJobsPayload, ExecutionResponse, ScheduledJobGetResponse, uuid, job, Json, HandlerError,
  validation_error, err_not_found, other, Req, Writer, Api, Env, Handled, hangs, finished, Handler,
  write_json,
}
use hermeshooks.Rest.Errors.{bind}

abbrev pub minute : ℕ
minute = 60_000_000_000

abbrev pub day : ℕ
day = 86_400_000_000_000

-- supportedContentTypes
abbrev pub is_supported : String → Bool
is_supported t = str_eq t "" || (str_eq t "application/json" || str_eq t "text/plain")

-- strings.Join
join : String → List String → String
join sep [] = ""
join sep (s ∷ []) = s
join sep (s ∷ t ∷ ts) = append s (append sep (join sep (t ∷ ts)))

-- `types` are the keys of the map in the order in which Go ranges over them.
abbrev unsupported : List String → String
unsupported types = append "unsupported content-type. Use one of: " (join "," types)

-- A test of Validate: its error, or the tests that follow.
abbrev pub reject_if : Bool → String → Option HandlerError → Option HandlerError
reject_if bad m rest = if bad then some (validation_error m) else rest

-- url.ParseRequestURI
abbrev reject_url : Option String → Option HandlerError → Option HandlerError
reject_url none rest = rest
reject_url (some m) rest = some (validation_error m)

module _ (url_error : String → Option String) where
  -- Validate: `now` is read before the first test of the time, and `later` before the second.
  pub validate_job : Env → ScheduledJobsPayload → Option HandlerError
  validate_job env p = reject_if (len p.name == 0) "name is mandatory" (
      reject_if (ltb 32 (len p.name)) "name cannot be more that 32 characters" (
        reject_if (ltb 100 (len p.description)) "description cannot be more than 100 characters" (
          reject_url (url_error p.url) (
            reject_if (ltb 2048 (len p.payload / 1024)) "payload must be at most 2048Kb" (
              reject_if (if is_supported p.content_type then false else true)
                (unsupported env.content_types)
                (reject_if (ltb 64 (len p.signature)) "signature can be at most 64 characters" (
                  reject_if (ltb p.run_at (env.now + 3 * minute))
                    "RunAt must be at least 3 minutes from now"
                    (reject_if (ltb (env.later + 30 * day) p.run_at)
                      "RunAt must be at most 30 days from now"
                      (reject_if (ltb_ℤ (pos 3) p.retries) "retries can be at most 3" none)))))))))

-- ToScheduledJob: `uid` is uuid.New(), `now` is time.Now().UTC().
pub to_scheduled_job : String → Time → ScheduledJobsPayload → Entities.ScheduledJob
to_scheduled_job uid now p = record zero_job {
  uid = uid;
  name = p.name;
  description = p.description;
  url = p.url;
  payload = p.payload;
  content_type = p.content_type;
  signature = p.signature;
  run_at = p.run_at;
  retries = p.retries;
  status = scheduled;
  created_at = now;
}

execution_response : Entities.Execution → ExecutionResponse
execution_response e = record {
  status_code = e.status_code;
  msg = e.msg;
  executed_at = e.created_at;
}

pub get_response : Found → ScheduledJobGetResponse
unfolding execution_response
get_response f = record {
  uid = f.job.uid;
  name = f.job.name;
  description = f.job.description;
  url = f.job.url;
  run_at = f.job.run_at;
  status = to_string f.job.status;
  executions = map execution_response f.executions;
}

module _ (srv : Server) (url_error parse_uuid : String → Option String) (env : Env) where
  -- Schedule holds the read lock of the worker service, and waits for it first.
  pub schedule_job : Entities.ScheduledJob → Handler
  schedule_job j req w api =
      if api.workers.locked
      then hangs api
      else let (r, db) = schedule srv (pick env.chosen (env.visit api.workers.registry)) j api.db in
        elim r [
          | err e ↦ finished (some other) w (record api { db = db })
          | ok j' ↦ finished none (write_json 201 (uuid j'.uid) w) (record api { db = db })
        ]

  -- GetCurrentUser fails if there is no user in the context.
  abbrev with_user : Option Entities.User → (Entities.User → Handler) → Handler
  with_user none k req w api = finished (some other) w api
  with_user (some u) k req w api = k u req w api

  pub create_valid : ScheduledJobsPayload → Handler
  unfolding schedule_job
  create_valid p req w api = elim (validate_job url_error env p) [
    | some e ↦ finished (some e) w api
    | none ↦
        with_user req.user
          (λ u.
            schedule_job (record (to_scheduled_job env.new_uid env.latest p) { user_id = u.id }))
          req w api
  ]

  pub create_job : Json → Handler
  unfolding create_valid
  create_job json req = bind (json.decode_job req.body) create_valid req

  pub get_found : String → Entities.User → Handler
  get_found id u req w api =
      let (f, db) = get srv u id api.db in
      elim f.error [
        | some e ↦ finished (some err_not_found) w (record api { db = db })
        | none ↦ finished none (write_json 200 (job (get_response f)) w) (record api { db = db })
      ]

  -- `uid` is the parameter of the path.
  pub get_job : String → Handler
  unfolding get_found
  get_job uid req w api =
      if str_eq uid ""
      then finished (some (validation_error "uuid is missing")) w api
      else elim (parse_uuid uid) [
        | none ↦ finished (some (validation_error "not a valid uuid")) w api
        | some id ↦ with_user req.user (get_found id) req w api
      ]
