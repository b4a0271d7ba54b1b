-- ===== src/Rest/Jobs/RoundTrip.antt =====
-- A job scheduled through the API is found through the API.
use text.Mathlib.Text.{◌==◌ as str_eq}
use hermeshooks.Prelude.{◌≤◌, ◌≡◌, refl, ◌∙◌, ap, String, false, none, some, [], ◌∷◌}
use Prim.Native.String.{len}
use hermeshooks.Entities
use hermeshooks.Entities.{Time, to_string, scheduled}
use hermeshooks.Storage.Models.{
  User, from_scheduled_job_entity, to_scheduled_job_entity, to_entities_user,
}
use hermeshooks.Storage.Sql.{Server, trip}
use hermeshooks.Storage.Sql.Returns.{Live}
use hermeshooks.Storage.Columns.{has_uid, with_times, IsCut, max_integer}
use hermeshooks.Prelude.Int.{negsuc, ◌≤ℤ◌}
use hermeshooks.ScheduledJobs.Lookups.{row_of, scheduled_world, scheduled_one}
use hermeshooks.Auth.{Headers}
use hermeshooks.Auth.Access.{KeyOf}
use hermeshooks.Rest.{
  ScheduledJobsPayload, ScheduledJobGetResponse, decoded, uuid, job, new_writer, Api, Env, Handled,
  finished,
}
use hermeshooks.Rest.Errors.{answer_error}
use hermeshooks.Rest.Jobs.{to_scheduled_job, create_job, get_job, get_response}
use hermeshooks.Rest.Jobs.Validation.{IsValid}
use hermeshooks.Rest.Jobs.Fits.{new_job, admit_job_of_IsValid}
use hermeshooks.Rest.Router.{Config, serve}
use hermeshooks.Rest.Jobs.Requests.{
  has_user_of_head, posted, asked, with_auth_lem, serve-posted, serve-asked, create_lem, get_lem,
  partition_of,
}

-- A report of a job that waits, at its time as the column keeps it.
pub record Reports (srv : Server) (uid : String) (p : ScheduledJobsPayload)
    (r : ScheduledJobGetResponse) : Type 0 where
  pub same_uid : r.uid ≡ uid
  pub same_name : r.name ≡ p.name
  pub same_description : r.description ≡ p.description
  pub same_url : r.url ≡ p.url
  pub stored_time : r.run_at ≡ srv.timestamp p.run_at
  pub near_time : IsCut p.run_at r.run_at
  pub waits : r.status ≡ "scheduled"

-- If no round trip fails, the headers carry the key of a stored user and no RapidAPI secret, nothing holds the lock of the worker
-- service, the body decodes to a payload that passes validation, whose URL has at most 256 bytes and
-- whose retries are at least -2147483648, and the new uuid is canonical and not yet taken: POST
-- /scheduledJobs answers 201 with the uuid, and a later GET of that uuid, with the same headers, answers 200
-- with the job as it was sent, but for less than a microsecond that is cut off its time, "scheduled".
pub create-get :
    (c : Config) (env env' : Env) (h : Headers) (body : String) (p : ScheduledJobsPayload)
    (api : Api) (u : User)
    → Live c.srv
    → KeyOf c.srv c.sha256 h api.db u
    → api.workers.locked ≡ false
    → c.json.decode_job body ≡ decoded p
    → IsValid c.url_error env p
    → len p.url ≤ 256
    → negsuc max_integer ≤ℤ p.retries
    → has_uid env.new_uid api.db.tables.jobs ≡ false
    → c.parse_uuid env.new_uid ≡ some env.new_uid
    → str_eq env.new_uid "" ≡ false
    → (api1 : Api) × (serve c env (posted h body) new_writer api
        ≡ some (finished none (record { status = 201; values = uuid env.new_uid ∷ [] }) api1))
      × ((r : ScheduledJobGetResponse) × (api2 : Api) × (serve c env'
              (asked h env.new_uid)
              new_writer
              api1
            ≡ some (finished none (record { status = 200; values = job r ∷ [] }) api2))
          × Reports c.srv env.new_uid p r)
unfolding get_response to_scheduled_job from_scheduled_job_entity to_scheduled_job_entity
    to_entities_user to_string
create-get c env env' h body p api u live key free read valid short many fresh canonical nonempty =
    let known = has_user_of_head _ api.db.tables.users u key.found in
    let api0 : Api = record api { db = trip api.db } in
    let j = new_job env p (to_entities_user u) in
    let place = partition_of c env h live api in
    let api1 : Api = record api {
      db = scheduled_world place (with_times c.srv (row_of place j)) (trip api.db);
    } in
    let made =
      create_lem c env h live p body u new_writer api0 read valid short fresh known many free in
    let first =
      with_auth_lem c env h live (create_job c.srv c.url_error c.parse_uuid env c.json)
        (posted h body) new_writer api u refl key in
    let key1 : KeyOf c.srv c.sha256 h api1.db u = record {
      direct = key.direct;
      given = key.given;
      found = key.found;
    } in
    let second =
      with_auth_lem c env' h live (get_job c.srv c.url_error c.parse_uuid env' env.new_uid)
        (asked h env.new_uid) new_writer api1 u refl key1 in
    let admitted =
      admit_job_of_IsValid c.srv c.url_error env p api.db.tables (to_entities_user u) place valid
        short fresh known many in
    let one = scheduled_one c.srv place j u.id (trip api.db) admitted refl in
    let (f, api2, got, same) =
      get_lem c env' h live env.new_uid _ u new_writer (record api1 { db = trip api1.db }) nonempty
        canonical one in
    (
      api1,
      serve-posted c env h live body new_writer api
          ∙ ap (λ (x : Handled). some (answer_error x)) (first ∙ made),
      (
        get_response f,
        api2,
        serve-asked c env' h live env.new_uid new_writer api1
            ∙ ap (λ (x : Handled). some (answer_error x)) (second ∙ got),
        record {
          same_uid = ap (λ (x : Entities.ScheduledJob). x.uid) same;
          same_name = ap (λ (x : Entities.ScheduledJob). x.name) same;
          same_description = ap (λ (x : Entities.ScheduledJob). x.description) same;
          same_url = ap (λ (x : Entities.ScheduledJob). x.url) same;
          stored_time = ap (λ (x : Entities.ScheduledJob). x.run_at) same;
          near_time =
              rw (ap (λ (x : Entities.ScheduledJob). x.run_at) same)
                (c.srv.timestamp_cuts p.run_at);
          waits = ap (λ (x : Entities.ScheduledJob). to_string x.status) same;
        },
      ),
    )
