-- ===== src/Rest/Jobs/Requests.antt =====
-- The requests that schedule a job and look one up, on their way through the router to their handlers.
use text.Mathlib.Text.{◌==◌ as str_eq}
use hermeshooks.Prelude.{
  ℕ, ◌≤◌, ◌≡◌, String, Bool, true, false, none, some, List, [], ◌∷◌, arith, select_where, head?,
}
use Prim.Native.String.{len}
use hermeshooks.Storage.Models.{ScheduledJob, User, to_scheduled_job_entity, to_entities_user}
use hermeshooks.Storage.Sql.{trip}
use hermeshooks.Storage.Sql.Returns.{Live}
use hermeshooks.Storage.Columns.{has_uid, has_user, with_times, max_integer}
use hermeshooks.Prelude.Int.{negsuc, ◌≤ℤ◌}
use hermeshooks.ScheduledJobs.{Found, get}
use hermeshooks.ScheduledJobs.Lookups.{row_of, asked_for, scheduled_world, schedule_lem, get_stored}
use hermeshooks.Workers.{pick}
use hermeshooks.Auth.{Headers}
use hermeshooks.Auth.Access.{KeyOf, key_auth_lem}
use hermeshooks.Rest.{
  ScheduledJobsPayload, decoded, uuid, job, Method, post, Req, Writer, Api, Env, finished, Handler,
  write_json,
}
use hermeshooks.Rest.Errors.{answer_error, error_handler, accepted_content_type, is_accepted}
use hermeshooks.Rest.Jobs.{
  to_scheduled_job, schedule_job, create_valid, create_job, get_found, get_job, get_response,
}
use hermeshooks.Rest.Jobs.Validation.{IsValid, validate_job_iff}
use hermeshooks.Rest.Jobs.Fits.{new_job, admit_job_of_IsValid}
use hermeshooks.Rest.Router.{Config, with_auth, serve, routes, in_group}

pub has_user_of_head :
    (p : User → Bool) (us : List User) (u : User)
    → head? (select_where p us) ≡ some u
    → has_user u.id us ≡ true
unfolding has_user select_where
has_user_of_head p [] u e = cc
has_user_of_head p (x ∷ us) u e = ground (arith, has_user_of_head p us u)

-- The requests: a body posted to /scheduledJobs, and a GET of /scheduledJobs/:uuid.
abbrev pub posted : Headers → String → Req
posted h body = record {
  method = post;
  path = "scheduledJobs" ∷ [];
  content_type = "application/json";
  headers = h;
  body = body;
  user = none;
}

abbrev pub asked : Headers → String → Req
asked h uid = record {
  method = Method.get;
  path = "scheduledJobs" ∷ uid ∷ [];
  content_type = "application/json";
  headers = h;
  body = "";
  user = none;
}

module _ (c : Config) (env : Env) (h : Headers) (live : Live c.srv) where
  pub with_auth_lem :
      (k : Handler) (req : Req) (w : Writer) (api : Api) (u : User)
      → req.headers ≡ h
      → KeyOf c.srv c.sha256 h api.db u
      → with_auth c env k req w api
        ≡ k (record req { user = some (to_entities_user u) }) w (record api { db = trip api.db })
  unfolding with_auth
  with_auth_lem k req w api u same key =
      ground (arith, key_auth_lem c.srv c.sha256 c.auth h env.now api.db u live key)

  pub serve-posted :
      (body : String) (w : Writer) (api : Api)
      → serve c env (posted h body) w api
        ≡ some (
            answer_error (
              with_auth c env
                (create_job c.srv c.url_error c.parse_uuid env c.json)
                (posted h body)
                w
                api))
  unfolding serve routes in_group error_handler accepted_content_type is_accepted
  serve-posted body w api = ground arith

  pub serve-asked :
      (uid : String) (w : Writer) (api : Api)
      → serve c env (asked h uid) w api
        ≡ some (
            answer_error (
              with_auth c env (get_job c.srv c.url_error c.parse_uuid env uid) (asked h uid) w api))
  unfolding serve routes in_group error_handler accepted_content_type is_accepted
  serve-asked uid w api = ground arith

  abbrev pub partition_of : Api → ℕ
  partition_of api = pick env.chosen (env.visit api.workers.registry)

  pub create_lem :
      (p : ScheduledJobsPayload) (body : String) (u : User) (w : Writer) (api : Api)
      → c.json.decode_job body ≡ decoded p
      → IsValid c.url_error env p
      → len p.url ≤ 256
      → has_uid env.new_uid api.db.tables.jobs ≡ false
      → has_user u.id api.db.tables.users ≡ true
      → negsuc max_integer ≤ℤ p.retries
      → api.workers.locked ≡ false
      → create_job c.srv c.url_error c.parse_uuid env c.json
          (record (posted h body) { user = some (to_entities_user u) })
          w
          api
        ≡ finished none (write_json 201 (uuid env.new_uid) w) (record api {
          db =
              scheduled_world
                (partition_of api)
                (with_times c.srv (row_of (partition_of api) (new_job env p (to_entities_user u))))
                api.db;
        })
  unfolding create_job create_valid schedule_job to_scheduled_job to_entities_user
  create_lem p body u w api read valid short fresh known many free =
      let accepted = (validate_job_iff c.url_error env p).1 valid in
      let admitted =
        admit_job_of_IsValid c.srv c.url_error env p api.db.tables (to_entities_user u)
          (partition_of api) valid short fresh known many in
      let done =
        schedule_lem c.srv (partition_of api) (new_job env p (to_entities_user u)) api.db live
          admitted in
      ground arith

  pub get_lem :
      (uid : String) (j : ScheduledJob) (u : User) (w : Writer) (api : Api)
      → str_eq uid "" ≡ false
      → c.parse_uuid uid ≡ some uid
      → select_where (asked_for uid u.id) api.db.tables.jobs ≡ j ∷ []
      → (f : Found) × (api' : Api) × (get_job c.srv c.url_error c.parse_uuid env uid
            (record (asked h uid) { user = some (to_entities_user u) })
            w
            api
          ≡ finished none (write_json 200 (job (get_response f)) w) api')
        × (f.job ≡ to_scheduled_job_entity j)
  unfolding get_job get_found to_entities_user
  get_lem uid j u w api nonempty canonical one =
      let (found, no_error, closed) = get_stored c.srv (to_entities_user u) uid j api.db live one in
      (
        (get c.srv (to_entities_user u) uid api.db).0,
        record api { db = (get c.srv (to_entities_user u) uid api.db).1 },
        ground arith,
        found,
      )
