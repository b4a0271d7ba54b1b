-- ===== src/Tests/Api.antt =====
-- A server that answers the requests of users and workers.
use Prim.Native.String.{◌++◌ as append}
use text.Mathlib.Text.{◌==◌ as str_eq}
use text.Mathlib.TextEquality.{eq_iff}
use hermeshooks.Prelude.{
  ◌*◌, ◌≡◌, inr, inl, refl, String, true, false, Option, none, some, [], ◌∷◌, arith, select_where,
}
use hermeshooks.Prelude.Int.{pos}
use hermeshooks.Storage.Columns.{has_uid}
use hermeshooks.Auth.{Headers, internal_api}
use hermeshooks.Auth.Access.{KeyOf}
use hermeshooks.Workers.{Service, new}
use hermeshooks.Rest.{
  ScheduledJobsPayload, ScheduledJobGetResponse, decoded, uuid, job, Json, post, Req, new_writer,
  Api, Env, Handled, finished,
}
use hermeshooks.Rest.Jobs.{minute}
use hermeshooks.Rest.Jobs.Validation.{IsValid}
use hermeshooks.Rest.Jobs.Requests.{posted, asked}
use hermeshooks.Rest.Jobs.RoundTrip.{Reports, create-get}
use hermeshooks.Rest.Errors.{error_handler, accepted_content_type}
use hermeshooks.Rest.Router.{Config, with_key, serve}
use hermeshooks.Rest.Router.Keys.{Refused, serve-Refused}
use hermeshooks.Tests.Data.{server, world_of, alice}

abbrev payload : ScheduledJobsPayload
payload = record {
  name = "ring";
  description = "rings";
  url = "http://example.com";
  payload = "{}";
  content_type = "application/json";
  signature = "";
  run_at = 10 * minute;
  retries = pos 3;
}

-- Names are sent as they are; every other body is the payload.
abbrev json : Json
json = record {
  decode_username = decoded;
  decode_name = decoded;
  decode_job = λ body. decoded payload;
}

abbrev pub no_error : String → Option String
no_error url = none

abbrev pub config : Config
config = record {
  srv = server;
  sha256 = λ s. if_key s;
  auth = record { rapid_api_key = "rapid"; internal_api_key = "internal" };
  json = json;
  url_error = no_error;
  parse_uuid = some;
}
  where
    -- The hash of the key of `alice`.
    if_key : String → String
    if_key s = elim (str_eq s "key") [ true ↦ "hash" | false ↦ append "#" s ]

abbrev pub env : Env
env = record {
  now = 1;
  later = 2;
  latest = 3;
  context_is_done = false;
  visit = λ m. m;
  chosen = 0;
  new_key = "new key";
  new_uid = "0b0f";
  db_ok = true;
  content_types = [];
}

abbrev pub service : Service
service = new 5 0

abbrev pub api : Api
api = record {
  db = world_of [];
  workers = service;
  cache = record {
    last_cache = 0;
    last_response = record { server_up_since = 0; workers_healthy = false; db_healthy = false };
  };
}

abbrev headers : Headers
headers = record { rapid_proxy_secret = ""; rapid_user = ""; api_key = "key" }

valid : IsValid no_error env payload
valid = record {
  named = omega arith;
  name_short = omega arith;
  description_short = omega arith;
  url_parses = refl;
  payload_small = omega arith;
  type_known = inr (inl refl);
  signature_short = omega arith;
  not_early = omega arith;
  not_late = omega arith;
  few_retries = ground arith;
}

pub unlocked : service.locked ≡ false
unfolding new
unlocked = refl

key_of : KeyOf server config.sha256 headers (world_of []) alice
unfolding select_where
key_of = record { direct = refl; given = refl; found = refl }

not_taken : has_uid "0b0f" [] ≡ false
unfolding has_uid
not_taken = refl

create-get_example :
    (api1 : Api) × (serve config env (posted headers "{}") new_writer api
      ≡ some (finished none (record { status = 201; values = uuid "0b0f" ∷ [] }) api1))
    × ((r : ScheduledJobGetResponse) × (api2 : Api) × (serve config env
            (asked headers "0b0f")
            new_writer
            api1
          ≡ some (finished none (record { status = 200; values = job r ∷ [] }) api2))
        × Reports server "0b0f" payload r)
create-get_example =
    create-get config env env headers "{}" payload api alice (λ n. refl) key_of unlocked refl valid
      (omega arith) (omega arith) not_taken refl refl

-- A user's key does not open the internal routes.
abbrev intruder : Req
intruder = record {
  method = post;
  path = "users" ∷ [];
  content_type = "application/json";
  headers = headers;
  body = "mallory";
  user = none;
}

abbrev kept_out : Handled
kept_out = finished none (record { status = 401; values = [] }) api

kept_out_served : serve config env intruder new_writer api ≡ some kept_out
unfolding serve error_handler accepted_content_type with_key internal_api
kept_out_served = refl

serve-Refused_example : Refused config env intruder api kept_out
serve-Refused_example =
    serve-Refused config env intruder "users" [] api kept_out (inl refl) refl
      (λ e. ground (arith, eq_iff "key" "internal")) kept_out_served
