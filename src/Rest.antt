-- ===== src/Rest.antt =====
-- internal/rest: the HTTP API. A handler gets a request, a response writer and the state behind the
-- API, and returns an error or none. encoding/json, net/url and google/uuid are the parameters `Json`,
-- `url_error` and `parse_uuid`; what a request meets (clocks, random values, the order of a map, the
-- ping of the database) is its `Env`.
pub mod Errors
pub mod Server
pub mod Log
pub mod Jobs
pub mod Users
pub mod Workers
pub mod Health
pub mod Router
use hermeshooks.Prelude.{
  ℕ, String, ◌≡◌, Bool, Option, some, List, [], ◌∷◌, ◌++◌, ◌==◌, if◌then◌else◌,
}
use hermeshooks.Prelude.Int.{ℤ}
use hermeshooks.Entities
use hermeshooks.Entities.{Time}
use hermeshooks.Auth.{Headers}
use hermeshooks.Storage.Sql.{World}
use hermeshooks.Workers.Registry.{Map}
use hermeshooks.Workers.{WorkerMeta, Service}

pub record ScheduledJobsPayload : Type 0 where
  pub name : String
  pub description : String
  pub url : String
  pub payload : String
  pub content_type : String
  pub signature : String
  pub run_at : Time
  pub retries : ℤ

-- What decoding a body gives. An empty body is io.EOF.
pub data Decoded (A : Type 0) : Type 0 where
  decoded : A → Decoded A
  end_of_file malformed : Decoded A

pub record HealthResponse : Type 0 where
  pub server_up_since : Time
  pub workers_healthy : Bool
  pub db_healthy : Bool

pub record ExecutionResponse : Type 0 where
  pub status_code : ℕ
  pub msg : String
  pub executed_at : Time

pub record ScheduledJobGetResponse : Type 0 where
  pub uid : String
  pub name : String
  pub description : String
  pub url : String
  pub run_at : Time
  pub status : String
  pub executions : List ExecutionResponse

-- The values that handlers encode, one constructor for each response type.
pub data Value : Type 0 where
  failure : String → Value
  api_key : String → Value
  partition : ℕ → Value
  health : HealthResponse → Value
  public_key : String → Value
  uuid : String → Value
  job : ScheduledJobGetResponse → Value

pub record Json : Type 0 where
  pub decode_username : String → Decoded String
  pub decode_name : String → Decoded String
  pub decode_job : String → Decoded ScheduledJobsPayload

-- The error of a handler: a type of errors.go, io.EOF, or any other.
pub data HandlerError : Type 0 where
  not_found_error : String → HandlerError
  validation_error : String → HandlerError
  http_error : ℕ → String → HandlerError
  err_not_found : HandlerError
  eof : HandlerError
  other : HandlerError

pub data Method : Type 0 where
  get post delete : Method

-- `path` is the path below /api/v1, in segments; `user` is what the context holds under UserCtxKey.
pub record Req : Type 0 where
  pub method : Method
  pub path : List String
  pub content_type : String
  pub headers : Headers
  pub body : String
  pub user : Option Entities.User

-- `status` is 0 until a header is written.
pub record Writer : Type 0 where
  pub status : ℕ
  pub values : List Value

abbrev pub new_writer : Writer
new_writer = record { status = 0; values = [] }

pub record HealthCache : Type 0 where
  pub last_cache : Time
  pub last_response : HealthResponse

pub record Api : Type 0 where
  pub db : World
  pub workers : Service
  pub cache : HealthCache

-- `now`, `later` and `latest` are the readings of the clock, in their order.
pub record Env : Type 0 where
  pub now : Time
  pub later : Time
  pub latest : Time
  pub context_is_done : Bool
  pub visit : Map WorkerMeta → Map WorkerMeta
  pub chosen : ℕ
  pub new_key : String
  pub new_uid : String
  pub db_ok : Bool
  pub content_types : List String

-- `hangs` is a handler that waits for a lock that nobody will release.
pub data Handled : Type 0 where
  hangs : Api → Handled
  finished : Option HandlerError → Writer → Api → Handled

abbrev pub Handler : Type 0
Handler = Req → Writer → Api → Handled

-- The first header that is written counts.
abbrev pub write_header : ℕ → Writer → Writer
write_header code w = if w.status == 0 then record w { status = code } else w

-- JSON: an encoder that fails leaves the header written; the values here can all be encoded.
abbrev pub write_json : ℕ → Value → Writer → Writer
write_json code v w = let w' = write_header code w in record w' { values = w'.values ++ v ∷ [] }

-- JSON(w, code, nil)
abbrev pub write_empty : ℕ → Writer → Writer
write_empty code w = write_header code w

-- StatusCode of helpers.go
abbrev pub status_code : Writer → ℕ
status_code w = if w.status == 0 then 200 else w.status
