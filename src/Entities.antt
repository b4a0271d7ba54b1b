-- ===== src/Entities.antt =====
-- internal/entities: the values that the services, the workers and the handlers exchange.
-- A time is the number of nanoseconds since Go's zero time, so `time.Time{}` is 0; a uuid is its
-- text. Integers that the program never makes negative are natural numbers; `retries` comes from
-- the request body and may be negative. A job that a call leaves out is `ScheduledJob{}`.
use hermeshooks.Prelude.{ℕ, String, ◌==◌, if◌then◌else◌}
use hermeshooks.Prelude.Int.{ℤ, pos}

abbrev pub Time : Type 0
Time = ℕ

-- An `int`: the program converts to and from it freely, and stores it in a column.
abbrev pub ScheduledJobStatus : Type 0
ScheduledJobStatus = ℕ

abbrev pub undefined : ScheduledJobStatus
undefined = 0

abbrev pub scheduled : ScheduledJobStatus
scheduled = 1

abbrev pub pending : ScheduledJobStatus
pending = 2

abbrev pub success : ScheduledJobStatus
success = 3

abbrev pub fail : ScheduledJobStatus
fail = 4

abbrev pub deleted : ScheduledJobStatus
deleted = 5

-- (s ScheduledJobStatus) String()
unfoldable pub to_string : ScheduledJobStatus → String
to_string s =
    if s == undefined
    then "undefined"
    else if s == scheduled
    then "scheduled"
    else if s == pending
    then "pending"
    else if s == success
    then "success"
    else if s == fail
    then "fail"
    else if s == deleted
    then "deleted"
    else "unknown"

pub record ScheduledJob : Type 0 where
  pub id : ℕ
  pub uid : String
  pub user_id : ℕ
  pub name : String
  pub description : String
  pub url : String
  pub payload : String
  pub content_type : String
  pub signature : String
  pub run_at : Time
  pub retries : ℤ
  pub status : ScheduledJobStatus
  pub partition : ℕ
  pub created_at : Time
  pub updated_at : Time

-- entities.ScheduledJob{}
abbrev pub zero_job : ScheduledJob
zero_job = record {
  id = 0;
  uid = "00000000-0000-0000-0000-000000000000";
  user_id = 0;
  name = "";
  description = "";
  url = "";
  payload = "";
  content_type = "";
  signature = "";
  run_at = 0;
  retries = pos 0;
  status = undefined;
  partition = 0;
  created_at = 0;
  updated_at = 0;
}

pub record Execution : Type 0 where
  pub id : ℕ
  pub scheduled_job_id : ℕ
  pub status_code : ℕ
  pub msg : String
  pub created_at : Time

pub record User : Type 0 where
  pub id : ℕ
  pub username : String
  pub api_key : String
  pub created_at : Time
