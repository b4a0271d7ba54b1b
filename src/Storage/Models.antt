-- ===== src/Storage/Models.antt =====
-- internal/storage/models.go: the rows of the three tables, and the conversions between a row and
-- its entity. `bun.NullTime` is its time, whose zero the driver writes as NULL. A user's API key is
-- stored as a hash only (`sha256`, of internal/cryptoutils/cryptoutils.go), and never read back.
use hermeshooks.Prelude.{ℕ, String, Option, none, some, if◌then◌else◌}
use hermeshooks.Prelude.Int.{ℤ}
use hermeshooks.Entities
use hermeshooks.Entities.{Time}
use text.Mathlib.Text.{◌==◌ as str_eq}

pub record ScheduledJob : Type 0 where
  pub id : ℕ
  pub uid : String
  pub user_id : ℕ
  pub name : String
  pub description : String
  pub url : String
  pub payload : String
  pub content_type : String
  pub signature : String
  pub run_at : Time
  pub retries : ℤ
  pub status : ℕ
  pub partition : ℕ
  pub created_at : Time
  pub updated_at : Time

unfoldable pub from_scheduled_job_entity : Entities.ScheduledJob → ScheduledJob
from_scheduled_job_entity j = record {
  id = j.id;
  uid = j.uid;
  user_id = j.user_id;
  name = j.name;
  description = j.description;
  url = j.url;
  payload = j.payload;
  content_type = j.content_type;
  signature = j.signature;
  run_at = j.run_at;
  retries = j.retries;
  status = j.status;
  partition = j.partition;
  created_at = j.created_at;
  updated_at = j.updated_at;
}

unfoldable pub to_scheduled_job_entity : ScheduledJob → Entities.ScheduledJob
to_scheduled_job_entity j = record {
  id = j.id;
  uid = j.uid;
  user_id = j.user_id;
  name = j.name;
  description = j.description;
  url = j.url;
  payload = j.payload;
  content_type = j.content_type;
  signature = j.signature;
  run_at = j.run_at;
  retries = j.retries;
  status = j.status;
  partition = j.partition;
  created_at = j.created_at;
  updated_at = j.updated_at;
}

pub record Execution : Type 0 where
  pub id : ℕ
  pub scheduled_job_id : ℕ
  pub status_code : ℕ
  pub msg : String
  pub created_at : Time

unfoldable pub from_entities_execution : Entities.Execution → Execution
from_entities_execution e = record {
  id = e.id;
  scheduled_job_id = e.scheduled_job_id;
  status_code = e.status_code;
  msg = e.msg;
  created_at = e.created_at;
}

pub to_entities_execution : Execution → Entities.Execution
to_entities_execution e = record {
  id = e.id;
  scheduled_job_id = e.scheduled_job_id;
  status_code = e.status_code;
  msg = e.msg;
  created_at = e.created_at;
}

pub record User : Type 0 where
  pub id : ℕ
  pub username : String
  pub api_key : Option String
  pub created_at : Time

-- `len(u.ApiKey) > 0`
unfoldable pub from_entities_user : (String → String) → Entities.User → User
from_entities_user sha256 u = record {
  id = u.id;
  username = u.username;
  api_key = if str_eq u.api_key "" then none else some (sha256 u.api_key);
  created_at = u.created_at;
}

unfoldable pub to_entities_user : User → Entities.User
to_entities_user u = record {
  id = u.id;
  username = u.username;
  api_key = "";
  created_at = u.created_at;
}
