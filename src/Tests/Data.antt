-- ===== src/Tests/Data.antt =====
-- The small systems that the tests run on.
use Prim.Native.String.{count}
use hermeshooks.Prelude.{
  ℕ, ◌/◌, ◌*◌, ◌≤◌, ◌≡◌, String, Bool, false, Option, none, some, List, [], ◌∷◌, arith, leb,
  if◌then◌else◌,
}
use hermeshooks.Prelude.Int.{pos}
use hermeshooks.Entities.{Time, scheduled, pending}
use hermeshooks.Storage.Models.{ScheduledJob, User}
use hermeshooks.Storage.Sql.{Server, World}
use mathlib.Core.List.Permᴰ

abbrev pub varchar : ℕ → String → Option String
varchar n s = if leb (count s) n then some s else none

pub varchar_fits : (n : ℕ) (s : String) → count s ≤ n → varchar n s ≡ some s
varchar_fits n s h = ground arith

abbrev pub server_failing : (ℕ → Bool) → Server
server_failing fails = record {
  fails = fails;
  row_order = λ n rows. rows;
  row_order-Permᴰ = λ n rows. Permᴰ.refl rows;
  execution_order = λ n rows. rows;
  execution_order-Permᴰ = λ n rows. Permᴰ.refl rows;
  varchar = varchar;
  varchar_fits = varchar_fits;
  timestamp = λ t. t / 1000 * 1000;
  timestamp_cuts = λ t. (omega arith, omega arith);
  commits = λ n. false;
}

abbrev pub server : Server
server = server_failing λ n. false

abbrev pub job_row : ℕ → String → ℕ → ℕ → Time → ScheduledJob
job_row id uid partition status run_at = record {
  id = id;
  uid = uid;
  user_id = 1;
  name = "job";
  description = "";
  url = "http://example.com";
  payload = "payload";
  content_type = "text/plain";
  signature = "";
  run_at = run_at;
  retries = pos 3;
  status = status;
  partition = partition;
  created_at = 1;
  updated_at = 1;
}

abbrev pub alice : User
alice = record { id = 1; username = "alice"; api_key = some "hash"; created_at = 1 }

abbrev pub world_of : List ScheduledJob → World
world_of jobs = record {
  tables = record { users = alice ∷ []; jobs = jobs; executions = []; notified = [] };
  open_tx = none;
  trips = 0;
  user_seq = 2;
  job_seq = 10;
  execution_seq = 1;
}

abbrev pub due_one : ScheduledJob
due_one = job_row 1 "one" 1 scheduled 5

abbrev pub due_later : ScheduledJob
due_later = job_row 2 "two" 1 scheduled 20

abbrev pub due_elsewhere : ScheduledJob
due_elsewhere = job_row 3 "three" 2 scheduled 3

abbrev pub claimed : ScheduledJob
claimed = job_row 4 "four" 1 pending 1

abbrev pub world : World
world = world_of (due_one ∷ due_later ∷ due_elsewhere ∷ claimed ∷ [])
