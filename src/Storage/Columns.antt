-- ===== src/Storage/Columns.antt =====
-- The constraints of migrations/001_create_scheduled_jobs_table.sql.sql that an INSERT meets: column
-- widths, the range of `retries`, uniqueness and foreign keys. `none` is a row that the schema rejects; a
-- row that it takes is returned as it is stored. The other INTEGER columns hold ids and partitions, which
-- are counted up, status codes and statuses; that these fit is not modelled.
use hermeshooks.Prelude.{
  ℕ, ◌+◌, ◌≤◌, ◌<◌, String, Bool, true, false, ◌||◌, ◌&&◌, Option, none, some, List, [], ◌∷◌, ◌==◌,
}
use hermeshooks.Prelude.Int.{ℤ, pos, negsuc, leb_ℤ}
use text.Mathlib.Text.{◌==◌ as str_eq}
use hermeshooks.Entities.{Time}
use hermeshooks.Storage.Models.{ScheduledJob, Execution, User}
use hermeshooks.Storage.Sql.{Server, Tables}

infixl 5 ◌>>=◌ ◌>>◌
abbrev ◌>>=◌ : {A B : Type 0} → Option A → (A → Option B) → Option B
none >>= f = none
some a >>= f = f a

abbrev ◌>>◌ : {B : Type 0} → Option (Unit {0}) → Option B → Option B
m >> k = m >>= λ _. k

abbrev require : Bool → Option (Unit {0})
require true = some tt
require false = none

unfoldable pub has_uid : String → List ScheduledJob → Bool
has_uid uid [] = false
has_uid uid (j ∷ js) = str_eq j.uid uid || has_uid uid js

unfoldable pub has_job : ℕ → List ScheduledJob → Bool
has_job id [] = false
has_job id (j ∷ js) = j.id == id || has_job id js

unfoldable pub has_user : ℕ → List User → Bool
has_user id [] = false
has_user id (u ∷ us) = u.id == id || has_user id us

unfoldable pub has_username : String → List User → Bool
has_username name [] = false
has_username name (u ∷ us) = str_eq u.username name || has_username name us

-- NULLs are not equal to one another.
abbrev pub key_is : Option String → String → Bool
key_is none key = false
key_is (some k) key = str_eq k key

unfoldable pub has_key : Option String → List User → Bool
has_key none us = false
has_key (some key) [] = false
has_key (some key) (u ∷ us) = key_is u.api_key key || has_key (some key) us

abbrev negate : Bool → Bool
negate true = false
negate false = true

-- A time, and what a column keeps of it: less than a microsecond is cut off.
abbrev pub IsCut : Time → Time → Type 0
IsCut t kept = (kept ≤ t) × (t < kept + 1000)

abbrev pub max_integer : ℕ
max_integer = 2_147_483_647

-- What an INTEGER column takes.
abbrev pub is_integer : ℤ → Bool
is_integer z = leb_ℤ (negsuc max_integer) z && leb_ℤ z (pos max_integer)

module _ (srv : Server) where
  -- A row whose texts fit: its times are cut.
  abbrev pub with_times : ScheduledJob → ScheduledJob
  with_times j = record j {
    run_at = srv.timestamp j.run_at;
    created_at = srv.timestamp j.created_at;
    updated_at = srv.timestamp j.updated_at;
  }

  unfoldable pub admit_job : Tables → ScheduledJob → Option ScheduledJob
  admit_job t j = do
    name ← srv.varchar 32 j.name
    description ← srv.varchar 100 j.description
    url ← srv.varchar 256 j.url
    content_type ← srv.varchar 32 j.content_type
    signature ← srv.varchar 64 j.signature
    require (is_integer j.retries)
    require (negate (has_uid j.uid t.jobs))
    require (has_user j.user_id t.users)
    some (record j {
      name = name;
      description = description;
      url = url;
      content_type = content_type;
      signature = signature;
      run_at = srv.timestamp j.run_at;
      created_at = srv.timestamp j.created_at;
      updated_at = srv.timestamp j.updated_at;
    })

  unfoldable pub admit_execution : Tables → Execution → Option Execution
  admit_execution t e = do
    msg ← srv.varchar 255 e.msg
    require (has_job e.scheduled_job_id t.jobs)
    some (record e { msg = msg; created_at = srv.timestamp e.created_at })

  optional_varchar : ℕ → Option String → Option (Option String)
  optional_varchar n none = some none
  optional_varchar n (some s) = elim (srv.varchar n s) [ none ↦ none | some s' ↦ some (some s') ]

  unfoldable pub admit_user : Tables → User → Option User
  unfolding optional_varchar
  admit_user t u = do
    username ← srv.varchar 100 u.username
    api_key ← optional_varchar 44 u.api_key
    require (negate (has_username username t.users))
    require (negate (has_key api_key t.users))
    some (record u {
      username = username;
      api_key = api_key;
      created_at = srv.timestamp u.created_at;
    })
