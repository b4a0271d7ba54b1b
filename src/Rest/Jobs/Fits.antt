-- ===== src/Rest/Jobs/Fits.antt =====
-- A job that passed validation fits the columns of its table.
use Prim.Native.String.len
use Prim.Native.String.count
use Prim.Native.String.{len, count}
use text.Mathlib.TextPositions.{len_utf8-pos}
use hermeshooks.Prelude.{ℕ, ◌≤◌, ◌≡◌, ◌⊎◌, inl, inr, String, true, false, Option, some, arith}
use hermeshooks.Entities
use hermeshooks.Storage.Models.{from_scheduled_job_entity}
use hermeshooks.Storage.Sql.{Server, Tables}
use hermeshooks.Storage.Columns.{admit_job, has_uid, has_user, with_times, max_integer}
use hermeshooks.Prelude.Int.{negsuc, ◌≤ℤ◌}
use hermeshooks.ScheduledJobs.Lookups.{row_of}
use hermeshooks.Rest.{ScheduledJobsPayload, Env}
use hermeshooks.Rest.Jobs.{to_scheduled_job}
use hermeshooks.Rest.Jobs.Validation.{IsValid}

-- A character takes at least one byte.
count-le-len : (s : String) → count s ≤ len s
count-le-len String.[] = omega arith
count-le-len (String.◌∷◌ c s) =
    let (k, e) = len_utf8-pos c in omega (arith, len.cons c s, count.cons c s, count-le-len s)

-- The job that Create makes of a payload.
abbrev pub new_job : Env → ScheduledJobsPayload → Entities.User → Entities.ScheduledJob
new_job env p u = record (to_scheduled_job env.new_uid env.latest p) { user_id = u.id }

module _ (srv : Server) (url_error : String → Option String) (env : Env)
    (p : ScheduledJobsPayload) where
  stored : (n : ℕ) (s : String) → len s ≤ n → srv.varchar n s ≡ some s
  stored n s h = srv.varchar_fits n s (omega (arith, count-le-len s))

  type_short :
      (t : String) → (t ≡ "") ⊎ ((t ≡ "application/json") ⊎ (t ≡ "text/plain")) → len t ≤ 32
  type_short t (inl e) = rw e (omega arith)
  type_short t (inr (inl e)) = rw e (omega arith)
  type_short t (inr (inr e)) = rw e (omega arith)

  -- The bounds of Validate are those of the columns, but for the URL, which Validate does not measure, and
  -- for negative retries.
  pub admit_job_of_IsValid :
      (t : Tables) (u : Entities.User) (partition : ℕ)
      → IsValid url_error env p
      → len p.url ≤ 256
      → has_uid env.new_uid t.jobs ≡ false
      → has_user u.id t.users ≡ true
      → negsuc max_integer ≤ℤ p.retries
      → admit_job srv t (row_of partition (new_job env p u))
        ≡ some (with_times srv (row_of partition (new_job env p u)))
  unfolding admit_job to_scheduled_job from_scheduled_job_entity
  admit_job_of_IsValid t u partition v short fresh known many = ground (
    arith,
    stored 32 p.name v.name_short,
    stored 100 p.description v.description_short,
    stored 256 p.url short,
    stored 32 p.content_type (type_short p.content_type v.type_known),
    stored 64 p.signature v.signature_short,
    v.few_retries,
  )
