-- ===== src/Rest/Jobs/Validation.antt =====
-- What Validate accepts.
use Prim.Native.String.{len}
use text.Mathlib.TextEquality.{eq_iff}
use hermeshooks.Prelude.{◌+◌, ◌*◌, ◌≤◌, ◌<◌, ◌≡◌, ◌↔◌, ◌⊎◌, String, true, Option, none, arith}
use hermeshooks.Prelude.Int.{pos, ◌≤ℤ◌}
use hermeshooks.Rest.{ScheduledJobsPayload, Env}
use hermeshooks.Rest.Jobs.{minute, day, is_supported, validate_job}

-- The bounds on a job, in bytes, nanoseconds and attempts.
pub record IsValid (url_error : String → Option String) (env : Env) (p : ScheduledJobsPayload)
    : Type 0 where
  pub named : 0 < len p.name
  pub name_short : len p.name ≤ 32
  pub description_short : len p.description ≤ 100
  pub url_parses : url_error p.url ≡ none
  pub payload_small : len p.payload < 2049 * 1024
  pub type_known :
      (p.content_type ≡ "")
      ⊎ ((p.content_type ≡ "application/json") ⊎ (p.content_type ≡ "text/plain"))
  pub signature_short : len p.signature ≤ 64
  pub not_early : env.now + 3 * minute ≤ p.run_at
  pub not_late : p.run_at ≤ env.later + 30 * day
  pub few_retries : p.retries ≤ℤ pos 3

is_supported_iff :
    (t : String)
    → (is_supported t ≡ true) ↔ ((t ≡ "") ⊎ ((t ≡ "application/json") ⊎ (t ≡ "text/plain")))
is_supported_iff t = ground (arith, eq_iff t "", eq_iff t "application/json", eq_iff t "text/plain")

module _ (url_error : String → Option String) (env : Env) (p : ScheduledJobsPayload) where
  -- Validate returns no error exactly for the payloads within the bounds.
  pub validate_job_iff : (validate_job url_error env p ≡ none) ↔ IsValid url_error env p
  unfolding validate_job
  validate_job_iff = (
    (λ h. record {
      named = ground arith;
      name_short = ground arith;
      description_short = ground arith;
      url_parses = ground arith;
      payload_small = ground arith;
      type_known = ground (arith, is_supported_iff p.content_type);
      signature_short = ground arith;
      not_early = ground arith;
      not_late = ground arith;
      few_retries = ground arith;
    }),
    (λ v. ground (arith, is_supported_iff p.content_type, v.payload_small)),
  )
