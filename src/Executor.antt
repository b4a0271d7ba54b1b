-- ===== src/Executor.antt =====
-- internal/worker/executor.go: what a worker does with one job. The HTTP client is a parameter, as in
-- `RetryDo`; so is `url_error`, the error, if any, that http.NewRequestWithContext makes of a URL.
pub mod Outcomes
pub mod Deliveries
use Prim.Native.String.{◌++◌ as append}
use text.Mathlib.Text.{◌==◌ as str_eq}
use hermeshooks.Prelude.{ℕ, String, ◌≡◌, Option, none, some, List, [], ◌∷◌, if◌then◌else◌}
use hermeshooks.Entities
use hermeshooks.Entities.{Time, success, fail}
use hermeshooks.Storage.Sql.{Server, World, Result, Sql, transact, ◌>>=◌, ◌>>◌, pure}
use hermeshooks.Storage.Queries.{update_job_status, insert_execution}
use hermeshooks.Common.Retry.{Request, Response, Reply, Outcome, done, panicked, fresh, retry_do}

-- Header.Set stores the canonical form of a header's name.
abbrev pub request_of : Entities.ScheduledJob → Request
request_of job = record {
  method = "POST";
  url = job.url;
  headers =
      ("Content-Type", job.content_type)
      ∷ ("X-Hermeshooks-Payload-Sig", job.signature)
      ∷ ("X-Hermeshooks-Sig", "")
      ∷ [];
  body = if str_eq job.payload "" then none else some (fresh job.payload);
}

-- prepareReq
pub data Prepared : Type 0 where
  ready : Request → Prepared
  unfit : String → Prepared

unfoldable pub prepare_req : (String → Option String) → Entities.ScheduledJob → Prepared
prepare_req url_error job = elim (url_error job.url) [
  | some e ↦ unfit e
  | none ↦ ready (request_of job)
]

-- What the inner function of `process` returns: a status code and an error, or a panic.
pub data Delivery : Type 0 where
  delivered : ℕ → Option String → Delivery
  crashed : Delivery

unfoldable pub delivery_of : Outcome → Delivery
delivery_of (done resp (some e)) = delivered 0 (some (append "request fail with error: " e))
delivery_of (done none none) = delivered 0 (some "resp is nil")
delivery_of (done (some r) none) = delivered r.status_code none
delivery_of panicked = crashed

-- `process` returns, or the panic ends the program.
pub data Processed : Type 0 where
  processed : Result (Unit {0}) → World → Processed
  aborted : World → Processed

abbrev pub final_status : Option String → ℕ
final_status none = success
final_status (some e) = fail

abbrev pub message : Option String → String
message none = ""
message (some e) = e

abbrev pub execution_of : Entities.ScheduledJob → ℕ → Option String → Time → Entities.Execution
execution_of job status_code error now = record {
  id = 0;
  scheduled_job_id = job.id;
  status_code = status_code;
  msg = message error;
  created_at = now;
}

module _ (srv : Server) where
  -- From `tx, err := e.db.Begin()` on.
  unfoldable pub save : Entities.ScheduledJob → ℕ → Option String → Time → Sql (Unit {0})
  save job status_code error now = transact srv (do
    update_job_status srv (record job { updated_at = now; status = final_status error })
    execution ← insert_execution srv (execution_of job status_code error now)
    pure tt)

  module _ {S : Type 0} (send : S → Request → Reply × S) (url_error : String → Option String) where
    unfoldable pub deliver : Entities.ScheduledJob → S → Delivery
    unfolding prepare_req delivery_of
    deliver job s = elim (prepare_req url_error job) [
      | unfit e ↦ delivered 0 (some (append "fail to prepare req error: " e))
      | ready req ↦ delivery_of ((retry_do send req job.retries s).outcome)
    ]

    unfoldable pub process : Entities.ScheduledJob → Time → S → World → Processed
    unfolding deliver save
    process job now s w = elim (deliver job s) [
      | crashed ↦ aborted w
      | delivered status_code error ↦
          let (r, w') = save job status_code error now w in processed r w'
    ]
