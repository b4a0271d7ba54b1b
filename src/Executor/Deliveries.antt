-- ===== src/Executor/Deliveries.antt =====
-- What RetryDo's result means for the job that was delivered.
use hermeshooks.Prelude.{ℕ, ◌≤◌, ◌≡◌, inl, inr, refl, String, Bool-cases, Option, none, some, arith}
use text.Mathlib.Text.{◌==◌ as str_eq}
use text.Mathlib.TextEquality.{eq_iff}
use hermeshooks.Entities
use hermeshooks.Storage.Sql.{Server}
use hermeshooks.Common.Retry.{Request, Response, Reply}
use hermeshooks.Common.Retry.Attempts.{Readable, retry-Ends}
use hermeshooks.Executor.{delivered, deliver, delivery_of, prepare_req, request_of}

module _ (srv : Server) {S : Type 0} (send : S → Request → Reply × S)
    (url_error : String → Option String) where
  -- The body of a job's request can be read.
  request-Readable : (job : Entities.ScheduledJob) → Readable send (request_of job).body job.payload
  request-Readable job = elim (Bool-cases (str_eq job.payload "")) [
    | inl e ↦ rw e (ground (arith, eq_iff job.payload ""))
    | inr e ↦ rw e (refl, refl)
  ]

  -- Every reply of the client is a response of 500 or more.
  abbrev pub AlwaysFails : Type 0
  AlwaysFails =
      (t : S) (q : Request)
      → (r : Response) × ((send t q).0.resp ≡ some r)
        × ((send t q).0.err ≡ none)
        × (500 ≤ r.status_code)

  -- If the URL is fit for a request and the client gives every request a response of 500 or more
  -- and no error, the delivery ends with such a status code and no error.
  pub failures_delivered :
      (job : Entities.ScheduledJob) (s : S)
      → url_error job.url ≡ none
      → AlwaysFails
      → (code : ℕ) × (500 ≤ code) × (deliver srv send url_error job s ≡ delivered code none)
  unfolding deliver prepare_req delivery_of
  failures_delivered job s fit fails =
      let (reply, (q, t, e), ends) =
        retry-Ends send (request_of job) job.retries s job.payload (request-Readable job) in
      let (r, resp, err, large) = fails t q in
      elim ends [
        | inl (r', given, no_err, out, small) ↦ absurd (ground arith)
        | inr (inl (out, refused, n)) ↦ (r.status_code, large, ground arith)
        | inr (inr (out, no_resp, no_err)) ↦ absurd (ground arith)
      ]
