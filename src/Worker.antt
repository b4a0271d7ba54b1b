-- ===== src/Worker.antt =====
-- internal/worker/worker.go: a worker process, which registers with the API, keeps reporting its health,
-- and leaves. The HTTP client is a parameter, as in `RetryDo`; so are `url_error`, the error, if any,
-- that http.NewRequestWithContext makes of a URL, and the JSON that is sent and received.
pub mod Wire
pub mod Calls
pub mod Joins
pub mod Pipeline
pub mod Reached
use Prim.Native.String.{◌++◌ as append}
use text.Mathlib.Text.{◌==◌ as str_eq}
use hermeshooks.Prelude.{
  ℕ, String, Bool, true, false, Option, none, some, List, [], ◌∷◌, ◌==◌, if◌then◌else◌,
}
use hermeshooks.Prelude.Int.{pos}
use hermeshooks.Common.Retry.{
  Reader, Request, Response, Reply, Outcome, Run, done, panicked, fresh, retry_do,
}

pub record WorkerConfig : Type 0 where
  pub has_db : Bool
  pub node : String
  pub concurrency : ℕ
  pub api_key : String

pub record Worker : Type 0 where
  pub name : String
  pub node : String
  pub concurrency : ℕ
  pub api_key : String

pub data WorkerError : Type 0 where
  db_missing node_missing : WorkerError
  request_failed : String → WorkerError
  invalid_status : ℕ → WorkerError
  invalid_json : WorkerError

pub data Made : Type 0 where
  made : Worker → Made
  refused : WorkerError → Made

-- NewWorker; `name` is uuid.New().
unfoldable pub new_worker : String → WorkerConfig → Made
new_worker name cfg =
    if cfg.has_db
    then if str_eq cfg.node ""
      then refused node_missing
      else made (record {
        name = name;
        node = cfg.node;
        concurrency = if cfg.concurrency == 0 then 4 else cfg.concurrency;
        api_key = cfg.api_key;
      })
    else refused db_missing

-- A result, an error, or the panic on a missing response.
pub data Replied (A : Type 0) : Type 0 where
  value : A → Replied A
  failed : WorkerError → Replied A
  crashed : Replied A

-- Header.Set stores the canonical form of a header's name.
abbrev api_headers : Worker → List (String × String)
api_headers w =
    ("Content-Type", "application/json")
    ∷ ("User-Agent", "hermeshook worker")
    ∷ ("X-Api-Key", w.api_key)
    ∷ []

abbrev pub workers_url : Worker → String
workers_url w = append w.node "/api/v1/workers"

abbrev pub worker_url : Worker → String
worker_url w = append w.node (append "/api/v1/workers/" w.name)

abbrev pub health_url : Worker → String
health_url w = append w.node (append "/api/v1/workers/" (append w.name "/health"))

abbrev pub api_request : Worker → String → String → Option Reader → Request
api_request w method url body = record {
  method = method;
  url = url;
  headers = api_headers w;
  body = body;
}

abbrev decoded_body : {A : Type 0} → Option A → Replied A
decoded_body none = failed invalid_json
decoded_body (some a) = value a

-- What doReq makes of RetryDo's result: only the status code 200 is taken.
pub reply_of : {A : Type 0} → (String → Option A) → Outcome → Replied A
reply_of decode (done resp (some e)) = failed (request_failed e)
reply_of decode (done none none) = crashed
reply_of decode (done (some r) none) =
    if r.status_code == 200
    then decoded_body (decode r.body)
    else failed (invalid_status r.status_code)
reply_of decode panicked = crashed

-- `v` is nil: the body is not decoded.
abbrev pub ignore : String → Option (Unit {0})
ignore body = some tt

module _ {S : Type 0} (send : S → Request → Reply × S) where
  pub do_req : {A : Type 0} → (String → Option A) → Request → S → Replied A × S
  unfolding reply_of
  do_req decode req s =
      let run = retry_do send req (pos 3) s in (reply_of decode run.outcome, run.world)

  module _ (url_error : String → Option String) (w : Worker) where
    -- A request is made, unless its URL is unfit, and sent.
    pub call_api : {A : Type 0} → (String → Option A) → Request → S → Replied A × S
    unfolding do_req
    call_api decode req s = elim (url_error req.url) [
      | some e ↦ (failed (request_failed e), s)
      | none ↦ do_req decode req s
    ]

    -- register; `encode` and `decode` are the JSON of {"name": ...} and of {"partition": ...}.
    pub register_self : (String → String) → (String → Option ℕ) → S → Replied ℕ × S
    unfolding call_api
    register_self encode decode =
        call_api decode (api_request w "POST" (workers_url w) (some (fresh (encode w.name))))

    pub un_register_self : S → Replied (Unit {0}) × S
    unfolding call_api
    un_register_self = call_api ignore (api_request w "DELETE" (worker_url w) none)

    pub ping_req : S → Replied (Unit {0}) × S
    unfolding call_api
    ping_req = call_api ignore (api_request w "POST" (health_url w) none)

-- What happens to a worker that runs: the ticker of ping fires, its context is done, ping sees that it is
-- done, or a channel of the listener, the monitor or the executor gives an error or is closed.
pub data Turn : Type 0 where
  ticks context_done ping_leaves : Turn
  channel_ends : Option WorkerError → Turn

pub data Ended : Type 0 where
  running : Ended
  ended : Option WorkerError → Ended
  dead : Ended

-- `context` says whether the context is done.
pub record Life (S : Type 0) : Type 0 where
  pub end : Ended
  pub context : Bool
  pub world : S

-- `send d` is the client's Do of a request whose context is done if `d`.
module _ {S : Type 0} (send : Bool → S → Request → Reply × S) (url_error : String → Option String)
    (w : Worker) where
  -- The select of Start, over the turns in the order in which they come, with the loop of ping.
  pub wait : List Turn → Bool → S → Life S
  wait [] d s = record { end = running; context = d; world = s }
  wait (context_done ∷ turns) d s = wait turns true s
  wait (ping_leaves ∷ turns) d s =
      let rest = wait turns d s in
      if d then record { end = ended none; context = d; world = s } else rest
  wait (channel_ends e ∷ turns) d s = record { end = ended e; context = d; world = s }
  wait (ticks ∷ turns) d s =
      let (r, s') = ping_req (send d) url_error w s in
      elim r [
        | value reply ↦ wait turns d s'
        | failed e ↦ record { end = ended (some e); context = d; world = s' }
        | crashed ↦ record { end = dead; context = d; world = s' }
      ]

  -- `defer w.unregister(ctx)`, whose error is dropped.
  pub leave : Life S → Life S
  leave l = elim l.end [
    | running ↦ l
    | dead ↦ l
    | ended e ↦ record l { world = (un_register_self (send l.context) url_error w l.world).1 }
  ]

  -- Start, from a context that is not done.
  pub start : (String → String) → (String → Option ℕ) → List Turn → S → Life S
  unfolding wait leave
  start encode decode turns s =
      let (r, s') = register_self (send false) url_error w encode decode s in
      elim r [
        | failed e ↦ record { end = ended (some e); context = false; world = s' }
        | crashed ↦ record { end = dead; context = false; world = s' }
        | value partition ↦ leave (wait turns false s')
      ]
