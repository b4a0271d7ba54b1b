-- ===== src/Worker/Wire.antt =====
-- The wire between the HTTP client of a worker and the router of the API. net/http is the parameter `Net`:
-- how it reads a request on the server, how a response's values are printed, and what it does with a
-- request that it cannot route. A request that is never answered ends in the client's timeout, and one
-- whose context is done is not sent.
use hermeshooks.Prelude.{
  ℕ, suc, ◌≡◌, String, Bool, false, Option, none, some, List, [], ◌∷◌, if◌then◌else◌,
}
use hermeshooks.Common.Retry.{Request, Response, Reply, fresh}
use hermeshooks.Rest.{
  Value, partition, decoded, Method, post, delete, Req, new_writer, Api, Env, Handled, hangs,
  finished, status_code,
}
use hermeshooks.Rest.Router.{Config, serve}
use hermeshooks.Worker.{Worker, api_request, workers_url, worker_url, health_url}

-- `env n` is what request number n meets.
pub record Net : Type 0 where
  pub read : Request → Req
  pub print : List Value → String
  pub not_routed : Response
  pub timeout : String
  pub cancelled : String
  pub env : ℕ → Env

pub record Line : Type 0 where
  pub requests : ℕ
  pub api : Api

abbrev pub answered : Response → Reply
answered r = record { resp = some r; err = none; body_left = none }

abbrev unanswered : String → Reply
unanswered e = record { resp = none; err = some e; body_left = none }

module _ (c : Config) (net : Net) where
  abbrev reply_to : Api → Option Handled → Reply × Api
  reply_to api none = (answered net.not_routed, api)
  reply_to api (some (hangs api')) = (unanswered net.timeout, api')
  reply_to api (some (finished e w api')) = (
    answered (record { status_code = status_code w; body = net.print w.values; closed = false }),
    api',
  )

  unfoldable pub wire : Bool → Line → Request → Reply × Line
  wire d l q =
      let (r, api) = reply_to l.api (serve c (net.env l.requests) (net.read q) new_writer l.api) in
      if d
      then (unanswered net.cancelled, l)
      else (r, record { requests = suc l.requests; api = api })

-- The path, the headers and the body as the server reads them.
abbrev pub as_read : Worker → Method → List String → String → Req
as_read w m path body = record {
  method = m;
  path = path;
  content_type = "application/json";
  headers = record { rapid_proxy_secret = ""; rapid_user = ""; api_key = w.api_key };
  body = body;
  user = none;
}

-- What a worker relies on: its requests are read as they were made, and JSON that is printed on one side
-- is understood on the other.
pub record Connects (c : Config) (net : Net) (w : Worker) (encode : String → String)
    (decode : String → Option ℕ) : Type 0 where
  pub reads_register :
      net.read (api_request w "POST" (workers_url w) (some (fresh (encode w.name))))
      ≡ as_read w post ("workers" ∷ []) (encode w.name)
  pub reads_un_register :
      net.read (api_request w "DELETE" (worker_url w) none)
      ≡ as_read w delete ("workers" ∷ w.name ∷ []) ""
  pub reads_ping :
      net.read (api_request w "POST" (health_url w) none)
      ≡ as_read w post ("workers" ∷ w.name ∷ "health" ∷ []) ""
  pub name_round_trip : c.json.decode_name (encode w.name) ≡ decoded w.name
  pub partition_round_trip : (n : ℕ) → decode (net.print (partition n ∷ [])) ≡ some n
  pub named : w.name ≡ "" → ⊥
