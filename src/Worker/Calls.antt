-- ===== src/Worker/Calls.antt =====
-- What the requests of a worker do to the API, and what it makes of the answers.
use text.Mathlib.TextEquality.{eq_iff}
use hermeshooks.Prelude.{
  ℕ, zero, suc, ◌<◌, ◌≤◌, ◌≡◌, refl, ◌∙◌, ap, String, true, false, Option, none, some, List, arith,
}
use hermeshooks.Common.Retry.{
  Reader, refill, Request, Response, Reply, done, fresh, retry_do, attempts,
}
use hermeshooks.Auth.{internal_api}
use hermeshooks.Rest.{Method, Writer, new_writer, HandlerError, Api, finished, Handler, status_code}
use hermeshooks.Rest.Errors.{answer_error, error_handler, accepted_content_type, is_accepted}
use hermeshooks.Rest.Router.{Config, with_key, routes, in_group, serve}
use hermeshooks.Worker.{Worker, failed, invalid_status, reply_of, do_req, call_api, api_request}
use hermeshooks.Worker.Wire.{Net, Line, answered, wire, as_read}

abbrev reader_of : Option String → Option Reader
reader_of none = none
reader_of (some text) = some (fresh text)

module _ {S : Type 0} (send : S → Request → Reply × S) where
  -- A response below 500 ends RetryDo at the first attempt.
  attempts-answered :
      (left i : ℕ) (text : String) (req : Request) (s : S) (r : Response) (s' : S)
      → send s (refill text req) ≡ (answered r, s')
      → r.status_code < 500
      → ((attempts send left i text req s).outcome ≡ done (some r) none)
        × ((attempts send left i text req s).world ≡ s')
  unfolding attempts
  attempts-answered zero i text req s r s' sent small = (ground arith, ground arith)
  attempts-answered (suc left) i text req s r s' sent small = (ground arith, ground arith)

  -- Three responses of 500 or more, the last of which is the one that counts.
  attempts_failing :
      (req : Request) (s s1 s2 s3 : S) (r : Response)
      → req.body ≡ none
      → send s req ≡ (answered r, s1)
      → send s1 req ≡ (answered r, s2)
      → send s2 req ≡ (answered r, s3)
      → 500 ≤ r.status_code
      → ((attempts send 2 1 "" req s).outcome ≡ done (some (record r { closed = true })) none)
        × ((attempts send 2 1 "" req s).world ≡ s3)
  unfolding attempts
  attempts_failing req s s1 s2 s3 r nobody a b c big = (ground arith, ground arith)

  module _ (url_error : String → Option String) (w : Worker) where
    pub call_answered :
        {A : Type 0} (decode : String → Option A) (method url : String) (body : Option String)
        (s : S) (r : Response) (s' : S)
        → url_error url ≡ none
        → send s (api_request w method url (reader_of body)) ≡ (answered r, s')
        → r.status_code < 500
        → call_api send url_error w decode (api_request w method url (reader_of body)) s
          ≡ (reply_of decode (done (some r) none), s')
    unfolding call_api do_req retry_do
    call_answered decode method url none s r s' fit sent small =
        let q = api_request w method url none in
        let (o, t) = attempts-answered 2 1 "" q s r s' sent small in ground (arith, o, t)
    call_answered decode method url (some text) s r s' fit sent small =
        let q = api_request w method url (some (fresh "")) in
        let again : refill text q ≡ api_request w method url (some (fresh text)) =
          ground (arith, eq_iff text "") in
        let (o, t) = attempts-answered 2 1 text q s r s' (ap (send s) again ∙ sent) small in
        ground (arith, o, t)

    -- All three attempts are answered with the same response of 500 or more.
    pub call_failing :
        {A : Type 0} (decode : String → Option A) (method url : String) (s s1 s2 s3 : S)
        (r : Response)
        → url_error url ≡ none
        → send s (api_request w method url none) ≡ (answered r, s1)
        → send s1 (api_request w method url none) ≡ (answered r, s2)
        → send s2 (api_request w method url none) ≡ (answered r, s3)
        → 500 ≤ r.status_code
        → call_api send url_error w decode (api_request w method url none) s
          ≡ (failed (invalid_status r.status_code), s3)
    unfolding call_api do_req retry_do reply_of
    call_failing decode method url s s1 s2 s3 r fit a b c big =
        let (o, t) = attempts_failing (api_request w method url none) s s1 s2 s3 r refl a b c big in
        ground (arith, o, t)

module _ (c : Config) (net : Net) (w : Worker) (l : Line) where
  -- A request of the worker reaches its handler.
  pub wire_lem :
      (q : Request) (m : Method) (path : List String) (body : String) (k : Handler)
      → net.read q ≡ as_read w m path body
      → w.api_key ≡ c.auth.internal_api_key
      → routes c (net.env l.requests) m path ≡ some (with_key c.auth k)
      → serve c (net.env l.requests) (net.read q) new_writer l.api
        ≡ some (answer_error (k (as_read w m path body) new_writer l.api))
  unfolding serve in_group error_handler accepted_content_type is_accepted with_key internal_api
  wire_lem q m path body k read key route =
      rw read (ground (arith, eq_iff w.api_key c.auth.internal_api_key))

  -- What comes back over the wire, if the handler has finished.
  pub wire_finished :
      (q : Request) (e : Option HandlerError) (w' : Writer) (api : Api)
      → serve c (net.env l.requests) (net.read q) new_writer l.api ≡ some (finished e w' api)
      → wire c net false l q ≡ (
        answered
            (record { status_code = status_code w'; body = net.print w'.values; closed = false }),
        record { requests = suc l.requests; api = api },
      )
  unfolding wire
  wire_finished q e w' api served = rw served refl
