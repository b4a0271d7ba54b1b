-- ===== src/Worker/Joins.antt =====
-- How a worker joins the service over the API, and how it leaves it.
use text.Mathlib.Text.{◌==◌ as str_eq}
use text.Mathlib.TextEquality.{eq_iff}
use hermeshooks.Prelude.{
  ℕ, suc, ◌<◌, ◌≡◌, refl, ◌∙◌, ap, String, false, Option, none, some, List, [], ◌∷◌, arith,
}
use hermeshooks.Common.Retry.{fresh}
use hermeshooks.Workers.{WorkerMeta, Service, ok, returns, register, health}
use hermeshooks.Workers.Registry.{lookup}
use hermeshooks.Workers.Entries.{Inv}
use hermeshooks.Workers.Faults.{register_new}
use hermeshooks.Rest.{decoded, partition, failure, post, new_writer, Api, Env, finished, other}
use hermeshooks.Rest.Errors.{answer_error, write_error, new_http_error}
use hermeshooks.Rest.Workers.{register_name, register_worker, worker_health}
use hermeshooks.Rest.Router.{Config, routes, post_routes}
use hermeshooks.Worker.{
  Worker, value, invalid_status, Turn, ticks, ended, reply_of, register_self, ping_req, wait,
  api_request, workers_url, health_url, ignore,
}
use hermeshooks.Worker.Wire.{Net, Line, answered, wire, as_read, Connects}
use hermeshooks.Worker.Calls.{call_answered, call_failing, wire_lem, wire_finished}

module _ (c : Config) (env : Env) (w : Worker) where
  register_lem :
      (body : String) (m : WorkerMeta) (t : Service) (api : Api)
      → c.json.decode_name body ≡ decoded w.name
      → register env.context_is_done w.name env.now api.workers ≡ returns (ok m) t
      → register_worker env c.json (as_read w post ("workers" ∷ []) body) new_writer api
        ≡ finished none
            (record { status = 200; values = partition m.partition ∷ [] })
            (record api { workers = t })
  unfolding register_worker register_name
  register_lem body m t api read registered = ground arith

  health_lem :
      (api : Api)
      → str_eq w.name "" ≡ false
      → api.workers.locked ≡ false
      → lookup w.name api.workers.registry ≡ none
      → worker_health env w.name
          (as_read w post ("workers" ∷ w.name ∷ "health" ∷ []) "")
          new_writer
          api
        ≡ finished (some other) new_writer api
  unfolding worker_health health
  health_lem api named free missing = ground arith

module _ (c : Config) (net : Net) (url_error : String → Option String) (w : Worker)
    (encode : String → String) (decode : String → Option ℕ)
    (connects : Connects c net w encode decode) (key : w.api_key ≡ c.auth.internal_api_key) where
  -- A registration that the service takes is answered with the partition.
  pub told_partition :
      (l : Line) (m : WorkerMeta) (t : Service)
      → url_error (workers_url w) ≡ none
      → register (net.env l.requests).context_is_done w.name (net.env l.requests).now l.api.workers
        ≡ returns (ok m) t
      → register_self (wire c net false) url_error w encode decode l ≡ (
        value m.partition,
        record { requests = suc l.requests; api = record l.api { workers = t } },
      )
  unfolding register_self reply_of routes post_routes
  told_partition l m t fit registered =
      let env = net.env l.requests in
      let q = api_request w "POST" (workers_url w) (some (fresh (encode w.name))) in
      let handled =
        register_lem c env w (encode w.name) m t l.api connects.name_round_trip registered in
      let served =
        wire_lem c net w l q post ("workers" ∷ []) (encode w.name) _ connects.reads_register key
          refl
        ∙ ap (λ h. some (answer_error h)) handled in
      let called =
        call_answered (wire c net false) url_error w decode "POST" (workers_url w)
          (some (encode w.name)) l _ _ fit (wire_finished c net w l q none _ _ served)
          (omega arith) in
      rw called (ground (arith, connects.partition_round_trip m.partition))

  -- When the wire carries requests and answers unchanged, a worker with the internal key, a fit URL and a
  -- new name, whose registration finds the lock of the service free, its invariant satisfied and its
  -- context not done, is told the partition that it now has in the registry, which lies above that of
  -- every other worker; and the others stay.
  pub worker_registers :
      (l : Line)
      → url_error (workers_url w) ≡ none
      → Inv l.api.workers
      → l.api.workers.locked ≡ false
      → (net.env l.requests).context_is_done ≡ false
      → lookup w.name l.api.workers.registry ≡ none
      → (m : WorkerMeta) × (t : Service) × (register_self
            (wire c net false)
            url_error
            w
            encode
            decode
            l
          ≡ (
            value m.partition,
            record { requests = suc l.requests; api = record l.api { workers = t } },
          ))
        × (lookup w.name t.registry ≡ some m)
        × ((k : String) (v : WorkerMeta)
            → lookup k l.api.workers.registry ≡ some v
            → (v.partition < m.partition) × (lookup k t.registry ≡ some v))
  worker_registers l fit i free lasting missing =
      let env = net.env l.requests in
      let (m, t, registered, there, signalled, others) =
        register_new l.api.workers w.name env.now i free missing in
      (m, t, told_partition l m t fit (rw lasting registered), there, others)

  lost_served :
      (l : Line)
      → l.api.workers.locked ≡ false
      → lookup w.name l.api.workers.registry ≡ none
      → wire c net false l (api_request w "POST" (health_url w) none) ≡ (
        answered (record {
          status_code = 500;
          body = net.print (failure "Internal server error" ∷ []);
          closed = false;
        }),
        record l { requests = suc l.requests },
      )
  unfolding routes post_routes write_error new_http_error
  lost_served l free missing =
      let env = net.env l.requests in
      let q = api_request w "POST" (health_url w) none in
      let path = "workers" ∷ w.name ∷ "health" ∷ [] in
      let named : str_eq w.name "" ≡ false = ground (arith, connects.named, eq_iff w.name "") in
      let served =
        wire_lem c net w l q post path "" _ connects.reads_ping key refl
        ∙ ap (λ h. some (answer_error h)) (health_lem c env w l.api named free missing) in
      wire_finished c net w l q (some other) _ _ served

  -- When the wire carries requests and answers unchanged, a running worker with the internal key and a fit
  -- URL that the service, its lock free, does not know tries its next health report three times, is
  -- answered with 500 each time, and ends with that error.
  pub lost_worker_stops :
      (l : Line) (turns : List Turn)
      → url_error (health_url w) ≡ none
      → l.api.workers.locked ≡ false
      → lookup w.name l.api.workers.registry ≡ none
      → wait (wire c net) url_error w (ticks ∷ turns) false l ≡ record {
        end = ended (some (invalid_status 500));
        context = false;
        world = record l { requests = suc (suc (suc l.requests)) };
      }
  unfolding wait ping_req
  lost_worker_stops l turns fit free missing =
      let next : Line → Line = λ x. record x { requests = suc x.requests } in
      let called =
        call_failing (wire c net false) url_error w ignore "POST" (health_url w) l (next l)
          (next (next l)) (next (next (next l))) _ fit (lost_served l free missing)
          (lost_served (next l) free missing) (lost_served (next (next l)) free missing)
          (omega arith) in
      ground (arith, called)
