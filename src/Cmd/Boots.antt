-- ===== src/Cmd/Boots.antt =====
-- A server and a worker that are started from their environments.
use hermeshooks.Prelude.{ℕ, ◌≡◌, sym, ◌∙◌, String, false, Option, none, some, arith}
use hermeshooks.Entities.{Time}
use hermeshooks.Storage.Sql.{World}
use hermeshooks.Storage.Sql.Returns.{Live}
use hermeshooks.Storage.Balance.{MapRange}
use hermeshooks.Storage.Connect.{new}
use hermeshooks.Auth
use hermeshooks.Workers
use hermeshooks.Workers.{WorkerMeta, Service}
use hermeshooks.Workers.Registry.{lookup}
use hermeshooks.Workers.Events.{registers}
use hermeshooks.Workers.Balancer
use hermeshooks.Workers.Balancer.{State, Goes, call}
use hermeshooks.Workers.Balancer.Settles.{Settled}
use hermeshooks.Workers.Balancer.Alone.{AllWait, AllIn}
use hermeshooks.Workers.Balancer.First.{first_joins, first_served}
use hermeshooks.Rest.Server
use hermeshooks.Worker.{Worker, new_worker, value, register_self, workers_url}
use hermeshooks.Worker.Wire.{Net, Line, wire, Connects}
use hermeshooks.Worker.Joins.{told_partition}
use hermeshooks.Cmd.{Process, ServerConfig, WorkerConfig, server_config, worker_config}
use hermeshooks.Cmd.Server.{Libraries, Running, running, run_server}
use hermeshooks.Cmd.Worker.{hired, run_worker}

-- What a server that runs has begun with.
booted :
    (p : Process) (lib : Libraries) (cfg : ServerConfig) (now : Time) (db : World) (s : Running)
    → server_config p ≡ some cfg
    → run_server p lib cfg now db ≡ running s
    → (s.config.auth.internal_api_key ≡ p.setting "INTERNAL_API_KEY" "secret")
      × (s.api.workers ≡ Workers.new 0 now)
      × (s.balancer ≡ Balancer.start 0 now db)
unfolding server_config run_server new Server.new Auth.new
booted p lib cfg now db s e b = (ground arith, ground arith, ground arith)

hired_lem :
    (p : Process) (name : String) (cfg : WorkerConfig) (w : Worker)
    → worker_config p ≡ some cfg
    → run_worker p name cfg ≡ hired w
    → w.api_key ≡ p.setting "INTERNAL_API_KEY" "secret"
unfolding worker_config run_worker new new_worker
hired_lem p name cfg w e h = ground arith

-- A server and a worker are started, each from its environment, with the same value of INTERNAL_API_KEY, if
-- only by default. When the wire carries requests and answers unchanged, the worker's URL is fit, the context
-- of its first request is not done, no round trip to the database fails, and the jobs there have ids of their
-- own and are all still to be run, its registration succeeds: it is told the partition that it has in the
-- registry of the server; and some turns of the senders and of the rebalancer after that leave the registry
-- as it is, nothing more to do, and every job in that partition, none lost or changed but in its partition
-- and from pending to scheduled.
pub booted_worker_served :
    (p q : Process) (lib : Libraries) (cfg : ServerConfig) (hiring : WorkerConfig) (now : Time)
    (db : World) (name : String) (s : Running) (w : Worker) (net : Net)
    (url_error : String → Option String) (encode : String → String) (decode : String → Option ℕ)
    (range : MapRange)
    → q.setting "INTERNAL_API_KEY" "secret" ≡ p.setting "INTERNAL_API_KEY" "secret"
    → server_config p ≡ some cfg
    → worker_config q ≡ some hiring
    → run_server p lib cfg now db ≡ running s
    → run_worker q name hiring ≡ hired w
    → Connects s.config net w encode decode
    → url_error (workers_url w) ≡ none
    → (net.env 0).context_is_done ≡ false
    → Live lib.srv
    → AllWait db
    → (m : WorkerMeta) × (t : Service) × (register_self
          (wire s.config net false)
          url_error
          w
          encode
          decode
          (record { requests = 0; api = s.api })
        ≡ (value m.partition, record { requests = 1; api = record (s.api) { workers = t } }))
      × (lookup w.name t.registry ≡ some m)
      × ((u : State) × Goes lib.srv range
            (call (registers false w.name (net.env 0).now) s.balancer)
            u
          × Settled t.registry u
          × AllIn m.partition db u.db)
booted_worker_served p q lib cfg hiring now db name s w net url_error encode decode range same read
      hires ran hire connects fit lasting live waits =
    let (key, fresh, begins) = booted p lib cfg now db s read ran in
    let time = (net.env 0).now in
    let (m, t, registered, there, kept, one, positive) = first_joins 0 now db w.name time in
    let line : Line = record { requests = 0; api = s.api } in
    let told =
      told_partition s.config net url_error w encode decode connects
        (hired_lem q name hiring w hires hire ∙ same ∙ sym key) line m t fit
        (rw (lasting, fresh) registered) in
    (
      m,
      t,
      told,
      there,
      rw begins (first_served 0 now db w.name time lib.srv range live m t kept one positive waits),
    )
