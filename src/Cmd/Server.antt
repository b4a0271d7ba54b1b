-- ===== src/Cmd/Server.antt =====
-- runServer of cmd/hermeshooks/main.go: the services, the router and the server are made, and the goroutine
-- that rebalances is started.
use hermeshooks.Prelude.{String, true, false, Option, none, some}
use hermeshooks.Entities.{Time}
use hermeshooks.Storage.Sql.{Server, World}
use hermeshooks.Storage.Connect.{opened, refused}
use hermeshooks.Cryptoutils.{Crypto, sha256}
use hermeshooks.Auth
use hermeshooks.Workers
use hermeshooks.Workers.Balancer
use hermeshooks.Workers.Balancer.{State}
use hermeshooks.Rest.{Json, HealthCache, Api}
use hermeshooks.Rest.Router.{Config}
use hermeshooks.Rest.Server
use hermeshooks.Rest.Server.{Listener, run_on}
use hermeshooks.Cmd.{Process, ServerConfig, open_storage}

-- What the router takes from outside the program.
pub record Libraries : Type 0 where
  pub srv : Server
  pub crypto : Crypto
  pub json : Json
  pub url_error : String → Option String
  pub parse_uuid : String → Option String

-- A server that runs: its routes, the state behind them, the rebalancer (with the same service and database
-- in its state), and where it listens.
pub record Running : Type 0 where
  pub config : Config
  pub api : Api
  pub balancer : State
  pub listener : Listener

pub data Booted : Type 0 where
  running : Running → Booted
  failed : String → Booted

-- HealthHandler{log, workerSrv}
abbrev pub empty_cache : HealthCache
empty_cache = record {
  last_cache = 0;
  last_response = record { server_up_since = 0; workers_healthy = false; db_healthy = false };
}

module _ (p : Process) (lib : Libraries) where
  abbrev pub router_config : ServerConfig → Config
  router_config cfg = record {
    srv = lib.srv;
    sha256 = sha256 lib.crypto;
    auth =
        Auth.new
          (record { rapid_api_key = cfg.rapid_api_key; internal_api_key = cfg.internal_api_key });
    json = lib.json;
    url_error = lib.url_error;
    parse_uuid = lib.parse_uuid;
  }

  abbrev rest_config : ServerConfig → Server.ServerConfig
  rest_config cfg = record {
    addr = cfg.addr;
    write_timeout = 0;
    read_timeout = 0;
    idle_timeout = 0;
    has_handler = true;
    domain = cfg.domain;
  }

  -- `now` is when the worker service is made, and `w` the database that is connected to.
  unfoldable pub run_server : ServerConfig → Time → World → Booted
  run_server cfg now w = elim (open_storage p cfg.dsn cfg.debug false) [
    | refused e ↦ failed e
    | opened db ↦ elim (Server.new (rest_config cfg)) [
      | none ↦ failed "please provide a Handler"
      | some s ↦ running (record {
        config = router_config cfg;
        api = record { db = w; workers = Workers.new 0 now; cache = empty_cache };
        balancer = Balancer.start 0 now w;
        listener = run_on s;
      })
    ]
  ]
