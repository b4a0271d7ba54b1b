-- ===== src/Cmd/Worker.antt =====
-- runWorker of cmd/hermeshooks/main.go: a worker is made, to be started.
use hermeshooks.Prelude.{String, true}
use hermeshooks.Storage.Connect.{opened, refused}
use hermeshooks.Worker
use hermeshooks.Worker.{Made, made, WorkerError, new_worker}
use hermeshooks.Cmd.{Process, WorkerConfig, open_storage}

pub data Hired : Type 0 where
  hired : Worker.Worker → Hired
  not_connected : String → Hired
  unfit : WorkerError → Hired

-- `name` is the uuid that NewWorker draws.
unfoldable pub run_worker : Process → String → WorkerConfig → Hired
run_worker p name cfg = elim (open_storage p cfg.dsn cfg.debug true) [
  | refused e ↦ not_connected e
  | opened db ↦
      elim (new_worker name (record {
        has_db = true;
        node = cfg.node;
        concurrency = 0;
        api_key = cfg.internal_api_key;
      })) [ Worker.refused e ↦ unfit e | made w ↦ hired w ]
]
