-- ===== src/Rest/Workers.antt =====
-- internal/rest/worker_handler.go: workers register, report their health and leave.
use text.Mathlib.Text.{◌==◌ as str_eq}
use hermeshooks.Prelude.{String, none, some, if◌then◌else◌}
use hermeshooks.Workers.{ok, err, blocked, returns, register, un_register, health}
use hermeshooks.Rest.{
  partition, Json, validation_error, other, Env, hangs, finished, Handler, write_json, write_empty,
}
use hermeshooks.Rest.Errors.{bind}

module _ (env : Env) where
  unfoldable pub register_name : String → Handler
  register_name name req w api = elim (register env.context_is_done name env.now api.workers) [
    | blocked ↦ hangs api
    | returns (err e) s ↦ finished (some other) w (record api { workers = s })
    | returns (ok worker) s ↦
        finished none (write_json 200 (partition worker.partition) w) (record api { workers = s })
  ]

  unfoldable pub register_worker : Json → Handler
  unfolding register_name
  register_worker json req = bind (json.decode_name req.body) register_name req

  -- `name` is the parameter of the path, here and below.
  unfoldable pub un_register_worker : String → Handler
  un_register_worker name req w api =
      if str_eq name ""
      then finished (some (validation_error "name is missing")) w api
      else elim (un_register name api.workers) [
        | blocked ↦ hangs api
        | returns worker s ↦ finished none (write_empty 200 w) (record api { workers = s })
      ]

  unfoldable pub worker_health : String → Handler
  worker_health name req w api =
      if str_eq name ""
      then finished (some (validation_error "name is missing")) w api
      else elim (health name env.now api.workers) [
        | blocked ↦ hangs api
        | returns (err e) s ↦ finished (some other) w (record api { workers = s })
        | returns (ok done) s ↦ finished none (write_empty 200 w) (record api { workers = s })
      ]
