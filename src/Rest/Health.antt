-- ===== src/Rest/Health.antt =====
-- internal/rest/health_handler.go and meta_handler.go: the state of the server, kept for a minute, and
-- its public key.
use hermeshooks.Prelude.{ℕ, ◌-◌, String, Bool, ltb, leb, none, if◌then◌else◌}
use hermeshooks.Workers.{blocked, returns, active_workers, up_since}
use hermeshooks.Rest.{
  HealthResponse, health, public_key, Api, Env, hangs, finished, Handler, write_json,
}
use hermeshooks.Rest.Jobs.{minute}

-- elapsed <= 1*time.Minute
abbrev is_cached : Env → Api → Bool
is_cached env api = leb (env.now - api.cache.last_cache) minute

module _ (env : Env) where
  current_health : ℕ → Api → HealthResponse
  current_health count api = record {
    server_up_since = up_since api.workers;
    workers_healthy = ltb 0 count;
    db_healthy = env.db_ok;
  }

  unfoldable pub get_health : Handler
  unfolding current_health
  get_health req w api =
      if is_cached env api
      then finished none (write_json 200 (health api.cache.last_response) w) api
      else elim (active_workers api.workers) [
        | blocked ↦ hangs api
        | returns count s ↦
            finished none (write_json 200 (health (current_health count api)) w) (record api {
              workers = s;
              cache = record { last_cache = env.later; last_response = current_health count api };
            })
      ]

-- MetaHandler.Get
unfoldable pub get_meta : String → Handler
get_meta pub_key req w api = finished none (write_json 200 (public_key pub_key) w) api
