-- ===== src/Rest/Router.antt =====
-- internal/rest/router.go: which handler serves a request, and what it passes through first. The router
-- library runs the middlewares of a group from the first to the last; a request that no route fits is
-- left to it (`none`). What logHandler logs is in Rest.Log.
pub mod Keys
use text.Mathlib.Text.{◌==◌ as str_eq}
use hermeshooks.Prelude.{String, Bool, ◌&&◌, Option, none, some, List, [], ◌∷◌, if◌then◌else◌}
use hermeshooks.Storage.Sql.{Server}
use hermeshooks.Auth.{AuthService, Answer, next, status, auth_middleware, internal_api}
use hermeshooks.Rest.{
  Json, Method, get, post, delete, Req, Writer, Api, Env, Handled, finished, Handler, write_empty,
}
use hermeshooks.Rest.Errors.{error_handler, accepted_content_type}
use hermeshooks.Rest.Jobs.{create_job, get_job}
use hermeshooks.Rest.Users.{create_user}
use hermeshooks.Rest.Workers.{register_worker, un_register_worker, worker_health}
use hermeshooks.Rest.Health.{get_health, get_meta}

-- What the routes of RouterConfig and of the services need. `pub_key` is empty: NewRouter gives the
-- meta handler no key.
pub record Config : Type 0 where
  pub srv : Server
  pub sha256 : String → String
  pub auth : AuthService
  pub json : Json
  pub url_error : String → Option String
  pub parse_uuid : String → Option String

-- AuthSrv.InternalApi
unfoldable pub with_key : AuthService → Handler → Handler
with_key a h req w api = elim (internal_api a req.headers) [
  | some code ↦ finished none (write_empty code w) api
  | none ↦ h req w api
]

module _ (c : Config) (env : Env) where
  -- AuthSrv.AuthMiddleware
  unfoldable pub with_auth : Handler → Handler
  with_auth h req w api =
      let (a, db) = auth_middleware c.srv c.sha256 c.auth req.headers env.now api.db in
      elim a [
        | status code ↦ finished none (write_empty code w) (record api { db = db })
        | next u ↦ h (record req { user = some u }) w (record api { db = db })
      ]

  pub get_routes : List String → Option Handler
  get_routes (group ∷ []) =
      if str_eq group "health"
      then some (get_health env)
      else if str_eq group "meta"
      then some (get_meta "")
      else none
  get_routes (group ∷ uid ∷ []) =
      if str_eq group "scheduledJobs"
      then some (with_auth (get_job c.srv c.url_error c.parse_uuid env uid))
      else none
  get_routes path = none

  unfoldable pub post_routes : List String → Option Handler
  post_routes (group ∷ []) =
      if str_eq group "users"
      then some (with_key c.auth (create_user c.srv c.sha256 env c.json))
      else if str_eq group "workers"
      then some (with_key c.auth (register_worker env c.json))
      else if str_eq group "scheduledJobs"
      then some (with_auth (create_job c.srv c.url_error c.parse_uuid env c.json))
      else none
  post_routes (group ∷ name ∷ action ∷ []) =
      if str_eq group "workers" && str_eq action "health"
      then some (with_key c.auth (worker_health env name))
      else none
  post_routes path = none

  unfoldable pub delete_routes : List String → Option Handler
  delete_routes (group ∷ name ∷ []) =
      if str_eq group "workers" then some (with_key c.auth (un_register_worker env name)) else none
  delete_routes path = none

  unfoldable pub routes : Method → List String → Option Handler
  unfolding get_routes post_routes delete_routes
  routes get path = get_routes path
  routes post path = post_routes path
  routes delete path = delete_routes path

  -- The middlewares of the group /api/v1.
  unfoldable pub in_group : Handler → Handler
  in_group h = error_handler (accepted_content_type ("application/json" ∷ []) h)

  unfoldable pub serve : Req → Writer → Api → Option Handled
  unfolding routes in_group
  serve req w api = elim (routes req.method req.path) [
    | none ↦ none
    | some h ↦ some (in_group h req w api)
  ]
