-- ===== src/Rest/Users.antt =====
-- internal/rest/user_handler.go: signing a user up.
use Prim.Native.String.{len}
use hermeshooks.Prelude.{String, Option, none, some, ltb, ◌==◌}
use hermeshooks.Storage.Sql.{Server}
use hermeshooks.Auth.{signup}
use hermeshooks.Rest.{api_key, Json, HandlerError, other, Env, finished, Handler, write_json}
use hermeshooks.Rest.Errors.{bind}
use hermeshooks.Rest.Jobs.{reject_if}

-- SignupPayload.Validate
validate_signup : String → Option HandlerError
validate_signup username =
    reject_if (len username == 0) "username is mandatory"
      (reject_if (ltb 100 (len username)) "username cannot be more than 100 characters" none)

module _ (srv : Server) (sha256 : String → String) (env : Env) where
  signup_user : String → Handler
  signup_user username req w api =
      let ((key, error), db) = signup srv sha256 username env.new_key env.now api.db in
      elim error [
        | some e ↦ finished (some other) w (record api { db = db })
        | none ↦ finished none (write_json 201 (api_key key) w) (record api { db = db })
      ]

  create_valid_user : String → Handler
  unfolding validate_signup signup_user
  create_valid_user username req w api = elim (validate_signup username) [
    | some e ↦ finished (some e) w api
    | none ↦ signup_user username req w api
  ]

  unfoldable pub create_user : Json → Handler
  unfolding create_valid_user
  create_user json req = bind (json.decode_username req.body) create_valid_user req
