-- ===== src/Tests/Answers.antt =====
-- What the server answers with the internal key.
use hermeshooks.Prelude.{◌≡◌, refl, String, Option, none, some, List, [], ◌∷◌}
use hermeshooks.Auth.{Headers, internal_api}
use hermeshooks.Workers.{un_register, new}
use hermeshooks.Workers.Registry.{lookup}
use hermeshooks.Rest.{
  Value, failure, public_key, health, Method, get, post, delete, Req, new_writer, Handled, finished,
}
use hermeshooks.Rest.Errors.{error_handler, accepted_content_type, write_error, new_http_error}
use hermeshooks.Rest.Users.{create_user}
use hermeshooks.Rest.Health.{get_health, get_meta}
use hermeshooks.Rest.Workers.{un_register_worker}
use hermeshooks.Rest.Router.{with_key, serve}
use hermeshooks.Tests.Api.{config, env, api}

abbrev internal_headers : Headers
internal_headers = record { rapid_proxy_secret = ""; rapid_user = ""; api_key = "internal" }

abbrev request : Method → List String → String → Req
request m path body = record {
  method = m;
  path = path;
  content_type = "application/json";
  headers = internal_headers;
  body = body;
  user = none;
}

abbrev answer_of : Option Handled → List Value
answer_of (some (finished e w s)) = w.values
answer_of handled = []

-- A user without a name.
nameless :
    answer_of (serve config env (request post ("users" ∷ []) "") new_writer api)
    ≡ failure "username is mandatory" ∷ []
unfolding serve create_user error_handler accepted_content_type with_key internal_api write_error
    new_http_error
nameless = refl

meta :
    answer_of (serve config env (request get ("meta" ∷ []) "") new_writer api) ≡ public_key "" ∷ []
unfolding serve get_meta error_handler accepted_content_type
meta = refl

healthy :
    answer_of (serve config env (request get ("health" ∷ []) "") new_writer api)
    ≡ health api.cache.last_response ∷ []
unfolding serve get_health error_handler accepted_content_type
healthy = refl

left : answer_of (serve config env (request delete ("workers" ∷ "ada" ∷ []) "") new_writer api) ≡ []
unfolding serve un_register_worker un_register lookup new error_handler accepted_content_type
    with_key internal_api
left = refl

unrouted : serve config env (request delete ("users" ∷ []) "") new_writer api ≡ none
unfolding serve
unrouted = refl
