-- ===== src/Auth.antt =====
-- internal/services/auth/auth.go: who may use the API. `sha256` (internal/cryptoutils/cryptoutils.go)
-- and the random key of a signup are parameters.
pub mod Access
pub mod Keys
use Prim.Native.String.{◌++◌ as append}
use text.Mathlib.Text.{◌==◌ as str_eq}
use hermeshooks.Prelude.{ℕ, String, ◌≡◌, Bool, true, false, not, Option, none, some, if◌then◌else◌}
use hermeshooks.Entities
use hermeshooks.Entities.{Time}
use hermeshooks.Storage.Sql.{Server, World, Error, Result, ok, err, Sql, transact, ◌>>=◌, pure}
use hermeshooks.Storage.Queries.{
  insert_user, get_user_by_api_key, user_exists, get_user_by_user_name,
}

pub record AuthService : Type 0 where
  pub rapid_api_key : String
  pub internal_api_key : String

pub record Config : Type 0 where
  pub rapid_api_key : String
  pub internal_api_key : String

-- New, which never fails.
unfoldable pub new : Config → AuthService
new cfg = record { rapid_api_key = cfg.rapid_api_key; internal_api_key = cfg.internal_api_key }

-- The headers that the service reads; Header.Get of a header that is not there is the empty text.
pub record Headers : Type 0 where
  pub rapid_proxy_secret : String
  pub rapid_user : String
  pub api_key : String

pub data AuthError : Type 0 where
  unauthorized : AuthError
  storage_error : Error → AuthError

pub data Auth : Type 0 where
  granted : Entities.User → Auth
  denied : AuthError → Auth

-- What the middleware does: the next handler runs for a user, or a status code is written.
pub data Answer : Type 0 where
  next : Entities.User → Answer
  status : ℕ → Answer

abbrev pub is_rapid_api_req : Headers → Bool
is_rapid_api_req h = not (str_eq h.rapid_proxy_secret "")

abbrev pub new_user : String → String → Time → Entities.User
new_user username api_key now = record {
  id = 0;
  username = username;
  api_key = api_key;
  created_at = now;
}

abbrev pub stored_auth : Result Entities.User → Auth
stored_auth (ok u) = granted u
stored_auth (err e) = denied (storage_error e)

-- localAuth turns every error into ErrUnauthorized.
abbrev pub key_auth : Result Entities.User → Auth
key_auth (ok u) = granted u
key_auth (err e) = denied unauthorized

module _ (srv : Server) (sha256 : String → String) where
  pub known_or_new : Bool → String → Time → Sql Entities.User
  known_or_new true username now = get_user_by_user_name srv username
  known_or_new false username now = insert_user srv sha256 (new_user username "" now)

  -- The user of a RapidAPI name, who is created at the first request.
  pub find_or_create : String → Time → Sql Entities.User
  unfolding known_or_new
  find_or_create username now = do
    exists ← user_exists srv username
    known_or_new exists username now

  pub rapid_api_auth : AuthService → Headers → Time → World → Auth × World
  unfolding find_or_create
  rapid_api_auth a h now w =
      if not (str_eq h.rapid_proxy_secret a.rapid_api_key)
      then (denied unauthorized, w)
      else if str_eq h.rapid_user ""
      then (denied unauthorized, w)
      else let (r, w') = transact srv (find_or_create (append "rapid_api_" h.rapid_user) now) w in
        (stored_auth r, w')

  pub local_auth : Headers → World → Auth × World
  local_auth h w =
      if str_eq h.api_key ""
      then (denied unauthorized, w)
      else let (r, w') = get_user_by_api_key srv sha256 h.api_key w in (key_auth r, w')

  pub answer_of : Auth → Answer
  answer_of (granted u) = next u
  answer_of (denied unauthorized) = status 401
  answer_of (denied (storage_error e)) = status 500

  pub auth_middleware : AuthService → Headers → Time → World → Answer × World
  unfolding rapid_api_auth local_auth answer_of
  auth_middleware a h now w =
      let (auth, w') = if is_rapid_api_req h then rapid_api_auth a h now w else local_auth h w in
      (answer_of auth, w')

  -- The key is returned whether or not the user was stored.
  pub signup : String → String → Time → World → (String × Option Error) × World
  signup username key now w =
      let (r, w') = insert_user srv sha256 (new_user username key now) w in
      ((key, elim r [ ok u ↦ none | err e ↦ some e ]), w')

-- InternalApi: the handler runs, or 401 is written.
unfoldable pub internal_api : AuthService → Headers → Option ℕ
internal_api a h = if not (str_eq h.api_key a.internal_api_key) then some 401 else none
