-- ===== src/Rest/Router/Keys.antt =====
-- What the API's guards keep out.
use text.Mathlib.Text.{◌==◌ as str_eq}
use text.Mathlib.TextEquality.{eq_iff}
use hermeshooks.Prelude.{
  ◌≡◌, ◌≢◌, ◌⊎◌, inl, inr, refl, ap, String, Option, none, some, List, [], ◌∷◌, arith, Bool-cases,
  Option-cases,
}
use mathlib.Core.Path.{subst}
use hermeshooks.Auth.{internal_api}
use hermeshooks.Rest.{
  HandlerError, failure, validation_error, get, post, delete, Method, Req, Writer, new_writer, Api,
  Env, Handled, finished, Handler, write_empty,
}
use hermeshooks.Rest.Errors.{
  error_handler, answer_error, accepted_content_type, is_accepted, new_http_error, write_error,
}
use hermeshooks.Rest.Router.{
  Config, with_key, routes, get_routes, post_routes, delete_routes, in_group, serve,
}

-- Where the internal key is needed.
abbrev IsInternal : String → Type 0
IsInternal group = (group ≡ "users") ⊎ (group ≡ "workers")

module _ (c : Config) (env : Env) where
  abbrev NeedsKey : Option Handler → Type 0
  NeedsKey none = Unit
  NeedsKey (some h) = (k : Handler) × (h ≡ with_key c.auth k)

  -- Every route of an internal group asks for the key first.
  users-NeedsKey : (m : Method) (rest : List String) → NeedsKey (routes c env m ("users" ∷ rest))
  unfolding routes get_routes post_routes delete_routes
  users-NeedsKey get [] = tt
  users-NeedsKey get (x ∷ []) = tt
  users-NeedsKey get (x ∷ y ∷ r) = tt
  users-NeedsKey post [] = (_, refl)
  users-NeedsKey post (x ∷ []) = tt
  users-NeedsKey post (x ∷ y ∷ []) = tt
  users-NeedsKey post (x ∷ y ∷ z ∷ r) = tt
  users-NeedsKey delete [] = tt
  users-NeedsKey delete (x ∷ []) = tt
  users-NeedsKey delete (x ∷ y ∷ r) = tt

  workers-NeedsKey :
      (m : Method) (rest : List String) → NeedsKey (routes c env m ("workers" ∷ rest))
  unfolding routes get_routes post_routes delete_routes
  workers-NeedsKey get [] = tt
  workers-NeedsKey get (x ∷ []) = tt
  workers-NeedsKey get (x ∷ y ∷ r) = tt
  workers-NeedsKey post [] = (_, refl)
  workers-NeedsKey post (x ∷ []) = tt
  workers-NeedsKey post (x ∷ y ∷ []) = elim (Bool-cases (str_eq y "health")) [
    | inl e ↦ rw e (_, refl)
    | inr e ↦ rw e tt
  ]
  workers-NeedsKey post (x ∷ y ∷ z ∷ r) = tt
  workers-NeedsKey delete [] = tt
  workers-NeedsKey delete (x ∷ []) = (_, refl)
  workers-NeedsKey delete (x ∷ y ∷ r) = tt

  routes-NeedsKey :
      (m : Method) (group : String) (rest : List String)
      → IsInternal group
      → NeedsKey (routes c env m (group ∷ rest))
  routes-NeedsKey m group rest (inl e) = rw e (users-NeedsKey m rest)
  routes-NeedsKey m group rest (inr e) = rw e (workers-NeedsKey m rest)

  with_key_refuses :
      (k : Handler) (req : Req) (w : Writer) (api : Api)
      → req.headers.api_key ≢ c.auth.internal_api_key
      → with_key c.auth k req w api ≡ finished none (write_empty 401 w) api
  unfolding with_key internal_api
  with_key_refuses k req w api n =
      elim (Bool-cases (str_eq req.headers.api_key c.auth.internal_api_key)) [
        | inl e ↦ absurd (n ((eq_iff _ _).0 e))
        | inr e ↦ ground arith
      ]

  -- The answer to a request that is kept out.
  pub record Refused (req : Req) (api : Api) (h : Handled) : Type 0 where
    pub error : Option HandlerError
    pub writer : Writer
    pub unchanged : h ≡ finished error writer api
    pub code :
        ((writer.status ≡ 401) × (writer.values ≡ []))
        ⊎ ((writer.status ≡ 400) × (req.content_type ≢ "application/json"))

  in_group-Refused :
      (k : Handler) (req : Req) (api : Api)
      → req.headers.api_key ≢ c.auth.internal_api_key
      → Refused req api (in_group c env (with_key c.auth k) req new_writer api)
  unfolding in_group error_handler accepted_content_type is_accepted write_error new_http_error
  in_group-Refused k req api n = elim (Bool-cases (str_eq "application/json" req.content_type)) [
    | inl json ↦ record {
      error = none;
      writer = record { status = 401; values = [] };
      unchanged = rw json (ap answer_error (with_key_refuses k req new_writer api n));
      code = inl (refl, refl);
    }
    | inr other ↦ record {
      error = some (validation_error "Header value Content-Type must be application/json");
      writer = record {
        status = 400;
        values = failure "Header value Content-Type must be application/json" ∷ [];
      };
      unchanged = rw other refl;
      code = inr (refl, λ e. ground (arith, eq_iff "application/json" req.content_type));
    }
  ]

  -- A request to /users or /workers without the internal key, whatever its method and the rest of its
  -- path, changes nothing if a route fits it: it is answered with 401 and no body, or with 400, and then
  -- its content type was not JSON.
  pub serve-Refused :
      (req : Req) (group : String) (rest : List String) (api : Api) (h : Handled)
      → IsInternal group
      → req.path ≡ group ∷ rest
      → req.headers.api_key ≢ c.auth.internal_api_key
      → serve c env req new_writer api ≡ some h
      → Refused req api h
  unfolding serve
  serve-Refused req group rest api h internal path wrong served =
      elim (Option-cases (routes c env req.method req.path)) [
        | inl missing ↦ absurd (let q : none ≡ some h = ground arith in cc)
        | inr (r, found) ↦
            let asked : NeedsKey (routes c env req.method req.path) =
              rw path (routes-NeedsKey req.method group rest internal) in
            let (k, e) = subst (λ o. NeedsKey o) found asked in
            let same : in_group c env r req new_writer api ≡ h = ground arith in
            rw (← same, e) (in_group-Refused k req api wrong)
      ]
