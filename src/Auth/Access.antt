-- ===== src/Auth/Access.antt =====
-- Who gets in: a user with the key of a signup, and a RapidAPI user, always as the same user.
use Prim.Native.String.{◌++◌ as append}
use text.Mathlib.Text.{◌==◌ as str_eq}
use text.Mathlib.TextEquality.{eq_iff}
use hermeshooks.Prelude.{
  ℕ, suc, ◌+◌, ◌≡◌, refl, Bool, true, false, String, none, some, List, [], ◌∷◌, ◌++◌, arith,
  select_where, head?, Bool-cases, ◌⊎◌, inl, inr,
}
use hermeshooks.Entities
use hermeshooks.Entities.{Time}
use hermeshooks.Storage.Models.{User, from_entities_user, to_entities_user}
use hermeshooks.Storage.Sql.{trip, Server, World, Tables, ok, statement, begin, commit, transact}
use hermeshooks.Storage.Columns.{IsCut, admit_user, has_username, has_key, key_is}
use hermeshooks.Storage.Queries.{
  insert_user, insert_user_row, get_user_by_api_key, user_exists, get_user_by_user_name,
}
use hermeshooks.Auth.{
  AuthService, Headers, next, new_user, auth_middleware, signup, rapid_api_auth, local_auth,
  find_or_create, known_or_new, answer_of,
}

-- A key that no row has is found at an appended row only.
keyed-append :
    (key : String) (us : List User) (u : User)
    → has_key (some key) us ≡ false
    → key_is u.api_key key ≡ true
    → head? (select_where (λ v. key_is v.api_key key) (us ++ u ∷ [])) ≡ some u
unfolding has_key select_where
keyed-append key [] u h k = ground arith
keyed-append key (x ∷ us) u h k = ground (arith, keyed-append key us u)

admit_user-key :
    (srv : Server) (t : Tables) (u : User) (key : String) {row : User}
    → u.api_key ≡ some key
    → row.api_key ≡ some key
    → admit_user srv t u ≡ some row
    → has_key (some key) t.users ≡ false
unfolding admit_user
admit_user-key srv t u key {row} e same h = ground arith

abbrev pub is_named : String → User → Bool
is_named name u = str_eq u.username name

named-head :
    (name : String) (us : List User)
    → has_username name us ≡ true
    → (u : User) × (head? (select_where (is_named name) us) ≡ some u)
unfolding has_username select_where
named-head name [] h = absurd (cc)
named-head name (x ∷ us) h = elim (Bool-cases (is_named name x)) [
  | inl hit ↦ (x, ground arith)
  | inr miss ↦ let (u, e) = named-head name us (ground arith) in (u, ground arith)
]

named-append :
    (name : String) (us : List User) (u : User)
    → has_username name us ≡ false
    → is_named name u ≡ true
    → (has_username name (us ++ u ∷ []) ≡ true)
      × (head? (select_where (is_named name) (us ++ u ∷ [])) ≡ some u)
unfolding has_username select_where
named-append name [] u h k = (ground arith, ground arith)
named-append name (x ∷ us) u h k = ground (arith, named-append name us u)

module _ (srv : Server) (sha256 : String → String) where
  abbrev pub signed_up : String → String → Time → User
  signed_up username key now = from_entities_user sha256 (new_user username key now)

  -- The row, with the time that its column keeps of `now`.
  abbrev pub kept_user : String → String → Time → User
  kept_user username key now = signed_up username key (srv.timestamp now)

  -- A request with the key of a stored user, and no RapidAPI secret.
  pub record KeyOf (h : Headers) (w : World) (u : User) : Type 0 where
    pub direct : h.rapid_proxy_secret ≡ ""
    pub given : str_eq h.api_key "" ≡ false
    pub found :
        head? (select_where (λ v. key_is v.api_key (sha256 h.api_key)) w.tables.users) ≡ some u

  pub key_auth_lem :
      (a : AuthService) (h : Headers) (now : Time) (w : World) (u : User)
      → ((n : ℕ) → srv.fails n ≡ false)
      → KeyOf h w u
      → auth_middleware srv sha256 a h now w ≡ (next (to_entities_user u), trip w)
  unfolding auth_middleware local_auth answer_of get_user_by_api_key statement
  key_auth_lem a h now w u live key =
      ground (arith, live w.trips, eq_iff h.rapid_proxy_secret "", key.direct, key.given, key.found)

  -- If no round trip fails, the key is not empty and the schema takes the user as it is, then a signup
  -- succeeds, and a request with its key and no RapidAPI secret runs the next handler as the user that
  -- the signup stored, whose key the handler never sees.
  pub signup_auth :
      (a : AuthService) (h : Headers) (username key : String) (now later : Time) (w : World)
      → ((n : ℕ) → srv.fails n ≡ false)
      → str_eq key "" ≡ false
      → admit_user srv w.tables (signed_up username key now) ≡ some (kept_user username key now)
      → h.rapid_proxy_secret ≡ ""
      → h.api_key ≡ key
      → (w1 : World) × (signup srv sha256 username key now w ≡ ((key, none), w1))
        × ((auth_middleware srv sha256 a h later w1).0
            ≡ next (record {
              id = w.user_seq;
              username = username;
              api_key = "";
              created_at = srv.timestamp now;
            }))
  unfolding signup auth_middleware local_auth answer_of insert_user insert_user_row
      get_user_by_api_key statement from_entities_user to_entities_user
  signup_auth a h username key now later w live nonempty admitted direct same =
      let u : User = record (kept_user username key now) { id = w.user_seq } in
      let fresh =
        admit_user-key srv w.tables (signed_up username key now) (sha256 key) (ground arith)
          (ground arith) admitted in
      let one =
        keyed-append (sha256 key) w.tables.users u fresh
          (ground (arith, eq_iff (sha256 key) (sha256 key))) in
      (
        record w {
          tables = record (w.tables) { users = w.tables.users ++ u ∷ [] };
          trips = suc w.trips;
          user_seq = suc w.user_seq;
        },
        ground (arith, live w.trips),
        ground (arith, live (suc w.trips), eq_iff h.rapid_proxy_secret "", eq_iff h.api_key key),
      )

  abbrev Known : String → Time → World → Type 0
  Known name now w =
      (u : Entities.User) × (w' : World) × (transact srv (find_or_create srv sha256 name now) w
        ≡ (ok u, w'))
      × (w'.open_tx ≡ none)
      × (has_username name w'.tables.users ≡ true)
      × ((row : User) × (head? (select_where (is_named name) w'.tables.users) ≡ some row)
          × (to_entities_user row ≡ record u { created_at = row.created_at })
          × ((row.created_at ≡ u.created_at) ⊎ (row.created_at ≡ srv.timestamp u.created_at)))

  -- A name that is there is found, and nothing changes.
  found_again :
      (name : String) (now : Time) (w : World) (row : User)
      → ((n : ℕ) → srv.fails n ≡ false)
      → has_username name w.tables.users ≡ true
      → head? (select_where (is_named name) w.tables.users) ≡ some row
      → transact srv (find_or_create srv sha256 name now) w
        ≡ (ok (to_entities_user row), record w { open_tx = none; trips = 4 + w.trips })
  unfolding transact begin commit statement find_or_create known_or_new user_exists
      get_user_by_user_name
  found_again name now w row live known found =
      ground (arith, live w.trips, live (1 + w.trips), live (2 + w.trips), live (3 + w.trips))

  created :
      (name : String) (now : Time) (w : World)
      → ((n : ℕ) → srv.fails n ≡ false)
      → has_username name w.tables.users ≡ false
      → admit_user srv w.tables (signed_up name "" now) ≡ some (kept_user name "" now)
      → Known name now w
  unfolding transact begin commit statement find_or_create known_or_new user_exists insert_user
      insert_user_row from_entities_user to_entities_user
  created name now w live missing admitted =
      let row : User = record (kept_user name "" now) { id = w.user_seq } in
      let (known, one) =
        named-append name w.tables.users row missing (ground (arith, eq_iff name name)) in
      (
        to_entities_user (record row { created_at = now }),
        record w {
          tables = record (w.tables) { users = w.tables.users ++ row ∷ [] };
          open_tx = none;
          trips = 4 + w.trips;
          user_seq = suc w.user_seq;
        },
        ground (arith, live w.trips, live (1 + w.trips), live (2 + w.trips), live (3 + w.trips)),
        refl,
        known,
        (row, one, refl, inr refl),
      )

  Known-user :
      (name : String) (now : Time) (w : World)
      → ((n : ℕ) → srv.fails n ≡ false)
      → (has_username name w.tables.users ≡ true)
        ⊎ (admit_user srv w.tables (signed_up name "" now) ≡ some (kept_user name "" now))
      → Known name now w
  unfolding to_entities_user
  Known-user name now w live h = elim (Bool-cases (has_username name w.tables.users)) [
    | inl known ↦
        let (row, e) = named-head name w.tables.users known in
        (
          to_entities_user row,
          record w { open_tx = none; trips = 4 + w.trips },
          found_again name now w row live known e,
          refl,
          known,
          (row, e, refl, inl refl),
        )
    | inr missing ↦ created name now w live missing (ground arith)
  ]

  -- The proxy's secret is not empty, no round trip fails, and the name is known or the schema
  -- takes it: the first request of a RapidAPI user with that secret runs the handler as a user,
  -- who is created if need be, and a later request runs it as the same user (but for less than a
  -- microsecond that is cut off the time of its creation) and changes no table.
  pub rapid_same_user :
      (a : AuthService) (h : Headers) (now later : Time) (w : World)
      → ((n : ℕ) → srv.fails n ≡ false)
      → str_eq a.rapid_api_key "" ≡ false
      → str_eq h.rapid_user "" ≡ false
      → h.rapid_proxy_secret ≡ a.rapid_api_key
      → let name = append "rapid_api_" h.rapid_user in
        (has_username name w.tables.users ≡ true)
          ⊎ (admit_user srv w.tables (signed_up name "" now) ≡ some (kept_user name "" now))
        → (u : Entities.User) × (w1 : World) × (auth_middleware srv sha256 a h now w ≡ (next u, w1))
          × ((kept : Time) × ((auth_middleware srv sha256 a h later w1).0
                ≡ next (record u { created_at = kept }))
              × IsCut u.created_at kept)
          × ((auth_middleware srv sha256 a h later w1).1.tables ≡ w1.tables)
  unfolding auth_middleware rapid_api_auth answer_of
  rapid_same_user a h now later w live secret named same known =
      let name = append "rapid_api_" h.rapid_user in
      let (u, w1, e, closed, there, (row, f, g, cut)) = Known-user name now w live known in
      let again = found_again name later w1 row live there f in
      let refl_secret = eq_iff h.rapid_proxy_secret a.rapid_api_key in
      let near : IsCut u.created_at row.created_at = elim cut [
        | inl same ↦ (omega arith, omega arith)
        | inr same ↦ rw same (srv.timestamp_cuts u.created_at)
      ] in
      (u, w1, ground arith, (row.created_at, ground arith, near), ground arith)
