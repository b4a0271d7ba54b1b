-- ===== src/Auth/Keys.antt =====
-- Signup with a key of XApiKey, hashed by Sha256: the key and its hash fit their columns, so the only
-- ways to be refused are a name that is too long or taken, and a hash that is already there.
use Prim.Native.String.{count}
use text.Mathlib.Text.{◌==◌ as str_eq}
use text.Mathlib.TextEquality.{eq_iff}
use hermeshooks.Prelude.{ℕ, ◌≤◌, ◌≡◌, refl, String, false, none, some, inl, inr, Bool-cases, arith}
use hermeshooks.Entities.{Time}
use hermeshooks.Cryptoutils.{Crypto, IsCrypto, Read, Fills, sha256, x_api_key}
use hermeshooks.Cryptoutils.Sizes.{sha256-count, x_api_key-count}
use hermeshooks.Storage.Models.{from_entities_user}
use hermeshooks.Storage.Sql.{Server, World, Tables}
use hermeshooks.Storage.Columns.{admit_user, has_username, has_key}
use hermeshooks.Auth.{AuthService, Headers, next, auth_middleware, signup}
use hermeshooks.Auth.Access.{signed_up, kept_user, signup_auth}

nonempty_of_count : (key : String) → count key ≡ 44 → str_eq key "" ≡ false
nonempty_of_count key e = elim (Bool-cases (str_eq key "")) [
  | inl h ↦
      let same : key ≡ "" = (eq_iff key "").0 h in
      let none_left : count key ≡ 0 = rw same refl in absurd (omega arith)
  | inr h ↦ h
]

module _ (srv : Server) (c : Crypto) (laws : IsCrypto c) where
  admit-signed_up :
      (t : Tables) (username key : String) (now : Time)
      → str_eq key "" ≡ false
      → count username ≤ 100
      → has_username username t.users ≡ false
      → has_key (some (sha256 c key)) t.users ≡ false
      → admit_user srv t (signed_up srv (sha256 c) username key now)
        ≡ some (kept_user srv (sha256 c) username key now)
  unfolding admit_user from_entities_user
  admit-signed_up t username key now nonempty short free unused =
      let size = sha256-count c laws key in
      ground (arith, srv.varchar_fits 100 username short, srv.varchar_fits 44 (sha256 c key))

  -- If no round trip fails, the key is one that XApiKey makes of the bytes that it reads, the name has at most
  -- 100 characters and is not taken, and no user has the hash of the key, then a signup succeeds, and a
  -- request with its key and no RapidAPI secret runs the next handler as the user that the signup stored,
  -- whose key the handler never sees, and whose time of creation is as its column keeps it.
  pub signup_with_key :
      (a : AuthService) (h : Headers) (read : Read) (username key : String) (now later : Time)
      (w : World)
      → ((n : ℕ) → srv.fails n ≡ false)
      → Fills read
      → x_api_key c read ≡ some key
      → count username ≤ 100
      → has_username username w.tables.users ≡ false
      → has_key (some (sha256 c key)) w.tables.users ≡ false
      → h.rapid_proxy_secret ≡ ""
      → h.api_key ≡ key
      → (w1 : World) × (signup srv (sha256 c) username key now w ≡ ((key, none), w1))
        × ((auth_middleware srv (sha256 c) a h later w1).0
            ≡ next (record {
              id = w.user_seq;
              username = username;
              api_key = "";
              created_at = srv.timestamp now;
            }))
  signup_with_key a h read username key now later w live fills made short free unused direct same =
      let nonempty = nonempty_of_count key (x_api_key-count c laws read fills made) in
      signup_auth srv (sha256 c) a h username key now later w live nonempty
        (admit-signed_up w.tables username key now nonempty short free unused) direct same
