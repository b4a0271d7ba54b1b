-- ===== src/Cryptoutils.antt =====
-- internal/cryptoutils/cryptoutils.go: keys and hashes. crypto/rand, crypto/sha256, encoding/base64 and bcrypt
-- are the parameter `Crypto`. Bytes are numbers; a password and a key are texts.
pub mod Sizes
use Prim.Native.String.{count}
use hermeshooks.Prelude.{ℕ, ◌+◌, ◌*◌, ◌/◌, String, ◌≡◌, Bool, Option, none, some, List, length}

abbrev pub Bytes : Type 0
Bytes = List ℕ

-- `bytes_of` is Go's conversion of a text. `generate_from_password` and `compare_hash` are bcrypt's, without
-- the reason of a failure. `encode` is base64.URLEncoding.
pub record Crypto : Type 0 where
  pub bytes_of : String → Bytes
  pub generate_from_password : Bytes → ℕ → Option Bytes
  pub compare_hash : Bytes → Bytes → Bool
  pub sum256 : Bytes → Bytes
  pub encode : Bytes → String

-- What the libraries document: a digest of SHA-256 has 32 bytes, and three bytes are four characters.
pub record IsCrypto (c : Crypto) : Type 0 where
  pub length-sum256 : (b : Bytes) → length (c.sum256 b) ≡ 32
  pub count-encode : (b : Bytes) → count (c.encode b) ≡ 4 * ((length b + 2) / 3)

-- bcrypt.DefaultCost
abbrev hash_cost : ℕ
hash_cost = 10

abbrev pub api_key_size : ℕ
api_key_size = 32

-- What rand.Read does with a slice of `n` bytes: it fills it, or fails.
abbrev pub Read : Type 0
Read = ℕ → Option Bytes

abbrev pub Fills : Read → Type 0
Fills read = (n : ℕ) (b : Bytes) → read n ≡ some b → length b ≡ n

-- `none` is the error of rand.Read.
unfoldable pub random_bytes : Read → ℕ → Option Bytes
random_bytes read n = read n

module _ (c : Crypto) where
  unfoldable hash_password : String → Option Bytes
  hash_password password = c.generate_from_password (c.bytes_of password) hash_cost

  unfoldable compare_hash_and_password : Bytes → String → Bool
  compare_hash_and_password hashed password = c.compare_hash hashed (c.bytes_of password)

  unfoldable pub sha256 : String → String
  sha256 s = c.encode (c.sum256 (c.bytes_of s))

  -- XApiKey; `none` is its panic.
  unfoldable pub x_api_key : Read → Option String
  unfolding random_bytes
  x_api_key read = elim (random_bytes read api_key_size) [
    | none ↦ none
    | some b ↦ some (c.encode b)
  ]
