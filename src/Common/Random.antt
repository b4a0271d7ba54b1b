-- ===== src/Common/Random.antt =====
-- RandomString of internal/common/common.go. crypto/rand is `read`, and `hex` is fmt's verb %X.
pub mod Sizes
use Prim.Native.String.{count}
use hermeshooks.Prelude.{ℕ, ◌*◌, ◌≡◌, String, Option, none, some, length}
use hermeshooks.Cryptoutils.{Bytes, Read}

-- What fmt documents of %X: two characters for each byte.
abbrev pub IsHex : (Bytes → String) → Type 0
IsHex hex = (b : Bytes) → count (hex b) ≡ 2 * length b

-- `none` is the panic.
pub random_string : (Bytes → String) → Read → ℕ → Option String
random_string hex read n = elim (read n) [ none ↦ none | some b ↦ some (hex b) ]
