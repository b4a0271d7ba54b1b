-- ===== src/Common/Random/Sizes.antt =====
-- How long a random text is.
use Prim.Native.String.{count}
use hermeshooks.Prelude.{ℕ, ◌*◌, ◌≡◌, String, some, inl, inr, Option-cases, arith}
use hermeshooks.Cryptoutils.{Bytes, Read, Fills}
use hermeshooks.Common.Random.{IsHex, random_string}

random_string-count :
    (hex : Bytes → String) (read : Read) (n : ℕ) {s : String}
    → IsHex hex
    → Fills read
    → random_string hex read n ≡ some s
    → count s ≡ 2 * n
unfolding random_string
random_string-count hex read n {s} is_hex fills e = elim (Option-cases (read n)) [
  | inl failed ↦ absurd (ground arith)
  | inr (b, got) ↦
      let same : s ≡ hex b = ground arith in rw same (omega (arith, is_hex b, fills n b got))
]
