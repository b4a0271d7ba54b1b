-- ===== src/Cryptoutils/Sizes.antt =====
-- Keys and their hashes have 44 characters, as many as their column.
use Prim.Native.String.{count}
use hermeshooks.Prelude.{◌≡◌, String, some, inl, inr, Option-cases, arith}
use hermeshooks.Cryptoutils.{Crypto, IsCrypto, Read, Fills, api_key_size, sha256, x_api_key}

module _ (c : Crypto) (laws : IsCrypto c) where
  pub sha256-count : (s : String) → count (sha256 c s) ≡ 44
  unfolding sha256
  sha256-count s =
      let digest = c.sum256 (c.bytes_of s) in
      omega (arith, laws.count-encode digest, laws.length-sum256 (c.bytes_of s))

  pub x_api_key-count :
      (read : Read) {key : String} → Fills read → x_api_key c read ≡ some key → count key ≡ 44
  unfolding x_api_key
  x_api_key-count read {key} fills e = elim (Option-cases (read api_key_size)) [
    | inl failed ↦ absurd (ground arith)
    | inr (b, got) ↦
        let same : key ≡ c.encode b = ground arith in
        rw same (omega (arith, laws.count-encode b, fills api_key_size b got))
  ]
