-- ===== src/Common/Power.antt =====
-- ExpSquaring. An `int` is its 64-bit pattern, so a product is taken modulo 2 ^ 64, and a pattern from
-- 2 ^ 63 on is negative. The loop halves `n`, so 64 rounds are enough; `none` is a panic.
pub mod Laws
use hermeshooks.Prelude.{
  ℕ, zero, suc, ◌+◌, ◌-◌, ◌*◌, ◌/◌, ◌%◌, ◌^◌, Bool, ◌&&◌, Option, none, some, ltb, leb, ◌==◌,
  if◌then◌else◌,
}

abbrev pub two_63 : ℕ
two_63 = 9_223_372_036_854_775_808

abbrev pub two_64 : ℕ
two_64 = 18_446_744_073_709_551_616

abbrev pub mul64 : ℕ → ℕ → ℕ
mul64 a b = a * b % two_64

abbrev pub is_negative : ℕ → Bool
is_negative n = leb two_63 n

abbrev pub neg64 : ℕ → ℕ
neg64 n = (two_64 - n) % two_64

-- `1 / x`, truncated toward zero, for x other than 0.
abbrev pub recip64 : ℕ → ℕ
recip64 x = if x == 1 then 1 else if x == two_64 - 1 then two_64 - 1 else 0

-- `n > 1`
abbrev pub above_one : ℕ → Bool
above_one n = ltb 1 n && ltb n two_63

unfoldable pub exp_loop : ℕ → ℕ → ℕ → ℕ → Option ℕ
exp_loop zero x y n = none
exp_loop (suc fuel) x y n =
    let even = exp_loop fuel (mul64 x x) y (n / 2) in
    let odd = exp_loop fuel (mul64 x x) (mul64 x y) ((n - 1) / 2) in
    let halved = if n % 2 == 0 then even else odd in
    if above_one n then halved else some (mul64 x y)

unfoldable pub exp_from : ℕ → ℕ → Option ℕ
exp_from x n = if n == 0 then some 1 else exp_loop 64 x 1 n

unfoldable pub exp_squaring : ℕ → ℕ → Option ℕ
exp_squaring x n =
    if is_negative n
    then (if x == 0 then none else exp_from (recip64 x) (neg64 n))
    else exp_from x n
