-- ===== src/Common/Power/Laws.antt =====
-- ExpSquaring computes powers.
use Prim.Native.Nat.{two}
use native.Mathlib.Nat.{
  pow-suc, pow-zero, two-pow-succ, mul-add-mod_self_left, div-add-mod, mul_assoc, mul_comm,
}
use hermeshooks.Prelude.{
  ℕ, zero, suc, ◌+◌, ◌-◌, ◌*◌, ◌/◌, ◌%◌, ◌^◌, ◌<◌, ◌≡◌, refl, ap, sym, ◌∙◌, none, some, arith, leb,
  ◌==◌, if◌then◌else◌, Bool-cases, inl, inr, true, false,
}
use hermeshooks.Common.Power.{
  two_63, two_64, mul64, neg64, recip64, above_one, exp_loop, exp_from, exp_squaring,
}

mod-mul_left : (a b m : ℕ) → a % m * b % m ≡ a * b % m
mod-mul_left a b m = sym (
    ap (λ (t : ℕ). t * b % m) (sym (div-add-mod a m))
    ∙ ap (λ (t : ℕ). t % m) regroup
    ∙ mul-add-mod_self_left m (a / m * b) (a % m * b))
  where
    regroup : (m * (a / m) + a % m) * b ≡ m * (a / m * b) + a % m * b
    regroup = omega arith

pow-mul_self : (x k : ℕ) → (x * x) ^ k ≡ x ^ (k + k)
pow-mul_self x zero = rw (pow-zero (x * x), pow-zero x) refl
pow-mul_self x (suc k) =
    let e : suc k + suc k ≡ suc (suc (k + k)) = omega arith in
    rw (e, pow-suc (x * x) k, pow-suc x (suc (k + k)), pow-suc x (k + k), pow-mul_self x k)
      (sym (mul_assoc (x ^ (k + k)) x x))

mod-pow : (a k y m : ℕ) → (a % m) ^ k * y % m ≡ a ^ k * y % m
mod-pow a zero y m = rw (pow-zero (a % m), pow-zero a) refl
mod-pow a (suc k) y m =
    let r = a % m in
    let left : r ^ suc k * y ≡ r ^ k * (r * y) = rw (pow-suc r k) (mul_assoc (r ^ k) r y) in
    let right : a ^ suc k * y ≡ a * (a ^ k * y) = rw (pow-suc a k) (omega arith) in
    let turn : a ^ k * (r * y) ≡ r * (a ^ k * y) = omega arith in
    rw (left, right)
      (mod-pow a k (r * y) m ∙ ap (λ (t : ℕ). t % m) turn ∙ mod-mul_left a (a ^ k * y) m)

mod-mul_right : (a b m : ℕ) → a * (b % m) % m ≡ a * b % m
mod-mul_right a b m =
    let swap : a * (b % m) ≡ b % m * a = mul_comm a (b % m) in
    let back : b * a ≡ a * b = mul_comm b a in
    ap (λ (t : ℕ). t % m) swap ∙ mod-mul_left b a m ∙ ap (λ (t : ℕ). t % m) back

pow-one : (x : ℕ) → x ^ 1 ≡ x
pow-one x = pow-suc x zero ∙ ap (λ (t : ℕ). t * x) (pow-zero x) ∙ omega arith

square-power : (x k y n : ℕ) → n ≡ k + k → (x * x % two_64) ^ k * y % two_64 ≡ x ^ n * y % two_64
square-power x k y n e =
    mod-pow (x * x) k y two_64
    ∙ ap (λ (t : ℕ). t * y % two_64) (pow-mul_self x k ∙ ap (λ (t : ℕ). x ^ t) (sym e))

odd-power :
    (x k y n : ℕ) → n ≡ suc (k + k) → x ^ (k + k) * (x * y % two_64) % two_64 ≡ x ^ n * y % two_64
odd-power x k y n e =
    mod-mul_right (x ^ (k + k)) (x * y) two_64
    ∙ ap (λ (t : ℕ). t % two_64)
        (sym (mul_assoc (x ^ (k + k)) x y)
          ∙ ap (λ (t : ℕ). t * y) (sym (pow-suc x (k + k)) ∙ ap (λ (t : ℕ). x ^ t) (sym e)))

-- The loop multiplies `y` by a power.
loop-power :
    (fuel x y n : ℕ)
    → 0 < n
    → n < two ^ fuel
    → n < two_63
    → exp_loop fuel x y n ≡ some (x ^ n * y % two_64)
unfolding exp_loop
loop-power zero x y n pos small w = absurd (omega (arith, pow-zero two))
loop-power (suc fuel) x y n pos small w = elim (Bool-cases (above_one n)) [
  | inl more ↦ elim (Bool-cases (n % 2 == 0)) [
    | inl even ↦
        let k = n / 2 in
        let halves : n ≡ k + k = ground arith in
        rw (more, even)
          (loop-power fuel (mul64 x x) y k (ground arith) (omega (arith, two-pow-succ fuel))
              (omega arith)
            ∙ ap some (square-power x k y n halves))
    | inr odd ↦
        let k = (n - 1) / 2 in
        let halves : n ≡ suc (k + k) = ground arith in
        rw (more, odd)
          (loop-power fuel (mul64 x x) (mul64 x y) k (ground arith)
              (omega (arith, two-pow-succ fuel)) (omega arith)
            ∙ ap some (square-power x k (mul64 x y) (k + k) refl ∙ odd-power x k y n halves))
  ]
  | inr done ↦ let one : n ≡ 1 = ground arith in rw (done, one, pow-one x) refl
]

exp_from-power : (x n : ℕ) → n < two_63 → exp_from x n ≡ some (x ^ n % two_64)
unfolding exp_from
exp_from-power x zero k = rw (pow-zero x) refl
exp_from-power x (suc n) k =
    let positive : (suc n == 0) ≡ false = ground arith in
    let small : suc n < two ^ 64 = omega arith in
    let unit : x ^ suc n * 1 ≡ x ^ suc n = omega arith in
    rw positive
      (loop-power 64 x 1 (suc n) (omega arith) small k ∙ ap (λ (t : ℕ). some (t % two_64)) unit)

-- For every base, and every exponent that an `int` holds and is not negative, ExpSquaring returns,
-- and its result is the power modulo 2 ^ 64.
pub exp_squaring_power : (x n : ℕ) → n < two_63 → exp_squaring x n ≡ some (x ^ n % two_64)
unfolding exp_squaring
exp_squaring_power x n k =
    let nonneg : leb two_63 n ≡ false = ground arith in rw nonneg (exp_from-power x n k)

-- For a negative exponent -m ExpSquaring panics exactly on base 0; on any other base the result is the
-- power of the truncated inverse: of 1 for 1, of -1 for -1, and of 0 for the rest.
exp_squaring_negative :
    (x m : ℕ)
    → 0 < m
    → m < two_63
    → exp_squaring x (neg64 m) ≡ (if x == 0 then none else some (recip64 x ^ m % two_64))
unfolding exp_squaring
exp_squaring_negative x m pos k =
    let negative : leb two_63 (neg64 m) ≡ true = ground arith in
    let back : neg64 (neg64 m) ≡ m = omega arith in
    rw (negative, back, exp_from-power (recip64 x) m k) refl
