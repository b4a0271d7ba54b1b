-- ===== src/Worker/Pipeline/Counts.antt =====
-- How many jobs of a kind are in each part of the pipeline.
use hermeshooks.Prelude.{
  ℕ, suc, ◌+◌, ◌≡◌, Bool, Option, none, some, List, [], ◌∷◌, ◌++◌, arith, if◌then◌else◌, length,
}
use hermeshooks.Entities
use hermeshooks.Worker.Pipeline.{Jobs}

module _ (q : Entities.ScheduledJob → Bool) where
  abbrev pub one : Entities.ScheduledJob → ℕ
  one j = if q j then 1 else 0

  unfoldable pub count : Jobs → ℕ
  count [] = 0
  count (j ∷ js) = one j + count js

  unfoldable pub total : List Jobs → ℕ
  total [] = 0
  total (js ∷ rest) = count js + total rest

  abbrev pub in_hand : Option Entities.ScheduledJob → ℕ
  in_hand none = 0
  in_hand (some j) = one j

  pub count-append : (xs ys : Jobs) → count (xs ++ ys) ≡ count xs + count ys
  unfolding count
  count-append [] ys = omega arith
  count-append (x ∷ xs) ys = omega (arith, count-append xs ys)

  pub count-middle :
      (xs ys : Jobs) (j : Entities.ScheduledJob) → count (xs ++ j ∷ ys) ≡ one j + count (xs ++ ys)
  unfolding count
  count-middle [] ys j = omega arith
  count-middle (x ∷ xs) ys j = omega (arith, count-middle xs ys j)

  pub count-last : (xs : Jobs) (j : Entities.ScheduledJob) → count (xs ++ j ∷ []) ≡ one j + count xs
  unfolding count
  count-last [] j = omega arith
  count-last (x ∷ xs) j = omega (arith, count-last xs j)

  pub total-middle :
      (newer older : List Jobs) (j : Entities.ScheduledJob) (js : Jobs)
      → total (newer ++ (j ∷ js) ∷ older) ≡ one j + total (newer ++ js ∷ older)
  unfolding total count
  total-middle [] older j js = omega arith
  total-middle (xs ∷ newer) older j js = omega (arith, total-middle newer older j js)

pub length-middle :
    (xs ys : Jobs) (j : Entities.ScheduledJob) → length (xs ++ j ∷ ys) ≡ suc (length (xs ++ ys))
length-middle [] ys j = omega arith
length-middle (x ∷ xs) ys j = omega (arith, length-middle xs ys j)

pub length-last : (xs : Jobs) (j : Entities.ScheduledJob) → length (xs ++ j ∷ []) ≡ suc (length xs)
length-last [] j = omega arith
length-last (x ∷ xs) j = omega (arith, length-last xs j)
