-- ===== src/Prelude/Rows.antt =====
-- Lists read as tables: the rows that a test keeps, the rows that an update rewrites, an order by
-- a number, and a limit. The clauses of a query of internal/storage/db.go are built from these.
use Prim.Native.Nat.{ℕ, zero, suc, ◌≤◌}
use mathlib.Core.Path.{◌≡◌, refl, sym, ap, ◌∙◌}
use mathlib.Core.Logic.{inl, inr}
use mathlib.Core.Bool.{Bool, true, false, ◌||◌}
use mathlib.Core.List.Memᴰ
use mathlib.Core.List.{List, [], ◌∷◌, Memᴰ, Permᴰ}
use native.Mathlib.Omega.{arith}
use hermeshooks.Prelude.Tests.{◌==◌, ==_iff, if◌then◌else◌, Bool-cases}
use hermeshooks.Prelude.Lists.{All, length, take, take_all}

-- IN (...), over numbers.
unfoldable pub contains : List ℕ → ℕ → Bool
contains [] a = false
contains (x ∷ xs) a = x == a || contains xs a

pub mem-contains : (xs : List ℕ) (a : ℕ) → Memᴰ a xs → contains xs a ≡ true
unfolding contains
mem-contains [] a m = elim m [ ]
mem-contains (x ∷ xs) a (Memᴰ.head e) = ground arith
mem-contains (x ∷ xs) a (Memᴰ.tail m) = ground (arith, mem-contains xs a m)

contains-mem : (xs : List ℕ) (a : ℕ) → contains xs a ≡ true → Memᴰ a xs
unfolding contains
contains-mem [] a h = cc
contains-mem (x ∷ xs) a h = elim (Bool-cases (x == a)) [
  | inl e ↦ Memᴰ.head (sym ((==_iff x a).0 e))
  | inr e ↦ Memᴰ.tail (contains-mem xs a (ground arith))
]

module _ {ℓ} {A : Type ℓ} where
  -- WHERE
  unfoldable pub select_where : (A → Bool) → List A → List A
  select_where p [] = []
  select_where p (x ∷ xs) = let rest = select_where p xs in if p x then x ∷ rest else rest

  -- UPDATE ... SET ... WHERE
  unfoldable pub update_where : (A → Bool) → (A → A) → List A → List A
  update_where p f [] = []
  update_where p f (x ∷ xs) = (if p x then f x else x) ∷ update_where p f xs

  -- LIMIT, which the query builder writes for a positive number only.
  unfoldable pub limit : ℕ → List A → List A
  limit zero xs = xs
  limit (suc n) xs = take (suc n) xs

module _ {ℓ} {A : Type ℓ} where
  pub mem-select_where :
      (p : A → Bool) (xs : List A) {a : A} → Memᴰ a (select_where p xs) → Memᴰ a xs × (p a ≡ true)
  unfolding select_where
  mem-select_where p [] m = elim m [ ]
  mem-select_where p (x ∷ xs) {a} m = elim (Bool-cases (p x)) [
    | inl e ↦ elim (Memᴰ.cases_cons (rw e at m)) [
      | inl d ↦ (Memᴰ.head d, ap p d ∙ e)
      | inr n ↦ let (k, t) = mem-select_where p xs {a = a} n in (Memᴰ.tail k, t)
    ]
    | inr e ↦ let (k, t) = mem-select_where p xs {a = a} (rw e at m) in (Memᴰ.tail k, t)
  ]

  pub mem-select_where_of_mem :
      (p : A → Bool) (xs : List A) {a : A} → Memᴰ a xs → p a ≡ true → Memᴰ a (select_where p xs)
  unfolding select_where
  mem-select_where_of_mem p [] m h = elim m [ ]
  mem-select_where_of_mem p (x ∷ xs) (Memᴰ.head e) h = rw (ap p (sym e) ∙ h) (Memᴰ.head e)
  mem-select_where_of_mem p (x ∷ xs) (Memᴰ.tail m) h = elim (Bool-cases (p x)) [
    | inl e ↦ rw e (Memᴰ.tail (mem-select_where_of_mem p xs m h))
    | inr e ↦ rw e (mem-select_where_of_mem p xs m h)
  ]

  -- An updated row is an old row that the test leaves, or the image of one that it selects.
  pub mem-update_where :
      (p : A → Bool) (f : A → A) (xs : List A) {a : A}
      → Memᴰ a (update_where p f xs)
      → (b : A) × Memᴰ b xs × (a ≡ (if p b then f b else b))
  unfolding update_where
  mem-update_where p f [] m = elim m [ ]
  mem-update_where p f (x ∷ xs) (Memᴰ.head e) = (x, Memᴰ.head refl, e)
  mem-update_where p f (x ∷ xs) (Memᴰ.tail m) =
      let (b, k, e) = mem-update_where p f xs m in (b, Memᴰ.tail k, e)

  pub mem-update_where_of_mem :
      (p : A → Bool) (f : A → A) (xs : List A) {b : A}
      → Memᴰ b xs
      → Memᴰ (if p b then f b else b) (update_where p f xs)
  unfolding update_where
  mem-update_where_of_mem p f [] m = elim m [ ]
  mem-update_where_of_mem p f (x ∷ xs) (Memᴰ.head e) =
      Memᴰ.head (ap (λ y. if p y then f y else y) e)
  mem-update_where_of_mem p f (x ∷ xs) (Memᴰ.tail m) = Memᴰ.tail (mem-update_where_of_mem p f xs m)

  pub length-update_where :
      (p : A → Bool) (f : A → A) (xs : List A) → length (update_where p f xs) ≡ length xs
  unfolding update_where
  length-update_where p f [] = refl
  length-update_where p f (x ∷ xs) = ap suc (length-update_where p f xs)

  pub update_where_none :
      (p : A → Bool) (f : A → A) (xs : List A) → ((a : A) → p a ≡ false) → update_where p f xs ≡ xs
  unfolding update_where
  update_where_none p f [] h = refl
  update_where_none p f (x ∷ xs) h = rw (h x) (ap (◌∷◌ x) (update_where_none p f xs h))

  pub limit_all : (n : ℕ) (xs : List A) → length xs ≤ n → limit n xs ≡ xs
  unfolding limit
  limit_all zero xs h = refl
  limit_all (suc n) xs h = take_all (suc n) xs h

  pub select_where-All :
      (p : A → Bool) (xs : List A) → All (λ a. p a ≡ true) xs → select_where p xs ≡ xs
  unfolding select_where
  select_where-All p [] h = refl
  select_where-All p (x ∷ xs) h = rw h.0 (ap (◌∷◌ x) (select_where-All p xs h.1))

  -- What an update counts no more often than before.
  pub length-select-update :
      (q p : A → Bool) (f : A → A) (xs : List A)
      → ((a : A) → q (f a) ≡ true → q a ≡ true)
      → length (select_where q (update_where p f xs)) ≤ length (select_where q xs)
  unfolding select_where update_where
  length-select-update q p f [] h = omega arith
  length-select-update q p f (x ∷ xs) h = ground (arith, length-select-update q p f xs h, h x)

  -- When at most one row is selected, the order of the rows does not matter.
  pub select_where-perm :
      (p : A → Bool) {xs ys : List A}
      → Permᴰ xs ys
      → length (select_where p ys) ≤ 1
      → select_where p xs ≡ select_where p ys
  unfolding select_where
  select_where-perm p Permᴰ.nil h = refl
  select_where-perm p (Permᴰ.cons e q) h = ground (arith, select_where-perm p q)
  select_where-perm p (Permᴰ.swap e f) h = ground arith
  select_where-perm p (Permᴰ.trans q r) h =
      let same = select_where-perm p r h in select_where-perm p q (rw same h) ∙ same
