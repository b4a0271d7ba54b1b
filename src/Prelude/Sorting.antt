-- ===== src/Prelude/Sorting.antt =====
-- ORDER BY: insertion sort by a number, with what a query that sorts and then takes the first rows
-- relies on.
use Prim.Native.Nat.{ℕ, zero, suc, ◌≤◌}
use mathlib.Core.Path.{◌≡◌, refl, ap}
use mathlib.Core.Logic.{inl, inr}
use mathlib.Core.List.Memᴰ
use mathlib.Core.List.Permᴰ
use mathlib.Core.List.{List, [], ◌∷◌, Memᴰ, Permᴰ}
use mathlib.Core.Option.{some}
use native.Mathlib.Omega.{arith}
use hermeshooks.Prelude.Tests.{leb, if◌then◌else◌, Bool-cases}
use hermeshooks.Prelude.Lists.{All, All-mem, mem-drop, take, drop, head?, last?}

module _ {ℓ} {A : Type ℓ} where
  insert_by : (A → ℕ) → A → List A → List A
  insert_by key a [] = a ∷ []
  insert_by key a (x ∷ xs) =
      let later = x ∷ insert_by key a xs in if leb (key a) (key x) then a ∷ x ∷ xs else later

  -- ORDER BY, ascending; rows with the same key keep their order.
  unfoldable pub sort_by : (A → ℕ) → List A → List A
  unfolding insert_by
  sort_by key [] = []
  sort_by key (x ∷ xs) = insert_by key x (sort_by key xs)

module _ {ℓ} {A : Type ℓ} (key : A → ℕ) where
  -- Ascending by the key.
  abbrev pub IsSorted : List A → Type 0
  IsSorted [] = Unit
  IsSorted (x ∷ xs) = All (λ y. key x ≤ key y) xs × IsSorted xs

  mem-insert_by : (x : A) (xs : List A) {a : A} → Memᴰ a (insert_by key x xs) → Memᴰ a (x ∷ xs)
  unfolding insert_by
  mem-insert_by x [] m = m
  mem-insert_by x (y ∷ ys) m = elim (Bool-cases (leb (key x) (key y))) [
    | inl e ↦ rw e at m
    | inr e ↦ elim (Memᴰ.cases_cons (rw e at m)) [
      | inl d ↦ Memᴰ.tail (Memᴰ.head d)
      | inr n ↦ elim (Memᴰ.cases_cons (mem-insert_by x ys n)) [
        | inl d ↦ Memᴰ.head d
        | inr k ↦ Memᴰ.tail (Memᴰ.tail k)
      ]
    ]
  ]

  mem-insert_by_of_mem :
      (x : A) (xs : List A) {a : A} → Memᴰ a (x ∷ xs) → Memᴰ a (insert_by key x xs)
  unfolding insert_by
  mem-insert_by_of_mem x [] m = m
  mem-insert_by_of_mem x (y ∷ ys) m = elim (Bool-cases (leb (key x) (key y))) [
    | inl e ↦ rw e m
    | inr e ↦ rw e (elim (Memᴰ.cases_cons m) [
      | inl d ↦ Memᴰ.tail (mem-insert_by_of_mem x ys (Memᴰ.head d))
      | inr n ↦ elim (Memᴰ.cases_cons n) [
        | inl d ↦ Memᴰ.head d
        | inr k ↦ Memᴰ.tail (mem-insert_by_of_mem x ys (Memᴰ.tail k))
      ]
    ])
  ]

  pub mem-sort_by : (xs : List A) {a : A} → Memᴰ a (sort_by key xs) → Memᴰ a xs
  unfolding sort_by
  mem-sort_by [] m = m
  mem-sort_by (x ∷ xs) m = elim (Memᴰ.cases_cons (mem-insert_by x (sort_by key xs) m)) [
    | inl e ↦ Memᴰ.head e
    | inr n ↦ Memᴰ.tail (mem-sort_by xs n)
  ]

  pub mem-sort_by_of_mem : (xs : List A) {a : A} → Memᴰ a xs → Memᴰ a (sort_by key xs)
  unfolding sort_by
  mem-sort_by_of_mem [] m = m
  mem-sort_by_of_mem (x ∷ xs) (Memᴰ.head e) = mem-insert_by_of_mem x (sort_by key xs) (Memᴰ.head e)
  mem-sort_by_of_mem (x ∷ xs) (Memᴰ.tail m) =
      mem-insert_by_of_mem x (sort_by key xs) (Memᴰ.tail (mem-sort_by_of_mem xs m))

  insert_by-Permᴰ : (x : A) (xs : List A) → Permᴰ (insert_by key x xs) (x ∷ xs)
  unfolding insert_by
  insert_by-Permᴰ x [] = Permᴰ.refl (x ∷ [])
  insert_by-Permᴰ x (y ∷ ys) = elim (Bool-cases (leb (key x) (key y))) [
    | inl e ↦ rw e (Permᴰ.refl (x ∷ y ∷ ys))
    | inr e ↦ rw e (Permᴰ.trans (Permᴰ.cons refl (insert_by-Permᴰ x ys)) (Permᴰ.swap refl refl))
  ]

  -- Sorting keeps the rows.
  pub sort_by-Permᴰ : (xs : List A) → Permᴰ (sort_by key xs) xs
  unfolding sort_by
  sort_by-Permᴰ [] = Permᴰ.nil
  sort_by-Permᴰ (x ∷ xs) =
      Permᴰ.trans (insert_by-Permᴰ x (sort_by key xs)) (Permᴰ.cons refl (sort_by-Permᴰ xs))

  All-insert_by :
      (n : ℕ) (x : A) (xs : List A)
      → n ≤ key x
      → All (λ y. n ≤ key y) xs
      → All (λ y. n ≤ key y) (insert_by key x xs)
  unfolding insert_by
  All-insert_by n x [] h hs = (h, tt)
  All-insert_by n x (y ∷ ys) h hs = elim (Bool-cases (leb (key x) (key y))) [
    | inl e ↦ rw e (h, hs)
    | inr e ↦ rw e (hs.0, All-insert_by n x ys h hs.1)
  ]

  All-weaken : (m n : ℕ) (xs : List A) → m ≤ n → All (λ y. n ≤ key y) xs → All (λ y. m ≤ key y) xs
  All-weaken m n [] h hs = tt
  All-weaken m n (x ∷ xs) h hs = (omega arith, All-weaken m n xs h hs.1)

  insert_by-IsSorted : (x : A) (xs : List A) → IsSorted xs → IsSorted (insert_by key x xs)
  unfolding insert_by
  insert_by-IsSorted x [] s = (tt, tt)
  insert_by-IsSorted x (y ∷ ys) s = elim (Bool-cases (leb (key x) (key y))) [
    | inl e ↦
        let h : key x ≤ key y = ground arith in rw e ((h, All-weaken (key x) (key y) ys h s.0), s)
    | inr e ↦
        let h : key y ≤ key x = ground arith in
        rw e (All-insert_by (key y) x ys h s.0, insert_by-IsSorted x ys s.1)
  ]

  pub sort_by-IsSorted : (xs : List A) → IsSorted (sort_by key xs)
  unfolding sort_by
  sort_by-IsSorted [] = tt
  sort_by-IsSorted (x ∷ xs) = insert_by-IsSorted x (sort_by key xs) (sort_by-IsSorted xs)

  -- The first of a sorted list is least.
  pub head-le :
      (xs : List A) {h a : A} → IsSorted xs → head? xs ≡ some h → Memᴰ a xs → key h ≤ key a
  head-le [] s e m = elim m [ ]
  head-le (x ∷ xs) {h} {a} s e (Memᴰ.head d) =
      let p : x ≡ h = ground arith in omega (arith, ap key p, ap key d)
  head-le (x ∷ xs) {h} {a} s e (Memᴰ.tail m) =
      let p : x ≡ h = ground arith in
      omega (arith, ap key p, All-mem (λ y. key x ≤ key y) xs {a = a} s.0 m)

  -- No row past the limit has a key below the last row within it.
  pub last-le-drop :
      (n : ℕ) (xs : List A) {l a : A}
      → IsSorted xs
      → last? (take n xs) ≡ some l
      → Memᴰ a (drop n xs)
      → key l ≤ key a
  last-le-drop zero xs s e m = cc
  last-le-drop (suc n) [] s e m = elim m [ ]
  last-le-drop (suc zero) (x ∷ xs) {l} {a} s e m =
      let p : x ≡ l = ground arith in
      omega (arith, ap key p, All-mem (λ y. key x ≤ key y) xs {a = a} s.0 m)
  last-le-drop (suc (suc n)) (x ∷ []) s e m = elim m [ ]
  last-le-drop (suc (suc n)) (x ∷ y ∷ ys) s e m = last-le-drop (suc n) (y ∷ ys) s.1 e m

  -- A row within the limit is no greater than one past it.
  pub take-le-drop :
      (n : ℕ) (xs : List A) {a b : A}
      → IsSorted xs
      → Memᴰ a (take n xs)
      → Memᴰ b (drop n xs)
      → key a ≤ key b
  take-le-drop zero xs s m d = elim m [ ]
  take-le-drop (suc n) [] s m d = elim d [ ]
  take-le-drop (suc n) (x ∷ xs) {a} {b} s (Memᴰ.head e) d =
      omega (arith, ap key e, All-mem (λ y. key x ≤ key y) xs {a = b} s.0 (mem-drop n xs d))
  take-le-drop (suc n) (x ∷ xs) {a} {b} s (Memᴰ.tail m) d =
      take-le-drop n xs {a = a} {b = b} s.1 m d
