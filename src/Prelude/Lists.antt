-- ===== src/Prelude/Lists.antt =====
-- Lists measured by native numbers, under the library's names.
use Prim.Native.Nat.{ℕ, zero, suc, ◌≤◌}
use mathlib.Core.Path.{◌≡◌, refl, sym, ap, ◌∙◌, subst}
use mathlib.Core.Logic.{◌⊎◌, inl, inr}
use mathlib.Core.List.{List, [], ◌∷◌, map, Memᴰ, Permᴰ}
use mathlib.Core.Option.{Option, none, some}
use native.Mathlib.Omega.{arith}

module _ {ℓ} {A : Type ℓ} where
  abbrev pub length : List A → ℕ
  length [] = 0
  length (x ∷ xs) = suc (length xs)

  abbrev pub take : ℕ → List A → List A
  take zero xs = []
  take (suc n) [] = []
  take (suc n) (x ∷ xs) = x ∷ take n xs

  abbrev pub drop : ℕ → List A → List A
  drop zero xs = xs
  drop (suc n) [] = []
  drop (suc n) (x ∷ xs) = drop n xs

  abbrev pub head? : List A → Option A
  head? [] = none
  head? (x ∷ xs) = some x

  abbrev pub last? : List A → Option A
  last? [] = none
  last? (x ∷ []) = some x
  last? (x ∷ y ∷ ys) = last? (y ∷ ys)

  -- A predicate on every entry, which computes to a tuple.
  abbrev pub All {κ} : (A → Type κ) → List A → Type κ
  All P [] = Unit
  All P (x ∷ xs) = P x × All P xs

module _ {ℓ} {A : Type ℓ} where
  pub length-map {κ} : {B : Type κ} (f : A → B) (xs : List A) → length (map f xs) ≡ length xs
  length-map f [] = refl
  length-map f (x ∷ xs) = ap suc (length-map f xs)

  pub mem-take : {a : A} (n : ℕ) (xs : List A) → Memᴰ a (take n xs) → Memᴰ a xs
  mem-take zero xs m = elim m [ ]
  mem-take (suc n) [] m = elim m [ ]
  mem-take (suc n) (x ∷ xs) (Memᴰ.head e) = Memᴰ.head e
  mem-take (suc n) (x ∷ xs) (Memᴰ.tail m) = Memᴰ.tail (mem-take n xs m)

  -- An entry is among the first `n` or among the others.
  pub mem-take-drop :
      {a : A} (n : ℕ) (xs : List A) → Memᴰ a xs → Memᴰ a (take n xs) ⊎ Memᴰ a (drop n xs)
  mem-take-drop zero xs m = inr m
  mem-take-drop (suc n) [] m = inr m
  mem-take-drop (suc n) (x ∷ xs) (Memᴰ.head e) = inl (Memᴰ.head e)
  mem-take-drop (suc n) (x ∷ xs) (Memᴰ.tail m) = elim (mem-take-drop n xs m) [
    | inl t ↦ inl (Memᴰ.tail t)
    | inr d ↦ inr d
  ]

  pub mem-drop : {a : A} (n : ℕ) (xs : List A) → Memᴰ a (drop n xs) → Memᴰ a xs
  mem-drop zero xs m = m
  mem-drop (suc n) [] m = m
  mem-drop (suc n) (x ∷ xs) m = Memᴰ.tail (mem-drop n xs m)

  -- If the limit cuts something off, it is reached.
  pub length-take_of_drop :
      {a : A} (n : ℕ) (xs : List A) → Memᴰ a (drop n xs) → length (take n xs) ≡ n
  length-take_of_drop zero xs m = refl
  length-take_of_drop (suc n) [] m = elim m [ ]
  length-take_of_drop (suc n) (x ∷ xs) m = ap suc (length-take_of_drop n xs m)

  pub length-take-le : (n : ℕ) (xs : List A) → length (take n xs) ≤ n
  length-take-le zero xs = omega arith
  length-take-le (suc n) [] = omega arith
  length-take-le (suc n) (x ∷ xs) = omega (arith, length-take-le n xs)

  pub mem-perm : {a : A} {xs ys : List A} → Permᴰ xs ys → Memᴰ a xs → Memᴰ a ys
  mem-perm Permᴰ.nil m = m
  mem-perm (Permᴰ.cons e p) (Memᴰ.head d) = Memᴰ.head (d ∙ e)
  mem-perm (Permᴰ.cons e p) (Memᴰ.tail m) = Memᴰ.tail (mem-perm p m)
  mem-perm (Permᴰ.swap e f) (Memᴰ.head d) = Memᴰ.tail (Memᴰ.head (d ∙ e))
  mem-perm (Permᴰ.swap e f) (Memᴰ.tail (Memᴰ.head d)) = Memᴰ.head (d ∙ f)
  mem-perm (Permᴰ.swap e f) (Memᴰ.tail (Memᴰ.tail m)) = Memᴰ.tail (Memᴰ.tail m)
  mem-perm (Permᴰ.trans p q) m = mem-perm q (mem-perm p m)

  pub All-mem {κ} : (P : A → Type κ) (xs : List A) {a : A} → All P xs → Memᴰ a xs → P a
  All-mem P [] h m = elim m [ ]
  All-mem P (x ∷ xs) h (Memᴰ.head e) = subst P (sym e) h.0
  All-mem P (x ∷ xs) h (Memᴰ.tail m) = All-mem P xs h.1 m

  pub All-of_mem {κ} : (P : A → Type κ) (xs : List A) → ((a : A) → Memᴰ a xs → P a) → All P xs
  All-of_mem P [] h = tt
  All-of_mem P (x ∷ xs) h = (h x (Memᴰ.head refl), All-of_mem P xs (λ a m. h a (Memᴰ.tail m)))

module _ {ℓ} {A : Type ℓ} where
  pub mem-last : (xs : List A) {l : A} → last? xs ≡ some l → Memᴰ l xs
  mem-last [] e = cc
  mem-last (x ∷ []) {l} e = let d : l ≡ x = ground arith in Memᴰ.head d
  mem-last (x ∷ y ∷ ys) e = Memᴰ.tail (mem-last (y ∷ ys) e)

  pub mem-head : (xs : List A) {h : A} → head? xs ≡ some h → Memᴰ h xs
  mem-head [] e = cc
  mem-head (x ∷ xs) {h} e = let d : h ≡ x = ground arith in Memᴰ.head d

  last_of_mem : (xs : List A) {a : A} → Memᴰ a xs → (l : A) × (last? xs ≡ some l)
  last_of_mem [] m = elim m [ ]
  last_of_mem (x ∷ []) m = (x, refl)
  last_of_mem (x ∷ y ∷ ys) m = last_of_mem (y ∷ ys) (Memᴰ.head refl)

  pub head_of_mem : (xs : List A) {a : A} → Memᴰ a xs → (h : A) × (head? xs ≡ some h)
  head_of_mem [] m = elim m [ ]
  head_of_mem (x ∷ xs) m = (x, refl)

  -- What lies past a limit leaves something within it, if the limit is not zero.
  pub last_of_drop :
      (n : ℕ) (xs : List A) {a : A}
      → Memᴰ a (drop (suc n) xs)
      → (l : A) × (last? (take (suc n) xs) ≡ some l)
  last_of_drop n [] m = elim m [ ]
  last_of_drop n (x ∷ xs) m = last_of_mem (x ∷ take n xs) (Memᴰ.head refl)

  pub take_all : (n : ℕ) (xs : List A) → length xs ≤ n → take n xs ≡ xs
  take_all zero [] h = refl
  take_all zero (x ∷ xs) h = absurd (omega arith)
  take_all (suc n) [] h = refl
  take_all (suc n) (x ∷ xs) h = ap (◌∷◌ x) (take_all n xs (omega arith))
