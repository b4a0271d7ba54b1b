-- ===== src/Workers/Registry.antt =====
-- A Go map with string keys, as an association list. Ranging over it in another order is a
-- permutation of the list.
use text.Mathlib.Text.{◌==◌}
use text.Mathlib.TextEquality.{eq_iff}
use hermeshooks.Prelude.{
  String, ◌≡◌, refl, ap, inl, inr, Bool-cases, Option, none, some, List, [], ◌∷◌, map, arith,
  if◌then◌else◌,
}

abbrev pub Map : Type 0 → Type 0
Map V = List (String × V)

module _ {V : Type 0} where
  unfoldable pub lookup : String → Map V → Option V
  lookup k [] = none
  lookup k ((j, v) ∷ m) = if j == k then some v else lookup k m

  -- m[k] = v: in place, or in front if the key is new.
  replace : String → V → Map V → Map V
  replace k v [] = []
  replace k v ((j, w) ∷ m) = if j == k then (k, v) ∷ m else (j, w) ∷ replace k v m

  unfoldable pub insert : String → V → Map V → Map V
  unfolding replace
  insert k v m = elim (lookup k m) [ none ↦ (k, v) ∷ m | some w ↦ replace k v m ]

  pub delete : String → Map V → Map V
  delete k [] = []
  delete k ((j, v) ∷ m) = let rest = delete k m in if j == k then rest else (j, v) ∷ rest

  abbrev instead : V → Option V → Option V
  instead v none = none
  instead v (some w) = some v

  lookup-replace :
      (k j : String) (v : V) (m : Map V)
      → lookup j (replace k v m) ≡ (if k == j then instead v (lookup j m) else lookup j m)
  unfolding lookup replace
  lookup-replace k j v [] = ground arith
  lookup-replace k j v ((i, x) ∷ m) =
      ground (arith, eq_iff k j, eq_iff i k, eq_iff i j, lookup-replace k j v m)

  pub lookup-insert :
      (k j : String) (v : V) (m : Map V)
      → lookup j (insert k v m) ≡ (if k == j then some v else lookup j m)
  unfolding lookup insert
  lookup-insert k j v m = ground (arith, eq_iff k j, lookup-replace k j v m)

  pub lookup-delete :
      (k j : String) (m : Map V) → lookup j (delete k m) ≡ (if k == j then none else lookup j m)
  unfolding lookup delete
  lookup-delete k j [] = ground arith
  lookup-delete k j ((i, x) ∷ m) =
      ground (arith, eq_iff k j, eq_iff i k, eq_iff i j, lookup-delete k j m)

  -- A new value that a function does not tell from the old one.
  module _ {B : Type 0} (g : V → B) where
    map-replace :
        (k : String) (v w : V) (m : Map V)
        → lookup k m ≡ some w
        → g v ≡ g w
        → map (λ p. g p.1) (replace k v m) ≡ map (λ p. g p.1) m
    unfolding lookup replace
    map-replace k v w [] found same = refl
    map-replace k v w ((j, x) ∷ m) found same = elim (Bool-cases (j == k)) [
      | inl hit ↦ ground arith
      | inr miss ↦ rw miss (ap (◌∷◌ (g x)) (map-replace k v w m (rw miss at found) same))
    ]

    pub map-insert :
        (k : String) (v w : V) (m : Map V)
        → lookup k m ≡ some w
        → g v ≡ g w
        → map (λ p. g p.1) (insert k v m) ≡ map (λ p. g p.1) m
    unfolding insert
    map-insert k v w m found same =
        let e : insert k v m ≡ replace k v m = ground arith in rw e (map-replace k v w m found same)
