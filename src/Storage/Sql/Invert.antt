-- ===== src/Storage/Sql/Invert.antt =====
-- Inversion of a block of statements that returned: each statement returned, in turn.
use hermeshooks.Prelude.{ℕ, ◌≡◌, refl, arith}
use hermeshooks.Storage.Sql.{
  Server, World, Tables, Result, ok, err, Sql, after, ◌>>=◌, trip, statement, read, write,
}

-- `m >>= f` returned `b`: `m` returned some `a`, and `f a` went on from there.
pub record Steps {A B : Type 0} (m : Sql A) (f : A → Sql B) (w : World) (b : B) : Type 0 where
  pub value : A
  pub first : (m w).0 ≡ ok value
  pub then_ok : (f value (m w).1).0 ≡ ok b
  pub same : (m >>= f) w ≡ f value (m w).1

pub bind-ok :
    {A B : Type 0} (m : Sql A) (f : A → Sql B) (w : World) {b : B}
    → ((m >>= f) w).0 ≡ ok b
    → Steps m f w b
bind-ok {A} {B} m f w {b} h = go (m w).0 refl
  where
    go : (r : Result A) → (m w).0 ≡ r → Steps m f w b
    go (ok a) e = record { value = a; first = e; then_ok = rw e at h; same = rw e refl }
    go (err x) e = let q : (after f (err x) (m w).1).0 ≡ ok b = rw e at h in cc

module _ (srv : Server) where
  pub read-ok :
      {A : Type 0} (f : ℕ → Tables → A) (w : World) {a : A}
      → (read srv f w).0 ≡ ok a
      → (a ≡ f (trip w).trips w.tables) × ((read srv f w).1 ≡ trip w)
  unfolding statement
  read-ok f w h = ground arith

  pub write-ok :
      (f : ℕ → Tables → Tables) (w : World) {u : Unit {0}}
      → (write srv f w).0 ≡ ok u
      → (write srv f w).1.tables ≡ f (trip w).trips w.tables
  unfolding statement
  write-ok f w h = ground arith
