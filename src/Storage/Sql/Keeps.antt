-- ===== src/Storage/Sql/Keeps.antt =====
-- Predicates on the tables that a block of statements keeps, whether it returns or fails: one rule
-- for each way to build a block.
use hermeshooks.Prelude.{ℕ, ◌≡◌, refl, Bool, true, false, if◌then◌else◌, Bool-cases, inl, inr}
use hermeshooks.Storage.Sql.{
  Server, World, Tables, Result, ok, err, Sql, pure, after, ◌>>=◌, trip, statement, read, write,
}

pub record Keeps {A : Type 0} (P : Tables → Type 0) (m : Sql A) : Type 0 where
  pub at : (w : World) → P w.tables → P (m w).1.tables

module _ {P : Tables → Type 0} where
  pub Keeps-pure : {A : Type 0} (a : A) → Keeps P (pure a)
  Keeps-pure a = record { at = λ w h. h }

  pub Keeps-bind :
      {A B : Type 0} (m : Sql A) (f : A → Sql B)
      → Keeps P m
      → ((a : A) → Keeps P (f a))
      → Keeps P (m >>= f)
  Keeps-bind {A} {B} m f km kf = record { at = λ w h. go (m w).0 (m w).1 (km.at w h) }
    where
      go : (r : Result A) (w : World) → P w.tables → P (after f r w).1.tables
      go (ok a) w h = (kf a).at w h
      go (err e) w h = h

  -- The rest of the block may use that `m` returned `a`.
  pub Keeps-bind_ok :
      {A B : Type 0} (m : Sql A) (f : A → Sql B)
      → Keeps P m
      → ((w : World) (a : A) → (m w).0 ≡ ok a → Keeps P (f a))
      → Keeps P (m >>= f)
  Keeps-bind_ok {A} {B} m f km kf = record { at = λ w h. go w (m w).0 refl (km.at w h) }
    where
      go :
          (w : World) (r : Result A)
          → (m w).0 ≡ r
          → P (m w).1.tables
          → P (after f r (m w).1).1.tables
      go w (ok a) e h = (kf w a e).at (m w).1 h
      go w (err x) e h = h

  -- Each branch may use the test that it is under.
  pub Keeps-if :
      {A : Type 0} (test : Bool) (then_block else_block : Sql A)
      → ((e : test ≡ true) → Keeps P then_block)
      → ((e : test ≡ false) → Keeps P else_block)
      → Keeps P (if test then then_block else else_block)
  Keeps-if test then_block else_block k l = elim (Bool-cases test) [
    | inl e ↦ rw e (k e)
    | inr e ↦ rw e (l e)
  ]

  pub Keeps-read : {A : Type 0} (srv : Server) (f : ℕ → Tables → A) → Keeps P (read srv f)
  unfolding statement
  Keeps-read srv f = record {
    at = λ w h. elim (Bool-cases (srv.fails w.trips)) [ inl e ↦ rw e h | inr e ↦ rw e h ];
  }

  pub Keeps-write :
      (srv : Server) (f : ℕ → Tables → Tables)
      → ((k : ℕ) (t : Tables) → P t → P (f k t))
      → Keeps P (write srv f)
  unfolding statement
  Keeps-write srv f k = record {
    at = λ w h. elim (Bool-cases (srv.fails w.trips)) [
      | inl e ↦ rw e h
      | inr e ↦ rw e (k (trip w).trips w.tables h)
    ];
  }

pub ruleset keeps_rules = (Keeps-pure, Keeps-bind, Keeps-if, Keeps-read)
