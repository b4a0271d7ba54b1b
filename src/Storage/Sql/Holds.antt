-- ===== src/Storage/Sql/Holds.antt =====
-- Predicates on the tables and the sequence of job ids that a block of statements keeps, with those of the
-- tables that its transaction would roll back to: one rule for each way to build a block.
use hermeshooks.Prelude.{
  ℕ, ◌≡◌, refl, Bool, Option, none, some, if◌then◌else◌, Bool-cases, inl, inr,
}
use mathlib.Core.Path.{subst}
use hermeshooks.Storage.Sql.{
  Server, World, Tables, Error, Result, ok, err, Sql, pure, raise, after, ◌>>=◌, trip, rollback,
  statement, read, write, begin, commit, transact,
}

module _ (P : ℕ → Tables → Type 0) where
  pub record Holds (w : World) : Type 0 where
    pub now : P w.job_seq w.tables
    pub before : (t : Tables) → w.open_tx ≡ some t → P w.job_seq t

  pub record Preserves {A : Type 0} (m : Sql A) : Type 0 where
    pub at : (w : World) → Holds w → Holds (m w).1

module _ {P : ℕ → Tables → Type 0} where
  pub Preserves-pure : {A : Type 0} (a : A) → Preserves P (pure a)
  Preserves-pure a = record { at = λ w h. h }

  pub Preserves-raise : {A : Type 0} (e : Error) → Preserves P (raise {A = A} e)
  Preserves-raise e = record { at = λ w h. h }

  pub Preserves-bind :
      {A B : Type 0} (m : Sql A) (f : A → Sql B)
      → Preserves P m
      → ((a : A) → Preserves P (f a))
      → Preserves P (m >>= f)
  Preserves-bind {A} {B} m f km kf = record { at = λ w h. go (m w).0 (m w).1 (km.at w h) }
    where
      go : (r : Result A) (w : World) → Holds P w → Holds P (after f r w).1
      go (ok a) w h = (kf a).at w h
      go (err e) w h = h

  pub Preserves-if :
      {A : Type 0} (test : Bool) (then_block else_block : Sql A)
      → Preserves P then_block
      → Preserves P else_block
      → Preserves P (if test then then_block else else_block)
  Preserves-if test then_block else_block k l = elim (Bool-cases test) [
    | inl e ↦ rw e k
    | inr e ↦ rw e l
  ]

  Holds-trip : (w : World) → Holds P w → Holds P (trip w)
  Holds-trip w h = record { now = h.now; before = h.before }

  pub Preserves-statement :
      {A : Type 0} (srv : Server) (f : Sql A) → Preserves P f → Preserves P (statement srv f)
  unfolding statement
  Preserves-statement srv f k = record {
    at = λ w h. elim (Bool-cases (srv.fails w.trips)) [
      | inl e ↦ rw e (Holds-trip w h)
      | inr e ↦ rw e (k.at (trip w) (Holds-trip w h))
    ];
  }

  pub Preserves-read : {A : Type 0} (srv : Server) (f : ℕ → Tables → A) → Preserves P (read srv f)
  Preserves-read srv f = Preserves-statement srv _ (record { at = λ w h. h })

  pub Preserves-write :
      (srv : Server) (f : ℕ → Tables → Tables)
      → ((k n : ℕ) (t : Tables) → P n t → P n (f k t))
      → Preserves P (write srv f)
  Preserves-write srv f k = Preserves-statement srv _ (record {
    at = λ w h. record { now = k w.trips w.job_seq w.tables h.now; before = h.before };
  })

  Preserves-begin : (srv : Server) → Preserves P (begin srv)
  unfolding begin
  Preserves-begin srv =
      Preserves-statement srv (λ x. (ok tt, record x { open_tx = some x.tables }))
        (record {
          at = λ w h. record {
            now = h.now;
            before = λ t e. let q : w.tables ≡ t = cc in subst (P w.job_seq) q h.now;
          };
        })

  Holds-rollback : (w : World) → Holds P w → Holds P (rollback w)
  Holds-rollback w h = go w.open_tx h.before
    where
      go :
          (o : Option Tables)
          → ((t : Tables) → o ≡ some t → P w.job_seq t)
          → Holds P (elim o [ none ↦ w | some t ↦ record w { tables = t; open_tx = none } ])
      go none k = h
      go (some t) k = record { now = k t refl; before = λ t' q. cc }

  Preserves-commit : (srv : Server) → Preserves P (commit srv)
  unfolding commit
  Preserves-commit srv = record {
    at = λ w h. elim (Bool-cases (srv.fails w.trips)) [
      | inl e ↦ elim (Bool-cases (srv.commits w.trips)) [
        | inl done ↦ rw (e, done) (record { now = h.now; before = λ t q. cc })
        | inr undone ↦ rw (e, undone) (Holds-rollback (trip w) (Holds-trip w h))
      ]
      | inr e ↦ rw e (record { now = h.now; before = λ t q. cc })
    ];
  }

  pub Preserves-transact :
      {A : Type 0} (srv : Server) (body : Sql A)
      → Preserves P body
      → Preserves P (transact srv body)
  unfolding transact
  Preserves-transact srv body k = Preserves-bind _ _ (Preserves-begin srv) λ _. record {
    at = λ w h. Holds-rollback _ (
        (Preserves-bind _ _ k
            λ a. Preserves-bind _ _ (Preserves-commit srv) λ _. Preserves-pure a).at
          w h);
  }

pub ruleset holds_rules =
    (Preserves-pure, Preserves-raise, Preserves-bind, Preserves-if, Preserves-read)
