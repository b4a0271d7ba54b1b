-- ===== src/Storage/Sql/Transact.antt =====
-- What holds of every transaction, whatever its body: it ends, and an error leaves all or nothing.
use hermeshooks.Prelude.{ℕ, ◌≡◌, refl, ◌∙◌, none, some, inl, inr, ◌⊎◌, arith, Bool-cases}
use hermeshooks.Storage.Sql.{
  Server, World, Tables, Error, Result, ok, err, Sql, pure, after, ◌>>=◌, trip, statement, read,
  write, transact,
}

Result-cases : {A : Type 0} (r : Result A) → ((a : A) × (r ≡ ok a)) ⊎ ((e : Error) × (r ≡ err e))
Result-cases (ok a) = inl (a, refl)
Result-cases (err e) = inr (e, refl)

-- `m` opens and ends no transaction.
pub record KeepsTx {A : Type 0} (m : Sql A) : Type 0 where
  pub at : (w : World) → (m w).1.open_tx ≡ w.open_tx

pub KeepsTx-pure : {A : Type 0} (a : A) → KeepsTx (pure a)
KeepsTx-pure a = record { at = λ w. refl }

pub KeepsTx-bind :
    {A B : Type 0} (m : Sql A) (f : A → Sql B)
    → KeepsTx m
    → ((a : A) → KeepsTx (f a))
    → KeepsTx (m >>= f)
KeepsTx-bind {A} {B} m f km kf = record { at = λ w. rest (m w).0 (m w).1 ∙ km.at w }
  where
    rest : (r : Result A) (w : World) → (after f r w).1.open_tx ≡ w.open_tx
    rest (ok a) w = (kf a).at w
    rest (err e) w = refl

module _ (srv : Server) where
  pub KeepsTx-statement : {A : Type 0} (f : Sql A) → KeepsTx f → KeepsTx (statement srv f)
  unfolding statement
  KeepsTx-statement f k = record {
    at = λ w. elim (Bool-cases (srv.fails w.trips)) [ inl e ↦ rw e | inr e ↦ rw e (k.at (trip w)) ];
  }

  abbrev pub begun : World → World
  begun w = record w { open_tx = some w.tables; trips = (trip w).trips }

  -- After a transaction none is open; one that returned an error has changed no table, or its body
  -- returned, and it has kept what that did.
  pub transact_atomic :
      {A : Type 0} (body : Sql A) (w : World)
      → KeepsTx body
      → w.open_tx ≡ none
      → ((transact srv body w).1.open_tx ≡ none)
        × ((e : Error)
            → (transact srv body w).0 ≡ err e
            → ((transact srv body w).1.tables ≡ w.tables)
              ⊎ ((a : A) × ((body (begun w)).0 ≡ ok a)
                  × ((transact srv body w).1.tables ≡ (body (begun w)).1.tables)))
  unfolding transact statement
  transact_atomic {A = A} body w k n = (ground (arith, k.at (begun w)), λ e h. after_error e h)
    where
      after_error :
          (e : Error)
          → (transact srv body w).0 ≡ err e
          → ((transact srv body w).1.tables ≡ w.tables)
            ⊎ ((a : A) × ((body (begun w)).0 ≡ ok a)
                × ((transact srv body w).1.tables ≡ (body (begun w)).1.tables))
      after_error e h = elim (Result-cases (body (begun w)).0) [
        | inr (x, failed) ↦ inl (ground (arith, k.at (begun w)))
        | inl (a, fine) ↦ elim (Bool-cases (srv.commits (body (begun w)).1.trips)) [
          | inl done ↦ elim (Bool-cases (srv.fails w.trips)) [
            | inl broken_first ↦ inl (ground (arith, k.at (begun w)))
            | inr started ↦ inr (a, fine, ground (arith, k.at (begun w)))
          ]
          | inr undone ↦ inl (ground (arith, k.at (begun w)))
        ]
      ]

  -- One that returned a value has kept what its body did.
  pub transact-ok :
      {A : Type 0} (body : Sql A) (w : World) {a : A}
      → (transact srv body w).0 ≡ ok a
      → ((body (begun w)).0 ≡ ok a) × ((transact srv body w).1.tables ≡ (body (begun w)).1.tables)
  unfolding transact statement
  transact-ok body w h = ground arith

pub KeepsTx-read : {A : Type 0} (srv : Server) (f : ℕ → Tables → A) → KeepsTx (read srv f)
unfolding statement
KeepsTx-read srv f = record { at = λ w. ground arith }

pub KeepsTx-write : (srv : Server) (f : ℕ → Tables → Tables) → KeepsTx (write srv f)
unfolding statement
KeepsTx-write srv f = record { at = λ w. ground arith }

pub ruleset tx_rules = (KeepsTx-pure, KeepsTx-bind, KeepsTx-read, KeepsTx-write)
