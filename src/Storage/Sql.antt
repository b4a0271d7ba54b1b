-- ===== src/Storage/Sql.antt =====
-- The database as the storage package drives it: statements that run one after another on one
-- connection, transactions, and the `defer tx.Rollback()` that every transaction is written with.
-- The server itself is not part of the repository: `Server` is what the program relies on.
pub mod Transact
pub mod Invert
pub mod Keeps
pub mod Returns
pub mod Holds
use Prim.Native.String.{count}
use hermeshooks.Prelude.{
  ℕ, suc, ◌+◌, ◌≤◌, ◌<◌, String, ◌≡◌, Bool, Option, none, some, List, Permᴰ, if◌then◌else◌,
}
use hermeshooks.Entities.{Time}
use hermeshooks.Storage.Models.{ScheduledJob, Execution, User}

-- `fails n`: round trip n ends in an error of the driver or of the server.
-- `row_order n`: the order in which statement n meets the rows of `scheduled_jobs`; so
-- `execution_order` for `executions`. SQL promises no order but the one asked for.
-- `commits n`: a commit whose round trip n ends in an error was carried out all the same.
-- `varchar n s`: what a VARCHAR(n) column stores for `s`, if it takes it.
-- `timestamp t`: what a TIMESTAMP column stores for `t`, which is sent with six digits of its seconds.
pub record Server : Type 0 where
  pub fails : ℕ → Bool
  pub commits : ℕ → Bool
  pub row_order : ℕ → List ScheduledJob → List ScheduledJob
  pub row_order-Permᴰ : (n : ℕ) (rows : List ScheduledJob) → Permᴰ (row_order n rows) rows
  pub execution_order : ℕ → List Execution → List Execution
  pub execution_order-Permᴰ : (n : ℕ) (rows : List Execution) → Permᴰ (execution_order n rows) rows
  pub varchar : ℕ → String → Option String
  pub varchar_fits : (n : ℕ) (s : String) → count s ≤ n → varchar n s ≡ some s
  pub timestamp : Time → Time
  pub timestamp_cuts : (t : Time) → (timestamp t ≤ t) × (t < timestamp t + 1000)

-- What a transaction may roll back. `notified` are the partitions of the messages sent on the
-- channel "jobs:rebalance"; a message of a transaction is delivered when it commits.
pub record Tables : Type 0 where
  pub users : List User
  pub jobs : List ScheduledJob
  pub executions : List Execution
  pub notified : List ℕ

-- `open_tx` holds the tables as they were when the open transaction began. The identity columns
-- draw from sequences, which a rollback does not reset.
pub record World : Type 0 where
  pub tables : Tables
  pub open_tx : Option Tables
  pub trips : ℕ
  pub user_seq : ℕ
  pub job_seq : ℕ
  pub execution_seq : ℕ

-- `no_rows` is sql.ErrNoRows; `rejected` is a constraint of the schema.
pub data Error : Type 0 where
  broken no_rows rejected : Error

pub data Result {ℓ} (A : Type ℓ) : Type ℓ where
  ok : A → Result A
  err : Error → Result A

abbrev pub Sql : Type 0 → Type 0
Sql A = World → Result A × World

abbrev pub pure : {A : Type 0} → A → Sql A
pure a w = (ok a, w)

abbrev pub raise : {A : Type 0} → Error → Sql A
raise e w = (err e, w)

abbrev pub after : {A B : Type 0} → (A → Sql B) → Result A → Sql B
after f (ok a) w = f a w
after f (err e) w = (err e, w)

infixl 5 ◌>>=◌ ◌>>◌
abbrev pub ◌>>=◌ : {A B : Type 0} → Sql A → (A → Sql B) → Sql B
◌>>=◌ m f w = after f (m w).0 (m w).1

abbrev pub ◌>>◌ : {B : Type 0} → Sql (Unit {0}) → Sql B → Sql B
m >> k = m >>= λ _. k

abbrev pub trip : World → World
trip w = record w { trips = suc w.trips }

-- Rollback of a transaction that has ended does nothing.
abbrev pub rollback : World → World
rollback w = elim w.open_tx [
  | none ↦ w
  | some before ↦ record w { tables = before; open_tx = none }
]

module _ (srv : Server) where
  -- One round trip to the server.
  unfoldable pub statement : {A : Type 0} → Sql A → Sql A
  statement f w = if srv.fails w.trips then (err broken, trip w) else f (trip w)

  -- A statement that reads; the count of round trips says which one it is.
  abbrev pub read : {A : Type 0} → (ℕ → Tables → A) → Sql A
  read f = statement (λ w. (ok (f w.trips w.tables), w))

  -- A statement that writes, and can only fail as a whole.
  abbrev pub write : (ℕ → Tables → Tables) → Sql (Unit {0})
  write f = statement (λ w. (ok tt, record w { tables = f w.trips w.tables }))

  unfoldable pub begin : Sql (Unit {0})
  unfolding statement
  begin = statement (λ w. (ok tt, record w { open_tx = some w.tables }))

  -- After a commit that fails, the transaction has been rolled back, or only the answer was lost.
  unfoldable pub commit : Sql (Unit {0})
  commit w =
      if srv.fails w.trips
      then (
        err broken,
        if srv.commits w.trips
            then record w { open_tx = none; trips = suc w.trips }
            else rollback (trip w),
      )
      else (ok tt, record w { open_tx = none; trips = suc w.trips })

  -- tx, err := db.Begin(); defer tx.Rollback(); ...; tx.Commit()
  unfoldable pub transact : {A : Type 0} → Sql A → Sql A
  unfolding begin commit
  transact body = begin >>= λ _ w. let (r, w') = (do a ← body; commit; pure a) w in (r, rollback w')
