-- ===== src/Storage/Sql/Returns.antt =====
-- Blocks of statements that return a value, not an error, on a server where no round trip fails: one
-- rule for each way to build a block.
use hermeshooks.Prelude.{ℕ, suc, ◌≡◌, refl, Bool, true, false, if◌then◌else◌}
use hermeshooks.Storage.Sql.{
  Server, World, Tables, Result, ok, err, Sql, pure, after, ◌>>=◌, rollback, statement, read, write,
  begin, commit, transact,
}

abbrev pub Live : Server → Type 0
Live srv = (n : ℕ) → srv.fails n ≡ false

pub record Returns {A : Type 0} (m : Sql A) : Type 0 where
  pub at : (w : World) → (a : A) × ((m w).0 ≡ ok a)

pub Returns-pure : {A : Type 0} (a : A) → Returns (pure a)
Returns-pure a = record { at = λ w. (a, refl) }

pub Returns-bind :
    {A B : Type 0} (m : Sql A) (f : A → Sql B)
    → Returns m
    → ((a : A) → Returns (f a))
    → Returns (m >>= f)
Returns-bind {A} {B} m f km kf = record { at = λ w. go (m w).0 (m w).1 (km.at w) }
  where
    go : (r : Result A) (w : World) → (a : A) × (r ≡ ok a) → (b : B) × ((after f r w).0 ≡ ok b)
    go (ok a) w h = (kf a).at w
    go (err e) w (a, h) = absurd (cc)

pub Returns-if :
    {A : Type 0} (b : Bool) (m n : Sql A) → Returns m → Returns n → Returns (if b then m else n)
Returns-if true m n km kn = km
Returns-if false m n km kn = kn

module _ (srv : Server) (live : Live srv) where
  pub Returns-read : {A : Type 0} (f : ℕ → Tables → A) → Returns (read srv f)
  unfolding statement
  Returns-read f = record { at = λ w. rw (live w.trips) (f (suc w.trips) w.tables, refl) }

  pub Returns-write : (f : ℕ → Tables → Tables) → Returns (write srv f)
  unfolding statement
  Returns-write f = record { at = λ w. rw (live w.trips) (tt, refl) }

  commit-Returns : Returns (commit srv)
  unfolding commit
  commit-Returns = record { at = λ w. rw (live w.trips) (tt, refl) }

  begin-Returns : Returns (begin srv)
  unfolding begin statement
  begin-Returns = record { at = λ w. rw (live w.trips) (tt, refl) }

  -- What `transact` runs between its `Begin` and its deferred rollback.
  committed-Returns :
      {A : Type 0} (body : Sql A)
      → Returns body
      → Returns (body >>= λ a. commit srv >>= λ _. pure a)
  committed-Returns body k = search (Returns-pure, Returns-bind, commit-Returns)

  pub transact-Returns : {A : Type 0} (body : Sql A) → Returns body → Returns (transact srv body)
  unfolding transact
  transact-Returns {A} body k =
      Returns-bind (begin srv) (λ _ w. ((committed w).0, rollback (committed w).1)) begin-Returns
        λ _. record { at = (committed-Returns body k).at }
    where
      committed : Sql A
      committed = body >>= λ a. commit srv >>= λ _. pure a

pub ruleset returns_rules = (Returns-pure, Returns-bind, Returns-if, Returns-read, Returns-write)
