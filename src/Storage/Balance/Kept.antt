-- ===== src/Storage/Balance/Kept.antt =====
-- What ReBalance leaves alone.
use hermeshooks.Prelude.{
  ℕ, ◌≡◌, All, ap, refl, Bool, true, ◌⊎◌, inl, inr, Bool-cases, List, [], ◌∷◌, arith, update_where,
  if◌then◌else◌,
}
use hermeshooks.Prelude.Int.{pos_part}
use hermeshooks.Entities.{scheduled}
use hermeshooks.Storage.Ids.Times.{times}
use hermeshooks.Storage.Models.{ScheduledJob}
use hermeshooks.Storage.Sql.{Server, World, Tables}
use hermeshooks.Storage.Sql.Keeps.{
  Keeps, Keeps-pure, Keeps-bind, Keeps-if, Keeps-read, Keeps-write, keeps_rules,
}
use hermeshooks.Storage.Balance.{
  Group, MapRange, is_live, is_orphan, reset_to, move_to, with_jobs, is_short,
  update_jobs_partitions, assign_jobs_to_partition, removes_jobs_from_partition, notify,
  select_groups, drop_surplus, shed_one, shed, deal, notify_all, settle, spread, unless_empty,
  re_balance,
}

-- `b` is `a` in some partition; its status is that of `a`, or a live job was set to scheduled.
pub record Moved (a b : ScheduledJob) : Type 0 where
  pub shape : b ≡ record a { partition = b.partition; status = b.status }
  pub settled : (b.status ≡ a.status) ⊎ ((is_live a.status ≡ true) × (b.status ≡ scheduled))

-- The rows are those there were, in some partition.
abbrev pub AllMoved : List ScheduledJob → List ScheduledJob → Type 0
AllMoved [] [] = Unit
AllMoved (a ∷ old) (b ∷ rows) = Moved a b × AllMoved old rows
AllMoved _ _ = ⊥

pub record Kept (t t' : Tables) : Type 0 where
  pub users : t'.users ≡ t.users
  pub executions : t'.executions ≡ t.executions
  pub jobs : AllMoved t.jobs t'.jobs

Moved-refl : (a : ScheduledJob) → Moved a a
Moved-refl a = record { shape = refl; settled = inl refl }

AllMoved-refl : (rows : List ScheduledJob) → AllMoved rows rows
AllMoved-refl [] = tt
AllMoved-refl (a ∷ rows) = (Moved-refl a, AllMoved-refl rows)

Moved-trans : (a b c : ScheduledJob) → Moved a b → Moved b c → Moved a c
Moved-trans a b c h k = record { shape = ground arith; settled = ground arith }

pub AllMoved-trans :
    (xs ys zs : List ScheduledJob) → AllMoved xs ys → AllMoved ys zs → AllMoved xs zs
AllMoved-trans [] [] [] h k = tt
AllMoved-trans (x ∷ xs) (y ∷ ys) (z ∷ zs) h k =
    (Moved-trans x y z h.0 k.0, AllMoved-trans xs ys zs h.1 k.1)
AllMoved-trans [] [] (z ∷ zs) h k = k
AllMoved-trans [] (y ∷ ys) zs h k = absurd h
AllMoved-trans (x ∷ xs) [] zs h k = absurd h
AllMoved-trans (x ∷ xs) (y ∷ ys) [] h k = absurd k

-- Rows that were only moved have their ids, and are still to be run if they all were.
pub AllMoved-times :
    (id : ℕ) (old rows : List ScheduledJob) → AllMoved old rows → times id rows ≡ times id old
unfolding times
AllMoved-times id [] [] h = refl
AllMoved-times id [] (b ∷ rows) h = absurd h
AllMoved-times id (a ∷ old) [] h = absurd h
AllMoved-times id (a ∷ old) (b ∷ rows) (m, h) =
    let same : b.id ≡ a.id = ap (λ (j : ScheduledJob). j.id) m.shape in
    ground (arith, AllMoved-times id old rows h)

pub AllMoved-live :
    (old rows : List ScheduledJob)
    → AllMoved old rows
    → All (λ j. is_live j.status ≡ true) old
    → All (λ j. is_live j.status ≡ true) rows
AllMoved-live [] [] h live = tt
AllMoved-live [] (b ∷ rows) h live = absurd h
AllMoved-live (a ∷ old) [] h live = absurd h
AllMoved-live (a ∷ old) (b ∷ rows) (m, h) (first, live) = (
  elim m.settled [ inl same ↦ rw same first | inr (l, e) ↦ rw e refl ],
  AllMoved-live old rows h live,
)

-- An update that only moves rows, done to rows that were only moved.
AllMoved-update :
    (p : ScheduledJob → Bool) (f : ScheduledJob → ScheduledJob) (old rows : List ScheduledJob)
    → ((j : ScheduledJob) → p j ≡ true → Moved j (f j))
    → AllMoved old rows
    → AllMoved old (update_where p f rows)
unfolding update_where
AllMoved-update p f [] [] h m = tt
AllMoved-update p f [] (b ∷ rows) h m = elim m [ ]
AllMoved-update p f (a ∷ old) [] h m = elim m [ ]
AllMoved-update p f (a ∷ old) (b ∷ rows) h m = (first, AllMoved-update p f old rows h m.1)
  where
    first : Moved a (if p b then f b else b)
    first = elim (Bool-cases (p b)) [
      | inl e ↦ rw e (Moved-trans a b (f b) m.0 (h b e))
      | inr e ↦ rw e m.0
    ]

pub orphan-live :
    (active : List ℕ) (j : ScheduledJob) → is_orphan active j ≡ true → is_live j.status ≡ true
orphan-live [] j h = h
orphan-live (a ∷ rest) j h = ground arith

Moved-reset :
    (target : ℕ) (j : ScheduledJob) → is_live j.status ≡ true → Moved j (reset_to target j)
Moved-reset target j h = record { shape = refl; settled = inr (h, refl) }

Moved-move : (target : ℕ) (j : ScheduledJob) → Moved j (move_to target j)
Moved-move target j = record { shape = refl; settled = inl refl }

-- A write to the jobs that only moves them.
Kept-update :
    (t0 t : Tables) (p : ScheduledJob → Bool) (f : ScheduledJob → ScheduledJob)
    → ((j : ScheduledJob) → p j ≡ true → Moved j (f j))
    → Kept t0 t
    → Kept t0 (with_jobs t (update_where p f t.jobs))
Kept-update t0 t p f h k = record {
  users = k.users;
  executions = k.executions;
  jobs = AllMoved-update p f t0.jobs t.jobs h k.jobs;
}

module _ (srv : Server) (t0 : Tables) where
  update-Keeps :
      (active : List ℕ) (target : ℕ) → Keeps (Kept t0) (update_jobs_partitions srv active target)
  unfolding update_jobs_partitions
  update-Keeps active target =
      Keeps-write srv _
        λ k t h. Kept-update t0 t _ _ (λ j e. Moved-reset target j (orphan-live active j e)) h

  assign-Keeps : (target n : ℕ) → Keeps (Kept t0) (assign_jobs_to_partition srv target n)
  unfolding assign_jobs_to_partition
  assign-Keeps target n =
      Keeps-write srv _ λ k t h. Kept-update t0 t _ _ (λ j e. Moved-move target j) h

  removes-Keeps : (current n : ℕ) → Keeps (Kept t0) (removes_jobs_from_partition srv current n)
  unfolding removes_jobs_from_partition
  removes-Keeps current n =
      Keeps-write srv _ λ k t h. Kept-update t0 t _ _ (λ j e. Moved-move 0 j) h

  notify-Keeps : (p : ℕ) → Keeps (Kept t0) (notify srv p)
  unfolding notify
  notify-Keeps p =
      Keeps-write srv _
        λ k t h. record { users = h.users; executions = h.executions; jobs = h.jobs }

  select_groups-Keeps : Keeps (Kept t0) (select_groups srv)
  unfolding select_groups
  select_groups-Keeps = Keeps-read srv _

  shed_one-Keeps :
      (active : List ℕ) (per_bucket : ℕ) (g : Group)
      → Keeps (Kept t0) (shed_one srv active per_bucket g)
  unfolding shed_one drop_surplus
  shed_one-Keeps active per_bucket g = search (keeps_rules, removes-Keeps)

  shed-Keeps :
      (active : List ℕ) (per_bucket : ℕ) (gs : List Group)
      → Keeps (Kept t0) (shed srv active per_bucket gs)
  unfolding shed
  shed-Keeps active per_bucket [] = search keeps_rules
  shed-Keeps active per_bucket (g ∷ gs) =
      Keeps-bind _ _ (shed_one-Keeps active per_bucket g)
        λ _. Keeps-bind _ _ (shed-Keeps active per_bucket gs) λ _. Keeps-pure _

  deal-Keeps :
      (active : List ℕ) (gs : List Group) (last : Group) → Keeps (Kept t0) (deal srv active gs last)
  unfolding deal
  deal-Keeps active [] last = search keeps_rules
  deal-Keeps active (g ∷ gs) last =
      Keeps-if (is_short active g) _ _
        (λ _.
          Keeps-bind _ _ (assign-Keeps g.partition (pos_part g.to_add))
            (λ _. deal-Keeps active gs g))
        (λ _. deal-Keeps active gs last)

  notify_all-Keeps : (vs : List ℕ) → Keeps (Kept t0) (notify_all srv vs)
  unfolding notify_all
  notify_all-Keeps [] = search keeps_rules
  notify_all-Keeps (v ∷ vs) = Keeps-bind _ _ (notify-Keeps v) (λ _. notify_all-Keeps vs)

  module _ (range : MapRange) where
    settle-Keeps :
        (active : List ℕ) (per_bucket : ℕ) (m : List Group)
        → Keeps (Kept t0) (settle srv range active per_bucket m)
    unfolding settle
    settle-Keeps active per_bucket m =
        search (keeps_rules, shed-Keeps, deal-Keeps, assign-Keeps, notify_all-Keeps) depth 9

    spread-Keeps : (active : List ℕ) → Keeps (Kept t0) (spread srv range active)
    unfolding spread
    spread-Keeps active = search (keeps_rules, select_groups-Keeps, settle-Keeps)

    unless_empty-Keeps : (active : List ℕ) → Keeps (Kept t0) (unless_empty srv range active)
    unfolding unless_empty
    unless_empty-Keeps [] = search keeps_rules
    unless_empty-Keeps (a ∷ rest) = spread-Keeps (a ∷ rest)

    re_balance-Keeps : (active : List ℕ) → Keeps (Kept t0) (re_balance srv range active)
    unfolding re_balance
    re_balance-Keeps active = search (keeps_rules, update-Keeps, unless_empty-Keeps)

-- Whether ReBalance returns or fails, and wherever it fails, no job is lost or made up, and all that
-- changes of a job is its partition, and its status from pending or scheduled to scheduled; users
-- and executions stay.
pub re_balance_keeps_jobs :
    (srv : Server) (range : MapRange) (active : List ℕ) (w : World)
    → Kept w.tables (re_balance srv range active w).1.tables
re_balance_keeps_jobs srv range active w =
    (re_balance-Keeps srv w.tables range active).at w
      (record { users = refl; executions = refl; jobs = AllMoved-refl w.tables.jobs })
