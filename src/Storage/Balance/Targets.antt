-- ===== src/Storage/Balance/Targets.antt =====
-- Where ReBalance puts the jobs.
use hermeshooks.Prelude.{
  ℕ, ◌≡◌, refl, ap, Bool, true, false, inl, inr, Bool-cases, List, [], ◌∷◌, Memᴰ, arith, contains,
  update_where, mem-update_where,
}
use hermeshooks.Prelude.Int.{pos_part}
use hermeshooks.Storage.Models.{ScheduledJob}
use hermeshooks.Storage.Sql.{Server, World, Tables, ok}
use hermeshooks.Storage.Sql.Invert.{bind-ok, write-ok}
use hermeshooks.Storage.Sql.Keeps.{
  Keeps, Keeps-pure, Keeps-bind, Keeps-bind_ok, Keeps-if, Keeps-read, Keeps-write, keeps_rules,
}
use hermeshooks.Storage.Balance.{
  Group, MapRange, new_group, is_live, is_orphan, reset_to, move_to, with_jobs, is_short,
  update_jobs_partitions, assign_jobs_to_partition, removes_jobs_from_partition, notify,
  select_groups, drop_surplus, shed_one, shed, deal, notify_all, settle, spread, unless_empty,
  re_balance,
}

-- Every job that is still to be run is in partition 0 or in an active one.
abbrev pub Placed : List ℕ → Tables → Type 0
Placed active t =
    (j : ScheduledJob)
    → Memᴰ j t.jobs
    → is_live j.status ≡ true
    → contains (0 ∷ active) j.partition ≡ true

not_orphan-served :
    (active : List ℕ) (b : ScheduledJob)
    → is_orphan active b ≡ false
    → is_live b.status ≡ true
    → contains (0 ∷ active) b.partition ≡ true
unfolding contains
not_orphan-served [] b h live = cc
not_orphan-served (a ∷ rest) b h live = ground arith

module _ (srv : Server) (active : List ℕ) where
  Placed-move :
      (t : Tables) (p : ScheduledJob → Bool) (target : ℕ)
      → contains (0 ∷ active) target ≡ true
      → Placed active t
      → Placed active (with_jobs t (update_where p (move_to target) t.jobs))
  Placed-move t p target c h j m live =
      let (b, found, e) = mem-update_where p (move_to target) t.jobs {a = j} m in
      elim (Bool-cases (p b)) [
        | inl hit ↦ let e' : j ≡ move_to target b = ground arith in rw (ap (λ r. r.partition) e') c
        | inr miss ↦ let e' : j ≡ b = ground arith in rw e' (h b found (rw e' at live))
      ]

  pub contains-zero : contains (0 ∷ active) 0 ≡ true
  unfolding contains
  contains-zero = refl

  assign-Placed :
      (target n : ℕ)
      → contains (0 ∷ active) target ≡ true
      → Keeps (Placed active) (assign_jobs_to_partition srv target n)
  unfolding assign_jobs_to_partition
  assign-Placed target n c = Keeps-write srv _ λ k t h. Placed-move t _ target c h

  removes-Placed :
      (current n : ℕ) → Keeps (Placed active) (removes_jobs_from_partition srv current n)
  unfolding removes_jobs_from_partition
  removes-Placed current n = Keeps-write srv _ λ k t h. Placed-move t _ 0 contains-zero h

  notify-Placed : (p : ℕ) → Keeps (Placed active) (notify srv p)
  unfolding notify
  notify-Placed p = Keeps-write srv _ λ k t h. h

  shed_one-Placed :
      (per_bucket : ℕ) (g : Group) → Keeps (Placed active) (shed_one srv active per_bucket g)
  unfolding shed_one drop_surplus
  shed_one-Placed per_bucket g = search (keeps_rules, removes-Placed)

  shed-Placed :
      (per_bucket : ℕ) (gs : List Group) → Keeps (Placed active) (shed srv active per_bucket gs)
  unfolding shed
  shed-Placed per_bucket [] = search keeps_rules
  shed-Placed per_bucket (g ∷ gs) =
      Keeps-bind _ _ (shed_one-Placed per_bucket g)
        λ _. Keeps-bind _ _ (shed-Placed per_bucket gs) λ _. Keeps-pure _

  short-allowed : (g : Group) → is_short active g ≡ true → contains (0 ∷ active) g.partition ≡ true
  unfolding contains
  short-allowed g h = ground arith

  deal-Placed : (gs : List Group) (last : Group) → Keeps (Placed active) (deal srv active gs last)
  unfolding deal
  deal-Placed [] last = search keeps_rules
  deal-Placed (g ∷ gs) last =
      Keeps-if (is_short active g) _ _
        (λ e.
          Keeps-bind _ _ (assign-Placed g.partition (pos_part g.to_add) (short-allowed g e))
            (λ _. deal-Placed gs g))
        (λ _. deal-Placed gs last)

  -- `last` is partition 0 or an active one.
  pub deal-allowed :
      (gs : List Group) (last : Group) (w : World) {l : Group}
      → contains (0 ∷ active) last.partition ≡ true
      → (deal srv active gs last w).0 ≡ ok l
      → contains (0 ∷ active) l.partition ≡ true
  unfolding deal
  deal-allowed [] last w {l} c e = let e' : last ≡ l = ground arith in rw (← e') c
  deal-allowed (g ∷ gs) last w {l} c e = elim (Bool-cases (is_short active g)) [
    | inl short ↦
        let s =
          bind-ok (assign_jobs_to_partition srv g.partition (pos_part g.to_add))
            (λ _. deal srv active gs g) w {b = l} (rw short at e) in
        deal-allowed gs g _ (short-allowed g short) s.then_ok
    | inr long ↦ deal-allowed gs last w c (rw long at e)
  ]

  notify_all-Placed : (vs : List ℕ) → Keeps (Placed active) (notify_all srv vs)
  unfolding notify_all
  notify_all-Placed [] = search keeps_rules
  notify_all-Placed (v ∷ vs) = Keeps-bind _ _ (notify-Placed v) (λ _. notify_all-Placed vs)

  spread-Placed : (range : MapRange) → Keeps (Placed active) (spread srv range active)
  unfolding spread settle select_groups
  spread-Placed range = Keeps-bind _ _ (Keeps-read srv _) λ grps.
      Keeps-bind _ _ (shed-Placed _ _) λ m'.
        Keeps-bind_ok (deal srv active (range.order 1 m') (new_group 0)) _ (deal-Placed _ _)
          λ w last e.
            Keeps-bind _ _
              (assign-Placed last.partition 0
                (deal-allowed (range.order 1 m') (new_group 0) w contains-zero e))
              λ _. notify_all-Placed active

  pub update-establishes :
      (t : Tables)
      → Placed active (with_jobs t (update_where (is_orphan active) (reset_to 0) t.jobs))
  update-establishes t j m live =
      let (b, found, e) = mem-update_where (is_orphan active) (reset_to 0) t.jobs {a = j} m in
      elim (Bool-cases (is_orphan active b)) [
        | inl hit ↦
            let e' : j ≡ reset_to 0 b = ground arith in rw (ap (λ r. r.partition) e') contains-zero
        | inr miss ↦
            let e' : j ≡ b = ground arith in rw e' (not_orphan-served active b miss (rw e' at live))
      ]

unless_empty-Placed :
    (srv : Server) (range : MapRange) (active : List ℕ)
    → Keeps (Placed active) (unless_empty srv range active)
unfolding unless_empty
unless_empty-Placed srv range [] = search keeps_rules
unless_empty-Placed srv range (a ∷ rest) = spread-Placed srv (a ∷ rest) range

-- When ReBalance has returned, every job that is still to be run is in the partition of an active
-- worker or in partition 0, whatever partitions the jobs were in before.
pub re_balance_places :
    (srv : Server) (range : MapRange) (active : List ℕ) (w : World) {u : Unit {0}}
    (j : ScheduledJob)
    → (re_balance srv range active w).0 ≡ ok u
    → Memᴰ j (re_balance srv range active w).1.tables.jobs
    → is_live j.status ≡ true
    → contains (0 ∷ active) j.partition ≡ true
unfolding re_balance
re_balance_places srv range active w j e =
    let s =
      bind-ok (update_jobs_partitions srv active 0) (λ _. unless_empty srv range active) w e in
    let w1 = (update_jobs_partitions srv active 0 w).1 in
    let set : w1.tables
        ≡ with_jobs w.tables (update_where (is_orphan active) (reset_to 0) w.tables.jobs) =
      unfold update_jobs_partitions in write-ok srv _ w s.first in
    let placed : Placed active (unless_empty srv range active w1).1.tables =
      (unless_empty-Placed srv range active).at w1
        (rw set (update-establishes srv active w.tables)) in
    rw s.same (placed j)
