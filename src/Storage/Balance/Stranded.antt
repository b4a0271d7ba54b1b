-- ===== src/Storage/Balance/Stranded.antt =====
-- The remainder of ReBalance's division. With fewer jobs than workers no worker is short of a job:
-- every job is taken from its worker and left in partition 0, which no worker reads.
use hermeshooks.Prelude.{
  ℕ, zero, suc, ◌/◌, ◌<◌, ◌≡◌, refl, ap, ◌∙◌, true, false, ◌⊎◌, inl, inr, Bool-cases, List, [], ◌∷◌,
  Memᴰ, All, All-mem, All-of_mem, arith, length, select_where-All, update_where,
  length-update_where, mem-perm, ◌==◌,
}
use mathlib.Core.List.Permᴰ
use native.Mathlib.Nat.{div-eq_of_lt}
use hermeshooks.Storage.Models.{ScheduledJob}
use hermeshooks.Storage.Sql.{Server, World, Tables, ok, trip}
use hermeshooks.Storage.Sql.Invert.{bind-ok, read-ok, write-ok}
use hermeshooks.Storage.Sql.Keeps.{Keeps-bind}
use hermeshooks.Storage.Balance.Groups.{
  count_in, total-count_groups, count_of-count_groups, group_of, mem-add_missing,
}
use hermeshooks.Storage.Balance.Emptied.{Emptied, AtMost, Emptied-count}
use hermeshooks.Storage.Balance.{
  Group, MapRange, new_group, is_live, is_orphan, reset_to, with_jobs, count_groups, total_count,
  add_missing, share, is_short, update_jobs_partitions, select_groups, drop_surplus, shed_one, shed,
  deal, settle, spread, unless_empty, re_balance,
}
use hermeshooks.Storage.Balance.Shedding.{
  shed-Emptied, shed-empties, assign_zero-Emptied, notify_all-Emptied,
}

empty_or_group :
    (active : List ℕ) (p : ℕ) (t : Tables)
    → Emptied p t
      ⊎ ((g : Group) × Memᴰ g (add_missing active (count_groups t.jobs))
          × (g.partition ≡ p)
          × AtMost p g.count t)
empty_or_group active p t = go (count_in p t.jobs) refl
  where
    go :
        (n : ℕ)
        → count_in p t.jobs ≡ n
        → Emptied p t
          ⊎ ((g : Group) × Memᴰ g (add_missing active (count_groups t.jobs))
              × (g.partition ≡ p)
              × AtMost p g.count t)
    go zero e = inl (Emptied-count p t e)
    go (suc n) e =
        let (g, m, q, c) =
          group_of p n (count_groups t.jobs) (count_of-count_groups p t.jobs ∙ e) in
        inr (g, mem-add_missing active (count_groups t.jobs) m, q, omega arith)

module _ (srv : Server) (active : List ℕ) where
  -- Nobody is short of a job when nothing is due to each worker.
  abbrev pub NoneShort : List Group → Type 0
  NoneShort = All (λ g. is_short active g ≡ false)

  shed_one-NoneShort :
      (g : Group) (w : World) {g' : Group}
      → (shed_one srv active 0 g w).0 ≡ ok g'
      → is_short active g' ≡ false
  unfolding shed_one share
  shed_one-NoneShort g w {g'} done = elim (Bool-cases (g.partition == 0)) [
    | inl zero_part ↦ let e : g ≡ g' = ground arith in rw (← e) (ground arith)
    | inr nonzero ↦
        let s =
          bind-ok (drop_surplus srv g.partition (share active 0 g)) _ w (rw nonzero at done) in
        let e : record g { to_add = share active 0 g } ≡ g' = ground (arith, s.then_ok) in
        rw (← e) (ground arith)
  ]

  shed-NoneShort :
      (gs : List Group) (w : World) {gs' : List Group}
      → (shed srv active 0 gs w).0 ≡ ok gs'
      → NoneShort gs'
  unfolding shed
  shed-NoneShort [] w {gs'} done = let e : [] ≡ gs' = ground arith in rw (← e) tt
  shed-NoneShort (g ∷ gs) w {gs'} done =
      let s = bind-ok (shed_one srv active 0 g) _ w done in
      let r = bind-ok (shed srv active 0 gs) _ _ s.then_ok in
      let e : s.value ∷ r.value ≡ gs' = ground (arith, r.then_ok) in
      rw (← e) (shed_one-NoneShort g w s.first, shed-NoneShort gs _ r.first)

  pub deal-NoneShort :
      (gs : List Group) (last : Group) (w : World)
      → NoneShort gs
      → deal srv active gs last w ≡ (ok last, w)
  unfolding deal
  deal-NoneShort [] last w h = refl
  deal-NoneShort (g ∷ gs) last w h = rw h.0 (deal-NoneShort gs last w h.1)

  settle-Emptied :
      (range : MapRange) (p : ℕ) (m : List Group) (w : World) {u : Unit {0}}
      → 0 < p
      → Emptied p w.tables
        ⊎ ((g : Group) × Memᴰ g m × (g.partition ≡ p) × AtMost p g.count w.tables)
      → (settle srv range active 0 m w).0 ≡ ok u
      → Emptied p (settle srv range active 0 m w).1.tables
  unfolding settle
  settle-Emptied range p m w positive start done =
      let s = bind-ok (shed srv active 0 (range.order 0 m)) _ w done in
      let w1 = (shed srv active 0 (range.order 0 m) w).1 in
      let shown : Emptied p w1.tables = elim start [
        | inl none ↦ (shed-Emptied srv active p positive (range.order 0 m)).at w none
        | inr (g, k, e, h) ↦
            shed-empties srv active p positive (range.order 0 m) g w
              (mem-perm (Permᴰ.symm (range.order-Permᴰ 0 m)) k) e h s.first
      ] in
      let none_short : NoneShort (range.order 1 s.value) =
        All-of_mem _ (range.order 1 s.value) λ g k.
          All-mem (λ x. is_short active x ≡ false) s.value {a = g}
            (shed-NoneShort (range.order 0 m) w s.first)
            (mem-perm (range.order-Permᴰ 1 s.value) k) in
      rw (s.same, deal-NoneShort (range.order 1 s.value) (new_group 0) w1 none_short)
        ((Keeps-bind _ _ (assign_zero-Emptied srv active p positive 0)
            (λ _. notify_all-Emptied srv active p positive active)).at
          w1 shown)

  -- All that follows `if len(active) == 0`, when there are fewer jobs than workers.
  spread-Emptied :
      (range : MapRange) (p : ℕ) (w : World) {u : Unit {0}}
      → 0 < p
      → All (λ j. is_live j.status ≡ true) w.tables.jobs
      → length w.tables.jobs < length active
      → (spread srv range active w).0 ≡ ok u
      → Emptied p (spread srv range active w).1.tables
  unfolding spread select_groups
  spread-Emptied range p w positive live few done =
      let rows = w.tables.jobs in
      let s = bind-ok (select_groups srv) _ w done in
      let (value, same) = read-ok srv _ w s.first in
      let grps : s.value ≡ count_groups rows =
        value ∙ ap count_groups (select_where-All (λ j. is_live j.status) rows live) in
      let nothing : total_count s.value / length active ≡ 0 =
        div-eq_of_lt (omega (arith, ap total_count grps, total-count_groups rows)) in
      let start : Emptied p w.tables
          ⊎ ((g : Group) × Memᴰ g (add_missing active s.value)
              × (g.partition ≡ p)
              × AtMost p g.count w.tables) =
        rw grps (empty_or_group active p w.tables) in
      let rest = s.then_ok in
      rw (s.same, nothing, same)
        (settle-Emptied range p (add_missing active s.value) (trip w) positive start
          (rw (nothing, same) at rest))

pub reset-live :
    (active : List ℕ) (rows : List ScheduledJob)
    → All (λ j. is_live j.status ≡ true) rows
    → All (λ j. is_live j.status ≡ true) (update_where (is_orphan active) (reset_to 0) rows)
unfolding update_where
reset-live active [] h = tt
reset-live active (j ∷ rows) h = (
  elim (Bool-cases (is_orphan active j)) [ inl e ↦ rw e refl | inr e ↦ rw e h.0 ],
  reset-live active rows h.1,
)

pub unless_empty-spread :
    (srv : Server) (range : MapRange) (active : List ℕ)
    → 0 < length active
    → unless_empty srv range active ≡ spread srv range active
unfolding unless_empty
unless_empty-spread srv range [] h = absurd (omega arith)
unless_empty-spread srv range (a ∷ rest) h = refl

-- If all jobs in the table are still to be run and there are fewer of them than active workers, then
-- after ReBalance has returned every job is in partition 0, those of active workers included.
re_balance_strands :
    (srv : Server) (range : MapRange) (active : List ℕ) (w : World) {u : Unit {0}}
    (j : ScheduledJob)
    → All (λ r. is_live r.status ≡ true) w.tables.jobs
    → length w.tables.jobs < length active
    → (re_balance srv range active w).0 ≡ ok u
    → Memᴰ j (re_balance srv range active w).1.tables.jobs
    → j.partition ≡ 0
unfolding re_balance
re_balance_strands srv range active w j live few done m =
    let s =
      bind-ok (update_jobs_partitions srv active 0) (λ _. unless_empty srv range active) w done in
    let w1 = (update_jobs_partitions srv active 0 w).1 in
    let set : w1.tables
        ≡ with_jobs w.tables (update_where (is_orphan active) (reset_to 0) w.tables.jobs) =
      unfold update_jobs_partitions in write-ok srv _ w s.first in
    let same = unless_empty-spread srv range active (omega arith) in
    let m' : Memᴰ j (spread srv range active w1).1.tables.jobs = rw (s.same, same) at m in
    let live' : All (λ r. is_live r.status ≡ true) w1.tables.jobs =
      rw set (reset-live active w.tables.jobs live) in
    let few' : length w1.tables.jobs < length active =
      rw set (omega (arith, length-update_where (is_orphan active) (reset_to 0) w.tables.jobs)) in
    let rest = s.then_ok in
    zero_or_absurd j.partition λ positive.
      spread-Emptied srv active range j.partition w1 positive live' few' (rw same at rest) j m' refl
  where
    zero_or_absurd : (p : ℕ) → (0 < p → ⊥) → p ≡ 0
    zero_or_absurd zero h = refl
    zero_or_absurd (suc n) h = absurd (h (omega arith))
