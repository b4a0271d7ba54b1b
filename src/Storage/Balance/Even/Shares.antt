-- ===== src/Storage/Balance/Even/Shares.antt =====
-- What ReBalance does to a table of jobs that are all still to be run: every worker gets the same number.
use hermeshooks.Prelude.{
  ℕ, suc, ◌+◌, ◌/◌, ◌%◌, ◌≤◌, ◌<◌, ◌≡◌, refl, ap, true, false, inl, inr, Bool-cases, List, [], ◌∷◌,
  Memᴰ, All, arith, ◌==◌, ==_iff, if◌then◌else◌, length, contains, select_where, update_where,
  length-update_where, All-mem,
}
use hermeshooks.Storage.Models.{ScheduledJob}
use hermeshooks.Storage.Sql.{Server, World, ok}
use hermeshooks.Storage.Sql.Invert.{bind-ok, write-ok}
use hermeshooks.Storage.Ids.Times.{times-update}
use hermeshooks.Storage.Balance.Groups.{count_in}
use hermeshooks.Storage.Balance.Targets.{Placed, update-establishes}
use hermeshooks.Storage.Balance.Stranded.{reset-live, unless_empty-spread}
use hermeshooks.Storage.Balance.Even.Moves.{IsUnique}
use hermeshooks.Storage.Balance.Even.Sums.{IsDistinct, active-nonzero}
use hermeshooks.Storage.Balance.{
  MapRange, is_live, is_orphan, reset_to, with_jobs, unless_empty, update_jobs_partitions,
  re_balance,
}
use hermeshooks.Storage.Balance.Even.Dealt.{Shared, spread-Shared}

-- An active partition has the same jobs when the orphans have gone to 0.
orphans-count :
    (active : List ℕ) (a : ℕ) (rows : List ScheduledJob)
    → contains active a ≡ true
    → (a == 0) ≡ false
    → count_in a (update_where (is_orphan active) (reset_to 0) rows) ≡ count_in a rows
unfolding update_where select_where
orphans-count active a [] c n = refl
orphans-count active a (j ∷ js) c n = elim (Bool-cases (j.partition == a)) [
  | inl hit ↦
      let there : contains active j.partition ≡ true = rw ((==_iff j.partition a).0 hit) c in
      let kept : is_orphan active j ≡ false = stays active j there in
      rw (kept, hit) (ap suc (orphans-count active a js c n))
  | inr miss ↦ ground (arith, orphans-count active a js c n)
]
  where
    stays :
        (ps : List ℕ) (r : ScheduledJob) → contains ps r.partition ≡ true → is_orphan ps r ≡ false
    stays [] r h = absurd (unfold contains in cc)
    stays (p ∷ ps) r h = ground arith

re_balance_lem :
    (srv : Server) (range : MapRange) (active : List ℕ) (w : World) {u : Unit {0}}
    → IsDistinct active
    → 0 < length active
    → All (λ j. is_live j.status ≡ true) w.tables.jobs
    → IsUnique w.tables.jobs
    → (re_balance srv range active w).0 ≡ ok u
    → (l : ℕ) × (contains (0 ∷ active) l ≡ true)
      × Shared active
          (length w.tables.jobs / length active)
          (length w.tables.jobs % length active)
          (re_balance srv range active w).1.tables.jobs
          l
      × (((a : ℕ)
            → contains active a ≡ true
            → length w.tables.jobs / length active ≤ count_in a w.tables.jobs)
          → l ≡ 0)
unfolding re_balance
re_balance_lem srv range active w d some_active live unique done =
    let s =
      bind-ok (update_jobs_partitions srv active 0) (λ _. unless_empty srv range active) w done in
    let w1 = (update_jobs_partitions srv active 0 w).1 in
    let rows1 = update_where (is_orphan active) (reset_to 0) w.tables.jobs in
    let set : w1.tables ≡ with_jobs w.tables rows1 =
      unfold update_jobs_partitions in write-ok srv _ w s.first in
    let spreads = unless_empty-spread srv range active some_active in
    let live1 : All (λ j. is_live j.status ≡ true) w1.tables.jobs =
      rw set (reset-live active w.tables.jobs live) in
    let unique1 : IsUnique w1.tables.jobs = rw set λ id. omega (
      arith,
      times-update id (is_orphan active) (reset_to 0) w.tables.jobs (λ j. refl),
      unique id,
    ) in
    let placed : (j : ScheduledJob)
        → Memᴰ j w1.tables.jobs
        → contains (0 ∷ active) j.partition ≡ true =
      λ j m.
        let served : Placed active w1.tables = rw set (update-establishes srv active w.tables) in
        served j m
          (All-mem (λ (x : ScheduledJob). is_live x.status ≡ true) w1.tables.jobs live1 m) in
    let size : length w1.tables.jobs ≡ length w.tables.jobs =
      rw set (length-update_where (is_orphan active) (reset_to 0) w.tables.jobs) in
    let rest = s.then_ok in
    let (l, allowed, shared, strands) =
      spread-Shared srv active d range w1 some_active live1 unique1 placed (rw spreads at rest) in
    (
      l,
      allowed,
      rw (s.same, spreads, ← size) shared,
      λ full. strands λ a c.
          let same : count_in a w1.tables.jobs ≡ count_in a w.tables.jobs =
            rw set (orphans-count active a w.tables.jobs c (active-nonzero active d a c)) in
          omega (arith, full a c, ap (λ (n : ℕ). n / length active) size),
    )

-- If all jobs in the table are still to be run, their ids are unique, and the active partitions, at least
-- one, are positive and distinct, then after ReBalance has returned every active partition has as many jobs
-- as the division of the jobs by the active partitions gives, rounded down, and there is one partition, an
-- active one or 0, that has all the jobs that are left over by the division; besides, partition 0 is empty.
pub re_balance_even :
    (srv : Server) (range : MapRange) (active : List ℕ) (w : World) {u : Unit {0}}
    → IsDistinct active
    → 0 < length active
    → All (λ j. is_live j.status ≡ true) w.tables.jobs
    → IsUnique w.tables.jobs
    → (re_balance srv range active w).0 ≡ ok u
    → (l : ℕ) × (contains (0 ∷ active) l ≡ true)
      × ((p : ℕ)
          → contains (0 ∷ active) p ≡ true
          → count_in p (re_balance srv range active w).1.tables.jobs
            ≡ (if p == 0 then 0 else length w.tables.jobs / length active)
              + (if p == l then length w.tables.jobs % length active else 0))
re_balance_even srv range active w d some_active live unique done =
    let (l, allowed, shared, strands) =
      re_balance_lem srv range active w d some_active live unique done in
    (l, allowed, shared)

-- If all jobs in the table are still to be run, their ids are unique, the active partitions, at least one,
-- are positive and distinct, and no active partition had fewer jobs than the division of the jobs by the
-- active partitions gives, rounded down, then the jobs that are left over by the division are in partition 0
-- when ReBalance has returned, and every active partition has just its share.
pub re_balance_strands_rest :
    (srv : Server) (range : MapRange) (active : List ℕ) (w : World) {u : Unit {0}}
    → IsDistinct active
    → 0 < length active
    → All (λ j. is_live j.status ≡ true) w.tables.jobs
    → IsUnique w.tables.jobs
    → ((a : ℕ)
        → contains active a ≡ true
        → length w.tables.jobs / length active ≤ count_in a w.tables.jobs)
    → (re_balance srv range active w).0 ≡ ok u
    → (count_in 0 (re_balance srv range active w).1.tables.jobs
        ≡ length w.tables.jobs % length active)
      × ((a : ℕ)
          → contains active a ≡ true
          → count_in a (re_balance srv range active w).1.tables.jobs
            ≡ length w.tables.jobs / length active)
unfolding contains
re_balance_strands_rest srv range active w d some_active live unique full done =
    let (l, allowed, shared, strands) =
      re_balance_lem srv range active w d some_active live unique done in
    let none : l ≡ 0 = strands full in
    (
      ground (arith, shared 0),
      λ a c. let n = active-nonzero active d a c in ground (arith, shared a),
    )
