-- ===== src/Storage/Balance/Emptied.antt =====
-- Rows that ReBalance takes out of a partition: a batch as large as the partition empties it.
use mathlib.Core.List.Memᴰ
use mathlib.Core.List.Permᴰ
use hermeshooks.Prelude.{
  ℕ, ◌≤◌, ◌<◌, ◌≡◌, ◌≢◌, ap, sym, ◌∙◌, Bool, true, inl, inr, Bool-cases, List, [], ◌∷◌, Memᴰ, Permᴰ,
  arith, ==_iff, length, limit_all, length-select-update, contains, mem-contains, select_where,
  update_where, mem-perm, mem-select_where_of_mem, mem-update_where, ◌==◌,
}
use hermeshooks.Storage.Models.{ScheduledJob}
use hermeshooks.Storage.Sql.{Tables}
use hermeshooks.Storage.Balance.Groups.{count_in, count_in-perm}
use hermeshooks.Storage.Balance.{move_to, with_jobs, batch}

-- No job is in partition `p`.
abbrev pub Emptied : ℕ → Tables → Type 0
Emptied p t = (j : ScheduledJob) → Memᴰ j t.jobs → j.partition ≢ p

-- At most `n` jobs are in partition `p`.
abbrev pub AtMost : ℕ → ℕ → Tables → Type 0
AtMost p n t = count_in p t.jobs ≤ n

pub Emptied-count : (p : ℕ) (t : Tables) → count_in p t.jobs ≡ 0 → Emptied p t
Emptied-count p t e j m q = none (select_where (λ r. r.partition == p) t.jobs) e found
  where
    found : Memᴰ j (select_where (λ r. r.partition == p) t.jobs)
    found = mem-select_where_of_mem _ _ m ((==_iff j.partition p).1 q)

    none : (rows : List ScheduledJob) → length rows ≡ 0 → Memᴰ j rows → ⊥
    none [] h k = elim k [ ]
    none (x ∷ rows) h k = omega arith

module _ (p : ℕ) (positive : 0 < p) where
  pub Emptied-move :
      (t : Tables) (q : ScheduledJob → Bool)
      → Emptied p t
      → Emptied p (with_jobs t (update_where q (move_to 0) t.jobs))
  Emptied-move t q h j m e =
      let (b, found, shape) = mem-update_where q (move_to 0) t.jobs {a = j} m in
      elim (Bool-cases (q b)) [
        | inl hit ↦
            let e' : j ≡ move_to 0 b = ground arith in
            omega (arith, ap (λ (r : ScheduledJob). r.partition) e')
        | inr miss ↦
            let e' : j ≡ b = ground arith in
            h b found (ap (λ (r : ScheduledJob). r.partition) (sym e') ∙ e)
      ]

  pub AtMost-move :
      (n : ℕ) (t : Tables) (q : ScheduledJob → Bool)
      → AtMost p n t
      → AtMost p n (with_jobs t (update_where q (move_to 0) t.jobs))
  AtMost-move n t q h = omega (
    arith,
    length-select-update (λ (j : ScheduledJob). j.partition == p) q (move_to 0) t.jobs
        (λ j e. ground arith),
  )

  -- A batch that is large enough leaves nothing behind.
  pub batch-Emptied :
      (n : ℕ) (t : Tables) (rows : List ScheduledJob)
      → Permᴰ rows t.jobs
      → AtMost p n t
      → Emptied p
          (with_jobs t (update_where (λ j. contains (batch rows p n) j.id) (move_to 0) t.jobs))
  unfolding batch
  batch-Emptied n t rows perm h j m e =
      let q = λ (r : ScheduledJob). contains (batch rows p n) r.id in
      let (b, found, shape) = mem-update_where q (move_to 0) t.jobs {a = j} m in
      elim (Bool-cases (contains (batch rows p n) b.id)) [
        | inl hit ↦
            let e' : j ≡ move_to 0 b = ground arith in
            omega (arith, ap (λ (r : ScheduledJob). r.partition) e')
        | inr miss ↦
            let e' : j ≡ b = ground arith in
            let at : b.partition ≡ p = ap (λ (r : ScheduledJob). r.partition) (sym e') ∙ e in
            let in_rows : Memᴰ b (select_where (λ r. r.partition == p) rows) =
              mem-select_where_of_mem _ _ (mem-perm (Permᴰ.symm perm) found)
                ((==_iff b.partition p).1 at) in
            let whole =
              limit_all n (select_where (λ (r : ScheduledJob). r.partition == p) rows)
                (omega (arith, count_in-perm p perm)) in
            let taken : contains (batch rows p n) b.id ≡ true =
              rw whole (mem-contains _ b.id (Memᴰ.map (λ (r : ScheduledJob). r.id) in_rows)) in
            cc
      ]
