-- ===== src/Storage/Due/Next.antt =====
-- The job that SelectJobsForExecution names as the next one: a worker that sleeps until its time
-- oversleeps nothing.
use mathlib.Core.List.Memᴰ
use mathlib.Core.List.Permᴰ
use hermeshooks.Prelude.{
  ℕ, zero, suc, ◌≤◌, ◌≡◌, ap, sym, ◌∙◌, List, [], ◌∷◌, Memᴰ, arith, true, none, some, Bool-cases,
  Option-cases, inl, inr, ◌⊎◌, leb, head?, last?, mem-last, mem-head, head_of_mem, last_of_drop,
  mem-take-drop, mem-perm, contains, mem-contains, select_where, sort_by, limit, mem-select_where,
  mem-select_where_of_mem, mem-sort_by, mem-sort_by_of_mem, mem-update_where, sort_by-IsSorted,
  head-le, last-le-drop,
}
use hermeshooks.Entities
use hermeshooks.Entities.{Time, scheduled, zero_job}
use hermeshooks.Storage.Models.{ScheduledJob, to_scheduled_job_entity}
use hermeshooks.Storage.Sql.{Server, World, Tables, ok}
use hermeshooks.Storage.Due.Run.{chosen, select-Selected}
use hermeshooks.Storage.Due.Claims.{mem-chosen}
use hermeshooks.Storage.Due.{
  is_due, is_later, ids, mark_pending, current_rows, next_rows, set_pending, after_time,
  next_entity, select_jobs_for_execution,
}

abbrev by_time : ScheduledJob → ℕ
by_time j = j.run_at

-- A row that the limit cuts off runs no earlier than the last row within it.
limit-cuts-later :
    (n : ℕ) (rows : List ScheduledJob) {j : ScheduledJob}
    → Memᴰ j rows
    → Memᴰ j (limit n (sort_by by_time rows))
      ⊎ ((l : ScheduledJob) × (last? (limit n (sort_by by_time rows)) ≡ some l)
          × (l.run_at ≤ j.run_at))
unfolding limit
limit-cuts-later zero rows m = inl (mem-sort_by_of_mem by_time rows m)
limit-cuts-later (suc n) rows {j} m =
    elim (mem-take-drop (suc n) (sort_by by_time rows) (mem-sort_by_of_mem by_time rows m)) [
      | inl t ↦ inl t
      | inr d ↦
          let (l, e) = last_of_drop n (sort_by by_time rows) d in
          inr (
            l,
            e,
            last-le-drop by_time (suc n) (sort_by by_time rows) {l = l} {a = j}
                (sort_by-IsSorted by_time rows) e d,
          )
    ]

after_time-last :
    (rows : List ScheduledJob) (now : Time) {l : ScheduledJob}
    → last? rows ≡ some l
    → after_time rows now ≡ l.run_at
unfolding after_time
after_time-last rows now e = ground arith

after_time-none :
    (rows : List ScheduledJob) (now : Time) → last? rows ≡ none → after_time rows now ≡ now
unfolding after_time
after_time-none rows now e = ground arith

next_entity-head :
    (rows : List ScheduledJob) {i : ScheduledJob}
    → head? rows ≡ some i
    → next_entity (limit 1 rows) ≡ to_scheduled_job_entity i
unfolding next_entity limit
next_entity-head [] e = cc
next_entity-head (x ∷ xs) e = ground arith

module _ (srv : Server) (partition n : ℕ) (now : Time) where
  -- The second query starts no later than any row that is scheduled and was not chosen.
  after_time-le :
      (k : ℕ) (t : Tables) {j : ScheduledJob}
      → Memᴰ j t.jobs
      → j.status ≡ scheduled
      → j.partition ≡ partition
      → (Memᴰ j (chosen srv partition n now k t))
        ⊎ (after_time (chosen srv partition n now k t) now ≤ j.run_at)
  unfolding current_rows
  after_time-le k t {j} m st pa = elim (Bool-cases (leb j.run_at now)) [
    | inl due ↦
        elim (limit-cuts-later n (select_where (is_due partition now) (srv.row_order k t.jobs))
          {j = j}
          (mem-select_where_of_mem _ _ (mem-perm (Permᴰ.symm (srv.row_order-Permᴰ k t.jobs)) m)
            (ground arith))) [
              | inl c ↦ inl c
              | inr (l, e, h) ↦ inr (rw (after_time-last _ now e) h)
            ]
    | inr early ↦ elim (Option-cases (last? (chosen srv partition n now k t))) [
      | inl e ↦ inr (rw (after_time-none _ now e) (ground arith))
      | inr (l, e) ↦
          let (_, due) = mem-chosen srv partition n now k t {j = l} (mem-last _ e) in
          inr (rw (after_time-last _ now e) (ground arith))
    ]
  ]

  -- The next job is the first of the rows that are scheduled after that.
  next_entity-le :
      (k : ℕ) (t : Tables) (from : Time) {j : ScheduledJob}
      → Memᴰ j t.jobs
      → j.status ≡ scheduled
      → j.partition ≡ partition
      → from ≤ j.run_at
      → (i : ScheduledJob) × Memᴰ i t.jobs
        × (i.status ≡ scheduled)
        × (i.partition ≡ partition)
        × (i.run_at ≤ j.run_at)
        × (next_entity (next_rows (srv.row_order k t.jobs) partition from)
            ≡ to_scheduled_job_entity i)
  unfolding next_rows
  next_entity-le k t from {j} m st pa h =
      let rows = select_where (is_later partition from) (srv.row_order k t.jobs) in
      let known : Memᴰ j (sort_by by_time rows) = mem-sort_by_of_mem by_time rows (
        mem-select_where_of_mem _ _ (mem-perm (Permᴰ.symm (srv.row_order-Permᴰ k t.jobs)) m)
          (ground arith)) in
      let (i, e) = head_of_mem (sort_by by_time rows) known in
      let (found, later) =
        mem-select_where (is_later partition from) (srv.row_order k t.jobs) {a = i}
          (mem-sort_by by_time rows (mem-head _ e)) in
      (
        i,
        mem-perm (srv.row_order-Permᴰ k t.jobs) found,
        ground arith,
        ground arith,
        head-le by_time (sort_by by_time rows) {h = i} {a = j} (sort_by-IsSorted by_time rows) e
            known,
        next_entity-head (sort_by by_time rows) e,
      )

  -- A row that is scheduled after the call was so before, and was not chosen.
  still_scheduled :
      (t : Tables) (rows : List ScheduledJob) {j : ScheduledJob}
      → Memᴰ j (set_pending (ids rows) t).jobs
      → j.status ≡ scheduled
      → Memᴰ j t.jobs × ¬ Memᴰ j rows
  unfolding set_pending ids
  still_scheduled t rows {j} m st =
      let (b, found, e) =
        mem-update_where (λ r. contains (ids rows) r.id) mark_pending t.jobs {a = j} m in
      elim (Bool-cases (contains (ids rows) b.id)) [
        | inl hit ↦
            let e' : j ≡ mark_pending b = ground arith in
            absurd (omega (arith, ap (λ (r : ScheduledJob). r.status) e'))
        | inr miss ↦
            let e' : j ≡ b = ground arith in
            (
              Memᴰ.cast e' found,
              λ k.
                  let hit : contains (ids rows) b.id ≡ true =
                    mem-contains (ids rows) b.id
                      (Memᴰ.map (λ (r : ScheduledJob). r.id) (Memᴰ.cast (sym e') k)) in
                  cc,
            )
      ]

  -- When a call has returned and a row of its partition is still scheduled, the job named next is
  -- such a row too, and runs no later than that one.
  pub select_next_earliest :
      (w : World) {items : List Entities.ScheduledJob} {next : Entities.ScheduledJob}
      (j : ScheduledJob)
      → (select_jobs_for_execution srv partition n now w).0 ≡ ok (items, next)
      → Memᴰ j (select_jobs_for_execution srv partition n now w).1.tables.jobs
      → j.status ≡ scheduled
      → j.partition ≡ partition
      → (i : ScheduledJob) × Memᴰ i (select_jobs_for_execution srv partition n now w).1.tables.jobs
        × (i.status ≡ scheduled)
        × (i.partition ≡ partition)
        × (i.run_at ≤ j.run_at)
        × (next ≡ to_scheduled_job_entity i)
  select_next_earliest w {items} {next} j e m st pa =
      let s = select-Selected srv partition n now w e in
      let t' = (select_jobs_for_execution srv partition n now w).1.tables in
      let rows = chosen srv partition n now s.first w.tables in
      let m' : Memᴰ j (set_pending (ids rows) w.tables).jobs = rw s.marked at m in
      let (old, fresh) = still_scheduled w.tables rows {j = j} m' st in
      elim (after_time-le s.first w.tables {j = j} old st pa) [
        | inl c ↦ absurd (fresh c)
        | inr h ↦
            let (i, found, a, b, c, d) =
              next_entity-le s.second t' (after_time rows now) {j = j} m st pa h in
            (i, found, a, b, c, s.following ∙ d)
      ]
