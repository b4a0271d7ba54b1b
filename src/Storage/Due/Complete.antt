-- ===== src/Storage/Due/Complete.antt =====
-- SelectJobsForExecution overlooks no job that is due.
use mathlib.Core.List.Memᴰ
use mathlib.Core.List.Permᴰ
use hermeshooks.Prelude.{
  ℕ, zero, suc, ◌≤◌, ◌<◌, ◌≡◌, ap, sym, ◌∙◌, ◌⊎◌, inl, inr, true, List, Memᴰ, arith, length,
  length-map, length-take_of_drop, mem-perm, mem-take-drop, take-le-drop, sort_by, limit,
  mem-select_where_of_mem, mem-sort_by_of_mem, sort_by-IsSorted,
}
use hermeshooks.Entities
use hermeshooks.Entities.{Time, scheduled}
use hermeshooks.Storage.Models.{ScheduledJob, to_scheduled_job_entity}
use hermeshooks.Storage.Sql.{Server, World, ok}
use hermeshooks.Storage.Due.{is_due, current_rows, to_pending_entity, select_jobs_for_execution}
use hermeshooks.Storage.Due.Run.{chosen, select-Selected}

abbrev by_time : ScheduledJob → ℕ
by_time j = j.run_at

-- A row is within the limit, or the limit is reached by rows that run no later.
limit-first :
    (n : ℕ) (rows : List ScheduledJob) {j : ScheduledJob}
    → 0 < n
    → Memᴰ j rows
    → Memᴰ j (limit n (sort_by by_time rows))
      ⊎ ((length (limit n (sort_by by_time rows)) ≡ n)
          × ((r : ScheduledJob) → Memᴰ r (limit n (sort_by by_time rows)) → r.run_at ≤ j.run_at))
unfolding limit
limit-first zero rows h m = absurd (omega arith)
limit-first (suc n) rows {j} h m =
    let sorted = sort_by by_time rows in
    elim (mem-take-drop (suc n) sorted (mem-sort_by_of_mem by_time rows m)) [
      | inl t ↦ inl t
      | inr d ↦ inr (
        length-take_of_drop (suc n) sorted d,
        λ r k.
            take-le-drop by_time (suc n) sorted {a = r} {b = j} (sort_by-IsSorted by_time rows) k d,
      )
    ]

module _ (srv : Server) (partition n : ℕ) (now : Time) where
  -- When a call with a positive limit returns, every row of the partition that was scheduled and whose
  -- time had come is among the jobs returned, as pending; or as many jobs were returned as the limit
  -- allows, and they all run no later than that row.
  pub select_complete :
      (w : World) {items : List Entities.ScheduledJob} {next : Entities.ScheduledJob}
      (j : ScheduledJob)
      → 0 < n
      → (select_jobs_for_execution srv partition n now w).0 ≡ ok (items, next)
      → Memᴰ j w.tables.jobs
      → j.status ≡ scheduled
      → j.partition ≡ partition
      → j.run_at ≤ now
      → Memᴰ (to_pending_entity j) items
        ⊎ ((length items ≡ n) × ((e : Entities.ScheduledJob) → Memᴰ e items → e.run_at ≤ j.run_at))
  unfolding current_rows to_pending_entity to_scheduled_job_entity
  select_complete w {items} j h e m waits here come =
      let s = select-Selected srv partition n now w e in
      let rows = chosen srv partition n now s.first w.tables in
      let met = mem-perm (Permᴰ.symm (srv.row_order-Permᴰ s.first w.tables.jobs)) m in
      let due : is_due partition now j ≡ true = ground arith in
      elim (limit-first n _ {j = j} h
        (mem-select_where_of_mem (is_due partition now) _ {a = j} met due)) [
          | inl k ↦ inl (rw s.returned (Memᴰ.map to_pending_entity k))
          | inr (full, first) ↦ inr (
            ap length s.returned ∙ length-map to_pending_entity rows ∙ full,
            λ x k.
                let (r, l, q) = Memᴰ.of_map to_pending_entity rows (rw s.returned at k) in
                rw (ap (λ (y : Entities.ScheduledJob). y.run_at) (sym q)) (first r l),
          )
        ]
