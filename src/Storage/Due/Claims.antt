-- ===== src/Storage/Due/Claims.antt =====
-- What a call of SelectJobsForExecution claims: rows that were due, marked pending, and no job twice.
use mathlib.Core.List.Memᴰ
use hermeshooks.Prelude.{
  none, ℕ, zero, suc, ◌≤◌, ◌<◌, ◌≡◌, ◌≢◌, refl, ap, sym, ◌∙◌, List, [], ◌∷◌, map, Memᴰ, arith, true,
  Bool-cases, ◌⊎◌, inl, inr, length, length-map, length-take-le, mem-take, mem-perm, contains,
  mem-contains, update_where, limit, mem-select_where, mem-sort_by, mem-update_where,
}
use hermeshooks.Entities
use hermeshooks.Entities.{Time, scheduled, pending}
use hermeshooks.Storage.Models.{ScheduledJob, to_scheduled_job_entity}
use hermeshooks.Storage.Sql.{Server, World, Tables, Error, ok, err}
use hermeshooks.Storage.Due.Run.{chosen, select-Selected, select_closes, select_err}
use hermeshooks.Storage.Due.{
  is_due, ids, mark_pending, current_rows, set_pending, to_pending_entity,
  select_jobs_for_execution,
}

mem-limit :
    (n : ℕ) (rows : List ScheduledJob) {j : ScheduledJob} → Memᴰ j (limit n rows) → Memᴰ j rows
unfolding limit
mem-limit zero rows m = m
mem-limit (suc n) rows m = mem-take (suc n) rows m

length-limit : (n : ℕ) (rows : List ScheduledJob) → 0 < n → length (limit n rows) ≤ n
unfolding limit
length-limit zero rows h = absurd (omega arith)
length-limit (suc n) rows h = length-take-le (suc n) rows

module _ (srv : Server) (partition n : ℕ) (now : Time) where
  -- A chosen row is a row of the table, and is due.
  pub mem-chosen :
      (k : ℕ) (t : Tables) {j : ScheduledJob}
      → Memᴰ j (chosen srv partition n now k t)
      → Memᴰ j t.jobs × (is_due partition now j ≡ true)
  unfolding current_rows
  mem-chosen k t {j} m =
      let (found, due) =
        mem-select_where (is_due partition now) (srv.row_order k t.jobs) {a = j}
          (mem-sort_by (λ r. r.run_at) _ (mem-limit n _ m)) in
      (mem-perm (srv.row_order-Permᴰ k t.jobs) found, due)

  length-chosen : (k : ℕ) (t : Tables) → 0 < n → length (chosen srv partition n now k t) ≤ n
  unfolding current_rows
  length-chosen k t h = length-limit n _ h

  returned-due :
      (w : World) {items : List Entities.ScheduledJob} {next : Entities.ScheduledJob}
      → (select_jobs_for_execution srv partition n now w).0 ≡ ok (items, next)
      → (e : Entities.ScheduledJob) → Memᴰ e items
      → (j : ScheduledJob) × Memᴰ j w.tables.jobs
        × (e ≡ to_pending_entity j)
        × (j.status ≡ scheduled)
        × (j.partition ≡ partition)
        × (j.run_at ≤ now)
  returned-due w e x m =
      let s = select-Selected srv partition n now w e in
      let rows = chosen srv partition n now s.first w.tables in
      let (j, mem, eq) = Memᴰ.of_map to_pending_entity rows (rw s.returned at m) in
      let (found, due) = mem-chosen s.first w.tables {j = j} mem in
      (j, found, sym eq, ground arith, ground arith, ground arith)

  -- Begun with no transaction open, a call with a positive limit that returns an error leaves none open, and
  -- it has changed no table, or one thing only (when its commit was carried out, and the answer was lost):
  -- some rows of the partition, no more than the limit, that were scheduled, with their time come, are now
  -- pending, with all the rows that have their ids.
  pub select_fails :
      (w : World) {e : Error}
      → w.open_tx ≡ none
      → 0 < n
      → (select_jobs_for_execution srv partition n now w).0 ≡ err e
      → let w' = (select_jobs_for_execution srv partition n now w).1 in
        (w'.open_tx ≡ none)
        × ((w'.tables ≡ w.tables)
            ⊎ ((rows : List ScheduledJob) × (length rows ≤ n)
                × ((j : ScheduledJob)
                    → Memᴰ j rows
                    → Memᴰ j w.tables.jobs
                      × (j.status ≡ scheduled)
                      × (j.partition ≡ partition)
                      × (j.run_at ≤ now))
                × (w'.tables ≡ record (w.tables) {
                  jobs =
                      update_where
                        (λ j. contains (map (λ (r : ScheduledJob). r.id) rows) j.id)
                        (λ j. record j { status = pending })
                        w.tables.jobs;
                })))
  unfolding set_pending ids
  select_fails w closed positive failed = (
    select_closes srv partition n now w closed,
    elim (select_err srv partition n now w closed failed) [
      | inl same ↦ inl same
      | inr (k, marked) ↦ inr (
        chosen srv partition n now k w.tables,
        length-chosen k w.tables positive,
        λ j m.
            let (found, due) = mem-chosen k w.tables {j = j} m in
            (found, ground arith, ground arith, ground arith),
        marked,
      )
    ],
  )

  -- When a call with a positive limit returns: there are no more jobs than the limit, and every
  -- job was a row of the partition, scheduled, with its time come, and is returned as that row,
  -- pending.
  pub select_returns_due :
      (w : World) {items : List Entities.ScheduledJob} {next : Entities.ScheduledJob}
      → 0 < n
      → (select_jobs_for_execution srv partition n now w).0 ≡ ok (items, next)
      → (length items ≤ n)
        × ((e : Entities.ScheduledJob)
            → Memᴰ e items
            → (j : ScheduledJob) × Memᴰ j w.tables.jobs
              × (e ≡ to_pending_entity j)
              × (j.status ≡ scheduled)
              × (j.partition ≡ partition)
              × (j.run_at ≤ now))
  select_returns_due w {items} h e =
      let s = select-Selected srv partition n now w e in
      let rows = chosen srv partition n now s.first w.tables in
      (
        omega (
          arith,
          ap length s.returned,
          length-map to_pending_entity rows,
          length-chosen s.first w.tables h,
        ),
        returned-due w e,
      )

  ids-to_pending :
      (rows : List ScheduledJob) → map (λ e. e.id) (map to_pending_entity rows) ≡ ids rows
  unfolding ids to_pending_entity to_scheduled_job_entity
  ids-to_pending [] = refl
  ids-to_pending (j ∷ js) = ap (◌∷◌ j.id) (ids-to_pending js)

  -- When a call returns, the tables have changed in one way only: the rows with the ids that were
  -- returned are set pending.
  pub select_marks_returned :
      (w : World) {items : List Entities.ScheduledJob} {next : Entities.ScheduledJob}
      → (select_jobs_for_execution srv partition n now w).0 ≡ ok (items, next)
      → (select_jobs_for_execution srv partition n now w).1.tables ≡ record (w.tables) {
        jobs =
            update_where
              (λ j. contains (map (λ e. e.id) items) j.id)
              (λ j. record j { status = pending })
              w.tables.jobs;
      }
  unfolding set_pending
  select_marks_returned w {items} e =
      let s = select-Selected srv partition n now w e in
      let rows = chosen srv partition n now s.first w.tables in
      let same : map (λ x. x.id) items ≡ ids rows =
        ap (map λ x. x.id) s.returned ∙ ids-to_pending rows in
      rw same s.marked

-- A row whose id was claimed is pending.
pub claimed-pending :
    (taken : List ℕ) (rows : List ScheduledJob) {j : ScheduledJob}
    → Memᴰ j (update_where (λ r. contains taken r.id) mark_pending rows)
    → contains taken j.id ≡ true
    → j.status ≡ pending
claimed-pending taken rows {j} m c =
    let (b, found, e) = mem-update_where (λ r. contains taken r.id) mark_pending rows {a = j} m in
    elim (Bool-cases (contains taken b.id)) [
      | inl hit ↦ let e' : j ≡ mark_pending b = ground arith in ap (λ r. r.status) e'
      | inr miss ↦
          let e' : j ≡ b = ground arith in let c' : contains taken b.id ≡ true = rw (← e') c in cc
    ]

-- Two calls that return, the second on the tables that the first has left, have no job id in
-- common, whatever their servers, partitions, limits and times.
pub select_twice_disjoint :
    (srv srv' : Server) (p p' n n' : ℕ) (now now' : Time) (w w' : World)
    {items items' : List Entities.ScheduledJob} {next next' : Entities.ScheduledJob}
    → (select_jobs_for_execution srv p n now w).0 ≡ ok (items, next)
    → w'.tables ≡ (select_jobs_for_execution srv p n now w).1.tables
    → (select_jobs_for_execution srv' p' n' now' w').0 ≡ ok (items', next')
    → (a b : Entities.ScheduledJob) → Memᴰ a items
    → Memᴰ b items'
    → a.id ≢ b.id
unfolding to_pending_entity to_scheduled_job_entity
select_twice_disjoint srv srv' p p' n n' now now' w w' {items} e same e' a b ma mb same_id =
    let (j, found, shape, status, _, _) = returned-due srv' p' n' now' w' e' b mb in
    let here : Memᴰ j
        (update_where (λ r. contains (map (λ x. x.id) items) r.id) mark_pending w.tables.jobs) =
      rw (ap (λ (t : Tables). t.jobs) (same ∙ select_marks_returned srv p n now w e)) at found in
    let id_eq : j.id ≡ a.id = sym (same_id ∙ ap (λ (x : Entities.ScheduledJob). x.id) shape) in
    let taken : contains (map (λ x. x.id) items) j.id ≡ true =
      rw id_eq (mem-contains _ a.id (Memᴰ.map (λ (x : Entities.ScheduledJob). x.id) ma)) in
    omega (arith, claimed-pending (map (λ x. x.id) items) w.tables.jobs here taken)
