-- ===== src/Worker/Pipeline/Sound.antt =====
-- What a selection, a save and a new job do to the ids of the jobs that a worker has selected.
use hermeshooks.Prelude.{
  ℕ, ◌+◌, ◌≤◌, ◌<◌, ◌≡◌, refl, ap, sym, ◌∙◌, Bool, true, none, List, [], ◌∷◌, ◌++◌, map, Memᴰ,
  arith, ◌==◌, contains, ◌⊎◌, ltb, inl, inr, Bool-cases,
}
use hermeshooks.Entities
use hermeshooks.Entities.{Time, scheduled, pending}
use hermeshooks.Storage.Models.{ScheduledJob, to_scheduled_job_entity}
use hermeshooks.Storage.Sql.{Server, World, Tables, Sql, ok, statement, begin, transact}
use hermeshooks.Storage.Sql.Holds.{Holds}
use hermeshooks.Storage.Due.{
  is_due, ids, mark_pending, set_pending, current_rows, to_pending_entity,
  select_jobs_for_execution,
}
use hermeshooks.Storage.Due.Run.{chosen, Selected, select-Selected}
use hermeshooks.Storage.Due.Claims.{mem-chosen, claimed-pending}
use hermeshooks.Storage.Ids.{Ids, Settled, pending-not}
use hermeshooks.Storage.Ids.Times.{
  times, times-update, times-select, times-limit, times-perm, times-sort, mem-of_times,
}
use hermeshooks.Storage.Ids.Operations.{select-Preserves}
use hermeshooks.Worker.Pipeline.{Jobs}
use hermeshooks.Worker.Pipeline.Counts.{count, count-append}

abbrev pub has_id : ℕ → Entities.ScheduledJob → Bool
has_id id j = j.id == id

-- The ids of the jobs that were selected.
abbrev IsAmong : Jobs → ℕ → Type 0
IsAmong js id = 0 < count (has_id id) js

count-entities :
    (id : ℕ) (rows : List ScheduledJob)
    → count (has_id id) (map to_pending_entity rows) ≡ times id rows
unfolding count times to_pending_entity to_scheduled_job_entity
count-entities id [] = refl
count-entities id (j ∷ js) = ground (arith, count-entities id js)

contains-times :
    (id : ℕ) (rows : List ScheduledJob) → 0 < times id rows → contains (ids rows) id ≡ true
unfolding contains times ids
contains-times id [] h = absurd (omega arith)
contains-times id (j ∷ js) h = ground (arith, contains-times id js)

module _ (srv : Server) where
  pub transact_closes :
      {A : Type 0} (body : Sql A) (w : World)
      → w.open_tx ≡ none
      → (transact srv body w).1.open_tx ≡ none
  unfolding transact begin statement
  transact_closes body w h = ground arith

  -- A job that is chosen was chosen once.
  times-chosen :
      (partition n : ℕ) (now : Time) (k id : ℕ) (t : Tables)
      → times id (chosen srv partition n now k t) ≤ times id t.jobs
  unfolding current_rows
  times-chosen partition n now k id t =
      let due = is_due partition now in
      omega (
        arith,
        times-limit id n _,
        times-sort id (λ r. r.run_at) _,
        times-select id due (srv.row_order k t.jobs),
        times-perm id (srv.row_order-Permᴰ k t.jobs),
      )

-- The state of the database with the jobs selected so far.
abbrev pub Sound : Jobs → World → Type 0
Sound js w = (w.open_tx ≡ none) × Ids (IsAmong js) w.job_seq w.tables

pub holding : (js : Jobs) (w : World) → Sound js w → Holds (Ids (IsAmong js)) w
holding js w (idle, i) = record { now = i; before = λ t e. cc }

module _ (srv : Server) (partition n : ℕ) (now : Time) where
  pub select-Sound :
      (js : Jobs) (w : World)
      → Sound js w
      → Sound js (select_jobs_for_execution srv partition n now w).1
  unfolding select_jobs_for_execution
  select-Sound js w s = (
    transact_closes srv _ w s.0,
    ((select-Preserves srv partition n now).at w (holding js w s)).now,
  )

  pub chosen-row :
      (k id : ℕ) (t : Tables)
      → 0 < times id (chosen srv partition n now k t)
      → (j : ScheduledJob) × Memᴰ j t.jobs × (j.id ≡ id) × (j.status ≡ scheduled)
  chosen-row k id t h =
      let (j, m, i) = mem-of_times id (chosen srv partition n now k t) h in
      let (found, due) = mem-chosen srv partition n now k t {j = j} m in (j, found, i, ground arith)

  -- A selection that returns adds jobs that are not among those selected before.
  pub select-adds :
      (js items : Jobs) (upcoming : Entities.ScheduledJob) (w w' : World)
      → (select_jobs_for_execution srv partition n now w).0 ≡ ok (items, upcoming)
      → (select_jobs_for_execution srv partition n now w).1 ≡ w'
      → Sound js w
      → ((id : ℕ) → count (has_id id) js ≤ 1)
      → Sound (items ++ js) w' × ((id : ℕ) → count (has_id id) (items ++ js) ≤ 1)
  unfolding set_pending
  select-adds js items upcoming w w' e e' s once = (
    (
      kept.0,
      record {
        below = kept.1.below;
        unique = kept.1.unique;
        drawn =
            λ id g. elim (either id g) [ inl old ↦ kept.1.drawn id old | inr new ↦ drawn id new ];
        settled = λ id g. elim (either id g) [
          | inl old ↦ kept.1.settled id old
          | inr new ↦ settled id new
        ];
      },
    ),
    λ id. elim (Bool-cases (ltb 0 (times id rows))) [
      | inl some_new ↦
          omega (arith, joined id, items_count id, apart id (ground arith), once_chosen id)
      | inr none_new ↦ ground (arith, joined id, items_count id, once id)
    ],
  )
    where
      sel :
          Selected srv partition n now w.tables
            (select_jobs_for_execution srv partition n now w).1.tables
            items
            upcoming
      sel = select-Selected srv partition n now w e

      rows : List ScheduledJob
      rows = chosen srv partition n now sel.first w.tables

      kept : Sound js w'
      kept = let after = select-Sound js w s in rw e' at after

      marked : w'.tables ≡ set_pending (ids rows) w.tables
      marked = sym (ap (λ (x : World). x.tables) e') ∙ sel.marked

      items_count : (id : ℕ) → count (has_id id) items ≡ times id rows
      items_count id = ap (count (has_id id)) sel.returned ∙ count-entities id rows

      joined :
          (id : ℕ)
          → count (has_id id) (items ++ js) ≡ count (has_id id) items + count (has_id id) js
      joined id = count-append (has_id id) items js

      either : (id : ℕ) → IsAmong (items ++ js) id → IsAmong js id ⊎ (0 < times id rows)
      either id g = elim (Bool-cases (ltb 0 (times id rows))) [
        | inl new ↦ inr (ground arith)
        | inr old ↦ inl (ground (arith, joined id, items_count id))
      ]

      apart : (id : ℕ) → 0 < times id rows → count (has_id id) js ≡ 0
      apart id h = elim (Bool-cases (ltb 0 (count (has_id id) js))) [
        | inl g ↦
            let (j, m, i, status) = chosen-row sel.first id w.tables h in
            absurd (s.1.settled id (ground arith) j m i status)
        | inr g ↦ ground arith
      ]

      once_chosen : (id : ℕ) → times id rows ≤ 1
      once_chosen id =
          omega (arith, times-chosen srv partition n now sel.first id w.tables, s.1.unique id)

      drawn : (id : ℕ) → 0 < times id rows → id < w'.job_seq
      drawn id h =
          let same =
            times-update id (λ j. contains (ids rows) j.id) mark_pending w.tables.jobs
              (λ j. refl) in
          let jobs = ap (λ (t : Tables). times id t.jobs) marked in
          let (j, m, i) =
            mem-of_times id w'.tables.jobs
              (omega (arith, jobs, same, times-chosen srv partition n now sel.first id w.tables)) in
          omega (arith, kept.1.below j m)

      settled : (id : ℕ) → 0 < times id rows → Settled id w'.tables.jobs
      settled id h j m i q =
          let m' = rw (ap (λ (t : Tables). t.jobs) marked) at m in
          let taken : contains (ids rows) j.id ≡ true = rw i (contains-times id rows h) in
          pending-not (sym (claimed-pending (ids rows) w.tables.jobs m' taken) ∙ q)
