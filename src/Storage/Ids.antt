-- ===== src/Storage/Ids.antt =====
-- The ids of jobs: unique, below the sequence they are drawn from, and, once a job is no longer scheduled,
-- not those of a scheduled job again. SelectJobsForExecution, Schedule and the executor's transaction keep
-- this; ReBalance does not, as it sets claimed jobs back.
pub mod Times
pub mod Operations
use mathlib.Core.List.Memᴰ
use hermeshooks.Prelude.{
  ℕ, zero, suc, ◌+◌, ◌≤◌, ◌<◌, ◌≡◌, ◌≢◌, ◌⊎◌, refl, ap, sym, ◌∙◌, Bool, true, false, Option, none,
  some, List, [], ◌∷◌, ◌++◌, Memᴰ, arith, ◌==◌, if◌then◌else◌, Bool-cases, Option-cases, inl, inr,
  update_where, mem-update_where, contains, length, select_where,
}
use hermeshooks.Entities
use hermeshooks.Entities.{Time, scheduled, pending, success, fail}
use hermeshooks.Storage.Models.{
  ScheduledJob, Execution, from_scheduled_job_entity, to_scheduled_job_entity,
}
use hermeshooks.Storage.Sql.{Server, World, Tables, Sql, ok, err, statement}
use hermeshooks.Storage.Sql.Holds.{
  Holds, Preserves, Preserves-pure, Preserves-raise, Preserves-bind, Preserves-read,
  Preserves-write, Preserves-statement, Preserves-transact, holds_rules,
}
use hermeshooks.Storage.Columns.{admit_job, admit_execution}
use hermeshooks.Storage.Due.{
  ids, mark_pending, set_pending, claim, select_current, select_next, selection,
  select_jobs_for_execution,
}
use hermeshooks.Storage.Balance.{notify}
use hermeshooks.Storage.Queries.{
  insert_job, insert_scheduled_job, update_job_status, insert_execution_row, insert_execution,
}
use Times.{times, times-update, times-append, times-fresh}

pub old-or-new :
    (rows : List ScheduledJob) (row : ScheduledJob) {j : ScheduledJob}
    → Memᴰ j (rows ++ row ∷ [])
    → Memᴰ j rows ⊎ (j ≡ row)
old-or-new [] row (Memᴰ.head e) = inr e
old-or-new [] row (Memᴰ.tail m) = elim m [ ]
old-or-new (x ∷ xs) row (Memᴰ.head e) = inl (Memᴰ.head e)
old-or-new (x ∷ xs) row (Memᴰ.tail m) = elim (old-or-new xs row m) [
  | inl k ↦ inl (Memᴰ.tail k)
  | inr e ↦ inr e
]

pub pending-not : pending ≢ scheduled
pending-not = λ e. omega arith

-- No job with the id is scheduled.
abbrev pub Settled : ℕ → List ScheduledJob → Type 0
Settled id rows = (j : ScheduledJob) → Memᴰ j rows → j.id ≡ id → j.status ≢ scheduled

-- No transaction is open; the ids of jobs are unique, and below the sequence that they are drawn from.
pub record IsOrderly (w : World) : Type 0 where
  pub closed_tx : w.open_tx ≡ none
  pub below : (j : ScheduledJob) → Memᴰ j w.tables.jobs → j.id < w.job_seq
  pub unique : (id : ℕ) → times id w.tables.jobs ≤ 1

-- `Gone` are the ids of jobs that must not come back.
pub record Ids (Gone : ℕ → Type 0) (n : ℕ) (t : Tables) : Type 0 where
  pub below : (j : ScheduledJob) → Memᴰ j t.jobs → j.id < n
  pub unique : (id : ℕ) → times id t.jobs ≤ 1
  pub drawn : (id : ℕ) → Gone id → id < n
  pub settled : (id : ℕ) → Gone id → Settled id t.jobs

module _ {Gone : ℕ → Type 0} where
  -- An update that leaves the ids, and sets no job to scheduled.
  pub Ids-update :
      (n : ℕ) (t t' : Tables) (p : ScheduledJob → Bool) (f : ScheduledJob → ScheduledJob)
      → t'.jobs ≡ update_where p f t.jobs
      → ((j : ScheduledJob) → (f j).id ≡ j.id)
      → ((j : ScheduledJob) → (f j).status ≢ scheduled)
      → Ids Gone n t
      → Ids Gone n t'
  Ids-update n t t' p f e same off h = record {
    below = λ j m.
        let (b, k, q) = mem-update_where p f t.jobs (rw e at m) in
        ground (arith, h.below b k, same b);
    unique = λ id. rw e (omega (arith, times-update id p f t.jobs same, h.unique id));
    drawn = h.drawn;
    settled = λ id g j m i s.
        let (b, k, q) = mem-update_where p f t.jobs (rw e at m) in
        elim (Bool-cases (p b)) [
          | inl hit ↦
              let r : j ≡ f b = ground arith in
              off b (ap (λ (x : ScheduledJob). x.status) (sym r) ∙ s)
          | inr miss ↦
              let r : j ≡ b = ground arith in
              h.settled id g b k (ap (λ (x : ScheduledJob). x.id) (sym r) ∙ i)
                (ap (λ (x : ScheduledJob). x.status) (sym r) ∙ s)
        ];
  }

  -- The jobs are the same.
  pub Ids-same : (n : ℕ) (t t' : Tables) → t'.jobs ≡ t.jobs → Ids Gone n t → Ids Gone n t'
  Ids-same n t t' e h = record {
    below = rw e h.below;
    unique = rw e h.unique;
    drawn = h.drawn;
    settled = rw e h.settled;
  }

  -- A number is drawn.
  pub Ids-draw : (n : ℕ) (t : Tables) → Ids Gone n t → Ids Gone (suc n) t
  Ids-draw n t h = record {
    below = λ j m. omega (arith, h.below j m);
    unique = h.unique;
    drawn = λ id g. omega (arith, h.drawn id g);
    settled = h.settled;
  }

  -- A job is added under the next number.
  pub Ids-append :
      (n : ℕ) (t t' : Tables) (row : ScheduledJob)
      → row.id ≡ n
      → t'.jobs ≡ t.jobs ++ row ∷ []
      → Ids Gone n t
      → Ids Gone (suc n) t'
  unfolding times
  Ids-append n t t' row i e h = record {
    below = λ j m. elim (old-or-new t.jobs row (rw e at m)) [
      | inl k ↦ omega (arith, h.below j k)
      | inr q ↦ let q' = ap (λ (x : ScheduledJob). x.id) q in omega arith
    ];
    unique = λ id. rw e (omega (arith, times-append id t.jobs (row ∷ []), h.unique id, alone id));
    drawn = λ id g. omega (arith, h.drawn id g);
    settled = λ id g j m k. elim (old-or-new t.jobs row (rw e at m)) [
      | inl old ↦ h.settled id g j old k
      | inr q ↦ absurd (let q' = ap (λ (x : ScheduledJob). x.id) q in omega (arith, h.drawn id g))
    ];
  }
    where
      alone : (id : ℕ) → times id t.jobs + times id (row ∷ []) ≤ 1
      alone id = elim (Bool-cases (row.id == id)) [
        | inl hit ↦ ground (arith, times-fresh id t.jobs λ j m. let b = h.below j m in ground arith)
        | inr miss ↦ ground (arith, h.unique id)
      ]
