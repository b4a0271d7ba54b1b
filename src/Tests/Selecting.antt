-- ===== src/Tests/Selecting.antt =====
-- Workers of partitions 1 and 2 ask for jobs, one after the other.
use hermeshooks.Prelude.{
  ◌+◌, ◌<◌, ◌⊎◌, All, All-mem, ◌≤◌, ◌≡◌, ◌≢◌, refl, none, true, List, [], ◌∷◌, Memᴰ, arith, ◌==◌,
  length, map, contains, update_where, sort_by, limit, select_where,
}
use hermeshooks.Entities
use hermeshooks.Entities.{Time, scheduled, pending, zero_job}
use hermeshooks.Storage.Models.{ScheduledJob, to_scheduled_job_entity}
use hermeshooks.Storage.Sql.{Server, World, ok, err, broken, transact, begin, commit, statement}
use hermeshooks.Storage.Due.{
  select_jobs_for_execution, selection, select_current, select_next, claim, current_rows, next_rows,
  set_pending, ids, after_time, next_entity, to_pending_entity,
}
use hermeshooks.Storage.Due.Claims.{
  select_fails, select_returns_due, select_marks_returned, select_twice_disjoint,
}
use hermeshooks.Storage.Due.Complete.{select_complete}
use hermeshooks.Storage.Due.Next.{select_next_earliest}
use hermeshooks.Monitor.{Round, round}
use hermeshooks.Monitor.Wakes.{round_wakes}
use hermeshooks.Tests.Data.{server, server_failing, world, due_one, due_later, due_elsewhere}

abbrev first_items : List Entities.ScheduledJob
first_items = to_pending_entity due_one ∷ []

abbrev second_items : List Entities.ScheduledJob
second_items = to_pending_entity due_elsewhere ∷ []

abbrev world_after : World
world_after = (select_jobs_for_execution server 1 5 10 world).1

first_call :
    (select_jobs_for_execution server 1 5 10 world).0
    ≡ ok (first_items, to_scheduled_job_entity due_later)
unfolding select_jobs_for_execution selection select_current select_next claim current_rows
    next_rows set_pending ids after_time next_entity to_pending_entity to_scheduled_job_entity
    transact begin commit statement sort_by limit select_where update_where contains
first_call = refl

second_call : (select_jobs_for_execution server 2 5 10 world_after).0 ≡ ok (second_items, zero_job)
unfolding select_jobs_for_execution selection select_current select_next claim current_rows
    next_rows set_pending ids after_time next_entity to_pending_entity to_scheduled_job_entity
    transact begin commit statement sort_by limit select_where update_where contains
second_call = refl

later_kept : Memᴰ due_later (select_jobs_for_execution server 1 5 10 world).1.tables.jobs
unfolding select_jobs_for_execution selection select_current select_next claim current_rows
    next_rows set_pending ids after_time next_entity to_pending_entity to_scheduled_job_entity
    transact begin commit statement sort_by limit select_where update_where contains
later_kept = Memᴰ.tail (Memᴰ.head refl)

select_twice_disjoint_example :
    (to_pending_entity due_one).id ≢ (to_pending_entity due_elsewhere).id
select_twice_disjoint_example =
    select_twice_disjoint server server 1 2 5 5 10 10 world world_after first_call refl second_call
      (to_pending_entity due_one) (to_pending_entity due_elsewhere) (Memᴰ.head refl)
      (Memᴰ.head refl)

select_next_earliest_example :
    (i : ScheduledJob) × Memᴰ i (select_jobs_for_execution server 1 5 10 world).1.tables.jobs
    × (i.status ≡ scheduled)
    × (i.partition ≡ 1)
    × (i.run_at ≤ 20)
    × (to_scheduled_job_entity due_later ≡ to_scheduled_job_entity i)
select_next_earliest_example =
    select_next_earliest server 1 5 10 world due_later first_call later_kept refl refl

select_returns_due_example :
    (length first_items ≤ 5)
    × ((e : Entities.ScheduledJob)
        → Memᴰ e first_items
        → (j : ScheduledJob) × Memᴰ j world.tables.jobs
          × (e ≡ to_pending_entity j)
          × (j.status ≡ scheduled)
          × (j.partition ≡ 1)
          × (j.run_at ≤ 10))
select_returns_due_example = select_returns_due server 1 5 10 world (omega arith) first_call

select_marks_returned_example : world_after.tables ≡ record (world.tables) {
  jobs =
      update_where
        (λ j. contains (map (λ e. e.id) first_items) j.id)
        (λ j. record j { status = pending })
        world.tables.jobs;
}
select_marks_returned_example = select_marks_returned server 1 5 10 world first_call

-- The fifth round trip, the commit, is carried out, and its answer is lost.
abbrev flaky : Server
flaky = record (server_failing λ n. n == 4) { commits = λ n. true }

lost_answer : (select_jobs_for_execution flaky 1 5 10 world).0 ≡ err broken
unfolding select_jobs_for_execution selection select_current select_next claim current_rows
    next_rows set_pending ids after_time next_entity to_pending_entity to_scheduled_job_entity
    transact begin commit statement sort_by limit select_where update_where contains
lost_answer = refl

select_fails_example :
    let w' = (select_jobs_for_execution flaky 1 5 10 world).1 in
    (w'.open_tx ≡ none)
    × ((w'.tables ≡ world.tables)
        ⊎ ((rows : List ScheduledJob) × (length rows ≤ 5)
            × ((j : ScheduledJob)
                → Memᴰ j rows
                → Memᴰ j world.tables.jobs
                  × (j.status ≡ scheduled)
                  × (j.partition ≡ 1)
                  × (j.run_at ≤ 10))
            × (w'.tables ≡ record (world.tables) {
              jobs =
                  update_where
                    (λ j. contains (map (λ (r : ScheduledJob). r.id) rows) j.id)
                    (λ j. record j { status = pending })
                    world.tables.jobs;
            })))
select_fails_example = select_fails flaky 1 5 10 world refl (omega arith) lost_answer

timed : All (λ (j : ScheduledJob). 0 < j.run_at) (round server 1 10 world).1.tables.jobs
unfolding round select_jobs_for_execution selection select_current select_next claim current_rows
    next_rows set_pending ids after_time next_entity to_pending_entity to_scheduled_job_entity
    transact begin commit statement sort_by limit select_where update_where contains
timed = (omega arith, (omega arith, (omega arith, (omega arith, tt))))

round_wakes_example :
    (r : Round) × ((round server 1 10 world).0 ≡ ok r)
    × ((j : ScheduledJob)
        → Memᴰ j (round server 1 10 world).1.tables.jobs
        → j.status ≡ scheduled
        → j.partition ≡ 1
        → (10 + r.wait ≤ j.run_at)
          ⊎ ((r.wait ≡ 1)
              × ((i : ScheduledJob) × Memᴰ i (round server 1 10 world).1.tables.jobs
                  × (i.status ≡ scheduled)
                  × (i.partition ≡ 1)
                  × (i.run_at ≤ 10))))
round_wakes_example =
    round_wakes server 1 10 world (λ n. refl)
      λ k m.
        All-mem (λ (j : ScheduledJob). 0 < j.run_at) (round server 1 10 world).1.tables.jobs timed m

select_complete_example :
    Memᴰ (to_pending_entity due_one) first_items
    ⊎ ((length first_items ≡ 5)
        × ((e : Entities.ScheduledJob) → Memᴰ e first_items → e.run_at ≤ due_one.run_at))
select_complete_example =
    select_complete server 1 5 10 world due_one (omega arith) first_call (Memᴰ.head refl) refl refl
      (omega arith)
