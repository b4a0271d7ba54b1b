-- ===== src/Tests/Working.antt =====
-- A worker with one slot that works off a small table.
use hermeshooks.Prelude.{
  ℕ, ◌+◌, ◌≤◌, ◌<◌, ◌≡◌, refl, String, Bool, true, false, Option, none, some, [], ◌∷◌, Memᴰ, arith,
  limit, sort_by, select_where, update_where, contains, inl, inr,
}
use mathlib.Core.List.Memᴰ
use Prim.Native.String.{◌++◌ as append}
use hermeshooks.Entities
use hermeshooks.Storage.Models.{ScheduledJob, to_scheduled_job_entity}
use hermeshooks.Storage.Sql.{Server, World, Result, ok, transact}
use hermeshooks.Storage.Due.{
  select_jobs_for_execution, select_current, claim, current_rows, select_next, next_entity,
  next_rows, set_pending, ids, after_time, to_pending_entity,
}
use hermeshooks.Executor.{process, processed, deliver, prepare_req, save}
use hermeshooks.Storage.Ids.{IsOrderly}
use hermeshooks.Storage.Ids.Times.{times}
use hermeshooks.Common.Retry.{Request, Reply}
use hermeshooks.Monitor.{Round, round, wait_time}
use hermeshooks.Worker.Pipeline.{
  Pipe, new_pipe, selects, leaves, pushes, receives, launches, processes, fills, Reach, here, next,
}
use hermeshooks.Worker.Pipeline.Counts.{count, total}
use hermeshooks.Worker.Pipeline.Bounds.{Inv, Reach-Inv, returned_finished}
use hermeshooks.Worker.Pipeline.Sound.{has_id}
use hermeshooks.Worker.Pipeline.Once.{selected_once}
use hermeshooks.Tests.Data.{server, world_of, due_one, due_later}

-- No client is ever asked: every URL is unfit.
abbrev client : ℕ → Request → Reply × ℕ
client n q = (record { resp = none; err = some "down"; body_left = none }, n)

abbrev bad_url : String → Option String
bad_url url = some "bad"

abbrev pub table : World
table = world_of (due_one ∷ due_later ∷ [])

pub orderly : IsOrderly table
unfolding times
orderly = record { closed_tx = refl; below = λ j m. below j m; unique = λ id. ground arith }
  where
    below : (j : ScheduledJob) → Memᴰ j (due_one ∷ due_later ∷ []) → j.id < 10
    below j m = elim (Memᴰ.cases_cons m) [
      | inl e ↦ ground arith
      | inr k ↦ elim (Memᴰ.cases_cons k) [ inl e ↦ ground arith | inr n ↦ elim n [ ] ]
    ]

abbrev job : Entities.ScheduledJob
job = to_pending_entity due_one

abbrev picked : Round
picked = record { jobs = job ∷ []; wait = 10 }

abbrev after_round : Server → World
after_round srv = (round srv 1 10 table).1

chose : round server 1 10 table ≡ (ok picked, after_round server)
unfolding round select_jobs_for_execution transact select_current claim current_rows limit sort_by
    select_where select_next to_scheduled_job_entity wait_time next_entity next_rows set_pending
    update_where contains ids after_time
chose = refl

abbrev saved : Result (Unit {0}) × World
saved =
    save server job 0 (some (append "fail to prepare req error: " "bad")) 11 (after_round server)

carried_out :
    process server client bad_url job 11 0 (after_round server) ≡ processed saved.0 saved.1
unfolding process deliver prepare_req
carried_out = refl

abbrev Run : Pipe → Type 0
Run = Reach server 1 1 client bad_url table

abbrev returned : Pipe
returned = record {
  db = saved.1;
  selected = job ∷ [];
  pushers = [] ∷ [];
  channel = [];
  closed = true;
  held = none;
  active = [];
  finished = job ∷ [];
  filled = 1;
  panicked = false;
}

-- The job is selected, pushed, received, launched and processed; then the context is done.
run : Run returned
unfolding new_pipe
run =
    next
      (next
        (next
          (next
            (next
              (next (next here refl (selects _ 10 picked _ refl chose)) refl
                (pushes _ [] [] job [] refl refl (omega arith)))
              refl (receives _ job [] refl refl))
            refl (launches _ job refl (omega arith)))
          refl (processes _ [] [] job 11 0 _ _ refl carried_out))
        refl (leaves _ [] refl refl))
      refl (fills _ refl refl refl (omega arith))

Reach-Inv_example : Inv 1 returned
Reach-Inv_example = Reach-Inv server 1 1 client bad_url run

returned_finished_example :
    (returned.active ≡ [])
    × ((q : Entities.ScheduledJob → Bool)
        → count q returned.selected ≡ count q returned.finished + total q returned.pushers)
returned_finished_example = returned_finished server 1 1 client bad_url run (omega arith) refl

selected_once_example :
    (count (has_id 1) returned.selected ≤ 1)
    × (count (has_id 1) returned.active + count (has_id 1) returned.finished ≤ 1)
selected_once_example = selected_once server 1 1 client bad_url orderly run 1
