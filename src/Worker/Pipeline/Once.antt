-- ===== src/Worker/Pipeline/Once.antt =====
-- No job is selected twice by a worker.
use hermeshooks.Prelude.{ℕ, ◌+◌, ◌≤◌, ◌≡◌, refl, ap, ◌∙◌, String, Option, [], arith}
use hermeshooks.Entities
use hermeshooks.Entities.{Time, scheduled, pending}
use hermeshooks.Storage.Sql.{Server, World, Result, ok, err}
use hermeshooks.Storage.Due.{select_jobs_for_execution}
use hermeshooks.Storage.Ids.{IsOrderly}
use hermeshooks.Storage.Ids.Operations.{schedule-Preserves, schedule-KeepsTx, save-Preserves}
use hermeshooks.ScheduledJobs.{schedule}
use hermeshooks.Common.Retry.{Request, Reply}
use hermeshooks.Executor.{process, processed, aborted, save, Delivery, crashed, delivered, deliver}
use hermeshooks.Monitor.{Round, round, round_of, buff_size}
use hermeshooks.Worker.Pipeline.{
  Jobs, Pipe, new_pipe, Step, selects, fails, leaves, pushes, pushes_closed, receives, launches,
  processes, crashes, fills, others_select, others_schedule, Reach, here, next,
}
use hermeshooks.Worker.Pipeline.Counts.{count}
use hermeshooks.Worker.Pipeline.Bounds.{Reach-Inv}
use hermeshooks.Worker.Pipeline.Sound.{
  has_id, Sound, holding, transact_closes, select-Sound, select-adds,
}

abbrev Apart : Pipe → Type 0
Apart p = Sound p.selected p.db × ((id : ℕ) → count (has_id id) p.selected ≤ 1)

schedule-Sound :
    (srv : Server) (partition : ℕ) (j : Entities.ScheduledJob) (js : Jobs) (w : World)
    → Sound js w
    → Sound js (schedule srv partition j w).1
schedule-Sound srv partition j js w s = (
  (schedule-KeepsTx srv partition j).at w ∙ s.0,
  ((schedule-Preserves srv partition j).at w (holding js w s)).now,
)

save-Sound :
    (srv : Server) (j : Entities.ScheduledJob) (code : ℕ) (error : Option String) (now : Time)
    (js : Jobs) (w : World)
    → Sound js w
    → Sound js (save srv j code error now w).1
unfolding save
save-Sound srv j code error now js w s =
    (transact_closes srv _ w s.0, ((save-Preserves srv j code error now).at w (holding js w s)).now)

-- A round that returns has selected its jobs.
round-ok :
    (now : Time) (res : Result (Jobs × Entities.ScheduledJob)) (r : Round)
    → round_of now res ≡ ok r
    → (upcoming : Entities.ScheduledJob) × (res ≡ ok (r.jobs, upcoming))
round-ok now (err e) r q = cc
round-ok now (ok (items, upcoming)) r q =
    (upcoming, let same : items ≡ r.jobs = ap jobs_of q in rw same refl)
  where
    jobs_of : Result Round → Jobs
    jobs_of (err e) = []
    jobs_of (ok r) = r.jobs

module _ (srv : Server) (partition threads : ℕ) {S : Type 0} (send : S → Request → Reply × S)
    (url_error : String → Option String) where
  process-Sound :
      (j : Entities.ScheduledJob) (now : Time) (s : S) (r : Result (Unit {0})) (js : Jobs)
      (w w' : World)
      → process srv send url_error j now s w ≡ processed r w'
      → Sound js w
      → Sound js w'
  unfolding process
  process-Sound j now s r js w w' e sound = go (deliver srv send url_error j s) e
    where
      go :
          (d : Delivery)
          → (elim d [
            | crashed ↦ aborted w
            | delivered code error ↦ let (r, w'') = save srv j code error now w in processed r w''
          ])
            ≡ processed r w'
          → Sound js w'
      go crashed q = cc
      go (delivered code error) q =
          let q' : (save srv j code error now w).1 ≡ w' = cc in
          let after = save-Sound srv j code error now js w sound in rw q' at after

  crash-Sound :
      (j : Entities.ScheduledJob) (now : Time) (s : S) (js : Jobs) (w w' : World)
      → process srv send url_error j now s w ≡ aborted w'
      → Sound js w
      → Sound js w'
  unfolding process
  crash-Sound j now s js w w' e sound = go (deliver srv send url_error j s) e
    where
      go :
          (d : Delivery)
          → (elim d [
            | crashed ↦ aborted w
            | delivered code error ↦ let (r, w'') = save srv j code error now w in processed r w''
          ])
            ≡ aborted w'
          → Sound js w'
      go crashed q = let q' : w ≡ w' = cc in rw q' at sound
      go (delivered code error) q = cc

  Step-Apart : {p p' : Pipe} → Step srv partition threads send url_error p p' → Apart p → Apart p'
  unfolding round
  Step-Apart (selects p now r w unclosed e) (s, o) =
      let (upcoming, q) =
        round-ok now (select_jobs_for_execution srv partition buff_size now p.db).0 r
          (ap (λ x. x.0) e) in
      select-adds srv partition buff_size now p.selected r.jobs upcoming p.db w q (ap (λ x. x.1) e)
        s o
  Step-Apart (fails p now x w unclosed e) (s, o) = (
    let after = select-Sound srv partition buff_size now p.selected p.db s in
        rw (ap (λ x. x.1) e) at after,
    o,
  )
  Step-Apart (leaves p older unclosed e) h = h
  Step-Apart (pushes p newer older j js unclosed e small) h = h
  Step-Apart (pushes_closed p newer older j js closed e) h = h
  Step-Apart (receives p j rest none_held e) h = h
  Step-Apart (launches p j e free) h = h
  Step-Apart (processes p before after j now s r w e done) (sound, o) =
      (process-Sound j now s r p.selected p.db w done sound, o)
  Step-Apart (crashes p before after j now s w e done) (sound, o) =
      (crash-Sound j now s p.selected p.db w done sound, o)
  Step-Apart (fills p closed empty idle free) h = h
  Step-Apart (others_select p srv' partition' n now) (s, o) =
      (select-Sound srv' partition' n now p.selected p.db s, o)
  Step-Apart (others_schedule p srv' partition' j) (s, o) =
      (schedule-Sound srv' partition' j p.selected p.db s, o)

  Reach-Apart :
      {w : World} {p : Pipe}
      → IsOrderly w
      → Reach srv partition threads send url_error w p
      → Apart p
  unfolding new_pipe count
  Reach-Apart o here = (
    (
      o.closed_tx,
      record {
        below = o.below;
        unique = o.unique;
        drawn = λ id g. absurd (omega arith);
        settled = λ id g. absurd (omega arith);
      },
    ),
    λ id. omega arith,
  )
  Reach-Apart o (next r alive s) = Step-Apart s (Reach-Apart o r)

  -- From a database in which no transaction is open and the ids of jobs are unique and below their
  -- sequence, and as long as no rebalance comes in between: in every state that a worker's goroutines
  -- reach, whatever fails, no two of the jobs selected so far have the same id, and so no two of those at
  -- work or finished.
  pub selected_once :
      {w : World} {p : Pipe}
      → IsOrderly w
      → Reach srv partition threads send url_error w p
      → (id : ℕ)
      → (count (has_id id) p.selected ≤ 1)
        × (count (has_id id) p.active + count (has_id id) p.finished ≤ 1)
  selected_once {p} o r id =
      let (s, once) = Reach-Apart o r in
      (
        once id,
        omega (arith, once id, (Reach-Inv srv partition threads send url_error r).kept (has_id id)),
      )
