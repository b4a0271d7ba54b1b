-- ===== src/Life/Refines.antt =====
-- The operations that write the table of jobs, in any order, refine the machine of cards.
use hermeshooks.Prelude.{
  ℕ, ◌<◌, ◌≡◌, refl, ap, ◌∙◌, inl, inr, String, true, Option, none, List, [], ◌∷◌, Memᴰ, arith,
  contains,
}
use hermeshooks.Entities
use hermeshooks.Entities.{Time, scheduled, pending}
use hermeshooks.Storage.Models.{ScheduledJob}
use hermeshooks.Storage.Sql.{Server, World, Tables, Result, ok, err}
use hermeshooks.Storage.Sql.Holds.{Holds}
use hermeshooks.Storage.Due.{ids, mark_pending, set_pending, select_jobs_for_execution}
use hermeshooks.Storage.Due.Run.{chosen, select-Selected, select_closes, select_err}
use hermeshooks.Storage.Balance.{MapRange}
use hermeshooks.Storage.Ids.{Ids, IsOrderly}
use hermeshooks.Storage.Ids.Times.{times, same_of_times}
use hermeshooks.Storage.Ids.Operations.{select-Preserves, schedule-KeepsTx}
use hermeshooks.ScheduledJobs.{schedule}
use hermeshooks.Executor.{save}
use hermeshooks.Workers.{WorkerMeta}
use hermeshooks.Workers.Registry.{Map}
use hermeshooks.Workers.Rebalance.{rebalance}
use hermeshooks.Worker.Pipeline.Sound.{chosen-row, transact_closes}
use hermeshooks.Life.{Card, is_claimed, Evolves, here, next, board}
use hermeshooks.Life.Updates.{Moves, Turn-update, Lives}
use hermeshooks.Life.Operations.{schedule-Preserves, save-Preserves, rebalance-Preserves}

-- What writes to the table of jobs: Schedule, of a job that waits as ToScheduledJob makes it;
-- SelectJobsForExecution; the executor's transaction; and a rebalance; each from a server of its own.
pub data Op : Type 0 where
  schedules : Server → ℕ → (j : Entities.ScheduledJob) → j.status ≡ scheduled → Op
  selects : Server → ℕ → ℕ → Time → Op
  saves : Server → Entities.ScheduledJob → ℕ → Option String → Time → Op
  rebalances : Server → MapRange → Map WorkerMeta → Op

exec : Op → World → World
exec (schedules srv partition j waits) w = (schedule srv partition j w).1
exec (selects srv partition n now) w = (select_jobs_for_execution srv partition n now w).1
exec (saves srv j code error now) w = (save srv j code error now w).1
exec (rebalances srv range visit) w = (rebalance srv range visit w).1

pub history : List Op → World → World
history [] w = w
history (o ∷ os) w = history os (exec o w)

abbrev Good : List Card → World → Type 0
Good b w = (w.open_tx ≡ none) × Lives b w.job_seq w.tables

Good-Holds : (b : List Card) (w : World) → Good b w → Holds (Lives b) w
Good-Holds b w (closed, h) = record { now = h; before = λ t e. cc }

times-contains :
    (id : ℕ) (rows : List ScheduledJob) → contains (ids rows) id ≡ true → 0 < times id rows
unfolding contains times ids
times-contains id [] h = cc
times-contains id (j ∷ js) h = ground (arith, times-contains id js)

module _ (srv : Server) (partition n : ℕ) (now : Time) (b : List Card) (w : World)
    (g : Good b w) where
  -- A selection claims jobs that wait.
  claims :
      (k : ℕ) (j : ScheduledJob)
      → Memᴰ j w.tables.jobs
      → contains (ids (chosen srv partition n now k w.tables)) j.id ≡ true
      → Moves j (mark_pending j)
  claims k j m taken =
      let (r, found, i, status) =
        chosen-row srv partition n now k j.id w.tables (times-contains j.id _ taken) in
      let same : j ≡ r = same_of_times j.id w.tables.jobs (g.1.unique j.id) m found refl i in
      let waits : j.status ≡ scheduled = ap (λ (x : ScheduledJob). x.status) same ∙ status in
      record { same = refl; move = rw waits is_claimed }

  select-Evolves :
      (r : Result (List Entities.ScheduledJob × Entities.ScheduledJob))
      → (select_jobs_for_execution srv partition n now w).0 ≡ r
      → Evolves b (board (select_jobs_for_execution srv partition n now w).1.tables.jobs)
  unfolding set_pending
  select-Evolves (ok (items, upcoming)) e =
      let sel = select-Selected srv partition n now w e in
      rw (ap (λ (t : Tables). t.jobs) sel.marked) (
        next g.1.evolved (Turn-update _ mark_pending w.tables.jobs λ j m c. claims sel.first j m c))
  select-Evolves (err x) e = elim (select_err srv partition n now w g.0 e) [
    | inl same ↦ rw (ap (λ (t : Tables). t.jobs) same) g.1.evolved
    | inr (k, marked) ↦
        rw (ap (λ (t : Tables). t.jobs) marked)
          (next g.1.evolved (Turn-update _ mark_pending w.tables.jobs λ j m c. claims k j m c))
  ]

  select-Good : Good b (select_jobs_for_execution srv partition n now w).1
  select-Good =
      let ids : Holds (Ids (λ id. ⊥)) w = record {
        now = record {
          below = g.1.below;
          unique = g.1.unique;
          drawn = λ id x. absurd x;
          settled = λ id x. absurd x;
        };
        before = λ t e. let c = g.0 in cc;
      } in
      let after = ((select-Preserves srv partition n now).at w ids).now in
      (
        select_closes srv partition n now w g.0,
        record { below = after.below; unique = after.unique; evolved = select-Evolves _ refl },
      )

exec-Good : (b : List Card) (o : Op) (w : World) → Good b w → Good b (exec o w)
unfolding exec save rebalance
exec-Good b (schedules srv partition j waits) w g = (
  (schedule-KeepsTx srv partition j).at w ∙ g.0,
  ((schedule-Preserves b srv partition j waits).at w (Good-Holds b w g)).now,
)
exec-Good b (selects srv partition n now) w g = select-Good srv partition n now b w g
exec-Good b (saves srv j code error now) w g = (
  transact_closes srv _ w g.0,
  ((save-Preserves b srv j code error now).at w (Good-Holds b w g)).now,
)
exec-Good b (rebalances srv range visit) w g = (
  transact_closes srv _ w g.0,
  ((rebalance-Preserves b srv range visit).at w (Good-Holds b w g)).now,
)

history-Good : (b : List Card) (os : List Op) (w : World) → Good b w → Good b (history os w)
unfolding history
history-Good b [] w g = g
history-Good b (o ∷ os) w g = history-Good b os (exec o w) (exec-Good b o w g)

-- From a database in which no transaction is open and the ids of jobs are unique and below their sequence,
-- any history of schedules, selections, saves and rebalances, on servers that may fail at any statement,
-- takes the cards of the table of jobs through turns of the abstract machine; no transaction is then open,
-- and the ids are again unique and below their sequence.
pub history_refines :
    (os : List Op) (w : World)
    → IsOrderly w
    → Evolves (board w.tables.jobs) (board (history os w).tables.jobs) × IsOrderly (history os w)
history_refines os w o =
    let (closed, h) =
      history-Good (board w.tables.jobs) os w
        (o.closed_tx, record { below = o.below; unique = o.unique; evolved = here }) in
    (h.evolved, record { closed_tx = closed; below = h.below; unique = h.unique })
