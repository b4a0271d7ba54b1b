-- ===== src/Worker/Pipeline.antt =====
-- internal/worker/monitor.go and executor.go: the goroutines of a worker and the channels between them, as
-- a step relation. A round of the monitor selects jobs and starts a goroutine that pushes them into a
-- channel of capacity 100; the executor takes them out and runs each on a goroutine of its own, as many at
-- a time as there are slots. Beside them other workers select jobs and users schedule them. What a step
-- does to the database happens at once; no rebalance comes in between.
pub mod Counts
pub mod Bounds
pub mod Sound
pub mod Once
use hermeshooks.Prelude.{
  ℕ, suc, ◌+◌, ◌<◌, ◌≡◌, String, Bool, true, false, Option, none, some, List, [], ◌∷◌, ◌++◌, length,
}
use hermeshooks.Entities
use hermeshooks.Entities.{Time}
use hermeshooks.Storage.Sql.{Server, World, Error, Result, ok, err}
use hermeshooks.Storage.Due.{select_jobs_for_execution}
use hermeshooks.ScheduledJobs.{schedule}
use hermeshooks.Common.Retry.{Request, Reply}
use hermeshooks.Executor.{process, processed, aborted}
use hermeshooks.Monitor.{Round, round, buff_size}

abbrev pub Jobs : Type 0
Jobs = List Entities.ScheduledJob

-- `pushers` are what the rounds' goroutines have still to push, the newest first; `closed` is what the
-- monitor does to the channel when it ends; `held` is the job for which the executor waits for a slot;
-- `filled` are the slots that its last loop has taken; `selected` and `finished` are the jobs selected,
-- and those whose goroutine has ended, so far.
pub record Pipe : Type 0 where
  pub db : World
  pub selected : Jobs
  pub pushers : List Jobs
  pub channel : Jobs
  pub closed : Bool
  pub held : Option Entities.ScheduledJob
  pub active : Jobs
  pub finished : Jobs
  pub filled : ℕ
  pub panicked : Bool

unfoldable pub new_pipe : World → Pipe
new_pipe w = record {
  db = w;
  selected = [];
  pushers = [];
  channel = [];
  closed = false;
  held = none;
  active = [];
  finished = [];
  filled = 0;
  panicked = false;
}

module _ (srv : Server) (partition threads : ℕ) {S : Type 0} (send : S → Request → Reply × S)
    (url_error : String → Option String) where
  pub data Step : Pipe → Pipe → Type 0 where
    -- The monitor: a round, its end on an error, and its end when the context is done, for which it waits
    -- until the goroutine of the last round has pushed everything.
    selects :
        (p : Pipe) (now : Time) (r : Round) (w : World)
        → p.closed ≡ false
        → round srv partition now p.db ≡ (ok r, w)
        → Step p
            (record p { db = w; selected = r.jobs ++ p.selected; pushers = r.jobs ∷ p.pushers })
    fails :
        (p : Pipe) (now : Time) (e : Error) (w : World)
        → p.closed ≡ false
        → round srv partition now p.db ≡ (err e, w)
        → Step p (record p { db = w; closed = true })
    leaves :
        (p : Pipe) (older : List Jobs)
        → p.closed ≡ false
        → p.pushers ≡ [] ∷ older
        → Step p (record p { closed = true })
    -- A goroutine that pushes: into the channel, or, once that is closed, into a panic.
    pushes :
        (p : Pipe) (newer older : List Jobs) (j : Entities.ScheduledJob) (js : Jobs)
        → p.closed ≡ false
        → p.pushers ≡ newer ++ (j ∷ js) ∷ older
        → length p.channel < buff_size
        → Step p (record p { pushers = newer ++ js ∷ older; channel = p.channel ++ j ∷ [] })
    pushes_closed :
        (p : Pipe) (newer older : List Jobs) (j : Entities.ScheduledJob) (js : Jobs)
        → p.closed ≡ true
        → p.pushers ≡ newer ++ (j ∷ js) ∷ older
        → Step p (record p { panicked = true })
    -- The executor's loop takes a job, and a slot for it.
    receives :
        (p : Pipe) (j : Entities.ScheduledJob) (rest : Jobs)
        → p.held ≡ none
        → p.channel ≡ j ∷ rest
        → Step p (record p { held = some j; channel = rest })
    launches :
        (p : Pipe) (j : Entities.ScheduledJob)
        → p.held ≡ some j
        → length p.active + p.filled < threads
        → Step p (record p { held = none; active = j ∷ p.active })
    -- A job is processed, and its slot released; or processing it panics.
    processes :
        (p : Pipe) (before after : Jobs) (j : Entities.ScheduledJob) (now : Time) (s : S)
        (r : Result (Unit {0})) (w : World)
        → p.active ≡ before ++ j ∷ after
        → process srv send url_error j now s p.db ≡ processed r w
        → Step p (record p { db = w; active = before ++ after; finished = j ∷ p.finished })
    crashes :
        (p : Pipe) (before after : Jobs) (j : Entities.ScheduledJob) (now : Time) (s : S)
        (w : World)
        → p.active ≡ before ++ j ∷ after
        → process srv send url_error j now s p.db ≡ aborted w
        → Step p (record p { db = w; panicked = true })
    -- When the channel is closed and empty, the executor takes every slot in turn.
    fills :
        (p : Pipe)
        → p.closed ≡ true
        → p.channel ≡ []
        → p.held ≡ none
        → length p.active + p.filled < threads
        → Step p (record p { filled = suc p.filled })
    -- Another worker selects jobs, and the API schedules one.
    others_select :
        (p : Pipe) (srv' : Server) (partition' n : ℕ) (now : Time)
        → Step p (record p { db = (select_jobs_for_execution srv' partition' n now p.db).1 })
    others_schedule :
        (p : Pipe) (srv' : Server) (partition' : ℕ) (j : Entities.ScheduledJob)
        → Step p (record p { db = (schedule srv' partition' j p.db).1 })

  -- A program that has panicked is gone.
  pub data Reach (w : World) : Pipe → Type 0 where
    here : Reach w (new_pipe w)
    next : {p q : Pipe} → Reach w p → p.panicked ≡ false → Step p q → Reach w q
