-- ===== src/Worker/Reached.antt =====
-- A job that is scheduled reaches the worker of its partition.
use hermeshooks.Prelude.{
  ℕ, ◌≤◌, ◌≡◌, ◌≢◌, ◌⊎◌, refl, ap, ◌∙◌, inl, inr, String, Bool, true, false, Option, some, List, [],
  ◌∷◌, ◌++◌, map, Memᴰ, arith, length,
}
use hermeshooks.Entities
use hermeshooks.Entities.{Time, scheduled}
use hermeshooks.Storage.Models.{ScheduledJob, from_scheduled_job_entity}
use hermeshooks.Storage.Sql.{Server, World, ok}
use hermeshooks.Storage.Sql.Returns.{Live}
use hermeshooks.Storage.Columns.{admit_job}
use hermeshooks.Storage.Due.{to_pending_entity}
use hermeshooks.Storage.Due.Run.{select_succeeds}
use hermeshooks.Storage.Due.Complete.{select_complete}
use hermeshooks.Storage.Listen.{listen}
use hermeshooks.ScheduledJobs.{schedule}
use hermeshooks.ScheduledJobs.Lookups.{row_of, admit_job-Admitted, scheduled_world, schedule_lem}
use hermeshooks.Monitor.{Round, round, round_of, wait_time, buff_size}

mem-last_of_append : {A : Type 0} (xs : List A) (x : A) → Memᴰ x (xs ++ x ∷ [])
mem-last_of_append [] x = Memᴰ.head refl
mem-last_of_append (y ∷ ys) x = Memᴰ.tail (mem-last_of_append ys x)

-- On a server where no round trip fails, when the schema takes a job that waits and the notification's
-- payload can be read back: the message that Schedule adds puts a token into the channel of the partition's
-- worker and changes nothing for another partition; and a round of the monitor of that partition, at any
-- time from the job's on, returns and takes the job, or as many as it can take that run no later.
pub scheduled_job_reached :
    (srv : Server) (encode : ℕ → String) (decode : String → Option ℕ) (partition : ℕ)
    (job : Entities.ScheduledJob) (now : Time) (w : World) {row : ScheduledJob}
    → Live srv
    → ((n : ℕ) → decode (encode n) ≡ some n)
    → admit_job srv w.tables (row_of partition job) ≡ some row
    → job.status ≡ scheduled
    → job.run_at ≤ now
    → let w1 = (schedule srv partition job w).1 in
      (ms : List ℕ) × (w1.tables.notified ≡ w.tables.notified ++ ms)
      × ((token : Bool)
          → listen decode partition (map encode ms) token ≡ record { token = true; failed = false })
      × ((q : ℕ) (token : Bool)
          → q ≢ partition
          → listen decode q (map encode ms) token ≡ record { token = token; failed = false })
      × ((r : Round) × ((round srv partition now w1).0 ≡ ok r)
          × (Memᴰ (to_pending_entity (record row { id = w.job_seq })) r.jobs
              ⊎ ((length r.jobs ≡ buff_size)
                  × ((e : Entities.ScheduledJob) → Memᴰ e r.jobs → e.run_at ≤ job.run_at))))
unfolding listen round from_scheduled_job_entity
scheduled_job_reached srv encode decode partition job now w {row} live codec admitted waits come =
    let done = ap (λ x. x.1) (schedule_lem srv partition job w live admitted) in
    let w1 = scheduled_world partition row w in
    let (items, upcoming, selected) = select_succeeds srv partition buff_size now live w1 in
    let stored : ScheduledJob = record row { id = w.job_seq } in
    let a = admit_job-Admitted srv w.tables (row_of partition job) admitted in
    let earlier : row.run_at ≤ job.run_at = rw a.cut_time (srv.timestamp_cuts job.run_at).0 in
    let reached =
      select_complete srv partition buff_size now w1 stored (omega arith) selected
        (mem-last_of_append w.tables.jobs stored) (a.same_status ∙ waits) a.same_partition
        (omega arith) in
    rw done (
      partition ∷ [],
      refl,
      λ token. ground (arith, codec partition),
      λ q token n. ground (arith, codec partition),
      (
        record { jobs = items; wait = wait_time upcoming now },
        ap (round_of now) selected,
        elim reached [
          | inl taken ↦ inl taken
          | inr (full, first) ↦ inr (full, λ e m. let sooner = first e m in omega arith)
        ],
      ),
    )
