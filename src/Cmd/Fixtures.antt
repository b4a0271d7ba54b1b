-- ===== src/Cmd/Fixtures.antt =====
-- runFixtures of cmd/hermeshooks/main.go: jobs for trying the program out, inserted ten thousand and one at a
-- time. What the loop meets in its round `i` (a uuid, random bytes, the clock) is its `Draw`.
use hermeshooks.Prelude.{
  ℕ, zero, suc, ◌+◌, String, Option, none, some, true, false, List, [], ◌∷◌, ◌++◌, ltb, length,
}
use hermeshooks.Prelude.Int.{ℤ, pos, negsuc}
use hermeshooks.Entities
use hermeshooks.Entities.{Time, scheduled}
use hermeshooks.Storage.Models.{ScheduledJob, from_scheduled_job_entity}
use hermeshooks.Storage.Sql.{Server, World, Tables, Error, Sql, ok, err, rejected, statement}
use hermeshooks.Storage.Columns.{admit_job}
use hermeshooks.Storage.Connect.{opened, refused}
use hermeshooks.Cryptoutils.{Bytes, Read}
use hermeshooks.Common.Random.{random_string}
use hermeshooks.Cmd.{Process, FixturesConfig, open_storage}

pub record Draw : Type 0 where
  pub uid : String
  pub name_bytes : Read
  pub description_bytes : Read
  pub now : Time

-- The error of the command, if any; or a panic.
pub data Ran : Type 0 where
  finished : Option Error → World → Ran
  not_connected : String → Ran
  panicked : World → Ran

-- The rows of one INSERT, each against the table with those before it: all are taken, or none.
unfoldable admit_jobs : Server → ℕ → Tables → List ScheduledJob → Option Tables
admit_jobs srv n t [] = some t
admit_jobs srv n t (j ∷ js) = elim (admit_job srv t j) [
  | none ↦ none
  | some row ↦ admit_jobs srv (suc n) (record t { jobs = t.jobs ++ record row { id = n } ∷ [] }) js
]

module _ (hex : Bytes → String) (now : Time) (draw : ℕ → Draw) where
  -- UserID is left out; `none` is the panic of RandomString.
  unfoldable pub fixture : ℕ → Option Entities.ScheduledJob
  fixture i = elim (random_string hex (draw i).name_bytes 5) [
    | none ↦ none
    | some name ↦ elim (random_string hex (draw i).description_bytes 10) [
      | none ↦ none
      | some description ↦ some (record {
        id = 0;
        uid = (draw i).uid;
        user_id = 0;
        name = name;
        description = description;
        url = "http://localhost:8081/wh";
        payload = "{}";
        content_type = "";
        signature = "";
        run_at = now;
        retries = pos 0;
        status = scheduled;
        partition = 0;
        created_at = (draw i).now;
        updated_at = 0;
      })
    ]
  ]

module _ (srv : Server) where
  -- `db.NewInsert().Model(&jobs).ExcludeColumn("id")`. A rejected statement draws as many ids.
  unfoldable pub insert_jobs : List Entities.ScheduledJob → Sql (Unit {0})
  unfolding statement admit_jobs
  insert_jobs jobs = statement srv λ w. elim (admit_jobs srv w.job_seq w.tables (rows jobs)) [
    | none ↦ (err rejected, record w { job_seq = w.job_seq + length jobs })
    | some t ↦ (ok tt, record w { tables = t; job_seq = w.job_seq + length jobs })
  ]
    where
      rows : List Entities.ScheduledJob → List ScheduledJob
      rows [] = []
      rows (j ∷ js) = from_scheduled_job_entity j ∷ rows js

  -- The last INSERT, if there are jobs left.
  unfoldable pub flush : List Entities.ScheduledJob → World → Ran
  flush [] w = finished none w
  flush (j ∷ js) w = elim (insert_jobs (j ∷ js) w).0 [
    | ok u ↦ finished none (insert_jobs (j ∷ js) w).1
    | err e ↦ finished (some e) (insert_jobs (j ∷ js) w).1
  ]

  module _ (hex : Bytes → String) (now : Time) (draw : ℕ → Draw) where
    -- The loop, with the rounds that are left, the number of the round, and the jobs not yet inserted.
    unfoldable pub rounds : ℕ → ℕ → List Entities.ScheduledJob → World → Ran
    rounds zero i jobs w = flush jobs w
    rounds (suc left) i jobs w = elim (fixture hex now draw i) [
      | none ↦ panicked w
      | some j ↦ elim (ltb 10_000 (length (jobs ++ j ∷ []))) [
        | false ↦ rounds left (suc i) (jobs ++ j ∷ []) w
        | true ↦ elim (insert_jobs (jobs ++ j ∷ []) w).0 [
          | ok u ↦ rounds left (suc i) [] (insert_jobs (jobs ++ j ∷ []) w).1
          | err e ↦ finished (some e) (insert_jobs (jobs ++ j ∷ []) w).1
        ]
      ]
    ]

    -- A negative number of jobs is a panic of `make`.
    unfoldable pub fill : ℤ → World → Ran
    fill (pos num) w = rounds num 0 [] w
    fill (negsuc n) w = panicked w

    unfoldable pub run_fixtures : Process → FixturesConfig → World → Ran
    run_fixtures p cfg w = elim (open_storage p cfg.dsn cfg.debug false) [
      | refused e ↦ not_connected e
      | opened db ↦ fill cfg.num w
    ]
