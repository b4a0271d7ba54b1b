-- ===== src/Cmd/Rejected.antt =====
-- The jobs of runFixtures belong to user 0, so none of them is ever stored.
use hermeshooks.Prelude.{
  ℕ, zero, suc, ◌+◌, ◌<◌, ◌≡◌, refl, String, false, none, some, inl, inr, Bool-cases, Option-cases,
  List, [], ◌∷◌, ◌++◌, arith, ltb, length, All, ◌≢◌,
}
use hermeshooks.Prelude.Int.{ℤ, pos, negsuc}
use hermeshooks.Entities
use hermeshooks.Entities.{Time}
use hermeshooks.Storage.Models.{ScheduledJob, from_scheduled_job_entity}
use hermeshooks.Storage.Sql.{Server, World, Tables, Error, err, broken, rejected}
use hermeshooks.Storage.Columns.{admit_job, has_user}
use hermeshooks.Storage.Connect.{new}
use hermeshooks.Cryptoutils.{Bytes}
use hermeshooks.Cmd.{Process, FixturesConfig}
use hermeshooks.Cmd.Fixtures.{
  Draw, Ran, finished, not_connected, panicked, insert_jobs, fixture, flush, rounds, fill,
  run_fixtures,
}

admit-no_user :
    (srv : Server) (t : Tables) (j : ScheduledJob)
    → has_user j.user_id t.users ≡ false
    → admit_job srv t j ≡ none
unfolding admit_job
admit-no_user srv t j h = ground arith

-- The command did not succeed, and the tables are as they were.
abbrev Fruitless : World → Ran → Type 0
Fruitless w (finished none w') = ⊥
Fruitless w (finished (some e) w') = w'.tables ≡ w.tables
Fruitless w (not_connected e) = Unit {0}
Fruitless w (panicked w') = w'.tables ≡ w.tables

module _ (srv : Server) (w : World) (nobody : has_user 0 w.tables.users ≡ false) where
  insert_jobs-fails :
      (j : Entities.ScheduledJob) (js : List Entities.ScheduledJob)
      → j.user_id ≡ 0
      → (e : Error) × ((insert_jobs srv (j ∷ js) w).0 ≡ err e)
        × ((insert_jobs srv (j ∷ js) w).1.tables ≡ w.tables)
  unfolding insert_jobs from_scheduled_job_entity
  insert_jobs-fails j js zero_user =
      let row = from_scheduled_job_entity j in
      let turned_down : admit_job srv w.tables row ≡ none =
        admit-no_user srv w.tables row (rw zero_user nobody) in
      elim (Bool-cases (srv.fails w.trips)) [
        | inl down ↦ (broken, ground arith, ground arith)
        | inr up ↦ (rejected, ground arith, ground arith)
      ]

  -- All the jobs are of user 0.
  abbrev Nobodys : List Entities.ScheduledJob → Type 0
  Nobodys = All (λ j. j.user_id ≡ 0)

  Nobodys-snoc :
      (jobs : List Entities.ScheduledJob) (j : Entities.ScheduledJob)
      → Nobodys jobs
      → j.user_id ≡ 0
      → Nobodys (jobs ++ j ∷ [])
  Nobodys-snoc [] j h e = (e, tt)
  Nobodys-snoc (x ∷ xs) j h e = (h.0, Nobodys-snoc xs j h.1 e)

  length-snoc :
      (jobs : List Entities.ScheduledJob) (j : Entities.ScheduledJob) → 0 < length (jobs ++ j ∷ [])
  length-snoc [] j = omega arith
  length-snoc (x ∷ xs) j = omega arith

  insert_some-fails :
      (jobs : List Entities.ScheduledJob)
      → 0 < length jobs
      → Nobodys jobs
      → (e : Error) × ((insert_jobs srv jobs w).0 ≡ err e)
        × ((insert_jobs srv jobs w).1.tables ≡ w.tables)
  insert_some-fails [] some_job h = absurd (omega arith)
  insert_some-fails (j ∷ js) some_job h = insert_jobs-fails j js h.0

  flush-Fruitless :
      (jobs : List Entities.ScheduledJob)
      → 0 < length jobs
      → Nobodys jobs
      → Fruitless w (flush srv jobs w)
  unfolding flush
  flush-Fruitless [] some_job h = absurd (omega arith)
  flush-Fruitless (j ∷ js) some_job h =
      let (e, failed, same) = insert_jobs-fails j js h.0 in
      let ends : flush srv (j ∷ js) w ≡ finished (some e) (insert_jobs srv (j ∷ js) w).1 =
        ground (arith, failed) in
      rw ends same

  module _ (hex : Bytes → String) (now : Time) (draw : ℕ → Draw) where
    fixture-user :
        (i : ℕ) {j : Entities.ScheduledJob} → fixture hex now draw i ≡ some j → j.user_id ≡ 0
    unfolding fixture
    fixture-user i e = ground arith

    rounds-Fruitless :
        (left i : ℕ) (jobs : List Entities.ScheduledJob)
        → 0 < left + length jobs
        → Nobodys jobs
        → Fruitless w (rounds srv hex now draw left i jobs w)
    unfolding rounds
    rounds-Fruitless zero i jobs some_job h = flush-Fruitless jobs (omega arith) h
    rounds-Fruitless (suc left) i jobs some_job h = elim (Option-cases (fixture hex now draw i)) [
      | inl panics ↦
          let ends : rounds srv hex now draw (suc left) i jobs w ≡ panicked w = ground arith in
          rw ends refl
      | inr (j, made) ↦
          let more = length-snoc jobs j in
          let theirs = Nobodys-snoc jobs j h (fixture-user i made) in
          elim (Bool-cases (ltb 10_000 (length (jobs ++ j ∷ [])))) [
            | inl full ↦
                let (e, failed, same) = insert_some-fails (jobs ++ j ∷ []) more theirs in
                let ends : rounds srv hex now draw (suc left) i jobs w
                    ≡ finished (some e) (insert_jobs srv (jobs ++ j ∷ []) w).1 =
                  ground (arith, failed) in
                rw ends same
            | inr room ↦
                let goes_on : rounds srv hex now draw (suc left) i jobs w
                    ≡ rounds srv hex now draw left (suc i) (jobs ++ j ∷ []) w =
                  ground arith in
                rw goes_on (rounds-Fruitless left (suc i) (jobs ++ j ∷ []) (omega arith) theirs)
          ]
    ]

    fill-Fruitless : (num : ℤ) → num ≢ pos 0 → Fruitless w (fill srv hex now draw num w)
    unfolding fill
    fill-Fruitless (pos zero) some_job = absurd (some_job refl)
    fill-Fruitless (pos (suc n)) some_job = rounds-Fruitless (suc n) 0 [] (omega arith) tt
    fill-Fruitless (negsuc n) some_job = refl

    -- If there is no user 0, then runFixtures with a number of jobs other than 0 does not succeed, whatever
    -- it meets and whatever fails, and leaves the tables as they were.
    fixtures_rejected :
        (p : Process) (cfg : FixturesConfig)
        → cfg.num ≢ pos 0
        → Fruitless w (run_fixtures srv hex now draw p cfg w)
    unfolding run_fixtures fill new
    fixtures_rejected p cfg some_job = elim (Option-cases (p.parse_config cfg.dsn)) [
      | inl fit ↦
          let goes_on : run_fixtures srv hex now draw p cfg w ≡ fill srv hex now draw cfg.num w =
            ground arith in
          rw goes_on (fill-Fruitless cfg.num some_job)
      | inr (e, unfit) ↦
          let ends : run_fixtures srv hex now draw p cfg w ≡ not_connected e = ground arith in
          rw ends tt
    ]
