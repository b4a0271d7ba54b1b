-- ===== src/Storage/Due/Run.antt =====
-- A call that returns has run its three statements: what it returned and what it left, by the rows
-- that the first of them chose.
use hermeshooks.Prelude.{
  none, ℕ, suc, ◌≡◌, ◌⊎◌, inl, inr, ◌∙◌, refl, ap, sym, List, [], ◌∷◌, map, arith,
  update_where_none, contains,
}
use hermeshooks.Entities
use hermeshooks.Entities.{Time}
use hermeshooks.Storage.Models.{ScheduledJob}
use hermeshooks.Storage.Sql.{Server, World, Tables, Error, ok, err, statement, trip}
use hermeshooks.Storage.Sql.Returns.{
  Live, Returns, Returns-pure, Returns-bind, Returns-read, Returns-write, transact-Returns,
}
use hermeshooks.Storage.Sql.Transact.{KeepsTx, begun, transact-ok, transact_atomic, tx_rules}
use hermeshooks.Storage.Due.{
  ids, mark_pending, current_rows, next_rows, set_pending, after_time, next_entity,
  to_pending_entity, claim, select_current, select_next, selection, select_jobs_for_execution,
}

set_pending-nil : (t : Tables) → set_pending [] t ≡ t
unfolding set_pending contains
set_pending-nil t =
    ap (λ (rows : List ScheduledJob). record t { jobs = rows })
      (update_where_none _ mark_pending t.jobs (λ j. refl))

claim-tables :
    (srv : Server) (rows : List ScheduledJob) (w : World) {u : Unit {0}}
    → (claim srv rows w).0 ≡ ok u
    → (claim srv rows w).1.tables ≡ set_pending (ids rows) w.tables
unfolding claim ids
claim-tables srv [] w h = sym (set_pending-nil w.tables)
claim-tables srv (j ∷ js) w h = unfold statement in ground arith

claim-KeepsTx : (srv : Server) (rows : List ScheduledJob) → KeepsTx (claim srv rows)
unfolding claim
claim-KeepsTx srv [] = search tx_rules
claim-KeepsTx srv (j ∷ js) = search tx_rules

module _ (srv : Server) (partition n : ℕ) (now : Time) where
  -- The rows chosen when statement `k` runs on the tables `t`.
  abbrev pub chosen : ℕ → Tables → List ScheduledJob
  chosen k t = current_rows (srv.row_order k t.jobs) partition n now

  pub record Selected (t t' : Tables) (items : List Entities.ScheduledJob)
      (next : Entities.ScheduledJob) : Type 0 where
    pub first : ℕ
    pub second : ℕ
    pub returned : items ≡ map to_pending_entity (chosen first t)
    pub marked : t' ≡ set_pending (ids (chosen first t)) t
    pub following :
        next
        ≡ next_entity
            (next_rows (srv.row_order second t'.jobs) partition (after_time (chosen first t) now))

  selection-Selected :
      (w : World) {r : List Entities.ScheduledJob × Entities.ScheduledJob}
      → (selection srv partition n now w).0 ≡ ok r
      → Selected w.tables (selection srv partition n now w).1.tables r.0 r.1
  unfolding selection select_current select_next statement
  selection-Selected w {r} h =
      let cur = chosen (trip w).trips w.tables in
      let marked = claim-tables srv cur (trip w) in
      record {
        first = (trip w).trips;
        second = suc (claim srv cur (trip w)).1.trips;
        returned = ground arith;
        marked = ground (arith, marked);
        following = ground (arith, marked);
      }

  pub select-Selected :
      (w : World) {r : List Entities.ScheduledJob × Entities.ScheduledJob}
      → (select_jobs_for_execution srv partition n now w).0 ≡ ok r
      → Selected w.tables (select_jobs_for_execution srv partition n now w).1.tables r.0 r.1
  unfolding select_jobs_for_execution
  select-Selected w {r} h =
      let (inner, kept) = transact-ok srv (selection srv partition n now) w h in
      rw kept (selection-Selected (begun srv w) inner)

  selection-KeepsTx : KeepsTx (selection srv partition n now)
  unfolding selection select_current select_next
  selection-KeepsTx = search (tx_rules, claim-KeepsTx)

  pub select_closes :
      (w : World)
      → w.open_tx ≡ none
      → (select_jobs_for_execution srv partition n now w).1.open_tx ≡ none
  unfolding select_jobs_for_execution
  select_closes w h = (transact_atomic srv (selection srv partition n now) w selection-KeepsTx h).0

  -- A call that fails has changed nothing, or has claimed the rows it chose: then its commit was carried
  -- out, and only the answer was lost.
  pub select_err :
      (w : World) {e : Error}
      → w.open_tx ≡ none
      → (select_jobs_for_execution srv partition n now w).0 ≡ err e
      → ((select_jobs_for_execution srv partition n now w).1.tables ≡ w.tables)
        ⊎ ((k : ℕ) × ((select_jobs_for_execution srv partition n now w).1.tables
              ≡ set_pending (ids (chosen k w.tables)) w.tables))
  unfolding select_jobs_for_execution
  select_err w {e} h failed =
      elim ((transact_atomic srv (selection srv partition n now) w selection-KeepsTx h).1 e
        failed) [
          | inl same ↦ inl same
          | inr (r, inner, kept) ↦
              let sel = selection-Selected (begun srv w) inner in inr (sel.first, kept ∙ sel.marked)
        ]

  claim-Returns : Live srv → (js : List ScheduledJob) → Returns (claim srv js)
  unfolding claim
  claim-Returns live [] = Returns-pure _
  claim-Returns live (j ∷ js) = Returns-write srv live _

  -- On a server where no round trip fails, a call returns jobs, and no error.
  select-Returns : Live srv → Returns (select_jobs_for_execution srv partition n now)
  unfolding select_jobs_for_execution selection select_current select_next
  select-Returns live = transact-Returns srv live _ (
      Returns-bind _ _ (Returns-read srv live _) λ current.
        Returns-bind _ _ (claim-Returns live current)
          λ _. Returns-bind _ _ (Returns-read srv live _) λ nexts. Returns-pure _)

  -- If no round trip fails, SelectJobsForExecution returns jobs and a next job, and no error.
  pub select_succeeds :
      Live srv
      → (w : World)
      → (items : List Entities.ScheduledJob) × (next : Entities.ScheduledJob)
        × ((select_jobs_for_execution srv partition n now w).0 ≡ ok (items, next))
  select_succeeds live w = let ((items, next), e) = (select-Returns live).at w in (items, next, e)
