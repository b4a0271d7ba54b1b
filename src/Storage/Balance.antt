-- ===== src/Storage/Balance.antt =====
-- ReBalance of internal/storage/db.go and the four statements it is made of: jobs whose partition no
-- worker serves go to partition 0, and the jobs of partition 0 are dealt out to the workers.
pub mod Kept
pub mod Targets
pub mod Groups
pub mod Emptied
pub mod Shedding
pub mod Stranded
pub mod Ends
pub mod Preserved
pub mod Even
use hermeshooks.Prelude.{
  ℕ, suc, ◌+◌, ◌/◌, ◌≡◌, Bool, true, false, not, ◌&&◌, ◌||◌, List, [], ◌∷◌, ◌++◌, map, Permᴰ, ltb,
  ◌==◌, if◌then◌else◌, length, contains, select_where, update_where, limit,
}
use hermeshooks.Prelude.Int.{ℤ, pos, pos_part, neg_part, sub_ℕ, ltb_ℤ}
use hermeshooks.Entities.{ScheduledJobStatus, scheduled, pending}
use hermeshooks.Storage.Models.{ScheduledJob}
use hermeshooks.Storage.Sql.{Server, Tables, Sql, pure, ◌>>=◌, ◌>>◌, read, write}

-- The `group` of ReBalance.
pub record Group : Type 0 where
  pub partition : ℕ
  pub count : ℕ
  pub to_add : ℤ

-- The order in which Go ranges over a map, which differs from range to range.
pub record MapRange : Type 0 where
  pub order : ℕ → List Group → List Group
  pub order-Permᴰ : (n : ℕ) (groups : List Group) → Permᴰ (order n groups) groups

abbrev pub new_group : ℕ → Group
new_group p = record { partition = p; count = 0; to_add = pos 0 }

-- status IN (Scheduled, Pending)
abbrev pub is_live : ScheduledJobStatus → Bool
is_live s = s == scheduled || s == pending

-- `partition NOT IN (?)`, a condition that is left out when there are no active partitions.
abbrev pub is_orphan : List ℕ → ScheduledJob → Bool
is_orphan [] j = is_live j.status
is_orphan (a ∷ rest) j = not (contains (a ∷ rest) j.partition) && is_live j.status

abbrev pub reset_to : ℕ → ScheduledJob → ScheduledJob
reset_to target j = record j { partition = target; status = scheduled }

abbrev pub move_to : ℕ → ScheduledJob → ScheduledJob
move_to target j = record j { partition = target }

abbrev pub with_jobs : Tables → List ScheduledJob → Tables
with_jobs t rows = record t { jobs = rows }

-- The rows of one partition, the first `n` that the server meets if `n` is not 0: WITH _data AS (...)
unfoldable pub batch : List ScheduledJob → ℕ → ℕ → List ℕ
batch rows p n = map (λ j. j.id) (limit n (select_where (λ j. j.partition == p) rows))

-- COUNT(t1.id) ... GROUP BY t1.partition
unfoldable pub bump_group : ℕ → List Group → List Group
bump_group p [] = record { partition = p; count = 1; to_add = pos 0 } ∷ []
bump_group p (g ∷ gs) =
    if g.partition == p then record g { count = suc g.count } ∷ gs else g ∷ bump_group p gs

unfoldable pub count_groups : List ScheduledJob → List Group
count_groups [] = []
count_groups (j ∷ js) = bump_group j.partition (count_groups js)

unfoldable pub total_count : List Group → ℕ
total_count [] = 0
total_count (g ∷ gs) = g.count + total_count gs

unfoldable pub has_group : ℕ → List Group → Bool
has_group p [] = false
has_group p (g ∷ gs) = g.partition == p || has_group p gs

-- The map `m`: the groups of the query, and an empty one for each active partition without jobs.
unfoldable pub add_missing : List ℕ → List Group → List Group
add_missing [] m = m
add_missing (a ∷ rest) m = add_missing rest (if has_group a m then m else m ++ new_group a ∷ [])

-- `perBucket - grp.Count` for an active partition, `-grp.Count` for another.
unfoldable pub share : List ℕ → ℕ → Group → ℤ
share active per_bucket g =
    if contains active g.partition then sub_ℕ per_bucket g.count else sub_ℕ 0 g.count

-- grp.Partition > 0 && grp.ToAdd > 0 && isActive(grp.Partition)
abbrev pub is_short : List ℕ → Group → Bool
is_short active g = ltb 0 g.partition && (ltb_ℤ (pos 0) g.to_add && contains active g.partition)

module _ (srv : Server) where
  unfoldable pub update_jobs_partitions : List ℕ → ℕ → Sql (Unit {0})
  update_jobs_partitions active target =
      write srv (λ _ t. with_jobs t (update_where (is_orphan active) (reset_to target) t.jobs))

  unfoldable pub assign_jobs_to_partition : ℕ → ℕ → Sql (Unit {0})
  assign_jobs_to_partition target n = write srv (λ k t. with_jobs t (
      update_where (λ j. contains (batch (srv.row_order k t.jobs) 0 n) j.id) (move_to target)
        t.jobs))

  unfoldable pub removes_jobs_from_partition : ℕ → ℕ → Sql (Unit {0})
  removes_jobs_from_partition current n = write srv (λ k t. with_jobs t (
      update_where (λ j. contains (batch (srv.row_order k t.jobs) current n) j.id) (move_to 0)
        t.jobs))

  unfoldable pub notify : ℕ → Sql (Unit {0})
  notify p = write srv (λ _ t. record t { notified = t.notified ++ p ∷ [] })

  unfoldable pub select_groups : Sql (List Group)
  select_groups = read srv (λ _ t. count_groups (select_where (λ j. is_live j.status) t.jobs))

  -- if grp.ToAdd < 0 { RemovesJobsFromPartition(ctx, db, grp.Partition, -grp.ToAdd) }
  unfoldable pub drop_surplus : ℕ → ℤ → Sql (Unit {0})
  drop_surplus p to_add =
      if ltb_ℤ to_add (pos 0) then removes_jobs_from_partition p (neg_part to_add) else pure tt

  -- The body of the first loop over `m`.
  unfoldable pub shed_one : List ℕ → ℕ → Group → Sql Group
  shed_one active per_bucket g = if g.partition == 0 then pure g else (do
    drop_surplus g.partition (share active per_bucket g)
    pure (record g { to_add = share active per_bucket g }))

  unfoldable pub shed : List ℕ → ℕ → List Group → Sql (List Group)
  shed active per_bucket [] = pure []
  shed active per_bucket (g ∷ gs) = do
    g' ← shed_one active per_bucket g
    gs' ← shed active per_bucket gs
    pure (g' ∷ gs')

  -- The second loop; the result is `last`.
  unfoldable pub deal : List ℕ → List Group → Group → Sql Group
  deal active [] last = pure last
  deal active (g ∷ gs) last =
      let skip = deal active gs last in
      let given = (do assign_jobs_to_partition g.partition (pos_part g.to_add); deal active gs g) in
      if is_short active g then given else skip

  unfoldable pub notify_all : List ℕ → Sql (Unit {0})
  notify_all [] = pure tt
  notify_all (v ∷ vs) = do notify v; notify_all vs

  module _ (range : MapRange) where
    -- The two loops over `m`, and what follows them.
    unfoldable pub settle : List ℕ → ℕ → List Group → Sql (Unit {0})
    settle active per_bucket m = do
      m' ← shed active per_bucket (range.order 0 m)
      last ← deal active (range.order 1 m') (new_group 0)
      assign_jobs_to_partition last.partition 0
      notify_all active

    -- What follows `if len(active) == 0`.
    unfoldable pub spread : List ℕ → Sql (Unit {0})
    spread active = do
      grps ← select_groups
      settle active (total_count grps / length active) (add_missing active grps)

    unfoldable pub unless_empty : List ℕ → Sql (Unit {0})
    unless_empty [] = pure tt
    unless_empty (a ∷ rest) = spread (a ∷ rest)

    unfoldable pub re_balance : List ℕ → Sql (Unit {0})
    unfolding unless_empty
    re_balance active = do update_jobs_partitions active 0; unless_empty active
