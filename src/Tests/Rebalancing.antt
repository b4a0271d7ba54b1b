-- ===== src/Tests/Rebalancing.antt =====
-- The rebalancer of a service that one worker joins, and how evenly jobs are dealt out.
use mathlib.Core.List.Permᴰ
use hermeshooks.Prelude.{
  ℕ, ◌+◌, ◌/◌, ◌%◌, ◌≤◌, ◌≡◌, refl, true, false, inl, inr, [], ◌∷◌, Permᴰ, arith, ◌==◌,
  if◌then◌else◌, contains, update_where, limit, select_where, length, All, Bool-cases, ==_iff,
}
use hermeshooks.Entities.{scheduled}
use hermeshooks.Storage.Sql.{World, ok, statement, begin, commit, transact}
use hermeshooks.Storage.Ids.Times.{times}
use hermeshooks.Storage.Balance.Even.Moves.{IsUnique}
use hermeshooks.Storage.Balance.{
  is_live, batch, bump_group, count_groups, total_count, has_group, add_missing, share,
  update_jobs_partitions, assign_jobs_to_partition, removes_jobs_from_partition, notify,
  select_groups, drop_surplus, shed_one, shed, deal, notify_all, settle, spread, unless_empty,
  re_balance,
}
use hermeshooks.Storage.Balance.Groups.{count_in}
use hermeshooks.Storage.Balance.Even.Sums.{IsDistinct}
use hermeshooks.Storage.Balance.Even.Shares.{re_balance_even, re_balance_strands_rest}
use hermeshooks.Workers.{WorkerMeta, new, trigger_rebalance, get_current_partitions, register}
use hermeshooks.Workers.Registry.{Map, lookup, insert}
use hermeshooks.Workers.Events.{registers, step}
use hermeshooks.Workers.Rebalance.{rebalance}
use hermeshooks.Workers.Balancer.{
  reading, working, waiting, State, IsAlive, start, hushed, call, finish, calls, sends, receives,
  reads, rebalances, turns, Goes, Reach, here, next,
}
use hermeshooks.Workers.Balancer.Told.{Owed}
use hermeshooks.Workers.Balancer.Settles.{Settled, no_lost_rebalance, rebalancer_settles}
use hermeshooks.Tests.Data.{server, job_row, world_of}
use hermeshooks.Tests.Balancing.{in_order}

-- Five jobs, of which partition 1 has three and partition 2 has two.
abbrev five : World
five = world_of (
    job_row 1 "one" 1 scheduled 5
    ∷ job_row 2 "two" 1 scheduled 6
    ∷ job_row 3 "three" 1 scheduled 7
    ∷ job_row 4 "four" 2 scheduled 8
    ∷ job_row 5 "five" 2 scheduled 9
    ∷ [])

five-IsUnique : IsUnique five.tables.jobs
unfolding times
five-IsUnique id = ground arith

dealt : (re_balance server in_order (1 ∷ 2 ∷ []) five).0 ≡ ok tt
unfolding batch bump_group count_groups total_count has_group add_missing share
    update_jobs_partitions assign_jobs_to_partition removes_jobs_from_partition notify select_groups
    drop_surplus shed_one shed deal notify_all settle spread unless_empty re_balance statement
    select_where update_where contains limit
dealt = refl

two-IsDistinct : IsDistinct (1 ∷ 2 ∷ [])
unfolding contains
two-IsDistinct = (omega arith, refl, (omega arith, refl, tt))

five-live : All (λ j. is_live j.status ≡ true) five.tables.jobs
five-live = (refl, (refl, (refl, (refl, (refl, tt)))))

re_balance_even_example :
    (l : ℕ) × (contains (0 ∷ 1 ∷ 2 ∷ []) l ≡ true)
    × ((p : ℕ)
        → contains (0 ∷ 1 ∷ 2 ∷ []) p ≡ true
        → count_in p (re_balance server in_order (1 ∷ 2 ∷ []) five).1.tables.jobs
          ≡ (if p == 0 then 0 else length five.tables.jobs / 2)
            + (if p == l then length five.tables.jobs % 2 else 0))
re_balance_even_example =
    re_balance_even server in_order (1 ∷ 2 ∷ []) five two-IsDistinct (omega arith) five-live
      five-IsUnique dealt

-- Both have their share of two.
five-full : (a : ℕ) → contains (1 ∷ 2 ∷ []) a ≡ true → 5 / 2 ≤ count_in a five.tables.jobs
unfolding contains select_where
five-full a c = elim (Bool-cases (1 == a)) [
  | inl e ↦ rw (← (==_iff 1 a).0 e) (omega arith)
  | inr e ↦ let two : 2 ≡ a = ground arith in rw (← two) (omega arith)
]

re_balance_strands_rest_example :
    (count_in 0 (re_balance server in_order (1 ∷ 2 ∷ []) five).1.tables.jobs ≡ 5 % 2)
    × ((a : ℕ)
        → contains (1 ∷ 2 ∷ []) a ≡ true
        → count_in a (re_balance server in_order (1 ∷ 2 ∷ []) five).1.tables.jobs ≡ 5 / 2)
re_balance_strands_rest_example =
    re_balance_strands_rest server in_order (1 ∷ 2 ∷ []) five two-IsDistinct (omega arith) five-live
      five-IsUnique five-full dealt

-- A worker registers while the first rebalance waits for its turn; its message comes when that is over.
abbrev ada : WorkerMeta
ada = record { name = "ada"; partition = 1; last_health_check = 3; context = 1 }

abbrev alone : Map WorkerMeta
alone = ("ada", ada) ∷ []

abbrev begun : State
begun = start 5 0 five

abbrev joined : State
joined = call (registers false "ada" 3) begun

abbrev told : State
told = record joined { service = (trigger_rebalance joined.service).0; senders = 0 }

abbrev read_first : State
read_first = record told { phase = working alone }

abbrev done_first : State
done_first = finish alone (rebalance server in_order alone read_first.db) read_first

abbrev heard : State
heard = record done_first { service = hushed done_first.service; phase = reading }

abbrev read_again : State
read_again = record heard { phase = working alone }

abbrev done_again : State
done_again = finish alone (rebalance server in_order alone read_again.db) read_again

ran :
    Reach begun done_again
    × (done_again.phase ≡ waiting)
    × (done_again.senders ≡ 0)
    × (done_again.service.signal ≡ false)
unfolding start call finish new rebalance get_current_partitions transact begin commit batch
    bump_group count_groups total_count has_group add_missing share update_jobs_partitions
    assign_jobs_to_partition removes_jobs_from_partition notify select_groups drop_surplus shed_one
    shed deal notify_all settle spread unless_empty re_balance statement select_where update_where
    contains limit step register insert lookup trigger_rebalance
ran = (
  next
      (next
        (next
          (next
            (next
              (next (next here (calls begun (registers false "ada" 3) tt tt))
                (turns server in_order (sends joined 0 refl tt)))
              (turns server in_order (reads told alone refl refl (Permᴰ.refl alone))))
            (turns server in_order (rebalances read_first alone refl)))
          (turns server in_order (receives done_first refl refl)))
        (turns server in_order (reads heard alone refl refl (Permᴰ.refl alone))))
      (turns server in_order (rebalances read_again alone refl)),
  refl,
  refl,
  refl,
)

no_lost_rebalance_example :
    Permᴰ done_again.last (get_current_partitions done_again.service.registry)
no_lost_rebalance_example = no_lost_rebalance 5 0 five ran.0 ran.1 ran.2 ran.3

unlocked : joined.service.locked ≡ false
unfolding start call new step register lookup
unlocked = refl

alive : IsAlive joined.phase
unfolding start call
alive = tt

owed : Owed joined
unfolding start call new step register lookup insert trigger_rebalance
owed = inl (omega arith)

rebalancer_settles_example :
    (u : State) × Goes server in_order joined u × Settled joined.service.registry u
rebalancer_settles_example =
    rebalancer_settles server in_order (λ n. refl) joined alive owed unlocked
