-- ===== src/Workers/Balancer/Calls.antt =====
-- A call of the worker service that changes which partitions are registered asks for a rebalance.
use hermeshooks.Prelude.{◌≡◌, refl, String, Bool, true, ◌⊎◌, inl, inr, Option-cases, some, arith}
use hermeshooks.Entities.{Time}
use hermeshooks.Workers.Registry.{Map, lookup, insert, map-insert}
use hermeshooks.Workers.{
  WorkerMeta, Service, enroll, refresh, register, un_register, health, worker_health_check,
  worker_clean_up, trigger_rebalance, get_current_partitions,
}
use hermeshooks.Workers.Events.{
  Event, registers, un_registers, reports, ticks, observes, cleans, takes, left_by, tick, observe,
  clean, step,
}
use hermeshooks.Workers.Balancer.{IsCall}

insert-partitions :
    (name : String) (now : Time) (w : WorkerMeta) (m : Map WorkerMeta)
    → lookup name m ≡ some w
    → get_current_partitions (insert name (record w { last_health_check = now }) m)
      ≡ get_current_partitions m
unfolding get_current_partitions
insert-partitions name now w m found =
    map-insert (λ (x : WorkerMeta). x.partition) name _ w m found refl

abbrev Announced : Service → Service → Type 0
Announced s t =
    (get_current_partitions t.registry ≡ get_current_partitions s.registry) ⊎ (t.signal ≡ true)

register-Announced :
    (s : Service) (d : Bool) (name : String) (now : Time)
    → Announced s (left_by s (register d name now s))
unfolding register enroll refresh trigger_rebalance
register-Announced s d name now = elim (Option-cases (lookup name s.registry)) [
  | inl missing ↦ ground arith
  | inr (w, found) ↦ ground (arith, insert-partitions name now w s.registry found)
]

health-Announced :
    (s : Service) (name : String) (now : Time) → Announced s (left_by s (health name now s))
unfolding health
health-Announced s name now = elim (Option-cases (lookup name s.registry)) [
  | inl missing ↦ ground arith
  | inr (w, found) ↦ ground (arith, insert-partitions name now w s.registry found)
]

pub step-Announced : (s : Service) (e : Event) → IsCall e → Announced s (step s e)
unfolding step un_register tick observe clean worker_health_check worker_clean_up trigger_rebalance
step-Announced s (registers d name now) c = register-Announced s d name now
step-Announced s (un_registers name) c = ground arith
step-Announced s (reports name now) c = health-Announced s name now
step-Announced s (ticks name now) c = ground arith
step-Announced s (observes name) c = ground arith
step-Announced s (cleans name) c = ground arith
step-Announced s takes c = absurd c
