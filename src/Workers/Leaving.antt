-- ===== src/Workers/Leaving.antt =====
-- A worker that registers and then unregisters: its goroutine sees that its context is done, and cleans up.
use text.Mathlib.TextEquality.{eq_iff}
use hermeshooks.Prelude.{suc, ◌≡◌, ◌≢◌, refl, String, true, false, none, ◌∷◌, arith, contains}
use hermeshooks.Entities.{Time}
use hermeshooks.Workers.Registry.{insert, delete, lookup, lookup-insert, lookup-delete}
use hermeshooks.Workers.{
  WorkerMeta, Service, ok, returns, enroll, register, un_register, worker_clean_up,
  trigger_rebalance,
}
use hermeshooks.Workers.Events.{stop_monitors, drop_monitors, find_monitor, observe, clean}

-- The turns of the goroutine that watches the worker.
abbrev pub cleaned : String → Service → Service
cleaned name s = clean name (observe name s)

module _ (s : Service) (name : String) (now : Time) where
  abbrev joined_as : WorkerMeta
  joined_as = record {
    name = name;
    partition = suc s.pnum;
    last_health_check = now;
    context = suc s.pnum;
  }

  abbrev joined : Service
  joined = record s {
    registry = insert name joined_as s.registry;
    pnum = suc s.pnum;
    signal = true;
    monitors = record { worker = joined_as; stopping = false } ∷ s.monitors;
  }

  abbrev left : Service
  left = record joined { cancelled = joined_as.context ∷ s.cancelled }

  cleaned-left :
      s.locked ≡ false
      → cleaned name left ≡ record left {
        registry = delete name (insert name joined_as s.registry);
        monitors =
            drop_monitors name
              (stop_monitors name (record { worker = joined_as; stopping = false } ∷ s.monitors));
      }
  unfolding observe clean find_monitor stop_monitors worker_clean_up trigger_rebalance contains
  cleaned-left free = ground (arith, eq_iff name name)

  pub registered_leaves :
      s.locked ≡ false
      → lookup name s.registry ≡ none
      → (w : WorkerMeta) × (t : Service) × (u : Service) × (register false name now s
          ≡ returns (ok w) t)
        × (un_register name t ≡ returns w u)
        × (lookup name (cleaned name u).registry ≡ none)
        × ((k : String) → k ≢ name → lookup k (cleaned name u).registry ≡ lookup k s.registry)
        × ((cleaned name u).signal ≡ true)
  unfolding register enroll un_register trigger_rebalance
  registered_leaves free missing =
      let e = cleaned-left free in
      (
        joined_as,
        joined,
        left,
        ground arith,
        ground (arith, lookup-insert name name joined_as s.registry, eq_iff name name),
        rw e (
            ground (
              arith,
              lookup-delete name name (insert name joined_as s.registry),
              eq_iff name name,
            )),
        λ k n. rw e (
            ground (
              arith,
              lookup-delete name k (insert name joined_as s.registry),
              lookup-insert name k joined_as s.registry,
              eq_iff name k,
            )),
        rw e refl,
      )
