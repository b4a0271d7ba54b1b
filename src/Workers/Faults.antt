-- ===== src/Workers/Faults.antt =====
-- How workers come and go: a silent worker is removed, a new one gets a partition of its own, and two
-- ways in which the service loses workers that are alive.
use text.Mathlib.TextEquality.{eq_iff}
use hermeshooks.Prelude.{
  ℕ, zero, suc, ◌-◌, ◌*◌, ◌<◌, ◌≡◌, ◌≢◌, refl, ◌∙◌, String, Bool, true, false, inl, inr, Bool-cases,
  none, some, List, [], ◌∷◌, Memᴰ, Permᴰ, arith, length, mem-perm,
}
use hermeshooks.Entities.{Time}
use hermeshooks.Workers.Registry.{Map, lookup, insert, delete, lookup-insert, lookup-delete}
use hermeshooks.Workers.{
  WorkerMeta, Monitor, Service, ok, err, context_done, not_found, blocked, returns, enroll, refresh,
  register, un_register, health, worker_health_check, worker_clean_up, trigger_rebalance,
  active_workers, pick, pick_from,
}
use hermeshooks.Workers.Events.{
  Event, is_watching, is_stopping, stopped, find_monitor, stop_monitors, drop_monitors, tick, clean,
  step, run,
}
use hermeshooks.Workers.Entries.{Inv, found-stopping}

-- In a service that satisfies the invariant and whose lock is free, a name that is not registered
-- gets a partition above that of every registered worker; it is registered, the other entries
-- stay, and a rebalance is asked for.
pub register_new :
    (s : Service) (name : String) (now : Time)
    → Inv s
    → s.locked ≡ false
    → lookup name s.registry ≡ none
    → (w : WorkerMeta) × (t : Service) × (register false name now s ≡ returns (ok w) t)
      × (lookup name t.registry ≡ some w)
      × (t.signal ≡ true)
      × ((k : String) (v : WorkerMeta)
          → lookup k s.registry ≡ some v
          → (v.partition < w.partition) × (lookup k t.registry ≡ some v))
unfolding register enroll trigger_rebalance
register_new s name now i free missing = (
  w,
  record s {
    registry = insert name w s.registry;
    pnum = suc s.pnum;
    signal = true;
    monitors = record { worker = w; stopping = false } ∷ s.monitors;
  },
  ground arith,
  ground (arith, lookup-insert name name w s.registry, eq_iff name name),
  refl,
  λ k v e. (
    ground (arith, i.numbered k v),
    ground (arith, eq_iff name k, lookup-insert name k w s.registry),
  ),
)
  where
    w : WorkerMeta
    w = record {
      name = name;
      partition = suc s.pnum;
      last_health_check = now;
      context = suc s.pnum;
    }

-- With the write lock left held, nothing that needs the lock ever happens again.
locked-step :
    (s : Service) (e : Event)
    → s.locked ≡ true
    → ((step s e).locked ≡ true) × ((step s e).registry ≡ s.registry)
unfolding step register un_register health worker_health_check worker_clean_up
locked-step s e h = ground arith

locked-run :
    (s : Service) (es : List Event)
    → s.locked ≡ true
    → ((run s es).locked ≡ true) × ((run s es).registry ≡ s.registry)
unfolding run
locked-run s [] h = (h, refl)
locked-run s (e ∷ es) h =
    let (l, r) = locked-step s e h in let (l', r') = locked-run (step s e) es l in (l', r' ∙ r)

-- A registration that finds the lock free but its own context done returns with the lock held.
-- Whatever happens after it, the registry stays as it was, and no worker can register, report its
-- health, leave or be counted.
pub register_done_deadlocks :
    (s : Service) (name : String) (now : Time) (es : List Event)
    → s.locked ≡ false
    → (t : Service) × (register true name now s ≡ returns (err context_done) t)
      × ((run t es).registry ≡ s.registry)
      × ((d : Bool) (k : String) (at : Time)
          → (register d k at (run t es) ≡ blocked)
            × (health k at (run t es) ≡ blocked)
            × (un_register k (run t es) ≡ blocked)
            × (active_workers (run t es) ≡ blocked))
unfolding register health un_register active_workers
register_done_deadlocks s name now es free =
    let (l, r) = locked-run (record s { locked = true }) es refl in
    (
      record s { locked = true },
      ground arith,
      r,
      λ d k at. (ground arith, ground arith, ground arith, ground arith),
    )

lookup-delete-gone : (k : String) (m : Map WorkerMeta) → lookup k (delete k m) ≡ none
lookup-delete-gone k m = ground (arith, lookup-delete k k m, eq_iff k k)

find-stopped :
    (name : String) (ms : List Monitor) (m : Monitor)
    → find_monitor (is_watching name) ms ≡ some m
    → (m' : Monitor) × (find_monitor (is_stopping name) (stop_monitors name ms) ≡ some m')
unfolding find_monitor stop_monitors
find-stopped name [] m e = absurd (cc)
find-stopped name (x ∷ ms) m e = elim (Bool-cases (is_watching name x)) [
  | inl hit ↦ (stopped x, ground arith)
  | inr miss ↦ elim (Bool-cases (is_stopping name x)) [
    | inl hit ↦ (x, ground arith)
    | inr other ↦ let (m', e') = find-stopped name ms m (ground arith) in (m', ground arith)
  ]
]

-- If a worker's last heartbeat is more than twice the heartbeat period ago, the lock is free and its
-- goroutine still watches it, then the next tick ends the goroutine's loop and the cleanup that follows
-- removes the worker from the registry, leaves the others, and asks for a rebalance.
pub silent_worker_removed :
    (s : Service) (name : String) (now : Time) (w : WorkerMeta) (m : Monitor)
    → s.locked ≡ false
    → lookup name s.registry ≡ some w
    → find_monitor (is_watching name) s.monitors ≡ some m
    → 2 * s.health_freq < now - w.last_health_check
    → let t = clean name (tick name now s) in
      (lookup name t.registry ≡ none)
      × ((k : String) → k ≢ name → lookup k t.registry ≡ lookup k s.registry)
      × (t.signal ≡ true)
unfolding tick clean worker_health_check worker_clean_up trigger_rebalance
silent_worker_removed s name now w m free found watching late = (
  rw e (lookup-delete-gone name s.registry),
  λ k n. rw e (ground (arith, lookup-delete name k s.registry, eq_iff name k)),
  rw e refl,
)
  where
    ticked : tick name now s ≡ record s { monitors = stop_monitors name s.monitors }
    ticked = ground arith

    e : clean name (tick name now s) ≡ record s {
      registry = delete name s.registry;
      signal = true;
      monitors = drop_monitors name (stop_monitors name s.monitors);
    }
    e =
        let (m', f) = find-stopped name s.monitors m watching in
        let same = found-stopping name (stop_monitors name s.monitors) {m = m'} f in
        rw ticked (ground arith)

-- A worker whose goroutine is on its way out (it was unregistered or found silent) and that
-- registers again, with the lock free, before the cleanup, is told that it is registered; the
-- cleanup then removes it all the same, and its next heartbeat is answered with `not_found`.
pub reregister_lost :
    (s : Service) (name : String) (now later : Time) (w : WorkerMeta) (m : Monitor)
    → s.locked ≡ false
    → lookup name s.registry ≡ some w
    → find_monitor (is_stopping name) s.monitors ≡ some m
    → (t : Service) × (v : WorkerMeta) × (register false name now s ≡ returns (ok v) t)
      × (lookup name (clean name t).registry ≡ none)
      × (health name later (clean name t) ≡ returns (err not_found) (clean name t))
unfolding register refresh clean worker_clean_up trigger_rebalance health
reregister_lost s name now later w m free found stopping =
    let same = found-stopping name s.monitors {m = m} stopping in
    let v : WorkerMeta = record w { last_health_check = now } in
    let t : Service = record s { registry = insert name v s.registry } in
    let gone = lookup-delete-gone name (insert name v s.registry) in
    (t, v, ground arith, ground arith, ground arith)

entry_at :
    (r : ℕ) (visit : Map WorkerMeta)
    → r < length visit
    → (k : String) × (w : WorkerMeta) × Memᴰ (k, w) visit × (pick_from r visit ≡ w.partition)
unfolding pick_from
entry_at r [] lt = absurd (omega arith)
entry_at zero ((k, w) ∷ rest) lt = (k, w, Memᴰ.head refl, refl)
entry_at (suc r) ((k, w) ∷ rest) lt =
    let (k', w', m, e) = entry_at r rest (omega arith) in (k', w', Memᴰ.tail m, e)

-- Whatever the order in which Go ranges over a registry that is not empty and whatever the random
-- number below its size, Pick returns the partition of a registered worker.
pick_registered :
    (r : ℕ) (registry visit : Map WorkerMeta)
    → Permᴰ visit registry
    → r < length visit
    → (k : String) × (w : WorkerMeta) × Memᴰ (k, w) registry × (pick r visit ≡ w.partition)
unfolding pick
pick_registered r registry visit p lt =
    let (k, w, m, e) = entry_at r visit lt in (k, w, mem-perm p m, ground arith)
