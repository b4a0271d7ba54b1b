-- ===== src/Workers/Entries.antt =====
-- What holds of the registry: no two workers share a partition, partition 0 is nobody's, and somebody
-- watches every worker. Each way to change the state keeps it.
use text.Mathlib.Text.{◌==◌ as str_eq}
use text.Mathlib.TextEquality.{eq_iff}
use hermeshooks.Prelude.{
  ℕ, suc, ◌≤◌, ◌<◌, ◌≡◌, ◌≢◌, refl, String, Bool, true, false, ◌||◌, none, some, List, [], ◌∷◌,
  arith,
}
use hermeshooks.Entities.{Time}
use hermeshooks.Workers.Registry.{lookup, insert, delete, lookup-insert, lookup-delete}
use hermeshooks.Workers.{WorkerMeta, Monitor, Service, new, enroll, trigger_rebalance}
use hermeshooks.Workers.Events.{left_by, is_stopping, find_monitor, stop_monitors, drop_monitors}

-- A goroutine has been started for the worker of this name and has not ended.
pub watches : String → List Monitor → Bool
watches k [] = false
watches k (m ∷ ms) = str_eq m.worker.name k || watches k ms

pub record Inv (s : Service) : Type 0 where
  pub named : (k : String) (w : WorkerMeta) → lookup k s.registry ≡ some w → w.name ≡ k
  pub numbered :
      (k : String) (w : WorkerMeta)
      → lookup k s.registry ≡ some w
      → (0 < w.partition) × (w.partition ≤ s.pnum)
  pub distinct :
      (j k : String) (v w : WorkerMeta)
      → lookup j s.registry ≡ some v
      → lookup k s.registry ≡ some w
      → v.partition ≡ w.partition
      → j ≡ k
  pub watched :
      (k : String) (w : WorkerMeta) → lookup k s.registry ≡ some w → watches k s.monitors ≡ true

pub new-Inv : (freq now : ℕ) → Inv (new freq now)
unfolding new lookup
new-Inv freq now = record {
  named = λ k w e. cc;
  numbered = λ k w e. absurd (cc);
  distinct = λ j k v w e f g. cc;
  watched = λ k w e. cc;
}

-- A heartbeat rewrites one entry, and keeps its name and partition.
pub put-Inv :
    (s : Service) (name : String) (w : WorkerMeta) (now : Time)
    → lookup name s.registry ≡ some w
    → Inv s
    → Inv (record s { registry = insert name (record w { last_health_check = now }) s.registry })
put-Inv s name w now found i = record {
  named = λ k v e.
      ground
        (arith, eq_iff name k, lookup-insert name k w' s.registry, i.named k v, i.named name w);
  numbered = λ k v e.
      ground (
        arith,
        eq_iff name k,
        lookup-insert name k w' s.registry,
        i.numbered k v,
        i.numbered name w,
      );
  distinct = λ j k u v e f g. ground (
    arith,
    eq_iff name j,
    eq_iff name k,
    lookup-insert name j w' s.registry,
    lookup-insert name k w' s.registry,
    i.distinct j k u v,
    i.distinct name k w v,
    i.distinct j name u w,
  );
  watched = λ k v e.
      ground
        (arith, eq_iff name k, lookup-insert name k w' s.registry, i.watched k v, i.watched name w);
}
  where
    w' : WorkerMeta
    w' = record w { last_health_check = now }

pub enroll-Inv :
    (s : Service) (name : String) (now : Time)
    → lookup name s.registry ≡ none
    → Inv s
    → Inv (left_by s (enroll name now s))
unfolding enroll trigger_rebalance watches
enroll-Inv s name now missing i = record {
  named = λ k v e. ground (arith, eq_iff name k, lookup-insert name k w' s.registry, i.named k v);
  numbered =
      λ k v e. ground (arith, eq_iff name k, lookup-insert name k w' s.registry, i.numbered k v);
  distinct = λ j k u v e f g. ground (
    arith,
    eq_iff name j,
    eq_iff name k,
    lookup-insert name j w' s.registry,
    lookup-insert name k w' s.registry,
    i.distinct j k u v,
    i.numbered k v,
    i.numbered j u,
  );
  watched =
      λ k v e. ground (arith, eq_iff name k, lookup-insert name k w' s.registry, i.watched k v);
}
  where
    w' : WorkerMeta
    w' = record {
      name = name;
      partition = suc s.pnum;
      last_health_check = now;
      context = suc s.pnum;
    }

watches-stop :
    (name k : String) (ms : List Monitor) → watches k (stop_monitors name ms) ≡ watches k ms
unfolding watches stop_monitors
watches-stop name k [] = refl
watches-stop name k (m ∷ ms) = ground (arith, watches-stop name k ms)

watches-drop :
    (name k : String) (ms : List Monitor)
    → name ≢ k
    → watches k ms ≡ true
    → watches k (drop_monitors name ms) ≡ true
unfolding watches drop_monitors
watches-drop name k [] n h = h
watches-drop name k (m ∷ ms) n h = ground (
  arith,
  eq_iff m.worker.name k,
  eq_iff m.worker.name name,
  eq_iff name k,
  watches-drop name k ms n,
)

pub found-stopping :
    (name : String) (ms : List Monitor) {m : Monitor}
    → find_monitor (is_stopping name) ms ≡ some m
    → m.worker.name ≡ name
unfolding find_monitor
found-stopping name [] e = cc
found-stopping name (x ∷ ms) {m} e =
    ground (arith, eq_iff x.worker.name name, found-stopping name ms {m = m})

pub lock-Inv : (s : Service) → Inv s → Inv (record s { locked = true })
lock-Inv s i = record {
  named = i.named;
  numbered = i.numbered;
  distinct = i.distinct;
  watched = i.watched;
}

pub cancel-Inv : (s : Service) (c : ℕ) → Inv s → Inv (record s { cancelled = c ∷ s.cancelled })
cancel-Inv s c i = record {
  named = i.named;
  numbered = i.numbered;
  distinct = i.distinct;
  watched = i.watched;
}

pub stop-Inv :
    (s : Service) (name : String)
    → Inv s
    → Inv (record s { monitors = stop_monitors name s.monitors })
stop-Inv s name i = record {
  named = i.named;
  numbered = i.numbered;
  distinct = i.distinct;
  watched = λ k w e. rw (watches-stop name k s.monitors) (i.watched k w e);
}

pub delete-Inv :
    (s : Service) (name : String)
    → Inv s
    → Inv (record s {
      registry = delete name s.registry;
      signal = true;
      monitors = drop_monitors name s.monitors;
    })
delete-Inv s name i = record {
  named = λ k v e. ground (arith, eq_iff name k, lookup-delete name k s.registry, i.named k v);
  numbered =
      λ k v e. ground (arith, eq_iff name k, lookup-delete name k s.registry, i.numbered k v);
  distinct = λ j k u v e f g. ground (
    arith,
    eq_iff name j,
    eq_iff name k,
    lookup-delete name j s.registry,
    lookup-delete name k s.registry,
    i.distinct j k u v,
  );
  watched = λ k v e. ground (
    arith,
    eq_iff name k,
    lookup-delete name k s.registry,
    i.watched k v,
    watches-drop name k s.monitors,
  );
}
