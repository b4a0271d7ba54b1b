-- ===== src/Workers/Invariant.antt =====
-- What holds of the registry after any history of events, in any order.
use hermeshooks.Prelude.{
  ℕ, ◌≡◌, String, Bool, true, ◌⊎◌, inl, inr, Bool-cases, Option-cases, List, [], ◌∷◌, arith,
}
use hermeshooks.Entities.{Time}
use hermeshooks.Workers.Registry.{lookup, insert, delete}
use hermeshooks.Workers.{
  Service, new, enroll, refresh, register, un_register, health, worker_health_check,
  worker_clean_up,
}
use hermeshooks.Workers.Events.{
  Event, registers, un_registers, reports, ticks, observes, cleans, takes, left_by, is_stopping,
  find_monitor, stop_monitors, drop_monitors, tick, observe, clean, step, run,
}
use hermeshooks.Workers.Entries.{
  Inv, found-stopping, new-Inv, put-Inv, enroll-Inv, lock-Inv, cancel-Inv, stop-Inv, delete-Inv,
}

register-Inv :
    (s : Service) (context_is_done : Bool) (name : String) (now : Time)
    → Inv s
    → Inv (left_by s (register context_is_done name now s))
unfolding register refresh
register-Inv s d name now i = elim (Bool-cases s.locked) [
  | inl held ↦ let e : left_by s (register d name now s) ≡ s = ground arith in rw e i
  | inr free ↦ elim (Bool-cases d) [
    | inl gone ↦
        let e : left_by s (register d name now s) ≡ record s { locked = true } = ground arith in
        rw e (lock-Inv s i)
    | inr live ↦ elim (Option-cases (lookup name s.registry)) [
      | inl missing ↦
          let e : left_by s (register d name now s) ≡ left_by s (enroll name now s) =
            ground arith in
          rw e (enroll-Inv s name now missing i)
      | inr (w, found) ↦
          let e : left_by s (register d name now s) ≡ record s {
            registry = insert name (record w { last_health_check = now }) s.registry;
          } =
            ground arith in
          rw e (put-Inv s name w now found i)
    ]
  ]
]

un_register-Inv : (s : Service) (name : String) → Inv s → Inv (left_by s (un_register name s))
unfolding un_register
un_register-Inv s name i = elim (Bool-cases s.locked) [
  | inl held ↦ let e : left_by s (un_register name s) ≡ s = ground arith in rw e i
  | inr free ↦ elim (Option-cases (lookup name s.registry)) [
    | inl missing ↦ let e : left_by s (un_register name s) ≡ s = ground arith in rw e i
    | inr (w, found) ↦
        let e : left_by s (un_register name s) ≡ record s { cancelled = w.context ∷ s.cancelled } =
          ground arith in
        rw e (cancel-Inv s w.context i)
  ]
]

health-Inv :
    (s : Service) (name : String) (now : Time) → Inv s → Inv (left_by s (health name now s))
unfolding health
health-Inv s name now i = elim (Bool-cases s.locked) [
  | inl held ↦ let e : left_by s (health name now s) ≡ s = ground arith in rw e i
  | inr free ↦ elim (Option-cases (lookup name s.registry)) [
    | inl missing ↦ let e : left_by s (health name now s) ≡ s = ground arith in rw e i
    | inr (w, found) ↦
        let e : left_by s (health name now s) ≡ record s {
          registry = insert name (record w { last_health_check = now }) s.registry;
        } =
          ground arith in
        rw e (put-Inv s name w now found i)
  ]
]

-- A turn of the goroutine before its cleanup ends its loop, or does nothing.
abbrev MayStop : String → Service → Service → Type 0
MayStop name s t = (t ≡ s) ⊎ (t ≡ record s { monitors = stop_monitors name s.monitors })

tick-MayStop : (s : Service) (name : String) (now : Time) → MayStop name s (tick name now s)
unfolding tick worker_health_check
tick-MayStop s name now = ground arith

observe-MayStop : (s : Service) (name : String) → MayStop name s (observe name s)
unfolding observe
observe-MayStop s name = ground arith

MayStop-Inv : (s t : Service) (name : String) → MayStop name s t → Inv s → Inv t
MayStop-Inv s t name (inl e) i = rw e i
MayStop-Inv s t name (inr e) i = rw e (stop-Inv s name i)

clean-Inv : (s : Service) (name : String) → Inv s → Inv (clean name s)
unfolding clean worker_clean_up
clean-Inv s name i = elim (Option-cases (find_monitor (is_stopping name) s.monitors)) [
  | inl none_found ↦ let e : clean name s ≡ s = ground arith in rw e i
  | inr (m, found) ↦ elim (Bool-cases s.locked) [
    | inl held ↦ let e : clean name s ≡ s = ground arith in rw e i
    | inr free ↦
        let same = found-stopping name s.monitors {m = m} found in
        let e : clean name s ≡ record s {
          registry = delete m.worker.name s.registry;
          signal = true;
          monitors = drop_monitors name s.monitors;
        } =
          ground arith in
        rw (e, same) (delete-Inv s name i)
  ]
]

step-Inv : (s : Service) (e : Event) → Inv s → Inv (step s e)
unfolding step
step-Inv s (registers d name now) i = register-Inv s d name now i
step-Inv s (un_registers name) i = un_register-Inv s name i
step-Inv s (reports name now) i = health-Inv s name now i
step-Inv s (ticks name now) i = MayStop-Inv s _ name (tick-MayStop s name now) i
step-Inv s (observes name) i = MayStop-Inv s _ name (observe-MayStop s name) i
step-Inv s (cleans name) i = clean-Inv s name i
step-Inv s takes i = record {
  named = i.named;
  numbered = i.numbered;
  distinct = i.distinct;
  watched = i.watched;
}

run-Inv : (s : Service) (es : List Event) → Inv s → Inv (run s es)
unfolding run
run-Inv s [] i = i
run-Inv s (e ∷ es) i = run-Inv (step s e) es (step-Inv s e i)

-- After any history of calls and goroutines' turns, in any order: an entry is filed under its
-- worker's name, its partition is between 1 and `pnum` and no other entry's, and a goroutine that has
-- not ended is there to remove it.
pub run-new-Inv : (freq now : ℕ) (es : List Event) → Inv (run (new freq now) es)
run-new-Inv freq now es = run-Inv (new freq now) es (new-Inv freq now)
