-- ===== src/Workers/Balancer/Told.antt =====
-- No change of the registered workers is lost on the rebalancer.
use mathlib.Core.List.Permᴰ
use hermeshooks.Prelude.{ℕ, ◌<◌, ◌≡◌, refl, true, ◌⊎◌, inl, inr, List, Permᴰ, arith}
use hermeshooks.Storage.Sql.{Server, World, Result, ok, err}
use hermeshooks.Storage.Balance.{MapRange}
use hermeshooks.Workers.{WorkerMeta, trigger_rebalance, get_current_partitions}
use hermeshooks.Workers.Registry.{Map}
use hermeshooks.Workers.Events.{Event}
use hermeshooks.Workers.Balancer.Calls.{step-Announced}
use hermeshooks.Workers.Balancer.{
  Phase, reading, working, waiting, dead, State, start, IsCall, hushed, call, finish, Step, calls,
  sends, receives, reads, rebalances, others, Reach, here, next, Turn, turns,
}

-- A message is in the channel, or will be sent.
abbrev pub Owed : State → Type 0
Owed s = (0 < s.senders) ⊎ (s.service.signal ≡ true)

abbrev pub KnowsOf : List ℕ → State → Type 0
KnowsOf ps s = Permᴰ ps (get_current_partitions s.service.registry)

-- What the rebalancer knows of the registry, unless a message is on its way.
abbrev pub Told : Phase → State → Type 0
Told reading s = Unit {0}
Told (working visit) s = Owed s ⊎ KnowsOf (get_current_partitions visit) s
Told waiting s = Owed s ⊎ KnowsOf s.last s
Told dead s = Unit {0}

partitions-perm :
    {xs ys : Map WorkerMeta}
    → Permᴰ xs ys
    → Permᴰ (get_current_partitions xs) (get_current_partitions ys)
unfolding get_current_partitions
partitions-perm p = Permᴰ.map _ p

Owed-or :
    {P Q : Type 0} (s t : State) → (Owed s → Owed t) → (P → Owed t ⊎ Q) → Owed s ⊎ P → Owed t ⊎ Q
Owed-or s t f g (inl o) = inl (f o)
Owed-or s t f g (inr p) = g p

-- After a call, what was owed is owed; and what was known of the registry still is, or a message is owed.
call-Owed : (s : State) (e : Event) → Owed s → Owed (call e s)
unfolding call
call-Owed s e (inl n) = ground arith
call-Owed s e (inr h) = inr h

call-KnowsOf :
    (s : State) (e : Event) (ps : List ℕ)
    → IsCall e
    → KnowsOf ps s
    → Owed (call e s) ⊎ KnowsOf ps (call e s)
unfolding call
call-KnowsOf s e ps c k = elim (step-Announced (hushed s.service) e c) [
  | inl same ↦ inr (rw same k)
  | inr asked ↦ inl (inl (rw asked (omega arith)))
]

call-Told : (s : State) (e : Event) (p : Phase) → IsCall e → Told p s → Told p (call e s)
unfolding call
call-Told s e reading c h = tt
call-Told s e (working visit) c h = Owed-or s (call e s) (call-Owed s e) (call-KnowsOf s e _ c) h
call-Told s e waiting c h = Owed-or s (call e s) (call-Owed s e) (call-KnowsOf s e s.last c) h
call-Told s e dead c h = tt

sent-Told :
    (s : State) (n : ℕ) (p : Phase)
    → Told p (record s { service = (trigger_rebalance s.service).0; senders = n })
unfolding trigger_rebalance
sent-Told s n reading = tt
sent-Told s n (working visit) = inl (inr refl)
sent-Told s n waiting = inl (inr refl)
sent-Told s n dead = tt

finish-Told :
    (visit : Map WorkerMeta) (r : Result (Unit {0}) × World) (s : State)
    → Told (working visit) s
    → Told (finish visit r s).phase (finish visit r s)
unfolding finish
finish-Told visit (ok u, w) s h = h
finish-Told visit (err e, w) s h = tt

other-Told : (s : State) (w : World) (p : Phase) → Told p s → Told p (record s { db = w })
other-Told s w reading h = h
other-Told s w (working visit) h = h
other-Told s w waiting h = h
other-Told s w dead h = h

Turn-Told :
    {srv : Server} {range : MapRange} {s t : State}
    → Turn srv range s t
    → Told s.phase s
    → Told t.phase t
Turn-Told (sends s n e alive) h = sent-Told s n s.phase
Turn-Told (receives s e full) h = tt
Turn-Told (reads s visit e free p) h = inr (partitions-perm p)
Turn-Told (rebalances s visit e) h = finish-Told visit _ s (rw e at h)

Step-Told : {s t : State} → Step s t → Told s.phase s → Told t.phase t
Step-Told (calls s e c alive) h = unfold call in call-Told s e s.phase c h
Step-Told (turns srv range turn) h = Turn-Told turn h
Step-Told (others s w alive) h = other-Told s w s.phase h

pub Reach-Told : {s t : State} → Told s.phase s → Reach s t → Told t.phase t
Reach-Told h here = h
Reach-Told h (next r st) = Step-Told st (Reach-Told h r)

pub start-Told : (freq now : ℕ) (w : World) → Told (start freq now w).phase (start freq now w)
unfolding start
start-Told freq now w = tt
