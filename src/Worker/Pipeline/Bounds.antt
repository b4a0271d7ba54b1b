-- ===== src/Worker/Pipeline/Bounds.antt =====
-- No job gets lost between the goroutines of a worker, and no more run than there are slots.
use hermeshooks.Prelude.{
  ℕ, ◌+◌, ◌≤◌, ◌<◌, ◌≡◌, refl, ap, String, Bool, true, Option, none, [], ◌∷◌, arith, length,
}
use hermeshooks.Entities
use hermeshooks.Storage.Sql.{Server, World}
use hermeshooks.Common.Retry.{Request, Reply}
use hermeshooks.Monitor.{buff_size}
use hermeshooks.Worker.Pipeline.{
  Jobs, Pipe, new_pipe, Step, selects, fails, leaves, pushes, pushes_closed, receives, launches,
  processes, crashes, fills, others_select, others_schedule, Reach, here, next,
}
use hermeshooks.Worker.Pipeline.Counts.{
  count, total, in_hand, count-append, count-middle, count-last, total-middle, length-middle,
  length-last,
}

-- `kept`: of the jobs of a kind that were selected, each is with a goroutine that pushes, in the channel,
-- with the executor, at work, or finished.
pub record Inv (threads : ℕ) (p : Pipe) : Type 0 where
  pub slots : length p.active + p.filled ≤ threads
  pub room : length p.channel ≤ buff_size
  pub kept :
      (q : Entities.ScheduledJob → Bool)
      → count q p.selected
        ≡ total q p.pushers
          + count q p.channel
          + in_hand q p.held
          + count q p.active
          + count q p.finished
  pub ended : 0 < p.filled → (p.closed ≡ true) × (p.channel ≡ []) × (p.held ≡ none)

module _ (srv : Server) (partition threads : ℕ) {S : Type 0} (send : S → Request → Reply × S)
    (url_error : String → Option String) where
  Step-Inv :
      {p p' : Pipe}
      → Step srv partition threads send url_error p p'
      → Inv threads p
      → Inv threads p'
  unfolding count total
  Step-Inv (selects p now r w unclosed e) i = record {
    slots = i.slots;
    room = i.room;
    kept = λ q. omega (arith, i.kept q, count-append q r.jobs p.selected);
    ended = i.ended;
  }
  Step-Inv (fails p now x w unclosed e) i = record {
    slots = i.slots;
    room = i.room;
    kept = i.kept;
    ended = λ h. let (c, e1, h1) = i.ended h in (refl, e1, h1);
  }
  Step-Inv (leaves p older unclosed e) i = record {
    slots = i.slots;
    room = i.room;
    kept = i.kept;
    ended = λ h. let (c, e1, h1) = i.ended h in (refl, e1, h1);
  }
  Step-Inv (pushes p newer older j js unclosed e small) i = record {
    slots = i.slots;
    room = omega (arith, length-last p.channel j);
    kept = λ q. omega (
      arith,
      i.kept q,
      count-last q p.channel j,
      total-middle q newer older j js,
      ap (total q) e,
    );
    ended = λ h. absurd (let c = (i.ended h).0 in cc);
  }
  Step-Inv (pushes_closed p newer older j js closed e) i = record {
    slots = i.slots;
    room = i.room;
    kept = i.kept;
    ended = i.ended;
  }
  Step-Inv (receives p j rest none_held e) i = record {
    slots = i.slots;
    room = let n = ap length e in omega (arith, n, i.room);
    kept = λ q. omega (arith, i.kept q, ap (count q) e, ap (in_hand q) none_held);
    ended = λ h. absurd (let c = (i.ended h).1 in cc);
  }
  Step-Inv (launches p j e free) i = record {
    slots = omega arith;
    room = i.room;
    kept = λ q. omega (arith, i.kept q, ap (in_hand q) e);
    ended = λ h. absurd (let c = (i.ended h).2 in cc);
  }
  Step-Inv (processes p before after j now s r w e done) i = record {
    slots = omega (arith, i.slots, ap length e, length-middle before after j);
    room = i.room;
    kept = λ q. omega (arith, i.kept q, ap (count q) e, count-middle q before after j);
    ended = i.ended;
  }
  Step-Inv (crashes p before after j now s w e done) i = record {
    slots = i.slots;
    room = i.room;
    kept = i.kept;
    ended = i.ended;
  }
  Step-Inv (fills p closed empty idle free) i = record {
    slots = omega arith;
    room = i.room;
    kept = i.kept;
    ended = λ h. (closed, empty, idle);
  }
  Step-Inv (others_select p srv' partition' n now) i = record {
    slots = i.slots;
    room = i.room;
    kept = i.kept;
    ended = i.ended;
  }
  Step-Inv (others_schedule p srv' partition' j) i = record {
    slots = i.slots;
    room = i.room;
    kept = i.kept;
    ended = i.ended;
  }

  -- In every state that a worker's goroutines reach: no more jobs are at work than there are slots, the
  -- channel holds at most 100, and of the jobs of any kind that were selected, as many as were selected
  -- are with a goroutine that pushes, in the channel, with the executor, at work or finished.
  pub Reach-Inv :
      {w : World} {p : Pipe} → Reach srv partition threads send url_error w p → Inv threads p
  unfolding new_pipe count total
  Reach-Inv here = record {
    slots = omega arith;
    room = omega arith;
    kept = λ q. omega arith;
    ended = λ h. absurd (omega arith);
  }
  Reach-Inv (next r alive s) = Step-Inv s (Reach-Inv r)

  nothing-of_length : (js : Jobs) → length js ≡ 0 → js ≡ []
  nothing-of_length [] h = refl
  nothing-of_length (j ∷ js) h = absurd (omega arith)

  -- When the executor has taken all its slots, at least one, so that its start returns, no job is at work,
  -- and every job that was selected is finished, but for those that a goroutine of the monitor had still
  -- to push.
  pub returned_finished :
      {w : World} {p : Pipe}
      → Reach srv partition threads send url_error w p
      → 0 < threads
      → p.filled ≡ threads
      → (p.active ≡ [])
        × ((q : Entities.ScheduledJob → Bool)
            → count q p.selected ≡ count q p.finished + total q p.pushers)
  unfolding count
  returned_finished {p} r some_slots full =
      let i = Reach-Inv r in
      let idle = nothing-of_length p.active (omega (arith, i.slots)) in
      let (closed, empty, free) = i.ended (omega arith) in
      (
        idle,
        λ q. omega (arith, i.kept q, ap (count q) idle, ap (count q) empty, ap (in_hand q) free),
      )
