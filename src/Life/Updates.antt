-- ===== src/Life/Updates.antt =====
-- What updates of the table of jobs are for the machine of cards.
use mathlib.Core.Path.{subst}
use hermeshooks.Prelude.{
  ℕ, suc, ◌+◌, ◌≤◌, ◌<◌, ◌≡◌, refl, ap, sym, Bool, true, List, [], ◌∷◌, ◌++◌, Memᴰ, arith, ◌==◌,
  Bool-cases, inl, inr, update_where, mem-update_where,
}
use hermeshooks.Entities.{scheduled}
use hermeshooks.Storage.Models.{ScheduledJob}
use hermeshooks.Storage.Sql.{Tables}
use hermeshooks.Storage.Ids.{old-or-new}
use hermeshooks.Storage.Ids.Times.{times, times-update, times-append, times-fresh}
use hermeshooks.Life.{
  Card, Move, stays, Turn, over, opens, moves, Evolves, next, phase_of, card_of, board,
}

-- `f` changes nothing of a card but its phase, by a move.
pub record Moves (j k : ScheduledJob) : Type 0 where
  pub same : card_of k ≡ record (card_of j) { phase = phase_of k.status }
  pub move : Move (phase_of j.status) (phase_of k.status)

Turn-refl : (b : List Card) → Turn b b
Turn-refl [] = over
Turn-refl (c ∷ cs) = moves c c.phase (stays c.phase) (Turn-refl cs)

pub Turn-update :
    (p : ScheduledJob → Bool) (f : ScheduledJob → ScheduledJob) (rows : List ScheduledJob)
    → ((j : ScheduledJob) → Memᴰ j rows → p j ≡ true → Moves j (f j))
    → Turn (board rows) (board (update_where p f rows))
unfolding board update_where
Turn-update p f [] h = over
Turn-update p f (j ∷ js) h =
    let rest = Turn-update p f js (λ x m e. h x (Memᴰ.tail m) e) in
    elim (Bool-cases (p j)) [
      | inl e ↦
          let k = h j (Memᴰ.head refl) e in
          let turned = moves (card_of j) (phase_of (f j).status) k.move rest in
          rw e (
            subst (λ c. Turn (card_of j ∷ board js) (c ∷ board (update_where p f js))) (sym k.same)
              turned)
      | inr e ↦ rw e (moves (card_of j) (phase_of j.status) (stays _) rest)
    ]

Turn-append :
    (rows : List ScheduledJob) (row : ScheduledJob)
    → row.status ≡ scheduled
    → Turn (board rows) (board (rows ++ row ∷ []))
unfolding board
Turn-append [] row e = opens (card_of row) (rw e refl)
Turn-append (j ∷ js) row e = moves (card_of j) (phase_of j.status) (stays _) (Turn-append js row e)

-- What holds of the tables in a history that began with the cards `b`.
pub record Lives (b : List Card) (n : ℕ) (t : Tables) : Type 0 where
  pub below : (j : ScheduledJob) → Memᴰ j t.jobs → j.id < n
  pub unique : (id : ℕ) → times id t.jobs ≤ 1
  pub evolved : Evolves b (board t.jobs)

module _ (b : List Card) (n : ℕ) (t t' : Tables) where
  pub Lives-update :
      (p : ScheduledJob → Bool) (f : ScheduledJob → ScheduledJob)
      → t'.jobs ≡ update_where p f t.jobs
      → ((j : ScheduledJob) → (f j).id ≡ j.id)
      → ((j : ScheduledJob) → Memᴰ j t.jobs → p j ≡ true → Moves j (f j))
      → Lives b n t
      → Lives b n t'
  Lives-update p f e same move h = record {
    below = λ j m.
        let (k, old, q) = mem-update_where p f t.jobs (rw e at m) in
        ground (arith, h.below k old, same k);
    unique = λ id. rw e (omega (arith, times-update id p f t.jobs same, h.unique id));
    evolved = rw e (next h.evolved (Turn-update p f t.jobs move));
  }

  pub Lives-same : t'.jobs ≡ t.jobs → Lives b n t → Lives b n t'
  Lives-same e h = record { below = rw e h.below; unique = rw e h.unique; evolved = rw e h.evolved }

  pub Lives-append :
      (row : ScheduledJob)
      → row.id ≡ n
      → row.status ≡ scheduled
      → t'.jobs ≡ t.jobs ++ row ∷ []
      → Lives b n t
      → Lives b (suc n) t'
  unfolding times
  Lives-append row i waits e h = record {
    below = λ j m. elim (old-or-new t.jobs row (rw e at m)) [
      | inl k ↦ omega (arith, h.below j k)
      | inr q ↦ let q' = ap (λ (x : ScheduledJob). x.id) q in omega arith
    ];
    unique = λ id. rw e (omega (arith, times-append id t.jobs (row ∷ []), h.unique id, alone id));
    evolved = rw e (next h.evolved (Turn-append t.jobs row waits));
  }
    where
      alone : (id : ℕ) → times id t.jobs + times id (row ∷ []) ≤ 1
      alone id = elim (Bool-cases (row.id == id)) [
        | inl hit ↦ ground (arith, times-fresh id t.jobs λ j m. let d = h.below j m in ground arith)
        | inr miss ↦ ground (arith, h.unique id)
      ]

pub Lives-draw : (b : List Card) (n : ℕ) (t : Tables) → Lives b n t → Lives b (suc n) t
Lives-draw b n t h = record {
  below = λ j m. omega (arith, h.below j m);
  unique = h.unique;
  evolved = h.evolved;
}
