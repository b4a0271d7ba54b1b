-- ===== src/Life/Stays.antt =====
-- What the machine of cards never does, and so what no history does.
use mathlib.Core.List.Memᴰ
use hermeshooks.Prelude.{◌≡◌, refl, ap, sym, ◌∙◌, List, [], ◌∷◌, Memᴰ, inl, inr}
use hermeshooks.Storage.Models.{ScheduledJob}
use hermeshooks.Storage.Sql.{World}
use hermeshooks.Storage.Ids.{IsOrderly}
use hermeshooks.Life.{
  Phase, finished, Card, Move, stays, is_claimed, is_given_back, finishes, Turn, over, opens, moves,
  Evolves, here, next, phase_of, card_of, board,
}
use hermeshooks.Life.Refines.{Op, history, history_refines}

-- `d` is the card of the same job as `c`, and finished if `c` is.
pub record Follows (c d : Card) : Type 0 where
  pub same_id : d.id ≡ c.id
  pub same_uid : d.uid ≡ c.uid
  pub same_owner : d.owner ≡ c.owner
  pub stays_finished : c.phase ≡ finished → d.phase ≡ finished

Move-finished : {p q : Phase} → Move p q → p ≡ finished → q ≡ finished
Move-finished (stays p) e = e
Move-finished is_claimed e = absurd (cc)
Move-finished is_given_back e = absurd (cc)
Move-finished (finishes p) e = refl

Turn-Follows :
    {b b' : List Card} → Turn b b' → {c : Card} → Memᴰ c b → (d : Card) × Memᴰ d b' × Follows c d
Turn-Follows over m = elim m [ ]
Turn-Follows (opens x e) m = elim m [ ]
Turn-Follows (moves x p mv t) {c} m = elim (Memᴰ.cases_cons m) [
  | inl e ↦ (
    record x { phase = p },
    Memᴰ.head refl,
    record {
      same_id = ap (λ (y : Card). y.id) (sym e);
      same_uid = ap (λ (y : Card). y.uid) (sym e);
      same_owner = ap (λ (y : Card). y.owner) (sym e);
      stays_finished = λ f. Move-finished mv (ap (λ (y : Card). y.phase) (sym e) ∙ f);
    },
  )
  | inr k ↦ let (d, l, f) = Turn-Follows t {c = c} k in (d, Memᴰ.tail l, f)
]

Evolves-Follows :
    {b b' : List Card} → Evolves b b' → {c : Card} → Memᴰ c b → (d : Card) × Memᴰ d b' × Follows c d
Evolves-Follows here {c} m =
    (c, m, record { same_id = refl; same_uid = refl; same_owner = refl; stays_finished = λ e. e })
Evolves-Follows (next r t) {c} m =
    let (d, l, f) = Evolves-Follows r {c = c} m in
    let (e, k, g) = Turn-Follows t {c = d} l in
    (
      e,
      k,
      record {
        same_id = g.same_id ∙ f.same_id;
        same_uid = g.same_uid ∙ f.same_uid;
        same_owner = g.same_owner ∙ f.same_owner;
        stays_finished = λ h. g.stays_finished (f.stays_finished h);
      },
    )

mem-board :
    (rows : List ScheduledJob) {j : ScheduledJob} → Memᴰ j rows → Memᴰ (card_of j) (board rows)
unfolding board
mem-board [] m = elim m [ ]
mem-board (x ∷ xs) (Memᴰ.head e) = Memᴰ.head (ap card_of e)
mem-board (x ∷ xs) (Memᴰ.tail m) = Memᴰ.tail (mem-board xs m)

mem-of_board :
    (rows : List ScheduledJob) {c : Card}
    → Memᴰ c (board rows)
    → (j : ScheduledJob) × Memᴰ j rows × (c ≡ card_of j)
unfolding board
mem-of_board [] m = elim m [ ]
mem-of_board (x ∷ xs) (Memᴰ.head e) = (x, Memᴰ.head refl, e)
mem-of_board (x ∷ xs) (Memᴰ.tail m) = let (j, k, e) = mem-of_board xs m in (j, Memᴰ.tail k, e)

-- From a database in which no transaction is open and the ids of jobs are unique and below their sequence,
-- no history of schedules, selections, saves and rebalances loses a job: there is still one with its id,
-- its uid and its user, and that is a success or a failure if the job was one or the other.
pub finished_stays :
    (os : List Op) (w : World) (j : ScheduledJob)
    → IsOrderly w
    → Memᴰ j w.tables.jobs
    → (k : ScheduledJob) × Memᴰ k (history os w).tables.jobs
      × (k.id ≡ j.id)
      × (k.uid ≡ j.uid)
      × (k.user_id ≡ j.user_id)
      × (phase_of j.status ≡ finished → phase_of k.status ≡ finished)
finished_stays os w j o m =
    let (d, l, f) =
      Evolves-Follows (history_refines os w o).0 {c = card_of j} (mem-board w.tables.jobs m) in
    let (k, found, e) = mem-of_board (history os w).tables.jobs {c = d} l in
    (
      k,
      found,
      ap (λ (c : Card). c.id) (sym e) ∙ f.same_id,
      ap (λ (c : Card). c.uid) (sym e) ∙ f.same_uid,
      ap (λ (c : Card). c.owner) (sym e) ∙ f.same_owner,
      λ h. ap (λ (c : Card). c.phase) (sym e) ∙ f.stays_finished h,
    )
