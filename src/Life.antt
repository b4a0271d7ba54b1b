-- ===== src/Life.antt =====
-- The life of a job, as the users of the system know it: an abstract machine over cards, one for each job,
-- that the operations on the table of jobs refine. A card is what a user knows a job by, and its phase.
pub mod Updates
pub mod Operations
pub mod Refines
pub mod Stays
use hermeshooks.Prelude.{ℕ, String, ◌≡◌, Bool, ◌||◌, List, [], ◌∷◌, ◌==◌, if◌then◌else◌}
use hermeshooks.Entities.{ScheduledJobStatus, scheduled, pending, success, fail}
use hermeshooks.Storage.Models.{ScheduledJob}

pub data Phase : Type 0 where
  waiting claimed finished unknown : Phase

pub record Card : Type 0 where
  pub id : ℕ
  pub uid : String
  pub owner : ℕ
  pub phase : Phase

-- A card's phase in a turn of the machine: a waiting job is claimed, a claimed one is given back, and one
-- that is carried out finishes.
pub data Move : Phase → Phase → Type 0 where
  stays : (p : Phase) → Move p p
  is_claimed : Move waiting claimed
  is_given_back : Move claimed waiting
  finishes : (p : Phase) → Move p finished

-- A turn: every card makes a move, and at most one job is new, and waits.
pub data Turn : List Card → List Card → Type 0 where
  over : Turn [] []
  opens : (c : Card) → c.phase ≡ waiting → Turn [] (c ∷ [])
  moves :
      {cs cs' : List Card} (c : Card) (p : Phase)
      → Move c.phase p
      → Turn cs cs'
      → Turn (c ∷ cs) (record c { phase = p } ∷ cs')

pub data Evolves (b : List Card) : List Card → Type 0 where
  here : Evolves b b
  next : {b' b'' : List Card} → Evolves b b' → Turn b' b'' → Evolves b b''

abbrev pub phase_of : ScheduledJobStatus → Phase
phase_of s =
    if s == scheduled
    then waiting
    else if s == pending
    then claimed
    else if s == success || s == fail
    then finished
    else unknown

abbrev pub card_of : ScheduledJob → Card
card_of j = record { id = j.id; uid = j.uid; owner = j.user_id; phase = phase_of j.status }

pub board : List ScheduledJob → List Card
board [] = []
board (j ∷ js) = card_of j ∷ board js
