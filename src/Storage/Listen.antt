-- ===== src/Storage/Listen.antt =====
-- Listen of internal/storage/db.go: the notifications of the channel "jobs:rebalance", as the driver hands
-- them over, put a token for a worker's monitor into a channel of capacity one. `decode` is what
-- json.Unmarshal makes of a payload: its "partition", which is 0 if there is none; or an error.
use hermeshooks.Prelude.{
  ℕ, String, Bool, true, false, Option, none, some, List, [], ◌∷◌, ◌==◌, if◌then◌else◌,
}

-- `token`: outc holds a token. `failed`: Listen has returned the error of a payload.
pub record Heard : Type 0 where
  pub token : Bool
  pub failed : Bool

module _ (decode : String → Option ℕ) (p : ℕ) where
  unfoldable pub listen : List String → Bool → Heard
  listen [] token = record { token = token; failed = false }
  listen (payload ∷ rest) token = elim (decode payload) [
    | none ↦ record { token = token; failed = true }
    | some q ↦ listen rest (if q == p then true else token)
  ]
