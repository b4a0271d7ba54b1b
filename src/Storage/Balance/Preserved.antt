-- ===== src/Storage/Balance/Preserved.antt =====
-- What ReBalance preserves, by what its statements do.
use hermeshooks.Prelude.{ℕ, List, [], ◌∷◌}
use hermeshooks.Prelude.Int.{pos_part}
use hermeshooks.Storage.Sql.{Server, Tables}
use hermeshooks.Storage.Sql.Holds.{
  Preserves, Preserves-pure, Preserves-bind, Preserves-read, Preserves-if, holds_rules,
}
use hermeshooks.Storage.Balance.{
  Group, MapRange, update_jobs_partitions, assign_jobs_to_partition, removes_jobs_from_partition,
  notify, select_groups, drop_surplus, shed_one, shed, deal, is_short, notify_all, settle, spread,
  unless_empty, re_balance,
}

module _ (srv : Server) (P : ℕ → Tables → Type 0)
    (updates : (active : List ℕ) (target : ℕ)
      → Preserves P (update_jobs_partitions srv active target))
    (assigns : (target n : ℕ) → Preserves P (assign_jobs_to_partition srv target n))
    (removes : (current n : ℕ) → Preserves P (removes_jobs_from_partition srv current n))
    (notifies : (p : ℕ) → Preserves P (notify srv p)) where
  shed_one-Preserves :
      (active : List ℕ) (per_bucket : ℕ) (g : Group)
      → Preserves P (shed_one srv active per_bucket g)
  unfolding shed_one drop_surplus
  shed_one-Preserves active per_bucket g = search (holds_rules, removes)

  shed-Preserves :
      (active : List ℕ) (per_bucket : ℕ) (gs : List Group)
      → Preserves P (shed srv active per_bucket gs)
  unfolding shed
  shed-Preserves active per_bucket [] = search holds_rules
  shed-Preserves active per_bucket (g ∷ gs) =
      Preserves-bind _ _ (shed_one-Preserves active per_bucket g)
        λ _. Preserves-bind _ _ (shed-Preserves active per_bucket gs) λ _. Preserves-pure _

  deal-Preserves :
      (active : List ℕ) (gs : List Group) (last : Group) → Preserves P (deal srv active gs last)
  unfolding deal
  deal-Preserves active [] last = search holds_rules
  deal-Preserves active (g ∷ gs) last =
      Preserves-if (is_short active g) _ _
        (Preserves-bind _ _ (assigns g.partition (pos_part g.to_add))
          λ _. deal-Preserves active gs g)
        (deal-Preserves active gs last)

  notify_all-Preserves : (vs : List ℕ) → Preserves P (notify_all srv vs)
  unfolding notify_all
  notify_all-Preserves [] = search holds_rules
  notify_all-Preserves (v ∷ vs) = Preserves-bind _ _ (notifies v) (λ _. notify_all-Preserves vs)

  select_groups-Preserves : Preserves P (select_groups srv)
  unfolding select_groups
  select_groups-Preserves = Preserves-read srv _

  module _ (range : MapRange) where
    settle-Preserves :
        (active : List ℕ) (per_bucket : ℕ) (m : List Group)
        → Preserves P (settle srv range active per_bucket m)
    unfolding settle
    settle-Preserves active per_bucket m =
        search (holds_rules, shed-Preserves, deal-Preserves, assigns, notify_all-Preserves) depth 9

    spread-Preserves : (active : List ℕ) → Preserves P (spread srv range active)
    unfolding spread
    spread-Preserves active = search (holds_rules, select_groups-Preserves, settle-Preserves)

    unless_empty-Preserves : (active : List ℕ) → Preserves P (unless_empty srv range active)
    unfolding unless_empty
    unless_empty-Preserves [] = search holds_rules
    unless_empty-Preserves (a ∷ rest) = spread-Preserves (a ∷ rest)

    -- ReBalance preserves what its statements preserve.
    pub re_balance-Preserves : (active : List ℕ) → Preserves P (re_balance srv range active)
    unfolding re_balance
    re_balance-Preserves active = search (holds_rules, updates, unless_empty-Preserves)
