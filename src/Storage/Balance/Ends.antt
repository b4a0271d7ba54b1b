-- ===== src/Storage/Balance/Ends.antt =====
-- ReBalance comes to an end: it returns if the server does its part, and it opens and closes no
-- transaction of its own.
use hermeshooks.Prelude.{ℕ, List, [], ◌∷◌, ◌==◌}
use hermeshooks.Prelude.Int.{pos, pos_part, ltb_ℤ}
use hermeshooks.Storage.Sql.{Server}
use hermeshooks.Storage.Sql.Returns.{
  Live, Returns, Returns-pure, Returns-bind, Returns-if, Returns-read, Returns-write,
}
use hermeshooks.Storage.Balance.{
  Group, MapRange, new_group, is_short, share, update_jobs_partitions, assign_jobs_to_partition,
  removes_jobs_from_partition, notify, select_groups, drop_surplus, shed_one, shed, deal,
  notify_all, settle, spread, unless_empty, re_balance,
}

module _ (srv : Server) (live : Live srv) where
  assign-Returns : (p n : ℕ) → Returns (assign_jobs_to_partition srv p n)
  unfolding assign_jobs_to_partition
  assign-Returns p n = Returns-write srv live _

  shed_one-Returns :
      (active : List ℕ) (per_bucket : ℕ) (g : Group) → Returns (shed_one srv active per_bucket g)
  unfolding shed_one drop_surplus removes_jobs_from_partition
  shed_one-Returns active per_bucket g = Returns-if (g.partition == 0) _ _ (Returns-pure _) (
      Returns-bind _ _
        (Returns-if (ltb_ℤ (share active per_bucket g) (pos 0)) _ _ (Returns-write srv live _)
          (Returns-pure _))
        λ _. Returns-pure _)

  shed-Returns :
      (active : List ℕ) (per_bucket : ℕ) (gs : List Group) → Returns (shed srv active per_bucket gs)
  unfolding shed
  shed-Returns active per_bucket [] = Returns-pure _
  shed-Returns active per_bucket (g ∷ gs) =
      Returns-bind _ _ (shed_one-Returns active per_bucket g)
        λ _. Returns-bind _ _ (shed-Returns active per_bucket gs) λ _. Returns-pure _

  deal-Returns :
      (active : List ℕ) (gs : List Group) (last : Group) → Returns (deal srv active gs last)
  unfolding deal
  deal-Returns active [] last = Returns-pure _
  deal-Returns active (g ∷ gs) last =
      Returns-if (is_short active g) _ _
        (Returns-bind _ _ (assign-Returns g.partition (pos_part g.to_add))
          (λ _. deal-Returns active gs g))
        (deal-Returns active gs last)

  notify_all-Returns : (vs : List ℕ) → Returns (notify_all srv vs)
  unfolding notify_all notify
  notify_all-Returns [] = Returns-pure _
  notify_all-Returns (v ∷ vs) =
      Returns-bind _ _ (Returns-write srv live _) (λ _. notify_all-Returns vs)

  module _ (range : MapRange) where
    settle-Returns :
        (active : List ℕ) (per_bucket : ℕ) (m : List Group)
        → Returns (settle srv range active per_bucket m)
    unfolding settle
    settle-Returns active per_bucket m =
        Returns-bind _ _ (shed-Returns active per_bucket (range.order 0 m)) λ m'.
          Returns-bind _ _ (deal-Returns active (range.order 1 m') (new_group 0)) λ last.
            Returns-bind _ _ (assign-Returns last.partition 0) λ _. notify_all-Returns active

    unless_empty-Returns : (active : List ℕ) → Returns (unless_empty srv range active)
    unfolding unless_empty spread select_groups
    unless_empty-Returns [] = Returns-pure _
    unless_empty-Returns (a ∷ rest) =
        Returns-bind _ _ (Returns-read srv live _) λ grps. settle-Returns (a ∷ rest) _ _

    pub re_balance-Returns : (active : List ℕ) → Returns (re_balance srv range active)
    unfolding re_balance update_jobs_partitions
    re_balance-Returns active =
        Returns-bind _ _ (Returns-write srv live _) λ _. unless_empty-Returns active
