-- ===== src/Storage/Balance/Even/Apart.antt =====
-- Groups of distinct partitions, and their shares.
use hermeshooks.Prelude.{
  ℕ, ◌≤◌, ◌<◌, ◌≡◌, ap, false, ◌⊎◌, inl, inr, Bool-cases, List, [], ◌∷◌, Memᴰ, arith, ◌==◌, ==_iff,
  if◌then◌else◌, length, select_where,
}
use hermeshooks.Storage.Balance.{Group, share}

-- The number of groups of a partition.
abbrev pub groups_at : ℕ → List Group → ℕ
groups_at p gs = length (select_where (λ g. g.partition == p) gs)

pub groups_at-mem : (g : Group) (gs : List Group) → Memᴰ g gs → 0 < groups_at g.partition gs
unfolding select_where
groups_at-mem g [] m = elim m [ ]
groups_at-mem g (x ∷ gs) (Memᴰ.head e) = ground (arith, ap (λ (y : Group). y.partition) e)
groups_at-mem g (x ∷ gs) (Memᴰ.tail m) = ground (arith, groups_at-mem g gs m)

-- Another group of the list is of another partition.
pub groups_at-apart :
    (g x : Group) (gs : List Group)
    → groups_at g.partition (g ∷ gs) ≤ 1
    → Memᴰ x gs
    → (g.partition == x.partition) ≡ false
unfolding select_where
groups_at-apart g x gs one m = elim (Bool-cases (g.partition == x.partition)) [
  | inl e ↦
      let same : g.partition ≡ x.partition = (==_iff g.partition x.partition).0 e in
      let some_group : 0 < groups_at g.partition gs = rw same (groups_at-mem x gs m) in
      absurd (ground arith)
  | inr e ↦ e
]

pub fewer-groups : (p : ℕ) (g : Group) (gs : List Group) → groups_at p gs ≤ groups_at p (g ∷ gs)
unfolding select_where
fewer-groups p g gs = ground arith

-- A partition that waits for its group still does when the group of another has had its turn.
pub still-pending :
    (P : Type 0) (g : Group) (gs : List Group) (p : ℕ)
    → (g.partition == p) ≡ false
    → P ⊎ ((x : Group) × Memᴰ x (g ∷ gs) × (x.partition ≡ p))
    → P ⊎ ((x : Group) × Memᴰ x gs × (x.partition ≡ p))
still-pending P g gs p other (inl h) = inl h
still-pending P g gs p other (inr (x, Memᴰ.head e, at)) =
    let same = ap (λ (y : Group). y.partition) e in absurd (ground arith)
still-pending P g gs p other (inr (x, Memᴰ.tail m, at)) = inr (x, m, at)

-- What the loop makes of a group.
abbrev pub with_share : List ℕ → ℕ → Group → Group
with_share active q g = if g.partition == 0 then g else record g { to_add = share active q g }
