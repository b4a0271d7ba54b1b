-- ===== src/Storage/Balance/Even/Counted.antt =====
-- The map of groups that ReBalance starts from: one group for each partition, with the number of its rows.
use mathlib.Core.List.Memᴰ
use hermeshooks.Prelude.{
  ℕ, ◌+◌, ◌≤◌, ◌≡◌, refl, ap, ◌∙◌, true, false, inl, inr, Bool-cases, List, [], ◌∷◌, ◌++◌, map,
  Memᴰ, Permᴰ, arith, ◌==◌, ==_iff, if◌then◌else◌, contains, select_where,
}
use hermeshooks.Storage.Models.{ScheduledJob}
use hermeshooks.Storage.Balance.Groups.{count_in, count_of, count_of-count_groups, mem-add_missing}
use hermeshooks.Storage.Balance.Even.Apart.{groups_at, groups_at-mem, with_share}
use hermeshooks.Storage.Balance.{Group, new_group, bump_group, count_groups, has_group, add_missing}

groups_at-bump :
    (p r : ℕ) (gs : List Group)
    → groups_at p (bump_group r gs)
      ≡ (if r == p then (if groups_at p gs == 0 then 1 else groups_at p gs) else groups_at p gs)
unfolding bump_group select_where
groups_at-bump p r [] = ground arith
groups_at-bump p r (g ∷ gs) = ground (arith, groups_at-bump p r gs)

pub groups_at-count_groups :
    (p : ℕ) (rows : List ScheduledJob) → groups_at p (count_groups rows) ≤ 1
unfolding count_groups
groups_at-count_groups p [] = unfold select_where in omega arith
groups_at-count_groups p (j ∷ js) =
    ground (arith, groups_at-bump p j.partition (count_groups js), groups_at-count_groups p js)

count_of-mem :
    (g : Group) (gs : List Group)
    → Memᴰ g gs
    → groups_at g.partition gs ≤ 1
    → count_of g.partition gs ≡ g.count
unfolding count_of select_where
count_of-mem g [] m one = elim m [ ]
count_of-mem g (x ∷ gs) (Memᴰ.head e) one =
    let a = ap (λ (y : Group). y.partition) e in
    let b = ap (λ (y : Group). y.count) e in ground arith
count_of-mem g (x ∷ gs) (Memᴰ.tail m) one =
    ground (arith, groups_at-mem g gs m, count_of-mem g gs m)

count_of-snoc : (p a : ℕ) (m : List Group) → count_of p (m ++ new_group a ∷ []) ≡ count_of p m
unfolding count_of
count_of-snoc p a [] = ground arith
count_of-snoc p a (g ∷ gs) = ground (arith, count_of-snoc p a gs)

groups_at-snoc :
    (p a : ℕ) (m : List Group)
    → groups_at p (m ++ new_group a ∷ []) ≡ groups_at p m + (if a == p then 1 else 0)
unfolding select_where
groups_at-snoc p a [] = ground arith
groups_at-snoc p a (g ∷ gs) = ground (arith, groups_at-snoc p a gs)

groups_at-absent : (p : ℕ) (m : List Group) → has_group p m ≡ false → groups_at p m ≡ 0
unfolding has_group select_where
groups_at-absent p [] h = refl
groups_at-absent p (g ∷ gs) h = ground (arith, groups_at-absent p gs)

has_group-mem :
    (p : ℕ) (m : List Group) → has_group p m ≡ true → (g : Group) × Memᴰ g m × (g.partition ≡ p)
unfolding has_group
has_group-mem p [] h = absurd (cc)
has_group-mem p (g ∷ gs) h = elim (Bool-cases (g.partition == p)) [
  | inl e ↦ (g, Memᴰ.head refl, (==_iff g.partition p).0 e)
  | inr e ↦ let (x, m, at) = has_group-mem p gs (ground arith) in (x, Memᴰ.tail m, at)
]

count_of-add_missing :
    (p : ℕ) (active : List ℕ) (m : List Group) → count_of p (add_missing active m) ≡ count_of p m
unfolding add_missing
count_of-add_missing p [] m = refl
count_of-add_missing p (a ∷ rest) m = elim (Bool-cases (has_group a m)) [
  | inl e ↦ rw e (count_of-add_missing p rest m)
  | inr e ↦ rw e (count_of-add_missing p rest (m ++ new_group a ∷ []) ∙ count_of-snoc p a m)
]

pub groups_at-add_missing :
    (p : ℕ) (active : List ℕ) (m : List Group)
    → groups_at p m ≤ 1
    → groups_at p (add_missing active m) ≤ 1
unfolding add_missing
groups_at-add_missing p [] m h = h
groups_at-add_missing p (a ∷ rest) m h = elim (Bool-cases (has_group a m)) [
  | inl e ↦ rw e (groups_at-add_missing p rest m h)
  | inr e ↦ rw e (
      groups_at-add_missing p rest (m ++ new_group a ∷ [])
        (ground (arith, groups_at-snoc p a m, groups_at-absent a m e)))
]

-- Every active partition has a group.
pub add_missing-present :
    (p : ℕ) (active : List ℕ) (m : List Group)
    → contains active p ≡ true
    → (g : Group) × Memᴰ g (add_missing active m) × (g.partition ≡ p)
unfolding add_missing contains
add_missing-present p [] m c = absurd (cc)
add_missing-present p (a ∷ rest) m c = elim (Bool-cases (has_group a m)) [
  | inl e ↦ elim (Bool-cases (a == p)) [
    | inl hit ↦
        let (g, k, at) = has_group-mem a m e in
        rw e (g, mem-add_missing rest m k, at ∙ (==_iff a p).0 hit)
    | inr miss ↦ rw e (add_missing-present p rest m (ground arith))
  ]
  | inr e ↦ elim (Bool-cases (a == p)) [
    | inl hit ↦
        let k : Memᴰ (new_group a) (m ++ new_group a ∷ []) = Memᴰ.append_right m (Memᴰ.head refl) in
        rw e (new_group a, mem-add_missing rest (m ++ new_group a ∷ []) k, (==_iff a p).0 hit)
    | inr miss ↦ rw e (add_missing-present p rest (m ++ new_group a ∷ []) (ground arith))
  ]
]

-- A group of the map counts the rows of its partition.
pub counted-rows :
    (active : List ℕ) (rows : List ScheduledJob) (g : Group)
    → Memᴰ g (add_missing active (count_groups rows))
    → g.count ≡ count_in g.partition rows
counted-rows active rows g m =
    let m0 = count_groups rows in
    let once =
      groups_at-add_missing g.partition active m0 (groups_at-count_groups g.partition rows) in
    omega (
      arith,
      count_of-mem g (add_missing active m0) m once,
      count_of-add_missing g.partition active m0,
      count_of-count_groups g.partition rows,
    )

pub groups_at-perm : (p : ℕ) {xs ys : List Group} → Permᴰ xs ys → groups_at p xs ≡ groups_at p ys
unfolding select_where
groups_at-perm p Permᴰ.nil = refl
groups_at-perm p (Permᴰ.cons e q) =
    ground (arith, groups_at-perm p q, ap (λ (g : Group). g.partition) e)
groups_at-perm p (Permᴰ.swap e f) =
    ground (arith, ap (λ (g : Group). g.partition) e, ap (λ (g : Group). g.partition) f)
groups_at-perm p (Permᴰ.trans q r) = groups_at-perm p q ∙ groups_at-perm p r

pub groups_at-map :
    (p q : ℕ) (active : List ℕ) (gs : List Group)
    → groups_at p (map (with_share active q) gs) ≡ groups_at p gs
unfolding select_where
groups_at-map p q active [] = refl
groups_at-map p q active (g ∷ gs) = ground (arith, groups_at-map p q active gs)

pub mem-with_share :
    (q : ℕ) (active : List ℕ) (gs : List Group) {g : Group}
    → Memᴰ g (map (with_share active q) gs)
    → (x : Group) × Memᴰ x gs × (g ≡ with_share active q x)
mem-with_share q active [] m = elim m [ ]
mem-with_share q active (x ∷ gs) (Memᴰ.head e) = (x, Memᴰ.head refl, e)
mem-with_share q active (x ∷ gs) (Memᴰ.tail m) =
    let (y, k, e) = mem-with_share q active gs m in (y, Memᴰ.tail k, e)
