-- ===== src/Storage/Balance/Groups.antt =====
-- The groups that ReBalance counts, against the rows of each partition.
use mathlib.Core.List.Memᴰ
use hermeshooks.Prelude.{
  ℕ, suc, ◌≡◌, refl, ap, ◌∙◌, inl, inr, Bool-cases, List, [], ◌∷◌, ◌++◌, Memᴰ, Permᴰ, arith, length,
  select_where, if◌then◌else◌, ◌==◌,
}
use hermeshooks.Storage.Models.{ScheduledJob}
use hermeshooks.Storage.Balance.{
  Group, new_group, bump_group, count_groups, total_count, has_group, add_missing,
}

-- The number of rows of a partition.
abbrev pub count_in : ℕ → List ScheduledJob → ℕ
count_in p rows = length (select_where (λ j. j.partition == p) rows)

module _ (p : ℕ) where
  pub count_in-perm : {xs ys : List ScheduledJob} → Permᴰ xs ys → count_in p xs ≡ count_in p ys
  unfolding select_where
  count_in-perm Permᴰ.nil = refl
  count_in-perm (Permᴰ.cons e q) =
      ground (arith, count_in-perm q, ap (λ (j : ScheduledJob). j.partition) e)
  count_in-perm (Permᴰ.swap e f) =
      ground
        (arith, ap (λ (j : ScheduledJob). j.partition) e, ap (λ (j : ScheduledJob). j.partition) f)
  count_in-perm (Permᴰ.trans q r) = count_in-perm q ∙ count_in-perm r

-- The sum of the counts is the number of rows, and a partition's group has its number of rows.
total-bump : (p : ℕ) (gs : List Group) → total_count (bump_group p gs) ≡ suc (total_count gs)
unfolding total_count bump_group
total-bump p [] = refl
total-bump p (g ∷ gs) = ground (arith, total-bump p gs)

pub total-count_groups : (rows : List ScheduledJob) → total_count (count_groups rows) ≡ length rows
unfolding count_groups total_count
total-count_groups [] = refl
total-count_groups (j ∷ js) =
    total-bump j.partition (count_groups js) ∙ ap suc (total-count_groups js)

unfoldable pub count_of : ℕ → List Group → ℕ
count_of p [] = 0
count_of p (g ∷ gs) = if g.partition == p then g.count else count_of p gs

count_of-bump :
    (p q : ℕ) (gs : List Group)
    → count_of p (bump_group q gs) ≡ (if q == p then suc (count_of p gs) else count_of p gs)
unfolding count_of bump_group
count_of-bump p q [] = ground arith
count_of-bump p q (g ∷ gs) = ground (arith, count_of-bump p q gs)

pub count_of-count_groups :
    (p : ℕ) (rows : List ScheduledJob) → count_of p (count_groups rows) ≡ count_in p rows
unfolding count_groups count_of select_where
count_of-count_groups p [] = refl
count_of-count_groups p (j ∷ js) =
    ground (arith, count_of-bump p j.partition (count_groups js), count_of-count_groups p js)

-- A partition that holds a row has a group, with the number of its rows.
pub group_of :
    (p n : ℕ) (gs : List Group)
    → count_of p gs ≡ suc n
    → (g : Group) × Memᴰ g gs × (g.partition ≡ p) × (g.count ≡ suc n)
unfolding count_of
group_of p n [] e = absurd (omega arith)
group_of p n (g ∷ gs) e = elim (Bool-cases (g.partition == p)) [
  | inl hit ↦ (g, Memᴰ.head refl, ground arith, ground arith)
  | inr miss ↦ let (h, m, a, b) = group_of p n gs (ground arith) in (h, Memᴰ.tail m, a, b)
]

pub mem-add_missing :
    (active : List ℕ) (m : List Group) {g : Group} → Memᴰ g m → Memᴰ g (add_missing active m)
unfolding add_missing
mem-add_missing [] m k = k
mem-add_missing (a ∷ rest) m k = elim (Bool-cases (has_group a m)) [
  | inl e ↦ rw e (mem-add_missing rest m k)
  | inr e ↦
      rw e (mem-add_missing rest (m ++ new_group a ∷ []) (Memᴰ.append_left (new_group a ∷ []) k))
]
