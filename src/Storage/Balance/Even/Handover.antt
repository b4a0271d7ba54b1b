-- ===== src/Storage/Balance/Even/Handover.antt =====
-- What ReBalance counts is what its first loop needs, and what that leaves is what the second needs.
use mathlib.Core.List.Memᴰ
use mathlib.Core.List.Permᴰ
use hermeshooks.Prelude.{
  ℕ, ◌-◌, ◌*◌, ◌≤◌, ◌≡◌, refl, ap, sym, ◌∙◌, true, false, inl, inr, Bool-cases, List, [], ◌∷◌, map,
  Memᴰ, Permᴰ, arith, ◌==◌, ==_iff, length, contains, select_where, mem-perm,
}
use hermeshooks.Prelude.Int.{pos_part}
use hermeshooks.Storage.Models.{ScheduledJob}
use hermeshooks.Storage.Sql.{Server}
use hermeshooks.Storage.Sql.Keeps.{Keeps, Keeps-bind, Keeps-write, keeps_rules}
use hermeshooks.Storage.Balance.Groups.{count_in}
use hermeshooks.Storage.Balance.Even.Moves.{IsUnique}
use hermeshooks.Storage.Balance.Even.Sums.{IsDistinct, count_over-length, active-nonzero}
use hermeshooks.Storage.Balance.Even.Apart.{with_share}
use hermeshooks.Storage.Balance.Even.Shed.{Shedding}
use hermeshooks.Storage.Balance.Even.Deal.{Dealing}
use hermeshooks.Storage.Balance.Even.Counted.{
  groups_at-count_groups, groups_at-add_missing, groups_at-perm, groups_at-map, counted-rows,
  add_missing-present, mem-with_share,
}
use hermeshooks.Storage.Balance.{
  Group, MapRange, count_groups, add_missing, share, notify, notify_all,
}

-- No row is outside the partitions given.
stray_lem :
    (ps : List ℕ) (rows : List ScheduledJob)
    → ((j : ScheduledJob) → Memᴰ j rows → contains ps j.partition ≡ true)
    → (p : ℕ) → contains ps p ≡ false
    → count_in p rows ≡ 0
unfolding select_where
stray_lem ps [] h p c = refl
stray_lem ps (j ∷ js) h p c = elim (Bool-cases (j.partition == p)) [
  | inl hit ↦
      let there : contains ps p ≡ true =
        rw (← (==_iff j.partition p).0 hit) (h j (Memᴰ.head refl)) in
      absurd (cc)
  | inr miss ↦ rw miss (stray_lem ps js (λ x m. h x (Memᴰ.tail m)) p c)
]

module _ (srv : Server) (active : List ℕ) (d : IsDistinct active) where
  pub notify_all-same :
      (rows : List ScheduledJob) (vs : List ℕ) → Keeps (λ t. t.jobs ≡ rows) (notify_all srv vs)
  unfolding notify_all notify
  notify_all-same rows [] = search keeps_rules
  notify_all-same rows (v ∷ vs) =
      Keeps-bind _ _ (Keeps-write srv _ λ k t h. h) (λ _. notify_all-same rows vs)

  -- The rows when ReBalance counts them, and the map of groups.
  pub Counted-Shedding :
      (q : ℕ) (rows : List ScheduledJob) (range : MapRange)
      → IsUnique rows
      → ((j : ScheduledJob) → Memᴰ j rows → contains (0 ∷ active) j.partition ≡ true)
      → Shedding srv active d q
          (length rows)
          (range.order 0 (add_missing active (count_groups rows)))
          rows
  Counted-Shedding q rows range unique placed =
      let m = add_missing active (count_groups rows) in
      let back = range.order-Permᴰ 0 m in
      record {
        unique = unique;
        whole = count_over-length active d rows placed;
        stray = stray_lem (0 ∷ active) rows placed;
        counted = λ g k n. counted-rows active rows g (mem-perm back k);
        apart = λ p. omega (
          arith,
          groups_at-perm p back,
          groups_at-add_missing p active (count_groups rows) (groups_at-count_groups p rows),
        );
        pending = λ p c.
            let (g, k, at) = add_missing-present p active (count_groups rows) c in
            inr (g, mem-perm (Permᴰ.symm back) k, at);
      }

  pub share-due :
      (q : ℕ) (x : Group)
      → contains active x.partition ≡ true
      → pos_part (with_share active q x).to_add ≡ q - x.count
  unfolding share
  share-due q x c = let n = active-nonzero active d x.partition c in ground arith

  pub with_share-partition : (q : ℕ) (x : Group) → (with_share active q x).partition ≡ x.partition
  with_share-partition q x = ground arith

  -- What the first loop leaves for the second.
  pub Shed-Dealing :
      (q total : ℕ) (enough : length active * q ≤ total) (gs ordered : List Group)
      (rows rows' : List ScheduledJob)
      → Permᴰ ordered (map (with_share active q) gs)
      → Shedding srv active d q total gs rows
      → ((p : ℕ) → contains active p ≡ true → (g : Group) × Memᴰ g gs × (g.partition ≡ p))
      → Shedding srv active d q total [] rows'
      → ((p : ℕ) → contains active p ≡ true → q - count_in p rows' ≡ q - count_in p rows)
      → Dealing srv active d q total enough ordered rows'
  Shed-Dealing q total enough gs ordered rows rows' perm before present after lack = record {
    unique = after.unique;
    whole = after.whole;
    capped = λ p c. elim (after.pending p c) [ inl h ↦ h | inr (g, m, at) ↦ elim m [ ] ];
    due = λ g m c.
        let (x, k, e) = mem-with_share q active gs {g = g} (mem-perm perm m) in
        let same : g.partition ≡ x.partition =
          ap (λ (y : Group). y.partition) e ∙ with_share-partition q x in
        let c' : contains active x.partition ≡ true = rw (← same) c in
        let counted = before.counted x k (active-nonzero active d x.partition c') in
        rw same (
          ap (λ (y : Group). pos_part y.to_add) e
          ∙ share-due q x c'
          ∙ ap (λ (n : ℕ). q - n) counted
          ∙ sym (lack x.partition c'));
    apart = λ p. omega (arith, groups_at-perm p perm, groups_at-map p q active gs, before.apart p);
    pending = λ p c.
        let (x, k, at) = present p c in
        inr (
          with_share active q x,
          mem-perm (Permᴰ.symm perm) (Memᴰ.map (with_share active q) k),
          with_share-partition q x ∙ at,
        );
  }
