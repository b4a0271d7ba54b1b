-- ===== src/Storage/Balance/Even/Dealt.antt =====
-- The two loops of ReBalance together, on a table of jobs that are all still to be run.
use mathlib.Core.List.Permᴰ
use mathlib.Core.Path.{subst}
use native.Mathlib.Nat.{mod-add-div, mod-eq-sub-mul-div}
use hermeshooks.Prelude.{
  ℕ, ◌+◌, ◌-◌, ◌*◌, ◌/◌, ◌%◌, ◌≤◌, ◌<◌, ◌≡◌, refl, ap, sym, ◌∙◌, true, inl, inr, Bool-cases, List,
  [], ◌∷◌, map, Memᴰ, Permᴰ, All, arith, ◌==◌, if◌then◌else◌, length, contains, select_where-All,
  mem-perm, All-of_mem,
}
use hermeshooks.Prelude.Int.{pos_part}
use hermeshooks.Storage.Models.{ScheduledJob}
use hermeshooks.Storage.Sql.{Server, World, ok, trip}
use hermeshooks.Storage.Sql.Invert.{bind-ok, read-ok}
use hermeshooks.Storage.Balance.Groups.{count_in, total-count_groups}
use hermeshooks.Storage.Balance.Targets.{deal-allowed, contains-zero}
use hermeshooks.Storage.Balance.Stranded.{NoneShort, deal-NoneShort}
use hermeshooks.Storage.Balance.Even.Moves.{IsUnique, assign-Shift}
use hermeshooks.Storage.Balance.Even.Sums.{IsDistinct, count_over-full, active-nonzero}
use hermeshooks.Storage.Balance.Even.Apart.{with_share}
use hermeshooks.Storage.Balance.Even.Shed.{Shedding, shed-Shedding}
use hermeshooks.Storage.Balance.Even.Deal.{Dealing, deal-Dealing}
use hermeshooks.Storage.Balance.Even.Counted.{add_missing-present, mem-with_share}
use hermeshooks.Storage.Balance.{
  Group, MapRange, new_group, is_live, count_groups, total_count, add_missing, select_groups, shed,
  deal, settle, spread, assign_jobs_to_partition,
}
use hermeshooks.Storage.Balance.Even.Handover.{
  notify_all-same, Counted-Shedding, share-due, with_share-partition, Shed-Dealing,
}

-- `l` has the jobs that are left over; every active partition has `q` besides.
abbrev pub Shared : List ℕ → ℕ → ℕ → List ScheduledJob → ℕ → Type 0
Shared active q left rows l =
    (p : ℕ)
    → contains (0 ∷ active) p ≡ true
    → count_in p rows ≡ (if p == 0 then 0 else q) + (if p == l then left else 0)

module _ (srv : Server) (active : List ℕ) (d : IsDistinct active) where
  dealt-Shared :
      (q total : ℕ) (enough : length active * q ≤ total) (l : ℕ) (rows rows' : List ScheduledJob)
      → Dealing srv active d q total enough [] rows
      → contains (0 ∷ active) l ≡ true
      → ((s : ℕ)
          → count_in s rows' + (if 0 == s then count_in 0 rows else 0)
            ≡ count_in s rows + (if l == s then count_in 0 rows else 0))
      → Shared active q (total - length active * q) rows' l
  dealt-Shared q total enough l rows rows' h allowed shift p c =
      let full : (a : ℕ) → contains active a ≡ true → count_in a rows ≡ q =
        λ a k. elim (h.pending a k) [ inl e ↦ e | inr (g, n, at) ↦ elim n [ ] ] in
      let rest : count_in 0 rows ≡ total - length active * q =
        omega (arith, h.whole, count_over-full q rows active full) in
      elim (Bool-cases (p == 0)) [
        | inl zero_part ↦ ground (arith, shift p)
        | inr nonzero ↦
            let served : contains active p ≡ true = unfold contains in ground arith in
            ground (arith, shift p, full p served)
      ]

  -- When no active partition has less than its share, none is short.
  NoneShort-of_full :
      (q total : ℕ) (rows : List ScheduledJob) (gs : List Group)
      → Shedding srv active d q total gs rows
      → ((a : ℕ) → contains active a ≡ true → q ≤ count_in a rows)
      → (ordered : List Group) → Permᴰ ordered (map (with_share active q) gs)
      → NoneShort srv active ordered
  NoneShort-of_full q total rows gs h full ordered perm = All-of_mem _ ordered λ g m.
      let (x, k, e) = mem-with_share q active gs {g = g} (mem-perm perm m) in
      elim (Bool-cases (contains active x.partition)) [
        | inl c ↦
            let counted = h.counted x k (active-nonzero active d x.partition c) in
            let nothing : pos_part (with_share active q x).to_add ≡ 0 =
              omega (arith, share-due srv active d q x c, full x.partition c) in
            rw e (ground arith)
        | inr c ↦ rw e (ground (arith, with_share-partition srv active d q x))
      ]

  settle-Shared :
      (range : MapRange) (q : ℕ) (w : World) {u : Unit {0}}
      → length active * q ≤ length w.tables.jobs
      → IsUnique w.tables.jobs
      → ((j : ScheduledJob) → Memᴰ j w.tables.jobs → contains (0 ∷ active) j.partition ≡ true)
      → (settle srv range active q (add_missing active (count_groups w.tables.jobs)) w).0 ≡ ok u
      → (l : ℕ) × (contains (0 ∷ active) l ≡ true)
        × Shared active q
            (length w.tables.jobs - length active * q)
            (settle srv range active q
              (add_missing active (count_groups w.tables.jobs))
              w).1.tables.jobs
            l
        × (((a : ℕ) → contains active a ≡ true → q ≤ count_in a w.tables.jobs) → l ≡ 0)
  unfolding settle
  settle-Shared range q w enough unique placed done =
      let m = add_missing active (count_groups w.tables.jobs) in
      let gs = range.order 0 m in
      let total = length w.tables.jobs in
      let before = Counted-Shedding srv active d q w.tables.jobs range unique placed in
      let s = bind-ok (shed srv active q gs) _ w done in
      let (mapped, after, lack) = shed-Shedding srv active d q total gs w before s.first in
      let r = bind-ok (deal srv active (range.order 1 s.value) (new_group 0)) _ _ s.then_ok in
      let w1 = (shed srv active q gs w).1 in
      let w2 = (deal srv active (range.order 1 s.value) (new_group 0) w1).1 in
      let present : (p : ℕ)
          → contains active p ≡ true
          → (g : Group) × Memᴰ g gs × (g.partition ≡ p) =
        λ p c.
          let (g, k, at) = add_missing-present p active (count_groups w.tables.jobs) c in
          (g, mem-perm (Permᴰ.symm (range.order-Permᴰ 0 m)) k, at) in
      let perm : Permᴰ (range.order 1 s.value) (map (with_share active q) gs) =
        subst (λ xs. Permᴰ (range.order 1 s.value) xs) mapped (range.order-Permᴰ 1 s.value) in
      let start =
        Shed-Dealing srv active d q total enough gs (range.order 1 s.value) w.tables.jobs
          w1.tables.jobs perm before present after lack in
      let end =
        deal-Dealing srv active d q total enough (range.order 1 s.value) (new_group 0) w1 start
          r.first in
      let l = r.value.partition in
      let allowed : contains (0 ∷ active) l ≡ true =
        deal-allowed srv active (range.order 1 s.value) (new_group 0) w1 (contains-zero srv active)
          r.first in
      let t = bind-ok (assign_jobs_to_partition srv l 0) _ w2 r.then_ok in
      let w3 = (assign_jobs_to_partition srv l 0 w2).1 in
      let (shift, kept) = assign-Shift srv l 0 w2 end.unique t.first in
      let same = (notify_all-same srv active d w3.tables.jobs active).at w3 refl in
      (
        l,
        allowed,
        rw (s.same, r.same, t.same, same)
            (dealt-Shared q total enough l w2.tables.jobs w3.tables.jobs end allowed shift),
        λ full.
            let idle = deal-NoneShort srv active (range.order 1 s.value) (new_group 0) w1 (
              NoneShort-of_full q total w.tables.jobs gs before full (range.order 1 s.value)
                perm) in
            let e : new_group 0 ≡ r.value = ground (arith, r.first) in
            ap (λ (g : Group). g.partition) (sym e),
      )

  pub spread-Shared :
      (range : MapRange) (w : World) {u : Unit {0}}
      → 0 < length active
      → All (λ j. is_live j.status ≡ true) w.tables.jobs
      → IsUnique w.tables.jobs
      → ((j : ScheduledJob) → Memᴰ j w.tables.jobs → contains (0 ∷ active) j.partition ≡ true)
      → (spread srv range active w).0 ≡ ok u
      → (l : ℕ) × (contains (0 ∷ active) l ≡ true)
        × Shared active
            (length w.tables.jobs / length active)
            (length w.tables.jobs % length active)
            (spread srv range active w).1.tables.jobs
            l
        × (((a : ℕ)
              → contains active a ≡ true
              → length w.tables.jobs / length active ≤ count_in a w.tables.jobs)
            → l ≡ 0)
  unfolding spread select_groups
  spread-Shared range w some_active live unique placed done =
      let rows = w.tables.jobs in
      let s = bind-ok (select_groups srv) _ w done in
      let (value, same) = read-ok srv _ w s.first in
      let grps : s.value ≡ count_groups rows =
        value ∙ ap count_groups (select_where-All (λ j. is_live j.status) rows live) in
      let total : total_count s.value ≡ length rows =
        ap total_count grps ∙ total-count_groups rows in
      let q = length rows / length active in
      let rest = s.then_ok in
      let left : length rows - length active * q ≡ length rows % length active =
        sym (mod-eq-sub-mul-div (length rows) (length active)) in
      rw (s.same, total, grps, same, ← left)
        (settle-Shared range q (trip w) (omega (arith, mod-add-div (length rows) (length active)))
          unique placed (rw (total, grps, same) at rest))
