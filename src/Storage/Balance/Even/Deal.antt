-- ===== src/Storage/Balance/Even/Deal.antt =====
-- The second loop of ReBalance: an active partition that has less than its share gets the rest from 0.
use hermeshooks.Prelude.{
  ℕ, ◌+◌, ◌-◌, ◌*◌, ◌≤◌, ◌<◌, ◌≡◌, refl, ap, sym, ◌∙◌, true, false, ◌⊎◌, inl, inr, Bool-cases, List,
  [], ◌∷◌, Memᴰ, arith, ◌==◌, ==_iff, length, contains,
}
use hermeshooks.Prelude.Int.{pos_part}
use hermeshooks.Storage.Models.{ScheduledJob}
use hermeshooks.Storage.Sql.{Server, World, ok}
use hermeshooks.Storage.Sql.Invert.{bind-ok}
use hermeshooks.Storage.Balance.Groups.{count_in}
use hermeshooks.Storage.Balance.Even.Moves.{IsUnique, Shift, amount, assign-Shift}
use hermeshooks.Storage.Balance.Even.Sums.{
  IsDistinct, count_over, Shift-out, active-nonzero, count_over-room,
}
use hermeshooks.Storage.Balance.Even.Apart.{groups_at, groups_at-apart, fewer-groups, still-pending}
use hermeshooks.Storage.Balance.{Group, is_short, assign_jobs_to_partition, deal}

module _ (srv : Server) (active : List ℕ) (d : IsDistinct active) (q total : ℕ)
    (enough : length active * q ≤ total) where
  -- The rows, with the groups that are still to come.
  pub record Dealing (gs : List Group) (rows : List ScheduledJob) : Type 0 where
    pub unique : IsUnique rows
    pub whole : count_over active rows + count_in 0 rows ≡ total
    pub capped : (p : ℕ) → contains active p ≡ true → count_in p rows ≤ q
    pub due :
        (g : Group)
        → Memᴰ g gs
        → contains active g.partition ≡ true
        → pos_part g.to_add ≡ q - count_in g.partition rows
    pub apart : (p : ℕ) → groups_at p gs ≤ 1
    pub pending :
        (p : ℕ)
        → contains active p ≡ true
        → (count_in p rows ≡ q) ⊎ ((g : Group) × Memᴰ g gs × (g.partition ≡ p))

  -- A group that is not short.
  skip-Dealing :
      (g : Group) (gs : List Group) (rows : List ScheduledJob)
      → is_short active g ≡ false
      → Dealing (g ∷ gs) rows
      → Dealing gs rows
  skip-Dealing g gs rows long h = record {
    unique = h.unique;
    whole = h.whole;
    capped = h.capped;
    due = λ x m c. h.due x (Memᴰ.tail m) c;
    apart = λ p. omega (arith, h.apart p, fewer-groups p g gs);
    pending = λ p c. elim (Bool-cases (g.partition == p)) [
      | inl at ↦
          let e : g.partition ≡ p = (==_iff g.partition p).0 at in
          let served : contains active g.partition ≡ true = rw e c in
          let nonzero = active-nonzero active d g.partition served in
          let nothing : pos_part g.to_add ≡ 0 = ground arith in
          inl
            (rw (← e) (omega (arith, h.due g (Memᴰ.head refl) served, h.capped g.partition served)))
      | inr other ↦ still-pending _ g gs p other (h.pending p c)
    ];
  }

  -- A short group is given what it lacks.
  give-Dealing :
      (g : Group) (gs : List Group) (rows rows' : List ScheduledJob)
      → is_short active g ≡ true
      → Dealing (g ∷ gs) rows
      → Shift 0 g.partition (amount (pos_part g.to_add) (count_in 0 rows)) rows rows'
      → IsUnique rows'
      → Dealing gs rows'
  give-Dealing g gs rows rows' short h moved kept =
      let served : contains active g.partition ≡ true = ground arith in
      let nonzero = active-nonzero active d g.partition served in
      let lack = h.due g (Memᴰ.head refl) served in
      let room = count_over-room q g.partition rows active h.capped served in
      let supply : pos_part g.to_add ≤ count_in 0 rows = omega (arith, lack, room, h.whole) in
      let some_due : 0 < pos_part g.to_add = ground arith in
      let exact : amount (pos_part g.to_add) (count_in 0 rows) ≡ q - count_in g.partition rows =
        rw (← lack) (ground arith) in
      let shift : Shift 0 g.partition (q - count_in g.partition rows) rows rows' =
        rw exact at moved in
      let full : count_in g.partition rows' ≡ q =
        ground (arith, shift g.partition, h.capped g.partition served) in
      let elsewhere : (p : ℕ)
          → contains active p ≡ true
          → (g.partition == p) ≡ false
          → count_in p rows' ≡ count_in p rows =
        λ p c other. let n = active-nonzero active d p c in ground (arith, shift p) in
      record {
        unique = kept;
        whole = Shift-out active d g.partition _ rows rows' total served shift h.whole;
        capped = λ p c. elim (Bool-cases (g.partition == p)) [
          | inl at ↦ let e : g.partition ≡ p = (==_iff g.partition p).0 at in rw (← e) (omega arith)
          | inr other ↦ omega (arith, elsewhere p c other, h.capped p c)
        ];
        due = λ x m c.
            let other = groups_at-apart g x gs (h.apart g.partition) m in
            h.due x (Memᴰ.tail m) c ∙ ap (λ (n : ℕ). q - n) (sym (elsewhere x.partition c other));
        apart = λ p. omega (arith, h.apart p, fewer-groups p g gs);
        pending = λ p c. elim (Bool-cases (g.partition == p)) [
          | inl at ↦ let e : g.partition ≡ p = (==_iff g.partition p).0 at in inl (rw (← e) full)
          | inr other ↦ rw (elsewhere p c other) (still-pending _ g gs p other (h.pending p c))
        ];
      }

  pub deal-Dealing :
      (gs : List Group) (last : Group) (w : World) {l : Group}
      → Dealing gs w.tables.jobs
      → (deal srv active gs last w).0 ≡ ok l
      → Dealing [] (deal srv active gs last w).1.tables.jobs
  unfolding deal
  deal-Dealing [] last w h done = h
  deal-Dealing (g ∷ gs) last w {l} h done = elim (Bool-cases (is_short active g)) [
    | inl short ↦
        let s =
          bind-ok (assign_jobs_to_partition srv g.partition (pos_part g.to_add))
            (λ _. deal srv active gs g) w {b = l} (rw short at done) in
        let (shift, kept) = assign-Shift srv g.partition (pos_part g.to_add) w h.unique s.first in
        rw (short, s.same)
          (deal-Dealing gs g _ (give-Dealing g gs w.tables.jobs _ short h shift kept) s.then_ok)
    | inr long ↦
        rw long (deal-Dealing gs last w (skip-Dealing g gs w.tables.jobs long h) (rw long at done))
  ]
