-- ===== src/Storage/Balance/Even/Shed.antt =====
-- The first loop of ReBalance: an active partition that has more than its share keeps just that.
use hermeshooks.Prelude.{
  ℕ, ◌+◌, ◌-◌, ◌≤◌, ◌<◌, ◌≡◌, refl, ap, sym, ◌∙◌, true, false, ◌⊎◌, inl, inr, Bool-cases, List, [],
  ◌∷◌, map, Memᴰ, arith, ltb, ◌==◌, ==_iff, contains,
}
use hermeshooks.Prelude.Int.{pos, ltb_ℤ, neg_part}
use hermeshooks.Storage.Models.{ScheduledJob}
use hermeshooks.Storage.Sql.{Server, World, ok}
use hermeshooks.Storage.Sql.Invert.{bind-ok}
use hermeshooks.Storage.Balance.Groups.{count_in}
use hermeshooks.Storage.Balance.Even.Moves.{IsUnique, Shift, amount, removes-Shift}
use hermeshooks.Storage.Balance.Even.Sums.{IsDistinct, count_over, Shift-in, active-nonzero}
use hermeshooks.Storage.Balance.{Group, share, drop_surplus, shed_one, shed}
use hermeshooks.Storage.Balance.Even.Apart.{
  groups_at, groups_at-apart, fewer-groups, still-pending, with_share,
}

module _ (srv : Server) (active : List ℕ) (d : IsDistinct active) (q total : ℕ) where
  -- The rows, with the groups that are still to come.
  pub record Shedding (gs : List Group) (rows : List ScheduledJob) : Type 0 where
    pub unique : IsUnique rows
    pub whole : count_over active rows + count_in 0 rows ≡ total
    pub stray : (p : ℕ) → contains (0 ∷ active) p ≡ false → count_in p rows ≡ 0
    pub counted :
        (g : Group) → Memᴰ g gs → (g.partition == 0) ≡ false → g.count ≡ count_in g.partition rows
    pub apart : (p : ℕ) → groups_at p gs ≤ 1
    pub pending :
        (p : ℕ)
        → contains active p ≡ true
        → (count_in p rows ≤ q) ⊎ ((g : Group) × Memᴰ g gs × (g.partition ≡ p))

  -- What a partition lacks stays the same.
  abbrev SameLack : List ScheduledJob → List ScheduledJob → Type 0
  SameLack rows rows' =
      (p : ℕ) → contains active p ≡ true → q - count_in p rows' ≡ q - count_in p rows

  -- What one round does to the rows: nothing, or a partition with too many jobs gives the rest to 0.
  abbrev Round : Group → List ScheduledJob → List ScheduledJob → Type 0
  Round g rows rows' =
      ((rows' ≡ rows) × (contains active g.partition ≡ true → count_in g.partition rows ≤ q))
      ⊎ ((contains active g.partition ≡ true)
          × (q < count_in g.partition rows)
          × Shift g.partition 0 (count_in g.partition rows - q) rows rows'
          × IsUnique rows')

  drop_surplus-Round :
      (g : Group) (w : World) {u : Unit {0}}
      → (g.partition == 0) ≡ false
      → g.count ≡ count_in g.partition w.tables.jobs
      → (contains (0 ∷ active) g.partition ≡ false → count_in g.partition w.tables.jobs ≡ 0)
      → IsUnique w.tables.jobs
      → (drop_surplus srv g.partition (share active q g) w).0 ≡ ok u
      → Round g w.tables.jobs (drop_surplus srv g.partition (share active q g) w).1.tables.jobs
  unfolding drop_surplus share
  drop_surplus-Round g w nonzero counted stray unique done =
      elim (Bool-cases (contains active g.partition)) [
        | inr inactive ↦
            let none : count_in g.partition w.tables.jobs ≡ 0 =
              stray (unfold contains in ground arith) in
            let quiet : ltb_ℤ (share active q g) (pos 0) ≡ false = ground arith in
            rw quiet (inl (refl, λ c. absurd (cc)))
        | inl served ↦ elim (Bool-cases (ltb q g.count)) [
          | inr fits ↦
              let quiet : ltb_ℤ (share active q g) (pos 0) ≡ false = ground arith in
              rw quiet (inl (refl, λ c. ground arith))
          | inl more ↦
              let loud : ltb_ℤ (share active q g) (pos 0) ≡ true = ground arith in
              let n = neg_part (share active q g) in
              let surplus : n ≡ count_in g.partition w.tables.jobs - q = ground arith in
              let over : q < count_in g.partition w.tables.jobs = ground arith in
              let (shift, kept) = removes-Shift srv g.partition n w unique (rw loud at done) in
              let all_of : amount n (count_in g.partition w.tables.jobs)
                  ≡ count_in g.partition w.tables.jobs - q =
                rw surplus (ground arith) in
              rw loud (inr (served, over, rw all_of at shift, kept))
        ]
      ]

  Shift-other :
      (p m s : ℕ) (rows rows' : List ScheduledJob)
      → Shift p 0 m rows rows'
      → (p == s) ≡ false
      → (s == 0) ≡ false
      → count_in s rows' ≡ count_in s rows
  Shift-other p m s rows rows' shift other nonzero = ground (arith, shift s)

  Shift-same :
      (p : ℕ) (rows rows' : List ScheduledJob)
      → (p == 0) ≡ false
      → q < count_in p rows
      → Shift p 0 (count_in p rows - q) rows rows'
      → count_in p rows' ≡ q
  Shift-same p rows rows' nonzero over shift = ground (arith, shift p)

  unserved :
      (s p : ℕ)
      → contains active s ≡ true
      → contains (0 ∷ active) p ≡ false
      → ((s == p) ≡ false) × ((p == 0) ≡ false)
  unfolding contains
  unserved s p served c = (
    elim (Bool-cases (s == p)) [
      | inl e ↦
          let there : contains active p ≡ true = rw (← (==_iff s p).0 e) served in
          absurd (ground arith)
      | inr e ↦ e
    ],
    ground arith,
  )

  Round-Shedding :
      (g : Group) (gs : List Group) (rows rows' : List ScheduledJob)
      → Shedding (g ∷ gs) rows
      → Round g rows rows'
      → Shedding gs rows' × SameLack rows rows'
  Round-Shedding g gs rows rows' h (inl (same, fits)) = (
    record {
      unique = rw same h.unique;
      whole = rw same h.whole;
      stray = rw same h.stray;
      counted = rw same λ x m n. h.counted x (Memᴰ.tail m) n;
      apart = λ p. omega (arith, h.apart p, fewer-groups p g gs);
      pending = rw same λ p c. elim (Bool-cases (g.partition == p)) [
        | inl at ↦
            let e : g.partition ≡ p = (==_iff g.partition p).0 at in inl (rw (← e) (fits (rw e c)))
        | inr other ↦ still-pending _ g gs p other (h.pending p c)
      ];
    },
    rw same (λ p c. refl),
  )
  Round-Shedding g gs rows rows' h (inr (served, over, shift, kept)) =
      let nonzero = active-nonzero active d g.partition served in
      let left = Shift-same g.partition rows rows' nonzero over shift in
      (
        record {
          unique = kept;
          whole = Shift-in active d g.partition _ rows rows' total served shift h.whole;
          stray = λ p c.
              let (other, n) = unserved g.partition p served c in
              Shift-other g.partition _ p rows rows' shift other n ∙ h.stray p c;
          counted = λ x m n.
              h.counted x (Memᴰ.tail m) n
              ∙ sym (
                  Shift-other g.partition _ x.partition rows rows' shift
                    (groups_at-apart g x gs (h.apart g.partition) m) n);
          apart = λ p. omega (arith, h.apart p, fewer-groups p g gs);
          pending = λ p c. elim (Bool-cases (g.partition == p)) [
            | inl at ↦
                let e : g.partition ≡ p = (==_iff g.partition p).0 at in
                inl (rw (← e) (omega arith))
            | inr other ↦
                let same =
                  Shift-other g.partition _ p rows rows' shift other
                    (active-nonzero active d p c) in
                rw same (still-pending _ g gs p other (h.pending p c))
          ];
        },
        λ p c. elim (Bool-cases (g.partition == p)) [
          | inl at ↦ let e : g.partition ≡ p = (==_iff g.partition p).0 at in rw (← e) (omega arith)
          | inr other ↦
              ap (λ (n : ℕ). q - n)
                (Shift-other g.partition _ p rows rows' shift other (active-nonzero active d p c))
        ],
      )

  shed_one-Shedding :
      (g : Group) (gs : List Group) (w : World) {g' : Group}
      → Shedding (g ∷ gs) w.tables.jobs
      → (shed_one srv active q g w).0 ≡ ok g'
      → (g' ≡ with_share active q g)
        × Shedding gs (shed_one srv active q g w).1.tables.jobs
        × SameLack w.tables.jobs (shed_one srv active q g w).1.tables.jobs
  unfolding shed_one
  shed_one-Shedding g gs w {g'} h done = elim (Bool-cases (g.partition == 0)) [
    | inl zero_part ↦
        let idle : Round g w.tables.jobs w.tables.jobs =
          inl (refl, λ c. let nonzero = active-nonzero active d g.partition c in absurd (cc)) in
        let (next, lack) = Round-Shedding g gs w.tables.jobs w.tables.jobs h idle in
        let same : g' ≡ g = ground arith in rw zero_part (same, next, lack)
    | inr nonzero ↦
        let s =
          bind-ok (drop_surplus srv g.partition (share active q g)) _ w (rw nonzero at done) in
        let round =
          drop_surplus-Round g w nonzero (h.counted g (Memᴰ.head refl) nonzero)
            (h.stray g.partition) h.unique s.first in
        let (next, lack) = Round-Shedding g gs w.tables.jobs _ h round in
        let same : g' ≡ record g { to_add = share active q g } = ground (arith, s.then_ok) in
        rw (nonzero, s.same) (same, next, lack)
  ]

  pub shed-Shedding :
      (gs : List Group) (w : World) {gs' : List Group}
      → Shedding gs w.tables.jobs
      → (shed srv active q gs w).0 ≡ ok gs'
      → (gs' ≡ map (with_share active q) gs)
        × Shedding [] (shed srv active q gs w).1.tables.jobs
        × SameLack w.tables.jobs (shed srv active q gs w).1.tables.jobs
  unfolding shed
  shed-Shedding [] w {gs'} h done = (ground arith, h, λ p c. refl)
  shed-Shedding (g ∷ gs) w {gs'} h done =
      let s = bind-ok (shed_one srv active q g) _ w done in
      let r = bind-ok (shed srv active q gs) _ _ s.then_ok in
      let (one, next, lack) = shed_one-Shedding g gs w h s.first in
      let (others, end, lack') = shed-Shedding gs _ next r.first in
      let e : gs' ≡ s.value ∷ r.value = ground (arith, r.then_ok) in
      rw (s.same, r.same)
        (
          e ∙ ap (λ x. x ∷ r.value) one ∙ ap (◌∷◌ (with_share active q g)) others,
          end,
          λ p c. lack' p c ∙ lack p c,
        )
