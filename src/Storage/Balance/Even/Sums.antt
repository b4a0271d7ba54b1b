-- ===== src/Storage/Balance/Even/Sums.antt =====
-- The jobs of several partitions together, and what a move between two of them does to the sum.
use hermeshooks.Prelude.{
  ℕ, ◌+◌, ◌-◌, ◌*◌, ◌≤◌, ◌<◌, ◌≡◌, refl, true, false, inl, inr, Bool-cases, List, [], ◌∷◌, Memᴰ,
  arith, ◌==◌, ==_iff, if◌then◌else◌, length, contains, select_where,
}
use hermeshooks.Storage.Models.{ScheduledJob}
use hermeshooks.Storage.Balance.Groups.{count_in}
use hermeshooks.Storage.Balance.Even.Moves.{Shift}

-- No partition stands there twice, and none is 0.
abbrev pub IsDistinct : List ℕ → Type 0
IsDistinct [] = Unit {0}
IsDistinct (a ∷ rest) = (0 < a) × (contains rest a ≡ false) × IsDistinct rest

pub count_over : List ℕ → List ScheduledJob → ℕ
count_over [] rows = 0
count_over (a ∷ rest) rows = count_in a rows + count_over rest rows

-- `m`, for every time that `p` stands in the list.
weight : ℕ → ℕ → List ℕ → ℕ
weight m p [] = 0
weight m p (a ∷ rest) = (if p == a then m else 0) + weight m p rest

weight-absent : (m p : ℕ) (ps : List ℕ) → contains ps p ≡ false → weight m p ps ≡ 0
unfolding weight contains
weight-absent m p [] h = refl
weight-absent m p (a ∷ rest) h = ground (arith, weight-absent m p rest)

weight-present : (m p : ℕ) (ps : List ℕ) → IsDistinct ps → contains ps p ≡ true → weight m p ps ≡ m
unfolding weight contains
weight-present m p [] d h = absurd (cc)
weight-present m p (a ∷ rest) d h = elim (Bool-cases (p == a)) [
  | inl hit ↦
      let same : p ≡ a = (==_iff p a).0 hit in
      let absent : contains rest p ≡ false = rw same d.1 in
      rw hit (omega (arith, weight-absent m p rest absent))
  | inr miss ↦ ground (arith, weight-present m p rest d.2)
]

zero-absent : (ps : List ℕ) → IsDistinct ps → contains ps 0 ≡ false
unfolding contains
zero-absent [] d = refl
zero-absent (a ∷ rest) d = ground (arith, zero-absent rest d.2)

count_over-Shift :
    (p r m : ℕ) (rows rows' : List ScheduledJob) (ps : List ℕ)
    → Shift p r m rows rows'
    → count_over ps rows' + weight m p ps ≡ count_over ps rows + weight m r ps
unfolding count_over weight
count_over-Shift p r m rows rows' [] h = omega arith
count_over-Shift p r m rows rows' (a ∷ rest) h =
    ground (arith, h a, count_over-Shift p r m rows rows' rest h)

count_over-cons :
    (j : ScheduledJob) (js : List ScheduledJob) (ps : List ℕ)
    → count_over ps (j ∷ js) ≡ weight 1 j.partition ps + count_over ps js
unfolding count_over weight select_where
count_over-cons j js [] = refl
count_over-cons j js (a ∷ rest) = ground (arith, count_over-cons j js rest)

count_over_none : (ps : List ℕ) → count_over ps [] ≡ 0
unfolding count_over select_where
count_over_none [] = refl
count_over_none (a ∷ rest) = omega (arith, count_over_none rest)

module _ (active : List ℕ) (d : IsDistinct active) where
  pub active-nonzero : (p : ℕ) → contains active p ≡ true → (p == 0) ≡ false
  active-nonzero p c = elim (Bool-cases (p == 0)) [
    | inl e ↦
        let absent : contains active p ≡ false = rw ((==_iff p 0).0 e) (zero-absent active d) in
        absurd (cc)
    | inr e ↦ e
  ]

  -- Rows that are all in an active partition or in 0.
  pub count_over-length :
      (rows : List ScheduledJob)
      → ((j : ScheduledJob) → Memᴰ j rows → contains (0 ∷ active) j.partition ≡ true)
      → count_over active rows + count_in 0 rows ≡ length rows
  unfolding contains select_where
  count_over-length [] h = omega (arith, count_over_none active)
  count_over-length (j ∷ js) h =
      let rest = count_over-length js λ x m. h x (Memᴰ.tail m) in
      let here = h j (Memᴰ.head refl) in
      elim (Bool-cases (j.partition == 0)) [
        | inl zero_part ↦
            let at : j.partition ≡ 0 = (==_iff j.partition 0).0 zero_part in
            let none : contains active j.partition ≡ false = rw at (zero-absent active d) in
            ground (arith, count_over-cons j js active, weight-absent 1 j.partition active none)
        | inr nonzero ↦
            let there : contains active j.partition ≡ true = ground arith in
            ground (arith, count_over-cons j js active, weight-present 1 j.partition active d there)
      ]

  -- A move between an active partition and 0 leaves the sum.
  pub Shift-in :
      (p m : ℕ) (rows rows' : List ScheduledJob) (total : ℕ)
      → contains active p ≡ true
      → Shift p 0 m rows rows'
      → count_over active rows + count_in 0 rows ≡ total
      → count_over active rows' + count_in 0 rows' ≡ total
  Shift-in p m rows rows' total c h whole =
      let positive = active-nonzero p c in
      ground (
        arith,
        h 0,
        count_over-Shift p 0 m rows rows' active h,
        weight-present m p active d c,
        weight-absent m 0 active (zero-absent active d),
      )

  pub Shift-out :
      (p m : ℕ) (rows rows' : List ScheduledJob) (total : ℕ)
      → contains active p ≡ true
      → Shift 0 p m rows rows'
      → count_over active rows + count_in 0 rows ≡ total
      → count_over active rows' + count_in 0 rows' ≡ total
  Shift-out p m rows rows' total c h whole =
      let positive = active-nonzero p c in
      ground (
        arith,
        h 0,
        count_over-Shift 0 p m rows rows' active h,
        weight-present m p active d c,
        weight-absent m 0 active (zero-absent active d),
      )

count_over-le :
    (q : ℕ) (rows : List ScheduledJob) (ps : List ℕ)
    → ((a : ℕ) → contains ps a ≡ true → count_in a rows ≤ q)
    → count_over ps rows ≤ length ps * q
unfolding count_over contains
count_over-le q rows [] h = omega arith
count_over-le q rows (a ∷ rest) h =
    ground (arith, h a, count_over-le q rows rest λ b c. h b (ground arith))

-- When no partition has more than `q` jobs, what one of them lacks is lacking in the sum.
pub count_over-room :
    (q p : ℕ) (rows : List ScheduledJob) (ps : List ℕ)
    → ((a : ℕ) → contains ps a ≡ true → count_in a rows ≤ q)
    → contains ps p ≡ true
    → count_over ps rows + (q - count_in p rows) ≤ length ps * q
unfolding count_over contains
count_over-room q p rows [] h c = absurd (cc)
count_over-room q p rows (a ∷ rest) h c = elim (Bool-cases (a == p)) [
  | inl hit ↦
      let same : a ≡ p = (==_iff a p).0 hit in
      let others = count_over-le q rows rest λ b k. h b (ground arith) in
      rw same (let at : count_in p rows ≤ q = h p c in omega arith)
  | inr miss ↦
      let others = count_over-room q p rows rest (λ b k. h b (ground arith)) (ground arith) in
      let at : count_in a rows ≤ q = h a (ground arith) in omega arith
]

pub count_over-full :
    (q : ℕ) (rows : List ScheduledJob) (ps : List ℕ)
    → ((a : ℕ) → contains ps a ≡ true → count_in a rows ≡ q)
    → count_over ps rows ≡ length ps * q
unfolding count_over contains
count_over-full q rows [] h = omega arith
count_over-full q rows (a ∷ rest) h =
    ground (arith, h a, count_over-full q rows rest λ b c. h b (ground arith))
