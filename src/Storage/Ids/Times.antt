-- ===== src/Storage/Ids/Times.antt =====
-- How many jobs have an id.
use hermeshooks.Prelude.{
  ℕ, zero, suc, ◌+◌, ◌≤◌, ◌<◌, ◌≡◌, refl, ap, sym, ◌∙◌, Bool, List, [], ◌∷◌, ◌++◌, Memᴰ, Permᴰ,
  arith, ◌==◌, if◌then◌else◌, Bool-cases, inl, inr, update_where, select_where, sort_by,
  sort_by-Permᴰ, limit, take,
}
use hermeshooks.Storage.Models.{ScheduledJob}

unfoldable pub times : ℕ → List ScheduledJob → ℕ
times id [] = 0
times id (j ∷ js) = (if j.id == id then 1 else 0) + times id js

module _ (id : ℕ) where
  pub times-update :
      (p : ScheduledJob → Bool) (f : ScheduledJob → ScheduledJob) (rows : List ScheduledJob)
      → ((j : ScheduledJob) → (f j).id ≡ j.id)
      → times id (update_where p f rows) ≡ times id rows
  unfolding times update_where
  times-update p f [] same = refl
  times-update p f (j ∷ js) same = ground (arith, times-update p f js same, same j)

  pub times-append : (xs ys : List ScheduledJob) → times id (xs ++ ys) ≡ times id xs + times id ys
  unfolding times
  times-append [] ys = omega arith
  times-append (x ∷ xs) ys = omega (arith, times-append xs ys)

  pub times-fresh :
      (rows : List ScheduledJob)
      → ((j : ScheduledJob) → Memᴰ j rows → j.id < id)
      → times id rows ≡ 0
  unfolding times
  times-fresh [] h = refl
  times-fresh (j ∷ js) h =
      ground (arith, h j (Memᴰ.head refl), times-fresh js λ x m. h x (Memᴰ.tail m))

  pub times-select :
      (p : ScheduledJob → Bool) (rows : List ScheduledJob)
      → times id (select_where p rows) ≤ times id rows
  unfolding times select_where
  times-select p [] = omega arith
  times-select p (j ∷ js) = ground (arith, times-select p js)

  times-take : (n : ℕ) (rows : List ScheduledJob) → times id (take n rows) ≤ times id rows
  unfolding times
  times-take zero rows = omega arith
  times-take (suc n) [] = omega arith
  times-take (suc n) (j ∷ js) = omega (arith, times-take n js)

  pub times-limit : (n : ℕ) (rows : List ScheduledJob) → times id (limit n rows) ≤ times id rows
  unfolding limit
  times-limit zero rows = omega arith
  times-limit (suc n) rows = times-take (suc n) rows

  pub times-perm : {xs ys : List ScheduledJob} → Permᴰ xs ys → times id xs ≡ times id ys
  unfolding times
  times-perm Permᴰ.nil = refl
  times-perm (Permᴰ.cons e q) = ground (arith, times-perm q)
  times-perm (Permᴰ.swap e f) = ground arith
  times-perm (Permᴰ.trans q r) = times-perm q ∙ times-perm r

  pub times-sort :
      (key : ScheduledJob → ℕ) (rows : List ScheduledJob)
      → times id (sort_by key rows) ≡ times id rows
  unfolding times
  times-sort key rows = times-perm (sort_by-Permᴰ key rows)

  -- A job counts.
  times-mem :
      (rows : List ScheduledJob) {j : ScheduledJob} → Memᴰ j rows → j.id ≡ id → 0 < times id rows
  unfolding times
  times-mem [] m e = elim m [ ]
  times-mem (x ∷ xs) (Memᴰ.head d) e = let i = ap (λ (x : ScheduledJob). x.id) d in ground arith
  times-mem (x ∷ xs) (Memᴰ.tail m) e = ground (arith, times-mem xs m e)

  pub mem-of_times :
      (rows : List ScheduledJob)
      → 0 < times id rows
      → (j : ScheduledJob) × Memᴰ j rows × (j.id ≡ id)
  unfolding times
  mem-of_times [] h = absurd (omega arith)
  mem-of_times (x ∷ xs) h = elim (Bool-cases (x.id == id)) [
    | inl e ↦ (x, Memᴰ.head refl, ground arith)
    | inr e ↦ let (j, m, i) = mem-of_times xs (ground arith) in (j, Memᴰ.tail m, i)
  ]

  -- An id that is not there twice belongs to one job.
  pub same_of_times :
      (rows : List ScheduledJob) {j k : ScheduledJob}
      → times id rows ≤ 1
      → Memᴰ j rows
      → Memᴰ k rows
      → j.id ≡ id
      → k.id ≡ id
      → j ≡ k
  unfolding times
  same_of_times [] h m n e f = elim m [ ]
  same_of_times (x ∷ xs) h (Memᴰ.head d) (Memᴰ.head d') e f = d ∙ sym d'
  same_of_times (x ∷ xs) h (Memᴰ.head d) (Memᴰ.tail n) e f =
      absurd (let i = ap (λ (x : ScheduledJob). x.id) d in ground (arith, times-mem xs n f))
  same_of_times (x ∷ xs) h (Memᴰ.tail m) (Memᴰ.head d) e f =
      absurd (let i = ap (λ (x : ScheduledJob). x.id) d in ground (arith, times-mem xs m e))
  same_of_times (x ∷ xs) h (Memᴰ.tail m) (Memᴰ.tail n) e f = same_of_times xs (ground arith) m n e f
