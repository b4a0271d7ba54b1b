-- ===== src/Storage/Balance/Even/Moves.antt =====
-- How many jobs a statement of ReBalance moves from one partition to another, when their ids are unique.
use hermeshooks.Prelude.{
  ℕ, zero, suc, ◌+◌, ◌≤◌, ◌<◌, ◌≡◌, refl, ap, ◌∙◌, Bool, true, false, ◌&&◌, ◌||◌, inl, inr,
  Bool-cases, List, [], ◌∷◌, map, Memᴰ, Permᴰ, arith, leb, ◌==◌, ==_iff, if◌then◌else◌, length,
  take, contains, select_where, update_where, limit, mem-perm, mem-select_where, mem-take,
}
use hermeshooks.Storage.Models.{ScheduledJob}
use hermeshooks.Storage.Sql.{Server, World, ok, trip}
use hermeshooks.Storage.Sql.Invert.{write-ok}
use hermeshooks.Storage.Ids.Times.{
  times, times-update, times-select, times-limit, times-perm, mem-of_times, same_of_times,
}
use hermeshooks.Storage.Balance.Groups.{count_in, count_in-perm}
use hermeshooks.Storage.Balance.{
  move_to, batch, assign_jobs_to_partition, removes_jobs_from_partition,
}

abbrev pub IsUnique : List ScheduledJob → Type 0
IsUnique rows = (id : ℕ) → times id rows ≤ 1

length-select-or {ℓ} :
    {A : Type ℓ} (p q : A → Bool) (xs : List A)
    → ((x : A) → (p x && q x) ≡ false)
    → length (select_where (λ x. p x || q x) xs)
      ≡ length (select_where p xs) + length (select_where q xs)
unfolding select_where
length-select-or p q [] apart = omega arith
length-select-or p q (x ∷ xs) apart = ground (arith, apart x, length-select-or p q xs apart)

times-length :
    (id : ℕ) (rows : List ScheduledJob)
    → length (select_where (λ j. id == j.id) rows) ≡ times id rows
unfolding select_where times
times-length id [] = refl
times-length id (j ∷ js) = ground (arith, times-length id js)

abbrev row_ids : List ScheduledJob → List ℕ
row_ids = map (λ j. j.id)

not-contains_of_times :
    (id : ℕ) (rows : List ScheduledJob) → times id rows ≡ 0 → contains (row_ids rows) id ≡ false
unfolding contains times
not-contains_of_times id [] h = refl
not-contains_of_times id (j ∷ js) h = ground (arith, not-contains_of_times id js)

times_of_contains :
    (id : ℕ) (rows : List ScheduledJob) → contains (row_ids rows) id ≡ true → 0 < times id rows
unfolding contains times
times_of_contains id [] h = absurd (cc)
times_of_contains id (j ∷ js) h = ground (arith, times_of_contains id js)

none_taken : (rows : List ScheduledJob) → length (select_where (λ j. contains [] j.id) rows) ≡ 0
unfolding contains select_where
none_taken [] = refl
none_taken (j ∷ js) = none_taken js

-- As many rows are hit as ids were taken.
hits-length :
    (taken rows : List ScheduledJob)
    → IsUnique rows
    → ((id : ℕ) → times id taken ≤ times id rows)
    → length (select_where (λ j. contains (row_ids taken) j.id) rows) ≡ length taken
unfolding contains times
hits-length [] rows unique within = none_taken rows
hits-length (b ∷ bs) rows unique within =
    let others = hits-length bs rows unique (λ id. omega (arith, within id)) in
    let alone : times b.id bs ≡ 0 = ground (arith, within b.id, unique b.id) in
    let one : times b.id rows ≡ 1 = ground (arith, within b.id, unique b.id) in
    let fresh = not-contains_of_times b.id bs alone in
    let apart : (j : ScheduledJob) → ((b.id == j.id) && contains (row_ids bs) j.id) ≡ false = λ j.
      elim (Bool-cases (b.id == j.id)) [
        | inl hit ↦ rw (hit, ← (==_iff b.id j.id).0 hit) fresh
        | inr miss ↦ rw miss refl
      ] in
    length-select-or (λ (j : ScheduledJob). b.id == j.id) (λ j. contains (row_ids bs) j.id) rows
      apart
    ∙ omega (arith, times-length b.id rows, others)

-- How many rows a batch has.
abbrev pub amount : ℕ → ℕ → ℕ
amount n c = if n == 0 then c else if leb n c then n else c

length-take {ℓ} :
    {A : Type ℓ} (n : ℕ) (xs : List A)
    → length (take n xs) ≡ (if leb n (length xs) then n else length xs)
length-take zero xs = ground arith
length-take (suc n) [] = ground arith
length-take (suc n) (x ∷ xs) = ground (arith, length-take n xs)

length-limit {ℓ} : {A : Type ℓ} (n : ℕ) (xs : List A) → length (limit n xs) ≡ amount n (length xs)
unfolding limit
length-limit zero xs = refl
length-limit (suc n) xs = ground (arith, length-take (suc n) xs)

-- Rows of one partition are moved to another.
count-move :
    (p r s : ℕ) (hit : ScheduledJob → Bool) (rows : List ScheduledJob)
    → ((j : ScheduledJob) → Memᴰ j rows → hit j ≡ true → j.partition ≡ p)
    → count_in s (update_where hit (move_to r) rows)
        + (if p == s then length (select_where hit rows) else 0)
      ≡ count_in s rows + (if r == s then length (select_where hit rows) else 0)
unfolding select_where update_where
count-move p r s hit [] h = ground arith
count-move p r s hit (j ∷ js) h =
    ground (arith, h j (Memᴰ.head refl), count-move p r s hit js λ x m. h x (Memᴰ.tail m))

-- What is moved: `m` rows, from `p` to `r`.
abbrev pub Shift : ℕ → ℕ → ℕ → List ScheduledJob → List ScheduledJob → Type 0
Shift p r m rows rows' =
    (s : ℕ)
    → count_in s rows' + (if p == s then m else 0) ≡ count_in s rows + (if r == s then m else 0)

limit-mem {ℓ} : {A : Type ℓ} (n : ℕ) (xs : List A) {a : A} → Memᴰ a (limit n xs) → Memᴰ a xs
unfolding limit
limit-mem zero xs m = m
limit-mem (suc n) xs m = mem-take (suc n) xs m

batch-Shift :
    (p r n : ℕ) (rows met : List ScheduledJob)
    → Permᴰ met rows
    → IsUnique rows
    → Shift p r
        (amount n (count_in p rows))
        rows
        (update_where (λ j. contains (batch met p n) j.id) (move_to r) rows)
unfolding batch
batch-Shift p r n rows met perm unique s =
    let taken = limit n (select_where (λ (j : ScheduledJob). j.partition == p) met) in
    let within : (id : ℕ) → times id taken ≤ times id rows = λ id. omega (
      arith,
      times-limit id n (select_where (λ (j : ScheduledJob). j.partition == p) met),
      times-select id (λ j. j.partition == p) met,
      times-perm id perm,
    ) in
    let size =
      hits-length taken rows unique within
      ∙ length-limit n (select_where (λ (j : ScheduledJob). j.partition == p) met)
      ∙ ap (amount n) (count_in-perm p perm) in
    rw size at (
      count-move p r s (λ j. contains (row_ids taken) j.id) rows
        λ j m hit.
          let (b, k, e) = mem-of_times j.id taken (times_of_contains j.id taken hit) in
          let (in_met, at) =
            mem-select_where (λ (x : ScheduledJob). x.partition == p) met {a = b}
              (limit-mem n _ k) in
          let same : j ≡ b =
            same_of_times j.id rows (unique j.id) m (mem-perm perm in_met) refl e in
          rw same ((==_iff b.partition p).0 at))

module _ (srv : Server) where
  pub assign-Shift :
      (target n : ℕ) (w : World) {u : Unit {0}}
      → IsUnique w.tables.jobs
      → (assign_jobs_to_partition srv target n w).0 ≡ ok u
      → Shift 0 target
          (amount n (count_in 0 w.tables.jobs))
          w.tables.jobs
          (assign_jobs_to_partition srv target n w).1.tables.jobs
        × IsUnique (assign_jobs_to_partition srv target n w).1.tables.jobs
  unfolding assign_jobs_to_partition
  assign-Shift target n w unique done = rw (write-ok srv _ w done) (
    batch-Shift 0 target n w.tables.jobs _ (srv.row_order-Permᴰ (trip w).trips w.tables.jobs)
        unique,
    λ id. omega (arith, times-update id _ (move_to target) w.tables.jobs (λ j. refl), unique id),
  )

  pub removes-Shift :
      (current n : ℕ) (w : World) {u : Unit {0}}
      → IsUnique w.tables.jobs
      → (removes_jobs_from_partition srv current n w).0 ≡ ok u
      → Shift current 0
          (amount n (count_in current w.tables.jobs))
          w.tables.jobs
          (removes_jobs_from_partition srv current n w).1.tables.jobs
        × IsUnique (removes_jobs_from_partition srv current n w).1.tables.jobs
  unfolding removes_jobs_from_partition
  removes-Shift current n w unique done = rw (write-ok srv _ w done) (
    batch-Shift current 0 n w.tables.jobs _ (srv.row_order-Permᴰ (trip w).trips w.tables.jobs)
        unique,
    λ id. omega (arith, times-update id _ (move_to 0) w.tables.jobs (λ j. refl), unique id),
  )
