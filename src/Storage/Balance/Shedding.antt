-- ===== src/Storage/Balance/Shedding.antt =====
-- The first loop of ReBalance when the share of a worker is zero: it empties every partition but 0.
use hermeshooks.Prelude.{
  ℕ, suc, ◌<◌, ◌≡◌, ap, sym, ◌∙◌, true, false, List, [], ◌∷◌, Memᴰ, arith, ◌==◌,
}
use hermeshooks.Prelude.Int.{ℤ, pos, negsuc, ltb_ℤ, neg_part}
use hermeshooks.Storage.Sql.{Server, World, ok, trip}
use hermeshooks.Storage.Sql.Invert.{bind-ok, write-ok}
use hermeshooks.Storage.Sql.Keeps.{Keeps, Keeps-pure, Keeps-bind, Keeps-write, keeps_rules}
use hermeshooks.Storage.Balance.Emptied.{
  Emptied, AtMost, Emptied-count, Emptied-move, AtMost-move, batch-Emptied,
}
use hermeshooks.Storage.Balance.{
  Group, share, assign_jobs_to_partition, removes_jobs_from_partition, notify, drop_surplus,
  shed_one, shed, notify_all,
}

module _ (srv : Server) (active : List ℕ) (p : ℕ) (positive : 0 < p) where
  removes-Emptied : (q n : ℕ) → Keeps (Emptied p) (removes_jobs_from_partition srv q n)
  unfolding removes_jobs_from_partition
  removes-Emptied q n = Keeps-write srv _ λ k t h. Emptied-move p positive t _ h

  removes-AtMost : (m q n : ℕ) → Keeps (AtMost p m) (removes_jobs_from_partition srv q n)
  unfolding removes_jobs_from_partition
  removes-AtMost m q n = Keeps-write srv _ λ k t h. AtMost-move p positive m t _ h

  shed_one-Emptied : (g : Group) → Keeps (Emptied p) (shed_one srv active 0 g)
  unfolding shed_one drop_surplus
  shed_one-Emptied g = search (keeps_rules, removes-Emptied)

  shed_one-AtMost : (m : ℕ) (g : Group) → Keeps (AtMost p m) (shed_one srv active 0 g)
  unfolding shed_one drop_surplus
  shed_one-AtMost m g = search (keeps_rules, removes-AtMost)

  pub shed-Emptied : (gs : List Group) → Keeps (Emptied p) (shed srv active 0 gs)
  unfolding shed
  shed-Emptied [] = search keeps_rules
  shed-Emptied (g ∷ gs) =
      Keeps-bind _ _ (shed_one-Emptied g) λ _. Keeps-bind _ _ (shed-Emptied gs) λ _. Keeps-pure _

  removes-empties :
      (q n : ℕ) (w : World) {u : Unit {0}}
      → q ≡ p
      → AtMost p n w.tables
      → (removes_jobs_from_partition srv q n w).0 ≡ ok u
      → Emptied p (removes_jobs_from_partition srv q n w).1.tables
  unfolding removes_jobs_from_partition
  removes-empties q n w e h done =
      rw (write-ok srv _ w done, e)
        (batch-Emptied p positive n w.tables _ (srv.row_order-Permᴰ (trip w).trips w.tables.jobs) h)

  drop_surplus-empties :
      (d : ℤ) (q : ℕ) (w : World) {u : Unit {0}}
      → q ≡ p
      → AtMost p (neg_part d) w.tables
      → (drop_surplus srv q d w).0 ≡ ok u
      → Emptied p (drop_surplus srv q d w).1.tables
  unfolding drop_surplus
  drop_surplus-empties (pos n) q w e h done =
      let no_surplus : ltb_ℤ (pos n) (pos 0) ≡ false = ground arith in
      rw no_surplus (Emptied-count p w.tables (omega arith))
  drop_surplus-empties (negsuc n) q w e h done =
      let surplus : ltb_ℤ (negsuc n) (pos 0) ≡ true = ground arith in
      rw surplus (removes-empties q (suc n) w e h (rw surplus at done))

  -- With nothing due to each worker, the whole group goes.
  shed_one-empties :
      (g : Group) (w : World) {g' : Group}
      → g.partition ≡ p
      → AtMost p g.count w.tables
      → (shed_one srv active 0 g w).0 ≡ ok g'
      → Emptied p (shed_one srv active 0 g w).1.tables
  unfolding shed_one
  shed_one-empties g w e h done =
      let nonzero : (g.partition == 0) ≡ false = ground arith in
      let s = bind-ok (drop_surplus srv g.partition (share active 0 g)) _ w (rw nonzero at done) in
      let enough : neg_part (share active 0 g) ≡ g.count = unfold share in ground arith in
      rw (nonzero, s.same)
        (drop_surplus-empties (share active 0 g) g.partition w e (rw enough h) s.first)

  pub shed-empties :
      (gs : List Group) (g : Group) (w : World) {gs' : List Group}
      → Memᴰ g gs
      → g.partition ≡ p
      → AtMost p g.count w.tables
      → (shed srv active 0 gs w).0 ≡ ok gs'
      → Emptied p (shed srv active 0 gs w).1.tables
  unfolding shed
  shed-empties [] g w m e h done = elim m [ ]
  shed-empties (x ∷ gs) g w (Memᴰ.head same) e h done =
      let s = bind-ok (shed_one srv active 0 x) _ w done in
      let r = bind-ok (shed srv active 0 gs) _ _ s.then_ok in
      let first : Emptied p (shed_one srv active 0 x w).1.tables =
        shed_one-empties x w (ap (λ (y : Group). y.partition) (sym same) ∙ e)
          (omega (arith, ap (λ (y : Group). y.count) same)) s.first in
      rw (s.same, r.same) ((shed-Emptied gs).at (shed_one srv active 0 x w).1 first)
  shed-empties (x ∷ gs) g w (Memᴰ.tail m) e h done =
      let s = bind-ok (shed_one srv active 0 x) _ w done in
      let r = bind-ok (shed srv active 0 gs) _ _ s.then_ok in
      rw (s.same, r.same) (shed-empties gs g _ m e ((shed_one-AtMost g.count x).at w h) r.first)

  pub assign_zero-Emptied : (n : ℕ) → Keeps (Emptied p) (assign_jobs_to_partition srv 0 n)
  unfolding assign_jobs_to_partition
  assign_zero-Emptied n = Keeps-write srv _ λ k t h. Emptied-move p positive t _ h

  pub notify_all-Emptied : (vs : List ℕ) → Keeps (Emptied p) (notify_all srv vs)
  unfolding notify_all notify
  notify_all-Emptied [] = search keeps_rules
  notify_all-Emptied (v ∷ vs) =
      Keeps-bind _ _ (Keeps-write srv _ λ k t h. h) (λ _. notify_all-Emptied vs)
