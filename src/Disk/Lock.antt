-- ===== src/Disk/Lock.antt =====
-- The lock that `ReadAt` and `WriteAt` take for accesses that are not aligned, in a run of one
-- thread: it is free again at the end.
use virtual_disks.Base.{ℕ, ◌≡◌, ◌≢◌, refl, sym, ◌∙◌, ap, fun_ext, subst, Bool, true, false, arith}
use virtual_disks.Vddk.{World}
use virtual_disks.Effects.{
  Prog, ret, unlock, set_at, set_at_self, Machine, run, Ensures, Ensures-bind, Ensures-weaken,
}
use virtual_disks.Disk.Handle.{with_lock}

set_at_twice : (f : ℕ → Bool) (m : ℕ) → f m ≡ false → set_at (set_at f m true) m false ≡ f
set_at_twice f m h = fun_ext (λ j. ground (arith, ap f))

module _ {W : World} {A : Type 0} (m : ℕ) (p : Prog A) (s : Machine W)
    (P : A → Machine W → Type 0) where
  -- What `p` is to do, whoever holds which mutex meanwhile: leave the mutexes, and reach `P`.
  abbrev pub Works : (ℕ → Bool) → Type 0
  Works held =
      Ensures (run p (record s { held = held }))
        (λ a t. (t.held ≡ held) × P a (record t { held = s.held }))

  unlock_end :
      (a : A) (t : Machine W)
      → s.held m ≡ false
      → t.held ≡ set_at s.held m true
      → P a (record t { held = s.held })
      → Ensures (run (unlock m (ret a)) t) P
  unfolding run
  unlock_end a t free e h =
      let taken : t.held m ≡ true = (λ i. e i m) ∙ set_at_self s.held m true in
      rw (taken, run)
        (subst (λ held. P a (record t { held = held }))
          (sym (ap (λ g. set_at g m false) e ∙ set_at_twice s.held m free)) h)

  -- Under a lock that is free at the start, `p` runs with that lock held or not, and with every
  -- other lock as it was.
  pub with_lock-Ensures :
      (locked : Bool)
      → s.held m ≡ false
      → ((held : ℕ → Bool) → ((j : ℕ) → j ≢ m → held j ≡ s.held j) → Works held)
      → Ensures (run (with_lock locked m p) s) P
  unfolding with_lock run
  with_lock-Ensures false free h =
      Ensures-weaken (run p s) (λ a t. (t.held ≡ s.held) × P a (record t { held = s.held })) P
        (λ a t k. subst (λ held. P a (record t { held = held })) (sym k.0) k.1)
        (h s.held (λ j ne. refl))
  with_lock-Ensures true free h = rw free (
      Ensures-bind p _ (record s { held = set_at s.held m true })
        (λ a t. (t.held ≡ set_at s.held m true) × P a (record t { held = s.held })) P
        (h (set_at s.held m true) (λ j ne. ground (arith, ne)))
        (λ a t k. unlock_end a t free k.0 k.1))
