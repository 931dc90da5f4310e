-- ===== src/Threads.antt =====
-- Goroutines: any number of programs on one machine, one visible step at a time, in any order. A
-- goroutine that has returned or panicked takes no further step; that a panic ends the whole process
-- only leaves out what the others would do after it. A lock that is taken makes its goroutine wait.
pub mod Sections
pub mod Serial
pub mod Progress
use virtual_disks.Base.{ℕ, true, false, Option, none, some, List, [], ◌∷◌, ◌≡◌, refl}
use virtual_disks.Vddk.{World}
use virtual_disks.Effects.{Prog, ret, panic, lock, unlock, load, store, call, Machine, set_at}

module _ (W : World) (A : Type 0) where
  pub record System : Type 0 where
    pub machine : Machine W
    pub threads : ℕ → Prog A

module _ {W : World} {A : Type 0} where
  -- The next step of a program, if it can take one.
  unfoldable pub move : Prog A → Machine W → Option (Prog A × Machine W)
  move (ret a) s = none
  move panic s = none
  move (lock m p) s = elim (s.held m) [
    | true ↦ none
    | false ↦ some (p, record s { held = set_at s.held m true })
  ]
  move (unlock m p) s = elim (s.held m) [
    | true ↦ some (p, record s { held = set_at s.held m false })
    | false ↦ none
  ]
  move (load c k) s = some (k (s.cells c), s)
  move (store c v p) s = some (p, record s { cells = set_at s.cells c v })
  move (call c k) s = let (r, lib') = W.answer c s.lib in some (k r, record s { lib = lib' })

  -- One goroutine takes a step.
  pub data Step (s : System W A) : System W A → Type 0 where
    pick :
        (i : ℕ) {p : Prog A} {t : Machine W}
        → move (s.threads i) s.machine ≡ some (p, t)
        → Step s (record { machine = t; threads = set_at s.threads i p })

  pub data Reach (s : System W A) : System W A → Type 0 where
    start : Reach s s
    later : {t u : System W A} → Reach s t → Step t u → Reach s u

  -- The goroutines that a schedule names take their steps; one that cannot is passed over.
  unfoldable pub take_step : ℕ → System W A → System W A
  take_step i s = elim (move (s.threads i) s.machine) [
    | none ↦ s
    | some (p, t) ↦ record { machine = t; threads = set_at s.threads i p }
  ]

  unfoldable pub follow : List ℕ → System W A → System W A
  unfolding take_step
  follow [] s = s
  follow (i ∷ is) s = follow is (take_step i s)

  take_step-Reach : (i : ℕ) (s t : System W A) → Reach s t → Reach s (take_step i t)
  unfolding take_step
  take_step-Reach i s t r =
      (elim (move (t.threads i) t.machine)
          as (λ o.
            move (t.threads i) t.machine ≡ o
            → Reach s (elim o [
              | none ↦ t
              | some (p, m) ↦ record { machine = m; threads = set_at t.threads i p }
            ])) [ none ↦ λ e. r | some (p, m) ↦ λ e. later r (pick i e) ])
        refl

  -- What a schedule reaches is reachable.
  pub follow-Reach : (is : List ℕ) (s t : System W A) → Reach s t → Reach s (follow is t)
  unfolding follow
  follow-Reach [] s t r = r
  follow-Reach (i ∷ is) s t r = follow-Reach is s (take_step i t) (take_step-Reach i s t r)
