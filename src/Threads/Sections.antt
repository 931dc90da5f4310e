-- ===== src/Threads/Sections.antt =====
-- Programs that do all their work between taking one mutex and giving it back.
use virtual_disks.Base.{ℕ, ◌≡◌, ◌≢◌, true, refl, ap, ◌⊎◌, inl, inr}
use virtual_disks.Base.Int.{ℤ}
use virtual_disks.Vddk.{Reply}
use virtual_disks.Effects.{Prog, ret, panic, lock, unlock, load, store, call, ◌>>=◌}
use virtual_disks.Disk.Handle.{with_lock}
use virtual_disks.Effects.Only.{Action, Only}

-- Everything but `mutex`.
abbrev pub Avoids : (mutex : ℕ) → Action → Type 0
Avoids m (Action.locks j) = j ≢ m
Avoids m (Action.unlocks j) = j ≢ m
Avoids m _ = Unit

module _ {A : Type 0} (mutex : ℕ) where
  -- What is left of a program that holds the mutex: it takes it no second time, and when it gives it
  -- back it has ended.
  unfoldable pub InSection : Prog A → Type 0
  InSection (ret a) = ⊥
  InSection panic = Unit
  InSection (lock j p) = (j ≢ mutex) × InSection p
  InSection (unlock j p) = ((j ≡ mutex) × ((a : A) × (p ≡ ret a))) ⊎ ((j ≢ mutex) × InSection p)
  InSection (load c k) = (v : ℤ) → InSection (k v)
  InSection (store c v p) = InSection p
  InSection (call c k) = (r : Reply c) → InSection (k r)

  -- A program that has not started: it returns at once, panics, or takes the mutex first.
  unfoldable pub IsSection : Prog A → Type 0
  unfolding InSection
  IsSection (ret a) = Unit
  IsSection panic = Unit
  IsSection (lock j p) = (j ≡ mutex) × InSection p
  IsSection _ = ⊥

module _ {A : Type 0} (mutex : ℕ) where
  -- A body that leaves the mutex alone, and the mutex given back with the result.
  InSection-unlock :
      (p : Prog A) → Only (Avoids mutex) p → InSection mutex (p >>= λ a. unlock mutex (ret a))
  unfolding InSection Only
  InSection-unlock (ret a) h = inl (refl, (a, refl))
  InSection-unlock panic h = tt
  InSection-unlock (lock j p) h = (h.0, InSection-unlock p h.1)
  InSection-unlock (unlock j p) h = inr (h.0, InSection-unlock p h.1)
  InSection-unlock (load c k) h = λ v. InSection-unlock (k v) (h.1 v)
  InSection-unlock (store c v p) h = InSection-unlock p h.1
  InSection-unlock (call c k) h = λ r. InSection-unlock (k r) (h.1 r)

module _ {A B : Type 0} (mutex : ℕ) where
  InSection-map :
      (p : Prog A) (f : A → B) → InSection mutex p → InSection mutex (p >>= λ a. ret (f a))
  unfolding InSection
  InSection-map (ret a) f h = h
  InSection-map panic f h = tt
  InSection-map (lock j p) f h = (h.0, InSection-map p f h.1)
  InSection-map (unlock j p) f (inl (e, (a, q))) =
      inl (e, (f a, ap (λ (x : Prog A). x >>= λ y. ret (f y)) q))
  InSection-map (unlock j p) f (inr (e, h)) = inr (e, InSection-map p f h)
  InSection-map (load c k) f h = λ v. InSection-map (k v) f (h v)
  InSection-map (store c v p) f h = InSection-map p f h
  InSection-map (call c k) f h = λ r. InSection-map (k r) f (h r)

  -- The whole call: take the mutex, do the work, give it back, return.
  pub with_lock-IsSection :
      (p : Prog A) (f : A → B)
      → Only (Avoids mutex) p
      → IsSection mutex (with_lock true mutex p >>= λ a. ret (f a))
  unfolding IsSection with_lock
  with_lock-IsSection p f h =
      (refl, InSection-map (p >>= λ a. unlock mutex (ret a)) f (InSection-unlock mutex p h))

  pub IsSection-map :
      (p : Prog A) (f : A → B) → IsSection mutex p → IsSection mutex (p >>= λ a. ret (f a))
  unfolding IsSection
  IsSection-map (ret a) f h = tt
  IsSection-map panic f h = tt
  IsSection-map (lock j p) f h = (h.0, InSection-map p f h.1)
  IsSection-map (unlock j p) f h = absurd h
  IsSection-map (load c k) f h = absurd h
  IsSection-map (store c v p) f h = absurd h
  IsSection-map (call c k) f h = absurd h
