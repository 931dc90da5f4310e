-- ===== src/Threads/Serial/Moves.antt =====
-- The steps of goroutines whose programs are sections of one mutex.
use virtual_disks.Base.{
  ℕ, ◌≡◌, ◌≢◌, refl, sym, ap, ◌∙◌, ◌⊎◌, inl, inr, Bool, true, false, Option, none, some, List, [],
  ◌∷◌, ◌==◌, Bool-cases, arith,
}
use virtual_disks.Vddk.{World}
use virtual_disks.Effects.{
  Prog, ret, panic, lock, unlock, load, store, call, Machine, set_at, set_at_self,
}
use virtual_disks.Threads.{move}
use virtual_disks.Threads.Sections.{InSection, IsSection}
use virtual_disks.Threads.Serial.{left}

module _ {W : World} {A : Type 0} (programs : ℕ → Prog A) (s₀ : Machine W) (m : ℕ)
    (sections : (i : ℕ) → IsSection m (programs i)) where
  -- Where the mutex is held, no other goroutine moves.
  pub left-waits :
      (runs : List (ℕ × A)) (i : ℕ) (s : Machine W)
      → s.held m ≡ true
      → move (left programs s₀ runs i) s ≡ none
  unfolding move IsSection
  left-waits [] i s taken = section_waits (programs i) (sections i)
    where
      section_waits : (p : Prog A) → IsSection m p → move p s ≡ none
      section_waits (ret a) h = refl
      section_waits panic h = refl
      section_waits (lock j p) h = ground (arith, h, taken)
      section_waits (unlock j p) h = absurd h
      section_waits (load c k) h = absurd h
      section_waits (store c v p) h = absurd h
      section_waits (call c k) h = absurd h
  left-waits ((j, a) ∷ runs) i s taken = elim (Bool-cases (i == j)) [
    | inl same ↦ rw same refl
    | inr other ↦ rw other (left-waits runs i s taken)
  ]

  -- After a step of the goroutine that holds the mutex: it holds it still, or has ended.
  abbrev pub Continues : Option (Prog A × Machine W) → Type 0
  Continues none = Unit
  Continues (some (q, t)) =
      (InSection m q × (t.held m ≡ true)) ⊎ ((a : A) × (q ≡ ret a) × (t.held m ≡ false))

  set_at_other : (f : ℕ → Bool) (j : ℕ) (b : Bool) → j ≢ m → f m ≡ true → set_at f j b m ≡ true
  set_at_other f j b ne h = ground (arith, ne)

  set_at_there : (f : ℕ → Bool) (j : ℕ) → j ≡ m → set_at f j false m ≡ false
  set_at_there f j e = ground (arith, e)

  pub move-Continues :
      (p : Prog A) (s : Machine W) → InSection m p → s.held m ≡ true → Continues (move p s)
  unfolding move InSection
  move-Continues (ret a) s inside taken = absurd inside
  move-Continues panic s inside taken = tt
  move-Continues (lock j p) s inside taken =
      elim (s.held j)
        as (λ b.
          Continues
            (elim b [ true ↦ none | false ↦ some (p, record s { held = set_at s.held j true }) ])) [
              | true ↦ tt
              | false ↦ inl (inside.1, set_at_other s.held j true inside.0 taken)
            ]
  move-Continues (unlock j p) s inside taken =
      elim (s.held j)
        as (λ b.
          Continues (elim b [
            | true ↦ some (p, record s { held = set_at s.held j false })
            | false ↦ none
          ])) [
            | true ↦ elim inside [
              | inl (e, (a, q)) ↦ inr (a, q, set_at_there s.held j e)
              | inr (ne, h) ↦ inl (h, set_at_other s.held j false ne taken)
            ]
            | false ↦ tt
          ]
  move-Continues (load c k) s inside taken = inl (inside (s.cells c), taken)
  move-Continues (store c v p) s inside taken = inl (inside, taken)
  move-Continues (call c k) s inside taken = inl (inside (W.answer c s.lib).0, taken)

  abbrev pub Starts : Option (Prog A × Machine W) → Type 0
  Starts none = Unit
  Starts (some (q, t)) = InSection m q × (t.held m ≡ true)

  pub move-Starts : (p : Prog A) (s : Machine W) → IsSection m p → Starts (move p s)
  unfolding move IsSection
  move-Starts (ret a) s h = tt
  move-Starts panic s h = tt
  move-Starts (lock j p) s h =
      elim (s.held j)
        as (λ b.
          Starts
            (elim b [ true ↦ none | false ↦ some (p, record s { held = set_at s.held j true }) ])) [
              | true ↦ tt
              | false ↦ (h.1, ap (set_at s.held j true) (sym h.0) ∙ set_at_self s.held j true)
            ]
  move-Starts (unlock j p) s h = absurd h
  move-Starts (load c k) s h = absurd h
  move-Starts (store c v p) s h = absurd h
  move-Starts (call c k) s h = absurd h
