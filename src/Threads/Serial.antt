-- ===== src/Threads/Serial.antt =====
-- Goroutines whose programs are sections of one mutex, beside runs of one program after another.
pub mod Moves
pub mod Reached
use virtual_disks.Base.{
  ℕ, ◌≡◌, ◌≢◌, refl, ap, ◌⊎◌, inl, inr, true, false, Option, none, some, List, [], ◌∷◌, ◌==◌,
  if◌then◌else◌, ==_iff, Bool-cases, arith,
}
use virtual_disks.Vddk.{World}
use virtual_disks.Effects.{
  Prog, ret, panic, lock, unlock, load, store, call, Machine, run, done, set_at,
}
use virtual_disks.Threads.{System, move}
use virtual_disks.Threads.Sections.{InSection}

module _ {W : World} {A : Type 0} where
  -- A step does not change where the program alone would end.
  pub run-move : (p q : Prog A) (s t : Machine W) → move p s ≡ some (q, t) → run p s ≡ run q t
  unfolding move run
  run-move (ret a) q s t e = cc
  run-move panic q s t e = cc
  run-move (lock m p) q s t e = ground arith
  run-move (unlock m p) q s t e = ground arith
  run-move (load c k) q s t e = ground arith
  run-move (store c v p) q s t e = ground arith
  run-move (call c k) q s t e =
      ap (λ (o : Option (Prog A × Machine W)). elim o [ none ↦ run q t | some x ↦ run x.0 x.1 ]) e

  pub move_ret : (a : A) (s : Machine W) → move (ret a) s ≡ none
  unfolding move
  move_ret a s = refl

  pub run_ret : (a : A) (s : Machine W) → run (ret a) s ≡ done a s
  unfolding run
  run_ret a s = refl

pub set_at_ne {ℓ} : {A : Type ℓ} (f : ℕ → A) (k : ℕ) (a : A) (j : ℕ) → j ≢ k → set_at f k a j ≡ f j
set_at_ne f k a j ne = elim (Bool-cases (j == k)) [
  | inl e ↦ absurd (ne ((==_iff j k).0 e))
  | inr e ↦ rw e refl
]

module _ {W : World} {A : Type 0} (programs : ℕ → Prog A) (s₀ : Machine W) where
  -- Not among those that have run.
  abbrev pub IsFresh : List (ℕ × A) → ℕ → Type 0
  IsFresh [] i = Unit
  IsFresh ((j, a) ∷ runs) i = (i ≢ j) × IsFresh runs i

  -- The programs named, the last first, run alone one after another, each with the result named.
  pub data Serially : List (ℕ × A) → Machine W → Type 0 where
    nobody : Serially [] s₀
    after :
        {runs : List (ℕ × A)} {s t : Machine W} {i : ℕ} {a : A}
        → Serially runs s
        → IsFresh runs i
        → run (programs i) s ≡ done a t
        → Serially ((i, a) ∷ runs) t

  -- What is left of a goroutine after these runs.
  abbrev pub left : List (ℕ × A) → ℕ → Prog A
  left [] i = programs i
  left ((j, a) ∷ runs) i = if i == j then ret a else left runs i

  pub left_cases :
      (runs : List (ℕ × A)) (i : ℕ)
      → (IsFresh runs i × (left runs i ≡ programs i)) ⊎ ((a : A) × (left runs i ≡ ret a))
  left_cases [] i = inl (tt, refl)
  left_cases ((j, a) ∷ runs) i = elim (Bool-cases (i == j)) [
    | inl same ↦ inr (a, rw same refl)
    | inr other ↦ elim (left_cases runs i) [
      | inl (fresh, e) ↦ inl (((λ (e : i ≡ j). cc ((==_iff i j).1 e, other)), fresh), rw other e)
      | inr (b, e) ↦ inr (b, rw other e)
    ]
  ]

  module _ (m : ℕ) where
    -- Nobody holds the mutex.
    pub record IsQuiet (runs : List (ℕ × A)) (s : System W A) : Type 0 where
      pub explained : Serially runs s.machine
      pub threads : (i : ℕ) → s.threads i ≡ left runs i
      pub free : s.machine.held m ≡ false

    -- Goroutine `j` holds the mutex; it took it when the machine was `t`.
    pub record IsBusy (runs : List (ℕ × A)) (j : ℕ) (t : Machine W) (s : System W A) : Type 0 where
      pub explained : Serially runs t
      pub fresh : IsFresh runs j
      pub others : (i : ℕ) → i ≢ j → s.threads i ≡ left runs i
      pub inside : InSection m (s.threads j)
      pub goes_on : run (s.threads j) s.machine ≡ run (programs j) t
      pub taken : s.machine.held m ≡ true

    abbrev pub IsSerial : System W A → Type 0
    IsSerial s =
        ((runs : List (ℕ × A)) × IsQuiet runs s)
        ⊎ ((runs : List (ℕ × A)) × (j : ℕ) × (t : Machine W) × IsBusy runs j t s)
