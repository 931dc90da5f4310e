-- ===== src/Effects/Only.antt =====
-- Programs that take only steps of a kind, and what such steps leave alone.
use virtual_disks.Base.{ℕ, Bool, true, false, Option, none, some, ◌≡◌, refl, ◌∙◌, if◌then◌else◌}
use virtual_disks.Base.Int.{ℤ}
use virtual_disks.Vddk.{Call, Reply, World}
use virtual_disks.Effects.{
  Prog, ret, panic, lock, unlock, load, store, call, ◌>>=◌, or_panic, Machine, run, set_at, Ensures,
  Ensures-weaken, blocked, panicked,
}

-- What a step does that others can see.
pub data Action : Type 0 where
  locks unlocks : (mutex : ℕ) → Action
  loads stores : (cell : ℕ) → Action
  calls : Call → Action

-- Every step that `p` can take, whatever is answered, is in `Q`.
unfoldable pub Only : {A : Type 0} → (Action → Type 0) → Prog A → Type 0
Only Q (ret a) = Unit
Only Q panic = Unit
Only Q (lock m p) = Q (locks m) × Only Q p
Only Q (unlock m p) = Q (unlocks m) × Only Q p
Only Q (load c k) = Q (loads c) × ((v : ℤ) → Only Q (k v))
Only Q (store c v p) = Q (stores c) × Only Q p
Only Q (call c k) = Q (calls c) × ((r : Reply c) → Only Q (k r))

pub Only-bind :
    {A B : Type 0} (Q : Action → Type 0) (p : Prog A) (f : A → Prog B)
    → Only Q p
    → ((a : A) → Only Q (f a))
    → Only Q (p >>= f)
unfolding Only
Only-bind Q (ret a) f h k = k a
Only-bind Q panic f h k = tt
Only-bind Q (lock m p) f h k = (h.0, Only-bind Q p f h.1 k)
Only-bind Q (unlock m p) f h k = (h.0, Only-bind Q p f h.1 k)
Only-bind Q (load c g) f h k = (h.0, λ v. Only-bind Q (g v) f (h.1 v) k)
Only-bind Q (store c v p) f h k = (h.0, Only-bind Q p f h.1 k)
Only-bind Q (call c g) f h k = (h.0, λ r. Only-bind Q (g r) f (h.1 r) k)

pub Only-ret : {A : Type 0} (Q : Action → Type 0) (a : A) → Only Q (ret a)
unfolding Only
Only-ret Q a = tt

pub Only-call :
    {A : Type 0} (Q : Action → Type 0) (c : Call) (k : Reply c → Prog A)
    → Q (calls c)
    → ((r : Reply c) → Only Q (k r))
    → Only Q (call c k)
unfolding Only
Only-call Q c k h g = (h, g)

pub Only-load :
    {A : Type 0} (Q : Action → Type 0) (c : ℕ) (k : ℤ → Prog A)
    → Q (loads c)
    → ((v : ℤ) → Only Q (k v))
    → Only Q (load c k)
unfolding Only
Only-load Q c k h g = (h, g)

pub Only-store :
    {A : Type 0} (Q : Action → Type 0) (c : ℕ) (v : ℤ) (p : Prog A)
    → Q (stores c)
    → Only Q p
    → Only Q (store c v p)
unfolding Only
Only-store Q c v p h g = (h, g)

pub Only-weaken :
    {A : Type 0} (Q R : Action → Type 0) (p : Prog A)
    → ((a : Action) → Q a → R a)
    → Only Q p
    → Only R p
unfolding Only
Only-weaken Q R (ret a) g h = tt
Only-weaken Q R panic g h = tt
Only-weaken Q R (lock m p) g h = (g (locks m) h.0, Only-weaken Q R p g h.1)
Only-weaken Q R (unlock m p) g h = (g (unlocks m) h.0, Only-weaken Q R p g h.1)
Only-weaken Q R (load c k) g h = (g (loads c) h.0, λ v. Only-weaken Q R (k v) g (h.1 v))
Only-weaken Q R (store c v p) g h = (g (stores c) h.0, Only-weaken Q R p g h.1)
Only-weaken Q R (call c k) g h = (g (calls c) h.0, λ r. Only-weaken Q R (k r) g (h.1 r))

pub Only-if :
    {A : Type 0} (Q : Action → Type 0) (b : Bool) (p q : Prog A)
    → Only Q p
    → Only Q q
    → Only Q (if b then p else q)
Only-if Q true p q h k = h
Only-if Q false p q h k = k

pub Only-or_panic : {A : Type 0} (Q : Action → Type 0) (o : Option A) → Only Q (or_panic o)
unfolding Only
Only-or_panic Q none = tt
Only-or_panic Q (some a) = tt

module _ {W : World} {X : Type 0} (f : W.State → X) (Q : Action → Type 0)
    (keeps : (c : Call) (s : W.State) → Q (calls c) → f (W.answer c s).1 ≡ f s) where
  -- What no call in `Q` changes, the whole run does not change.
  pub run-Only :
      {A : Type 0} (p : Prog A) (s : Machine W) (P : A → Machine W → Type 0)
      → Only Q p
      → Ensures (run p s) P
      → Ensures (run p s) (λ a t. P a t × (f t.lib ≡ f s.lib))
  unfolding run Only
  run-Only (ret a) s P h k = (k, refl)
  run-Only panic s P h k = k
  run-Only (lock m p) s P h k =
      (elim (s.held m)
          as (λ b.
            Ensures
              (elim b [ true ↦ blocked | false ↦ run p (record s { held = set_at s.held m true }) ])
              P
            → Ensures
                (elim b [
                  | true ↦ blocked
                  | false ↦ run p (record s { held = set_at s.held m true })
                ])
                (λ a t. P a t × (f t.lib ≡ f s.lib))) [
                  | true ↦ λ x. x
                  | false ↦ λ x. run-Only p (record s { held = set_at s.held m true }) P h.1 x
                ])
        k
  run-Only (unlock m p) s P h k =
      (elim (s.held m)
          as (λ b.
            Ensures
              (elim b [
                | true ↦ run p (record s { held = set_at s.held m false })
                | false ↦ panicked
              ])
              P
            → Ensures
                (elim b [
                  | true ↦ run p (record s { held = set_at s.held m false })
                  | false ↦ panicked
                ])
                (λ a t. P a t × (f t.lib ≡ f s.lib))) [
                  | true ↦ λ x. run-Only p (record s { held = set_at s.held m false }) P h.1 x
                  | false ↦ λ x. x
                ])
        k
  run-Only (load c g) s P h k = run-Only (g (s.cells c)) s P (h.1 (s.cells c)) k
  run-Only (store c v p) s P h k = run-Only p (record s { cells = set_at s.cells c v }) P h.1 k
  run-Only (call c g) s P h k =
      let (r, lib') = W.answer c s.lib in
      Ensures-weaken (run (g r) (record s { lib = lib' })) _ _
        (λ a t x. (x.0, x.1 ∙ keeps c s.lib h.0))
        (run-Only (g r) (record s { lib = lib' }) P (h.1 r) k)
