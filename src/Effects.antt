-- ===== src/Effects.antt =====
-- Go code as the tree of the steps that others can see: taking and giving back a `sync.Mutex`,
-- reading and writing a shared variable, and a call of VixDiskLib. The code of
-- pkg/virtual_disks/gvddk.go and pkg/disklib is translated into such trees, which one handler
-- runs; `panic` is a Go run-time panic. Mutexes and shared variables are named by numbers, as
-- `&mutex` and `&offset` name them in Go.
pub mod Only
use virtual_disks.Base.{
  ℕ, Bool, true, false, Option, none, some, ◌≡◌, refl, ◌==◌, ==_iff, if◌then◌else◌,
}
use virtual_disks.Base.Int.{ℤ}
use virtual_disks.Vddk.{Call, Reply, World}

pub data Prog (A : Type 0) : Type 0 where
  ret : A → Prog A
  panic : Prog A
  lock : (mutex : ℕ) → Prog A → Prog A
  unlock : (mutex : ℕ) → Prog A → Prog A
  load : (cell : ℕ) → (ℤ → Prog A) → Prog A
  store : (cell : ℕ) → ℤ → Prog A → Prog A
  call : (c : Call) → (Reply c → Prog A) → Prog A

infixl 5 ◌>>=◌ ◌>>◌
abbrev pub ◌>>=◌ : {A B : Type 0} → Prog A → (A → Prog B) → Prog B
ret a >>= f = f a
panic >>= f = panic
lock m p >>= f = lock m (p >>= f)
unlock m p >>= f = unlock m (p >>= f)
load c k >>= f = load c (λ v. k v >>= f)
store c v p >>= f = store c v (p >>= f)
call c k >>= f = call c (λ r. k r >>= f)

abbrev pub ◌>>◌ : {A B : Type 0} → Prog A → Prog B → Prog B
p >> q = p >>= λ _. q

-- One step each.
abbrev pub take_lock : ℕ → Prog (Unit {0})
take_lock m = lock m (ret tt)

abbrev pub give_lock : ℕ → Prog (Unit {0})
give_lock m = unlock m (ret tt)

abbrev pub get : ℕ → Prog ℤ
get c = load c ret

abbrev pub put : ℕ → ℤ → Prog (Unit {0})
put c v = store c v (ret tt)

abbrev pub perform : (c : Call) → Prog (Reply c)
perform c = call c ret

-- A Go expression that panics where it has no value.
abbrev pub or_panic : {A : Type 0} → Option A → Prog A
or_panic none = panic
or_panic (some a) = ret a

abbrev pub set_at {ℓ} : {A : Type ℓ} → (ℕ → A) → ℕ → A → ℕ → A
set_at f k a j = if j == k then a else f j

pub set_at_self {ℓ} : {A : Type ℓ} (f : ℕ → A) (k : ℕ) (a : A) → set_at f k a k ≡ a
set_at_self f k a = rw ((==_iff k k).1 refl)

module _ (W : World) where
  -- Which mutexes are held, the shared variables, and the state of the library.
  pub record Machine : Type 0 where
    pub held : ℕ → Bool
    pub cells : ℕ → ℤ
    pub lib : W.State

-- `blocked`: the mutex that is wanted is held, and in a run of one thread nobody gives it back.
pub data Outcome (W : World) (A : Type 0) : Type 0 where
  done : A → Machine W → Outcome W A
  panicked : Outcome W A
  blocked : Outcome W A

module _ {W : World} where
  -- A run of one thread. Unlocking a mutex that is not held is a fatal error in Go.
  unfoldable pub run : {A : Type 0} → Prog A → Machine W → Outcome W A
  run (ret a) s = done a s
  run panic s = panicked
  run (lock m p) s = elim (s.held m) [
    | true ↦ blocked
    | false ↦ run p (record s { held = set_at s.held m true })
  ]
  run (unlock m p) s = elim (s.held m) [
    | true ↦ run p (record s { held = set_at s.held m false })
    | false ↦ panicked
  ]
  run (load c k) s = run (k (s.cells c)) s
  run (store c v p) s = run p (record s { cells = set_at s.cells c v })
  run (call c k) s = let (r, lib') = W.answer c s.lib in run (k r) (record s { lib = lib' })

  -- The run ends with a result, and the result and the last state are as `P` says.
  abbrev pub Ensures : {A : Type 0} → Outcome W A → (A → Machine W → Type 0) → Type 0
  Ensures (done a s) P = P a s
  Ensures panicked P = ⊥
  Ensures blocked P = ⊥

  -- Sequencing.
  pub Ensures-bind :
      {A B : Type 0} (p : Prog A) (f : A → Prog B) (s : Machine W) (P : A → Machine W → Type 0)
      (Q : B → Machine W → Type 0)
      → Ensures (run p s) P
      → ((a : A) (t : Machine W) → P a t → Ensures (run (f a) t) Q)
      → Ensures (run (p >>= f) s) Q
  unfolding run
  Ensures-bind (ret a) f s P Q h k = k a s h
  Ensures-bind panic f s P Q h k = h
  Ensures-bind (lock m p) f s P Q h k =
      (elim (s.held m)
          as (λ b.
            Ensures
              (elim b [ true ↦ blocked | false ↦ run p (record s { held = set_at s.held m true }) ])
              P
            → Ensures
                (elim b [
                  | true ↦ blocked
                  | false ↦ run (p >>= f) (record s { held = set_at s.held m true })
                ])
                Q) [
                  | true ↦ λ x. x
                  | false ↦ λ x. Ensures-bind p f (record s { held = set_at s.held m true }) P Q x k
                ])
        h
  Ensures-bind (unlock m p) f s P Q h k =
      (elim (s.held m)
          as (λ b.
            Ensures
              (elim b [
                | true ↦ run p (record s { held = set_at s.held m false })
                | false ↦ panicked
              ])
              P
            → Ensures
                (elim b [
                  | true ↦ run (p >>= f) (record s { held = set_at s.held m false })
                  | false ↦ panicked
                ])
                Q) [
                  | true ↦ λ x. Ensures-bind p f (record s { held = set_at s.held m false }) P Q x k
                  | false ↦ λ x. x
                ])
        h
  Ensures-bind (load c g) f s P Q h k = Ensures-bind (g (s.cells c)) f s P Q h k
  Ensures-bind (store c v p) f s P Q h k =
      Ensures-bind p f (record s { cells = set_at s.cells c v }) P Q h k
  Ensures-bind (call c g) f s P Q h k =
      let (r, lib') = W.answer c s.lib in Ensures-bind (g r) f (record s { lib = lib' }) P Q h k

  -- A weaker postcondition.
  pub Ensures-weaken :
      {A : Type 0} (o : Outcome W A) (P Q : A → Machine W → Type 0)
      → ((a : A) (t : Machine W) → P a t → Q a t)
      → Ensures o P
      → Ensures o Q
  Ensures-weaken (done a s) P Q k h = k a s h
  Ensures-weaken panicked P Q k h = h
  Ensures-weaken blocked P Q k h = h

  pub Ensures-both :
      {A : Type 0} (o : Outcome W A) (P Q : A → Machine W → Type 0)
      → Ensures o P
      → Ensures o Q
      → Ensures o (λ a t. P a t × Q a t)
  Ensures-both (done a s) P Q h k = (h, k)
  Ensures-both panicked P Q h k = h
  Ensures-both blocked P Q h k = h
