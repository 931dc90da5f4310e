-- ===== src/Threads/Progress.antt =====
-- Goroutines whose programs are sections of one mutex, and how a run of them can go on.
pub mod Turns
use virtual_disks.Base.{
  ℕ, ◌≡◌, ◌≢◌, refl, sym, ap, ◌∙◌, ◌⊎◌, inl, inr, true, false, some, [], Bool-cases, arith, subst,
}
use virtual_disks.Vddk.{World}
use virtual_disks.Effects.{
  Prog, ret, panic, lock, unlock, load, store, call, Machine, run, Outcome, done, blocked, panicked,
  set_at, set_at_self, Ensures,
}
use virtual_disks.Threads.{System, move, pick, Reach, start, later}
use virtual_disks.Threads.Sections.{InSection, IsSection}
use virtual_disks.Threads.Serial.{run-move, run_ret, set_at_ne}
use virtual_disks.Threads.Serial.Moves.{Continues, move-Continues}

module _ {W : World} {A : Type 0} where
  pub Reach-trans : {s t u : System W A} → Reach s t → Reach t u → Reach s u
  Reach-trans r start = r
  Reach-trans r (later q st) = later (Reach-trans r q) st

  pub Ensures-done :
      (o : Outcome W A) (P : A → Machine W → Type 0)
      → Ensures o P
      → (a : A) × (t : Machine W) × (o ≡ done a t)
  Ensures-done (done a t) P h = (a, t, refl)
  Ensures-done panicked P h = absurd h
  Ensures-done blocked P h = absurd h

  done_machine : (b a : A) (v t : Machine W) → done b v ≡ done a t → v ≡ t
  done_machine b a v t e = cc e

  move_lock :
      (j : ℕ) (p : Prog A) (s : Machine W)
      → s.held j ≡ false
      → move (lock j p) s ≡ some (p, record s { held = set_at s.held j true })
  unfolding move
  move_lock j p s free = ground (arith, free)

  move_unlock :
      (j : ℕ) (p : Prog A) (s : Machine W)
      → s.held j ≡ true
      → move (unlock j p) s ≡ some (p, record s { held = set_at s.held j false })
  unfolding move
  move_unlock j p s held = ground (arith, held)

  run_lock : (j : ℕ) (p : Prog A) (s : Machine W) → s.held j ≡ true → run (lock j p) s ≡ blocked
  unfolding run
  run_lock j p s held = ground (arith, held)

  run_unlock :
      (j : ℕ) (p : Prog A) (s : Machine W) → s.held j ≡ false → run (unlock j p) s ≡ panicked
  unfolding run
  run_unlock j p s free = ground (arith, free)

  -- Goroutine `i` alone has gone on and returned `a`, with the machine at `t`.
  pub record IsFinished (m : ℕ) (s : System W A) (i : ℕ) (a : A) (t : Machine W) (u : System W A)
      : Type 0 where
    pub reached : Reach s u
    pub machine : u.machine ≡ t
    pub mine : u.threads i ≡ ret a
    pub others : (j : ℕ) → j ≢ i → u.threads j ≡ s.threads j
    pub free : t.held m ≡ false

  module _ (programs : ℕ → Prog A) (s₀ : Machine W) (m : ℕ)
      (sections : (i : ℕ) → IsSection m (programs i)) where
    abbrev pub Finishes : System W A → ℕ → A → Machine W → Type 0
    Finishes s i a t = (u : System W A) × IsFinished m s i a t u

    step_inside :
        (s : System W A) (i : ℕ) (a : A) (t : Machine W) (p q : Prog A) (v : Machine W)
        → s.threads i ≡ p
        → move p s.machine ≡ some (q, v)
        → InSection m p
        → s.machine.held m ≡ true
        → run p s.machine ≡ done a t
        → ((s' : System W A)
            → s'.threads i ≡ q
            → InSection m q
            → s'.machine.held m ≡ true
            → run q s'.machine ≡ done a t
            → Finishes s' i a t)
        → Finishes s i a t
    step_inside s i a t p q v at moved inside taken ran goes_on =
        elim (subst (Continues programs s₀ m sections) moved
          (move-Continues programs s₀ m sections p s.machine inside taken)) [
            | inl (inside', taken') ↦
                let (u, h) = goes_on s' mine inside' taken' ran' in
                (
                  u,
                  record {
                    reached = Reach-trans stepped h.reached;
                    machine = h.machine;
                    mine = h.mine;
                    others = λ j ne. h.others j ne ∙ set_at_ne s.threads i q j ne;
                    free = h.free;
                  },
                )
            | inr (b, is_ret, free) ↦
                let e : done b v ≡ done a t =
                  sym (run_ret b v) ∙ ap (λ x. run x v) (sym is_ret) ∙ ran' in
                (
                  s',
                  record {
                    reached = stepped;
                    machine = cc e;
                    mine = mine ∙ is_ret ∙ ap ret (cc e);
                    others = λ j ne. set_at_ne s.threads i q j ne;
                    free = cc (ap (λ (x : Machine W). x.held m) (done_machine b a v t e), free);
                  },
                )
          ]
      where
        s' : System W A
        s' = record { machine = v; threads = set_at s.threads i q }

        mine : set_at s.threads i q i ≡ q
        mine = set_at_self s.threads i q

        ran' : run q v ≡ done a t
        ran' = sym (run-move p q s.machine v moved) ∙ ran

        stepped : Reach s s'
        stepped = later start (pick i (ap (λ x. move x s.machine) at ∙ moved))

    pub finish_inside :
        (p : Prog A) (s : System W A) (i : ℕ) (a : A) (t : Machine W)
        → s.threads i ≡ p
        → InSection m p
        → s.machine.held m ≡ true
        → run p s.machine ≡ done a t
        → Finishes s i a t
    unfolding move InSection run
    finish_inside (ret b) s i a t at inside taken ran = absurd inside
    finish_inside panic s i a t at inside taken ran = cc ran
    finish_inside (lock j p) s i a t at inside taken ran = elim (Bool-cases (s.machine.held j)) [
      | inl held ↦ cc (run_lock j p s.machine held, ran)
      | inr free ↦
          step_inside s i a t (lock j p) p
            (record (s.machine) { held = set_at s.machine.held j true }) at
            (move_lock j p s.machine free) inside taken ran
            (λ s' at' inside' taken' ran'. finish_inside p s' i a t at' inside' taken' ran')
    ]
    finish_inside (unlock j p) s i a t at inside taken ran = elim (Bool-cases (s.machine.held j)) [
      | inl held ↦
          step_inside s i a t (unlock j p) p
            (record (s.machine) { held = set_at s.machine.held j false }) at
            (move_unlock j p s.machine held) inside taken ran
            (λ s' at' inside' taken' ran'. finish_inside p s' i a t at' inside' taken' ran')
      | inr free ↦ cc (run_unlock j p s.machine free, ran)
    ]
    finish_inside (load c k) s i a t at inside taken ran =
        step_inside s i a t (load c k) (k (s.machine.cells c)) (s.machine) at refl inside taken ran
          (λ s' at' inside' taken' ran'.
            finish_inside (k (s.machine.cells c)) s' i a t at' inside' taken' ran')
    finish_inside (store c v p) s i a t at inside taken ran =
        step_inside s i a t (store c v p) p
          (record (s.machine) { cells = set_at s.machine.cells c v }) at refl inside taken ran
          (λ s' at' inside' taken' ran'. finish_inside p s' i a t at' inside' taken' ran')
    finish_inside (call c k) s i a t at inside taken ran =
        let (r, lib') = W.answer c s.machine.lib in
        step_inside s i a t (call c k) (k r) (record (s.machine) { lib = lib' }) at refl inside
          taken ran
          (λ s' at' inside' taken' ran'. finish_inside (k r) s' i a t at' inside' taken' ran')

    pub finish_section :
        (p : Prog A) (s : System W A) (i : ℕ) (a : A) (t : Machine W)
        → s.threads i ≡ p
        → IsSection m p
        → s.machine.held m ≡ false
        → run p s.machine ≡ done a t
        → (p ≡ ret a) ⊎ Finishes s i a t
    unfolding IsSection run
    finish_section (ret b) s i a t at section free ran = inl (ap ret (cc ran))
    finish_section panic s i a t at section free ran = cc ran
    finish_section (lock j p) s i a t at (own, inside) free ran =
        let free_j : s.machine.held j ≡ false = ap s.machine.held own ∙ free in
        let v : Machine W = record (s.machine) { held = set_at s.machine.held j true } in
        let moved = move_lock j p s.machine free_j in
        let (u, h) =
          finish_inside p (record { machine = v; threads = set_at s.threads i p }) i a t
            (set_at_self s.threads i p) inside
            (ap (set_at s.machine.held j true) (sym own) ∙ set_at_self s.machine.held j true)
            (sym (run-move (lock j p) p s.machine v moved) ∙ ran) in
        inr (
          u,
          record {
            reached =
                Reach-trans (later start (pick i (ap (λ x. move x s.machine) at ∙ moved)))
                  h.reached;
            machine = h.machine;
            mine = h.mine;
            others = λ k ne. h.others k ne ∙ set_at_ne s.threads i p k ne;
            free = h.free;
          },
        )
    finish_section (unlock j p) s i a t at section free ran = absurd section
    finish_section (load c k) s i a t at section free ran = absurd section
    finish_section (store c v p) s i a t at section free ran = absurd section
    finish_section (call c k) s i a t at section free ran = absurd section
