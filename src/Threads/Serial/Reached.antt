-- ===== src/Threads/Serial/Reached.antt =====
-- What goroutines whose programs are sections of one mutex can reach.
use virtual_disks.Base.{
  ℕ, ◌≡◌, refl, sym, ap, ◌∙◌, ◌⊎◌, inl, inr, true, false, some, List, [], ◌∷◌, ◌==◌, ==_iff,
  Bool-cases, subst,
}
use virtual_disks.Vddk.{World}
use virtual_disks.Effects.{Prog, ret, Machine, run, set_at, set_at_self}
use virtual_disks.Threads.{System, move, Step, pick, Reach, start, later}
use virtual_disks.Threads.Sections.{InSection, IsSection}
use virtual_disks.Threads.Serial.{
  run-move, move_ret, run_ret, set_at_ne, Serially, nobody, after, left, left_cases, IsQuiet,
  IsBusy, IsSerial,
}
use virtual_disks.Threads.Serial.Moves.{left-waits, Continues, move-Continues, Starts, move-Starts}

module _ {W : World} {A : Type 0} (programs : ℕ → Prog A) (s₀ : Machine W) (m : ℕ)
    (sections : (i : ℕ) → IsSection m (programs i)) where
  module _ (s : System W A) (i : ℕ) (p : Prog A) (t : Machine W)
      (moved : move (s.threads i) s.machine ≡ some (p, t)) where
    abbrev stepped : System W A
    stepped = record { machine = t; threads = set_at s.threads i p }

    quiet_step :
        (runs : List (ℕ × A)) → IsQuiet programs s₀ m runs s → IsSerial programs s₀ m stepped
    quiet_step runs q = elim (left_cases programs s₀ runs i) [
      | inl (fresh, e) ↦
          let starts : move (programs i) s.machine ≡ some (p, t) =
            ap (λ x. move x s.machine) (sym (q.threads i ∙ e)) ∙ moved in
          let inside =
            subst (Starts programs s₀ m sections) starts
              (move-Starts programs s₀ m sections (programs i) s.machine (sections i)) in
          inr (
            runs,
            i,
            s.machine,
            record {
              explained = q.explained;
              fresh = fresh;
              others = λ k ne. set_at_ne s.threads i p k ne ∙ q.threads k;
              inside = subst (InSection m) (sym (set_at_self s.threads i p)) inside.0;
              goes_on =
                  ap (λ x. run x t) (set_at_self s.threads i p)
                  ∙ sym (run-move (programs i) p s.machine t starts);
              taken = inside.1;
            },
          )
      | inr (a, e) ↦ absurd (ret_stays a (q.threads i ∙ e))
    ]
      where
        ret_stays : (a : A) → s.threads i ≡ ret a → ⊥
        ret_stays a e = cc (ap (λ x. move x s.machine) e, moved, move_ret a s.machine)

    busy_step :
        (runs : List (ℕ × A)) (j : ℕ) (t₀ : Machine W)
        → IsBusy programs s₀ m runs j t₀ s
        → IsSerial programs s₀ m stepped
    busy_step runs j t₀ b = elim (Bool-cases (i == j)) [
      | inl same ↦ own_step ((==_iff i j).0 same)
      | inr other ↦ cc (
        left-waits programs s₀ m sections runs i s.machine b.taken,
        ap (λ x. move x s.machine) (b.others i (λ e. cc ((==_iff i j).1 e, other))),
        moved,
      )
    ]
      where
        own_step : i ≡ j → IsSerial programs s₀ m stepped
        own_step same = elim continued [
          | inl (inside, taken) ↦ inr (
            runs,
            j,
            t₀,
            record {
              explained = b.explained;
              fresh = b.fresh;
              others = λ k ne. set_at_ne s.threads i p k (λ e. ne (e ∙ same)) ∙ b.others k ne;
              inside = subst (InSection m) (sym here) inside;
              goes_on = ap (λ x. run x t) here ∙ ended;
              taken = taken;
            },
          )
          | inr (a, e, free) ↦ inl (
            (j, a) ∷ runs,
            record {
              explained = after b.explained b.fresh (sym ended ∙ ap (λ x. run x t) e ∙ run_ret a t);
              threads = λ k. elim (Bool-cases (k == j)) [
                | inl at ↦ rw at (ap (set_at s.threads i p) ((==_iff k j).0 at) ∙ here ∙ e)
                | inr away ↦ rw away (
                    set_at_ne s.threads i p k (λ x. cc ((==_iff k j).1 (x ∙ same), away))
                    ∙ b.others k (λ x. cc ((==_iff k j).1 x, away)))
              ];
              free = free;
            },
          )
        ]
          where
            own : move (s.threads j) s.machine ≡ some (p, t)
            own = ap (λ k. move (s.threads k) s.machine) (sym same) ∙ moved

            here : set_at s.threads i p j ≡ p
            here = ap (set_at s.threads i p) (sym same) ∙ set_at_self s.threads i p

            continued :
                (InSection m p × (t.held m ≡ true)) ⊎ ((a : A) × (p ≡ ret a) × (t.held m ≡ false))
            continued =
                subst (Continues programs s₀ m sections) own
                  (move-Continues programs s₀ m sections (s.threads j) s.machine b.inside b.taken)

            ended : run p t ≡ run (programs j) t₀
            ended = sym (run-move (s.threads j) p s.machine t own) ∙ b.goes_on

  Step-IsSerial :
      {s u : System W A} → Step s u → IsSerial programs s₀ m s → IsSerial programs s₀ m u
  Step-IsSerial {s} (pick i {p} {t} moved) (inl (runs, q)) = quiet_step s i p t moved runs q
  Step-IsSerial {s} (pick i {p} {t} moved) (inr (runs, j, t₀, b)) =
      busy_step s i p t moved runs j t₀ b

  pub Reach-IsSerial :
      {s : System W A}
      → s₀.held m ≡ false
      → Reach (record { machine = s₀; threads = programs }) s
      → IsSerial programs s₀ m s
  Reach-IsSerial free start =
      inl ([], record { explained = nobody; threads = λ i. refl; free = free })
  Reach-IsSerial free (later r st) = Step-IsSerial st (Reach-IsSerial free r)

  -- Whenever the mutex is free, the machine is as if some of the programs had run alone, one after
  -- another; these goroutines have ended with the results of those runs, and the others have not
  -- started.
  pub Reach-Serially :
      {s : System W A}
      → s₀.held m ≡ false
      → Reach (record { machine = s₀; threads = programs }) s
      → s.machine.held m ≡ false
      → (runs : List (ℕ × A)) × Serially programs s₀ runs s.machine
        × ((i : ℕ) → s.threads i ≡ left programs s₀ runs i)
  Reach-Serially free r free_now = elim (Reach-IsSerial free r) [
    | inl (runs, q) ↦ (runs, q.explained, q.threads)
    | inr (runs, j, t, b) ↦ cc (b.taken, free_now)
  ]
