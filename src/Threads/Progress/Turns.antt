-- ===== src/Threads/Progress/Turns.antt =====
-- Goroutines whose programs are sections of one mutex, one turn after another.
use virtual_disks.Base.{
  ℕ, zero, suc, ◌<◌, ◌≡◌, ◌≢◌, refl, sym, ap, ◌∙◌, inl, inr, false, List, ◌∷◌, ◌==◌, ==_iff,
  Bool-cases, arith, subst,
}
use virtual_disks.Vddk.{World}
use virtual_disks.Effects.{Prog, ret, Machine, run, done}
use virtual_disks.Threads.{System, Reach, start}
use virtual_disks.Threads.Sections.{IsSection}
use virtual_disks.Threads.Serial.{IsFresh, Serially, after, left, left_cases, IsQuiet}
use virtual_disks.Threads.Serial.Reached.{Reach-IsSerial}
use virtual_disks.Threads.Progress.{Reach-trans, IsFinished, finish_inside, finish_section}

less_but_last : (i n : ℕ) → i < suc n → (i == n) ≡ false → i < n
less_but_last i n less other = ground (arith, less, other)

-- The first `n` goroutines have ended, in a state in which nobody holds the mutex.
pub record AllEnd {W : World} {A : Type 0} (m n : ℕ) (s u : System W A) : Type 0 where
  pub reached : Reach s u
  pub ended : (i : ℕ) → i < n → (a : A) × (u.threads i ≡ ret a)
  pub free : u.machine.held m ≡ false

module _ {W : World} {A : Type 0} (programs : ℕ → Prog A) (s₀ : Machine W) (m : ℕ)
    (sections : (i : ℕ) → IsSection m (programs i)) where
  abbrev Quiet : List (ℕ × A) → System W A → Type 0
  Quiet runs s = IsQuiet programs s₀ m runs s

  Quiet-after :
      (runs : List (ℕ × A)) (s u : System W A) (i : ℕ) (a : A) (before t : Machine W)
      → Serially programs s₀ runs before
      → IsFresh programs s₀ runs i
      → run (programs i) before ≡ done a t
      → ((k : ℕ) → k ≢ i → s.threads k ≡ left programs s₀ runs k)
      → IsFinished m s i a t u
      → Quiet ((i, a) ∷ runs) u
  Quiet-after runs s u i a before t explained fresh ran others h = record {
    explained =
        subst (Serially programs s₀ ((i, a) ∷ runs)) (sym h.machine) (after explained fresh ran);
    threads = λ k. elim (Bool-cases (k == i)) [
      | inl at ↦ rw at (ap u.threads ((==_iff k i).0 at) ∙ h.mine)
      | inr away ↦ rw away (
          h.others k (λ x. cc ((==_iff k i).1 x, away))
          ∙ others k (λ x. cc ((==_iff k i).1 x, away)))
    ];
    free = ap (λ (x : Machine W). x.held m) h.machine ∙ h.free;
  }

  module _
      (ends : (runs : List (ℕ × A)) (t : Machine W) (i : ℕ)
        → Serially programs s₀ runs t
        → IsFresh programs s₀ runs i
        → (a : A) × (u : Machine W) × (run (programs i) t ≡ done a u)) where
    abbrev Settles : System W A → Type 0
    Settles s = (runs : List (ℕ × A)) × (u : System W A) × Reach s u × Quiet runs u

    -- Whoever holds the mutex can go on until it is free.
    Reach-Settles :
        {s : System W A}
        → s₀.held m ≡ false
        → Reach (record { machine = s₀; threads = programs }) s
        → Settles s
    Reach-Settles {s} free r = elim (Reach-IsSerial programs s₀ m sections free r) [
      | inl (runs, q) ↦ (runs, s, start, q)
      | inr (runs, j, t, b) ↦
          let (a, v, ran) = ends runs t j b.explained b.fresh in
          let (u, h) =
            finish_inside programs s₀ m sections (s.threads j) s j a v refl b.inside b.taken
              (b.goes_on ∙ ran) in
          (
            (j, a) ∷ runs,
            u,
            h.reached,
            Quiet-after runs s u j a t v b.explained b.fresh ran b.others h,
          )
    ]

    -- The goroutine `i` has its turn.
    abbrev HasEnded : System W A → ℕ → Type 0
    HasEnded s i = (a : A) × (s.threads i ≡ ret a)

    -- A turn of `i` in a state in which nobody holds the mutex, and nobody who has ended is undone.
    record IsTurn (s : System W A) (i : ℕ) (u : System W A) : Type 0 where
      reached : Reach s u
      ended : HasEnded u i
      kept : (j : ℕ) → HasEnded s j → HasEnded u j

    turn :
        (runs : List (ℕ × A)) (s : System W A) (i : ℕ)
        → Quiet runs s
        → (runs' : List (ℕ × A)) × (u : System W A) × IsTurn s i u × Quiet runs' u
    turn runs s i q = elim (left_cases programs s₀ runs i) [
      | inr (b, e) ↦
          (runs, s, record { reached = start; ended = (b, q.threads i ∙ e); kept = λ j h. h }, q)
      | inl (fresh, e) ↦
          let (a, t, ran) = ends runs s.machine i q.explained fresh in
          elim (finish_section programs s₀ m sections (programs i) s i a t (q.threads i ∙ e)
            (sections i) q.free ran) [
              | inl is_ret ↦ (
                runs,
                s,
                record { reached = start; ended = (a, q.threads i ∙ e ∙ is_ret); kept = λ j h. h },
                q,
              )
              | inr (u, h) ↦ (
                (i, a) ∷ runs,
                u,
                record {
                  reached = h.reached;
                  ended = (a, h.mine);
                  kept = λ j (b, f). elim (Bool-cases (j == i)) [
                    | inl same ↦ (a, ap u.threads ((==_iff j i).0 same) ∙ h.mine)
                    | inr other ↦ (b, h.others j (λ x. cc ((==_iff j i).1 x, other)) ∙ f)
                  ];
                },
                Quiet-after runs s u i a s.machine t q.explained fresh ran (λ k ne. q.threads k) h,
              )
            ]
    ]

    turns :
        (n : ℕ) (runs : List (ℕ × A)) (s : System W A)
        → Quiet runs s
        → (runs' : List (ℕ × A)) × (u : System W A) × AllEnd m n s u × Quiet runs' u
    turns zero runs s q = (
      runs,
      s,
      record { reached = start; ended = λ i less. absurd (omega (arith, less)); free = q.free },
      q,
    )
    turns (suc n) runs s q =
        let (runs', u, all, q') = turns n runs s q in
        let (runs'', v, mine, q'') = turn runs' u n q' in
        (
          runs'',
          v,
          record {
            reached = Reach-trans all.reached mine.reached;
            ended = λ i less. elim (Bool-cases (i == n)) [
              | inl same ↦ (mine.ended.0, ap v.threads ((==_iff i n).0 same) ∙ mine.ended.1)
              | inr other ↦ mine.kept i (all.ended i (less_but_last i n less other))
            ];
            free = q''.free;
          },
          q'',
        )

    -- From every state that can be reached, the run can go on to one in which the first `n`
    -- goroutines have ended.
    pub Reach-AllEnd :
        (n : ℕ) {s : System W A}
        → s₀.held m ≡ false
        → Reach (record { machine = s₀; threads = programs }) s
        → (u : System W A) × AllEnd m n s u
    Reach-AllEnd n free r =
        let (runs, u, settled, q) = Reach-Settles free r in
        let (runs', v, all, q') = turns n runs u q in
        (
          v,
          record { reached = Reach-trans settled all.reached; ended = all.ended; free = all.free },
        )
