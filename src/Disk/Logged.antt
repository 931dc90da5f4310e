-- ===== src/Disk/Logged.antt =====
-- A call of the library whose error ends the function: what the log has after it, on both branches.
use virtual_disks.Base.{ℕ, ◌≡◌, ◌≢◌, sym, ap, ◌∙◌, subst, Option, ◌∷◌}
use virtual_disks.Vddk.{World}
use virtual_disks.Effects.{Prog, ◌>>=◌, Machine, run, Ensures, Ensures-bind}
use virtual_disks.Disklib.Types.{VddkError, vix_ok}
use virtual_disks.Disklib.Log.{Event, logging, Logs, Takes, Gives}
use virtual_disks.Disk.Handle.{unless_error}
use virtual_disks.Disk.Errors.{unless_error-Ensures}

module _ (W : World) {A : Type 0} (s : Machine (logging W)) (asked : Prog (Option VddkError))
    (event : ℕ → Event) (bad : VddkError → Prog A) (good : Prog A)
    (Q : A → Machine (logging W) → Type 0) where
  -- It is enough to go on from a refusal, with its code, and from success.
  pub step_or_error :
      Ensures (run asked s) (λ e t. Logs s.lib.0 event e t.lib.0)
      → ((x : VddkError) (t : Machine (logging W)) (code : ℕ)
          → code ≢ vix_ok
          → t.lib.0 ≡ event code ∷ s.lib.0
          → Ensures (run (bad x) t) Q)
      → ((t : Machine (logging W)) → t.lib.0 ≡ event vix_ok ∷ s.lib.0 → Ensures (run good t) Q)
      → Ensures (run (asked >>= λ e. unless_error e bad good) s) Q
  step_or_error logs refused granted =
      Ensures-bind asked (λ e. unless_error e bad good) s _ Q logs
        (λ e t (code, at, gives).
          unless_error-Ensures t _ e _ _
            (λ x failed. refused x t code (subst (Gives code) failed gives) at)
            (λ ok. granted t (at ∙ ap (λ c. event c ∷ s.lib.0) (subst (Gives code) ok gives))))

-- The same of a call that gives a handle.
module _ (W : World) {A : Type 0} (s : Machine (logging W)) (asked : Prog (ℕ × Option VddkError))
    (event : (handle code : ℕ) → Event) (bad : VddkError → Prog A) (good : ℕ → Prog A)
    (Q : A → Machine (logging W) → Type 0) where
  pub handle_or_error :
      Ensures (run asked s) (λ r t. Takes s.lib.0 event r t.lib.0)
      → ((x : VddkError) (t : Machine (logging W)) (handle code : ℕ)
          → code ≢ vix_ok
          → t.lib.0 ≡ event handle code ∷ s.lib.0
          → Ensures (run (bad x) t) Q)
      → ((handle : ℕ) (t : Machine (logging W))
          → t.lib.0 ≡ event handle vix_ok ∷ s.lib.0
          → Ensures (run (good handle) t) Q)
      → Ensures (run (asked >>= λ r. unless_error r.1 bad (good r.0)) s) Q
  handle_or_error takes refused granted =
      Ensures-bind asked (λ r. unless_error r.1 bad (good r.0)) s
        (λ r t. Takes s.lib.0 event r t.lib.0) Q takes
        (λ (given, e) t (handle, (code, at, gives), same).
          unless_error-Ensures t _ e _ _
            (λ x failed. refused x t handle code (subst (Gives code) failed gives) at)
            (λ ok. granted given t (
              at
              ∙ ap (λ h. event h code ∷ s.lib.0) (sym (same ok))
              ∙ ap (λ c. event given c ∷ s.lib.0) (subst (Gives code) ok gives))))
