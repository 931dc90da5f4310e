-- ===== src/Disk/Errors.antt =====
-- `if err != nil { return ... }` in a run.
use virtual_disks.Base.{◌≡◌, refl, Option, none, some}
use virtual_disks.Vddk.{World}
use virtual_disks.Effects.{Prog, Machine, run, Ensures}
use virtual_disks.Disklib.Types.{VddkError}
use virtual_disks.Disk.Handle.{unless_error}

module _ {W : World} {A : Type 0} (s : Machine W) (P : A → Machine W → Type 0) where
  pub unless_error-Ensures :
      (err : Option VddkError) (bad : VddkError → Prog A) (good : Prog A)
      → ((e : VddkError) → err ≡ some e → Ensures (run (bad e) s) P)
      → (err ≡ none → Ensures (run good s) P)
      → Ensures (run (unless_error err bad good) s) P
  unless_error-Ensures none bad good h k = k refl
  unless_error-Ensures (some e) bad good h k = h e refl
