-- ===== src/Disk/Opening/Asked.antt =====
-- The calls of the library that `Open` makes, with their handles and their codes.
use virtual_disks.Base.{ℕ, ◌≡◌, ◌≢◌, refl, sym, ap, ◌∙◌, subst, none, some, ◌∷◌, String}
use virtual_disks.Vddk.{World}
use virtual_disks.Effects.{ret, ◌>>◌, Machine, run, Ensures, Ensures-bind}
use virtual_disks.Disklib.Types.{ConnectParams, VddkError, vix_ok}
use virtual_disks.Disklib.Session.{prepare_for_access, connect_ex, end_access, disconnect}
use virtual_disks.Disklib.Images.{open_disk}
use virtual_disks.Disklib.Io.{get_info}
use virtual_disks.Disklib.Log.{
  Log, logging, Logs, Gives, prepares, ends, connects, disconnects, opens, describes, prepare-Logs,
  end-Logs, connect_ex-Logs, disconnect-Logs, open_disk-Logs, get_info-Logs,
}
use virtual_disks.Disk.Errors.{unless_error-Ensures}
use virtual_disks.Disk.Logged.{step_or_error, handle_or_error}
use virtual_disks.Disk.Handle.{new_disk_handle}
use virtual_disks.Disk.Stream.{new_disk_reader_writer}
use virtual_disks.Disk.Opening.{Fresh, Opened, open_stream}

-- An access, a connection and a disk, each granted, and the disk described.
abbrev pub taken : (identity : String) → (conn dli : ℕ) → Log → Log
taken identity conn dli log =
    describes dli vix_ok ∷ opens dli vix_ok ∷ connects conn vix_ok ∷ prepares identity vix_ok ∷ log

-- What `Open` has asked for where it fails, by the step that failed: also the end of what was granted
-- before that step, but for the disk where its description is what failed.
pub data IsRefused (identity : String) (before : Log) : Log → Type 0 where
  no_access :
      {code : ℕ} → code ≢ vix_ok → IsRefused identity before (prepares identity code ∷ before)
  no_connection :
      {conn code a : ℕ}
      → code ≢ vix_ok
      → IsRefused identity before
          (ends identity a ∷ connects conn code ∷ prepares identity vix_ok ∷ before)
  no_disk :
      {conn dli code a b : ℕ}
      → code ≢ vix_ok
      → IsRefused identity before (
          ends identity b
          ∷ disconnects conn a
          ∷ opens dli code
          ∷ connects conn vix_ok
          ∷ prepares identity vix_ok
          ∷ before)
  no_info :
      {conn dli code a b : ℕ}
      → code ≢ vix_ok
      → IsRefused identity before (
          ends identity b
          ∷ disconnects conn a
          ∷ describes dli code
          ∷ opens dli vix_ok
          ∷ connects conn vix_ok
          ∷ prepares identity vix_ok
          ∷ before)

abbrev pub IsOpened : ConnectParams → Log → Opened → Log → Type 0
IsOpened params before (some d, none) now =
    (d.disk_handle.params ≡ params)
    × (now ≡ taken params.identity d.disk_handle.conn d.disk_handle.dli before)
IsOpened params before (none, some e) now = IsRefused params.identity before now
IsOpened params before (some d, some e) now = ⊥
IsOpened params before (none, none) now = ⊥

module _ (W : World) (fresh : Fresh) (params : ConnectParams) where
  -- The connection and the access are given back.
  give_back :
      (before log : Log) (s : Machine (logging W)) (conn : ℕ) (e : VddkError)
      → s.lib.0 ≡ log
      → ((a b : ℕ)
          → IsRefused params.identity before (ends params.identity b ∷ disconnects conn a ∷ log))
      → Ensures
          (run (disconnect conn >> (end_access params >> ret (none, some e))) s)
          (λ r t. IsOpened params before r t.lib.0)
  unfolding run
  give_back before log s conn e so_far refused =
      Ensures-bind (disconnect conn) _ s (λ x t. Logs s.lib.0 (disconnects conn) x t.lib.0) _
        (disconnect-Logs W s conn)
        (λ x t (a, at, _).
          Ensures-bind (end_access params) _ t
            (λ y u. Logs t.lib.0 (ends params.identity) y u.lib.0) _ (end-Logs W t params)
            (λ y u (b, at', _).
              subst (IsRefused params.identity before)
                (sym (
                  at'
                  ∙ ap (◌∷◌ (ends params.identity b)) (at ∙ ap (◌∷◌ (disconnects conn a)) so_far)))
                (refused a b)))

  pub open_stream-IsOpened :
      (s : Machine (logging W))
      → Ensures (run (open_stream fresh params) s) (λ r t. IsOpened params s.lib.0 r t.lib.0)
  unfolding open_stream run new_disk_reader_writer new_disk_handle
  open_stream-IsOpened s =
      let identity = params.identity in
      step_or_error W s (prepare_for_access params) (prepares identity) _ _ _
        (prepare-Logs W s params)
        (λ x t code refused at. subst (IsRefused identity s.lib.0) (sym at) (no_access refused))
        (λ t at.
          handle_or_error W t (connect_ex params) connects _ _ _ (connect_ex-Logs W t params)
            (λ x u conn code refused at'.
              Ensures-bind (end_access params) _ u (λ y v. Logs u.lib.0 (ends identity) y v.lib.0) _
                (end-Logs W u params)
                (λ y v (a, at'', _).
                  subst (IsRefused identity s.lib.0)
                    (sym
                      (at'' ∙ ap (◌∷◌ (ends identity a)) (at' ∙ ap (◌∷◌ (connects conn code)) at)))
                    (no_connection refused)))
            (λ conn u at'.
              let at = at' ∙ ap (◌∷◌ (connects conn vix_ok)) at in
              handle_or_error W u (open_disk conn params) opens _ _ _
                (open_disk-Logs W u conn params)
                (λ x v dli code refused at'.
                  give_back s.lib.0 _ v conn x (at' ∙ ap (◌∷◌ (opens dli code)) at)
                    (λ a b. no_disk refused))
                (λ dli v at'.
                  let at = at' ∙ ap (◌∷◌ (opens dli vix_ok)) at in
                  Ensures-bind (get_info dli) _ v _ _ (get_info-Logs W v dli)
                    (λ r w (code, at', gives).
                      let at = at' ∙ ap (◌∷◌ (describes dli code)) at in
                      unless_error-Ensures w _ r.1 _ _
                        (λ x failed.
                          give_back s.lib.0 _ w conn x at
                            (λ a b. no_info (subst (Gives code) failed gives)))
                        (λ ok. (
                          refl,
                          at ∙ ap (λ c. describes dli c ∷ _) (subst (Gives code) ok gives),
                        ))))))
