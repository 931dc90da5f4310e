-- ===== src/Disklib/Session.antt =====
-- Starting and ending the library and the access to a virtual machine: `Init` to `Cleanup` in
-- pkg/disklib/gvddk_api.go.
use virtual_disks.Base.{ℕ, Option, none, some, String, ◌==◌, if◌then◌else◌}
use text.Mathlib.Text.{◌==◌ as str_eq}
use virtual_disks.Vddk.{Call}
use virtual_disks.Effects.{Prog, ret, ◌>>=◌, perform}
use virtual_disks.Disklib.Types.{ConnectParams, VddkError, vix_ok, check}
use virtual_disks.Disklib.Params.{prepare_connect_params}

unfoldable pub init : (major minor : ℕ) → String → Prog (Option VddkError)
init major minor dir = do
  result ← perform (Call.init_ex major minor dir none)
  ret (check result "Initialize failed. The error code is %d.")

unfoldable pub init_ex : (major minor : ℕ) → (dir config_file : String) → Prog (Option VddkError)
init_ex major minor dir config_file = do
  result ←
      perform
        (Call.init_ex major minor dir (if str_eq config_file "" then none else some config_file))
  ret (check result "Initialize failed. The error code is %d.")

-- A connection that failed is the zero value `VixDiskLibConnection{}`, a nil pointer.
abbrev pub nil_on_error : (err conn : ℕ) → ℕ
nil_on_error err conn = if err == vix_ok then conn else 0

unfoldable pub connect : ConnectParams → Prog (ℕ × Option VddkError)
connect app = do
  cnx ← prepare_connect_params app
  (err, conn) ← perform (Call.connect cnx)
  ret (nil_on_error err conn, check err "Connect failed. The error code is %d.")

unfoldable pub connect_ex : ConnectParams → Prog (ℕ × Option VddkError)
connect_ex app = do
  cnx ← prepare_connect_params app
  (err, conn) ← perform (Call.connect_ex cnx app.read_only app.snapshot_ref app.mode)
  ret (nil_on_error err conn, check err "ConnectEx failed. The error code is %d.")

unfoldable pub prepare_for_access : ConnectParams → Prog (Option VddkError)
prepare_for_access app = do
  cnx ← prepare_connect_params app
  result ← perform (Call.prepare_for_access cnx app.identity)
  ret (check result "Prepare for access failed. The error code is %d.")

unfoldable pub end_access : ConnectParams → Prog (Option VddkError)
end_access app = do
  cnx ← prepare_connect_params app
  result ← perform (Call.end_access cnx app.identity)
  ret (check result "End access failed. The error code is %d.")

unfoldable pub disconnect : ℕ → Prog (Option VddkError)
disconnect conn = do
  res ← perform (Call.disconnect conn)
  ret (check res "Disconnect failed. The error code is %d.")

unfoldable pub exit : Prog (Unit {0})
exit = perform Call.exit

unfoldable pub cleanup : ConnectParams → (num_clean_up num_remaining : ℕ) → Prog (Option VddkError)
cleanup app num_clean_up num_remaining = do
  cnx ← prepare_connect_params app
  res ← perform (Call.cleanup cnx num_clean_up num_remaining)
  ret (check res "Clean up failed. The error code is %d.")
