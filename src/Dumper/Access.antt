-- ===== src/Dumper/Access.antt =====
-- `PrepareForAccess`, `EndAccess` and `libCleanup` of dumper/dumper.go: the retry loops. The waits
-- between two attempts are left out.
pub mod Attempts
use virtual_disks.Base.{ℕ, zero, suc, Option, none, some}
use virtual_disks.Effects.{◌>>=◌, ◌>>◌, Prog, ret}
use virtual_disks.Disklib.Types.{ConnectParams, VddkError}
use virtual_disks.Disklib.Session
use virtual_disks.Disk.Handle.{unless_error}
use virtual_disks.Dumper.Types.{VadpDumper, DumpError, err_conn_param, around_vix, with_params}

-- `for i := 0; i < 10; i++`, with `last` as `errVix`.
unfoldable pub prepare_loop :
    (attempts : ℕ) → ConnectParams → (last : Option VddkError) → Prog (Option DumpError)
prepare_loop zero params last = ret (some (around_vix "PrepareForAccess error: %v" last))
prepare_loop (suc n) params last = do
  err ← Session.prepare_for_access params
  unless_error err (λ e. do Session.end_access params; prepare_loop n params (some e)) (ret none)

unfoldable pub prepare_for_access : VadpDumper → Prog (Option DumpError)
prepare_for_access d =
    with_params d.remote_conn_params (ret (some err_conn_param))
      (λ params. prepare_loop 10 params none)

unfoldable pub lib_cleanup : ConnectParams → Prog (Unit {0})
lib_cleanup params = do Session.cleanup params 0 0; ret tt

unfoldable pub end_loop :
    (attempts : ℕ) → ConnectParams → (last : Option VddkError) → Prog (Option DumpError)
unfolding lib_cleanup
end_loop zero params last = ret (some (around_vix "EndAccess error: %v" last))
end_loop (suc n) params last = do
  err ← Session.end_access params
  unless_error err (λ e. end_loop n params (some e)) (do lib_cleanup params; ret none)

unfoldable pub end_access : VadpDumper → Prog (Option DumpError)
end_access d =
    with_params d.remote_conn_params (ret (some err_conn_param)) (λ params. end_loop 30 params none)
