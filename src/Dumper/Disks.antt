-- ===== src/Dumper/Disks.antt =====
-- Opening the remote and the local disk and giving them back: `OpenRemoteDisk`, `ReadLocalDisk`,
-- `CreateLocalDisk` and `Cleanup` of dumper/dumper.go. `mutex` is the one that `NewDiskHandle`
-- allocates.
pub mod Balance
pub mod Release
pub mod Counted
pub mod Local
use virtual_disks.Base.{ℕ, ◌/◌, ◌%◌, Option, none, some, String}
use virtual_disks.Effects.{◌>>=◌, ◌>>◌, Prog, ret}
use virtual_disks.Disklib.Types.{ConnectParams, sector_size, new_create_params}
use virtual_disks.Disklib.Session.{connect, connect_ex, disconnect}
use virtual_disks.Disklib.Images
use virtual_disks.Disklib.Io.{get_info}
use virtual_disks.Disk.Handle.{DiskConnectHandle, new_disk_handle, unless_error}
use virtual_disks.Dumper.Types.{
  VadpDumper, dump_restore, DumpError, err_conn_param, around_vix, with_params,
}

abbrev pub Dumped : Type 0
Dumped = VadpDumper × Option DumpError

-- `if p != nil { disklib.Close(*p) }`, with the error only logged.
close_if : Option ℕ → Prog (Unit {0})
close_if none = ret tt
close_if (some dli) = do Images.close dli; ret tt

disconnect_if : Option ℕ → Prog (Unit {0})
disconnect_if none = ret tt
disconnect_if (some conn) = do disconnect conn; ret tt

-- The pointers are not reset.
unfoldable pub cleanup : VadpDumper → Prog Dumped
unfolding close_if disconnect_if
cleanup d = do
  close_if d.remote_handle
  disconnect_if d.remote_connect
  close_if d.local_handle
  disconnect_if d.local_connect
  ret (d, none)

-- A disk for writing where the job restores, else for reading.
pub keep_handle : VadpDumper → DiskConnectHandle → VadpDumper
keep_handle d h = elim (d.dump_mode) [
  | dump_restore ↦ record d { write_handle = some h }
  | _ ↦ record d { read_handle = some h }
]

-- With the deferred calls written out where the function returns an error.
unfoldable pub open_remote_disk : (mutex : ℕ) → VadpDumper → Prog Dumped
unfolding keep_handle
open_remote_disk mutex d =
    with_params d.remote_conn_params (ret (d, some err_conn_param)) (λ params. do
      (conn, err) ← connect_ex params
      unless_error err (λ e. ret (d, some (around_vix "disklib.ConnectEx: %v" (some e))))
          do
            let d = record d { remote_connect = some conn }
            (dli, err) ← Images.open_disk conn params
            unless_error err
                (λ e. do disconnect conn; ret (d, some (around_vix "disklib.Open: %v" (some e))))
                do
                  let d = record d { remote_handle = some dli }
                  (info, err) ← get_info dli
                  unless_error err
                      (λ e. do
                        Images.close dli
                        disconnect conn
                        ret (d, some (around_vix "disklib.GetInfo: %v" (some e))))
                      (ret (
                        keep_handle (record d { remote_disk_info = some info })
                            (new_disk_handle mutex dli conn params info),
                        none,
                      )))

-- The part that `ReadLocalDisk` and `CreateLocalDisk` share; `keep` stores the handle.
pub open_local :
    (mutex conn : ℕ)
    → ConnectParams
    → (VadpDumper → DiskConnectHandle → VadpDumper)
    → VadpDumper
    → Prog Dumped
open_local mutex conn params keep d = do
  (dli, err) ← Images.open_disk conn params
  unless_error err (λ e. ret (d, some (around_vix "disklib.Open: %v" (some e))))
      do
        let d = record d { local_handle = some dli }
        (info, err) ← get_info dli
        unless_error err (λ e. ret (d, some (around_vix "disklib.GetInfo: %v" (some e))))
            (ret (keep d (new_disk_handle mutex dli conn params info), none))

unfoldable pub read_local_disk : (mutex : ℕ) → VadpDumper → Prog Dumped
unfolding open_local
read_local_disk mutex d = with_params d.local_conn_params (ret (d, some err_conn_param)) (λ params.
    do
      (conn, err) ← connect params
      unless_error err (λ e. ret (d, some (around_vix "disklib.Connect: %v" (some e))))
          (open_local mutex conn params (λ d h. record d { read_handle = some h })
            (record d { local_connect = some conn })))

-- `disk_type` and `adapter_type` are the two constants of the C library that the code names.
unfoldable pub create_local_disk :
    (disk_type adapter_type mutex : ℕ)
    → VadpDumper
    → (disk_name : String) → (disk_len : ℕ) → Prog Dumped
unfolding open_local
create_local_disk disk_type adapter_type mutex d disk_name disk_len =
    with_params d.local_conn_params (ret (d, some err_conn_param)) (λ params. do
      (conn, err) ← connect params
      unless_error err (λ e. ret (d, some (around_vix "disklib.Connect: %v" (some e))))
          do
            let d = record d { local_connect = some conn }
            err ←
                Images.create conn disk_name
                  (new_create_params disk_type adapter_type 7 (disk_len / sector_size)) ""
            unless_error err (λ e. ret (d, some (around_vix "disklib.Create: %v" (some e))))
                (open_local mutex conn params (λ d h. record d { write_handle = some h }) d))
