-- ===== src/Disk/Opening.antt =====
-- `Open` and `OpenFCD` of pkg/virtual_disks/gvddk.go: prepare the access, connect, open the disk, ask
-- for its description; where a step fails, what the steps before it took is given back.
pub mod Counts
pub mod Asked
pub mod Balance
pub mod Closing
use virtual_disks.Base.{ℕ, Bool, Option, none, some, String}
use virtual_disks.Effects.{◌>>=◌, ◌>>◌, Prog, ret}
use virtual_disks.Disklib.Types.{ConnectParams, VddkError, new_connect_params}
use virtual_disks.Disklib.Session.{prepare_for_access, connect_ex, end_access, disconnect}
use virtual_disks.Disklib.Images.{open_disk}
use virtual_disks.Disklib.Io.{get_info}
use virtual_disks.Disk.Handle.{new_disk_handle, unless_error}
use virtual_disks.Disk.Stream.{DiskReaderWriter, new_disk_reader_writer}

-- The names of the variables that a call allocates: the handle's mutex, and the stream's offset and
-- mutex.
pub record Fresh : Type 0 where
  pub handle_mutex : ℕ
  pub offset : ℕ
  pub mutex : ℕ

-- `DiskReaderWriter{}`, the zero value beside an error, is `none`.
abbrev pub Opened : Type 0
Opened = Option DiskReaderWriter × Option VddkError

unfoldable pub open_stream : Fresh → ConnectParams → Prog Opened
open_stream fresh params = do
  err ← prepare_for_access params
  unless_error err (λ e. ret (none, some e))
      do
        (conn, err) ← connect_ex params
        unless_error err (λ e. do end_access params; ret (none, some e))
            do
              (dli, err) ← open_disk conn params
              unless_error err (λ e. do disconnect conn; end_access params; ret (none, some e))
                  do
                    (info, err) ← get_info dli
                    unless_error err
                        (λ e. do disconnect conn; end_access params; ret (none, some e))
                        do
                          rw ←
                              new_disk_reader_writer fresh.offset fresh.mutex
                                (new_disk_handle fresh.handle_mutex dli conn params info)
                          ret (some rw, none)

unfoldable pub open_fcd :
    Fresh
    → (server_name thumb_print user_name password fcd_id fcdss_id datastore : String) → (flags : ℕ)
    → (read_only : Bool) → (transport_mode identity : String) → Prog Opened
open_fcd fresh server_name thumb_print user_name password fcd_id fcdss_id datastore flags read_only
      transport_mode identity =
    open_stream fresh (
      new_connect_params "" server_name thumb_print user_name password fcd_id datastore fcdss_id ""
        identity "" flags read_only "" transport_mode)
