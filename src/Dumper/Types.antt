-- ===== src/Dumper/Types.antt =====
-- The structs of dumper/cbt.go, `VadpDumper` and the connection parameters of dumper/dumper.go.
use virtual_disks.Base.{ℕ, Bool, true, false, Option, none, some, List, String}
use virtual_disks.Base.Int.{ℤ}
use virtual_disks.Effects.{Prog}
use virtual_disks.Disklib.Types.{ConnectParams, VddkError, VixDiskLibInfo, new_connect_params, nbd}
use virtual_disks.Disklib.Session
use virtual_disks.Disk.Handle.{GoError, DiskConnectHandle}

pub record ConnParams : Type 0 where
  pub vm_mo_ref : String
  pub vsphere_host_name : String
  pub vsphere_host_port : ℤ
  pub vsphere_username : String
  pub vsphere_password : String
  pub vsphere_thumb_print : String
  pub vsphere_snapshot_mo_ref : String

pub record DiskParams : Type 0 where
  pub disk_path : String
  pub disk_path_root : String
  pub change_id : String

-- In bytes.
pub record ChangedArea : Type 0 where
  pub start : ℤ
  pub length : ℤ

pub record DiskChangeInfo : Type 0 where
  pub start_offset : ℤ
  pub length : ℤ
  pub changed_area : List ChangedArea

-- The named values, and any other number.
pub data DumpMode : Type 0 where
  dump_blocks dump_backup dump_clone dump_restore : DumpMode
  other_mode : (value : ℤ) → DumpMode

pub record VddkParams : Type 0 where
  pub identity : String
  pub conn_params : ConnParams
  pub disk_params : DiskParams

-- A nil pointer is `none`.
pub record VadpDumper : Type 0 where
  pub vddk_params : VddkParams
  pub dump_mode : DumpMode
  pub remote_conn_params : Option ConnectParams
  pub remote_connect : Option ℕ
  pub remote_handle : Option ℕ
  pub remote_disk_info : Option VixDiskLibInfo
  pub read_handle : Option DiskConnectHandle
  pub write_handle : Option DiskConnectHandle
  pub local_conn_params : Option ConnectParams
  pub local_connect : Option ℕ
  pub local_handle : Option ℕ
  pub change_info : Option DiskChangeInfo

-- `ErrConnParam`, `ErrDiskHandle`, what a disk handle returned, and errors that `fmt.Errorf` made
-- around another one, whose line break at the end of the text is left out.
pub data DumpError : Type 0 where
  err_conn_param : DumpError
  err_disk_handle : DumpError
  of_handle : GoError → DumpError
  around : (text : String) → DumpError → DumpError
  around_vix : (text : String) → Option VddkError → DumpError

-- The flag is `VIXDISKLIB_FLAG_OPEN_READ_ONLY` of the C library, or nothing.
unfoldable pub get_disk_lib_flag : (read_only_flag : ℕ) → DumpMode → ℕ
get_disk_lib_flag flag DumpMode.dump_blocks = flag
get_disk_lib_flag flag DumpMode.dump_backup = flag
get_disk_lib_flag flag DumpMode.dump_clone = 0
get_disk_lib_flag flag DumpMode.dump_restore = 0
get_disk_lib_flag flag (DumpMode.other_mode value) = 0

unfoldable pub is_read_only : DumpMode → Bool
is_read_only DumpMode.dump_restore = false
is_read_only _ = true

unfoldable pub new_vadp_dumper : VddkParams → DumpMode → VadpDumper
new_vadp_dumper vp dm = record {
  vddk_params = vp;
  dump_mode = dm;
  remote_conn_params = none;
  remote_connect = none;
  remote_handle = none;
  remote_disk_info = none;
  read_handle = none;
  write_handle = none;
  local_conn_params = none;
  local_connect = none;
  local_handle = none;
  change_info = none;
}

unfoldable pub set_remote_conn_params :
    (read_only_flag : ℕ) → VadpDumper → (read_only : Bool) → VadpDumper
set_remote_conn_params flag d read_only =
    let conn = d.vddk_params.conn_params in
    record d {
      remote_conn_params = some (
          new_connect_params conn.vm_mo_ref conn.vsphere_host_name conn.vsphere_thumb_print
            conn.vsphere_username conn.vsphere_password "" "" "" "" d.vddk_params.identity
            d.vddk_params.disk_params.disk_path_root (get_disk_lib_flag flag d.dump_mode) read_only
            conn.vsphere_snapshot_mo_ref nbd);
    }

unfoldable pub set_local_conn_params :
    VadpDumper → (disk_name : String) → (read_only : Bool) → VadpDumper
set_local_conn_params d disk_name read_only = record d {
  local_conn_params =
      some (new_connect_params "" "" "" "" "" "" "" "" "" "" disk_name 0 read_only "" "");
}

pub record VddkVersion : Type 0 where
  pub major : ℕ
  pub minor : ℕ
  pub lib_path : String

unfoldable pub vddk_lib_init : VddkVersion → Prog (Option VddkError)
vddk_lib_init ver = Session.init ver.major ver.minor ver.lib_path

unfoldable pub vddk_lib_de_init : Prog (Unit {0})
vddk_lib_de_init = Session.exit

-- `params := *d.RemoteConnParams`, an error where it is nil, and the rest of the function.
abbrev pub with_params :
    {A : Type 0} → Option ConnectParams → Prog A → (ConnectParams → Prog A) → Prog A
with_params none bad good = bad
with_params (some params) bad good = good params
