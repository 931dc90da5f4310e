-- ===== src/Disklib/Types.antt =====
-- Constants, parameter structs and errors of pkg/disklib/gvddk_helper.go, and the two error codes
-- of pkg/disklib/gvddk_errors.go that the code tests.
use virtual_disks.Base.{ℕ, Bool, Option, none, some, List, [], ◌∷◌, String, ◌==◌, if◌then◌else◌}
use virtual_disks.Vddk.{VixDiskLibBlock}

-- `VIXDISKLIB_SECTOR_SIZE`: 512 bytes, as the comment on `DumpCloneDisk` has it.
abbrev pub sector_size : ℕ
sector_size = 512

-- The comments of pkg/disklib/gvddk_errors.go give these values.
abbrev pub vix_ok : ℕ
vix_ok = 0

abbrev pub vix_e_buffer_toosmall : ℕ
vix_e_buffer_toosmall = 24

abbrev pub vix_e_disk_outofrange : ℕ
vix_e_disk_outofrange = 16007

abbrev pub nbd : String
nbd = "nbd"

abbrev nbdssl : String
nbdssl = "nbdssl"

abbrev hotadd : String
hotadd = "hotadd"

pub record ConnectParams : Type 0 where
  pub vmx_spec : String
  pub server_name : String
  pub thumb_print : String
  pub user_name : String
  pub password : String
  pub fcd_id : String
  pub ds : String
  pub fcdss_id : String
  pub cookie : String
  pub identity : String
  pub path : String
  pub flag : ℕ
  pub read_only : Bool
  pub snapshot_ref : String
  pub mode : String

-- A text made by `fmt.Sprintf`: its format and the numbers that fill it.
pub record Message : Type 0 where
  pub format : String
  pub args : List ℕ

-- The interface `VddkError` with its one implementation, `vddkErrorImpl`; `nil` is `none`.
pub record VddkError : Type 0 where
  pub err_code : ℕ
  pub err_msg : Message

abbrev pub error : VddkError → Message
error e = e.err_msg

abbrev pub vix_error_code : VddkError → ℕ
vix_error_code e = e.err_code

unfoldable pub new_vddk_error : ℕ → Message → VddkError
new_vddk_error err_code err_msg = record { err_code = err_code; err_msg = err_msg }

-- `if res != 0 { return NewVddkError(uint64(res), fmt.Sprintf(format, res)) }`
unfoldable pub check : ℕ → String → Option VddkError
unfolding new_vddk_error
check res format =
    if res == vix_ok
    then none
    else some (new_vddk_error res (record { format = format; args = res ∷ [] }))

pub record VixDiskLibCreateParams : Type 0 where
  pub disk_type : ℕ
  pub adapter_type : ℕ
  pub hw_version : ℕ
  pub capacity : ℕ

unfoldable pub new_create_params : ℕ → ℕ → ℕ → ℕ → VixDiskLibCreateParams
new_create_params disk_type adapter_type hw_version capacity = record {
  disk_type = disk_type;
  adapter_type = adapter_type;
  hw_version = hw_version;
  capacity = capacity;
}

pub record VixDiskLibGeometry : Type 0 where
  pub cylinders : ℕ
  pub heads : ℕ
  pub sectors : ℕ

pub record VixDiskLibInfo : Type 0 where
  pub bios_geo : VixDiskLibGeometry
  pub phys_geo : VixDiskLibGeometry
  pub capacity : ℕ
  pub adapter_type : ℕ
  pub num_links : ℕ
  pub parent_file_name_hint : String
  pub uuid : String

abbrev pub no_geometry : VixDiskLibGeometry
no_geometry = record { cylinders = 0; heads = 0; sectors = 0 }

-- Go's zero value, `VixDiskLibInfo{}`.
abbrev pub no_info : VixDiskLibInfo
no_info = record {
  bios_geo = no_geometry;
  phys_geo = no_geometry;
  capacity = 0;
  adapter_type = 0;
  num_links = 0;
  parent_file_name_hint = "";
  uuid = "";
}

unfoldable pub new_connect_params :
    (vmx_spec server_name thumb_print user_name password fcd_id ds fcdss_id cookie identity
      path : String)
    (flag : ℕ) (read_only : Bool) (snapshot_ref mode : String)
    → ConnectParams
new_connect_params vmx_spec server_name thumb_print user_name password fcd_id ds fcdss_id cookie
      identity path flag read_only snapshot_ref mode =
    record {
      vmx_spec = vmx_spec;
      server_name = server_name;
      thumb_print = thumb_print;
      user_name = user_name;
      password = password;
      fcd_id = fcd_id;
      ds = ds;
      fcdss_id = fcdss_id;
      cookie = cookie;
      identity = identity;
      path = path;
      flag = flag;
      read_only = read_only;
      snapshot_ref = snapshot_ref;
      mode = mode;
    }

unfoldable pub set_snapshot_ref : ConnectParams → String → ConnectParams
set_snapshot_ref cp snap_ref = record cp { snapshot_ref = snap_ref }

unfoldable pub set_transport_mode : ConnectParams → String → ConnectParams
set_transport_mode cp mode = record cp { mode = mode }

-- The accessors of `VixDiskLibBlock`.
unfoldable pub offset : VixDiskLibBlock → ℕ
offset b = b.offset

unfoldable pub set_offset : VixDiskLibBlock → ℕ → VixDiskLibBlock
set_offset b o = record b { offset = o }

unfoldable pub length : VixDiskLibBlock → ℕ
length b = b.length

unfoldable pub set_length : VixDiskLibBlock → ℕ → VixDiskLibBlock
set_length b n = record b { length = n }
