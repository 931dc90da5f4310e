-- ===== src/Dumper/Params.antt =====
-- `GetThumbPrintForServer`, `NewConnParams` and `NewVddkParams` of dumper/dumper.go. The connection
-- and the digest of the thumbprint and the number that `rand.Intn` draws are parameters.
pub mod Remote
use virtual_disks.Base.{ℕ, Option, none, some, ◌⊎◌, List, String}
use virtual_disks.Base.Bytes.{Byte}
use virtual_disks.Base.Int.{ℤ, pos}
use virtual_disks.Base.Decimal.{format_int}
use virtual_disks.Disklib.ThumbPrint.{ThumbPrintError}
use virtual_disks.Disklib.ThumbPrint
use virtual_disks.Dumper.Types.{ConnParams, DiskParams, VddkParams}
use Prim.Native.String.{◌++◌}

module _ {E : Type 0} (dial : (address : String) → E ⊎ List (List Byte))
    (sha1 : List Byte → List Byte) where
  unfoldable pub get_thumb_print_for_server :
      (host : String) (port : ℤ) → String × Option (ThumbPrintError E)
  get_thumb_print_for_server host port =
      ThumbPrint.get_thumb_print_for_server dial sha1 host (format_int port)

  -- The pointer is nil where there is an error.
  unfoldable pub new_conn_params :
      (host : String) (port : ℤ) (name password mo_ref snap_ref : String)
      → Option ConnParams × Option (ThumbPrintError E)
  new_conn_params host port name password mo_ref snap_ref =
      let (thumb_print, failed) = get_thumb_print_for_server host port in
      elim failed [
        | some err ↦ (none, some err)
        | none ↦ (
          some (record {
            vm_mo_ref = mo_ref;
            vsphere_host_name = host;
            vsphere_host_port = port;
            vsphere_username = name;
            vsphere_password = password;
            vsphere_thumb_print = thumb_print;
            vsphere_snapshot_mo_ref = snap_ref;
          }),
          none,
        )
      ]

-- `fmt.Sprintf("%v_%v", "rsb_dumper_", rand.Intn(1000))`.
unfoldable pub identity_of : (drawn : ℕ) → String
identity_of drawn = ("rsb_dumper_" ++ "_") ++ format_int (pos drawn)

-- The error is always nil.
unfoldable pub new_vddk_params : (drawn : ℕ) → ConnParams → DiskParams → VddkParams
new_vddk_params drawn conn disk = record {
  identity = identity_of drawn;
  conn_params = conn;
  disk_params = disk;
}
