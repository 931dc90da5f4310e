-- ===== src/Disklib/Params.antt =====
-- The C structs that pkg/disklib/gvddk_api.go fills from Go's: `prepareConnectParams` and
-- `prepareCreateParams`, with `Params_helper` and `BlockListCopyAndFree`'s caller in
-- pkg/disklib/gvddk_c.c. The C strings live until the call returns, so they are texts here.
use virtual_disks.Base.{Bool, true, false, not, some, String, if◌then◌else◌}
use text.Mathlib.Text.{◌==◌}
use virtual_disks.Vddk.{SpecType, CredType, Creds, CConnectParams, CCreateParams, Call}
use virtual_disks.Effects.{Prog, ret, ◌>>=◌, perform}
use virtual_disks.Disklib.Types.{ConnectParams, VixDiskLibCreateParams}

-- `Params_helper` in pkg/disklib/gvddk_c.c.
unfoldable pub params_helper :
    CConnectParams → (arg1 arg2 arg3 : String) → (is_fcd is_session : Bool) → CConnectParams
params_helper cnx arg1 arg2 arg3 true is_session = record cnx {
  id = some arg1;
  datastore_mo_ref = some arg2;
  ss_id = if arg3 == "" then cnx.ss_id else some arg3;
}
params_helper cnx arg1 arg2 arg3 false true = record cnx {
  creds = Creds.session_id (some arg1) (some arg2) (some arg3);
}
params_helper cnx arg1 arg2 arg3 false false = record cnx {
  creds = Creds.uid (some arg2) (some arg3);
}

-- The specification of the disk: a first-class disk, else a virtual machine, else neither.
unfoldable pub fill_spec : ConnectParams → CConnectParams → CConnectParams
unfolding params_helper
fill_spec app cnx =
    if not (app.fcd_id == "")
    then params_helper (record cnx { spec_type = SpecType.vstorage_object }) app.fcd_id app.ds
        app.fcdss_id true false
    else (if not (app.vmx_spec == "")
        then record cnx { spec_type = SpecType.vmx; vmx_spec = some app.vmx_spec }
        else cnx)

unfoldable pub fill_server : ConnectParams → CConnectParams → CConnectParams
fill_server app cnx = record cnx {
  thumb_print = if app.thumb_print == "" then cnx.thumb_print else some app.thumb_print;
  server_name = if app.server_name == "" then cnx.server_name else some app.server_name;
}

unfoldable pub fill_creds : ConnectParams → CConnectParams → CConnectParams
unfolding params_helper
fill_creds app cnx =
    if app.cookie == ""
    then params_helper (record cnx { cred_type = CredType.uid }) app.cookie app.user_name
        app.password false false
    else params_helper (record cnx { cred_type = CredType.session_id }) app.cookie app.user_name
        app.password false true

-- `prepareConnectParams` on the struct that the library has allocated.
unfoldable pub fill_connect_params : ConnectParams → CConnectParams → CConnectParams
unfolding fill_spec fill_server fill_creds
fill_connect_params app cnx = fill_creds app (fill_server app (fill_spec app cnx))

unfoldable pub prepare_connect_params : ConnectParams → Prog CConnectParams
prepare_connect_params app = do
  cnx ← perform Call.allocate_connect_params
  ret (fill_connect_params app cnx)

-- `hwVersion` is a `uint16` on both sides.
unfoldable pub prepare_create_params : VixDiskLibCreateParams → CCreateParams
prepare_create_params spec = record {
  disk_type = spec.disk_type;
  adapter_type = spec.adapter_type;
  hw_version = spec.hw_version;
  capacity = spec.capacity;
}
