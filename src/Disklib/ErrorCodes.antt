-- ===== src/Disklib/ErrorCodes.antt =====
-- The constants of pkg/disklib/gvddk_errors.go, by name, with the values that their comments give.
mod Vm
mod Disk
mod Mount
pub use Vm.*
pub use Disk.*
pub use Mount.*
use virtual_disks.Base.{ℕ, List, ◌∷◌, ◌++◌, String}

-- All of them, in the order of the file.
unfoldable pub error_codes : List (String × ℕ)
error_codes =
    ("VIX_OK", 0) ∷ general_errors
    ++ handle_errors
    ++ xml_errors
    ++ vm_control_errors
    ++ vm_errors
    ++ property_errors
    ++ completion_errors
    ++ message_errors
    ++ snapshot_errors
    ++ host_errors
    ++ disklib_errors
    ++ crypto_errors
    ++ remoting_errors
    ++ screen_capture_errors
    ++ guest_errors
    ++ tools_errors
    ++ wrapper_errors
    ++ fuse_mnt_errors
    ++ mntapi_errors
    ++ async_success
    ++ async_errors
    ++ network_errors
