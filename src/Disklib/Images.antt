-- ===== src/Disklib/Images.antt =====
-- Disks as whole images: opening and closing, creating, cloning, growing and removing them
-- (pkg/disklib/gvddk_api.go).
use virtual_disks.Base.{ℕ, Bool, Option, String}
use virtual_disks.Vddk.{Call}
use virtual_disks.Effects.{Prog, ret, ◌>>=◌, perform}
use virtual_disks.Disklib.Types.{ConnectParams, VddkError, VixDiskLibCreateParams, check}
use virtual_disks.Disklib.Params.{prepare_create_params}

-- The handle comes back also with an error.
unfoldable pub open_disk : ℕ → ConnectParams → Prog (ℕ × Option VddkError)
open_disk conn params = do
  (err, dli) ← perform (Call.open_disk conn params.path params.flag)
  ret (dli, check err "Open virtual disk file failed. The error code is %d.")

unfoldable pub close : ℕ → Prog (Option VddkError)
close dli = do
  res ← perform (Call.close dli)
  ret (check res "Close virtual disk failed. The error code is %d.")

unfoldable pub attach : (child parent : ℕ) → Prog (Option VddkError)
attach child parent = do
  res ← perform (Call.attach child parent)
  ret (check res "Attach child disk chain to the parent disk chain failed. The error code is %d.")

unfoldable pub check_repair : ℕ → (filename : String) → (repair : Bool) → Prog (Option VddkError)
check_repair conn filename repair = do
  res ← perform (Call.check_repair conn filename repair)
  ret (check res "Check repair failed. The error code is %d.")

unfoldable pub clone :
    (dst_conn : ℕ)
    → (dst_path : String) → (src_conn : ℕ) → (src_path : String) → VixDiskLibCreateParams
    → (progress : String) → (over_write : Bool) → Prog (Option VddkError)
unfolding prepare_create_params
clone dst_conn dst_path src_conn src_path params progress over_write = do
  res ← perform (
      Call.clone dst_conn dst_path src_conn src_path (prepare_create_params params) progress
        over_write)
  ret (check res "Clone a virtual disk failed. The error code is %d.")

unfoldable pub create :
    ℕ → (path : String) → VixDiskLibCreateParams → (progress : String) → Prog (Option VddkError)
unfolding prepare_create_params
create conn path params progress = do
  res ← perform (Call.create conn path (prepare_create_params params) progress)
  ret (check res "Create a virtual disk failed. The error code is %d.")

unfoldable pub create_child :
    (dli : ℕ)
    → (child_path : String) → (disk_type : ℕ) → (progress : String) → Prog (Option VddkError)
create_child dli child_path disk_type progress = do
  res ← perform (Call.create_child dli child_path disk_type progress)
  ret (check res "Create child virtual disk failed. The error code is %d.")

unfoldable pub grow :
    ℕ
    → (path : String) → (capacity : ℕ) → (update_geometry : Bool) → (callback_data : String)
    → Prog (Option VddkError)
grow conn path capacity update_geometry callback_data = do
  res ← perform (Call.grow conn path capacity update_geometry callback_data)
  ret (check res "Grow failed. The error code is %d.")

unfoldable pub list_transport_modes : Prog String
list_transport_modes = perform Call.list_transport_modes

unfoldable pub rename : (src_file dst_file : String) → Prog (Option VddkError)
rename src_file dst_file = do
  res ← perform (Call.rename src_file dst_file)
  ret (check res "Rename failed. The error code is %d.")

-- The space that the library stores is dropped: `spaceNeeded` is passed by value.
unfoldable pub space_needed_for_clone : (dli disk_type space_needed : ℕ) → Prog (Option VddkError)
space_needed_for_clone dli disk_type space_needed = do
  (res, space) ← perform (Call.space_needed_for_clone dli disk_type space_needed)
  ret (check res "Get space needed for clone failed. The error code is %d.")

unfoldable pub unlink : ℕ → (path : String) → Prog (Option VddkError)
unlink conn path = do
  res ← perform (Call.unlink conn path)
  ret (check res "Delete the virtual disk including all the extents failed. The error code is %d.")

unfoldable pub shrink : (dli : ℕ) → (progress : String) → Prog (Option VddkError)
shrink dli progress = do
  res ← perform (Call.shrink dli progress)
  ret (check res "Shrink failed. The error code is %d.")

unfoldable pub defragment : (dli : ℕ) → (progress : String) → Prog (Option VddkError)
defragment dli progress = do
  res ← perform (Call.defragment dli progress)
  ret (check res "Defragment failed. The error code is %d.")

unfoldable pub get_transport_mode : (dli : ℕ) → Prog String
get_transport_mode dli = perform (Call.get_transport_mode dli)
