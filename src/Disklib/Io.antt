-- ===== src/Disklib/Io.antt =====
-- Reading and writing sectors, the disk's description, and its allocated blocks
-- (pkg/disklib/gvddk_api.go, with `QueryAllocatedBlocks` of pkg/disklib/gvddk_c.c).
use virtual_disks.Base.{ℕ, Option, none, some, List, [], ◌∷◌, ◌==◌, if◌then◌else◌}
use virtual_disks.Base.Bytes.{Byte}
use virtual_disks.Vddk.{Call, CGeometry, CInfo, VixDiskLibBlock, BlocksReply}
use virtual_disks.Effects.{Prog, ret, ◌>>=◌, perform}
use virtual_disks.Disklib.Types.{
  VddkError, VixDiskLibGeometry, VixDiskLibInfo, no_info, vix_ok, check, new_vddk_error,
}
use virtual_disks.Disklib.Metadata.{first_byte}

-- The buffer comes back as the library left it, also with an error.
unfoldable pub read :
    (dli start_sector num_sectors : ℕ) → List Byte → Prog (Option VddkError × List Byte)
read dli start_sector num_sectors buf = first_byte buf do
  (res, buf') ← perform (Call.read dli start_sector num_sectors buf)
  ret (check res "Read from virtual disk file failed. The error code is %d.", buf')

unfoldable pub write : (dli start_sector num_sectors : ℕ) → List Byte → Prog (Option VddkError)
write dli start_sector num_sectors buf = first_byte buf do
  res ← perform (Call.write dli start_sector num_sectors buf)
  ret (check res "Write to virtual disk file failed. The error code is %d.")

geometry_of : CGeometry → VixDiskLibGeometry
geometry_of g = record { cylinders = g.cylinders; heads = g.heads; sectors = g.sectors }

info_of : CInfo → VixDiskLibInfo
unfolding geometry_of
info_of i = record {
  bios_geo = geometry_of i.bios_geo;
  phys_geo = geometry_of i.phys_geo;
  capacity = i.capacity;
  adapter_type = i.adapter_type;
  num_links = i.num_links;
  parent_file_name_hint = i.parent_file_name_hint;
  uuid = i.uuid;
}

unfoldable pub get_info : (dli : ℕ) → Prog (VixDiskLibInfo × Option VddkError)
unfolding info_of
get_info dli = do
  (res, info) ← perform (Call.get_info dli)
  ret (
    if res == vix_ok then info_of info else no_info,
    check res "GetInfo failed. The error code is %d.",
  )

-- The C function of that name reports success as `VIX_OK`.
blocks_code : BlocksReply → ℕ
blocks_code r = if r.failed then r.code else vix_ok

unfoldable pub query_allocated_blocks :
    (dli start_sector num_sectors chunk_size : ℕ) → Prog (List VixDiskLibBlock × Option VddkError)
unfolding blocks_code new_vddk_error
query_allocated_blocks dli start_sector num_sectors chunk_size = do
  r ← perform (Call.query_allocated_blocks dli start_sector num_sectors chunk_size)
  let res = blocks_code r
  ret (
      if res == vix_ok then (r.blocks, none) else (
        [],
        some (
            new_vddk_error res (record {
              format = "QueryAllocatedBlocks(%d, %d, %d) error: %d.";
              args = start_sector ∷ num_sectors ∷ chunk_size ∷ res ∷ [];
            })),
      ))
