-- ===== src/Dumper/Blocks.antt =====
-- `QueryAllocatedBlocks` of dumper/dumper.go: which bytes of the remote disk are allocated, asked for
-- in runs of blocks of 1 MB. No sum or product of the loop passes the disk's capacity, a 64-bit number,
-- so they do not wrap. The loop runs on fuel, which starts with the number of blocks: each pass takes
-- at least one. `max_chunk_num` is the C constant `VIXDISKLIB_MAX_CHUNK_NUMBER`.
pub mod Coverage
pub mod Loop
pub mod Report
use virtual_disks.Base.{
  ℕ, zero, suc, ◌+◌, ◌-◌, ◌*◌, ◌/◌, Option, none, some, List, [], ◌∷◌, ◌++◌, ltb, if◌then◌else◌,
}
use virtual_disks.Base.Int.{ℤ, pos, scale}
use virtual_disks.Base.Word.{int64}
use virtual_disks.Vddk.{VixDiskLibBlock}
use virtual_disks.Effects.{Prog, ret, ◌>>=◌, or_panic}
use virtual_disks.Disklib.Types.{sector_size}
use virtual_disks.Disk.Handle.{DiskConnectHandle, capacity, unless_error}
use virtual_disks.Disk.Methods
use virtual_disks.Dumper.Types.{VadpDumper, ChangedArea, DumpError, around_vix}
use virtual_disks.Dumper.Disks.{Dumped}

-- `blockSize`, in sectors.
abbrev pub block_size : ℕ
block_size = 2 * 1024

unfoldable pub area_of : VixDiskLibBlock → ChangedArea
area_of b = record {
  start = int64 (scale (int64 (pos b.offset)) sector_size);
  length = int64 (scale (int64 (pos b.length)) sector_size);
}

-- The loop over `blockList`.
abbrev pub areas_of : List VixDiskLibBlock → List ChangedArea
areas_of [] = []
areas_of (b ∷ bs) = area_of b ∷ areas_of bs

-- How the outer loop ends, with the areas that it has appended.
pub data Queried : Type 0 where
  finished : List ChangedArea → Queried
  failed : List ChangedArea → DumpError → Queried
  out_of_fuel : Queried

unfoldable pub query_loop :
    (max_chunk_num : ℕ)
    → DiskConnectHandle
    → (fuel block_count offset : ℕ) → List ChangedArea
    → Prog Queried
query_loop mx h zero block_count offset areas =
    ret (if ltb 0 block_count then out_of_fuel else finished areas)
query_loop mx h (suc fuel) block_count offset areas =
    let once_count = if ltb mx block_count then mx else block_count in
    if ltb 0 block_count
    then (do
      (block_list, err) ←
          Methods.query_allocated_blocks h offset (once_count * block_size) block_size
      unless_error err (λ e. ret (failed areas (around_vix "QueryAllocatedBlocks: %v" (some e))))
          (query_loop mx h fuel (block_count - once_count) (offset + once_count * block_size)
            (areas ++ areas_of block_list)))
    else ret (finished areas)

-- The dumper with the areas found.
unfoldable pub keep_areas : VadpDumper → DiskConnectHandle → List ChangedArea → VadpDumper
keep_areas d h areas = record d {
  change_info = some (record { start_offset = pos 0; length = capacity h; changed_area = areas });
}

-- `none`: the loop would go on.
unfoldable pub keep_queried : VadpDumper → DiskConnectHandle → Queried → Option Dumped
keep_queried d h (finished areas) = some (keep_areas d h areas, none)
keep_queried d h (failed areas e) = some (keep_areas d h areas, some e)
keep_queried d h out_of_fuel = none

-- A handle or a disk info that is nil is a panic.
unfoldable pub query_allocated_blocks : (max_chunk_num : ℕ) → VadpDumper → Prog (Option Dumped)
query_allocated_blocks mx d = do
  h ← or_panic d.read_handle
  info ← or_panic d.remote_disk_info
  q ← query_loop mx h (info.capacity / block_size) (info.capacity / block_size) 0 []
  ret (keep_queried d h q)
