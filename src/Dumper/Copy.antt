-- ===== src/Dumper/Copy.antt =====
-- `ReadFromVmdk`, `WriteToVmdk`, `DumpCloneDisk`, `DumpBackupDisk` and `DumpRestoreDisk` of
-- dumper/dumper.go: the copy of changed areas from one disk to another, 1 MB at a time. The loop over
-- an area runs on fuel, which `dump_clone_disk` is given.
pub mod Pair
pub mod Pass
pub mod Area
pub mod Clone
pub mod Stuck
use virtual_disks.Base.{
  ℕ, zero, suc, ◌+◌, ◌*◌, Option, none, some, List, [], ◌∷◌, length, replicate, if◌then◌else◌,
}
use virtual_disks.Base.Bytes.{Byte}
use virtual_disks.Base.Int.{ℤ, pos, negsuc, ◌+ℤ◌, ◌-ℤ◌, ltb_ℤ}
use virtual_disks.Base.Word.{int64}
use virtual_disks.Effects.{Prog, ret, ◌>>=◌, or_panic}
use virtual_disks.Disklib.Types.{sector_size}
use virtual_disks.Disk.Handle.{GoError, DiskConnectHandle}
use virtual_disks.Disk.ReadAt.{ReadResult, read_at}
use virtual_disks.Disk.WriteAt.{WriteResult, write_at}
use virtual_disks.Dumper.Types.{
  VadpDumper, ChangedArea, DiskChangeInfo, DumpError, err_disk_handle, of_handle, around,
}

-- `sectorSize` of `DumpCloneDisk`: 1 MB.
unfoldable pub transfer_size : ℕ
transfer_size = sector_size * 1024 * 2

-- `make([]byte, n)`
unfoldable pub make_buffer : ℤ → Option (List Byte)
make_buffer (pos n) = some (replicate n 0)
make_buffer (negsuc n) = none

abbrev pub dump_error : Option GoError → Option DumpError
dump_error none = none
dump_error (some e) = some (of_handle e)

unfoldable pub read_from_vmdk :
    VadpDumper → List Byte → (offset : ℤ) → Prog (List Byte × ℕ × Option DumpError)
read_from_vmdk d buf offset = elim (d.read_handle) [
  | none ↦ ret (buf, 0, some err_disk_handle)
  | some h ↦ read_at h buf offset >>= λ r. ret (r.0, r.1, dump_error r.2)
]

unfoldable pub write_to_vmdk : VadpDumper → List Byte → (offset : ℤ) → Prog (ℕ × Option DumpError)
write_to_vmdk d buf offset = elim (d.write_handle) [
  | none ↦ ret (0, some err_disk_handle)
  | some h ↦ write_at h buf offset >>= λ r. ret (r.0, dump_error r.1)
]

-- `if err != nil { return ... }`, and the rest of the function.
abbrev pub unless_dump_error : {A : Type 0} → Option DumpError → (DumpError → A) → A → A
unless_dump_error none bad good = good
unless_dump_error (some e) bad good = bad e

-- How a loop ends, with the buffer `block` as it is then.
pub data Copied : Type 0 where
  copied : (block : List Byte) → Copied
  stopped : DumpError → Copied
  out_of_fuel : Copied

-- The pass of the loop that has `rest` bytes to go; `go_on` is the next pass.
unfoldable pub copy_pass :
    VadpDumper
    → (block : List Byte) → (curr rest : ℤ) → (go_on : List Byte → ℤ → Prog Copied) → Prog Copied
copy_pass d block curr rest go_on = do
  let short = ltb_ℤ rest (pos transfer_size)
  buffer ← or_panic (if short then make_buffer rest else some block)
  (buffer', read_len, err) ← read_from_vmdk d buffer curr
  unless_dump_error err (λ e. ret (stopped (around "ReadFromVmdk: %v" e)))
      do
        (write_len, err) ← write_to_vmdk d buffer' curr
        unless_dump_error err (λ e. ret (stopped (around "WriteToVmdk: %v" e)))
            (go_on (if short then block else buffer') (int64 (curr +ℤ pos read_len)))

-- The loop over one area, from `curr` to `end`.
unfoldable pub copy_area :
    (fuel : ℕ) → VadpDumper → (block : List Byte) → (curr end : ℤ) → Prog Copied
copy_area zero d block curr end = ret (if ltb_ℤ curr end then out_of_fuel else copied block)
copy_area (suc fuel) d block curr end =
    if ltb_ℤ curr end
    then copy_pass d block curr (int64 (end -ℤ curr))
        (λ block' curr'. copy_area fuel d block' curr' end)
    else ret (copied block)

-- What comes after one area.
abbrev pub and_then : Copied → (List Byte → Prog Copied) → Prog Copied
and_then (copied block) go_on = go_on block
and_then (stopped e) go_on = ret (stopped e)
and_then out_of_fuel go_on = ret out_of_fuel

unfoldable pub copy_areas :
    (fuel : ℕ)
    → VadpDumper
    → (block : List Byte) → (start_offset : ℤ) → List ChangedArea
    → Prog Copied
copy_areas fuel d block start_offset [] = ret (copied block)
copy_areas fuel d block start_offset (area ∷ areas) = do
  let curr = int64 (start_offset +ℤ area.start)
  r ← copy_area fuel d block curr (int64 (curr +ℤ area.length))
  and_then r (λ block'. copy_areas fuel d block' start_offset areas)

-- The error of the function; `none` where the fuel is used up.
unfoldable pub clone_error : Copied → Option (Option DumpError)
clone_error (copied block) = some none
clone_error (stopped e) = some (some e)
clone_error out_of_fuel = none

unfoldable pub dump_clone_disk :
    (fuel : ℕ) → VadpDumper → DiskChangeInfo → Prog (Option (Option DumpError))
dump_clone_disk fuel d dc = do
  r ← copy_areas fuel d (replicate transfer_size 0) dc.start_offset dc.changed_area
  ret (clone_error r)

unfoldable pub dump_backup_disk : VadpDumper → Prog (Option DumpError)
dump_backup_disk d = ret none

unfoldable pub dump_restore_disk :
    (fuel : ℕ) → VadpDumper → DiskChangeInfo → Prog (Option (Option DumpError))
dump_restore_disk fuel d dc = dump_clone_disk fuel d dc
