-- ===== src/Disk/WriteAt.antt =====
-- `DiskConnectHandle.WriteAt` of pkg/virtual_disks/gvddk.go, in three parts like `ReadAt`: the
-- sectors that the offset and the end cut are read, changed and written back. The variable `srcOff`
-- of the source equals `total` wherever it is read, and is not kept apart.
pub mod Parts
pub mod Middle
pub mod Correct
use virtual_disks.Base.{
  ℕ, ◌+◌, ◌-◌, ◌*◌, ◌/◌, not, ◌||◌, Option, none, some, List, length, take, drop, overwrite, ltb,
  if◌then◌else◌,
}
use virtual_disks.Base.Bytes.{Byte}
use virtual_disks.Base.Int.{ℤ, pos, pos_part, ◌+ℤ◌, ◌-ℤ◌, ltb_ℤ, quot, rem, is_zero}
use virtual_disks.Base.Word.{uint64, int64}
use virtual_disks.Effects.{Prog, ret, ◌>>=◌, or_panic}
use virtual_disks.Disklib.Types.{sector_size}
use virtual_disks.Disklib.Io.{read, write}
use virtual_disks.Disk.Handle.{
  GoError, short_write, wrapped, DiskConnectHandle, capacity, map_error, aligned, slice, at_most,
  sector_buf, unless_error, with_lock,
}

-- The count `n` and the error.
abbrev pub WriteResult : Type 0
WriteResult = ℕ × Option GoError

-- "End missing aligned part".
unfoldable pub write_tail :
    (dli : ℕ) → List Byte → (start_sector : ℤ) → (total : ℕ) → Prog WriteResult
write_tail dli p start_sector total =
    if ltb 0 (length p - total)
    then (do
      (err, tmp_buf) ← read dli (uint64 start_sector) 1 sector_buf
      unless_error err (λ e. ret (total, some (map_error e)))
          do
            err ← write dli (uint64 start_sector) 1 (overwrite tmp_buf 0 (drop total p))
            unless_error err
                (λ e. ret (total, some (wrapped e "Write into disk in part 3 failed part3.")))
                (ret (length p, none)))
    else ret (length p, none)

-- "Middle aligned part, override directly".
unfoldable pub write_middle :
    (dli : ℕ) → List Byte → (start_sector : ℤ) → (total : ℕ) → Prog WriteResult
write_middle dli p start_sector total =
    let num_sector = (length p - total) / sector_size in
    if ltb 0 num_sector
    then (do
      err ←
          write dli (uint64 start_sector) num_sector
            (take (num_sector * sector_size) (drop total p))
      unless_error err (λ e. ret (total, some (map_error e)))
          (write_tail dli p (start_sector +ℤ pos num_sector) (total + num_sector * sector_size)))
    else write_tail dli p start_sector total

-- "Start missing aligned part". A negative remainder makes the slice panic.
unfoldable pub write_head : (dli : ℕ) → List Byte → (off start_sector : ℤ) → Prog WriteResult
write_head dli p off start_sector =
    if is_zero (rem off sector_size) then write_middle dli p start_sector 0 else (do
      (err, tmp_buf) ← read dli (uint64 start_sector) 1 sector_buf
      unless_error err (λ e. ret (0, some (map_error e)))
          do
            let des_off = rem off sector_size
            let count = at_most (pos sector_size -ℤ des_off) (length p)
            _ ← or_panic (slice tmp_buf des_off (des_off +ℤ pos count))
            err ←
                write dli (uint64 start_sector) 1
                  (overwrite tmp_buf (pos_part des_off) (take count p))
            unless_error err (λ e. ret (0, some (map_error e)))
                (write_middle dli p (start_sector +ℤ pos 1) count))

unfoldable pub write_at : DiskConnectHandle → List Byte → (off : ℤ) → Prog WriteResult
write_at h p off =
    if ltb_ℤ (capacity h) off || ltb_ℤ (capacity h) (int64 (off +ℤ pos (length p)))
    then ret (0, some short_write)
    else with_lock (not (aligned (length p) off)) h.mutex
        (write_head h.dli p off (quot off sector_size))
