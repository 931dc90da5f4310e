-- ===== src/Disk/ReadAt.antt =====
-- `DiskConnectHandle.ReadAt` of pkg/virtual_disks/gvddk.go. The buffer `p` comes back as the
-- call leaves it, with the count and the error. The function's three parts are functions that go on
-- to the next part: the sector that the offset cuts, the whole sectors, and the sector that the end
-- cuts. `startSector` lies within 2^54 of 0, so the sums with it do not wrap.
pub mod Filled
pub mod Tail
pub mod Middle
pub mod Head
pub mod Correct
pub mod Healthy
use virtual_disks.Base.{
  ℕ, ◌+◌, ◌-◌, ◌*◌, ◌/◌, Bool, true, false, not, Option, none, some, List, ◌++◌, length, take, drop,
  overwrite, ltb, if◌then◌else◌,
}
use virtual_disks.Base.Bytes.{Byte}
use virtual_disks.Base.Int.{ℤ, pos, ◌+ℤ◌, ◌-ℤ◌, ltb_ℤ, leb_ℤ, quot, rem, is_zero}
use virtual_disks.Base.Word.{uint64, int64, int32}
use virtual_disks.Effects.{Prog, ret, ◌>>=◌, or_panic}
use virtual_disks.Disklib.Types.{sector_size}
use virtual_disks.Disklib.Io.{read}
use virtual_disks.Disk.Handle.{
  GoError, eof, DiskConnectHandle, capacity, map_error, aligned, slice, at_most, sector_buf,
  unless_error, with_lock,
}

-- The buffer, the count `n` and the error.
abbrev pub ReadResult : Type 0
ReadResult = List Byte × ℕ × Option GoError

-- "End missing aligned part": the count is not added to `total`.
unfoldable pub read_tail :
    (dli : ℕ) → List Byte → (start_sector : ℤ) → (total : ℕ) → Prog ReadResult
read_tail dli p start_sector total =
    if ltb 0 (length p - total)
    then (do
      (err, tmp_buf) ← read dli (uint64 start_sector) 1 sector_buf
      unless_error err (λ e. ret (p, total, some (map_error e)))
          (ret (overwrite p total (take (length p - total) tmp_buf), total, none)))
    else ret (p, total, none)

-- "Middle aligned part": the library reads straight into the buffer.
unfoldable pub read_middle :
    (dli : ℕ) → List Byte → (start_sector : ℤ) → (total : ℕ) → Prog ReadResult
read_middle dli p start_sector total =
    let num_aligned_sectors = (length p - total) / sector_size in
    if ltb 0 num_aligned_sectors
    then (do
      (err, buf) ←
          read dli (uint64 start_sector) num_aligned_sectors
            (take (num_aligned_sectors * sector_size) (drop total p))
      unless_error err (λ e. ret (overwrite p total buf, total, some (map_error e)))
          (read_tail dli (overwrite p total buf) (start_sector +ℤ pos num_aligned_sectors)
            (total + num_aligned_sectors * sector_size)))
    else read_tail dli p start_sector total

-- "Start missing aligned part". A negative remainder makes the slice panic.
unfoldable pub read_head : (dli : ℕ) → List Byte → (off start_sector : ℤ) → Prog ReadResult
read_head dli p off start_sector =
    if is_zero (rem off sector_size) then read_middle dli p start_sector 0 else (do
      (err, tmp_buf) ← read dli (uint64 start_sector) 1 sector_buf
      unless_error err (λ e. ret (p, 0, some (map_error e)))
          do
            let src_off = rem off sector_size
            let count = at_most (pos sector_size -ℤ src_off) (length p)
            tmp_slice ← or_panic (slice tmp_buf src_off (src_off +ℤ pos count))
            read_middle dli (overwrite p 0 tmp_slice) (start_sector +ℤ pos 1) count)

-- `p = p[0:readLen]` where the read would pass the end of the disk.
unfoldable pub trim : List Byte → (capacity off : ℤ) → Option (List Byte)
trim p capacity off =
    if ltb_ℤ capacity (int64 (off +ℤ pos (length p)))
    then slice p (pos 0) (int32 (int64 (capacity -ℤ off)))
    else some p

-- The caller's buffer keeps what lies behind the slice.
unfoldable pub read_at : DiskConnectHandle → List Byte → (off : ℤ) → Prog ReadResult
read_at h p off = if leb_ℤ (capacity h) off then ret (p, 0, some eof) else (do
  q ← or_panic (trim p (capacity h) off)
  (q', n, err) ←
      with_lock (not (aligned (length q) off)) h.mutex
        (read_head h.dli q off (quot off sector_size))
  ret (q' ++ drop (length q) p, n, err))
