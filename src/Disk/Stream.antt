-- ===== src/Disk/Stream.antt =====
-- `DiskReaderWriter` of pkg/virtual_disks/gvddk.go: a handle with a shared offset, which a mutex
-- of its own guards. The logger is left out. `new_disk_reader_writer` is given the names of the
-- variables that the Go function allocates.
pub mod Sequential
pub mod Seeking
pub mod Writing
pub mod Calls
pub mod Concurrent
pub mod ReadAll
pub mod WriteAll
use virtual_disks.Base.{ℕ, zero, suc, true, Option, none, some, List, if◌then◌else◌}
use virtual_disks.Base.Bytes.{Byte}
use virtual_disks.Base.Int.{ℤ, pos, negsuc, ◌+ℤ◌, ltb_ℤ}
use virtual_disks.Base.Word.{int64}
use virtual_disks.Vddk.{VixDiskLibBlock}
use virtual_disks.Effects.{◌>>=◌, ◌>>◌, Prog, ret, get, put}
use virtual_disks.Disklib.Types.{VddkError}
use virtual_disks.Disk.Handle.{GoError, new, DiskConnectHandle, with_lock}
use virtual_disks.Disk.Methods
use virtual_disks.Disk.ReadAt.{ReadResult, read_at}
use virtual_disks.Disk.WriteAt.{WriteResult, write_at}

pub record DiskReaderWriter : Type 0 where
  pub disk_handle : DiskConnectHandle
  pub offset : ℕ
  pub mutex : ℕ

unfoldable pub new_disk_reader_writer :
    (offset mutex : ℕ) → DiskConnectHandle → Prog DiskReaderWriter
new_disk_reader_writer offset mutex disk_handle = do
  put offset (pos 0)
  ret (record { disk_handle = disk_handle; offset = offset; mutex = mutex })

-- `*this.offset += int64(n)`
unfoldable pub advance : DiskReaderWriter → (n : ℕ) → Prog (Unit {0})
advance d n = do cur ← get d.offset; put d.offset (int64 (cur +ℤ pos n))

unfoldable pub read : DiskReaderWriter → List Byte → Prog ReadResult
unfolding advance
read d p =
    with_lock true d.mutex
      do off ← get d.offset; r ← read_at d.disk_handle p off; advance d r.1; ret r

unfoldable pub write : DiskReaderWriter → List Byte → Prog WriteResult
unfolding advance
write d p =
    with_lock true d.mutex
      do off ← get d.offset; r ← write_at d.disk_handle p off; advance d r.0; ret r

-- The end of `Seek`: the offset that is wanted, if it is not negative.
unfoldable pub seek_to : DiskReaderWriter → (desired : ℤ) → Prog (ℤ × Option GoError)
seek_to d desired =
    if ltb_ℤ desired (pos 0)
    then ret (pos 0, some (new "Cannot seek to negative offset"))
    else (do put d.offset desired; off ← get d.offset; ret (off, none))

-- The switch over `whence`, with `cur` as `*this.offset`. Any other value leaves the offset.
unfoldable pub seek_from : DiskReaderWriter → (offset whence cur : ℤ) → Prog (ℤ × Option GoError)
seek_from d offset (pos zero) cur = seek_to d offset
seek_from d offset (pos (suc zero)) cur = seek_to d (int64 (cur +ℤ offset))
seek_from d offset (pos (suc (suc zero))) cur =
    ret (cur, some (new "Seek from SeekEnd not implemented"))
seek_from d offset (pos (suc (suc (suc n)))) cur = seek_to d cur
seek_from d offset (negsuc n) cur = seek_to d cur

unfoldable pub seek : DiskReaderWriter → (offset whence : ℤ) → Prog (ℤ × Option GoError)
unfolding seek_from seek_to
seek d offset whence = with_lock true d.mutex do cur ← get d.offset; seek_from d offset whence cur

-- The methods that hand their arguments on to the handle.
unfoldable pub read_handle_at : DiskReaderWriter → List Byte → (off : ℤ) → Prog ReadResult
read_handle_at d p off = read_at d.disk_handle p off

unfoldable pub write_handle_at : DiskReaderWriter → List Byte → (off : ℤ) → Prog WriteResult
write_handle_at d p off = write_at d.disk_handle p off

unfoldable pub close : DiskReaderWriter → Prog (Option GoError)
close d = Methods.close d.disk_handle

unfoldable pub query_allocated_blocks :
    DiskReaderWriter
    → (start_sector num_sectors chunk_size : ℕ) → Prog (List VixDiskLibBlock × Option VddkError)
query_allocated_blocks d start_sector num_sectors chunk_size =
    Methods.query_allocated_blocks d.disk_handle start_sector num_sectors chunk_size
