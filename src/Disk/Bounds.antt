-- ===== src/Disk/Bounds.antt =====
-- Reads from the end of the disk on: `ReadAt` refuses them with no call of the library and no lock.
use virtual_disks.Base.{ℕ, ◌+◌, ◌≤◌, ◌<◌, ◌^◌, ◌≡◌, some, List, arith, le→leb}
use virtual_disks.Base.Bytes.{Byte}
use virtual_disks.Base.Int.{pos}
use virtual_disks.Vddk.{World}
use virtual_disks.Effects.{Machine, run, done}
use virtual_disks.Disk.Handle.{DiskConnectHandle, eof, capacity_lem, size}
use virtual_disks.Disk.ReadAt.{read_at}

module _ {W : World} (h : DiskConnectHandle) (s : Machine W) (p : List Byte) (o : ℕ) where
  -- A read at or behind the end of a disk of fewer than 2^63 bytes is at the end of the file: no
  -- byte, nothing changed.
  pub read_at_past_end :
      size h < 2 ^ 63 → size h ≤ o → run (read_at h p (pos o)) s ≡ done (p, 0, some eof) s
  unfolding read_at run
  read_at_past_end small past = rw (capacity_lem h small, le→leb (size h + 0) (o + 0) (omega arith))
