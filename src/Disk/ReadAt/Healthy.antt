-- ===== src/Disk/ReadAt/Healthy.antt =====
-- `ReadAt` on a disk that answers every request within it: the bytes, and the count that falls
-- behind them where the end cuts a sector.
use virtual_disks.Base.{
  ℕ, ◌+◌, ◌%◌, ◌≤◌, ◌<◌, ◌^◌, ◌≡◌, inl, refl, ◌∙◌, false, none, List, arith, length, drop-length,
  append-nil,
}
use virtual_disks.Base.Bytes.{Byte, bytes_at}
use virtual_disks.Base.Int.{pos}
use virtual_disks.Vddk.{World}
use virtual_disks.Effects.{Machine, run, Ensures, Ensures-weaken}
use virtual_disks.Disklib.Types.{sector_size}
use virtual_disks.Device.{IsDisk, IsHealthy}
use virtual_disks.Disk.Handle.{DiskConnectHandle, size}
use virtual_disks.Disk.ReadAt.{read_at}
use virtual_disks.Disk.ReadAt.Head.{delivered}
use virtual_disks.Disk.ReadAt.Correct.{within, ReadsAt, read_at-ReadsAt}

module _ {W : World} (h : DiskConnectHandle) (D : IsDisk W h.dli h.info.capacity) (s : Machine W)
    (p : List Byte) (o : ℕ) (good : IsHealthy D) where
  -- On a disk whose reads within it succeed, a read that starts at a sector and ends within one, and
  -- lies on the disk, gives no error and fills the buffer, but returns a count that is smaller than
  -- the buffer's length by the bytes of the last sector.
  pub read_at_short_count :
      o % sector_size ≡ 0
      → o + length p ≤ size h
      → size h < 2 ^ 63
      → 0 < length p % sector_size
      → s.held h.mutex ≡ false
      → Ensures (run (read_at h p (pos o)) s) (λ r t.
        (r.2 ≡ none)
        × (r.0 ≡ bytes_at (D.content s.lib) o (length p))
        × (r.1 + length p % sector_size ≡ length p))
  unfolding delivered
  read_at_short_count start fits small cut free =
      Ensures-weaken (run (read_at h p (pos o)) s) (ReadsAt h D s p o) _
        (λ r t post.
          let (buf, count) = post.0.complete (post.1 good) in
          (post.1 good, buf ∙ rw (full, drop-length, append-nil) refl, short r.1 count))
        (read_at-ReadsAt h D s p o (omega arith) small (omega arith) (inl fits) free)
    where
      full : within h o (length p) ≡ length p
      full = omega arith

      short :
          (n : ℕ) → n ≡ delivered o (within h o (length p)) → n + length p % sector_size ≡ length p
      short n e = ground (arith, full)
