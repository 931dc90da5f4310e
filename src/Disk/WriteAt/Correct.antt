-- ===== src/Disk/WriteAt/Correct.antt =====
-- `WriteAt` on a disk: which bytes it changes, and what a caller can tell from its result.
use virtual_disks.Base.{
  ℕ, ◌+◌, ◌/◌, ◌≤◌, ◌<◌, ◌^◌, ◌≡◌, refl, Bool, false, not, none, List, arith, length,
}
use virtual_disks.Base.Bytes.{Byte, patch}
use virtual_disks.Base.Int.{pos}
use virtual_disks.Base.Word.{int64-pos, +ℤ_pos}
use virtual_disks.Base.{le→ltb, take}
use virtual_disks.Vddk.{World}
use virtual_disks.Effects.{Machine, run, Ensures, Ensures-weaken}
use virtual_disks.Disklib.Types.{sector_size}
use virtual_disks.Device.{IsDisk, IsHealthy, IsAtomic}
use virtual_disks.Disk.Handle.{DiskConnectHandle, capacity_lem, size, aligned}
use virtual_disks.Disk.Lock.{with_lock-Ensures}
use virtual_disks.Disk.WriteAt.{WriteResult, write_head, write_at}
use virtual_disks.Disk.WriteAt.Parts.{WritePost}
use virtual_disks.Disk.WriteAt.Middle.{write_head-WritePost}

module _ {W : World} (h : DiskConnectHandle) (D : IsDisk W h.dli h.info.capacity) (s : Machine W)
    (p : List Byte) (o : ℕ) where
  head_works :
      o + length p ≤ size h
      → size h < 2 ^ 63
      → (held : ℕ → Bool)
      → Ensures
          (run (write_head h.dli p (pos o) (pos (o / sector_size))) (record s { held = held }))
          (λ r t. (t.held ≡ held) × WritePost D s p o r (record t { held = s.held }))
  head_works fits small held =
      Ensures-weaken (run (write_head h.dli p (pos o) (pos (o / sector_size))) s')
        (WritePost D s' p o) _
        (λ r t post. (
          post.held,
          record {
            held = refl;
            cells = post.cells;
            le = post.le;
            complete = post.complete;
            atomic = post.atomic;
            healthy = post.healthy;
          },
        ))
        (write_head-WritePost D s' p o fits small)
    where
      s' : Machine W
      s' = record s { held = held }

  pub write_at-WritePost :
      o + length p ≤ size h
      → size h < 2 ^ 63
      → s.held h.mutex ≡ false
      → Ensures (run (write_at h p (pos o)) s) (WritePost D s p o)
  unfolding write_at
  write_at-WritePost fits small free =
      rw
        (
          capacity_lem h small,
          +ℤ_pos o (length p),
          int64-pos (o + length p) (omega arith),
          le→ltb (size h + 0) (o + 0) (omega arith),
          le→ltb (size h + 0) (o + length p + 0) (omega arith),
        )
        (with_lock-Ensures h.mutex _ s (WritePost D s p o) (not (aligned (length p) (pos o))) free
          (λ held others. head_works fits small held))

  -- The outcome of a write that the disk may have refused in part.
  pub record IsWriteAt (r : WriteResult) (t : Machine W) : Type 0 where
    pub held : t.held ≡ s.held
    pub cells : t.cells ≡ s.cells
    pub le : r.0 ≤ length p
    pub complete : r.1 ≡ none → (D.content t.lib ≡ patch (D.content s.lib) o p) × (r.0 ≡ length p)

  -- On a disk of fewer than 2^63 bytes, a write with a free lock that lies within the disk ends, with
  -- the mutexes and the shared offsets as they were and a count of at most the buffer's length.
  -- Without an error the disk is as before but for the bytes from the offset on, which are those of
  -- the buffer, and the count is the buffer's length.
  pub write_at-writes :
      o + length p ≤ size h
      → size h < 2 ^ 63
      → s.held h.mutex ≡ false
      → Ensures (run (write_at h p (pos o)) s) IsWriteAt
  write_at-writes fits small free =
      Ensures-weaken (run (write_at h p (pos o)) s) (WritePost D s p o) IsWriteAt
        (λ r t post. record {
          held = post.held;
          cells = post.cells;
          le = post.le;
          complete = post.complete;
        })
        (write_at-WritePost fits small free)

  -- If a write of the library that fails changes nothing, such a write, with an error or without,
  -- leaves the disk with as many bytes of the buffer as the count says, and as before otherwise.
  pub write_at-writes_count :
      IsAtomic D
      → o + length p ≤ size h
      → size h < 2 ^ 63
      → s.held h.mutex ≡ false
      → Ensures
          (run (write_at h p (pos o)) s)
          (λ r t. D.content t.lib ≡ patch (D.content s.lib) o (take r.0 p))
  write_at-writes_count safe fits small free =
      Ensures-weaken (run (write_at h p (pos o)) s) (WritePost D s p o) _
        (λ r t post. post.atomic safe) (write_at-WritePost fits small free)

  -- If no read and no write of the library within the disk fails, a write within it writes the whole
  -- buffer, with no error.
  pub write_at_healthy :
      IsHealthy D
      → o + length p ≤ size h
      → size h < 2 ^ 63
      → s.held h.mutex ≡ false
      → Ensures
          (run (write_at h p (pos o)) s)
          (λ r t. (r ≡ (length p, none)) × (D.content t.lib ≡ patch (D.content s.lib) o p))
  write_at_healthy good fits small free =
      Ensures-weaken (run (write_at h p (pos o)) s) (WritePost D s p o) _
        (λ r t post.
          let (written, count) = post.complete (post.healthy good) in
          ((λ i. (count i, post.healthy good i)), written))
        (write_at-WritePost fits small free)
