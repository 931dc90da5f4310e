-- ===== src/Disk/RoundTrip.antt =====
-- `WriteAt` and `ReadAt` together.
use virtual_disks.Base.{
  ℕ, ◌+◌, ◌≤◌, ◌<◌, ◌^◌, ◌≡◌, ◌∙◌, inl, ap, false, List, ◌++◌, append-nil, arith, length, drop,
  drop-length,
}
use virtual_disks.Base.Bytes.{Byte, bytes_at, bytes_at-patch_self, patch}
use virtual_disks.Base.Int.{pos}
use virtual_disks.Vddk.{World}
use virtual_disks.Effects.{Prog, ◌>>=◌, Machine, run, Ensures, Ensures-bind, Ensures-weaken}
use virtual_disks.Device.{IsDisk, IsHealthy}
use virtual_disks.Disk.Handle.{DiskConnectHandle, size}
use virtual_disks.Disk.ReadAt.{ReadResult, read_at}
use virtual_disks.Disk.ReadAt.Correct.{ReadsAt, within, read_at-ReadsAt}
use virtual_disks.Disk.WriteAt.{write_at}
use virtual_disks.Disk.WriteAt.Parts.{WritePost}
use virtual_disks.Disk.WriteAt.Correct.{write_at-WritePost}

-- Write the buffer, then read as many bytes back into another one.
pub write_then_read : DiskConnectHandle → (p q : List Byte) → ℕ → Prog ReadResult
write_then_read h p q o = write_at h p (pos o) >>= λ _. read_at h q (pos o)

module _ {W : World} (h : DiskConnectHandle) (D : IsDisk W h.dli h.info.capacity) (s : Machine W)
    (p q : List Byte) (o : ℕ) where
  read_back :
      (t u : Machine W) (r : ReadResult)
      → IsHealthy D
      → length q ≡ length p
      → o + length p ≤ size h
      → D.content t.lib ≡ patch (D.content s.lib) o p
      → ReadsAt h D t q o r u
      → (r.0 ≡ p) × (D.content u.lib ≡ patch (D.content s.lib) o p)
  read_back t u r good same fits written h' = (
    (h'.0.complete (h'.1 good)).0
        ∙ ap (λ n. bytes_at (D.content t.lib) o n ++ drop n q) whole
        ∙ rw (drop-length, append-nil, written, same, bytes_at-patch_self),
    h'.0.same.kept ∙ written,
  )
    where
      whole : within h o (length q) ≡ length q
      whole = omega arith

  -- On a healthy disk, what is written within it comes back unchanged, into a buffer of the same
  -- length, and the disk has then changed by that write alone.
  pub read_at-write_at :
      IsHealthy D
      → length q ≡ length p
      → 0 < length p
      → o + length p ≤ size h
      → size h < 2 ^ 63
      → s.held h.mutex ≡ false
      → Ensures
          (run (write_then_read h p q o) s)
          (λ r t. (r.0 ≡ p) × (D.content t.lib ≡ patch (D.content s.lib) o p))
  unfolding write_then_read
  read_at-write_at good same some_bytes fits small free =
      Ensures-bind (write_at h p (pos o)) _ s (WritePost D s p o) _
        (write_at-WritePost h D s p o fits small free)
        (λ w t post.
          Ensures-weaken (run (read_at h q (pos o)) t) (ReadsAt h D t q o) _
            (λ r u. read_back t u r good same fits (post.complete (post.healthy good)).0)
            (read_at-ReadsAt h D t q o (omega arith) small (omega arith) (inl (omega arith))
              ((λ i. post.held i h.mutex) ∙ free)))
