-- ===== src/Disk/Stream/Writing.antt =====
-- `Write` of a `DiskReaderWriter`: it writes where the stream stands and moves it on.
use virtual_disks.Base.{
  ℕ, ◌+◌, ◌≤◌, ◌<◌, ◌^◌, ◌≡◌, sym, ap, ◌∙◌, subst, Bool, none, List, arith, length, true, false,
}
use virtual_disks.Base.Bytes.{Byte, patch}
use virtual_disks.Base.Int.{pos, ◌+ℤ◌}
use virtual_disks.Base.Word.{int64, int64-pos, +ℤ_pos}
use virtual_disks.Vddk.{World}
use virtual_disks.Effects.{
  ret, ◌>>=◌, ◌>>◌, set_at, set_at_self, Machine, run, Ensures, Ensures-bind, Ensures-weaken,
  Ensures-both,
}
use virtual_disks.Device.{IsDisk, IsHealthy}
use virtual_disks.Disk.Handle.{size}
use virtual_disks.Disk.Lock.{with_lock-Ensures}
use virtual_disks.Disk.WriteAt.{WriteResult, write_at}
use virtual_disks.Disk.WriteAt.Correct.{IsWriteAt, write_at-writes, write_at_healthy}
use virtual_disks.Disk.Stream.{DiskReaderWriter, write, advance}
use virtual_disks.Disk.Stream.Sequential.{IsAt}

module _ {W : World} (d : DiskReaderWriter)
    (D : IsDisk W d.disk_handle.dli d.disk_handle.info.capacity) (s : Machine W) (p : List Byte)
    (o : ℕ) (at : IsAt d D o s) where
  pub record IsStreamWrite (r : WriteResult) (t : Machine W) : Type 0 where
    pub at_end : IsAt d D (o + r.0) t
    pub count_le : r.0 ≤ length p
    pub complete : r.1 ≡ none → (D.content t.lib ≡ patch (D.content s.lib) o p) × (r.0 ≡ length p)

  after_write :
      (held : ℕ → Bool) (r : WriteResult) (t : Machine W)
      → o + length p < 2 ^ 63
      → IsWriteAt d.disk_handle D (record s { held = held }) p o r t
      → Ensures
          (run (advance d r.0 >> ret r) t)
          (λ x u. (u.held ≡ held) × IsStreamWrite x (record u { held = s.held }))
  unfolding run advance
  after_write held r t fits h = (
    h.held,
    record {
      at_end = record {
        offset = moved;
        free = at.free;
        handle_free = at.handle_free;
        apart = at.apart;
      };
      count_le = h.le;
      complete = h.complete;
    },
  )
    where
      cur : t.cells d.offset ≡ pos o
      cur = (λ i. h.cells i d.offset) ∙ at.offset

      moved : set_at t.cells d.offset (int64 (t.cells d.offset +ℤ pos r.0)) d.offset ≡ pos (o + r.0)
      moved =
          set_at_self t.cells d.offset _
          ∙ ap (λ z. int64 (z +ℤ pos r.0)) cur
          ∙ ap int64 (+ℤ_pos o r.0)
          ∙ int64-pos (o + r.0) (omega (arith, h.le))

  -- `R` is what else is known of the result.
  write_by :
      (R : WriteResult → Type 0)
      → o + length p < 2 ^ 63
      → ((held : ℕ → Bool)
          → held d.disk_handle.mutex ≡ false
          → Ensures
              (run (write_at d.disk_handle p (pos o)) (record s { held = held }))
              (λ r t. IsWriteAt d.disk_handle D (record s { held = held }) p o r t × R r))
      → Ensures (run (write d p) s) (λ r t. IsStreamWrite r t × R r)
  unfolding write run
  write_by R fits writing =
      with_lock-Ensures d.mutex _ s (λ r t. IsStreamWrite r t × R r) true at.free
        (λ held others.
          subst
            (λ v.
              Ensures
                (run (write_at d.disk_handle p v >>= λ r. advance d r.0 >> ret r)
                  (record s { held = held }))
                (λ x u. (u.held ≡ held) × (IsStreamWrite x (record u { held = s.held }) × R x)))
            (sym at.offset)
            (Ensures-bind (write_at d.disk_handle p (pos o)) _ (record s { held = held })
              (λ r t. IsWriteAt d.disk_handle D (record s { held = held }) p o r t × R r) _
              (writing held (others d.disk_handle.mutex at.apart ∙ at.handle_free))
              (λ r t post.
                let moved = after_write held r t fits post.0 in (moved.0, (moved.1, post.1)))))

  -- A write of a stream that stands at `o`, on a disk of fewer than 2^63 bytes and within it, leaves
  -- the stream behind the bytes that it reports, with its locks free. Without an error the disk has
  -- changed by exactly the buffer at `o`, and all of the buffer is reported.
  pub write-advances :
      o + length p ≤ size d.disk_handle
      → size d.disk_handle < 2 ^ 63
      → Ensures (run (write d p) s) IsStreamWrite
  write-advances inside small =
      Ensures-weaken (run (write d p) s) (λ r t. IsStreamWrite r t × Unit {0}) _
        (λ r t post. post.0)
        (write_by (λ r. Unit) (omega arith)
          (λ held free.
            Ensures-weaken (run (write_at d.disk_handle p (pos o)) (record s { held = held }))
              (IsWriteAt d.disk_handle D (record s { held = held }) p o) _ (λ r t post. (post, tt))
              (write_at-writes d.disk_handle D (record s { held = held }) p o inside small free)))

  -- On a disk whose requests succeed it gives no error.
  pub write_on :
      IsHealthy D
      → o + length p ≤ size d.disk_handle
      → size d.disk_handle < 2 ^ 63
      → Ensures (run (write d p) s) (λ r t. IsStreamWrite r t × (r.1 ≡ none))
  write_on good inside small =
      write_by (λ r. r.1 ≡ none) (omega arith)
        (λ held free.
          Ensures-both (run (write_at d.disk_handle p (pos o)) (record s { held = held }))
            (IsWriteAt d.disk_handle D (record s { held = held }) p o) (λ r t. r.1 ≡ none)
            (write_at-writes d.disk_handle D (record s { held = held }) p o inside small free)
            (Ensures-weaken (run (write_at d.disk_handle p (pos o)) (record s { held = held })) _ _
              (λ r t post. ap (λ (x : WriteResult). x.1) post.0)
              (write_at_healthy d.disk_handle D (record s { held = held }) p o good inside small
                free)))
