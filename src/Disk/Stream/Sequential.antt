-- ===== src/Disk/Stream/Sequential.antt =====
-- `Read` of a `DiskReaderWriter`: each call goes on where the one before it stopped.
use virtual_disks.Base.{
  ℕ, ◌+◌, ◌≤◌, ◌<◌, ◌^◌, ◌≡◌, ◌≢◌, sym, ap, ◌∙◌, subst, Bool, true, false, inl, List, ◌++◌, arith,
  length, take, length-take,
}
use virtual_disks.Base.Bytes.{Byte, bytes_at, bytes_at-add, length-bytes_at}
use virtual_disks.Base.Int.{pos, ◌+ℤ◌}
use virtual_disks.Base.Word.{int64, int64-pos, +ℤ_pos}
use virtual_disks.Vddk.{World}
use virtual_disks.Effects.{
  Prog, ret, ◌>>=◌, ◌>>◌, set_at, set_at_self, Machine, run, Ensures, Ensures-bind, Ensures-weaken,
}
use virtual_disks.Device.{IsDisk}
use virtual_disks.Disk.Handle.{size}
use virtual_disks.Disk.Lock.{with_lock-Ensures}
use virtual_disks.Disk.ReadAt.{ReadResult, read_at}
use virtual_disks.Disk.ReadAt.Correct.{IsReadAt, CutFits, read_at-reads}
use virtual_disks.Disk.Stream.{DiskReaderWriter, read, advance}

module _ {W : World} (d : DiskReaderWriter)
    (D : IsDisk W d.disk_handle.dli d.disk_handle.info.capacity) where
  -- The stream stands at `o` and nobody holds its locks, which are two.
  pub record IsAt (o : ℕ) (s : Machine W) : Type 0 where
    pub offset : s.cells d.offset ≡ pos o
    pub free : s.held d.mutex ≡ false
    pub handle_free : s.held d.disk_handle.mutex ≡ false
    pub apart : d.disk_handle.mutex ≢ d.mutex

  pub record IsStreamRead (s : Machine W) (p : List Byte) (o : ℕ) (r : ReadResult) (t : Machine W)
      : Type 0 where
    pub at : IsAt (o + r.1) t
    pub kept : D.content t.lib ≡ D.content s.lib
    pub same_length : length r.0 ≡ length p
    pub count_le : r.1 ≤ length p
    pub valid : take r.1 r.0 ≡ bytes_at (D.content s.lib) o r.1

  module _ (s : Machine W) (p : List Byte) (o : ℕ) (at : IsAt o s) where
    after_read :
        (held : ℕ → Bool) (r : ReadResult) (t : Machine W)
        → o + length p < 2 ^ 63
        → IsReadAt d.disk_handle D (record s { held = held }) p o r t
        → Ensures
            (run (advance d r.1 >> ret r) t)
            (λ x u. (u.held ≡ held) × IsStreamRead s p o x (record u { held = s.held }))
    unfolding run advance
    after_read held r t fits h = (
      h.same.held,
      record {
        at = record {
          offset = moved;
          free = at.free;
          handle_free = at.handle_free;
          apart = at.apart;
        };
        kept = h.same.kept;
        same_length = h.same_length;
        count_le = reported;
        valid = h.valid;
      },
    )
      where
        cur : t.cells d.offset ≡ pos o
        cur = (λ i. h.same.cells i d.offset) ∙ at.offset

        reported : r.1 ≤ length p
        reported = omega (
          arith,
          ap length h.valid,
          length-take {0} r.1 r.0,
          length-bytes_at (D.content s.lib) o r.1,
          h.same_length,
        )

        moved :
            set_at t.cells d.offset (int64 (t.cells d.offset +ℤ pos r.1)) d.offset ≡ pos (o + r.1)
        moved =
            set_at_self t.cells d.offset _
            ∙ ap (λ z. int64 (z +ℤ pos r.1)) cur
            ∙ ap int64 (+ℤ_pos o r.1)
            ∙ int64-pos (o + r.1) (omega (arith, reported))

    -- `R` is what else is known of the result.
    pub read_by :
        (R : ReadResult → Type 0)
        → o + length p < 2 ^ 63
        → ((held : ℕ → Bool)
            → held d.disk_handle.mutex ≡ false
            → Ensures
                (run (read_at d.disk_handle p (pos o)) (record s { held = held }))
                (λ r t. IsReadAt d.disk_handle D (record s { held = held }) p o r t × R r))
        → Ensures (run (read d p) s) (λ r t. IsStreamRead s p o r t × R r)
    unfolding read run
    read_by R fits reading =
        with_lock-Ensures d.mutex _ s (λ r t. IsStreamRead s p o r t × R r) true at.free
          (λ held others.
            subst
              (λ v.
                Ensures
                  (run (read_at d.disk_handle p v >>= λ r. advance d r.1 >> ret r)
                    (record s { held = held }))
                  (λ x u.
                    (u.held ≡ held) × (IsStreamRead s p o x (record u { held = s.held }) × R x)))
              (sym at.offset)
              (Ensures-bind (read_at d.disk_handle p (pos o)) _ (record s { held = held })
                (λ r t. IsReadAt d.disk_handle D (record s { held = held }) p o r t × R r) _
                (reading held (others d.disk_handle.mutex at.apart ∙ at.handle_free))
                (λ r t post.
                  let moved = after_read held r t fits post.0 in (moved.0, (moved.1, post.1)))))

    -- A read of a stream that stands at `o`, within a disk of fewer than 2^63 bytes and whose cut-off
    -- tail fits, brings the disk's bytes from `o` on and leaves the stream behind those that it
    -- reports, with its locks free and the disk unchanged.
    pub read-advances :
        o < size d.disk_handle
        → size d.disk_handle < 2 ^ 63
        → o + length p < 2 ^ 63
        → CutFits d.disk_handle o (length p)
        → Ensures (run (read d p) s) (IsStreamRead s p o)
    read-advances inside small fits cut =
        Ensures-weaken (run (read d p) s) (λ r t. IsStreamRead s p o r t × Unit {0}) _
          (λ r t post. post.0)
          (read_by (λ r. Unit) fits
            (λ held free.
              Ensures-weaken (run (read_at d.disk_handle p (pos o)) (record s { held = held }))
                (IsReadAt d.disk_handle D (record s { held = held }) p o) _ (λ r t post. (post, tt))
                (read_at-reads d.disk_handle D (record s { held = held }) p o inside small fits cut
                  free)))

  -- Two reads, one after the other.
  pub read_twice : (p q : List Byte) → Prog (ReadResult × ReadResult)
  read_twice p q = do a ← read d p; b ← read d q; ret (a, b)

  -- Two reads in a row bring neighbouring runs of the disk: no byte twice, and none left out.
  pub read_twice_contiguous :
      (s : Machine W) (p q : List Byte) (o : ℕ)
      → IsAt o s
      → o + length p < size d.disk_handle
      → size d.disk_handle < 2 ^ 63
      → o + length p + length q ≤ size d.disk_handle
      → Ensures (run (read_twice p q) s) (λ r t.
        (take r.0.1 r.0.0 ++ take r.1.1 r.1.0 ≡ bytes_at (D.content s.lib) o (r.0.1 + r.1.1))
        × IsAt (o + r.0.1 + r.1.1) t
        × (D.content t.lib ≡ D.content s.lib))
  unfolding read_twice run
  read_twice_contiguous s p q o at inside small all =
      Ensures-bind (read d p) _ s (IsStreamRead s p o) _
        (read-advances s p o at (omega arith) small (omega arith) (inl (omega arith)))
        (λ a t h.
          Ensures-bind (read d q) _ t (IsStreamRead t q (o + a.1)) _
            (read-advances t q (o + a.1) h.at (omega (arith, h.count_le)) small
              (omega (arith, h.count_le)) (inl (omega (arith, h.count_le))))
            (λ b u k. (rw (h.valid, k.valid, h.kept, ← bytes_at-add), k.at, k.kept ∙ h.kept)))
