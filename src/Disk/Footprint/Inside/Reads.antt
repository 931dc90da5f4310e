-- ===== src/Disk/Footprint/Inside/Reads.antt =====
-- The requests of `ReadAt`.
use virtual_disks.Base.{
  ℕ, ◌+◌, ◌-◌, ◌*◌, ◌/◌, ◌%◌, ◌≤◌, ◌<◌, ◌^◌, ◌≡◌, refl, List, arith, length, take, drop, overwrite,
  length-overwrite, length-take, ltb, ltb→lt, leb, leb→le, leb→lt, Bool-cases, inl, inr,
}
use virtual_disks.Base.Bytes.{Byte}
use virtual_disks.Base.Int.{ℤ, pos, ◌+ℤ◌, ◌-ℤ◌}
use virtual_disks.Base.Word.{uint64}
use virtual_disks.Effects.{or_panic}
use virtual_disks.Effects.Only.{Only, Only-bind, Only-or_panic, Only-ret}
use virtual_disks.Disklib.Types.{sector_size}
use virtual_disks.Disklib.Io.{read}
use virtual_disks.Disk.Handle.{
  DiskConnectHandle, size, slice, sector_buf, length-sector_buf, with_lock, capacity_lem, at_most,
}
use virtual_disks.Disk.Footprint.{Only-unless_error, Only-with_lock}
use virtual_disks.Disk.ReadAt.Correct.{within, CutFits, trim_lem}
use virtual_disks.Disk.ReadAt.{read_tail, read_middle, read_head, read_at}
use virtual_disks.Disk.Footprint.Inside.{
  IsInsideStep, Only-if_known, moved, whole_sectors, tail_fits, head_fits, read-Only,
}

module _ (h : DiskConnectHandle) (small : size h < 2 ^ 63) where
  read_tail-Only :
      (p : List Byte) (z : ℤ) (k total : ℕ)
      → z ≡ pos k
      → k * sector_size + (length p - total) ≤ size h
      → Only (IsInsideStep h) (read_tail h.dli p z total)
  unfolding read_tail
  read_tail-Only p z k total at fits =
      Only-if_known _ _ _ _
        (λ more.
          let left : 0 < length p - total = ltb→lt 0 (length p - total) more in
          Only-bind _ (read h.dli (uint64 z) 1 sector_buf) _
            (read-Only h small z k 1 sector_buf at (omega (arith, left, fits)) length-sector_buf)
            (λ r. Only-unless_error _ r.0 _ _ (λ e. Only-ret _ _) (Only-ret _ _)))
        (λ done. Only-ret _ _)

  read_middle-Only :
      (p : List Byte) (z : ℤ) (k total : ℕ)
      → z ≡ pos k
      → k * sector_size + (length p - total) ≤ size h
      → Only (IsInsideStep h) (read_middle h.dli p z total)
  unfolding read_middle
  read_middle-Only p z k total at fits =
      let n = (length p - total) / sector_size in
      Only-if_known _ (ltb 0 n) _ _
        (λ more.
          Only-bind _ (read h.dli (uint64 z) n (take (n * sector_size) (drop total p))) _
            (read-Only h small z k n (take (n * sector_size) (drop total p)) at
              (omega (arith, fits)) (whole_sectors p total))
            (λ r.
              Only-unless_error _ r.0 _ _ (λ e. Only-ret _ _)
                (read_tail-Only (overwrite p total r.1) (z +ℤ pos n) (k + n)
                  (total + n * sector_size) (moved z k n at)
                  (tail_fits h p (overwrite p total r.1) k total (length-overwrite p total r.1)
                    fits))))
        (λ none_whole. read_tail-Only p z k total at fits)

  read_head-Only :
      (p : List Byte) (o : ℕ)
      → o + length p ≤ size h
      → Only (IsInsideStep h) (read_head h.dli p (pos o) (pos (o / sector_size)))
  unfolding read_head
  read_head-Only p o fits =
      let count = at_most (pos sector_size -ℤ pos (o % sector_size)) (length p) in
      Only-if_known _ (leb (o % sector_size) 0) _ _
        (λ start.
          read_middle-Only p (pos (o / sector_size)) (o / sector_size) 0 refl
            (omega (arith, fits, leb→le (o % sector_size) 0 start)))
        (λ cut.
          Only-bind _ (read h.dli (uint64 (pos (o / sector_size))) 1 sector_buf) _
            (read-Only h small (pos (o / sector_size)) (o / sector_size) 1 sector_buf refl
              (omega (arith, leb→lt (o % sector_size) 0 cut, fits)) length-sector_buf)
            (λ r.
              Only-unless_error _ r.0 _ _ (λ e. Only-ret _ _)
                (Only-bind _
                  (or_panic
                    (slice r.1 (pos (o % sector_size)) (pos (o % sector_size) +ℤ pos count)))
                  _ (Only-or_panic _ _)
                  (λ x.
                    read_middle-Only (overwrite p 0 x) (pos (o / sector_size) +ℤ pos 1)
                      (o / sector_size + 1) count
                      (moved (pos (o / sector_size)) (o / sector_size) 1 refl)
                      (rw (length-overwrite p 0 x)
                        (head_fits h (length p) o (leb→lt (o % sector_size) 0 cut) fits))))))

  -- Whatever the library answers, and whether it fails or not: `ReadAt` at an offset that is not
  -- negative makes only read requests of its own disk, each for sectors that lie on it and with a
  -- buffer of exactly their size, and takes and gives back only its own mutex. The disk and the read's
  -- end are below 2^63, and where the read is cut off at the disk's end, what is left of it is shorter
  -- than 2 GiB.
  pub read_at-IsInside :
      (p : List Byte) (o : ℕ)
      → o + length p < 2 ^ 63
      → CutFits h o (length p)
      → Only (IsInsideStep h) (read_at h p (pos o))
  unfolding read_at
  read_at-IsInside p o far cut = elim (Bool-cases (leb (size h + 0) (o + 0))) [
    | inl past ↦ rw (capacity_lem h small, past) (Only-ret _ _)
    | inr before ↦
        let inside : o < size h = omega (arith, leb→lt (size h + 0) (o + 0) before) in
        rw (capacity_lem h small, before, trim_lem h p o inside small far cut)
          (Only-bind _ (with_lock _ h.mutex _) _
            (Only-with_lock _ _ h.mutex _ refl refl (
              read_head-Only (take (within h o (length p)) p) o
                (omega (arith, inside, length-take {0} (within h o (length p)) p))))
            (λ r. Only-ret _ _))
  ]
