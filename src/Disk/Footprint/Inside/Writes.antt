-- ===== src/Disk/Footprint/Inside/Writes.antt =====
-- The requests of `WriteAt`.
use virtual_disks.Base.{
  ℕ, ◌+◌, ◌-◌, ◌*◌, ◌/◌, ◌%◌, ◌≤◌, ◌<◌, ◌^◌, ◌≡◌, refl, Bool, true, false, List, [], ◌∷◌, arith,
  length, take, drop, overwrite, ltb, ltb→lt, ltb→le, ◌||◌, leb, leb→le, leb→lt,
}
use virtual_disks.Base.Bytes.{Byte}
use virtual_disks.Base.Int.{ℤ, pos, ◌+ℤ◌, ◌-ℤ◌}
use virtual_disks.Base.Word.{int64-pos, uint64, uint64-pos, +ℤ_pos}
use virtual_disks.Effects.{or_panic}
use virtual_disks.Effects.Only.{Only, Only-bind, Only-or_panic, Only-ret}
use virtual_disks.Disklib.Types.{sector_size}
use virtual_disks.Disklib.Io.{read, write}
use virtual_disks.Disk.Handle.{
  DiskConnectHandle, size, slice, sector_buf, length-sector_buf, capacity_lem, at_most,
}
use virtual_disks.Disk.Footprint.{Only-unless_error, Only-with_lock}
use virtual_disks.Disk.WriteAt.{write_tail, write_middle, write_head, write_at}
use virtual_disks.Disk.Footprint.Inside.{
  IsInsideStep, Only-if_known, moved, tail_fits, head_fits, read-Only,
}

module _ (h : DiskConnectHandle) (small : size h < 2 ^ 63) where
  write-Only :
      (z : ℤ) (k n : ℕ) (buf : List Byte)
      → z ≡ pos k
      → k + n ≤ h.info.capacity
      → Only (IsInsideStep h) (write h.dli (uint64 z) n buf)
  unfolding write Only
  write-Only z k n [] at w = tt
  write-Only z k n (b ∷ bs) at w =
      rw (at, uint64-pos k (omega (arith, w, small))) ((refl, w), λ r. tt)

  write_tail-Only :
      (p : List Byte) (z : ℤ) (k total : ℕ)
      → z ≡ pos k
      → k * sector_size + (length p - total) ≤ size h
      → Only (IsInsideStep h) (write_tail h.dli p z total)
  unfolding write_tail
  write_tail-Only p z k total at fits =
      Only-if_known _ _ _ _
        (λ more.
          let left : 0 < length p - total = ltb→lt 0 (length p - total) more in
          Only-bind _ (read h.dli (uint64 z) 1 sector_buf) _
            (read-Only h small z k 1 sector_buf at (omega (arith, left, fits)) length-sector_buf)
            (λ r.
              Only-unless_error _ r.0 _ _ (λ e. Only-ret _ _)
                (Only-bind _ (write h.dli (uint64 z) 1 (overwrite r.1 0 (drop total p))) _
                  (write-Only z k 1 (overwrite r.1 0 (drop total p)) at (omega (arith, left, fits)))
                  (λ x. Only-unless_error _ x _ _ (λ e. Only-ret _ _) (Only-ret _ _)))))
        (λ done. Only-ret _ _)

  write_middle-Only :
      (p : List Byte) (z : ℤ) (k total : ℕ)
      → z ≡ pos k
      → k * sector_size + (length p - total) ≤ size h
      → Only (IsInsideStep h) (write_middle h.dli p z total)
  unfolding write_middle
  write_middle-Only p z k total at fits =
      let n = (length p - total) / sector_size in
      Only-if_known _ (ltb 0 n) _ _
        (λ more.
          Only-bind _ (write h.dli (uint64 z) n (take (n * sector_size) (drop total p))) _
            (write-Only z k n (take (n * sector_size) (drop total p)) at (omega (arith, fits)))
            (λ r.
              Only-unless_error _ r _ _ (λ e. Only-ret _ _)
                (write_tail-Only p (z +ℤ pos n) (k + n) (total + n * sector_size) (moved z k n at)
                  (tail_fits h p p k total refl fits))))
        (λ none_whole. write_tail-Only p z k total at fits)

  write_head-Only :
      (p : List Byte) (o : ℕ)
      → o + length p ≤ size h
      → Only (IsInsideStep h) (write_head h.dli p (pos o) (pos (o / sector_size)))
  unfolding write_head
  write_head-Only p o fits =
      let count = at_most (pos sector_size -ℤ pos (o % sector_size)) (length p) in
      let first = pos (o / sector_size) in
      Only-if_known _ (leb (o % sector_size) 0) _ _
        (λ start.
          write_middle-Only p first (o / sector_size) 0 refl
            (omega (arith, fits, leb→le (o % sector_size) 0 start)))
        (λ cut.
          let one = leb→lt (o % sector_size) 0 cut in
          Only-bind _ (read h.dli (uint64 first) 1 sector_buf) _
            (read-Only h small first (o / sector_size) 1 sector_buf refl (omega (arith, one, fits))
              length-sector_buf)
            (λ r.
              Only-unless_error _ r.0 _ _ (λ e. Only-ret _ _)
                (Only-bind _
                  (or_panic
                    (slice r.1 (pos (o % sector_size)) (pos (o % sector_size) +ℤ pos count)))
                  _ (Only-or_panic _ _)
                  (λ x.
                    Only-bind _
                      (write h.dli (uint64 first) 1
                        (overwrite r.1 (o % sector_size) (take count p)))
                      _ (write-Only first (o / sector_size) 1 _ refl (omega (arith, one, fits)))
                      (λ y.
                        Only-unless_error _ y _ _ (λ e. Only-ret _ _)
                          (write_middle-Only p (first +ℤ pos 1) (o / sector_size + 1) count
                            (moved first (o / sector_size) 1 refl)
                            (head_fits h (length p) o one fits)))))))

  -- Whatever the library answers, and whether it fails or not: `WriteAt` at an offset that is not
  -- negative makes only requests of its own disk, each a read of sectors that lie on it into a buffer
  -- of exactly their size or a write to sectors that lie on it, and takes and gives back only its own
  -- mutex. The disk and the write's end are below 2^63.
  pub write_at-IsInside :
      (p : List Byte) (o : ℕ) → o + length p < 2 ^ 63 → Only (IsInsideStep h) (write_at h p (pos o))
  unfolding write_at
  write_at-IsInside p o far =
      rw (capacity_lem h small, +ℤ_pos o (length p), int64-pos (o + length p) far)
        (Only-if_known _ (ltb (size h + 0) (o + 0) || ltb (size h + 0) (o + length p + 0)) _ _
          (λ past. Only-ret _ _)
          (λ before.
            Only-with_lock _ _ h.mutex _ refl refl
              (write_head-Only p o (ends_inside (size h) (o + length p) _ before))))
    where
      ends_inside : (a b : ℕ) (t : Bool) → (t || ltb (a + 0) (b + 0)) ≡ false → b ≤ a
      ends_inside a b true e = cc e
      ends_inside a b false e = omega (arith, ltb→le (a + 0) (b + 0) e)
