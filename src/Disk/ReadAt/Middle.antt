-- ===== src/Disk/ReadAt/Middle.antt =====
-- What the middle and the first part of `ReadAt` leave in the buffer, on a disk and within its
-- range.
use virtual_disks.Base.{
  ℕ, ◌+◌, ◌-◌, ◌*◌, ◌/◌, ◌≤◌, ◌<◌, ◌^◌, ◌≡◌, refl, ◌∙◌, subst, Option, none, some, List, arith,
  length, take, drop, overwrite, ltb, length-overwrite, length-take, length-drop, Bool-cases, inl,
  inr, ltb→lt, ltb→le,
}
use virtual_disks.Base.Bytes.{Byte, bytes_at_eq}
use virtual_disks.Base.Int.{pos, ◌+ℤ◌}
use virtual_disks.Base.Word.{uint64-pos, +ℤ_pos}
use virtual_disks.Vddk.{World}
use virtual_disks.Effects.{Machine, ret, run, Ensures, Ensures-bind}
use virtual_disks.Disklib.Types.{VddkError, sector_size}
use virtual_disks.Disklib.Io.{read}
use virtual_disks.Device.{IsDisk, IsSame, IsSame-trans, IsRead, read-IsRead}
use virtual_disks.Disk.Handle.{map_error, unless_error}
use virtual_disks.Disk.ReadAt.{read_tail, read_middle}
use virtual_disks.Disk.ReadAt.Filled.{Filled, Filled-overwrite, take-overwrite, take-Filled}
use virtual_disks.Disk.ReadAt.Tail.{before, ReadPost, failed, brought, length_q, read_tail-ReadPost}

-- The count that `ReadAt` returns when the part before the whole sectors has `total` bytes.
abbrev pub whole_sectors : (len total : ℕ) → ℕ
whole_sectors len total = total + (len - total) / sector_size * sector_size

module _ {W : World} {dli sectors : ℕ} (D : IsDisk W dli sectors) (s₀ : Machine W) (p : List Byte)
    (o : ℕ) (fits : o + length p ≤ sectors * sector_size)
    (small : sectors * sector_size < 2 ^ 63) where
  module _ (s : Machine W) (same : IsSame D s₀ s) (q : List Byte) (total k : ℕ)
      (filled : Filled (before D s₀) o p total q) (le : total ≤ length p) where
    num : ℕ
    num = (length p - total) / sector_size

    whole_length : length (take (num * sector_size) (drop total q)) ≡ num * sector_size
    unfolding num
    whole_length =
        rw (length-take, length-drop) (omega (arith, length_q D s₀ p o s same q total k filled le))

    -- After the read of the whole sectors.
    middle_end :
        (t : Machine W) (err : Option VddkError) (buf : List Byte)
        → 0 < num
        → k * sector_size ≡ o + total
        → IsRead D k num (take (num * sector_size) (drop total q)) s (err, buf) t
        → Ensures
            (run
              (unless_error err
                (λ e. ret (overwrite q total buf, total, some (map_error e)))
                (read_tail dli
                  (overwrite q total buf)
                  (pos k +ℤ pos num)
                  (total + num * sector_size)))
              t)
            (ReadPost D s₀ p o (total + num * sector_size))
    unfolding run num
    middle_end t (some e) buf more here h =
        failed D s₀ p o t (overwrite q total buf) total (total + num * sector_size) (map_error e)
          (IsSame-trans D s₀ s t same h.same)
          (length-overwrite q total buf ∙ length_q D s₀ p o s same q total k filled le)
          (take-overwrite total q buf ∙ take-Filled _ o p total q filled)
          (λ good. cc (h.healthy good))
    middle_end t none buf more here h = rw (+ℤ_pos k num) (
        read_tail-ReadPost D s₀ p o t (IsSame-trans D s₀ s t same h.same) (overwrite q total buf)
          (total + num * sector_size) (k + num)
          (rw
            (brought D s₀ p o s same q total k filled le t k num _ (none, buf) h refl
              ∙ bytes_at_eq (before D s₀) (k * sector_size) (o + total) (num * sector_size)
                  (num * sector_size) here refl)
            (Filled-overwrite (before D s₀) o p total (num * sector_size) q (omega arith) filled))
          (omega arith) (omega arith) (λ more. (omega arith, omega arith)) (omega arith))

    pub read_middle-ReadPost :
        (total < length p → k * sector_size ≡ o + total)
        → k < 2 ^ 64
        → Ensures
            (run (read_middle dli q (pos k) total) s)
            (ReadPost D s₀ p o (whole_sectors (length p) total))
    unfolding read_middle num
    read_middle-ReadPost here bound =
        rw (length_q D s₀ p o s same q total k filled le) (elim (Bool-cases (ltb 0 num)) [
          | inl more ↦
              let lt : total < length p = omega (arith, ltb→lt 0 num more) in
              rw (more, uint64-pos k bound)
                (Ensures-bind (read dli k num (take (num * sector_size) (drop total q))) _ s
                  (IsRead D k num (take (num * sector_size) (drop total q)) s)
                  (ReadPost D s₀ p o (total + num * sector_size))
                  (read-IsRead D s k num (take (num * sector_size) (drop total q))
                    (omega (arith, whole_length, ltb→lt 0 num more)) whole_length
                    (omega (arith, here lt, ltb→lt 0 num more)))
                  (λ r t h. middle_end t r.0 r.1 (ltb→lt 0 num more) (here lt) h))
          | inr few ↦ rw few (
              subst (λ c. Ensures (run (read_tail dli q (pos k) total) s) (ReadPost D s₀ p o c))
                (omega (arith, ltb→le 0 num few))
                (read_tail-ReadPost D s₀ p o s same q total k filled le
                  (omega (arith, ltb→le 0 num few)) (λ lt. (here lt, omega (arith, here lt)))
                  bound))
        ])
