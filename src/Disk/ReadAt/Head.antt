-- ===== src/Disk/ReadAt/Head.antt =====
-- What the first part of `ReadAt` leaves in the buffer, on a disk and within its range.
use virtual_disks.Base.{
  ℕ, ◌+◌, ◌-◌, ◌*◌, ◌/◌, ◌%◌, ◌≤◌, ◌<◌, ◌^◌, ◌≡◌, refl, ◌⊎◌, ◌≡⟨◌⟩◌, ◌∎, subst, true, false, not,
  ◌&&◌, Option, none, some, List, arith, length, take, drop, overwrite, ltb, leb, ◌==◌, Bool-cases,
  inl, inr, leb→le, if◌then◌else◌,
}
use virtual_disks.Base.Bytes.{Byte, Content, bytes_at, bytes_at_eq, drop-bytes_at, take-bytes_at}
use virtual_disks.Base.Int.{pos, ◌+ℤ◌}
use virtual_disks.Base.Word.{uint64-pos, +ℤ_pos, -ℤ_pos}
use virtual_disks.Vddk.{World}
use virtual_disks.Effects.{Machine, ret, run, ◌>>=◌, or_panic, Ensures, Ensures-bind}
use virtual_disks.Disklib.Types.{VddkError, sector_size}
use virtual_disks.Disklib.Io.{read}
use virtual_disks.Device.{IsDisk, IsSame-refl, IsRead, read-IsRead}
use virtual_disks.Disk.Handle.{
  map_error, sector_buf, length-sector_buf, unless_error, slice, slice_lem, at_most, at_most_cases,
}
use virtual_disks.Disk.ReadAt.{read_middle, read_head}
use virtual_disks.Disk.ReadAt.Filled.{Filled, Filled-overwrite}
use virtual_disks.Disk.ReadAt.Tail.{before, ReadPost, failed}
use virtual_disks.Disk.ReadAt.Middle.{whole_sectors, read_middle-ReadPost}

-- How many bytes `ReadAt` reports for `n` bytes at offset `o`: all of them where the sector that the
-- offset cuts holds them all, else those before the sector that the end cuts.
unfoldable pub delivered : (o n : ℕ) → ℕ
delivered o n =
    if not (o % sector_size == 0) && ltb (o % sector_size + n) sector_size
    then n
    else n - (o + n) % sector_size

head_count : (o len : ℕ) → ℕ
head_count o len = at_most (pos (sector_size - o % sector_size)) len

delivered-aligned : (o n : ℕ) → leb (o % sector_size) 0 ≡ true → whole_sectors n 0 ≡ delivered o n
unfolding delivered
delivered-aligned o n h = ground arith

delivered-head_count :
    (o n : ℕ) → leb (o % sector_size) 0 ≡ false → whole_sectors n (head_count o n) ≡ delivered o n
unfolding delivered head_count
delivered-head_count o n h = ground arith

module _ {W : World} {dli sectors : ℕ} (D : IsDisk W dli sectors) (s₀ : Machine W) (p : List Byte)
    (o : ℕ) (fits : o + length p ≤ sectors * sector_size) (inside : o < sectors * sector_size)
    (small : sectors * sector_size < 2 ^ 63) where
  r : ℕ
  r = o % sector_size

  count : ℕ
  count = head_count o (length p)

  count_bounds :
      (r < sector_size)
      × (count ≤ length p)
      × (r + count ≤ sector_size)
      × ((count ≡ length p) ⊎ (r + count ≡ sector_size))
      × (o / sector_size * sector_size + r ≡ o)
  unfolding r count head_count
  count_bounds = omega (arith, at_most_cases (sector_size - o % sector_size) (length p))

  -- The slice of the first sector is what the buffer wants.
  head_slice :
      (f : Content) (tmp : List Byte)
      → tmp ≡ bytes_at f (o / sector_size * sector_size) (1 * sector_size)
      → take (r + count - r) (drop r tmp) ≡ bytes_at f (o + 0) count
  head_slice f tmp e =
      take (r + count - r) (drop r tmp)
      ≡⟨ (rw (e, drop-bytes_at)) ⟩
        take (r + count - r) (bytes_at f (o / sector_size * sector_size + r) (sector_size - r))
      ≡⟨ take-bytes_at f _ (r + count - r) (sector_size - r) (omega (arith, count_bounds)) ⟩
        bytes_at f (o / sector_size * sector_size + r) (r + count - r)
      ≡⟨ bytes_at_eq f _ (o + 0) _ count (omega (arith, count_bounds))
          (omega (arith, count_bounds)) ⟩
        bytes_at f (o + 0) count ∎

  head-Filled :
      (f : Content) (tmp : List Byte)
      → tmp ≡ bytes_at f (o / sector_size * sector_size) (1 * sector_size)
      → Filled f o p count (overwrite p 0 (take (r + count - r) (drop r tmp)))
  head-Filled f tmp e = rw (head_slice f tmp e) (
      subst (λ c. Filled f o p c (overwrite p 0 (bytes_at f (o + 0) count))) (omega arith)
        (Filled-overwrite f o p 0 count p (omega (arith, count_bounds)) refl))

  head_end :
      (t : Machine W) (err : Option VddkError) (tmp : List Byte)
      → IsRead D (o / sector_size) 1 sector_buf s₀ (err, tmp) t
      → Ensures
          (run
            (unless_error err
              (λ e. ret (p, 0, some (map_error e)))
              do
                tmp_slice ← or_panic (slice tmp (pos r) (pos r +ℤ pos count))
                read_middle dli (overwrite p 0 tmp_slice) (pos (o / sector_size) +ℤ pos 1) count)
            t)
          (ReadPost D s₀ p o (whole_sectors (length p) count))
  unfolding run
  head_end t (some e) tmp h =
      failed D s₀ p o t p 0 (whole_sectors (length p) count) (map_error e) h.same refl refl
        (λ good. cc (h.healthy good))
  head_end t none tmp h =
      rw
        (
          +ℤ_pos r count,
          slice_lem tmp r (r + count) (omega arith)
              (omega (arith, h.same_length, length-sector_buf, count_bounds)),
          +ℤ_pos (o / sector_size) 1,
        )
        (read_middle-ReadPost D s₀ p o fits small t h.same _ count (o / sector_size + 1)
          (head-Filled (before D s₀) tmp (h.filled refl)) (omega (arith, count_bounds))
          (λ lt. omega (arith, count_bounds, lt)) (omega arith))

  -- The whole transfer.
  pub read_head-ReadPost :
      Ensures
        (run (read_head dli p (pos o) (pos (o / sector_size))) s₀)
        (ReadPost D s₀ p o (delivered o (length p)))
  unfolding read_head r count head_count
  read_head-ReadPost = elim (Bool-cases (leb (o % sector_size) 0)) [
    | inl whole ↦ rw whole (
        subst
          (λ c.
            Ensures (run (read_middle dli p (pos (o / sector_size)) 0) s₀) (ReadPost D s₀ p o c))
          (delivered-aligned o (length p) whole)
          (read_middle-ReadPost D s₀ p o fits small s₀ (IsSame-refl D s₀) p 0 (o / sector_size) refl
            (omega arith) (λ lt. omega (arith, leb→le _ _ whole)) (omega arith)))
    | inr cut ↦
        rw
          (
            cut,
            -ℤ_pos sector_size (o % sector_size) (omega arith),
            uint64-pos (o / sector_size) (omega arith),
            ← delivered-head_count o (length p) cut,
          )
          (Ensures-bind (read dli (o / sector_size) 1 sector_buf) _ s₀
            (IsRead D (o / sector_size) 1 sector_buf s₀)
            (ReadPost D s₀ p o (whole_sectors (length p) count))
            (read-IsRead D s₀ (o / sector_size) 1 sector_buf (omega (arith, length-sector_buf))
              length-sector_buf (omega arith))
            (λ x t h. head_end t x.0 x.1 h))
  ]
