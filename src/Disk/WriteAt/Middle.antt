-- ===== src/Disk/WriteAt/Middle.antt =====
-- What the middle and the first part of `WriteAt` leave on a disk, within its range.
use virtual_disks.Base.{
  ℕ, ◌+◌, ◌-◌, ◌*◌, ◌/◌, ◌%◌, ◌≤◌, ◌<◌, ◌^◌, ◌≡◌, ◌⊎◌, refl, ap, sym, ◌∙◌, subst, Option, none,
  some, List, arith, length, take, drop, overwrite, ltb, leb, leb→le, leb→lt, length-take,
  length-drop, length-overwrite, Bool-cases, inl, inr, ltb→lt, ltb→le,
}
use virtual_disks.Base.Bytes.{Byte, bytes_at, patch, patch_rewritten}
use virtual_disks.Base.Int.{pos, ◌+ℤ◌}
use virtual_disks.Base.Word.{uint64-pos, +ℤ_pos, -ℤ_pos}
use virtual_disks.Vddk.{World}
use virtual_disks.Effects.{Machine, ret, run, Ensures, Ensures-bind, ◌>>=◌, or_panic}
use virtual_disks.Disklib.Types.{VddkError, sector_size}
use virtual_disks.Disklib.Io.{read, write}
use virtual_disks.Device.{IsDisk, IsRead, IsWrite, read-IsRead, write-IsWrite}
use virtual_disks.Disk.Handle.{
  map_error, sector_buf, length-sector_buf, unless_error, slice, slice_lem, at_most, at_most_cases,
}
use virtual_disks.Disk.WriteAt.{write_tail, write_middle, write_head}
use virtual_disks.Disk.WriteAt.Parts.{
  WritePost, Written, Written-read, Written-write, failed, failed_write, write_tail-WritePost,
}

module _ {W : World} {dli sectors : ℕ} (D : IsDisk W dli sectors) (s₀ : Machine W) (p : List Byte)
    (o : ℕ) (fits : o + length p ≤ sectors * sector_size)
    (small : sectors * sector_size < 2 ^ 63) where
  module _ (s : Machine W) (total k : ℕ) (w : Written D s₀ p o total s)
      (le : total ≤ length p) where
    num : ℕ
    num = (length p - total) / sector_size

    part : List Byte
    part = take (num * sector_size) (drop total p)

    length-part : length part ≡ num * sector_size
    unfolding num part
    length-part = rw (length-take, length-drop) (omega arith)

    -- After the write of the whole sectors.
    middle_end :
        (t : Machine W) (err : Option VddkError)
        → k * sector_size ≡ o + total
        → IsWrite D k part s err t
        → Ensures
            (run
              (unless_error err
                (λ e. ret (total, some (map_error e)))
                (write_tail dli p (pos k +ℤ pos num) (total + num * sector_size)))
              t)
            (WritePost D s₀ p o)
    unfolding run num part
    middle_end t (some e) here h = failed_write D s₀ p o s t k total _ e (map_error e) w le h
    middle_end t none here h = rw (+ℤ_pos k num) (
        write_tail-WritePost D s₀ p o t (total + num * sector_size) (k + num)
          (Written-write D s₀ p o s t total (num * sector_size) k part le w h
            (ap (λ j. patch (D.content s.lib) j part) here))
          (omega arith) (omega arith) (λ more. (omega arith, omega arith)) (omega arith))

    pub write_middle-WritePost :
        (total < length p → k * sector_size ≡ o + total)
        → k < 2 ^ 64
        → Ensures (run (write_middle dli p (pos k) total) s) (WritePost D s₀ p o)
    unfolding write_middle num part
    write_middle-WritePost here bound = elim (Bool-cases (ltb 0 num)) [
      | inl more ↦
          let lt : total < length p = omega (arith, ltb→lt 0 num more) in
          rw (more, uint64-pos k bound)
            (Ensures-bind (write dli k num part) _ s (IsWrite D k part s) (WritePost D s₀ p o)
              (write-IsWrite D s k num part (omega (arith, length-part, ltb→lt 0 num more))
                length-part (omega (arith, here lt, ltb→lt 0 num more)))
              (λ r t h. middle_end t r (here lt) h))
      | inr few ↦ rw few (
          write_tail-WritePost D s₀ p o s total k w le (omega (arith, ltb→le 0 num few))
            (λ lt. (here lt, omega (arith, here lt))) bound)
    ]

  r : ℕ
  r = o % sector_size

  count : ℕ
  count = at_most (pos (sector_size - o % sector_size)) (length p)

  count_bounds :
      (r < sector_size)
      × (count ≤ length p)
      × (r + count ≤ sector_size)
      × ((count ≡ length p) ⊎ (r + count ≡ sector_size))
      × (o / sector_size * sector_size + r ≡ o)
  unfolding r count
  count_bounds = omega (arith, at_most_cases (sector_size - o % sector_size) (length p))

  nothing-Written : Written D s₀ p o 0 s₀
  nothing-Written = record { held = refl; cells = refl; content = refl }

  module _ (inside : o < sectors * sector_size) where
    head_write_end :
        (t u : Machine W) (tmp : List Byte) (err : Option VddkError)
        → Written D s₀ p o 0 t
        → tmp ≡ bytes_at (D.content t.lib) (o / sector_size * sector_size) (1 * sector_size)
        → IsWrite D (o / sector_size) (overwrite tmp r (take count p)) t err u
        → Ensures
            (run
              (unless_error err
                (λ e. ret (0, some (map_error e)))
                (write_middle dli p (pos (o / sector_size) +ℤ pos 1) count))
              u)
            (WritePost D s₀ p o)
    unfolding run
    head_write_end t u tmp (some e) v brought h =
        failed_write D s₀ p o t u (o / sector_size) 0 _ e (map_error e) v (omega arith) h
    head_write_end t u tmp none v brought h = rw (+ℤ_pos (o / sector_size) 1) (
        write_middle-WritePost u count (o / sector_size + 1)
          (subst (λ c. Written D s₀ p o c u) (omega arith)
            (Written-write D s₀ p o t u 0 count (o / sector_size) _ (omega arith) v h (
              patch_rewritten (D.content t.lib) (o / sector_size * sector_size) (1 * sector_size) r
                (o + 0) tmp (take count p) (take count p) brought
                (omega (arith, count_bounds, length-take {0} count p)) (omega (arith, count_bounds))
                refl)))
          (omega (arith, count_bounds)) (λ lt. omega (arith, count_bounds, lt)) (omega arith))

    head_read_end :
        (t : Machine W) (tmp : List Byte) (err : Option VddkError)
        → IsRead D (o / sector_size) 1 sector_buf s₀ (err, tmp) t
        → Ensures
            (run
              (unless_error err
                (λ e. ret (0, some (map_error e)))
                do
                  _ ← or_panic (slice tmp (pos r) (pos r +ℤ pos count))
                  err' ← write dli (o / sector_size) 1 (overwrite tmp r (take count p))
                  unless_error err'
                      (λ e. ret (0, some (map_error e)))
                      (write_middle dli p (pos (o / sector_size) +ℤ pos 1) count))
              t)
            (WritePost D s₀ p o)
    unfolding run
    head_read_end t tmp (some e) h =
        failed D s₀ p o t 0 (map_error e) (Written-read D s₀ p o 0 s₀ t nothing-Written h.same)
          (omega arith) (λ good. cc (h.healthy good))
    head_read_end t tmp none h =
        rw
          (
            +ℤ_pos r count,
            slice_lem tmp r (r + count) (omega arith)
                (omega (arith, h.same_length, length-sector_buf, count_bounds)),
          )
          (Ensures-bind (write dli (o / sector_size) 1 (overwrite tmp r (take count p))) _ t
            (IsWrite D (o / sector_size) (overwrite tmp r (take count p)) t) (WritePost D s₀ p o)
            (write-IsWrite D t (o / sector_size) 1 (overwrite tmp r (take count p))
              (omega (arith, full)) full (omega arith))
            (λ x u k.
              head_write_end t u tmp x (Written-read D s₀ p o 0 s₀ t nothing-Written h.same)
                (h.filled refl
                  ∙ ap (λ f. bytes_at f (o / sector_size * sector_size) (1 * sector_size))
                      (sym h.same.kept))
                k))
      where
        full : length (overwrite tmp r (take count p)) ≡ 1 * sector_size
        full = length-overwrite tmp r (take count p) ∙ h.same_length ∙ length-sector_buf

  pub write_head-WritePost :
      Ensures (run (write_head dli p (pos o) (pos (o / sector_size))) s₀) (WritePost D s₀ p o)
  unfolding write_head r count
  write_head-WritePost = elim (Bool-cases (leb (o % sector_size) 0)) [
    | inl whole ↦ rw whole (
        write_middle-WritePost s₀ 0 (o / sector_size) nothing-Written (omega arith)
          (λ lt. omega (arith, leb→le _ _ whole)) (omega arith))
    | inr cut ↦
        let inside : o < sectors * sector_size = omega (arith, leb→lt (o % sector_size) 0 cut) in
        rw
          (
            cut,
            -ℤ_pos sector_size (o % sector_size) (omega arith),
            uint64-pos (o / sector_size) (omega arith),
          )
          (Ensures-bind (read dli (o / sector_size) 1 sector_buf) _ s₀
            (IsRead D (o / sector_size) 1 sector_buf s₀) (WritePost D s₀ p o)
            (read-IsRead D s₀ (o / sector_size) 1 sector_buf (omega (arith, length-sector_buf))
              length-sector_buf (omega arith))
            (λ x t h. head_read_end inside t x.1 x.0 h))
  ]
