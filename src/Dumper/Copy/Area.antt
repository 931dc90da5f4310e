-- ===== src/Dumper/Copy/Area.antt =====
-- The copy of one area, and of a list of areas, between two disks.
use virtual_disks.Base.{
  ℕ, zero, suc, ◌+◌, ◌-◌, ◌*◌, ◌%◌, ◌≤◌, ◌<◌, ◌^◌, min, ◌≡◌, sym, ap, ◌∙◌, subst, List, arith,
  length, ltb, Bool-cases, inl, inr, ltb→lt, ltb→le, le→ltb,
}
use virtual_disks.Base.Bytes.{
  Byte, Content, bytes_at, bytes_at-add, length-bytes_at, patch, patch-append,
}
use virtual_disks.Base.Int.{pos}
use virtual_disks.Base.Word.{int64-pos, -ℤ_pos}
use virtual_disks.Vddk.{World}
use virtual_disks.Effects.{Machine, run, Ensures}
use virtual_disks.Disklib.Types.{sector_size}
use virtual_disks.Device.{IsHealthy}
use virtual_disks.Disk.Handle.{DiskConnectHandle, size}
use virtual_disks.Disk.ReadAt.Head.{delivered}
use virtual_disks.Dumper.Types.{VadpDumper}
use virtual_disks.Dumper.Copy.{transfer_size, Copied, copied, stopped, out_of_fuel, copy_area}
use virtual_disks.Dumper.Copy.Pair.{ArePair, Holds}
use virtual_disks.Dumper.Copy.Pass.{between, transfer_size_eq, delivered_whole, copy_pass-Ensures}

module _ {W : World} (d : VadpDumper) (src dst : DiskConnectHandle) (A : ArePair W src dst)
    (good_source : IsHealthy A.source) (good_target : IsHealthy A.target) (f : Content) where
  -- The loop has ended with the copy made.
  abbrev pub Ends : Content → Copied → Machine W → Type 0
  Ends g (copied block) t = (length block ≡ transfer_size) × Holds src dst A f g t
  Ends g (stopped e) t = ⊥
  Ends g out_of_fuel t = ⊥

  patch-min :
      (g : Content) (o n m : ℕ)
      → m ≤ n
      → patch (patch g o (bytes_at f o m)) (o + m) (bytes_at f (o + m) (n - m))
        ≡ patch g o (bytes_at f o n)
  patch-min g o n m le = sym (
      ap (λ k. patch g o (bytes_at f o k)) (omega arith)
      ∙ ap (patch g o) (bytes_at-add f o m (n - m))
      ∙ patch-append g o (bytes_at f o m) (bytes_at f (o + m) (n - m))
      ∙ ap (λ k. patch (patch g o (bytes_at f o m)) (o + k) (bytes_at f (o + m) (n - m)))
          (length-bytes_at f o m))

  fuel_left :
      (fuel n : ℕ) → n ≤ suc fuel * transfer_size → n - min n transfer_size ≤ fuel * transfer_size
  unfolding transfer_size
  fuel_left fuel n h = omega arith

  nothing_left :
      (g : Content) (s : Machine W) (block : List Byte) (o n : ℕ)
      → Holds src dst A f g s
      → length block ≡ transfer_size
      → n ≡ 0
      → Ends (patch g o (bytes_at f o n)) (copied block) s
  nothing_left g s block o n holds full e =
      (full, subst (λ k. Holds src dst A f (patch g o (bytes_at f o k)) s) (sym e) holds)

  -- An area of whole sectors, with fuel for each of its megabytes.
  pub copy_area-Ends :
      (fuel : ℕ) (g : Content) (s : Machine W) (block : List Byte) (o n : ℕ)
      → Holds src dst A f g s
      → length block ≡ transfer_size
      → o % sector_size ≡ 0
      → n % sector_size ≡ 0
      → n ≤ fuel * transfer_size
      → o + n ≤ size src
      → o + n ≤ size dst
      → size src < 2 ^ 63
      → size dst < 2 ^ 63
      → Ensures
          (run (copy_area fuel (between d src dst) block (pos o) (pos (o + n))) s)
          (Ends (patch g o (bytes_at f o n)))
  unfolding copy_area run
  copy_area-Ends zero g s block o n holds full start even enough fits_src fits_dst small_src
        small_dst =
      rw (le→ltb (o + 0) (o + n + 0) (omega arith))
        (nothing_left g s block o n holds full (omega arith))
  copy_area-Ends (suc fuel) g s block o n holds full start even enough fits_src fits_dst small_src
        small_dst =
      elim (Bool-cases (ltb (o + 0) (o + n + 0))) [
        | inl more ↦
            let positive : 0 < n = omega (arith, ltb→lt (o + 0) (o + n + 0) more) in
            rw (more, -ℤ_pos (o + n) o (omega arith), int64-pos (o + n - o) (omega arith), rest_lem)
              (copy_pass-Ensures d src dst A good_source good_target f g s block o n _
                (Ends (patch g o (bytes_at f o n))) holds full positive fits_src fits_dst small_src
                small_dst
                (λ b t h k. rw all (
                  subst
                    (λ e.
                      Ensures (run (copy_area fuel (between d src dst) b (pos (o + m)) (pos e)) t)
                        (Ends (patch g o (bytes_at f o n))))
                    end_lem
                    (subst
                      (λ c.
                        Ensures
                          (run
                            (copy_area fuel (between d src dst) b (pos (o + m))
                              (pos (o + m + (n - m))))
                            t)
                          (Ends c))
                      (patch-min g o n m (omega arith))
                      (copy_area-Ends fuel (patch g o (bytes_at f o m)) t b (o + m) (n - m) k h
                        (omega (arith, transfer_size_eq)) (omega (arith, transfer_size_eq))
                        (fuel_left fuel n enough) (omega arith) (omega arith) small_src
                        small_dst)))))
        | inr no_more ↦ rw no_more (
            nothing_left g s block o n holds full
              (omega (arith, ltb→le (o + 0) (o + n + 0) no_more)))
      ]
    where
      m : ℕ
      m = min n transfer_size

      rest_lem : o + n - o ≡ n
      rest_lem = omega arith

      end_lem : o + m + (n - m) ≡ o + n
      end_lem = omega arith

      all : delivered o m ≡ m
      all = delivered_whole o m start (omega (arith, transfer_size_eq))
