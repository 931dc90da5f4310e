-- ===== src/Dumper/Copy/Stuck.antt =====
-- `DumpCloneDisk` on an area that ends within a sector.
use virtual_disks.Base.{
  ℕ, zero, suc, ◌+◌, ◌-◌, ◌%◌, ◌≤◌, ◌<◌, ◌^◌, min, ◌≡◌, refl, subst, none, List, ◌∷◌, arith, length,
  replicate, length-replicate, lt→ltb,
}
use virtual_disks.Base.Bytes.{Byte, Content}
use virtual_disks.Base.Int.{pos}
use virtual_disks.Base.Word.{int64-pos, +ℤ_pos, -ℤ_pos}
use virtual_disks.Vddk.{World}
use virtual_disks.Effects.{◌>>=◌, Machine, run, Ensures, Ensures-bind}
use virtual_disks.Disklib.Types.{sector_size}
use virtual_disks.Device.{IsHealthy}
use virtual_disks.Disk.Handle.{DiskConnectHandle, size}
use virtual_disks.Disk.ReadAt.Head.{delivered}
use virtual_disks.Dumper.Types.{VadpDumper, ChangedArea}
use virtual_disks.Dumper.Copy.{
  transfer_size, out_of_fuel, and_then, copy_area, copy_areas, clone_error, dump_clone_disk,
}
use virtual_disks.Dumper.Copy.Pair.{ArePair, Holds}
use virtual_disks.Dumper.Copy.Pass.{between, delivered_le, copy_pass-Ensures}

-- From the start of a sector, whole sectors are reported.
delivered_even : (o n : ℕ) → o % sector_size ≡ 0 → delivered o n % sector_size ≡ 0
unfolding delivered
delivered_even o n h = ground arith

module _ {W : World} (d : VadpDumper) (src dst : DiskConnectHandle) (A : ArePair W src dst)
    (good_source : IsHealthy A.source) (good_target : IsHealthy A.target) (f : Content) where
  copy_area_stuck :
      (fuel : ℕ) (g : Content) (s : Machine W) (block : List Byte) (o n : ℕ)
      → Holds src dst A f g s
      → length block ≡ transfer_size
      → o % sector_size ≡ 0
      → 0 < n % sector_size
      → o + n ≤ size src
      → o + n ≤ size dst
      → size src < 2 ^ 63
      → size dst < 2 ^ 63
      → Ensures
          (run (copy_area fuel (between d src dst) block (pos o) (pos (o + n))) s)
          (λ r t. r ≡ out_of_fuel)
  unfolding copy_area run
  copy_area_stuck zero g s block o n holds full start cut fits_src fits_dst small_src small_dst =
      rw (lt→ltb (o + 0) (o + n + 0) (omega arith)) refl
  copy_area_stuck (suc fuel) g s block o n holds full start cut fits_src fits_dst small_src
        small_dst =
      rw
        (
          lt→ltb (o + 0) (o + n + 0) (omega arith),
          -ℤ_pos (o + n) o (omega arith),
          int64-pos (o + n - o) (omega arith),
          rest_lem,
        )
        (copy_pass-Ensures d src dst A good_source good_target f g s block o n _
          (λ r t. r ≡ out_of_fuel) holds full (omega arith) fits_src fits_dst small_src small_dst
          (λ b t h k.
            subst
              (λ e.
                Ensures (run (copy_area fuel (between d src dst) b (pos (o + m)) (pos e)) t)
                  (λ r u. r ≡ out_of_fuel))
              end_lem
              (copy_area_stuck fuel _ t b (o + m) (n - m) k h (omega (arith, even))
                (omega (arith, even, le)) (omega (arith, le)) (omega (arith, le)) small_src
                small_dst)))
    where
      m : ℕ
      m = delivered o (min n transfer_size)

      even : m % sector_size ≡ 0
      even = delivered_even o (min n transfer_size) start

      le : m ≤ n
      le = omega (arith, delivered_le o (min n transfer_size))

      rest_lem : o + n - o ≡ n
      rest_lem = omega arith

      end_lem : o + m + (n - m) ≡ o + n
      end_lem = omega (arith, le)

  -- Between two different disks of fewer than 2^63 bytes that answer every request within them, with
  -- free locks: on a first area that lies on both, starts at a sector and ends within one,
  -- `DumpCloneDisk` uses up any fuel, that is, it never returns.
  pub dump_clone_disk_stuck :
      (fuel base a n len : ℕ) (areas : List ChangedArea) (g : Content) (s : Machine W)
      → Holds src dst A f g s
      → (base + a) % sector_size ≡ 0
      → 0 < n % sector_size
      → base + a + n ≤ size src
      → base + a + n ≤ size dst
      → size src < 2 ^ 63
      → size dst < 2 ^ 63
      → Ensures
          (run
            (dump_clone_disk fuel (between d src dst) (record {
              start_offset = pos base;
              length = pos len;
              changed_area = record { start = pos a; length = pos n } ∷ areas;
            }))
            s)
          (λ r t. r ≡ none)
  unfolding dump_clone_disk copy_areas clone_error run
  dump_clone_disk_stuck fuel base a n len areas g s holds start cut fits_src fits_dst small_src
        small_dst =
      rw
        (
          +ℤ_pos base a,
          int64-pos (base + a) (omega arith),
          +ℤ_pos (base + a) n,
          int64-pos (base + a + n) (omega arith),
        )
        (Ensures-bind
          (copy_area fuel (between d src dst) block (pos (base + a)) (pos (base + a + n)) >>= λ r.
            and_then r (λ b. copy_areas fuel (between d src dst) b (pos base) areas))
          _ s (λ r t. r ≡ out_of_fuel) _
          (Ensures-bind
            (copy_area fuel (between d src dst) block (pos (base + a)) (pos (base + a + n))) _ s
            (λ r t. r ≡ out_of_fuel) _
            (copy_area_stuck fuel g s block (base + a) n holds
              (length-replicate {A = Byte} transfer_size 0) start cut fits_src fits_dst small_src
              small_dst)
            (λ r t e. rw e refl))
          (λ r t e. rw e refl))
    where
      block : List Byte
      block = replicate transfer_size 0
