-- ===== src/Dumper/Copy/Clone.antt =====
-- `DumpCloneDisk` on a list of areas of whole sectors, between two disks.
use virtual_disks.Base.{
  ℕ, zero, suc, ◌+◌, ◌*◌, ◌%◌, ◌≤◌, ◌<◌, ◌^◌, ◌≡◌, refl, sym, ap, ◌∙◌, Bool, false, ◌&&◌, ◌||◌,
  none, some, List, [], ◌∷◌, arith, length, replicate, length-replicate, ltb, leb, ◌==◌, ==_iff,
  Bool-cases, inl, inr, le→leb, lt→ltb, if◌then◌else◌,
}
use virtual_disks.Base.Bytes.{Byte, Content, bytes_at, patch}
use virtual_disks.Base.Int.{pos}
use virtual_disks.Base.Word.{int64-pos, +ℤ_pos}
use virtual_disks.Vddk.{World}
use virtual_disks.Effects.{Machine, run, Ensures, Ensures-bind}
use virtual_disks.Disklib.Types.{sector_size}
use virtual_disks.Device.{IsHealthy}
use virtual_disks.Disk.Handle.{DiskConnectHandle, size}
use virtual_disks.Dumper.Types.{VadpDumper, ChangedArea}
use virtual_disks.Dumper.Copy.{
  transfer_size, Copied, copied, stopped, out_of_fuel, and_then, copy_area, copy_areas, clone_error,
  dump_clone_disk,
}
use virtual_disks.Dumper.Copy.Pair.{ArePair, Holds}
use virtual_disks.Dumper.Copy.Pass.{between}
use virtual_disks.Dumper.Copy.Area.{Ends, copy_area-Ends}

-- Areas that do not start or reach below 0: where each starts, and how long it is.
abbrev pub areas_at : List (ℕ × ℕ) → List ChangedArea
areas_at [] = []
areas_at ((a, n) ∷ rest) = record { start = pos a; length = pos n } ∷ areas_at rest

abbrev pub in_regions : (base : ℕ) → List (ℕ × ℕ) → ℕ → Bool
in_regions base [] x = false
in_regions base ((a, n) ∷ rest) x =
    (leb (base + a) x && ltb x (base + a + n)) || in_regions base rest x

-- Each area is one of whole sectors, lies on both disks and has fuel for each of its megabytes.
abbrev pub AreFit : (fuel base src_size dst_size : ℕ) → List (ℕ × ℕ) → Type 0
AreFit fuel base src_size dst_size [] = Unit
AreFit fuel base src_size dst_size ((a, n) ∷ rest) =
    ((base + a) % sector_size ≡ 0)
    × (n % sector_size ≡ 0)
    × (n ≤ fuel * transfer_size)
    × (base + a + n ≤ src_size)
    × (base + a + n ≤ dst_size)
    × AreFit fuel base src_size dst_size rest

-- The target after the areas, one after the other.
abbrev patch_regions : Content → (base : ℕ) → List (ℕ × ℕ) → Content → Content
patch_regions f base [] g = g
patch_regions f base ((a, n) ∷ rest) g =
    patch_regions f base rest (patch g (base + a) (bytes_at f (base + a) n))

patch_other_lem :
    (g f : Content) (a n x : ℕ)
    → patch g a (bytes_at f a n) x ≡ (if leb a x && ltb x (a + n) then f x else g x)
patch_other_lem g f a zero x = ground arith
patch_other_lem g f a (suc n) x = elim (Bool-cases (x == a)) [
  | inl here ↦
      let same : x ≡ a = (==_iff x a).0 here in
      rw (here, le→leb a x (omega arith), lt→ltb x (a + suc n) (omega arith)) (ap f (sym same))
  | inr past ↦
      let apart : (x ≡ a) → ⊥ = λ e. ground (arith, past, (==_iff x a).1 e) in
      rw past (patch_other_lem g f (a + 1) n x ∙ ground arith)
]

patch_regions_lem :
    (f g : Content) (base : ℕ) (regions : List (ℕ × ℕ)) (x : ℕ)
    → patch_regions f base regions g x ≡ (if in_regions base regions x then f x else g x)
patch_regions_lem f g base [] x = refl
patch_regions_lem f g base ((a, n) ∷ rest) x =
    patch_regions_lem f (patch g (base + a) (bytes_at f (base + a) n)) base rest x
    ∙ rw patch_other_lem (ground arith)

module _ {W : World} (d : VadpDumper) (src dst : DiskConnectHandle) (A : ArePair W src dst)
    (good_source : IsHealthy A.source) (good_target : IsHealthy A.target) (f : Content) where
  copy_areas-Ends :
      (fuel base : ℕ) (regions : List (ℕ × ℕ)) (g : Content) (s : Machine W) (block : List Byte)
      → Holds src dst A f g s
      → length block ≡ transfer_size
      → AreFit fuel base (size src) (size dst) regions
      → size src < 2 ^ 63
      → size dst < 2 ^ 63
      → Ensures
          (run (copy_areas fuel (between d src dst) block (pos base) (areas_at regions)) s)
          (Ends d src dst A good_source good_target f (patch_regions f base regions g))
  unfolding copy_areas run
  copy_areas-Ends fuel base [] g s block holds full fit small_src small_dst = (full, holds)
  copy_areas-Ends fuel base ((a, n) ∷ rest) g s block holds full fit small_src small_dst =
      rw
        (
          +ℤ_pos base a,
          int64-pos (base + a) (omega (arith, fit.3)),
          +ℤ_pos (base + a) n,
          int64-pos (base + a + n) (omega (arith, fit.3)),
        )
        (Ensures-bind
          (copy_area fuel (between d src dst) block (pos (base + a)) (pos (base + a + n))) _ s
          (Ends d src dst A good_source good_target f
            (patch g (base + a) (bytes_at f (base + a) n)))
          _
          (copy_area-Ends d src dst A good_source good_target f fuel g s block (base + a) n holds
            full fit.0 fit.1 fit.2 fit.3 fit.4 small_src small_dst)
          (λ r t ends.
            next r t
              (λ b h k.
                copy_areas-Ends fuel base rest (patch g (base + a) (bytes_at f (base + a) n)) t b k
                  h fit.5 small_src small_dst)
              ends))
    where
      next :
          (r : Copied) (t : Machine W)
          → ((b : List Byte)
              → length b ≡ transfer_size
              → Holds src dst A f (patch g (base + a) (bytes_at f (base + a) n)) t
              → Ensures (run (copy_areas fuel (between d src dst) b (pos base) (areas_at rest)) t) (
                  Ends d src dst A good_source good_target f
                    (patch_regions f base rest (patch g (base + a) (bytes_at f (base + a) n)))))
          → Ends d src dst A good_source good_target f
              (patch g (base + a) (bytes_at f (base + a) n))
              r
              t
          → Ensures
              (run
                (and_then r (λ b. copy_areas fuel (between d src dst) b (pos base) (areas_at rest)))
                t)
              (Ends d src dst A good_source good_target f
                (patch_regions f base rest (patch g (base + a) (bytes_at f (base + a) n))))
      next (copied b) t go_on ends = go_on b ends.0 ends.1
      next (stopped e) t go_on ends = ends
      next out_of_fuel t go_on ends = ends

  cloned :
      (base : ℕ) (regions : List (ℕ × ℕ)) (g : Content) (r : Copied) (t : Machine W)
      → Ends d src dst A good_source good_target f (patch_regions f base regions g) r t
      → (clone_error r ≡ some none)
        × (A.source.content t.lib ≡ f)
        × ((x : ℕ) → A.target.content t.lib x ≡ (if in_regions base regions x then f x else g x))
  unfolding clone_error
  cloned base regions g (copied b) t ends = (
    refl,
    ends.1.source_is,
    λ x. (λ i. ends.1.target_is i x) ∙ patch_regions_lem f g base regions x,
  )
  cloned base regions g (stopped e) t ends = absurd ends
  cloned base regions g out_of_fuel t ends = absurd ends

  -- Between two different disks of fewer than 2^63 bytes that answer every request within them, with
  -- free locks: `DumpCloneDisk` on areas of whole sectors that lie on both ends without an error, given
  -- fuel for each megabyte of each area. Each byte of the target is then the source's where one of the
  -- areas holds it, and as before elsewhere; the source is as before.
  pub dump_clone_disk-clones :
      (fuel base len : ℕ) (regions : List (ℕ × ℕ)) (g : Content) (s : Machine W)
      → Holds src dst A f g s
      → AreFit fuel base (size src) (size dst) regions
      → size src < 2 ^ 63
      → size dst < 2 ^ 63
      → Ensures
          (run
            (dump_clone_disk fuel (between d src dst) (record {
              start_offset = pos base;
              length = pos len;
              changed_area = areas_at regions;
            }))
            s)
          (λ r t.
            (r ≡ some none)
            × (A.source.content t.lib ≡ f)
            × ((x : ℕ)
                → A.target.content t.lib x ≡ (if in_regions base regions x then f x else g x)))
  unfolding dump_clone_disk run
  dump_clone_disk-clones fuel base len regions g s holds fit small_src small_dst =
      Ensures-bind
        (copy_areas fuel (between d src dst) (replicate transfer_size 0) (pos base)
          (areas_at regions))
        _ s (Ends d src dst A good_source good_target f (patch_regions f base regions g)) _
        (copy_areas-Ends fuel base regions g s (replicate transfer_size 0) holds
          (length-replicate {A = Byte} transfer_size 0) fit small_src small_dst)
        (λ r t ends. cloned base regions g r t ends)
