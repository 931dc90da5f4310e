-- ===== src/Dumper/Copy/Pass.antt =====
-- One pass of the copy of an area, between two disks.
use virtual_disks.Base.{
  ℕ, ◌+◌, ◌*◌, ◌%◌, ◌≤◌, ◌<◌, ◌^◌, min, ◌≡◌, refl, sym, ◌∙◌, subst, Bool, true, false, Option, none,
  some, List, arith, length, replicate, length-replicate, ltb, Bool-cases, inl, inr, ltb→lt, ltb→le,
  if◌then◌else◌,
}
use virtual_disks.Base.Bytes.{Byte, Content, bytes_at, length-bytes_at, patch}
use virtual_disks.Base.Int.{ℤ, pos, ◌+ℤ◌}
use virtual_disks.Base.Word.{int64, int64-pos, +ℤ_pos}
use virtual_disks.Vddk.{World}
use virtual_disks.Effects.{Prog, ret, ◌>>=◌, Machine, run, Ensures, Ensures-bind}
use virtual_disks.Disklib.Types.{sector_size}
use virtual_disks.Device.{IsHealthy}
use virtual_disks.Disk.Handle.{DiskConnectHandle, size}
use virtual_disks.Disk.ReadAt.{read_at}
use virtual_disks.Disk.ReadAt.Head.{delivered}
use virtual_disks.Disk.WriteAt.{write_at}
use virtual_disks.Dumper.Types.{VadpDumper, DumpError, around}
use virtual_disks.Dumper.Copy.{
  transfer_size, make_buffer, read_from_vmdk, write_to_vmdk, dump_error, unless_dump_error, Copied,
  stopped, copy_pass,
}
use virtual_disks.Dumper.Copy.Pair.{ArePair, Holds, read_source, write_target}

-- The dumper with its two disks open.
abbrev pub between : VadpDumper → (src dst : DiskConnectHandle) → VadpDumper
between d src dst = record d { read_handle = some src; write_handle = some dst }

pub transfer_size_eq : transfer_size ≡ 2048 * 512
unfolding transfer_size
transfer_size_eq = refl

pub delivered_le : (o n : ℕ) → delivered o n ≤ n
unfolding delivered
delivered_le o n = ground arith

pub delivered_whole : (o n : ℕ) → o % sector_size ≡ 0 → n % sector_size ≡ 0 → delivered o n ≡ n
unfolding delivered
delivered_whole o n h k = ground arith

module _ {W : World} (d : VadpDumper) (src dst : DiskConnectHandle) (A : ArePair W src dst)
    (good_source : IsHealthy A.source) (good_target : IsHealthy A.target) (f : Content) where
  vmdk_read :
      (g : Content) (s : Machine W) (p : List Byte) (o : ℕ)
      → Holds src dst A f g s
      → 0 < length p
      → o + length p ≤ size src
      → size src < 2 ^ 63
      → Ensures (run (read_from_vmdk (between d src dst) p (pos o)) s) (λ r t.
        (r ≡ (bytes_at f o (length p), delivered o (length p), none)) × Holds src dst A f g t)
  unfolding read_from_vmdk run
  vmdk_read g s p o holds some_bytes fits small =
      Ensures-bind (read_at src p (pos o)) _ s
        (λ r t.
          (r.0 ≡ bytes_at f o (length p))
          × (r.1 ≡ delivered o (length p))
          × (r.2 ≡ none)
          × Holds src dst A f g t)
        _ (read_source src dst A f g s p o good_source holds some_bytes fits small)
        (λ r t post. ((λ i. (post.0 i, post.1 i, dump_error (post.2 i))), post.3))

  vmdk_write :
      (g : Content) (s : Machine W) (p : List Byte) (o : ℕ)
      → Holds src dst A f g s
      → o + length p ≤ size dst
      → size dst < 2 ^ 63
      → Ensures
          (run (write_to_vmdk (between d src dst) p (pos o)) s)
          (λ r t. (r ≡ (length p, none)) × Holds src dst A f (patch g o p) t)
  unfolding write_to_vmdk run
  vmdk_write g s p o holds fits small =
      Ensures-bind (write_at dst p (pos o)) _ s
        (λ r t. (r.0 ≡ length p) × (r.1 ≡ none) × Holds src dst A f (patch g o p) t) _
        (write_target src dst A f g s p o good_target holds fits small)
        (λ r t post. ((λ i. (post.0 i, dump_error (post.1 i))), post.2))

  -- A pass with its buffer, when its number of bytes is known.
  buffer_pass :
      (g : Content) (s : Machine W) (p block : List Byte) (short : Bool) (o : ℕ)
      (go_on : List Byte → ℤ → Prog Copied) (Q : Copied → Machine W → Type 0)
      → Holds src dst A f g s
      → (short ≡ false → length p ≡ transfer_size)
      → length block ≡ transfer_size
      → 0 < length p
      → o + length p ≤ size src
      → o + length p ≤ size dst
      → size src < 2 ^ 63
      → size dst < 2 ^ 63
      → ((b : List Byte) (t : Machine W)
          → length b ≡ transfer_size
          → Holds src dst A f (patch g o (bytes_at f o (length p))) t
          → Ensures (run (go_on b (pos (o + delivered o (length p)))) t) Q)
      → Ensures
          (run
            (read_from_vmdk (between d src dst) p (pos o) >>= λ r.
              unless_dump_error r.2
                (λ e. ret (stopped (around "ReadFromVmdk: %v" e)))
                (write_to_vmdk (between d src dst) r.0 (pos o) >>= λ w.
                  unless_dump_error w.1
                    (λ e. ret (stopped (around "WriteToVmdk: %v" e)))
                    (go_on (if short then block else r.0) (int64 (pos o +ℤ pos r.1)))))
            s)
          Q
  buffer_pass g s p block short o go_on Q holds whole full some_bytes fits_src fits_dst small_src
        small_dst next =
      Ensures-bind (read_from_vmdk (between d src dst) p (pos o)) _ s
        (λ r t. (r ≡ (got, delivered o (length p), none)) × Holds src dst A f g t) Q
        (vmdk_read g s p o holds some_bytes fits_src small_src)
        (λ r t post.
          subst (λ x. Ensures (run (after_read x) t) Q) (sym post.0)
            (Ensures-bind (write_to_vmdk (between d src dst) got (pos o)) _ t
              (λ w u. (w ≡ (length got, none)) × Holds src dst A f (patch g o got) u) Q
              (vmdk_write g t got o post.1 (omega (arith, length-bytes_at f o (length p)))
                small_dst)
              (λ w u done.
                subst (λ x. Ensures (run (after_write x) u) Q) (sym done.0)
                  (rw
                    (
                      +ℤ_pos o (delivered o (length p)),
                      int64-pos (o + delivered o (length p))
                          (omega (arith, delivered_le o (length p))),
                    )
                    (next (if short then block else got) u kept done.1)))))
    where
      got : List Byte
      got = bytes_at f o (length p)

      after_write : ℕ × Option DumpError → Prog Copied
      after_write w =
          unless_dump_error w.1 (λ e. ret (stopped (around "WriteToVmdk: %v" e)))
            (go_on (if short then block else got) (int64 (pos o +ℤ pos (delivered o (length p)))))

      after_read : List Byte × ℕ × Option DumpError → Prog Copied
      after_read r =
          unless_dump_error r.2 (λ e. ret (stopped (around "ReadFromVmdk: %v" e)))
            (write_to_vmdk (between d src dst) r.0 (pos o) >>= λ w.
              unless_dump_error w.1 (λ e. ret (stopped (around "WriteToVmdk: %v" e)))
                (go_on (if short then block else r.0) (int64 (pos o +ℤ pos r.1))))

      kept : length (if short then block else got) ≡ transfer_size
      kept =
          elim short
              as (λ b.
                (b ≡ false → length p ≡ transfer_size)
                → length (if b then block else got) ≡ transfer_size) [
                  | true ↦ λ w. full
                  | false ↦ λ w. length-bytes_at f o (length p) ∙ w refl
                ]
            whole

  pub copy_pass-Ensures :
      (g : Content) (s : Machine W) (block : List Byte) (o rest : ℕ)
      (go_on : List Byte → ℤ → Prog Copied) (Q : Copied → Machine W → Type 0)
      → Holds src dst A f g s
      → length block ≡ transfer_size
      → 0 < rest
      → o + rest ≤ size src
      → o + rest ≤ size dst
      → size src < 2 ^ 63
      → size dst < 2 ^ 63
      → ((b : List Byte) (t : Machine W)
          → length b ≡ transfer_size
          → Holds src dst A f (patch g o (bytes_at f o (min rest transfer_size))) t
          → Ensures (run (go_on b (pos (o + delivered o (min rest transfer_size)))) t) Q)
      → Ensures (run (copy_pass (between d src dst) block (pos o) (pos rest) go_on) s) Q
  unfolding copy_pass make_buffer
  copy_pass-Ensures g s block o rest go_on Q holds full some_bytes fits_src fits_dst small_src
        small_dst next =
      elim (Bool-cases (ltb (rest + 0) (transfer_size + 0))) [
        | inl less ↦ rw less (
            pass (replicate rest 0) true
              (omega (
                arith,
                length-replicate {A = Byte} rest 0,
                ltb→lt (rest + 0) (transfer_size + 0) less,
              ))
              (λ e. absurd cc))
        | inr enough ↦ rw enough (
            pass block false (omega (arith, full, ltb→le (rest + 0) (transfer_size + 0) enough))
              (λ e. full))
      ]
    where
      pass :
          (p : List Byte) (short : Bool)
          → length p ≡ min rest transfer_size
          → (short ≡ false → length p ≡ transfer_size)
          → Ensures
              (run
                (read_from_vmdk (between d src dst) p (pos o) >>= λ r.
                  unless_dump_error r.2
                    (λ e. ret (stopped (around "ReadFromVmdk: %v" e)))
                    (write_to_vmdk (between d src dst) r.0 (pos o) >>= λ w.
                      unless_dump_error w.1
                        (λ e. ret (stopped (around "WriteToVmdk: %v" e)))
                        (go_on (if short then block else r.0) (int64 (pos o +ℤ pos r.1)))))
                s)
              Q
      pass p short same whole =
          buffer_pass g s p block short o go_on Q holds whole full
            (omega (arith, same, transfer_size_eq)) (omega (arith, same)) (omega (arith, same))
            small_src small_dst
            (λ b t h k.
              subst (λ n. Ensures (run (go_on b (pos (o + delivered o n))) t) Q) (sym same)
                (next b t h (subst (λ n. Holds src dst A f (patch g o (bytes_at f o n)) t) same k)))
