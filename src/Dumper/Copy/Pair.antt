-- ===== src/Dumper/Copy/Pair.antt =====
-- Two disks of one library, with what is relied on: an access of one leaves the content of the other.
use virtual_disks.Base.{
  ℕ, ◌+◌, ◌≤◌, ◌<◌, ◌^◌, ◌≡◌, refl, ◌∙◌, ap, inl, false, none, List, arith, length, drop-length,
  append-nil,
}
use virtual_disks.Base.Bytes.{Byte, Content, bytes_at, patch}
use virtual_disks.Base.Int.{pos}
use virtual_disks.Vddk.{Call, World}
use virtual_disks.Effects.{Machine, run, Ensures, Ensures-weaken}
use virtual_disks.Effects.Only.{run-Only}
use virtual_disks.Device.{IsDisk, IsHealthy}
use virtual_disks.Disk.Handle.{DiskConnectHandle, size}
use virtual_disks.Disk.ReadAt.{read_at}
use virtual_disks.Disk.ReadAt.Head.{delivered}
use virtual_disks.Disk.ReadAt.Correct.{ReadsAt, within, read_at-ReadsAt}
use virtual_disks.Disk.WriteAt.{write_at}
use virtual_disks.Disk.WriteAt.Parts.{WritePost}
use virtual_disks.Disk.WriteAt.Correct.{write_at-WritePost}
use virtual_disks.Disk.Footprint.{
  IsReadOf, IsReadStep, IsAccessOf, IsAccessStep, read_at-Only, write_at-Only,
}

pub record ArePair (W : World) (src dst : DiskConnectHandle) : Type 0 where
  pub source : IsDisk W src.dli src.info.capacity
  pub target : IsDisk W dst.dli dst.info.capacity
  pub reads_apart :
      (c : Call) (s : W.State)
      → IsReadOf src.dli c
      → target.content (W.answer c s).1 ≡ target.content s
  pub writes_apart :
      (c : Call) (s : W.State)
      → IsAccessOf dst.dli c
      → source.content (W.answer c s).1 ≡ source.content s

module _ {W : World} (src dst : DiskConnectHandle) (A : ArePair W src dst) where
  -- No mutex that an access wants is held, and what the two disks hold.
  pub record Holds (f g : Content) (s : Machine W) : Type 0 where
    pub source_is : A.source.content s.lib ≡ f
    pub target_is : A.target.content s.lib ≡ g
    pub source_free : s.held src.mutex ≡ false
    pub target_free : s.held dst.mutex ≡ false

  -- A read from the source.
  pub read_source :
      (f g : Content) (s : Machine W) (p : List Byte) (o : ℕ)
      → IsHealthy A.source
      → Holds f g s
      → 0 < length p
      → o + length p ≤ size src
      → size src < 2 ^ 63
      → Ensures (run (read_at src p (pos o)) s) (λ r t.
        (r.0 ≡ bytes_at f o (length p))
        × (r.1 ≡ delivered o (length p))
        × (r.2 ≡ none)
        × Holds f g t)
  read_source f g s p o good holds some_bytes fits small =
      Ensures-weaken (run (read_at src p (pos o)) s)
        (λ r t. ReadsAt src A.source s p o r t × (A.target.content t.lib ≡ A.target.content s.lib))
        _
        (λ r t post.
          let (buf, count) = post.0.0.complete (post.0.1 good) in
          (
            buf ∙ rw (full, drop-length, append-nil, holds.source_is) refl,
            count ∙ ap (delivered o) full,
            post.0.1 good,
            record {
              source_is = post.0.0.same.kept ∙ holds.source_is;
              target_is = post.1 ∙ holds.target_is;
              source_free = (λ i. post.0.0.same.held i src.mutex) ∙ holds.source_free;
              target_free = (λ i. post.0.0.same.held i dst.mutex) ∙ holds.target_free;
            },
          ))
        (run-Only A.target.content (IsReadStep src) A.reads_apart (read_at src p (pos o)) s
          (ReadsAt src A.source s p o) (read_at-Only src p (pos o))
          (read_at-ReadsAt src A.source s p o (omega arith) small (omega arith) (inl fits)
            holds.source_free))
    where
      full : within src o (length p) ≡ length p
      full = omega arith

  -- A write to the target.
  pub write_target :
      (f g : Content) (s : Machine W) (p : List Byte) (o : ℕ)
      → IsHealthy A.target
      → Holds f g s
      → o + length p ≤ size dst
      → size dst < 2 ^ 63
      → Ensures
          (run (write_at dst p (pos o)) s)
          (λ r t. (r.0 ≡ length p) × (r.1 ≡ none) × Holds f (patch g o p) t)
  write_target f g s p o good holds fits small =
      Ensures-weaken (run (write_at dst p (pos o)) s)
        (λ r t. WritePost A.target s p o r t × (A.source.content t.lib ≡ A.source.content s.lib)) _
        (λ r t post.
          let (written, count) = post.0.complete (post.0.healthy good) in
          (
            count,
            post.0.healthy good,
            record {
              source_is = post.1 ∙ holds.source_is;
              target_is = written ∙ ap (λ c. patch c o p) holds.target_is;
              source_free = (λ i. post.0.held i src.mutex) ∙ holds.source_free;
              target_free = (λ i. post.0.held i dst.mutex) ∙ holds.target_free;
            },
          ))
        (run-Only A.source.content (IsAccessStep dst) A.writes_apart (write_at dst p (pos o)) s
          (WritePost A.target s p o) (write_at-Only dst p (pos o))
          (write_at-WritePost dst A.target s p o fits small holds.target_free))
