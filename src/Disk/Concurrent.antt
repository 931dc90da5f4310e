-- ===== src/Disk/Concurrent.antt =====
-- Goroutines that read and write one disk at offsets of their own, off the borders of its sectors,
-- under the mutex of the handle.
use virtual_disks.Base.{
  ℕ, ◌+◌, ◌≤◌, ◌<◌, ◌^◌, ◌≡◌, refl, ap, ◌∙◌, ◌⊎◌, inl, inr, subst, Bool, false, none, List, [], ◌∷◌,
  arith, length, take, lt→leb, le→ltb, take-length, drop-length, append-nil,
}
use virtual_disks.Base.Bytes.{Byte, Content, bytes_at, patch}
use virtual_disks.Base.Int.{pos}
use virtual_disks.Base.Word.{int64-pos, +ℤ_pos}
use virtual_disks.Vddk.{World}
use virtual_disks.Effects.{Prog, ret, ◌>>=◌, Machine, run, Ensures, Ensures-bind}
use virtual_disks.Threads.{System, Reach}
use virtual_disks.Threads.Sections.{Avoids, IsSection, with_lock-IsSection, IsSection-map}
use virtual_disks.Threads.Serial.{Serially, nobody, after, left}
use virtual_disks.Threads.Serial.Reached.{Reach-Serially}
use virtual_disks.Device.{IsDisk, IsHealthy}
use virtual_disks.Disk.Handle.{DiskConnectHandle, size, aligned, capacity_lem}
use virtual_disks.Disk.Footprint.{Only-read_head, Only-write_head}
use virtual_disks.Disk.ReadAt.{ReadResult, read_at}
use virtual_disks.Disk.ReadAt.Correct.{IsReadAt, ReadsAt, within, trim_lem, read_at-ReadsAt}
use virtual_disks.Disk.WriteAt.{WriteResult, write_at}
use virtual_disks.Disk.WriteAt.Parts.{WritePost}
use virtual_disks.Disk.WriteAt.Correct.{write_at-WritePost}

pub data AtOp : Type 0 where
  reads_at writes_at : (p : List Byte) (o : ℕ) → AtOp

abbrev pub AtAnswer : Type 0
AtAnswer = ReadResult ⊎ WriteResult

abbrev buf_of : AtOp → List Byte
buf_of (reads_at p o) = p
buf_of (writes_at p o) = p

abbrev offset_of : AtOp → ℕ
offset_of (reads_at p o) = o
offset_of (writes_at p o) = o

unfoldable pub run_at : DiskConnectHandle → AtOp → Prog AtAnswer
run_at h (reads_at p o) = read_at h p (pos o) >>= λ r. ret (inl r)
run_at h (writes_at p o) = write_at h p (pos o) >>= λ r. ret (inr r)

-- A call within the disk that starts or ends within a sector.
pub record IsUnaligned (h : DiskConnectHandle) (op : AtOp) : Type 0 where
  pub inside : offset_of op < size h
  pub fits : offset_of op + length (buf_of op) ≤ size h
  pub cut : aligned (length (buf_of op)) (pos (offset_of op)) ≡ false

-- What a call does to the disk's bytes, at once.
abbrev pub effect : AtOp → Content → Content
effect (reads_at p o) f = f
effect (writes_at p o) f = patch f o p

-- The answer of a call on a disk with these bytes.
abbrev pub IsRight : AtOp → Content → AtAnswer → Type 0
IsRight (reads_at p o) f (inl r) = (r.2 ≡ none) × (r.0 ≡ bytes_at f o (length p))
IsRight (writes_at p o) f (inr r) = r ≡ (length p, none)
IsRight _ f _ = ⊥

module _ {W : World} (h : DiskConnectHandle) (D : IsDisk W h.dli h.info.capacity) where
  module _ (ops : ℕ → AtOp) (s₀ : Machine W) where
    -- The disk's bytes after these calls, each made at once.
    abbrev pub content_after : List (ℕ × AtAnswer) → Content
    content_after [] = D.content s₀.lib
    content_after ((i, a) ∷ runs) = effect (ops i) (content_after runs)

    -- Each call was answered as on the disk that the calls before it left.
    abbrev pub AreRight : List (ℕ × AtAnswer) → Type 0
    AreRight [] = Unit
    AreRight ((i, a) ∷ runs) = IsRight (ops i) (content_after runs) a × AreRight runs

  module _ (small : size h < 2 ^ 63) where
    pub run_at-IsSection :
        (s : Machine W) (op : AtOp) → IsUnaligned h op → IsSection h.mutex (run_at h op)
    unfolding run_at read_at write_at
    run_at-IsSection s (reads_at p o) u = IsSection-map h.mutex (read_at h p (pos o)) inl (
        rw
          (
            capacity_lem h small,
            lt→leb (size h + 0) (o + 0) (omega (arith, u.inside)),
            trim_lem h p o u.inside small (omega (arith, u.fits)) (inl u.fits),
          )
          (rw (take_all, u.cut)
            (with_lock-IsSection h.mutex _ _
              (Only-read_head (Avoids h.mutex) h.dli (λ k n buf. tt) p _ _))))
      where
        take_all : take (within h o (length p)) p ≡ p
        take_all = ap (λ n. take n p) (omega (arith, u.fits)) ∙ take-length p
    run_at-IsSection s (writes_at p o) u =
        rw
          (
            capacity_lem h small,
            le→ltb (size h + 0) (o + 0) (omega (arith, u.inside)),
            +ℤ_pos o (length p),
            int64-pos (o + length p) (omega (arith, u.fits)),
            le→ltb (size h + 0) (o + length p + 0) (omega (arith, u.fits)),
            u.cut,
          )
          (with_lock-IsSection h.mutex _ inr
            (Only-write_head (Avoids h.mutex) h.dli (λ k n buf. tt) (λ k n buf. tt) p _ _))

    module _ (good : IsHealthy D) where
      pub run_at-Ensures :
          (s : Machine W) (op : AtOp)
          → IsUnaligned h op
          → s.held h.mutex ≡ false
          → Ensures (run (run_at h op) s) (λ a t.
            (t.held ≡ s.held)
            × (IsRight op (D.content s.lib) a × (D.content t.lib ≡ effect op (D.content s.lib))))
      unfolding run_at run
      run_at-Ensures s (reads_at p o) u free =
          Ensures-bind (read_at h p (pos o)) _ s (ReadsAt h D s p o) _
            (read_at-ReadsAt h D s p o u.inside small (omega (arith, u.fits)) (inl u.fits) free)
            (λ r t post.
              let clean = post.1 good in
              (post.0.same.held, ((clean, filled r t post.0 clean), post.0.same.kept)))
        where
          full : within h o (length p) ≡ length p
          full = omega (arith, u.fits)

          filled :
              (r : ReadResult) (t : Machine W)
              → IsReadAt h D s p o r t
              → r.2 ≡ none
              → r.0 ≡ bytes_at (D.content s.lib) o (length p)
          filled r t post clean = (post.complete clean).0 ∙ rw (full, drop-length, append-nil) refl
      run_at-Ensures s (writes_at p o) u free =
          Ensures-bind (write_at h p (pos o)) _ s (WritePost D s p o) _
            (write_at-WritePost h D s p o u.fits small free)
            (λ r t post.
              let clean = post.healthy good in
              let (written, count) = post.complete clean in
              (post.held, (((λ i. (count i, clean i)), written))))

      module _ (ops : ℕ → AtOp) (s₀ : Machine W) (unaligned : (i : ℕ) → IsUnaligned h (ops i))
          (free : s₀.held h.mutex ≡ false) where
        pub Serially-AreRight :
            (runs : List (ℕ × AtAnswer)) (t : Machine W)
            → Serially (λ i. run_at h (ops i)) s₀ runs t
            → (t.held h.mutex ≡ false)
              × (AreRight ops s₀ runs × (D.content t.lib ≡ content_after ops s₀ runs))
        Serially-AreRight [] t nobody = (free, (tt, refl))
        Serially-AreRight ((i, a) ∷ runs) t (after {s} before fresh ran) =
            let (free', (right, content)) = Serially-AreRight runs s before in
            let (held, (this, changed)) =
              subst
                (λ x. Ensures x (λ b u.
                  (u.held ≡ s.held)
                  × (IsRight (ops i) (D.content s.lib) b
                      × (D.content u.lib ≡ effect (ops i) (D.content s.lib)))))
                ran (run_at-Ensures s (ops i) (unaligned i) free') in
            (
              ap (λ (f : ℕ → Bool). f h.mutex) held ∙ free',
              (
                (subst (λ f. IsRight (ops i) f a) content this, right),
                changed ∙ ap (effect (ops i)) content,
              ),
            )

        -- Any number of goroutines call `ReadAt` and `WriteAt` on one handle, each within the disk and
        -- not both from a sector's start and of whole sectors, interleaved in any way; the mutex is
        -- free at the start, the disk is smaller than 2^63 bytes, and no request of the library within
        -- it fails. Whenever nobody holds the mutex, some of the calls have been made, each at once
        -- and one after another: every read has brought the bytes that the calls before it left, every
        -- write has put its whole buffer, and none is lost; the other calls have not started.
        pub unaligned_calls_atomic :
            {s : System W AtAnswer}
            → Reach (record { machine = s₀; threads = λ i. run_at h (ops i) }) s
            → s.machine.held h.mutex ≡ false
            → (runs : List (ℕ × AtAnswer)) × ((i : ℕ)
                → s.threads i ≡ left (λ j. run_at h (ops j)) s₀ runs i)
              × AreRight ops s₀ runs
              × (D.content s.machine.lib ≡ content_after ops s₀ runs)
        unaligned_calls_atomic {s} r free_now =
            let (runs, serially, threads) =
              Reach-Serially (λ i. run_at h (ops i)) s₀ h.mutex
                (λ i. run_at-IsSection s₀ (ops i) (unaligned i)) free r free_now in
            let (_, (right, content)) = Serially-AreRight runs s.machine serially in
            (runs, threads, right, content)
