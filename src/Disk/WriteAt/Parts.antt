-- ===== src/Disk/WriteAt/Parts.antt =====
-- What the last two parts of `WriteAt` leave on a disk, within its range.
use virtual_disks.Base.{
  ℕ, ◌+◌, ◌-◌, ◌*◌, ◌≤◌, ◌<◌, ◌^◌, ◌≡◌, refl, ap, sym, ◌∙◌, Option, none, some, List, arith, length,
  take, drop, overwrite, ltb, length-drop, length-overwrite, take-length, take-all, Bool-cases, inl,
  inr, ltb→lt, ltb→le,
}
use virtual_disks.Base.Bytes.{Byte, bytes_at, patch, patch_rewritten, patch-take}
use virtual_disks.Base.Int.{pos}
use virtual_disks.Base.Word.{uint64-pos}
use virtual_disks.Vddk.{World}
use virtual_disks.Effects.{Machine, ret, run, Ensures, Ensures-bind, ◌>>=◌}
use virtual_disks.Disklib.Types.{VddkError, sector_size}
use virtual_disks.Disklib.Io.{read, write}
use virtual_disks.Device.{
  IsDisk, IsHealthy, IsAtomic, IsSame, IsRead, IsWrite, read-IsRead, write-IsWrite,
}
use virtual_disks.Disk.Handle.{
  GoError, wrapped, map_error, sector_buf, length-sector_buf, unless_error,
}
use virtual_disks.Disk.WriteAt.{WriteResult, write_tail}

module _ {W : World} {dli sectors : ℕ} (D : IsDisk W dli sectors) (s₀ : Machine W) (p : List Byte)
    (o : ℕ) where
  -- What the call leaves: the count and the error in `r`.
  pub record WritePost (r : WriteResult) (t : Machine W) : Type 0 where
    pub held : t.held ≡ s₀.held
    pub cells : t.cells ≡ s₀.cells
    pub le : r.0 ≤ length p
    pub complete : r.1 ≡ none → (D.content t.lib ≡ patch (D.content s₀.lib) o p) × (r.0 ≡ length p)
    pub atomic : IsAtomic D → D.content t.lib ≡ patch (D.content s₀.lib) o (take r.0 p)
    pub healthy : IsHealthy D → r.1 ≡ none

  -- The first `total` bytes have been written.
  pub record Written (total : ℕ) (s : Machine W) : Type 0 where
    pub held : s.held ≡ s₀.held
    pub cells : s.cells ≡ s₀.cells
    pub content : D.content s.lib ≡ patch (D.content s₀.lib) o (take total p)

  pub Written-read :
      (total : ℕ) (s t : Machine W) → Written total s → IsSame D s t → Written total t
  Written-read total s t w h = record {
    held = h.held ∙ w.held;
    cells = h.cells ∙ w.cells;
    content = h.kept ∙ w.content;
  }

  -- After a failed read.
  pub failed :
      (t : Machine W) (total : ℕ) (e : GoError)
      → Written total t
      → total ≤ length p
      → (IsHealthy D → ⊥)
      → WritePost (total, some e) t
  failed t total e w le sick = record {
    held = w.held;
    cells = w.cells;
    le = le;
    complete = λ n. cc;
    atomic = λ safe. w.content;
    healthy = λ good. absurd (sick good);
  }

  -- After a failed write.
  pub failed_write :
      (s t : Machine W) (k total : ℕ) (buf : List Byte) (v : VddkError) (e : GoError)
      → Written total s
      → total ≤ length p
      → IsWrite D k buf s (some v) t
      → WritePost (total, some e) t
  failed_write s t k total buf v e w le h = record {
    held = h.quiet.held ∙ w.held;
    cells = h.quiet.cells ∙ w.cells;
    le = le;
    complete = λ n. cc;
    atomic = λ safe. h.atomic safe (λ x. cc) ∙ w.content;
    healthy = λ good. cc (h.healthy good);
  }

  -- A write that puts the next `m` bytes where they belong.
  pub Written-write :
      (s t : Machine W) (total m k : ℕ) (buf : List Byte)
      → total ≤ length p
      → Written total s
      → IsWrite D k buf s none t
      → patch (D.content s.lib) (k * sector_size) buf
        ≡ patch (D.content s.lib) (o + total) (take m (drop total p))
      → Written (total + m) t
  Written-write s t total m k buf le w h e = record {
    held = h.quiet.held ∙ w.held;
    cells = h.quiet.cells ∙ w.cells;
    content =
        h.patched refl
        ∙ e
        ∙ ap (λ f. patch f (o + total) (take m (drop total p))) w.content
        ∙ patch-take (D.content s₀.lib) o total m p le;
  }

  pub all-Written :
      (t : Machine W) (total : ℕ)
      → Written total t
      → length p ≤ total
      → WritePost (length p, none) t
  all-Written t total w le = record {
    held = w.held;
    cells = w.cells;
    le = omega arith;
    complete = λ n. (w.content ∙ ap (patch (D.content s₀.lib) o) (take-all total p le), refl);
    atomic = λ safe.
        w.content ∙ ap (patch (D.content s₀.lib) o) (take-all total p le ∙ sym (take-length p));
    healthy = λ good. refl;
  }

  module _ (s : Machine W) (total k : ℕ) (w : Written total s) (le : total ≤ length p) where
    -- After the write of the last sector.
    tail_write_end :
        (t u : Machine W) (tmp : List Byte) (err : Option VddkError)
        → Written total t
        → tmp ≡ bytes_at (D.content t.lib) (k * sector_size) (1 * sector_size)
        → length p - total < sector_size
        → k * sector_size ≡ o + total
        → IsWrite D k (overwrite tmp 0 (drop total p)) t err u
        → Ensures
            (run
              (unless_error err
                (λ e. ret (total, some (wrapped e "Write into disk in part 3 failed part3.")))
                (ret (length p, none)))
              u)
            WritePost
    unfolding run
    tail_write_end t u tmp (some e) v brought last here h = failed_write t u k total _ e _ v le h
    tail_write_end t u tmp none v brought last here h =
        all-Written u (total + (length p - total))
          (Written-write t u total (length p - total) k _ le v h (
            patch_rewritten (D.content t.lib) (k * sector_size) (1 * sector_size) 0 (o + total) tmp
              (drop total p) (take (length p - total) (drop total p)) brought
              (omega (arith, length-drop {0} total p)) (omega (arith, here))
              (sym (
                take-all (length p - total) (drop total p)
                  (omega (arith, length-drop {0} total p))))))
          (omega arith)

    -- After the read of the last sector.
    tail_read_end :
        (t : Machine W) (tmp : List Byte) (err : Option VddkError)
        → length p - total < sector_size
        → k * sector_size ≡ o + total
        → k < sectors
        → IsRead D k 1 sector_buf s (err, tmp) t
        → Ensures
            (run
              (unless_error err
                (λ e. ret (total, some (map_error e)))
                do
                  err' ← write dli k 1 (overwrite tmp 0 (drop total p))
                  unless_error err'
                      (λ e. ret (total, some (wrapped e "Write into disk in part 3 failed part3.")))
                      (ret (length p, none)))
              t)
            WritePost
    unfolding run
    tail_read_end t tmp (some e) last here inside h =
        failed t total (map_error e) (Written-read total s t w h.same) le
          (λ good. cc (h.healthy good))
    tail_read_end t tmp none last here inside h =
        Ensures-bind (write dli k 1 (overwrite tmp 0 (drop total p))) _ t
          (IsWrite D k (overwrite tmp 0 (drop total p)) t) WritePost
          (write-IsWrite D t k 1 (overwrite tmp 0 (drop total p)) (omega (arith, full)) full
            (omega arith))
          (λ r u x.
            tail_write_end t u tmp r (Written-read total s t w h.same)
              (h.filled refl
                ∙ ap (λ f. bytes_at f (k * sector_size) (1 * sector_size)) (sym h.same.kept))
              last here x)
      where
        full : length (overwrite tmp 0 (drop total p)) ≡ 1 * sector_size
        full = length-overwrite tmp 0 (drop total p) ∙ h.same_length ∙ length-sector_buf

    pub write_tail-WritePost :
        length p - total < sector_size
        → (total < length p → (k * sector_size ≡ o + total) × (k < sectors))
        → k < 2 ^ 64
        → Ensures (run (write_tail dli p (pos k) total) s) WritePost
    unfolding write_tail run
    write_tail-WritePost last here small = elim (Bool-cases (ltb 0 (length p - total))) [
      | inl more ↦
          let lt : total < length p = omega (arith, ltb→lt 0 (length p - total) more) in
          rw (more, uint64-pos k small)
            (Ensures-bind (read dli k 1 sector_buf) _ s (IsRead D k 1 sector_buf s) WritePost
              (read-IsRead D s k 1 sector_buf (omega (arith, length-sector_buf)) length-sector_buf
                (omega (arith, here lt)))
              (λ r t h. tail_read_end t r.1 r.0 last (here lt).0 (here lt).1 h))
      | inr all ↦ rw all (all-Written s total w (omega (arith, ltb→le 0 (length p - total) all)))
    ]
