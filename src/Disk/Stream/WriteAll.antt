-- ===== src/Disk/Stream/WriteAll.antt =====
-- A client that writes pieces to a stream one after another, goes back and reads to the end.
use virtual_disks.Base.{
  ℕ, ◌+◌, ◌-◌, ◌≤◌, ◌<◌, ◌^◌, ◌≡◌, refl, sym, ap, ◌∙◌, subst, Option, none, some, List, [], ◌∷◌,
  ◌++◌, arith, length, length-append,
}
use virtual_disks.Base.Bytes.{
  Byte, Content, bytes_at, bytes_at-add, bytes_at_cong, bytes_at-patch_self, patch, patch-append,
  patch_above,
}
use virtual_disks.Base.Int.{ℤ, pos}
use virtual_disks.Vddk.{World}
use virtual_disks.Effects.{Prog, ret, ◌>>=◌, Machine, run, Ensures, Ensures-bind}
use virtual_disks.Disklib.Types.{sector_size}
use virtual_disks.Device.{IsDisk, IsHealthy}
use virtual_disks.Disk.Handle.{GoError, eof, size}
use virtual_disks.Disk.WriteAt.{WriteResult}
use virtual_disks.Disk.Stream.{DiskReaderWriter, write, seek}
use virtual_disks.Disk.Stream.Sequential.{IsAt}
use virtual_disks.Disk.Stream.Seeking.{IsSeek, seek-IsSeek}
use virtual_disks.Disk.Stream.Writing.{IsStreamWrite, write_on}
use virtual_disks.Disk.Stream.ReadAll.{read_all, IsAllRead, read_all-IsAllRead}

abbrev pub concat : List (List Byte) → List Byte
concat [] = []
concat (p ∷ ps) = p ++ concat ps

-- The count and that of the rest; or the error that ends it.
unfoldable pub add_count : WriteResult → Prog WriteResult → Prog WriteResult
add_count (n, some err) more = ret (n, some err)
add_count (n, none) more = do rest ← more; ret (n + rest.0, rest.1)

module _ (d : DiskReaderWriter) where
  unfoldable pub write_all : List (List Byte) → Prog WriteResult
  write_all [] = ret (0, none)
  write_all (p ∷ ps) = do r ← write d p; add_count r (write_all ps)

  -- The results of the writes together, of the way back to `o`, and of the reads.
  unfoldable pub write_and_read_back :
      (o : ℕ)
      → List (List Byte)
      → (fuel : ℕ) → List Byte
      → Prog (WriteResult × (ℤ × Option GoError) × List Byte × Option GoError)
  write_and_read_back o ps fuel buf = do
    w ← write_all ps
    z ← seek d (pos o) (pos 0)
    r ← read_all d fuel buf
    ret (w, z, r.0, r.1)

module _ {W : World} (d : DiskReaderWriter)
    (D : IsDisk W d.disk_handle.dli d.disk_handle.info.capacity) where
  record IsAllWritten (s : Machine W) (o : ℕ) (ps : List (List Byte)) (r : WriteResult)
      (t : Machine W) : Type 0 where
    result : r ≡ (length (concat ps), none)
    at : IsAt d D (o + length (concat ps)) t
    written : D.content t.lib ≡ patch (D.content s.lib) o (concat ps)

  module _ (good : IsHealthy D) (small : size d.disk_handle + 2 ^ 32 < 2 ^ 63) where
    summed :
        {l m n : ℕ}
        → (rest : WriteResult) → (k : ℕ) → rest ≡ (m, none)
        → k ≡ l
        → n ≡ l + m
        → k + rest.0 ≡ n
    summed rest k e count total = omega (arith, ap (λ (x : WriteResult). x.0) e, count, total)

    write_all-IsAllWritten :
        (ps : List (List Byte)) (s : Machine W) (o : ℕ)
        → IsAt d D o s
        → o + length (concat ps) ≤ size d.disk_handle
        → Ensures (run (write_all d ps) s) (IsAllWritten s o ps)
    unfolding write_all add_count run
    write_all-IsAllWritten [] s o at fits = record {
      result = refl;
      at = subst (λ n. IsAt d D n s) (omega arith) at;
      written = refl;
    }
    write_all-IsAllWritten (p ∷ ps) s o at fits =
        let total : length (p ++ concat ps) ≡ length p + length (concat ps) =
          length-append p (concat ps) in
        Ensures-bind (write d p) _ s (λ r t. IsStreamWrite d D s p o at r t × (r.1 ≡ none)) _
          (write_on d D s p o at good (omega (arith, total, fits)) (omega arith))
          (λ r t (h, ok).
            let (patched, count) = h.complete ok in
            rw ok (
              Ensures-bind (write_all d ps) _ t (IsAllWritten t (o + length p) ps) _
                (write_all-IsAllWritten ps t (o + length p)
                  (subst (λ n. IsAt d D (o + n) t) count h.at_end) (omega (arith, total, fits)))
                (λ rest u k. record {
                  result = λ i. (
                    summed rest r.0 k.result count total i,
                    ap (λ (x : WriteResult). x.1) k.result i,
                  );
                  at = subst (λ n. IsAt d D n u) (omega (arith, total)) k.at;
                  written =
                      k.written
                      ∙ ap (λ f. patch f (o + length p) (concat ps)) patched
                      ∙ sym (patch-append (D.content s.lib) o p (concat ps));
                })))

    -- The bytes from `o` to the end, of which those of the pieces were written.
    read_after :
        (f : Content) (o : ℕ) (bs : List Byte)
        → o + length bs ≤ size d.disk_handle
        → bytes_at (patch f o bs) o (size d.disk_handle - o)
          ≡ bs ++ bytes_at f (o + length bs) (size d.disk_handle - (o + length bs))
    read_after f o bs fits =
        let rest = size d.disk_handle - (o + length bs) in
        let parts : size d.disk_handle - o ≡ length bs + rest = omega (arith, fits) in
        ap (bytes_at (patch f o bs) o) parts
        ∙ bytes_at-add (patch f o bs) o (length bs) rest
        ∙ ap (λ x. x ++ bytes_at (patch f o bs) (o + length bs) rest) (bytes_at-patch_self f o bs)
        ∙ ap (◌++◌ bs) (
            bytes_at_cong (patch f o bs) f (o + length bs) rest
              (λ i above below. patch_above f o bs i above))

    -- On a disk whose requests within it succeed, and which is more than 4 GiB smaller than the
    -- largest offset, a client writes pieces one after another to a stream that stands at `o`, all
    -- within the disk, seeks to `o` and reads to the end, with a buffer of a sector at least and 2 GiB
    -- at most and enough fuel. The writes report all bytes and no error, the seek goes to `o`, and the
    -- reads bring the pieces put together and behind them the disk's old bytes up to the end, with
    -- io.EOF; the disk has changed by the pieces alone.
    pub write_and_read_back-returns :
        (s : Machine W) (o : ℕ) (ps : List (List Byte)) (fuel : ℕ) (buf : List Byte)
        → IsAt d D o s
        → o + length (concat ps) ≤ size d.disk_handle
        → length buf ≤ 2 ^ 31
        → sector_size ≤ length buf
        → size d.disk_handle - o < fuel
        → Ensures (run (write_and_read_back d o ps fuel buf) s) (λ (w, z, got, err) t.
          (w ≡ (length (concat ps), none))
          × (z ≡ (pos o, none))
          × (got
              ≡ concat ps
                ++ bytes_at
                    (D.content s.lib)
                    (o + length (concat ps))
                    (size d.disk_handle - (o + length (concat ps))))
          × (err ≡ some eof)
          × (D.content t.lib ≡ patch (D.content s.lib) o (concat ps)))
    unfolding write_and_read_back run
    write_and_read_back-returns s o ps fuel buf at fits short enough fuelled =
        Ensures-bind (write_all d ps) _ s (IsAllWritten s o ps) _
          (write_all-IsAllWritten ps s o at fits)
          (λ w t h.
            Ensures-bind (seek d (pos o) (pos 0)) _ t
              (IsSeek d D t (o + length (concat ps)) h.at (some (pos o))) _
              (seek-IsSeek d D t (o + length (concat ps)) h.at (pos o) (pos 0))
              (λ z u k.
                let (here, ok) = k.reached o refl in
                Ensures-bind (read_all d fuel buf) _ u (IsAllRead d D u o) _
                  (read_all-IsAllRead d D good small fuel u buf o
                    (subst (λ n. IsAt d D n u) here k.at_place) short enough (omega (arith, fits))
                    fuelled)
                  (λ r v l. (
                    h.result,
                    λ i. ((k.moved ok ∙ ap pos here) i, ok i),
                    l.got
                        ∙ ap (λ f. bytes_at f o (size d.disk_handle - o))
                            (ap D.content k.lib ∙ h.written)
                        ∙ read_after (D.content s.lib) o (concat ps) fits,
                    l.ended,
                    l.kept ∙ ap D.content k.lib ∙ h.written,
                  ))))
