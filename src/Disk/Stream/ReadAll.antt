-- ===== src/Disk/Stream/ReadAll.antt =====
-- A client that reads a stream until an error, as `io.ReadAll` and `io.Copy` do.
use virtual_disks.Base.{
  ℕ, zero, suc, ◌+◌, ◌-◌, ◌*◌, min, ◌≤◌, ◌<◌, ◌^◌, ◌≡◌, refl, sym, ap, ◌∙◌, subst, inl, inr, Option,
  none, some, List, [], ◌++◌, arith, length, take, leb, Bool-cases, leb→le, leb→lt,
}
use virtual_disks.Base.Bytes.{Byte, bytes_at, bytes_at-add}
use virtual_disks.Base.Int.{pos}
use virtual_disks.Vddk.{World}
use virtual_disks.Effects.{Prog, ret, ◌>>=◌, Machine, run, Ensures, Ensures-bind, Ensures-weaken}
use virtual_disks.Disklib.Types.{sector_size}
use virtual_disks.Device.{IsDisk, IsHealthy}
use virtual_disks.Disk.Handle.{GoError, eof, size}
use virtual_disks.Disk.Bounds.{read_at_past_end}
use virtual_disks.Disk.ReadAt.{ReadResult, read_at}
use virtual_disks.Disk.ReadAt.Head.{delivered}
use virtual_disks.Disk.ReadAt.Correct.{within, ReadsAt, read_at-ReadsAt}
use virtual_disks.Disk.Stream.{DiskReaderWriter, read}
use virtual_disks.Disk.Stream.Sequential.{IsAt, IsStreamRead, read_by}
use virtual_disks.Disk.Stream.Concurrent.{cut_fits}

-- A buffer of a sector at least brings a byte at least.
some_delivered :
    (sectors o len : ℕ)
    → o < sectors * sector_size
    → sector_size ≤ len
    → 0 < delivered o (min len (sectors * sector_size - o))
unfolding delivered
some_delivered sectors o len inside enough = ground arith

none_behind :
    (sectors o len : ℕ)
    → o < sectors * sector_size
    → o + delivered o (min len (sectors * sector_size - o)) ≤ sectors * sector_size
unfolding delivered
none_behind sectors o len inside = ground arith

-- What has been read, in front of the rest; or the error that ends it.
unfoldable pub keep_on :
    ReadResult → Prog (List Byte × Option GoError) → Prog (List Byte × Option GoError)
keep_on (buf, n, some err) more = ret (take n buf, some err)
keep_on (buf, n, none) more = do rest ← more; ret (take n buf ++ rest.0, rest.1)

module _ (d : DiskReaderWriter) where
  unfoldable pub read_all : (fuel : ℕ) → List Byte → Prog (List Byte × Option GoError)
  read_all zero p = ret ([], none)
  read_all (suc fuel) p = do r ← read d p; keep_on r (read_all fuel r.0)

module _ {W : World} (d : DiskReaderWriter)
    (D : IsDisk W d.disk_handle.dli d.disk_handle.info.capacity) where
  -- The disk's bytes from `o` to its end, then io.EOF, with the stream at the end.
  pub record IsAllRead (s : Machine W) (o : ℕ) (r : List Byte × Option GoError) (t : Machine W)
      : Type 0 where
    pub got : r.0 ≡ bytes_at (D.content s.lib) o (size d.disk_handle - o)
    pub ended : r.1 ≡ some eof
    pub at : IsAt d D (size d.disk_handle) t
    pub kept : D.content t.lib ≡ D.content s.lib

  abbrev GoesOn : (o : ℕ) → ReadResult → Type 0
  GoesOn o r = (r.2 ≡ none) × (0 < r.1) × (o + r.1 ≤ size d.disk_handle)

  module _ (good : IsHealthy D) (small : size d.disk_handle + 2 ^ 32 < 2 ^ 63) where
    read_on :
        (s : Machine W) (p : List Byte) (o : ℕ)
        → IsAt d D o s
        → length p ≤ 2 ^ 31
        → sector_size ≤ length p
        → o < size d.disk_handle
        → Ensures (run (read d p) s) (λ r t. IsStreamRead d D s p o r t × GoesOn o r)
    read_on s p o at short enough inside =
        read_by d D s p o at (GoesOn o) (omega arith) (λ held free.
          Ensures-weaken (run (read_at d.disk_handle p (pos o)) (record s { held = held }))
            (ReadsAt d.disk_handle D (record s { held = held }) p o) _
            (λ r t (post, healthy).
              let (buf, count) = post.complete (healthy good) in
              let sectors = d.disk_handle.info.capacity in
              (
                post,
                (
                  healthy good,
                  subst (λ n. 0 < n) (sym count)
                      (some_delivered sectors o (length p) inside enough),
                  subst (λ n. o + n ≤ size d.disk_handle) (sym count)
                      (none_behind sectors o (length p) inside),
                ),
              ))
            (read_at-ReadsAt d.disk_handle D (record s { held = held }) p o inside (omega arith)
              (omega arith) (cut_fits d D o (length p) short) free))

    read_end :
        (s : Machine W) (p : List Byte)
        → IsAt d D (size d.disk_handle) s
        → length p ≤ 2 ^ 31
        → Ensures
            (run (read d p) s)
            (λ r t. IsStreamRead d D s p (size d.disk_handle) r t × ((r.1 ≡ 0) × (r.2 ≡ some eof)))
    read_end s p at short =
        read_by d D s p (size d.disk_handle) at (λ r. (r.1 ≡ 0) × (r.2 ≡ some eof)) (omega arith)
          (λ held free.
            rw
              (read_at_past_end d.disk_handle (record s { held = held }) p (size d.disk_handle)
                (omega arith) (omega arith))
              (
                record {
                  same = record { held = refl; cells = refl; kept = refl };
                  same_length = refl;
                  valid = refl;
                  complete = λ e. cc;
                },
                (refl, refl),
              ))

    ended :
        (s : Machine W) (p : List Byte) (o : ℕ)
        → o ≡ size d.disk_handle
        → (r : ReadResult) (t : Machine W)
        → IsStreamRead d D s p (size d.disk_handle) r t × ((r.1 ≡ 0) × (r.2 ≡ some eof))
        → (more : Prog (List Byte × Option GoError))
        → Ensures (run (keep_on r more) t) (IsAllRead s o)
    unfolding keep_on run
    ended s p o here r t (h, (nothing, at_end)) more =
        let none_left : 0 ≡ size d.disk_handle - o = omega (arith, here) in
        rw at_end record {
          got =
              h.valid
              ∙ ap (bytes_at (D.content s.lib) (size d.disk_handle)) nothing
              ∙ ap (bytes_at (D.content s.lib) o) none_left;
          ended = refl;
          at = subst (λ n. IsAt d D n t) (omega (arith, nothing)) h.at;
          kept = h.kept;
        }

    -- On a disk whose requests within it succeed, and which is more than 4 GiB smaller than the
    -- largest offset, a client reads a stream that stands at `o`, anywhere up to the disk's end, with
    -- a buffer of a sector at least and 2 GiB at most, until an error. It ends, with fewer reads than
    -- any number above that of the bytes left, and has the disk's bytes from `o` to the end, every one
    -- once; the error is io.EOF, the stream stands at the end, and the disk is unchanged.
    pub read_all-IsAllRead :
        (fuel : ℕ) (s : Machine W) (p : List Byte) (o : ℕ)
        → IsAt d D o s
        → length p ≤ 2 ^ 31
        → sector_size ≤ length p
        → o ≤ size d.disk_handle
        → size d.disk_handle - o < fuel
        → Ensures (run (read_all d fuel p) s) (IsAllRead s o)
    unfolding read_all keep_on run
    read_all-IsAllRead zero s p o at short enough inside some_fuel = absurd (omega arith)
    read_all-IsAllRead (suc fuel) s p o at short enough inside some_fuel =
        elim (Bool-cases (leb (size d.disk_handle) o)) [
          | inl over ↦
              let here : o ≡ size d.disk_handle = omega (arith, leb→le _ _ over, inside) in
              Ensures-bind (read d p) _ s
                (λ r t.
                  IsStreamRead d D s p (size d.disk_handle) r t × ((r.1 ≡ 0) × (r.2 ≡ some eof)))
                _ (read_end s p (subst (λ n. IsAt d D n s) here at) short)
                (λ r t post. ended s p o here r t post _)
          | inr more ↦
              Ensures-bind (read d p) _ s (λ r t. IsStreamRead d D s p o r t × GoesOn o r) _
                (read_on s p o at short enough (leb→lt _ _ more))
                (λ r t (h, (ok, progress, within)). rw ok (
                  Ensures-bind (read_all d fuel r.0) _ t (IsAllRead t (o + r.1)) _
                    (read_all-IsAllRead fuel t r.0 (o + r.1) h.at
                      (omega (arith, h.same_length, short)) (omega (arith, h.same_length, enough))
                      within (omega (arith, progress, within, some_fuel)))
                    (λ rest u k. record {
                      got =
                          rw
                            (
                              h.valid,
                              k.got,
                              h.kept,
                              ← bytes_at-add (D.content s.lib) o r.1
                                  (size d.disk_handle - (o + r.1)),
                            )
                            (ap (bytes_at (D.content s.lib) o) (omega (arith, within)));
                      ended = k.ended;
                      at = k.at;
                      kept = k.kept ∙ h.kept;
                    })))
        ]
