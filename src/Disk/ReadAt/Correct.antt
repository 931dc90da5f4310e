-- ===== src/Disk/ReadAt/Correct.antt =====
-- `ReadAt` on a disk: which bytes it brings, which count it reports, and what it leaves alone.
use virtual_disks.Base.{
  ℕ, ◌+◌, ◌-◌, ◌/◌, ◌≤◌, ◌<◌, ◌^◌, min, ◌≡◌, ◌⊎◌, inl, inr, refl, sym, ap, ◌∙◌, Bool, false, not,
  none, some, List, ◌++◌, arith, length, take, drop, length-append, length-take, length-drop, ltb,
  lt→leb, take-append_le, ltb→lt, ltb→le, take-length, Bool-cases,
}
use virtual_disks.Base.Bytes.{Byte, bytes_at, length-bytes_at}
use virtual_disks.Base.Int.{pos}
use virtual_disks.Base.Word.{int64-pos, int32-pos, +ℤ_pos, -ℤ_pos}
use virtual_disks.Vddk.{World}
use virtual_disks.Effects.{Machine, run, Ensures, Ensures-bind, Ensures-weaken}
use virtual_disks.Disklib.Types.{sector_size}
use virtual_disks.Device.{IsDisk, IsHealthy, IsSame}
use virtual_disks.Disk.Handle.{DiskConnectHandle, capacity_lem, size, aligned, slice_lem, with_lock}
use virtual_disks.Disk.Lock.{with_lock-Ensures}
use virtual_disks.Disk.ReadAt.{ReadResult, read_head, trim, read_at}
use virtual_disks.Disk.ReadAt.Tail.{before, ReadPost}
use virtual_disks.Disk.ReadAt.Head.{delivered, read_head-ReadPost}

-- How many of `len` bytes at offset `o` lie on the disk.
abbrev pub within : DiskConnectHandle → (o len : ℕ) → ℕ
within h o len = min len (size h - o)

-- A short tail is cut off exactly; with more than 2 GiB behind the offset the cut could wrap.
abbrev pub CutFits : DiskConnectHandle → (o len : ℕ) → Type 0
CutFits h o len = (o + len ≤ size h) ⊎ (size h - o < 2 ^ 31)

module _ (h : DiskConnectHandle) (p : List Byte) (o : ℕ) where
  -- A read that would pass the end is cut off there.
  pub trim_lem :
      o < size h
      → size h < 2 ^ 63
      → o + length p < 2 ^ 63
      → CutFits h o (length p)
      → trim p (pos (size h)) (pos o) ≡ some (take (within h o (length p)) p)
  unfolding trim
  trim_lem inside small len fits =
      rw (+ℤ_pos o (length p), int64-pos (o + length p) len)
        (elim (Bool-cases (ltb (size h + 0) (o + length p + 0))) [
          | inl past ↦
              let far : size h < o + length p =
                omega (arith, ltb→lt (size h + 0) (o + length p + 0) past) in
              rw
                (
                  past,
                  -ℤ_pos (size h) o (omega arith),
                  int64-pos (size h - o) (omega arith),
                  int32-pos (size h - o) (omega arith),
                  slice_lem p 0 (size h - o) (omega arith) (omega arith),
                )
                (ap (λ n. some (take n p)) (omega arith))
          | inr near ↦ rw near (
              ap some (
                sym (take-length p)
                ∙ ap (λ n. take n p) (omega (arith, ltb→le (size h + 0) (o + length p + 0) near))))
        ])

module _ {W : World} (h : DiskConnectHandle) (D : IsDisk W h.dli h.info.capacity) (s : Machine W)
    (p : List Byte) (o : ℕ) where
  -- The outcome of a read at `o`: `n` bytes of the disk, and the rest of the buffer as it was.
  pub record IsReadAt (r : ReadResult) (t : Machine W) : Type 0 where
    pub same : IsSame D s t
    pub same_length : length r.0 ≡ length p
    pub valid : take r.1 r.0 ≡ bytes_at (D.content s.lib) o r.1
    pub complete :
        r.2 ≡ none
        → (r.0
            ≡ bytes_at (D.content s.lib) o (within h o (length p))
              ++ drop (within h o (length p)) p)
          × (r.1 ≡ delivered o (within h o (length p)))

  -- The same, and no error from a healthy disk.
  abbrev pub ReadsAt : ReadResult → Machine W → Type 0
  ReadsAt r t = IsReadAt r t × (IsHealthy D → r.2 ≡ none)

  wanted : ℕ
  wanted = within h o (length p)

  length-wanted : length (take wanted p) ≡ wanted
  unfolding wanted
  length-wanted = rw length-take (omega arith)

  -- The part under the lock, whoever holds which mutex.
  head_works :
      o < size h
      → size h < 2 ^ 63
      → (held : ℕ → Bool)
      → Ensures
          (run
            (read_head h.dli (take wanted p) (pos o) (pos (o / sector_size)))
            (record s { held = held }))
          (λ r t.
            (t.held ≡ held)
            × ReadPost D s (take wanted p) o (delivered o wanted) r (record t { held = s.held }))
  unfolding wanted
  head_works inside small held =
      Ensures-weaken (run (read_head h.dli (take wanted p) (pos o) (pos (o / sector_size))) s')
        (ReadPost D s' (take wanted p) o (delivered o (length (take wanted p)))) _
        (λ r t post. (
          post.same.held,
          record {
            same = record { held = refl; cells = post.same.cells; kept = post.same.kept };
            same_length = post.same_length;
            valid = post.valid;
            complete =
                λ ok. ((post.complete ok).0, (post.complete ok).1 ∙ ap (delivered o) length-wanted);
            healthy = post.healthy;
          },
        ))
        (read_head-ReadPost D s' (take wanted p) o (omega (arith, length-wanted)) inside small)
    where
      s' : Machine W
      s' = record s { held = held }

  -- The caller's buffer with what the read left in its first part.
  whole_buffer :
      (r : ReadResult) (t : Machine W)
      → ReadPost D s (take wanted p) o (delivered o wanted) r t
      → ReadsAt (r.0 ++ drop (length (take wanted p)) p, r.1, r.2) t
  unfolding wanted
  whole_buffer r t post = (
    record {
      same = post.same;
      same_length = rw length-append (
          omega
            (arith, post.same_length, length-wanted, length-drop {0} (length (take wanted p)) p));
      valid = take-append_le r.1 r.0 _ reported ∙ post.valid;
      complete = λ ok. (rw ((post.complete ok).0, length-wanted), (post.complete ok).1);
    },
    post.healthy,
  )
    where
      -- The count is within the buffer, for the valid bytes are as many.
      reported : r.1 ≤ length r.0
      reported =
          omega (
            arith,
            ap length post.valid,
            length-take {0} r.1 r.0,
            length-bytes_at (before D s) o r.1,
          )

  pub read_at-ReadsAt :
      o < size h
      → size h < 2 ^ 63
      → o + length p < 2 ^ 63
      → CutFits h o (length p)
      → s.held h.mutex ≡ false
      → Ensures (run (read_at h p (pos o)) s) ReadsAt
  unfolding read_at wanted run
  read_at-ReadsAt inside small len fits free =
      rw
        (
          capacity_lem h small,
          lt→leb (size h + 0) (o + 0) (omega arith),
          trim_lem h p o inside small len fits,
        )
        (Ensures-bind
          (with_lock (not (aligned (length (take wanted p)) (pos o))) h.mutex
            (read_head h.dli (take wanted p) (pos o) (pos (o / sector_size))))
          _ s (ReadPost D s (take wanted p) o (delivered o wanted)) ReadsAt
          (with_lock-Ensures h.mutex _ s (ReadPost D s (take wanted p) o (delivered o wanted))
            (not (aligned (length (take wanted p)) (pos o))) free
            (λ held others. head_works inside small held))
          whole_buffer)

  -- On a disk of fewer than 2^63 bytes, a read with a free lock that starts before the disk's end,
  -- and whose cut-off tail fits, ends: the mutexes, the shared offsets and the disk are as they were,
  -- the buffer keeps its length, and its first `n` bytes are those of the disk from the offset on,
  -- where `n` is the count that is returned, also when a read of the library fails. Without an error
  -- all bytes that lie on the disk are in the buffer, the bytes behind them are as they were, and the
  -- count is `delivered`.
  pub read_at-reads :
      o < size h
      → size h < 2 ^ 63
      → o + length p < 2 ^ 63
      → CutFits h o (length p)
      → s.held h.mutex ≡ false
      → Ensures (run (read_at h p (pos o)) s) IsReadAt
  read_at-reads inside small len fits free =
      Ensures-weaken (run (read_at h p (pos o)) s) ReadsAt IsReadAt (λ r t post. post.0)
        (read_at-ReadsAt inside small len fits free)
