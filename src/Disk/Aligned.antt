-- ===== src/Disk/Aligned.antt =====
-- Aligned accesses: whole sectors from a sector's start.
use virtual_disks.Base.{
  ℕ, ◌+◌, ◌-◌, ◌*◌, ◌/◌, ◌%◌, ◌≤◌, ◌<◌, ◌^◌, ◌≡◌, refl, ap, ◌∙◌, fun_ext, Option, none, some, List,
  [], ◌++◌, arith, length, le→ltb, lt→ltb, lt→leb, take-length, append-nil, drop-length, overwrite,
  length-overwrite,
}
use virtual_disks.Base.Bytes.{Byte}
use virtual_disks.Base.Int.{ℤ, pos}
use virtual_disks.Base.Word.{int64-pos, +ℤ_pos, uint64-pos}
use virtual_disks.Effects.{Prog, ret, panic, lock, unlock, load, store, call, ◌>>=◌}
use virtual_disks.Disklib.Types.{VddkError, sector_size}
use virtual_disks.Disklib.Io.{read, write}
use virtual_disks.Disk.Handle.{
  DiskConnectHandle, size, aligned, capacity_lem, with_lock, map_error, unless_error,
}
use virtual_disks.Disk.ReadAt.{ReadResult, read_at, read_head, read_middle, read_tail, trim}
use virtual_disks.Disk.WriteAt.{WriteResult, write_at, write_head, write_middle, write_tail}

bind-ret : {A : Type 0} (p : Prog A) → (p >>= ret) ≡ p
bind-ret (ret a) = refl
bind-ret panic = refl
bind-ret (lock m p) = ap (lock m) (bind-ret p)
bind-ret (unlock m p) = ap (unlock m) (bind-ret p)
bind-ret (load c k) = ap (load c) (fun_ext (λ v. bind-ret (k v)))
bind-ret (store c v p) = ap (store c v) (bind-ret p)
bind-ret (call c k) = ap (call c) (fun_ext (λ r. bind-ret (k r)))

ret-unless_error :
    {A : Type 0} (err : Option VddkError) (bad : VddkError → A) (good : A)
    → unless_error err (λ e. ret (bad e)) (ret good) ≡ ret (unless_error err bad good)
ret-unless_error none bad good = refl
ret-unless_error (some e) bad good = refl

-- One request for the whole buffer.
abbrev pub write_direct : DiskConnectHandle → List Byte → ℕ → Prog WriteResult
write_direct h p o = do
  err ← write h.dli (o / sector_size) (length p / sector_size) p
  ret (unless_error err (λ e. (0, some (map_error e))) (length p, none))

module _ (h : DiskConnectHandle) (p : List Byte) (o : ℕ) where
  -- The sectors of the buffer, all of it.
  sectors : 0 < length p → length p % sector_size ≡ 0 → 0 < (length p - 0) / sector_size
  sectors some_byte whole = omega arith

  sub_zero : (length p - 0) / sector_size ≡ length p / sector_size
  sub_zero = omega arith

  all_sectors : length p % sector_size ≡ 0 → length p / sector_size * sector_size ≡ length p
  all_sectors whole = omega arith

  nothing_left : (k : ℤ) → write_tail h.dli p k (0 + length p) ≡ ret (length p, none)
  unfolding write_tail
  nothing_left k = rw (le→ltb 0 (length p - (0 + length p)) (omega arith)) refl

  write_middle-direct :
      0 < length p
      → length p % sector_size ≡ 0
      → o / sector_size < 2 ^ 64
      → write_middle h.dli p (pos (o / sector_size)) 0 ≡ write_direct h p o
  unfolding write_middle write_tail
  write_middle-direct some_byte whole small =
      rw
        (
          lt→ltb 0 ((length p - 0) / sector_size) (sectors some_byte whole),
          uint64-pos (o / sector_size) small,
          sub_zero,
          all_sectors whole,
          take-length,
        )
        (ap
          (λ (k : Option VddkError → Prog WriteResult).
            write h.dli (o / sector_size) (length p / sector_size) p >>= k)
          (fun_ext (λ err.
            ap (unless_error err (λ e. ret (0, some (map_error e)))) (nothing_left _)
            ∙ ret-unless_error err _ _)))

  -- A write of whole sectors, at least one, from a sector's start and within a disk of fewer than 2^63
  -- bytes is the same program as one request of the library for these sectors with the whole buffer:
  -- it takes no lock and reads nothing, and the count is the buffer's length, or nothing with an
  -- error.
  pub write_at-direct :
      0 < length p
      → length p % sector_size ≡ 0
      → o % sector_size ≡ 0
      → o + length p ≤ size h
      → size h < 2 ^ 63
      → write_at h p (pos o) ≡ write_direct h p o
  unfolding write_at write_head write_middle with_lock aligned
  write_at-direct some_byte whole start fits small =
      rw
        (
          capacity_lem h small,
          le→ltb (size h + 0) (o + 0) (omega arith),
          +ℤ_pos o (length p),
          int64-pos (o + length p) (omega arith),
          le→ltb (size h + 0) (o + length p + 0) (omega arith),
          whole,
          start,
        )
        (write_middle-direct some_byte whole (omega arith))

-- The same for a read, into the whole buffer.
abbrev pub read_direct : DiskConnectHandle → List Byte → ℕ → Prog ReadResult
read_direct h p o = do
  (err, buf) ← read h.dli (o / sector_size) (length p / sector_size) p
  ret (
      unless_error err (λ e. (overwrite p 0 buf, 0, some (map_error e)))
        (overwrite p 0 buf, length p, none))

module _ (h : DiskConnectHandle) (p : List Byte) (o : ℕ) where
  read_done :
      (q : List Byte) (k : ℤ)
      → length q ≡ length p
      → read_tail h.dli q k (0 + length p) ≡ ret (q, length p, none)
  unfolding read_tail
  read_done q k e =
      rw (le→ltb 0 (length q - (0 + length p)) (omega (arith, e)))
        (ap (λ n. ret (q, n, none)) (omega arith))

  read_middle-direct :
      0 < length p
      → length p % sector_size ≡ 0
      → o / sector_size < 2 ^ 64
      → read_middle h.dli p (pos (o / sector_size)) 0 ≡ read_direct h p o
  unfolding read_middle
  read_middle-direct some_byte whole small =
      rw
        (
          lt→ltb 0 ((length p - 0) / sector_size) (sectors h p o some_byte whole),
          uint64-pos (o / sector_size) small,
          sub_zero h p o,
          all_sectors h p o whole,
          take-length,
        )
        (ap
          (λ (k : Option VddkError × List Byte → Prog ReadResult).
            read h.dli (o / sector_size) (length p / sector_size) p >>= k)
          (fun_ext (λ r. answered r.0 r.1 _)))
    where
      answered :
          (err : Option VddkError) (buf : List Byte) (k : ℤ)
          → unless_error err
              (λ e. ret (overwrite p 0 buf, 0, some (map_error e)))
              (read_tail h.dli (overwrite p 0 buf) k (0 + length p))
            ≡ ret (
                unless_error err
                  (λ e. (overwrite p 0 buf, 0, some (map_error e)))
                  (overwrite p 0 buf, length p, none))
      answered none buf k = read_done (overwrite p 0 buf) k (length-overwrite p 0 buf)
      answered (some e) buf k = refl

  -- A read of whole sectors, at least one, from a sector's start and within a disk of fewer than 2^63
  -- bytes is the same program as one request of the library for these sectors into the whole buffer:
  -- it takes no lock, and the count is the buffer's length, or nothing with an error.
  pub read_at-direct :
      0 < length p
      → length p % sector_size ≡ 0
      → o % sector_size ≡ 0
      → o + length p ≤ size h
      → size h < 2 ^ 63
      → read_at h p (pos o) ≡ read_direct h p o
  unfolding read_at read_head with_lock aligned trim
  read_at-direct some_byte whole start fits small =
      rw
        (
          capacity_lem h small,
          lt→leb (size h + 0) (o + 0) (omega arith),
          +ℤ_pos o (length p),
          int64-pos (o + length p) (omega arith),
          le→ltb (size h + 0) (o + length p + 0) (omega arith),
          whole,
          start,
        )
        (rw (drop-length) (
          ap (λ (m : Prog ReadResult). m >>= λ x. ret (x.0 ++ [], x.1, x.2))
            (read_middle-direct some_byte whole (omega arith))
          ∙ ap (λ f. read_direct h p o >>= f)
              (fun_ext (λ x. ap (λ b. ret (b, x.1, x.2)) (append-nil x.0)))
          ∙ bind-ret (read_direct h p o)))
