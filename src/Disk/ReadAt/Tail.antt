-- ===== src/Disk/ReadAt/Tail.antt =====
-- What the last part of `ReadAt` leaves in the buffer, on a disk and within its range.
use virtual_disks.Base.{
  ℕ, ◌+◌, ◌-◌, ◌*◌, ◌≤◌, ◌<◌, ◌^◌, ◌≡◌, refl, ap, ◌∙◌, Option, none, some, List, arith, length,
  take, overwrite, ltb, length-overwrite, Bool-cases, inl, inr, ltb→lt, ltb→le,
}
use virtual_disks.Base.Bytes.{Byte, Content, bytes_at, bytes_at_eq}
use virtual_disks.Base.Int.{pos}
use virtual_disks.Base.Word.{uint64-pos}
use virtual_disks.Vddk.{World}
use virtual_disks.Effects.{Machine, ret, run, Ensures, Ensures-bind}
use virtual_disks.Disklib.Types.{VddkError, sector_size}
use virtual_disks.Disklib.Io.{read}
use virtual_disks.Device.{IsDisk, IsHealthy, IsSame, IsSame-trans, IsRead, read-IsRead}
use virtual_disks.Disk.Handle.{GoError, map_error, sector_buf, length-sector_buf, unless_error}
use virtual_disks.Disk.ReadAt.{ReadResult, read_tail}
use virtual_disks.Disk.ReadAt.Filled.{
  Filled, take-overwrite, take-Filled, length-Filled, Filled-all, Filled-rest,
}

-- The disk's content when the call began.
abbrev pub before : {W : World} {dli sectors : ℕ} → IsDisk W dli sectors → Machine W → Content
before D s₀ = D.content s₀.lib

module _ {W : World} {dli sectors : ℕ} (D : IsDisk W dli sectors) (s₀ : Machine W) (p : List Byte)
    (o : ℕ) where
  -- What the call leaves: the buffer, the count and the error in `r`.
  pub record ReadPost (count : ℕ) (r : ReadResult) (t : Machine W) : Type 0 where
    pub same : IsSame D s₀ t
    pub same_length : length r.0 ≡ length p
    pub valid : take r.1 r.0 ≡ bytes_at (before D s₀) o r.1
    pub complete : r.2 ≡ none → (r.0 ≡ bytes_at (before D s₀) o (length p)) × (r.1 ≡ count)
    pub healthy : IsHealthy D → r.2 ≡ none

  -- After a failed read nothing before `total` has changed.
  pub failed :
      (t : Machine W) (q : List Byte) (total count : ℕ) (e : GoError)
      → IsSame D s₀ t
      → length q ≡ length p
      → take total q ≡ bytes_at (before D s₀) o total
      → (IsHealthy D → ⊥)
      → ReadPost count (q, total, some e) t
  failed t q total count e same len valid sick = record {
    same = same;
    same_length = len;
    valid = valid;
    complete = λ n. cc;
    healthy = λ good. absurd (sick good);
  }

  -- With the buffer full there is nothing left to do.
  finished :
      (s : Machine W) (q : List Byte) (total : ℕ)
      → IsSame D s₀ s
      → Filled (before D s₀) o p total q
      → total ≡ length p
      → ReadPost total (q, total, none) s
  finished s q total same filled all = record {
    same = same;
    same_length = length-Filled (before D s₀) o p total q (omega arith) filled;
    valid = take-Filled (before D s₀) o p total q filled;
    complete = λ n. (Filled-all (before D s₀) o p total q all filled, refl);
    healthy = λ good. refl;
  }

  module _ (s : Machine W) (same : IsSame D s₀ s) (q : List Byte) (total k : ℕ)
      (filled : Filled (before D s₀) o p total q) (le : total ≤ length p) where
    pub length_q : length q ≡ length p
    length_q = length-Filled (before D s₀) o p total q le filled

    -- The bytes that a read brought are those of the disk as it was when the call began.
    pub brought :
        (t : Machine W) (j n : ℕ) (buf : List Byte) (r : Option VddkError × List Byte)
        → IsRead D j n buf s r t
        → r.0 ≡ none
        → r.1 ≡ bytes_at (before D s₀) (j * sector_size) (n * sector_size)
    brought t j n buf r h ok =
        h.filled ok ∙ ap (λ f. bytes_at f (j * sector_size) (n * sector_size)) same.kept

    -- After the read of the last sector.
    tail_end :
        (t : Machine W) (err : Option VddkError) (tmp : List Byte)
        → length p - total < sector_size
        → k * sector_size ≡ o + total
        → IsRead D k 1 sector_buf s (err, tmp) t
        → Ensures
            (run
              (unless_error err
                (λ e. ret (q, total, some (map_error e)))
                (ret (overwrite q total (take (length q - total) tmp), total, none)))
              t)
            (ReadPost total)
    unfolding run
    tail_end t (some e) tmp last here h =
        failed t q total total (map_error e) (IsSame-trans D s₀ s t same h.same) length_q
          (take-Filled (before D s₀) o p total q filled) (λ good. cc (h.healthy good))
    tail_end t none tmp last here h = record {
      same = IsSame-trans D s₀ s t same h.same;
      same_length = length-overwrite q total _ ∙ length_q;
      valid = take-overwrite total q _ ∙ take-Filled (before D s₀) o p total q filled;
      complete = λ n. (
        Filled-rest (before D s₀) o p total sector_size q tmp le (omega arith)
            (brought t k 1 sector_buf (none, tmp) h refl
              ∙ bytes_at_eq (before D s₀) (k * sector_size) (o + total) (1 * sector_size)
                  sector_size here refl)
            filled,
        refl,
      );
      healthy = λ good. refl;
    }

    pub read_tail-ReadPost :
        length p - total < sector_size
        → (total < length p → (k * sector_size ≡ o + total) × (k < sectors))
        → k < 2 ^ 64
        → Ensures (run (read_tail dli q (pos k) total) s) (ReadPost total)
    unfolding read_tail run
    read_tail-ReadPost last here small = elim (Bool-cases (ltb 0 (length q - total))) [
      | inl more ↦
          let lt : total < length p = omega (arith, length_q, ltb→lt 0 (length q - total) more) in
          rw (more, uint64-pos k small)
            (Ensures-bind (read dli k 1 sector_buf) _ s (IsRead D k 1 sector_buf s) (ReadPost total)
              (read-IsRead D s k 1 sector_buf (omega (arith, length-sector_buf)) length-sector_buf
                (omega (arith, here lt)))
              (λ r t h. tail_end t r.0 r.1 last (here lt).0 h))
      | inr all ↦ rw all (
          finished s q total same filled (omega (arith, length_q, ltb→le 0 (length q - total) all)))
    ]
