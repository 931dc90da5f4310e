-- ===== src/Disk/Footprint/Inside.antt =====
-- Which sectors and which buffers the requests of `ReadAt` and `WriteAt` name.
pub mod Reads
pub mod Writes
use virtual_disks.Base.{
  ℕ, ◌+◌, ◌-◌, ◌*◌, ◌/◌, ◌%◌, ◌≤◌, ◌<◌, ◌^◌, ◌≡◌, refl, ap, ◌∙◌, Bool, true, false, List, [], ◌∷◌,
  arith, length, take, drop, length-take, length-drop, if◌then◌else◌,
}
use virtual_disks.Base.Bytes.{Byte}
use virtual_disks.Base.Int.{ℤ, pos, ◌+ℤ◌, ◌-ℤ◌}
use virtual_disks.Base.Word.{uint64, uint64-pos, +ℤ_pos, -ℤ_pos}
use virtual_disks.Vddk.{Call}
use virtual_disks.Effects.{Prog}
use virtual_disks.Effects.Only.{Action, Only}
use virtual_disks.Disklib.Types.{sector_size}
use virtual_disks.Disklib.Io.{read}
use virtual_disks.Disk.Handle.{DiskConnectHandle, size, at_most, at_most_cases}

-- `n` sectors from sector `k` on lie on the disk of `h`, and the buffer has their size.
pub record IsInside (h : DiskConnectHandle) (dli k n : ℕ) (buf : List Byte) : Type 0 where
  pub own : dli ≡ h.dli
  pub within : k + n ≤ h.info.capacity
  pub sized : length buf ≡ n * sector_size

abbrev pub IsInsideStep : DiskConnectHandle → Action → Type 0
IsInsideStep h (Action.locks m) = m ≡ h.mutex
IsInsideStep h (Action.unlocks m) = m ≡ h.mutex
IsInsideStep h (Action.calls (Call.read dli k n buf)) = IsInside h dli k n buf
IsInsideStep h (Action.calls (Call.write dli k n buf)) = (dli ≡ h.dli) × (k + n ≤ h.info.capacity)
IsInsideStep h _ = ⊥

pub Only-if_known :
    {A : Type 0} (Q : Action → Type 0) (b : Bool) (p q : Prog A)
    → (b ≡ true → Only Q p)
    → (b ≡ false → Only Q q)
    → Only Q (if b then p else q)
Only-if_known Q true p q h k = h refl
Only-if_known Q false p q h k = k refl

pub moved : (z : ℤ) (k n : ℕ) → z ≡ pos k → z +ℤ pos n ≡ pos (k + n)
moved z k n at = ap (λ x. x +ℤ pos n) at ∙ +ℤ_pos k n

-- The whole sectors of a buffer.
pub whole_sectors :
    (p : List Byte) (total : ℕ)
    → length (take ((length p - total) / sector_size * sector_size) (drop total p))
      ≡ (length p - total) / sector_size * sector_size
whole_sectors p total = omega (
  arith,
  length-take {0} ((length p - total) / sector_size * sector_size) (drop total p),
  length-drop {0} total p,
)

module _ (h : DiskConnectHandle) where
  -- What is left behind them ends where it did.
  pub tail_fits :
      (p q : List Byte) (k total : ℕ)
      → length q ≡ length p
      → k * sector_size + (length p - total) ≤ size h
      → (k + (length p - total) / sector_size) * sector_size
          + (length q - (total + (length p - total) / sector_size * sector_size))
        ≤ size h
  tail_fits p q k total e fits = omega (arith, e, fits)

  -- Behind the first sector, of which the request has the bytes from the offset on.
  pub head_fits :
      (len o : ℕ)
      → 0 < o % sector_size
      → o + len ≤ size h
      → (o / sector_size + 1) * sector_size
          + (len - at_most (pos sector_size -ℤ pos (o % sector_size)) len)
        ≤ size h
  head_fits len o cut fits =
      rw (-ℤ_pos sector_size (o % sector_size) (omega arith))
        (omega (arith, cut, fits, (at_most_cases (sector_size - o % sector_size) len).2))

module _ (h : DiskConnectHandle) (small : size h < 2 ^ 63) where
  pub read-Only :
      (z : ℤ) (k n : ℕ) (buf : List Byte)
      → z ≡ pos k
      → k + n ≤ h.info.capacity
      → length buf ≡ n * sector_size
      → Only (IsInsideStep h) (read h.dli (uint64 z) n buf)
  unfolding read Only
  read-Only z k n [] at w e = tt
  read-Only z k n (b ∷ bs) at w e =
      rw (at, uint64-pos k (omega (arith, w, small)))
        (record { own = refl; within = w; sized = e }, λ r. tt)
