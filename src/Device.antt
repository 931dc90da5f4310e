-- ===== src/Device.antt =====
-- What the development relies on of VixDiskLib's reads and writes, as documented with the VDDK: a
-- disk that is open is an array of sectors, a read that succeeds fills the buffer with the sectors
-- that it names and changes none, and a write that succeeds puts the buffer into the sectors that it
-- names and leaves the others alone. Nothing is assumed of a buffer after a failed read, or of a
-- disk after a failed write. The two lemmas bring this to the Go functions `Read` and `Write`.
use virtual_disks.Base.{
  ℕ, ◌+◌, ◌*◌, ◌≤◌, ◌<◌, ◌≡◌, ◌≢◌, refl, ◌∙◌, Option, none, String, List, [], ◌∷◌, length, arith,
}
use virtual_disks.Base.Bytes.{Byte, Content, bytes_at, patch}
use virtual_disks.Vddk.{Call, World}
use virtual_disks.Effects.{Machine, run, Ensures}
use virtual_disks.Disklib.Types.{VddkError, sector_size, check}
use virtual_disks.Disklib.Io.{read, write}

-- The handle `dli` is an open disk of that many sectors.
pub record IsDisk (W : World) (dli sectors : ℕ) : Type 0 where
  pub content : W.State → Content
  pub read_keeps :
      (s : W.State) (k n : ℕ) (buf : List Byte)
      → content (W.answer (Call.read dli k n buf) s).1 ≡ content s
  pub read_length :
      (s : W.State) (k n : ℕ) (buf : List Byte)
      → length (W.answer (Call.read dli k n buf) s).0.1 ≡ length buf
  pub read_fills :
      (s : W.State) (k n : ℕ) (buf : List Byte)
      → length buf ≡ n * sector_size
      → k + n ≤ sectors
      → (W.answer (Call.read dli k n buf) s).0.0 ≡ 0
      → (W.answer (Call.read dli k n buf) s).0.1
        ≡ bytes_at (content s) (k * sector_size) (n * sector_size)
  pub write_patches :
      (s : W.State) (k n : ℕ) (buf : List Byte)
      → length buf ≡ n * sector_size
      → k + n ≤ sectors
      → (W.answer (Call.write dli k n buf) s).0 ≡ 0
      → content (W.answer (Call.write dli k n buf) s).1 ≡ patch (content s) (k * sector_size) buf

check-eq-none : (res : ℕ) (format : String) → check res format ≡ none → res ≡ 0
unfolding check
check-eq-none res format h = ground arith

check_ok : (res : ℕ) (format : String) → res ≡ 0 → check res format ≡ none
unfolding check
check_ok res format h = ground arith

module _ {W : World} {dli sectors : ℕ} (D : IsDisk W dli sectors) where
  -- No read and no write within the disk fails.
  pub record IsHealthy : Type 0 where
    pub read_ok :
        (s : W.State) (k n : ℕ) (buf : List Byte)
        → k + n ≤ sectors
        → (W.answer (Call.read dli k n buf) s).0.0 ≡ 0
    pub write_ok :
        (s : W.State) (k n : ℕ) (buf : List Byte)
        → k + n ≤ sectors
        → (W.answer (Call.write dli k n buf) s).0 ≡ 0

  -- A write that fails changes nothing. Only what is said of failed writes rests on it.
  pub record IsAtomic : Type 0 where
    pub write_fails :
        (s : W.State) (k n : ℕ) (buf : List Byte)
        → (W.answer (Call.write dli k n buf) s).0 ≢ 0
        → D.content (W.answer (Call.write dli k n buf) s).1 ≡ D.content s

  -- The mutexes and the shared variables are as they were.
  pub record IsQuiet (s t : Machine W) : Type 0 where
    pub held : t.held ≡ s.held
    pub cells : t.cells ≡ s.cells

  -- Nothing has changed that a later step can see, as far as the disk goes.
  pub record IsSame (s t : Machine W) : Type 0 where
    pub held : t.held ≡ s.held
    pub cells : t.cells ≡ s.cells
    pub kept : D.content t.lib ≡ D.content s.lib

  pub IsSame-refl : (s : Machine W) → IsSame s s
  IsSame-refl s = record { held = refl; cells = refl; kept = refl }

  pub IsSame-trans : (s t u : Machine W) → IsSame s t → IsSame t u → IsSame s u
  IsSame-trans s t u h k = record {
    held = k.held ∙ h.held;
    cells = k.cells ∙ h.cells;
    kept = k.kept ∙ h.kept;
  }

  pub record IsRead (k n : ℕ) (buf : List Byte) (s : Machine W) (r : Option VddkError × List Byte)
      (t : Machine W) : Type 0 where
    pub same : IsSame s t
    pub same_length : length r.1 ≡ length buf
    pub filled : r.0 ≡ none → r.1 ≡ bytes_at (D.content s.lib) (k * sector_size) (n * sector_size)
    pub healthy : IsHealthy → r.0 ≡ none

  pub record IsWrite (k : ℕ) (buf : List Byte) (s : Machine W) (r : Option VddkError)
      (t : Machine W) : Type 0 where
    pub quiet : IsQuiet s t
    pub patched : r ≡ none → D.content t.lib ≡ patch (D.content s.lib) (k * sector_size) buf
    pub healthy : IsHealthy → r ≡ none
    pub atomic : IsAtomic → r ≢ none → D.content t.lib ≡ D.content s.lib

  pub read-IsRead :
      (s : Machine W) (k n : ℕ) (buf : List Byte)
      → 0 < length buf
      → length buf ≡ n * sector_size
      → k + n ≤ sectors
      → Ensures (run (read dli k n buf) s) (IsRead k n buf s)
  unfolding run read
  read-IsRead s k n [] h e f = absurd (omega arith)
  read-IsRead s k n (b ∷ bs) h e f = record {
    same = record { held = refl; cells = refl; kept = D.read_keeps s.lib k n (b ∷ bs) };
    same_length = D.read_length s.lib k n (b ∷ bs);
    filled = λ ok. D.read_fills s.lib k n (b ∷ bs) e f (check-eq-none _ _ ok);
    healthy = λ good. check_ok _ _ (good.read_ok s.lib k n (b ∷ bs) f);
  }

  pub write-IsWrite :
      (s : Machine W) (k n : ℕ) (buf : List Byte)
      → 0 < length buf
      → length buf ≡ n * sector_size
      → k + n ≤ sectors
      → Ensures (run (write dli k n buf) s) (IsWrite k buf s)
  unfolding run write
  write-IsWrite s k n [] h e f = absurd (omega arith)
  write-IsWrite s k n (b ∷ bs) h e f = record {
    quiet = record { held = refl; cells = refl };
    patched = λ ok. D.write_patches s.lib k n (b ∷ bs) e f (check-eq-none _ _ ok);
    healthy = λ good. check_ok _ _ (good.write_ok s.lib k n (b ∷ bs) f);
    atomic =
        λ safe bad. safe.write_fails s.lib k n (b ∷ bs) (λ zero_code. bad (check_ok _ _ zero_code));
  }
