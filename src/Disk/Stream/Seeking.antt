-- ===== src/Disk/Stream/Seeking.antt =====
-- `Seek` of a `DiskReaderWriter`: the offset never becomes negative, and an error leaves it.
use virtual_disks.Base.{
  ℕ, zero, suc, ◌+◌, ◌≡◌, ◌≢◌, refl, sym, subst, Bool, true, Option, none, some, arith, lt→ltb,
  le→ltb,
}
use virtual_disks.Base.Int.{ℤ, pos, negsuc, ◌+ℤ◌}
use virtual_disks.Base.Word.{int64}
use virtual_disks.Vddk.{World}
use virtual_disks.Effects.{Machine, run, set_at_self, Ensures}
use virtual_disks.Device.{IsDisk}
use virtual_disks.Disk.Handle.{GoError}
use virtual_disks.Disk.Lock.{with_lock-Ensures}
use virtual_disks.Disk.Stream.{DiskReaderWriter, seek, seek_from, seek_to}
use virtual_disks.Disk.Stream.Sequential.{IsAt}

module _ {W : World} (d : DiskReaderWriter)
    (D : IsDisk W d.disk_handle.dli d.disk_handle.info.capacity) (s : Machine W) (o : ℕ)
    (at : IsAt d D o s) where
  -- Where `Seek` is asked to go from `o`; nowhere from the end, which it does not know.
  abbrev pub target : (offset whence : ℤ) → Option ℤ
  target offset (pos zero) = some offset
  target offset (pos (suc zero)) = some (int64 (pos o +ℤ offset))
  target offset (pos (suc (suc zero))) = none
  target offset (pos (suc (suc (suc n)))) = some (pos o)
  target offset (negsuc n) = some (pos o)

  -- Where the stream stands after a `Seek` that was to go to `goal` and returned `r`.
  pub record IsSeek (goal : Option ℤ) (r : ℤ × Option GoError) (t : Machine W) : Type 0 where
    pub place : ℕ
    pub at_place : IsAt d D place t
    pub reached : (n : ℕ) → goal ≡ some (pos n) → (place ≡ n) × (r.1 ≡ none)
    pub refused : ((n : ℕ) → goal ≢ some (pos n)) → r.1 ≢ none
    pub moved : r.1 ≡ none → r.0 ≡ pos place
    pub stayed : r.1 ≢ none → place ≡ o
    pub lib : t.lib ≡ s.lib

  Sought : (held : ℕ → Bool) → Option ℤ → ℤ × Option GoError → Machine W → Type 0
  Sought held goal r t = (t.held ≡ held) × IsSeek goal r (record t { held = s.held })

  unmoved :
      (held : ℕ → Bool) (goal : Option ℤ) (z : ℤ) (e : GoError)
      → ((n : ℕ) → goal ≢ some (pos n))
      → Sought held goal (z, some e) (record s { held = held })
  unfolding Sought
  unmoved held goal z e nowhere = (
    refl,
    record {
      place = o;
      at_place = at;
      reached = λ n e. absurd (nowhere n e);
      refused = λ h. cc;
      moved = λ n. cc;
      stayed = λ n. refl;
      lib = refl;
    },
  )

  seek_to-Sought :
      (held : ℕ → Bool) (z : ℤ)
      → Ensures (run (seek_to d z) (record s { held = held })) (Sought held (some z))
  unfolding seek_to run Sought
  seek_to-Sought held (pos n) = rw (le→ltb (n + 0) 0 (omega arith)) (
    refl,
    record {
      place = n;
      at_place = record {
        offset = set_at_self s.cells d.offset (pos n);
        free = at.free;
        handle_free = at.handle_free;
        apart = at.apart;
      };
      reached = λ m e. (cc e, refl);
      refused = λ nowhere. absurd (nowhere n refl);
      moved = λ ok. set_at_self s.cells d.offset (pos n);
      stayed = λ bad. absurd (bad refl);
      lib = refl;
    },
  )
  seek_to-Sought held (negsuc n) =
      rw (lt→ltb (0 + 0) (0 + suc n) (omega arith))
        (unmoved held (some (negsuc n)) (pos 0) _ (λ m e. cc e))

  seek_from-Sought :
      (held : ℕ → Bool) (offset whence : ℤ)
      → Ensures
          (run (seek_from d offset whence (pos o)) (record s { held = held }))
          (Sought held (target offset whence))
  unfolding seek_from run
  seek_from-Sought held offset (pos zero) = seek_to-Sought held offset
  seek_from-Sought held offset (pos (suc zero)) = seek_to-Sought held (int64 (pos o +ℤ offset))
  seek_from-Sought held offset (pos (suc (suc zero))) = unmoved held none (pos o) _ (λ n e. cc e)
  seek_from-Sought held offset (pos (suc (suc (suc n)))) = seek_to-Sought held (pos o)
  seek_from-Sought held offset (negsuc n) = seek_to-Sought held (pos o)

  -- From a stream at an offset that is not negative, `Seek` ends, with any arguments, with the
  -- stream at such an offset. From the start (`whence` 0) or from the present offset (1), where that
  -- leads to an offset that is not negative, it gives no error and goes there; where it leads to a
  -- negative one, it gives an error. From the end (2) it gives an error. With any other `whence` it
  -- gives no error and stays at the present offset. Without an error the offset is the one returned;
  -- with an error it is the old one. The sum with the present offset wraps at 64 bits.
  pub seek-IsSeek :
      (offset whence : ℤ) → Ensures (run (seek d offset whence) s) (IsSeek (target offset whence))
  unfolding seek Sought run
  seek-IsSeek offset whence =
      with_lock-Ensures d.mutex _ s (IsSeek (target offset whence)) true at.free (λ held others.
        subst
          (λ v.
            Ensures (run (seek_from d offset whence v) (record s { held = held }))
              (Sought held (target offset whence)))
          (sym at.offset) (seek_from-Sought held offset whence))
