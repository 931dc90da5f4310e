-- ===== src/Disk/Stream/Calls.antt =====
-- The calls of a `DiskReaderWriter` by goroutines, as sections of the stream's mutex.
use virtual_disks.Base.{ℕ, zero, suc, ◌≢◌, sym, ◌∙◌, List}
use virtual_disks.Base.Bytes.{Byte}
use virtual_disks.Base.Int.{ℤ, pos, negsuc}
use virtual_disks.Base.{Option}
use virtual_disks.Effects.{Prog, ret, ◌>>=◌}
use virtual_disks.Effects.Only.{
  Action, Only, Only-bind, Only-ret, Only-if, Only-weaken, Only-load, Only-store,
}
use virtual_disks.Threads.Sections.{Avoids, IsSection, with_lock-IsSection}
use virtual_disks.Disk.Handle.{GoError}
use virtual_disks.Disk.ReadAt.{ReadResult, read_at}
use virtual_disks.Disk.WriteAt.{WriteResult, write_at}
use virtual_disks.Disk.Footprint.{IsReadStep, IsAccessStep, read_at-Only, write_at-Only}
use virtual_disks.Disk.Stream.{DiskReaderWriter, read, write, seek, seek_from, seek_to, advance}

pub data Op : Type 0 where
  reads writes : List Byte → Op
  seeks : (offset whence : ℤ) → Op

pub data Answer : Type 0 where
  was_read : ReadResult → Answer
  was_written : WriteResult → Answer
  was_sought : ℤ × Option GoError → Answer

unfoldable pub run_op : DiskReaderWriter → Op → Prog Answer
run_op d (reads p) = read d p >>= λ r. ret (was_read r)
run_op d (writes p) = write d p >>= λ r. ret (was_written r)
run_op d (seeks offset whence) = seek d offset whence >>= λ r. ret (was_sought r)

module _ (d : DiskReaderWriter) (apart : d.disk_handle.mutex ≢ d.mutex) where
  IsReadStep-Avoids : (a : Action) → IsReadStep d.disk_handle a → Avoids d.mutex a
  IsReadStep-Avoids (Action.locks j) h = λ e. apart (sym h ∙ e)
  IsReadStep-Avoids (Action.unlocks j) h = λ e. apart (sym h ∙ e)
  IsReadStep-Avoids (Action.loads c) h = tt
  IsReadStep-Avoids (Action.stores c) h = tt
  IsReadStep-Avoids (Action.calls c) h = tt

  IsAccessStep-Avoids : (a : Action) → IsAccessStep d.disk_handle a → Avoids d.mutex a
  IsAccessStep-Avoids (Action.locks j) h = λ e. apart (sym h ∙ e)
  IsAccessStep-Avoids (Action.unlocks j) h = λ e. apart (sym h ∙ e)
  IsAccessStep-Avoids (Action.loads c) h = tt
  IsAccessStep-Avoids (Action.stores c) h = tt
  IsAccessStep-Avoids (Action.calls c) h = tt

  advance-Only : (n : ℕ) → Only (Avoids d.mutex) (advance d n)
  unfolding advance
  advance-Only n = Only-load _ _ _ tt (λ v. Only-store _ _ _ _ tt (Only-ret _ _))

  seek_to-Only : (z : ℤ) → Only (Avoids d.mutex) (seek_to d z)
  unfolding seek_to
  seek_to-Only z =
      Only-if _ _ _ _ (Only-ret _ _)
        (Only-store _ _ _ _ tt (Only-load _ _ _ tt (λ v. Only-ret _ _)))

  seek_from-Only : (offset whence cur : ℤ) → Only (Avoids d.mutex) (seek_from d offset whence cur)
  unfolding seek_from
  seek_from-Only offset (pos zero) cur = seek_to-Only offset
  seek_from-Only offset (pos (suc zero)) cur = seek_to-Only _
  seek_from-Only offset (pos (suc (suc zero))) cur = Only-ret _ _
  seek_from-Only offset (pos (suc (suc (suc n)))) cur = seek_to-Only cur
  seek_from-Only offset (negsuc n) cur = seek_to-Only cur

  pub run_op-IsSection : (op : Op) → IsSection d.mutex (run_op d op)
  unfolding run_op read write seek
  run_op-IsSection (reads p) = with_lock-IsSection d.mutex _ was_read (
      Only-load _ _ _ tt (λ off.
        Only-bind _ (read_at d.disk_handle p off) _
          (Only-weaken _ _ _ IsReadStep-Avoids (read_at-Only d.disk_handle p off))
          (λ r. Only-bind _ (advance d r.1) _ (advance-Only r.1) (λ u. Only-ret _ r))))
  run_op-IsSection (writes p) = with_lock-IsSection d.mutex _ was_written (
      Only-load _ _ _ tt (λ off.
        Only-bind _ (write_at d.disk_handle p off) _
          (Only-weaken _ _ _ IsAccessStep-Avoids (write_at-Only d.disk_handle p off))
          (λ r. Only-bind _ (advance d r.0) _ (advance-Only r.0) (λ u. Only-ret _ r))))
  run_op-IsSection (seeks offset whence) =
      with_lock-IsSection d.mutex _ was_sought
        (Only-load _ _ _ tt (λ cur. seek_from-Only offset whence cur))
