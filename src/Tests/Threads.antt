-- ===== src/Tests/Threads.antt =====
-- Goroutines that share the stream on the small disk.
use virtual_disks.Base.{ℕ, zero, suc, ◌≡◌, refl, inr, none, false, List, [], ◌∷◌, arith, replicate}
use virtual_disks.Base.Bytes.{Byte, bytes_at}
use virtual_disks.Base.Int.{pos, ◌+ℤ◌, ◌-ℤ◌}
use virtual_disks.Base.Word.{int64, int32, uint64}
use virtual_disks.Effects.{ret}
use virtual_disks.Threads.{System, start, take_step, move, follow, follow-Reach}
use virtual_disks.Threads.Serial.{Serially, left}
use virtual_disks.Disk.Handle.{with_lock, aligned, capacity, slice, sector_buf}
use virtual_disks.Disk.ReadAt.{read_at, read_head, read_middle, read_tail, trim}
use virtual_disks.Disk.WriteAt.{write_at, write_head, write_middle, write_tail}
use virtual_disks.Disk.Concurrent.{
  AtOp, reads_at, writes_at, AtAnswer, run_at, IsUnaligned, AreRight, content_after,
  unaligned_calls_atomic,
}
use virtual_disks.Disk.Stream.{read, seek, seek_from, seek_to, advance}
use virtual_disks.Disk.Stream.Calls.{Op, Answer, reads, writes, seeks, run_op}
use virtual_disks.Disk.Stream.Concurrent.{
  sharing, stream_calls-Serially, IsStanding, concurrent_reads_contiguous,
}
use virtual_disks.Disk.Progress.{concurrent_reads_end, unaligned_calls_end}
use virtual_disks.Threads.Progress.Turns.{AllEnd}
use virtual_disks.Disklib.Io
use virtual_disks.Disklib.Types.{check}
use virtual_disks.Tests.Device.{small_world, disk, disk-IsHealthy}
use virtual_disks.Tests.Disk.{handle, machine, stream, four, stream-IsAt}

-- The goroutine 1 tries again and again, and comes to its turn when the goroutine 0 has ended.
abbrev schedule : List ℕ
schedule = 0 ∷ 1 ∷ 0 ∷ 0 ∷ 1 ∷ 0 ∷ 0 ∷ 0 ∷ 0 ∷ 0 ∷ replicate 8 1

abbrev mixed : ℕ → Op
mixed zero = reads four
mixed (suc zero) = seeks (pos 10) (pos 1)
mixed (suc (suc n)) = writes four

abbrev fours : ℕ → List Byte
fours n = four

abbrev shared : (ℕ → Op) → System (small_world 0) Answer
shared calls = sharing stream calls machine

mutex_free_mixed : (follow schedule (shared mixed)).machine.held 2 ≡ false
unfolding follow take_step move run_op read read_at read_head read_middle read_tail trim with_lock
    aligned capacity slice sector_buf Io.read check int64 int32 uint64 ◌+ℤ◌ ◌-ℤ◌ advance seek
    seek_from seek_to
mutex_free_mixed = refl

mutex_free_fours : (follow schedule (shared (λ i. reads (fours i)))).machine.held 2 ≡ false
unfolding follow take_step move run_op read read_at read_head read_middle read_tail trim with_lock
    aligned capacity slice sector_buf Io.read check int64 int32 uint64 ◌+ℤ◌ ◌-ℤ◌ advance
mutex_free_fours = refl

stream_calls-Serially_example :
    (runs : List (ℕ × Answer)) × Serially
      (λ i. run_op stream (mixed i))
      machine
      runs
      (follow schedule (shared mixed)).machine
    × ((i : ℕ)
        → (follow schedule (shared mixed)).threads i
          ≡ left (λ i. run_op stream (mixed i)) machine runs i)
stream_calls-Serially_example =
    stream_calls-Serially stream mixed machine (λ e. absurd (omega arith)) refl
      (follow-Reach schedule (shared mixed) (shared mixed) start) mutex_free_mixed

concurrent_reads_contiguous_example :
    (runs : List (ℕ × Answer)) × ((i : ℕ)
      → (follow schedule (shared (λ i. reads (fours i)))).threads i
        ≡ left (λ i. run_op stream (reads (fours i))) machine runs i)
    × Serially
        (λ i. run_op stream (reads (fours i)))
        machine
        runs
        (follow schedule (shared (λ i. reads (fours i)))).machine
    × IsStanding stream disk fours machine 100 runs
        (follow schedule (shared (λ i. reads (fours i)))).machine
concurrent_reads_contiguous_example =
    concurrent_reads_contiguous stream disk fours machine 100 (λ i. omega arith) (omega arith)
      (omega arith) stream-IsAt
      (follow-Reach schedule (shared (λ i. reads (fours i))) (shared (λ i. reads (fours i))) start)
      mutex_free_fours

-- The first goroutine writes across two sectors, the others read one of them.
abbrev crossing : ℕ → AtOp
crossing zero = writes_at four 510
crossing (suc n) = reads_at (replicate 4 0) 511

crossing-IsUnaligned : (i : ℕ) → IsUnaligned handle (crossing i)
unfolding aligned
crossing-IsUnaligned zero = record { inside = omega arith; fits = omega arith; cut = refl }
crossing-IsUnaligned (suc n) = record { inside = omega arith; fits = omega arith; cut = refl }

abbrev crossing_schedule : List ℕ
crossing_schedule = 0 ∷ 1 ∷ 0 ∷ 0 ∷ 1 ∷ 0 ∷ 0 ∷ 0 ∷ replicate 8 1

abbrev crossed : System (small_world 0) AtAnswer
crossed =
    follow crossing_schedule
      (record { machine = machine; threads = λ i. run_at handle (crossing i) })

mutex_free_crossed : crossed.machine.held 1 ≡ false
unfolding follow take_step move run_at read_at read_head read_middle read_tail write_at write_head
    write_middle write_tail trim with_lock aligned capacity slice sector_buf Io.read Io.write check
    int64 int32 uint64 ◌+ℤ◌ ◌-ℤ◌
mutex_free_crossed = refl

unaligned_calls_atomic_example :
    (runs : List (ℕ × AtAnswer)) × ((i : ℕ)
      → crossed.threads i ≡ left (λ j. run_at handle (crossing j)) machine runs i)
    × AreRight handle disk crossing machine runs
    × (disk.content crossed.machine.lib ≡ content_after handle disk crossing machine runs)
unaligned_calls_atomic_example =
    unaligned_calls_atomic handle disk (omega arith) disk-IsHealthy crossing machine
      crossing-IsUnaligned refl (follow-Reach crossing_schedule _ _ start) mutex_free_crossed

-- An aligned write takes no lock. Between the read and the write of an unaligned one it is lost:
-- both report success, and the sector has its old bytes beside those of the unaligned write.
abbrev clashing : ℕ → AtOp
clashing zero = writes_at four 2
clashing (suc n) = writes_at (replicate 512 77) 0

abbrev clashed : System (small_world 0) AtAnswer
clashed =
    follow (0 ∷ 0 ∷ 1 ∷ 0 ∷ 0 ∷ [])
      (record { machine = machine; threads = λ i. run_at handle (clashing i) })

clashed_aligned_lost :
    (bytes_at (clashed.machine.lib 9) 0 7 ≡ 0 ∷ 1 ∷ 1 ∷ 2 ∷ 3 ∷ 4 ∷ 6 ∷ [])
    × (clashed.threads 0 ≡ ret (inr (4, none)))
    × (clashed.threads 1 ≡ ret (inr (512, none)))
unfolding follow take_step move run_at write_at write_head write_middle write_tail with_lock aligned
    capacity slice sector_buf Io.read Io.write check int64 uint64 ◌+ℤ◌ ◌-ℤ◌
clashed_aligned_lost = (refl, refl, refl)

-- The goroutine 0 holds the mutex and has yet to read.
abbrev halfway : System (small_world 0) Answer
halfway = follow (0 ∷ 1 ∷ 0 ∷ []) (shared (λ i. reads (fours i)))

concurrent_reads_end_example : (u : System (small_world 0) Answer) × AllEnd 2 5 halfway u
concurrent_reads_end_example =
    concurrent_reads_end stream disk fours machine 100 (λ i. omega arith) (omega arith)
      (omega arith) stream-IsAt 5
      (follow-Reach (0 ∷ 1 ∷ 0 ∷ []) (shared (λ i. reads (fours i))) _ start)

abbrev half_crossed : System (small_world 0) AtAnswer
half_crossed =
    follow (0 ∷ 1 ∷ 0 ∷ [])
      (record { machine = machine; threads = λ i. run_at handle (crossing i) })

unaligned_calls_end_example : (u : System (small_world 0) AtAnswer) × AllEnd 1 5 half_crossed u
unaligned_calls_end_example =
    unaligned_calls_end handle disk crossing machine (omega arith) disk-IsHealthy
      crossing-IsUnaligned refl 5 (follow-Reach (0 ∷ 1 ∷ 0 ∷ []) _ _ start)
