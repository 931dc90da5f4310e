-- ===== src/Disk/Progress.antt =====
-- Goroutines that read one stream, or read and write one disk: how their run can go on.
use virtual_disks.Base.{ℕ, ◌+◌, ◌≤◌, ◌<◌, ◌^◌, ◌≡◌, false, List, length}
use virtual_disks.Base.Bytes.{Byte}
use virtual_disks.Vddk.{World}
use virtual_disks.Effects.{Machine, run}
use virtual_disks.Threads.{System, Reach}
use virtual_disks.Threads.Progress.{Ensures-done}
use virtual_disks.Threads.Progress.Turns.{AllEnd, Reach-AllEnd}
use virtual_disks.Device.{IsDisk, IsHealthy}
use virtual_disks.Disk.Handle.{DiskConnectHandle, size}
use virtual_disks.Disk.Stream.{DiskReaderWriter}
use virtual_disks.Disk.Stream.Sequential.{IsAt}
use virtual_disks.Disk.Stream.Calls.{Answer, reads, run_op, run_op-IsSection}
use virtual_disks.Disk.Stream.Concurrent.{Standing, sharing, reads_one_more, Serially-Standing}
use virtual_disks.Disk.Concurrent.{
  AtOp, AtAnswer, run_at, IsUnaligned, run_at-IsSection, run_at-Ensures, Serially-AreRight,
}

-- Any number of goroutines read from a stream that stands at `o` and whose locks are free and two,
-- each with a buffer of at most 2 GiB, interleaved in any way. However far they are, they are not
-- stuck: the run can go on to a state in which the first `n` of them have returned, for any `n`, and
-- nobody holds the stream's mutex. `o` lies at most 2 GiB behind the disk's end, and the disk is more
-- than 4 GiB smaller than the largest offset.
pub concurrent_reads_end :
    {W : World} (d : DiskReaderWriter) (D : IsDisk W d.disk_handle.dli d.disk_handle.info.capacity)
    (bufs : ℕ → List Byte) (s₀ : Machine W) (o : ℕ)
    → ((i : ℕ) → length (bufs i) ≤ 2 ^ 31)
    → size d.disk_handle + 2 ^ 32 < 2 ^ 63
    → o ≤ size d.disk_handle + 2 ^ 31
    → (at : IsAt d D o s₀) (n : ℕ) {s : System W Answer}
    → Reach (sharing d (λ i. reads (bufs i)) s₀) s
    → (u : System W Answer) × AllEnd d.mutex n s u
unfolding Standing
concurrent_reads_end {W} d D bufs s₀ o short small near at n r =
    Reach-AllEnd (λ i. run_op d (reads (bufs i))) s₀ d.mutex
      (λ i. run_op-IsSection d at.apart (reads (bufs i)))
      (λ runs t i serially fresh. Ensures-done (run (run_op d (reads (bufs i))) t) _ (
        reads_one_more d D bufs s₀ o short small near at runs i t
          (Serially-Standing d D bufs s₀ o short small near at runs t serially)))
      n at.free r

-- Any number of goroutines call `ReadAt` and `WriteAt` on one handle, each within the disk and not
-- both from a sector's start and of whole sectors, interleaved in any way; the mutex is free at the
-- start, the disk is smaller than 2^63 bytes, and no request of the library within it fails. However
-- far they are, they are not stuck: the run can go on to a state in which the first `n` of them have
-- returned, for any `n`, and nobody holds the mutex.
pub unaligned_calls_end :
    {W : World} (h : DiskConnectHandle) (D : IsDisk W h.dli h.info.capacity) (ops : ℕ → AtOp)
    (s₀ : Machine W)
    → size h < 2 ^ 63
    → IsHealthy D
    → ((i : ℕ) → IsUnaligned h (ops i))
    → s₀.held h.mutex ≡ false
    → (n : ℕ) {s : System W AtAnswer}
    → Reach (record { machine = s₀; threads = λ i. run_at h (ops i) }) s
    → (u : System W AtAnswer) × AllEnd h.mutex n s u
unaligned_calls_end h D ops s₀ small good unaligned free n r =
    Reach-AllEnd (λ i. run_at h (ops i)) s₀ h.mutex
      (λ i. run_at-IsSection h D small s₀ (ops i) (unaligned i))
      (λ runs t i serially fresh. Ensures-done (run (run_at h (ops i)) t) _ (
        run_at-Ensures h D small good t (ops i) (unaligned i)
          (Serially-AreRight h D small good ops s₀ unaligned free runs t serially).0))
      n free r
