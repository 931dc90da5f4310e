-- ===== src/Tests/Disk.antt =====
-- Reads, writes and streams on the small disk.
use virtual_disks.Base.{
  ◌+◌, ◌%◌, ◌≡◌, refl, inl, inr, false, none, [], ◌∷◌, List, arith, take, replicate,
}
use virtual_disks.Base.Bytes.{Byte, bytes_at, patch}
use virtual_disks.Base.Int.{pos, negsuc}
use virtual_disks.Base.Int.{◌+ℤ◌, ◌-ℤ◌}
use virtual_disks.Base.Word.{int64, int32, uint64}
use virtual_disks.Disklib.Io
use virtual_disks.Disklib.Types.{check}
use virtual_disks.Effects.{Machine, run, Ensures}
use virtual_disks.Disklib.Types.{ConnectParams, no_info}
use virtual_disks.Disk.Handle.{DiskConnectHandle, with_lock, aligned, capacity, slice, sector_buf}
use virtual_disks.Disk.ReadAt.{read_at, read_head, read_middle, read_tail, trim}
use virtual_disks.Disk.ReadAt.Correct.{IsReadAt, read_at-reads}
use virtual_disks.Disk.ReadAt.Healthy.{read_at_short_count}
use virtual_disks.Disk.WriteAt.{write_at}
use virtual_disks.Disk.WriteAt.Correct.{
  IsWriteAt, write_at-writes, write_at-writes_count, write_at_healthy,
}
use virtual_disks.Disk.Aligned.{read_direct, write_direct, read_at-direct, write_at-direct}
use virtual_disks.Effects.Only.{Only}
use virtual_disks.Disk.Footprint.Inside.{IsInsideStep}
use virtual_disks.Disk.Footprint.Inside.Reads.{read_at-IsInside}
use virtual_disks.Disk.Footprint.Inside.Writes.{write_at-IsInside}
use virtual_disks.Disk.RoundTrip.{write_then_read, read_at-write_at}
use virtual_disks.Disk.Stream.{DiskReaderWriter, read, write, seek}
use virtual_disks.Disk.Stream.Sequential.{IsAt, IsStreamRead, read-advances}
use virtual_disks.Disk.Stream.Seeking.{IsSeek, target, seek-IsSeek}
use virtual_disks.Disk.Stream.Writing.{IsStreamWrite, write-advances}
use virtual_disks.Tests.Device.{num_sectors, small_world, disk, disk-IsHealthy, disk-IsAtomic}

abbrev pub params : ConnectParams
params = record {
  vmx_spec = "moref=vm-16";
  server_name = "vc";
  thumb_print = "";
  user_name = "root";
  password = "pw";
  fcd_id = "";
  ds = "";
  fcdss_id = "";
  cookie = "";
  identity = "id";
  path = "[ds] vm.vmdk";
  flag = 0;
  read_only = false;
  snapshot_ref = "";
  mode = "nbd";
}

abbrev pub handle : DiskConnectHandle
handle = record {
  mutex = 1;
  dli = 9;
  conn = 7;
  params = params;
  info = record no_info { capacity = num_sectors };
}

abbrev pub machine : Machine (small_world 0)
machine = record { held = λ m. false; cells = λ c. pos 100; lib = λ dli i. i % 251 }

abbrev pub stream : DiskReaderWriter
stream = record { disk_handle = handle; offset = 5; mutex = 2 }

abbrev pub four : List Byte
four = 1 ∷ 2 ∷ 3 ∷ 4 ∷ []

abbrev zeros : List Byte
zeros = replicate 1000 0

pub stream-IsAt : IsAt stream disk 100 machine
stream-IsAt = record {
  offset = refl;
  free = refl;
  handle_free = refl;
  apart = λ e. absurd (omega arith);
}

-- Four bytes across the border of two sectors: all are there, and two are reported.
read_across :
    Ensures
      (run (read_at handle (0 ∷ 0 ∷ 0 ∷ 0 ∷ []) (pos 510)) machine)
      (λ r t. r ≡ (8 ∷ 9 ∷ 10 ∷ 11 ∷ [], 2, none))
unfolding run read_at read_head read_middle read_tail trim with_lock aligned capacity slice
    sector_buf Io.read check int64 int32 uint64 ◌+ℤ◌ ◌-ℤ◌
read_across = refl

read_at-reads_example :
    Ensures
      (run (read_at handle zeros (pos 1500)) machine)
      (IsReadAt handle disk machine zeros 1500)
read_at-reads_example =
    read_at-reads handle disk machine zeros 1500 (omega arith) (omega arith) (omega arith)
      (inr (omega arith)) refl

read_at_short_count_example :
    Ensures
      (run (read_at handle four (pos 512)) machine)
      (λ r t. (r.2 ≡ none) × (r.0 ≡ bytes_at (machine.lib 9) 512 4) × (r.1 + 4 % 512 ≡ 4))
read_at_short_count_example =
    read_at_short_count handle disk machine four 512 disk-IsHealthy refl (omega arith) (omega arith)
      (omega arith) refl

write_at-writes_example :
    Ensures
      (run (write_at handle zeros (pos 100)) machine)
      (IsWriteAt handle disk machine zeros 100)
write_at-writes_example =
    write_at-writes handle disk machine zeros 100 (omega arith) (omega arith) refl

write_at-writes_count_example :
    Ensures
      (run (write_at handle four (pos 510)) machine)
      (λ r t. t.lib 9 ≡ patch (machine.lib 9) 510 (take r.0 four))
write_at-writes_count_example =
    write_at-writes_count handle disk machine four 510 disk-IsAtomic (omega arith) (omega arith)
      refl

write_at_healthy_example :
    Ensures
      (run (write_at handle four (pos 510)) machine)
      (λ r t. (r ≡ (4, none)) × (t.lib 9 ≡ patch (machine.lib 9) 510 four))
write_at_healthy_example =
    write_at_healthy handle disk machine four 510 disk-IsHealthy (omega arith) (omega arith) refl

read_at-write_at_example :
    Ensures
      (run (write_then_read handle four (9 ∷ 9 ∷ 9 ∷ 9 ∷ []) 510) machine)
      (λ r t. (r.0 ≡ four) × (t.lib 9 ≡ patch (machine.lib 9) 510 four))
read_at-write_at_example =
    read_at-write_at handle disk machine four (9 ∷ 9 ∷ 9 ∷ 9 ∷ []) 510 disk-IsHealthy refl
      (omega arith) (omega arith) (omega arith) refl

read-advances_example :
    Ensures (run (read stream four) machine) (IsStreamRead stream disk machine four 100)
read-advances_example =
    read-advances stream disk machine four 100 stream-IsAt (omega arith) (omega arith) (omega arith)
      (inl (omega arith))

seek-IsSeek_example : Ensures (run (seek stream (negsuc 199) (pos 1)) machine) (
    IsSeek stream disk machine 100 stream-IsAt
      (target stream disk machine 100 stream-IsAt (negsuc 199) (pos 1)))
seek-IsSeek_example = seek-IsSeek stream disk machine 100 stream-IsAt (negsuc 199) (pos 1)

write-advances_example :
    Ensures
      (run (write stream four) machine)
      (IsStreamWrite stream disk machine four 100 stream-IsAt)
write-advances_example =
    write-advances stream disk machine four 100 stream-IsAt (omega arith) (omega arith)

abbrev sector : List Byte
sector = replicate 512 7

read_at-direct_example : read_at handle sector (pos 1024) ≡ read_direct handle sector 1024
read_at-direct_example =
    read_at-direct handle sector 1024 (omega arith) refl refl (omega arith) (omega arith)

write_at-direct_example : write_at handle sector (pos 1024) ≡ write_direct handle sector 1024
write_at-direct_example =
    write_at-direct handle sector 1024 (omega arith) refl refl (omega arith) (omega arith)

read_at-IsInside_example : Only (IsInsideStep handle) (read_at handle zeros (pos 1500))
read_at-IsInside_example =
    read_at-IsInside handle (omega arith) zeros 1500 (omega arith) (inr (omega arith))

write_at-IsInside_example : Only (IsInsideStep handle) (write_at handle zeros (pos 100))
write_at-IsInside_example = write_at-IsInside handle (omega arith) zeros 100 (omega arith)
